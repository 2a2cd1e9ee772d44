-- ===== src/Scheduler/Waiting.antt =====
-- The wait queues of src/exec/scheduler.c: no wake-up is lost.
use utopia.Base.{
  ℕ, zero, suc, ◌^◌, ◌<◌, ◌≡◌, refl, sym, ap, ◌∙◌, subst, ◌≢◌, inr, true, false, Option, none, some,
  List, [], ◌∷◌, ◌++◌, append-nil, append_assoc, arith, ◌==◌, ==_self, ==_ne, add64, length,
}
use utopia.Scheduler.{Scheduler, update, enqueue, park, park_on, unpark}
use utopia.Scheduler.Chains.{
  Chain, Fresh, Distinct, Chain-update, Distinct-middle, Fresh-snoc, Fresh-join, Distinct-without,
}
use utopia.Scheduler.ReadyQueue.{
  same-Queue, Queue, AllReady-update, enqueue-Queue, enqueue-Chain, enqueue-other,
}
use utopia.Scheduler.Calls.{wake, wake_all}

bumped : (n : ℕ) → n < 2 ^ 64 → add64 n 1 ≢ n
bumped n h e = ground arith

module _ {R : Type 0} where
  -- `waiting_on` of a thread does not matter to the ready queue.
  clear : ℕ → Scheduler R → Scheduler R
  clear t s = record s { threads = update t (record (s.threads t) { waiting_on = none }) s.threads }

  clear-Queue :
      (s : Scheduler R) (xs : List ℕ) (t : ℕ) → Fresh t xs → Queue s xs → Queue (clear t s) xs
  unfolding clear
  clear-Queue s xs t f q = record {
    chain = Chain-update s.threads s.ready_head xs t _ f q.chain;
    tail = q.tail;
    distinct = q.distinct;
    states = AllReady-update s.threads xs t _ (inr f) q.states;
  }

  -- What the loop of `scheduler_wake_all` leaves: the waiters `ws` stand behind those that were ready,
  -- and the other threads, the wait queues and what is pending are as before.
  record Woken (s s' : Scheduler R) (xs ws : List ℕ) : Type 0 where
    queue : Queue s' (xs ++ ws)
    queues : s'.queues ≡ s.queues
    pending : s'.pending_park ≡ s.pending_park
    others : (i : ℕ) → Fresh i xs → Fresh i ws → s'.threads i ≡ s.threads i

  wake-Woken :
      (fuel : ℕ) (s : Scheduler R) (h : Option ℕ) (xs ws : List ℕ)
      → Queue s xs
      → Chain s.threads h ws
      → Distinct (xs ++ ws)
      → length ws < fuel
      → (s' : Scheduler R) × (wake fuel h s ≡ some s') × Woken s s' xs ws
  unfolding wake clear enqueue
  wake-Woken zero s h xs ws q c d l = absurd (omega arith)
  wake-Woken (suc fuel) s none xs [] q c d l = (
    s,
    refl,
    record {
      queue = subst (Queue s) (sym (append-nil xs)) q;
      queues = refl;
      pending = refl;
      others = λ i f g. refl;
    },
  )
  wake-Woken (suc fuel) s none xs (w ∷ ws) q c d l = absurd c
  wake-Woken (suc fuel) s (some i) xs [] q c d l = absurd c
  wake-Woken (suc fuel) s (some i) xs (w ∷ ws) q c d l =
      let (f, g, a) = Distinct-middle xs w ws d in
      let f' : Fresh i xs = subst (λ k. Fresh k xs) (sym c.0) f in
      let g' : Fresh i ws = subst (λ k. Fresh k ws) (sym c.0) g in
      let q1 : Queue (clear i s) xs = clear-Queue s xs i f' q in
      let q2 : Queue (enqueue i (clear i s)) (xs ++ (i ∷ [])) =
        enqueue-Queue (clear i s) xs i q1 f' in
      let c2 : Chain (enqueue i (clear i s)).threads (s.threads i).next ws =
        enqueue-Chain (clear i s) xs ws i (s.threads i).next q1 a g'
          (Chain-update s.threads (s.threads i).next ws i _ g' c.1) in
      let shift : (xs ++ (i ∷ [])) ++ ws ≡ xs ++ (w ∷ ws) =
        append_assoc xs (i ∷ []) ws ∙ ap (λ k. xs ++ (k ∷ ws)) c.0 in
      let (s', ran, woken) =
        wake-Woken fuel (enqueue i (clear i s)) (s.threads i).next (xs ++ (i ∷ [])) ws q2 c2
          (subst Distinct (sym shift) d) (omega arith) in
      (
        s',
        ran,
        record {
          queue = subst (Queue s') shift woken.queue;
          queues = woken.queues;
          pending = woken.pending;
          others = λ k fx fw.
              let ne : k ≢ i = λ e. fw.0 (sym c.0 ∙ sym e) in
              woken.others k (Fresh-snoc k xs i fx (λ e. ne (sym e))) fw.1
              ∙ enqueue-other (clear i s) xs i k q1 fx ne
              ∙ rw (==_ne k i ne);
        },
      )

  signal : ℕ → Scheduler R → Scheduler R
  signal q s = record s {
    queues = update q (record { head = none; seq = add64 (s.queues q).seq 1 }) s.queues;
  }

  wake_all-Woken :
      (fuel q : ℕ) (s : Scheduler R) (xs ws : List ℕ)
      → Queue s xs
      → Chain s.threads (s.queues q).head ws
      → Distinct (xs ++ ws)
      → length ws < fuel
      → (s' : Scheduler R) × (wake_all fuel q s ≡ some s') × Woken (signal q s) s' xs ws
  unfolding wake_all signal
  wake_all-Woken fuel q s xs ws r c d l =
      wake-Woken fuel (signal q s) (s.queues q).head xs ws
        (same-Queue s (signal q s) xs refl refl refl r) c d l

  -- `scheduler_wake_all` counts the wake-up and empties the wait queue; its threads follow those that
  -- are ready, in their order. A list of waiters that is shorter than `fuel` is walked to its end.
  pub wake_all-Queue :
      (fuel q : ℕ) (s : Scheduler R) (xs ws : List ℕ)
      → Queue s xs
      → Chain s.threads (s.queues q).head ws
      → Distinct (xs ++ ws)
      → length ws < fuel
      → (s' : Scheduler R) × (wake_all fuel q s ≡ some s')
        × Queue s' (xs ++ ws)
        × (s'.queues q ≡ record { head = none; seq = add64 (s.queues q).seq 1 })
  unfolding signal
  wake_all-Queue fuel q s xs ws r c d l =
      let (s', ran, w) = wake_all-Woken fuel q s xs ws r c d l in
      (s', ran, w.queue, ap (λ g. g q) w.queues ∙ rw (==_self q))

  -- A thread `t` that `scheduler_wait` has blocked on the wait queue `q` and that the CPU has
  -- switched away from, but that is not on the list of the queue yet. There has been no wake-up since
  -- its snapshot; `xs` are ready and `ws` wait.
  pub record Parking (s : Scheduler R) (cpu t q : ℕ) (xs ws : List ℕ) : Type 0 where
    pub pending : s.pending_park cpu ≡ some t
    pub on : (s.threads t).waiting_on ≡ some q
    pub snapshot : (s.threads t).wait_seq ≡ (s.queues q).seq
    pub word : (s.queues q).seq < 2 ^ 64
    pub queue : Queue s xs
    pub waiters : Chain s.threads (s.queues q).head ws
    pub distinct : Distinct (xs ++ (t ∷ ws))

  -- Where the queue was woken after the snapshot, parking makes the thread ready again.
  park-woken :
      (s : Scheduler R) (cpu t q : ℕ) (ys : List ℕ)
      → s.pending_park cpu ≡ some t
      → (s.threads t).waiting_on ≡ some q
      → (s.queues q).seq ≢ (s.threads t).wait_seq
      → Queue s ys
      → Fresh t ys
      → Queue (park cpu s) (ys ++ (t ∷ []))
  unfolding park unpark clear
  park-woken s cpu t q ys pending on ne r f =
      let s' : Scheduler R = record s { pending_park = update cpu none s.pending_park } in
      let differs : ((s.queues q).seq == (s.threads t).wait_seq) ≡ false = ==_ne _ _ ne in
      rw (park, pending, on, differs)
        (enqueue-Queue (clear t s') ys t
          (clear-Queue s' ys t f (same-Queue s s' ys refl refl refl r)) f)

  -- Else it becomes the first of the waiters.
  park-waits :
      (s : Scheduler R) (cpu t q : ℕ) (xs ws : List ℕ)
      → Parking s cpu t q xs ws
      → Queue (park cpu s) xs × Chain (park cpu s).threads ((park cpu s).queues q).head (t ∷ ws)
  unfolding park park_on
  park-waits s cpu t q xs ws p =
      let (f, g, a) = Distinct-middle xs t ws p.distinct in
      let seen : ((s.queues q).seq == (s.threads t).wait_seq) ≡ true = rw p.snapshot (==_self _) in
      rw (park, p.pending, p.on, seen)
        (
          record {
            chain = Chain-update s.threads s.ready_head xs t _ f p.queue.chain;
            tail = p.queue.tail;
            distinct = p.queue.distinct;
            states = AllReady-update s.threads xs t _ (inr f) p.queue.states;
          },
          rw (==_self q)
              (refl, rw (==_self t) (Chain-update s.threads (s.queues q).head ws t _ g p.waiters)),
        )

  -- No wake-up is lost: whether `scheduler_wake_all` runs before the blocked thread is put on the
  -- list of its wait queue or after that, the thread ends up in the ready queue.
  pub park-wake_all :
      (fuel : ℕ) (s : Scheduler R) (cpu t q : ℕ) (xs ws : List ℕ)
      → Parking s cpu t q xs ws
      → suc (length ws) < fuel
      → ((s' : Scheduler R) × (wake_all fuel q s ≡ some s')
          × Queue (park cpu s') ((xs ++ ws) ++ (t ∷ [])))
        × ((s' : Scheduler R) × (wake_all fuel q (park cpu s) ≡ some s')
            × Queue s' (xs ++ (t ∷ ws)))
  unfolding signal
  park-wake_all fuel s cpu t q xs ws p l = (before, after)
    where
      before :
          (s' : Scheduler R) × (wake_all fuel q s ≡ some s')
          × Queue (park cpu s') ((xs ++ ws) ++ (t ∷ []))
      before =
          let (f, g, a) = Distinct-middle xs t ws p.distinct in
          let (s', ran, w) =
            wake_all-Woken fuel q s xs ws p.queue p.waiters (Distinct-without xs t ws p.distinct)
              (omega arith) in
          let same : s'.threads t ≡ s.threads t = w.others t f g in
          let bump : (s'.queues q).seq ≡ add64 (s.queues q).seq 1 =
            ap (λ k. (k q).seq) w.queues ∙ rw (==_self q) in
          let ne : (s'.queues q).seq ≢ (s'.threads t).wait_seq = λ e.
            bumped (s.queues q).seq p.word
              (sym bump ∙ e ∙ ap (λ th. th.wait_seq) same ∙ p.snapshot) in
          (
            s',
            ran,
            park-woken s' cpu t q (xs ++ ws) (ap (λ k. k cpu) w.pending ∙ p.pending)
                (ap (λ th. th.waiting_on) same ∙ p.on) ne w.queue (Fresh-join t xs ws f g),
          )

      after :
          (s' : Scheduler R) × (wake_all fuel q (park cpu s) ≡ some s') × Queue s' (xs ++ (t ∷ ws))
      after =
          let (r, c) = park-waits s cpu t q xs ws p in
          let (s', ran, r', e) = wake_all-Queue fuel q (park cpu s) xs (t ∷ ws) r c p.distinct l in
          (s', ran, r')
