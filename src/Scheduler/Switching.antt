-- ===== src/Scheduler/Switching.antt =====
-- How `scheduler_schedule` of src/exec/scheduler.c goes from one thread to the next.
use utopia.Base.{
  ℕ, ◌≡◌, refl, ap, ◌∙◌, ◌≢◌, inl, inr, Bool, true, false, not, ◌&&◌, Option, none, some, List, [],
  ◌∷◌, ◌++◌, arith, ◌==◌, if◌then◌else◌, ==_self, ==_ne, Bool-cases, Option-cases,
}
use utopia.Scheduler.{
  ready, running, is_running, is_blocked, Thread, Scheduler, update, link, enqueue, dequeue, park,
  bury, requeue, pick, switch_root, switched, switch,
}
use utopia.Scheduler.Chains.{Fresh, Chain-update}
use utopia.Scheduler.ReadyQueue.{same-Queue, Queue, AllReady-update, enqueue-Queue, dequeue-Queue}
use utopia.Scheduler.Calls.{save, reschedule, schedule}

module _ {R : Type 0} where
  update-regs :
      (t i : ℕ) (th : Thread R) (threads : ℕ → Thread R)
      → th.regs ≡ (threads t).regs
      → (update t th threads i).regs ≡ (threads i).regs
  update-regs t i th threads e = elim (Bool-cases (i == t)) [
    | inl y ↦ let at : t ≡ i = ground arith in rw y (e ∙ ap (λ k. (threads k).regs) at)
    | inr n ↦ rw n
  ]

  link-regs :
      (tail : Option ℕ) (t i : ℕ) (threads : ℕ → Thread R)
      → (link tail t threads i).regs ≡ (threads i).regs
  unfolding link
  link-regs none t i threads = refl
  link-regs (some l) t i threads =
      update-regs l i (record (threads l) { next = some t }) threads refl

  enqueue-regs : (t i : ℕ) (s : Scheduler R) → ((enqueue t s).threads i).regs ≡ (s.threads i).regs
  unfolding enqueue
  enqueue-regs t i s =
      let th : Thread R = record (s.threads t) { state = ready; next = none } in
      link-regs s.ready_tail t i (update t th s.threads) ∙ update-regs t i th s.threads refl

  dequeue-regs : (i : ℕ) (s : Scheduler R) → ((dequeue s).1.threads i).regs ≡ (s.threads i).regs
  unfolding dequeue
  dequeue-regs i s = elim (Option-cases s.ready_head) [
    | inl e ↦ rw e refl
    | inr (t, e) ↦ rw e (update-regs t i _ s.threads refl)
  ]

  dequeue-current : (s : Scheduler R) → (dequeue s).1.current ≡ s.current
  unfolding dequeue
  dequeue-current s = elim (Option-cases s.ready_head) [
    | inl e ↦ rw e refl
    | inr (t, e) ↦ rw e refl
  ]

  -- The root of the page table is all that this changes.
  switch_root-rest :
      (cpu : ℕ) (root : Option ℕ) (s : Scheduler R)
      → ((switch_root cpu root s).threads ≡ s.threads)
        × ((switch_root cpu root s).current ≡ s.current)
        × ((switch_root cpu root s).ready_head ≡ s.ready_head)
        × ((switch_root cpu root s).ready_tail ≡ s.ready_tail)
  unfolding switch_root
  switch_root-rest cpu none s = elim (Bool-cases (s.boot_cr3 cpu == 0)) [
    | inl y ↦ rw y (refl, refl, refl, refl)
    | inr n ↦ rw n (refl, refl, refl, refl)
  ]
  switch_root-rest cpu (some root) s = elim (Bool-cases (root == 0)) [
    | inl y ↦ rw y (refl, refl, refl, refl)
    | inr n ↦ rw n (refl, refl, refl, refl)
  ]

  -- The switch to a thread `n` that is not in the ready queue leaves the queue, and makes `n` the
  -- current thread of the CPU.
  switch-Queue :
      (cpu curr n : ℕ) (s : Scheduler R) (xs : List ℕ)
      → Queue s xs
      → Fresh n xs
      → Queue (switch cpu curr n s) xs
        × ((switch cpu curr n s).current cpu ≡ some n)
        × (((switch cpu curr n s).threads n).state ≡ running)
        × ((i : ℕ) → ((switch cpu curr n s).threads i).regs ≡ (s.threads i).regs)
  unfolding switch switched
  switch-Queue cpu curr n s xs q f =
      let root : Option ℕ = if (s.threads n).process then (s.threads n).page_table else none in
      let s1 : Scheduler R = switched cpu curr n s in
      let (a, b, c, d) = switch_root-rest cpu root s1 in
      let q1 : Queue s1 xs = record {
        chain = Chain-update s.threads s.ready_head xs n _ f q.chain;
        tail = q.tail;
        distinct = q.distinct;
        states = AllReady-update s.threads xs n _ (inr f) q.states;
      } in
      (
        same-Queue s1 (switch_root cpu root s1) xs a c d q1,
        ap (λ k. k cpu) b ∙ rw (==_self cpu),
        ap (λ k. (k n).state) a ∙ rw (==_self n),
        λ i.
            ap (λ k. (k i).regs) a
            ∙ update-regs n i (record (s.threads n) { state = running }) s.threads refl,
      )

  save-Queue :
      (from_kernel : R → Bool) (kernel_frame : R → R) (curr : ℕ) (regs : R) (s : Scheduler R)
      (xs : List ℕ)
      → Fresh curr xs
      → Queue s xs
      → Queue (save from_kernel kernel_frame curr regs s) xs
  unfolding save
  save-Queue from_kernel kernel_frame curr regs s xs f q = record {
    chain = Chain-update s.threads s.ready_head xs curr _ f q.chain;
    tail = q.tail;
    distinct = q.distinct;
    states = AllReady-update s.threads xs curr _ (inr f) q.states;
  }

  park-none : (cpu : ℕ) (s : Scheduler R) → s.pending_park cpu ≡ none → park cpu s ≡ s
  unfolding park
  park-none cpu s e = rw (park, e)

  bury-none : (cpu : ℕ) (s : Scheduler R) → s.pending_zombie cpu ≡ none → bury cpu s ≡ s
  unfolding bury
  bury-none cpu s e = rw (bury, e)

  requeue-running :
      (cpu curr i : ℕ) (s : Scheduler R)
      → is_running (s.threads curr).state ≡ true
      → s.idle cpu ≡ some i
      → i ≢ curr
      → requeue cpu curr s ≡ enqueue curr s
  unfolding requeue
  requeue-running cpu curr i s runs idle_at ne = rw (requeue, runs, idle_at, ==_ne i curr ne)

  pick-some :
      (cpu curr n : ℕ) (s : Scheduler R)
      → (dequeue s).0 ≡ some n
      → pick cpu curr s ≡ (n, (dequeue s).1)
  unfolding pick
  pick-some cpu curr n s e = rw (pick, e)

  schedule-user :
      (from_kernel : R → Bool) (kernel_frame : R → R) (cpu curr : ℕ) (regs : R) (s : Scheduler R)
      → s.context_switch_lock ≡ false
      → from_kernel regs ≡ false
      → s.current cpu ≡ some curr
      → schedule from_kernel kernel_frame cpu regs s
        ≡ reschedule from_kernel kernel_frame cpu curr regs s
  unfolding schedule
  schedule-user from_kernel kernel_frame cpu curr regs s unlocked user at =
      let away : (from_kernel regs
            && (s.threads curr).process
            && not (is_blocked (s.threads curr).state))
          ≡ false =
        ap (λ b. b && (s.threads curr).process && not (is_blocked (s.threads curr).state)) user in
      let leave : ℕ → R × Scheduler R = λ c.
        if from_kernel regs && (s.threads c).process && not (is_blocked (s.threads c).state)
        then (regs, s)
        else reschedule from_kernel kernel_frame cpu c regs s in
      ap
        (λ b. if b then (regs, s) else elim (s.current cpu) as (λ x. R × Scheduler R) [
          | none ↦ (regs, s)
          | some c ↦ leave c
        ])
        unlocked
      ∙ ap (λ o. elim o as (λ x. R × Scheduler R) [ none ↦ (regs, s) | some c ↦ leave c ]) at
      ∙ ap (λ b. if b then (regs, s) else reschedule from_kernel kernel_frame cpu curr regs s) away

  reschedule-other :
      (from_kernel : R → Bool) (kernel_frame : R → R) (cpu curr n : ℕ) (regs : R)
      (s s1 : Scheduler R)
      → requeue cpu curr (bury cpu (park cpu (save from_kernel kernel_frame curr regs s))) ≡ s1
      → (dequeue s1).0 ≡ some n
      → (n == curr) ≡ false
      → reschedule from_kernel kernel_frame cpu curr regs s
        ≡ (((dequeue s1).1.threads n).regs, switch cpu curr n (dequeue s1).1)
  unfolding reschedule
  reschedule-other from_kernel kernel_frame cpu curr n regs s s1 ran first other =
      rw (reschedule, ran, pick-some cpu curr n s1 first, other)

  -- Round robin: when the timer interrupts a running thread in user mode, the thread at the front of
  -- the ready queue runs next, with the registers that were saved for it, and the interrupted one goes
  -- to the end of the queue with its registers saved. This is for a CPU without a thread that waits to
  -- be parked or buried, and for a thread that is not the idle one.
  pub schedule-rotates :
      (from_kernel : R → Bool) (kernel_frame : R → R) (cpu curr i n : ℕ) (xs : List ℕ) (regs : R)
      (s : Scheduler R)
      → s.context_switch_lock ≡ false
      → from_kernel regs ≡ false
      → s.current cpu ≡ some curr
      → s.idle cpu ≡ some i
      → i ≢ curr
      → s.pending_park cpu ≡ none
      → s.pending_zombie cpu ≡ none
      → is_running (s.threads curr).state ≡ true
      → Queue s (n ∷ xs)
      → Fresh curr (n ∷ xs)
      → ((schedule from_kernel kernel_frame cpu regs s).0 ≡ (s.threads n).regs)
        × Queue (schedule from_kernel kernel_frame cpu regs s).1 (xs ++ (curr ∷ []))
        × ((schedule from_kernel kernel_frame cpu regs s).1.current cpu ≡ some n)
        × (((schedule from_kernel kernel_frame cpu regs s).1.threads curr).regs ≡ regs)
  unfolding save
  schedule-rotates from_kernel kernel_frame cpu curr i n xs regs s unlocked user at idle_at ne
        no_park no_zombie runs q f =
      let s0 : Scheduler R = save from_kernel kernel_frame curr regs s in
      let saved : s0.threads curr ≡ record (s.threads curr) {
        regs = if from_kernel regs then kernel_frame regs else regs;
      } =
        rw (==_self curr) in
      let ran : requeue cpu curr (bury cpu (park cpu s0)) ≡ enqueue curr s0 =
        ap (λ x. requeue cpu curr (bury cpu x)) (park-none cpu s0 no_park)
        ∙ ap (requeue cpu curr) (bury-none cpu s0 no_zombie)
        ∙ requeue-running cpu curr i s0 (ap (λ th. is_running th.state) saved ∙ runs) idle_at ne in
      let q1 : Queue (enqueue curr s0) (n ∷ (xs ++ (curr ∷ []))) =
        enqueue-Queue s0 (n ∷ xs) curr
          (save-Queue from_kernel kernel_frame curr regs s (n ∷ xs) f q) f in
      let (first, q2) = dequeue-Queue (enqueue curr s0) n (xs ++ (curr ∷ [])) q1 in
      let other : (n == curr) ≡ false = ==_ne n curr f.0 in
      let result : schedule from_kernel kernel_frame cpu regs s ≡ (
        ((dequeue (enqueue curr s0)).1.threads n).regs,
        switch cpu curr n (dequeue (enqueue curr s0)).1,
      ) =
        schedule-user from_kernel kernel_frame cpu curr regs s unlocked user at
        ∙ reschedule-other from_kernel kernel_frame cpu curr n regs s (enqueue curr s0) ran first
            other in
      let (q3, now, _, kept) =
        switch-Queue cpu curr n (dequeue (enqueue curr s0)).1 (xs ++ (curr ∷ [])) q2
          q1.distinct.0 in
      rw result (
        dequeue-regs n (enqueue curr s0) ∙ enqueue-regs curr n s0 ∙ rw (==_ne n curr f.0),
        q3,
        now,
        kept curr
            ∙ dequeue-regs curr (enqueue curr s0)
            ∙ enqueue-regs curr curr s0
            ∙ ap (λ th. th.regs) saved
            ∙ rw user,
      )
