-- ===== src/Scheduler/ReadyQueue.antt =====
-- The ready queue of src/exec/scheduler.c is a queue of distinct threads that are ready.
use mathlib.Core.Option
use utopia.Base.{
  ℕ, ◌≡◌, refl, sym, ap, ◌∙◌, subst, ◌≢◌, ◌⊎◌, inl, inr, Option, none, some, List, [], ◌∷◌, ◌++◌,
  ◌==◌, ==_self, ==_ne, Bool-cases, Option-cases,
}
use utopia.Scheduler.{ready, Thread, Scheduler, update, link, enqueue, dequeue}
use utopia.Scheduler.Chains.{
  Chain, Fresh, Distinct, Apart, last, last-append, last-Apart, Chain-update, Chain-link,
  Distinct-snoc, last-some, last-Fresh,
}

abbrev pub AllReady : {R : Type 0} → (ℕ → Thread R) → List ℕ → Type 0
AllReady threads [] = Unit {0}
AllReady threads (x ∷ xs) = ((threads x).state ≡ ready) × AllReady threads xs

-- The ready queue holds the threads of the list, the first first.
pub record Queue {R : Type 0} (s : Scheduler R) (xs : List ℕ) : Type 0 where
  pub chain : Chain s.threads s.ready_head xs
  pub tail : s.ready_tail ≡ last xs
  pub distinct : Distinct xs
  pub states : AllReady s.threads xs

module _ {R : Type 0} where
  pub AllReady-update :
      (threads : ℕ → Thread R) (xs : List ℕ) (t : ℕ) (th : Thread R)
      → ((th.state ≡ ready) ⊎ Fresh t xs)
      → AllReady threads xs
      → AllReady (update t th threads) xs
  AllReady-update threads [] t th f a = tt
  AllReady-update threads (x ∷ xs) t th (inl is) a = (
    elim (Bool-cases (x == t)) [ inl y ↦ rw y is | inr n ↦ rw n a.0 ],
    AllReady-update threads xs t th (inl is) a.1,
  )
  AllReady-update threads (x ∷ xs) t th (inr f) a =
      (rw (==_ne x t f.0) a.0, AllReady-update threads xs t th (inr f.1) a.1)

  AllReady-append :
      (threads : ℕ → Thread R) (xs : List ℕ) (t : ℕ)
      → AllReady threads xs
      → (threads t).state ≡ ready
      → AllReady threads (xs ++ (t ∷ []))
  AllReady-append threads [] t a e = (e, tt)
  AllReady-append threads (x ∷ xs) t a e = (a.0, AllReady-append threads xs t a.1 e)

  last-AllReady :
      (threads : ℕ → Thread R) (xs : List ℕ) (l : ℕ)
      → AllReady threads xs
      → last xs ≡ some l
      → (threads l).state ≡ ready
  last-AllReady threads [] l a e = absurd (Option.none-ne-some l e)
  last-AllReady threads (x ∷ []) l a e =
      ap (λ k. (threads k).state) (sym (Option.some-injective x l e)) ∙ a.0
  last-AllReady threads (x ∷ y ∷ xs) l a e = last-AllReady threads (y ∷ xs) l a.1 e

  -- `enqueue_locked` puts a thread at the end of the ready queue.
  pub enqueue-Queue :
      (s : Scheduler R) (xs : List ℕ) (t : ℕ)
      → Queue s xs
      → Fresh t xs
      → Queue (enqueue t s) (xs ++ (t ∷ []))
  unfolding enqueue link
  enqueue-Queue s [] t q f = record {
    chain = rw (q.tail, ==_self t) (refl, tt);
    tail = refl;
    distinct = (tt, tt);
    states = rw (q.tail, ==_self t) (refl, tt);
  }
  enqueue-Queue s (x ∷ xs) t q f =
      let threads : ℕ → Thread R =
        update t (record (s.threads t) { state = ready; next = none }) s.threads in
      let (l, at) = last-some x xs in
      let tail_at : s.ready_tail ≡ some l = q.tail ∙ at in
      let new : threads t ≡ record (s.threads t) { state = ready; next = none } = rw (==_self t) in
      let states : AllReady threads (x ∷ xs) =
        AllReady-update s.threads (x ∷ xs) t _ (inr f) q.states in
      record {
        chain = rw tail_at (
            Chain-link threads s.ready_head x xs l t (record (threads l) { next = some t })
              (Chain-update s.threads s.ready_head (x ∷ xs) t _ f q.chain) q.distinct f at refl
              (ap (λ th. th.next) new));
        tail = sym (last-append (x ∷ xs) t);
        distinct = Distinct-snoc (x ∷ xs) t q.distinct f;
        states =
            subst (λ o. AllReady (link o t threads) ((x ∷ xs) ++ (t ∷ []))) (sym tail_at)
              (AllReady-update threads ((x ∷ xs) ++ (t ∷ [])) l
                (record (threads l) { next = some t })
                (inl (last-AllReady threads (x ∷ xs) l states at))
                (AllReady-append threads (x ∷ xs) t states (ap (λ th. th.state) new)));
      }

  -- It leaves the other lists as they are.
  pub enqueue-Chain :
      (s : Scheduler R) (xs ys : List ℕ) (t : ℕ) (h : Option ℕ)
      → Queue s xs
      → Apart xs ys
      → Fresh t ys
      → Chain s.threads h ys
      → Chain (enqueue t s).threads h ys
  unfolding enqueue link
  enqueue-Chain s xs ys t h q a f c = elim (Option-cases s.ready_tail) [
    | inl e ↦ rw e (Chain-update s.threads h ys t _ f c)
    | inr (l, e) ↦ rw e (
        Chain-update _ h ys l _ (last-Apart xs ys l a (sym q.tail ∙ e))
          (Chain-update s.threads h ys t _ f c))
  ]

  -- It writes to no thread but the new one and those in the ready queue.
  pub enqueue-other :
      (s : Scheduler R) (xs : List ℕ) (t i : ℕ)
      → Queue s xs
      → Fresh i xs
      → i ≢ t
      → (enqueue t s).threads i ≡ s.threads i
  unfolding enqueue link
  enqueue-other s xs t i q f n = elim (Option-cases s.ready_tail) [
    | inl e ↦ rw (e, ==_ne i t n)
    | inr (l, e) ↦
        let other : i ≢ l = λ at. last-Fresh xs l i f (sym q.tail ∙ e) (sym at) in
        rw (e, ==_ne i l other, ==_ne i t n)
  ]

  Chain-head :
      (threads : ℕ → Thread R) (h : Option ℕ) (x : ℕ) (xs : List ℕ)
      → Chain threads h (x ∷ xs)
      → h ≡ some x
  Chain-head threads none x xs c = absurd c
  Chain-head threads (some i) x xs c = ap some c.0

  tail-rest :
      (threads : ℕ → Thread R) (h tail : Option ℕ) (x : ℕ) (xs : List ℕ)
      → Chain threads h xs
      → tail ≡ last (x ∷ xs)
      → elim h as (λ o. Option ℕ) [ none ↦ none | some n ↦ tail ] ≡ last xs
  tail-rest threads none tail x [] c e = refl
  tail-rest threads none tail x (y ∷ xs) c e = absurd c
  tail-rest threads (some i) tail x [] c e = absurd c
  tail-rest threads (some i) tail x (y ∷ xs) c e = e

  -- `dequeue_locked` takes the first thread of the ready queue, and none from an empty one.
  pub dequeue-Queue :
      (s : Scheduler R) (x : ℕ) (xs : List ℕ)
      → Queue s (x ∷ xs)
      → ((dequeue s).0 ≡ some x) × Queue (dequeue s).1 xs
  unfolding dequeue
  dequeue-Queue s x xs q =
      let head_at : s.ready_head ≡ some x = Chain-head s.threads s.ready_head x xs q.chain in
      let c : Chain s.threads (some x) (x ∷ xs) =
        subst (λ h. Chain s.threads h (x ∷ xs)) head_at q.chain in
      rw head_at (
        refl,
        record {
          chain = Chain-update s.threads (s.threads x).next xs x _ q.distinct.0 c.1;
          tail = tail-rest s.threads (s.threads x).next s.ready_tail x xs c.1 q.tail;
          distinct = q.distinct.1;
          states = AllReady-update s.threads xs x _ (inr q.distinct.0) q.states.1;
        },
      )

  -- The queue depends on the threads and its two ends only.
  pub same-Queue :
      (s s' : Scheduler R) (xs : List ℕ)
      → s'.threads ≡ s.threads
      → s'.ready_head ≡ s.ready_head
      → s'.ready_tail ≡ s.ready_tail
      → Queue s xs
      → Queue s' xs
  same-Queue s s' xs a b c q = record {
    chain =
        subst (λ f. Chain f s'.ready_head xs) (sym a)
          (subst (λ h. Chain s.threads h xs) (sym b) q.chain);
    tail = c ∙ q.tail;
    distinct = q.distinct;
    states = subst (λ f. AllReady f xs) (sym a) q.states;
  }
