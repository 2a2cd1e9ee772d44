-- ===== src/Keyboard/Read.antt =====
-- `keyboard_read` of src/drivers/keyboard/keyboard.c returns the first line of what is typed.
use utopia.Base.{
  ℕ, zero, suc, ◌+◌, ◌-◌, ◌≤◌, ◌<◌, ◌≡◌, refl, sym, ap, ◌∙◌, subst, ◌≢◌, inl, inr, Bool, true,
  false, ◌||◌, Option, none, some, List, [], ◌∷◌, ◌++◌, append-nil, append_assoc, arith, ◌==◌,
  if◌then◌else◌, ==_ne, Bool-cases, length, length-append,
}
use utopia.Keyboard.{
  arrive, after, store, more, Keyboard, buf_size, newline, push, pop, push_all, Drained, line,
  stopped, out_of_fuel, drain, Reading, returned, waiting, no_fuel, read, keyboard_read,
}
use utopia.Keyboard.Queue.{IsValid, queue, length-queue, push-queue, Popped, pop-Popped}

-- The first line of a stream, its newline included, cut to `room` characters.
abbrev pub first_line : ℕ → List ℕ → List ℕ
first_line zero q = []
first_line (suc room) [] = []
first_line (suc room) (c ∷ q) = c ∷ (if c == newline then [] else first_line room q)

-- The stream holds a whole line, or `room` characters.
abbrev pub ends : ℕ → List ℕ → Bool
ends zero q = true
ends (suc room) [] = false
ends (suc room) (c ∷ q) = c == newline || ends room q

abbrev pub flat : List (List ℕ) → List ℕ
flat [] = []
flat (b ∷ bs) = b ++ flat bs

-- What the inner loop has taken from the front of the queue.
abbrev DrainedAs : ℕ → Keyboard → Drained → Type 0
DrainedAs room k (line cs k') =
    IsValid k'
    × (queue k ≡ cs ++ queue k')
    × ((rest : List ℕ) → first_line room (cs ++ rest) ≡ cs)
    × ((rest : List ℕ) → ends room (cs ++ rest) ≡ true)
DrainedAs room k (stopped cs k') =
    IsValid k'
    × (queue k ≡ cs ++ queue k')
    × (length cs ≤ room)
    × ((length cs == room) ≡ false → queue k' ≡ [])
    × ((rest : List ℕ) → first_line room (cs ++ rest) ≡ cs ++ first_line (room - length cs) rest)
    × ((rest : List ℕ) → ends room (cs ++ rest) ≡ ends (room - length cs) rest)
DrainedAs room k out_of_fuel = ⊥

DrainedAs-more :
    (c room : ℕ) (k k' : Keyboard) (d : Drained)
    → (c == newline) ≡ false
    → queue k ≡ c ∷ queue k'
    → DrainedAs room k' d
    → DrainedAs (suc room) k (more c d)
unfolding more
DrainedAs-more c room k k' (line cs k'') other q h = (
  h.0,
  q ∙ ap (λ l. c ∷ l) h.1,
  (λ rest. rw other (ap (λ l. c ∷ l) (h.2 rest))),
  λ rest. rw other (h.3 rest),
)
DrainedAs-more c room k k' (stopped cs k'') other q h = (
  h.0,
  q ∙ ap (λ l. c ∷ l) h.1,
  omega (arith, h.2),
  (λ e. h.3 (ground arith)),
  (λ rest. rw (other, less) (ap (λ l. c ∷ l) (h.4 rest))),
  λ rest. rw (other, less) (h.5 rest),
)
  where
    less : suc room - suc (length cs) ≡ room - length cs
    less = omega arith
DrainedAs-more c room k k' out_of_fuel other q h = h

store-DrainedAs :
    (room : ℕ) (k : Keyboard) (rest : Keyboard → Drained) (r : Option ℕ × Keyboard)
    → IsValid k
    → Popped k r
    → ((k' : Keyboard)
        → IsValid k'
        → length (queue k') < length (queue k)
        → DrainedAs room k' (rest k'))
    → DrainedAs (suc room) k (store rest r)
unfolding store
store-DrainedAs room k rest (none, k') v p h =
    let whole : suc room ≡ suc room - 0 = omega arith in
    (
      rw p.1 v,
      p.0 ∙ sym (rw p.1 p.0),
      omega arith,
      (λ e. rw p.1 p.0),
      (λ l. ap (λ r. first_line r l) whole),
      λ l. ap (λ r. ends r l) whole,
    )
store-DrainedAs room k rest (some c, k') v p h = elim (Bool-cases (c == newline)) [
  | inl y ↦ rw (y, DrainedAs) (p.1, p.0, (λ l. rw y), λ l. rw y)
  | inr n ↦
      rw (n, DrainedAs)
        (DrainedAs-more c room k k' (rest k') n p.0 (h k' p.1 (omega (arith, ap length p.0))))
]

drain-DrainedAs :
    (fuel room : ℕ) (k : Keyboard)
    → IsValid k
    → length (queue k) < fuel
    → DrainedAs room k (drain fuel room k)
unfolding drain
drain-DrainedAs zero room k v h = absurd (omega arith)
drain-DrainedAs (suc fuel) zero k v h =
    (v, refl, omega arith, (λ e. cc), (λ rest. refl), λ rest. refl)
drain-DrainedAs (suc fuel) (suc room) k v h =
    store-DrainedAs room k (drain fuel room) (pop k) v (pop-Popped k v)
      λ k' v' less. drain-DrainedAs fuel room k' v' (omega arith)

push_all-queue :
    (b : List ℕ) (k : Keyboard)
    → IsValid k
    → length (queue k) + length b ≤ 255
    → IsValid (push_all b k) × (queue (push_all b k) ≡ queue k ++ b)
unfolding push_all
push_all-queue [] k v h = (v, sym (append-nil (queue k)))
push_all-queue (c ∷ b) k v h =
    let (v', q) = push-queue c k v in
    let room : (length (queue k) == 255) ≡ false = ground arith in
    let q' : queue (push c k) ≡ queue k ++ (c ∷ []) = rw room at q in
    let (w, r) =
      push_all-queue b (push c k) v'
        (omega (arith, ap length q', length-append (queue k) (c ∷ []))) in
    (w, r ∙ ap (λ l. l ++ b) q' ∙ append_assoc (queue k) (c ∷ []) b)

-- No batch is larger than what the ring holds.
abbrev pub Small : List (List ℕ) → Type 0
Small [] = Unit {0}
Small (b ∷ bs) = (length b ≤ 255) × Small bs

-- A read of `room` characters from the stream `s`: it returns once `s` holds a whole line or `room`
-- characters, and then it returns the first line and leaves the rest of the stream.
abbrev pub Reads : ℕ → List ℕ → Reading → Type 0
Reads room s (returned cs k rest) =
    IsValid k × (ends room s ≡ true) × (cs ≡ first_line room s) × (s ≡ cs ++ (queue k ++ flat rest))
Reads room s (waiting cs k) = IsValid k × (ends room s ≡ false) × (cs ≡ s) × (queue k ≡ [])
Reads room s no_fuel = ⊥

Reads-after :
    (room : ℕ) (cs s : List ℕ) (r : Reading)
    → ((rest : List ℕ) → first_line room (cs ++ rest) ≡ cs ++ first_line (room - length cs) rest)
    → ((rest : List ℕ) → ends room (cs ++ rest) ≡ ends (room - length cs) rest)
    → Reads (room - length cs) s r
    → Reads room (cs ++ s) (after cs r)
Reads-after room cs s (returned ds k rest) f e h = (
  h.0,
  e s ∙ h.1,
  ap (λ l. cs ++ l) h.2 ∙ sym (f s),
  ap (λ l. cs ++ l) h.3 ∙ sym (append_assoc cs ds (queue k ++ flat rest)),
)
Reads-after room cs s (waiting ds k) f e h = (h.0, e s ∙ h.1, ap (λ l. cs ++ l) h.2, h.3)
Reads-after room cs s no_fuel f e h = h

line-Reads :
    (room : ℕ) (k : Keyboard) (batches : List (List ℕ)) (cs : List ℕ) (k' : Keyboard)
    → DrainedAs room k (line cs k')
    → Reads room (queue k ++ flat batches) (returned cs k' batches)
line-Reads room k batches cs k' d =
    let split : queue k ++ flat batches ≡ cs ++ (queue k' ++ flat batches) =
      ap (λ l. l ++ flat batches) d.1 ∙ append_assoc cs (queue k') (flat batches) in
    (
      d.0,
      rw split (d.3 (queue k' ++ flat batches)),
      sym (rw split (d.2 (queue k' ++ flat batches))),
      split,
    )

full-Reads :
    (room : ℕ) (k : Keyboard) (batches : List (List ℕ)) (cs : List ℕ) (k' : Keyboard)
    → DrainedAs room k (stopped cs k')
    → (length cs == room) ≡ true
    → Reads room (queue k ++ flat batches) (returned cs k' batches)
full-Reads room k batches cs k' d full =
    let split : queue k ++ flat batches ≡ cs ++ (queue k' ++ flat batches) =
      ap (λ l. l ++ flat batches) d.1 ∙ append_assoc cs (queue k') (flat batches) in
    let none_left : room - length cs ≡ 0 = ground arith in
    (
      d.0,
      rw split (d.5 (queue k' ++ flat batches) ∙ rw none_left),
      sym (rw split (d.4 (queue k' ++ flat batches) ∙ rw none_left (append-nil cs))),
      split,
    )

ends-nil : (room : ℕ) → room ≢ 0 → ends room [] ≡ false
ends-nil zero h = absurd (h refl)
ends-nil (suc room) h = refl

arrive-Reads :
    (room : ℕ) (k : Keyboard) (batches : List (List ℕ)) (wait : ℕ → Keyboard → Reading)
    (d : Drained)
    → DrainedAs room k d
    → ((r : ℕ) (k' : Keyboard)
        → IsValid k'
        → queue k' ≡ []
        → r ≢ 0
        → Reads r (flat batches) (wait r k'))
    → Reads room (queue k ++ flat batches) (arrive room batches wait d)
unfolding arrive
arrive-Reads room k batches wait (line cs k') d h = line-Reads room k batches cs k' d
arrive-Reads room k batches wait (stopped cs k') d h = elim (Bool-cases (length cs == room)) [
  | inl y ↦ rw (y, Reads) (full-Reads room k batches cs k' d y)
  | inr n ↦
      let empty : queue k' ≡ [] = d.3 n in
      let taken : queue k ≡ cs = d.1 ∙ ap (λ l. cs ++ l) empty ∙ append-nil cs in
      rw (n, Reads)
        (subst (λ q. Reads room (q ++ flat batches) (after cs (wait (room - length cs) k')))
          (sym taken)
          (Reads-after room cs (flat batches) (wait (room - length cs) k') d.4 d.5
            (h (room - length cs) k' d.0 empty (ground (arith, d.2)))))
]
arrive-Reads room k batches wait out_of_fuel d h = absurd d

read-Reads :
    (room : ℕ) (k : Keyboard) (batches : List (List ℕ))
    → IsValid k
    → Small batches
    → Reads room (queue k ++ flat batches) (read room k batches)
unfolding read
read-Reads room k [] v small =
    arrive-Reads room k [] (λ r k'. waiting [] k') (drain buf_size room k)
      (drain-DrainedAs buf_size room k v (omega (arith, length-queue k)))
      λ r k' v' e pos. (v', ends-nil r pos, refl, e)
read-Reads room k (b ∷ bs) v small =
    arrive-Reads room k (b ∷ bs) (λ r k'. read r (push_all b k') bs) (drain buf_size room k)
      (drain-DrainedAs buf_size room k v (omega (arith, length-queue k)))
      λ r k' v' e pos.
        let (w, q) = push_all-queue b k' v' (omega (arith, ap length e, small.0)) in
        subst (λ l. Reads r (l ++ flat bs) (read r (push_all b k') bs)) (q ∙ ap (λ l. l ++ b) e)
          (read-Reads r (push_all b k') bs w small.1)

-- `keyboard_read` returns once what is typed holds a whole line or `size` characters, and waits
-- until then. It returns the first line of what is typed, its newline included, cut to `size`
-- characters, and leaves the rest in the queue and in the batches to come. No batch that arrives
-- during one wait may be larger than 255.
pub keyboard_read-Reads :
    (size : ℕ) (k : Keyboard) (batches : List (List ℕ))
    → IsValid k
    → Small batches
    → Reads size (queue k ++ flat batches) (keyboard_read size k batches)
unfolding keyboard_read
keyboard_read-Reads zero k batches v small = (v, refl, refl, refl)
keyboard_read-Reads (suc size) k batches v small =
    rw (==_ne (suc size) 0 (omega arith)) (read-Reads (suc size) k batches v small)
