-- ===== src/Keyboard/Queue.antt =====
-- The ring of src/drivers/keyboard/keyboard.c behaves as a queue of at most 255 characters.
use utopia.Base.{
  ℕ, zero, suc, ◌+◌, ◌-◌, ◌%◌, ◌<◌, ◌≡◌, refl, ap, ap₂, ◌∙◌, inl, inr, false, Option, none, some,
  List, [], ◌∷◌, ◌++◌, arith, ◌==◌, if◌then◌else◌, Bool-cases, length, get_or, set, length-set,
  get_or-set_self, get_or-set_ne, u32_mod,
}
use utopia.Keyboard.{Keyboard, buf_size, push, pop}

pub record IsValid (k : Keyboard) : Type 0 where
  pub full_length : length k.buf ≡ buf_size
  pub head_in : k.head < buf_size
  pub tail_in : k.tail < buf_size

-- The `n` characters from index `t` on, going round at the end.
abbrev pub window : List ℕ → ℕ → ℕ → List ℕ
window buf t zero = []
window buf t (suc n) = get_or buf t 0 ∷ window buf ((t + 1) % buf_size) n

abbrev pub count : Keyboard → ℕ
count k = (k.head + buf_size - k.tail) % buf_size

-- The queue that a ring stands for, oldest first.
abbrev pub queue : Keyboard → List ℕ
queue k = window k.buf k.tail (count k)

length-window : (buf : List ℕ) (t n : ℕ) → length (window buf t n) ≡ n
length-window buf t zero = refl
length-window buf t (suc n) = ap suc (length-window buf ((t + 1) % buf_size) n)

pub length-queue : (k : Keyboard) → length (queue k) ≡ count k
length-queue k = length-window k.buf k.tail (count k)

-- Writing behind the window adds the character to it.
window-set :
    (buf : List ℕ) (c t i n : ℕ)
    → length buf ≡ buf_size
    → t < buf_size
    → n < buf_size
    → i ≡ (t + n) % buf_size
    → window (set buf i c) t (suc n) ≡ window buf t n ++ (c ∷ [])
window-set buf c t i zero len ht hn e =
    ap (λ x. x ∷ []) (rw (e, here) (get_or-set_self buf t c 0 (omega arith)))
  where
    here : (t + 0) % buf_size ≡ t
    here = omega arith
window-set buf c t i (suc n) len ht hn e =
    ap₂ ◌∷◌ (get_or-set_ne buf i t c 0 (omega arith))
      (window-set buf c ((t + 1) % buf_size) i n len (omega arith) (omega arith) (omega arith))

push-IsValid : (c : ℕ) (k : Keyboard) → IsValid k → IsValid (push c k)
unfolding push
push-IsValid c k v = ground (arith, length-set k.buf k.head c)

-- `kbd_push` appends the character, unless the queue already holds 255.
pub push-queue :
    (c : ℕ) (k : Keyboard)
    → IsValid k
    → IsValid (push c k)
      × (queue (push c k) ≡ (if length (queue k) == 255 then queue k else queue k ++ (c ∷ [])))
unfolding push
push-queue c k v = (
  push-IsValid c k v,
  elim (Bool-cases ((k.head + 1) % u32_mod % buf_size == k.tail)) [
    | inl full ↦ rw (full, length-queue k) (ground arith)
    | inr room ↦
        let next : ℕ = (k.head + 1) % u32_mod % buf_size in
        let more : (next + buf_size - k.tail) % buf_size ≡ suc (count k) = ground arith in
        let small : (length (queue k) == 255) ≡ false = ground (arith, length-queue k) in
        rw (room, small)
          (ap (window (set k.buf k.head c) k.tail) more
            ∙ window-set k.buf c k.tail k.head (count k) v.full_length v.tail_in (omega arith)
                (omega arith))
  ],
)

-- What `kbd_pop` leaves, given what it took.
abbrev pub Popped : Keyboard → Option ℕ × Keyboard → Type 0
Popped k (none, k') = (queue k ≡ []) × (k' ≡ k)
Popped k (some c, k') = (queue k ≡ c ∷ queue k') × IsValid k'

-- `kbd_pop` takes the oldest character of the queue, and fails only at an empty one, which it
-- leaves as it is.
pub pop-Popped : (k : Keyboard) → IsValid k → Popped k (pop k)
unfolding pop
pop-Popped k v = elim (Bool-cases (k.head == k.tail)) [
  | inl same ↦
      let zero_left : count k ≡ 0 = ground arith in
      rw same (ap (window k.buf k.tail) zero_left, refl)
  | inr other ↦
      let t : ℕ = (k.tail + 1) % u32_mod % buf_size in
      let fewer : count k ≡ suc ((k.head + buf_size - t) % buf_size) = ground arith in
      let at : (k.tail + 1) % buf_size ≡ t = omega arith in
      rw other (
        ap (window k.buf k.tail) fewer
            ∙ ap (λ i. get_or k.buf k.tail 0 ∷ window k.buf i ((k.head + buf_size - t) % buf_size))
                at,
        ground arith,
      )
]
