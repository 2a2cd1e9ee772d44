-- ===== src/Text/Reverse.antt =====
-- `str_reverse` of src/lib/string.c, which swaps in place, reverses its string.
use mathlib.Core.List
use mathlib.Core.List.{reverse-append}
use utopia.Base.{
  ext, ℕ, zero, suc, ◌+◌, ◌-◌, ◌≤◌, ◌<◌, ◌≡◌, refl, sym, ap, ◌∙◌, inl, inr, true, ◌&&◌, List, [],
  ◌∷◌, ◌++◌, arith, ltb, leb, ◌==◌, if◌then◌else◌, ltb→lt, lt→ltb, Bool-cases, length, get_or, set,
  length-append, length-set, get_or-set_self, get_or-set_ne,
}
use utopia.Text.{swap, reverse_loop, str_reverse}

get_or-set :
    (xs : List ℕ) (i k v : ℕ)
    → i < length xs
    → get_or (set xs i v) k 0 ≡ (if k == i then v else get_or xs k 0)
get_or-set xs i k v h = elim (Bool-cases (k == i)) [
  | inl y ↦ let e : k ≡ i = ground arith in rw (y, e) (get_or-set_self xs i v 0 h)
  | inr n ↦ rw n (get_or-set_ne xs i k v 0 (ground arith))
]

get_or-swap :
    (i j k : ℕ) (s : List ℕ)
    → i < j
    → j < length s
    → get_or (swap i j s) k 0
      ≡ (if k == j then get_or s i 0 else if k == i then get_or s j 0 else get_or s k 0)
unfolding swap
get_or-swap i j k s h l =
    get_or-set (set s i (get_or s j 0)) j k (get_or s i 0)
      (omega (arith, length-set s i (get_or s j 0)))
    ∙ rw (get_or-set s i k (get_or s j 0) (omega arith))

length-swap : (i j : ℕ) (s : List ℕ) → length (swap i j s) ≡ length s
unfolding swap
length-swap i j s =
    length-set (set s i (get_or s j 0)) j (get_or s i 0) ∙ length-set s i (get_or s j 0)

-- After the loop the positions from `i` to `j` are mirrored and the others are as before.
reverse_loop_mirrors :
    (fuel i j : ℕ) (s : List ℕ)
    → j < length s
    → j ≤ i + fuel
    → (length (reverse_loop fuel i j s) ≡ length s)
      × ((k : ℕ)
          → get_or (reverse_loop fuel i j s) k 0
            ≡ (if leb i k && leb k j then get_or s (i + j - k) 0 else get_or s k 0))
unfolding reverse_loop
reverse_loop_mirrors zero i j s l h = (
  refl,
  λ k. elim (Bool-cases (leb i k && leb k j)) [
    | inl y ↦ rw y (ap (λ x. get_or s x 0) (ground arith))
    | inr n ↦ rw n
  ],
)
reverse_loop_mirrors (suc fuel) i j s l h = elim (Bool-cases (ltb i j)) [
  | inl y ↦
      let (len, at) =
        reverse_loop_mirrors fuel (i + 1) (j - 1) (swap i j s) (ground (arith, length-swap i j s))
          (ground arith) in
      rw (y, reverse_loop) (len ∙ length-swap i j s, λ k. at k ∙ inner y k)
  | inr n ↦
      rw (n, reverse_loop)
        (
          refl,
          λ k. elim (Bool-cases (leb i k && leb k j)) [
            | inl y ↦ rw y (ap (λ x. get_or s x 0) (ground arith))
            | inr m ↦ rw m
          ],
        )
]
  where
    inner :
        ltb i j ≡ true
        → (k : ℕ)
        → (if leb (i + 1) k && leb k (j - 1)
            then get_or (swap i j s) (i + 1 + (j - 1) - k) 0
            else get_or (swap i j s) k 0)
          ≡ (if leb i k && leb k j then get_or s (i + j - k) 0 else get_or s k 0)
    inner y k = ground (arith, get_or-swap i j k s, get_or-swap i j (i + 1 + (j - 1) - k) s)

-- For a `len` up to the length of the buffer `str_reverse` mirrors the first `len` characters and
-- leaves the others and the length as they are.
pub str_reverse_mirrors :
    (len : ℕ) (s : List ℕ)
    → len ≤ length s
    → (length (str_reverse len s) ≡ length s)
      × ((k : ℕ)
          → get_or (str_reverse len s) k 0
            ≡ (if ltb k len then get_or s (len - 1 - k) 0 else get_or s k 0))
unfolding str_reverse reverse_loop
str_reverse_mirrors zero s h = (refl, λ k. ground arith)
str_reverse_mirrors (suc n) s h =
    let (len, at) = reverse_loop_mirrors (suc n) 0 (suc n - 1) s (omega arith) (omega arith) in
    (len, λ k. at k ∙ ground arith)

get_or-append :
    (xs ys : List ℕ) (k : ℕ)
    → get_or (xs ++ ys) k 0
      ≡ (if ltb k (length xs) then get_or xs k 0 else get_or ys (k - length xs) 0)
get_or-append [] ys k = let e : k - 0 ≡ k = omega arith in rw e (ground arith)
get_or-append (x ∷ xs) ys zero = ground arith
get_or-append (x ∷ xs) ys (suc k) = ground (arith, get_or-append xs ys k)

pub length-reverse : (s : List ℕ) → length (List.reverse s) ≡ length s
length-reverse [] = refl
length-reverse (c ∷ s) =
    rw (reverse-append (c ∷ []) s)
      (omega (arith, length-append (List.reverse s) (c ∷ []), length-reverse s))

get_or-reverse :
    (s : List ℕ) (k : ℕ)
    → k < length s
    → get_or (List.reverse s) k 0 ≡ get_or s (length s - 1 - k) 0
get_or-reverse [] k h = absurd (omega arith)
get_or-reverse (c ∷ s) k h =
    rw (reverse-append (c ∷ []) s)
      (get_or-append (List.reverse s) (c ∷ []) k ∙ last (get_or-reverse s k))
  where
    last :
        (k < length s → get_or (List.reverse s) k 0 ≡ get_or s (length s - 1 - k) 0)
        → (if ltb k (length (List.reverse s))
            then get_or (List.reverse s) k 0
            else get_or (c ∷ []) (k - length (List.reverse s)) 0)
          ≡ get_or (c ∷ s) (length (c ∷ s) - 1 - k) 0
    last ih = elim (Bool-cases (ltb k (length s))) [
      | inl y ↦
          rw (length-reverse s, y)
            (ih (ltb→lt _ _ y)
              ∙ (let e : length (c ∷ s) - 1 - k ≡ suc (length s - 1 - k) = ground arith in rw e))
      | inr n ↦
          rw (length-reverse s, n)
            (let e : k ≡ length s = ground arith in
              let z : length (c ∷ s) - 1 - k ≡ 0 = omega arith in
              let w : k - length s ≡ 0 = omega arith in rw (z, w))
    ]

-- On a whole string `str_reverse` is list reversal.
pub str_reverse-reverse : (s : List ℕ) → str_reverse (length s) s ≡ List.reverse s
str_reverse-reverse s =
    let (len, at) = str_reverse_mirrors (length s) s (omega arith) in
    ext (str_reverse (length s) s) (List.reverse s) 0 (len ∙ sym (length-reverse s)) λ k h.
      let below : k < length s = omega (arith, len) in
      at k ∙ rw (lt→ltb k (length s) below) (sym (get_or-reverse s k below))
