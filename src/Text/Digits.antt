-- ===== src/Text/Digits.antt =====
-- `ultoa` of src/lib/numbers.c prints the number that reading its digits gives back.
use mathlib.Core.List
use mathlib.Core.List.{reverse-append, foldl}
use native.Mathlib.Nat.{pow-zero, pow-suc, div-add-mod, div-lt_iff_lt-mul}
use mathlib.Core.Bool.{false≢true}
use utopia.Base.{
  ℕ, zero, suc, ◌+◌, ◌-◌, ◌*◌, ◌/◌, ◌%◌, ◌^◌, ◌≤◌, ◌<◌, ◌≡◌, refl, sym, ◌∙◌, inl, inr, false, List,
  [], ◌∷◌, ◌++◌, arith, ltb, ◌==◌, if◌then◌else◌, Bool-cases, length,
}
use utopia.Text.{digit, digits_loop, ultoa}
use utopia.Text.Reverse.{str_reverse-reverse, length-reverse}

-- The value of a digit, `0` to `9` or `a` to `z`.
unfoldable pub undigit : ℕ → ℕ
undigit c = if ltb c b'a' then c - b'0' else c - b'a' + 10

-- The number that a string stands for in `base`, read from the left.
unfoldable pub parse : ℕ → ℕ → List ℕ → ℕ
parse base acc [] = acc
parse base acc (c ∷ s) = parse base (acc * base + undigit c) s

parse-append :
    (base acc : ℕ) (s t : List ℕ) → parse base acc (s ++ t) ≡ parse base (parse base acc s) t
unfolding parse
parse-append base acc [] t = refl
parse-append base acc (c ∷ s) t = parse-append base (acc * base + undigit c) s t

undigit-digit : (r : ℕ) → r < 36 → undigit (digit r) ≡ r
unfolding undigit
undigit-digit r h = ground arith

parse-reverse :
    (base c : ℕ) (s : List ℕ)
    → parse base 0 (List.reverse (c ∷ s)) ≡ parse base 0 (List.reverse s) * base + undigit c
unfolding parse
parse-reverse base c s =
    rw (reverse-append (c ∷ []) s) (parse-append base 0 (List.reverse s) (c ∷ []))

-- Dividing by a base of at least 2 halves at least.
div-half : (fuel value base : ℕ) → 2 ≤ base → value < 2 ^ suc fuel → value / base < 2 ^ fuel
div-half fuel value base b h = grind (arith, pow-suc 2 fuel, div-add-mod value base)

digits_loop-parse :
    (fuel value base : ℕ)
    → 2 ≤ base
    → base ≤ 36
    → value < 2 ^ fuel
    → parse base 0 (List.reverse (digits_loop fuel value base)) ≡ value
unfolding digits_loop
digits_loop-parse zero value base b c h = unfold parse in omega arith
digits_loop-parse (suc fuel) value base b c h = elim (Bool-cases (value == 0)) [
  | inl y ↦ rw (y, digits_loop) (unfold parse in ground arith)
  | inr n ↦
      rw (n, digits_loop)
        (parse-reverse base (digit (value % base)) (digits_loop fuel (value / base) base)
          ∙ rw
              (
                digits_loop-parse fuel (value / base) base b c (div-half fuel value base b h),
                undigit-digit (value % base) (omega arith),
              )
              (grind arith))
]

-- At most `k` digits are needed below `base ^ k`.
digits_loop-length :
    (fuel k value base : ℕ) → 2 ≤ base → value < base ^ k → length (digits_loop fuel value base) ≤ k
unfolding digits_loop
digits_loop-length zero k value base b h = omega arith
digits_loop-length (suc fuel) k value base b h = elim (Bool-cases (value == 0)) [
  | inl y ↦ rw (y, digits_loop) (omega arith)
  | inr n ↦ rw (n, digits_loop) (shorter k h n (digits_loop-length fuel))
]
  where
    shorter :
        (k : ℕ)
        → value < base ^ k
        → (value == 0) ≡ false
        → ((k v base' : ℕ) → 2 ≤ base' → v < base' ^ k → length (digits_loop fuel v base') ≤ k)
        → suc (length (digits_loop fuel (value / base) base)) ≤ k
    shorter zero h n ih =
        let one : value < 1 = rw (pow-zero base) at h in
        let none_left : value ≡ 0 = omega arith in absurd (false≢true (sym n ∙ rw none_left))
    shorter (suc k) h n ih =
        let less : value < base ^ k * base = rw (pow-suc base k) at h in
        omega (arith, ih k (value / base) base b ((div-lt_iff_lt-mul (omega arith)).1 less))

-- `ultoa` returns the length of its string, and reading the string in the base gives the value
-- back. A value below `base ^ k` with `0 < k` takes at most `k` characters: 20 in base 10.
pub ultoa-parse :
    (value base k : ℕ)
    → value < 2 ^ 64
    → 2 ≤ base
    → base ≤ 36
    → 0 < k
    → value < base ^ k
    → (parse base 0 (ultoa value base).0 ≡ value)
      × (length (ultoa value base).0 ≡ (ultoa value base).1)
      × ((ultoa value base).1 ≤ k)
unfolding ultoa
ultoa-parse value base k h b c positive small = elim (Bool-cases (value == 0)) [
  | inl y ↦ rw y (unfold parse undigit in ground arith, refl, positive)
  | inr n ↦
      let s : List ℕ = digits_loop 64 value base in
      rw (n, str_reverse-reverse s)
        (
          digits_loop-parse 64 value base b c h,
          length-reverse s,
          digits_loop-length 64 k value base b small,
        )
]
