-- ===== src/Text.antt =====
-- The strings of src/lib/string.c. A C string is the list of its characters, without the NUL
-- behind them, so none of them is 0.
pub mod Compare
pub mod Reverse
pub mod Digits
mod Tests
use utopia.Base.{
  ℕ, zero, suc, ◌+◌, ◌-◌, ◌/◌, ◌%◌, true, false, not, ◌&&◌, List, ◌∷◌, ltb, ◌==◌, if◌then◌else◌,
  length, get_or, set, ℤ, pos, sub_ℕ, [],
}

unfoldable pub strlen : List ℕ → ℕ
strlen [] = 0
strlen (c ∷ s) = strlen s + 1

-- `*s`
abbrev pub first : List ℕ → ℕ
first [] = 0
first (c ∷ s) = c

unfoldable pub strcmp : List ℕ → List ℕ → ℤ
strcmp [] t = sub_ℕ 0 (first t)
strcmp (a ∷ s) [] = sub_ℕ a 0
strcmp (a ∷ s) (b ∷ t) = if not (a == 0) && a == b then strcmp s t else sub_ℕ a b

-- The counter of `strncmp` is what is left; it returns 0 where the counter has run out.
unfoldable pub strncmp : List ℕ → List ℕ → ℕ → ℤ
strncmp s t zero = pos 0
strncmp [] t (suc n) = sub_ℕ 0 (first t)
strncmp (a ∷ s) [] (suc n) = sub_ℕ a 0
strncmp (a ∷ s) (b ∷ t) (suc n) = if not (a == 0) && a == b then strncmp s t n else sub_ℕ a b

-- The swap of `str_reverse`.
pub swap : ℕ → ℕ → List ℕ → List ℕ
swap i j s = set (set s i (get_or s j 0)) j (get_or s i 0)

-- The loop of `str_reverse`.
pub reverse_loop : ℕ → ℕ → ℕ → List ℕ → List ℕ
unfolding swap
reverse_loop zero i j s = s
reverse_loop (suc fuel) i j s = elim (ltb i j) [
  | true ↦ reverse_loop fuel (i + 1) (j - 1) (swap i j s)
  | false ↦ s
]

-- `str_reverse`, for a `len` of at least 1: with `len` at 0 the loop does not run either. Each
-- round brings `i` and `j` nearer, so `len` rounds are enough.
unfoldable pub str_reverse : ℕ → List ℕ → List ℕ
unfolding reverse_loop
str_reverse len s = reverse_loop len 0 (len - 1) s

-- `(r < 10) ? '0' + r : 'a' + (r - 10)`
abbrev pub digit : ℕ → ℕ
digit r = if ltb r 10 then b'0' + r else b'a' + (r - 10)

-- The loop of `ultoa`, which writes the lowest digit first.
pub digits_loop : ℕ → ℕ → ℕ → List ℕ
digits_loop zero value base = []
digits_loop (suc fuel) value base = elim (value == 0) [
  | true ↦ []
  | false ↦ digit (value % base) ∷ digits_loop fuel (value / base) base
]

-- `ultoa` for a base of at least 2; the string and the length that it returns. A `uint64_t` has 64
-- binary digits at most.
unfoldable pub ultoa : ℕ → ℕ → List ℕ × ℕ
unfolding digits_loop str_reverse
ultoa value base =
    if value == 0
    then (b'0' ∷ [], 1)
    else let s = digits_loop 64 value base in (str_reverse (length s) s, length s)
