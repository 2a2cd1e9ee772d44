-- ===== src/Vfs/Paths.antt =====
-- The paths that `vfs_next_token` of src/fs/vfs.c cuts up, described by their components.
use utopia.Base.{
  ℕ, ◌≤◌, ◌≡◌, refl, inl, inr, true, false, List, [], ◌∷◌, ◌++◌, append-nil, append_assoc, arith,
  ◌==◌, Bool-cases, length,
}
use utopia.Vfs.{slash, skip_slashes, token_of, rest_of}

-- The components of a path: its longest parts without a slash that are not empty. `cur` is the part
-- read so far.
unfoldable pub emit : List ℕ → List (List ℕ) → List (List ℕ)
emit [] parts = parts
emit (c ∷ cur) parts = (c ∷ cur) ∷ parts

unfoldable pub components_from : List ℕ → List ℕ → List (List ℕ)
components_from cur [] = emit cur []
components_from cur (c ∷ s) = elim (c == slash) [
  | true ↦ emit cur (components_from [] s)
  | false ↦ components_from (cur ++ (c ∷ [])) s
]

abbrev pub components : List ℕ → List (List ℕ)
components = components_from []

pub components_from-token :
    (cur p : List ℕ) → components_from cur p ≡ emit (cur ++ token_of p) (components (rest_of p))
unfolding components_from emit token_of rest_of
components_from-token cur [] = rw (append-nil cur)
components_from-token cur (c ∷ s) = elim (Bool-cases (c == slash)) [
  | inl y ↦ rw (y, components_from, token_of, rest_of, append-nil cur, y)
  | inr n ↦ rw (
    n,
    components_from,
    token_of,
    rest_of,
    components_from-token (cur ++ (c ∷ [])) s,
    append_assoc cur (c ∷ []) (token_of s),
  )
]

pub components-skip : (p : List ℕ) → components (skip_slashes p) ≡ components p
unfolding components_from skip_slashes emit
components-skip [] = refl
components-skip (c ∷ s) = elim (Bool-cases (c == slash)) [
  | inl y ↦ rw (y, components_from, skip_slashes) (components-skip s)
  | inr n ↦ rw (n, skip_slashes)
]

-- A slash ends a component.
pub components_from-append :
    (cur xs ys : List ℕ)
    → components_from cur (xs ++ (slash ∷ ys)) ≡ components_from cur xs ++ components ys
unfolding components_from emit
components_from-append [] [] ys = refl
components_from-append (c ∷ cur) [] ys = refl
components_from-append cur (c ∷ xs) ys = elim (Bool-cases (c == slash)) [
  | inl y ↦ rw (y, components_from, components_from-append [] xs ys) (emit-append cur)
  | inr n ↦ rw (n, components_from) (components_from-append (cur ++ (c ∷ [])) xs ys)
]
  where
    emit-append :
        (cur : List ℕ)
        → emit cur (components xs ++ components ys) ≡ emit cur (components xs) ++ components ys
    emit-append [] = refl
    emit-append (d ∷ cur) = refl

rest_of-le : (s : List ℕ) → length (rest_of s) ≤ length s
unfolding rest_of
rest_of-le [] = omega arith
rest_of-le (c ∷ s) = ground (arith, rest_of-le s)

skip_slashes-le : (s : List ℕ) → length (skip_slashes s) ≤ length s
unfolding skip_slashes
skip_slashes-le [] = omega arith
skip_slashes-le (c ∷ s) = ground (arith, skip_slashes-le s)

pub rest_of-shorter : (c : ℕ) (s : List ℕ) → length (rest_of (skip_slashes (c ∷ s))) ≤ length s
unfolding rest_of skip_slashes
rest_of-shorter c s = elim (Bool-cases (c == slash)) [
  | inl y ↦ rw (y, skip_slashes) (omega (arith, rest_of-le (skip_slashes s), skip_slashes-le s))
  | inr n ↦ rw (n, skip_slashes, n, rest_of) (rest_of-le s)
]
