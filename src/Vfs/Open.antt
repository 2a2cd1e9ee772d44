-- ===== src/Vfs/Open.antt =====
-- How `vfs_open` of src/fs/vfs.c splits the path of a file to create, and what it does then.
use utopia.Base.{
  ℕ, zero, suc, ◌+◌, ◌≤◌, ◌<◌, ◌≡◌, refl, ap, ◌∙◌, ◌≢◌, true, false, ◌||◌, Option, none, some, List,
  [], ◌∷◌, ◌++◌, arith, leb, ◌==◌, if◌then◌else◌, ==_ne, length, get_or, take, drop, length-append,
}
use utopia.Vfs.{
  walk, next_token, skip_slashes, rest_of, token_of, VnodeOps, slash, skip_dot, overflow, parts,
  last_slash, split_at, split_path, lookup, Opened, error, o_creat, create_in, create_at, open_path,
}

abbrev pub NoSlash : List ℕ → Type 0
NoSlash [] = Unit {0}
NoSlash (c ∷ s) = (c ≢ slash) × NoSlash s

NoSlash-at : (k : ℕ) (s : List ℕ) → NoSlash s → k < length s → (get_or s k 0 == slash) ≡ false
NoSlash-at k [] n h = absurd (omega arith)
NoSlash-at zero (c ∷ s) n h = ==_ne c slash n.0
NoSlash-at (suc k) (c ∷ s) n h = NoSlash-at k s n.1 (omega arith)

get_or-middle : (xs : List ℕ) (c : ℕ) (s : List ℕ) → get_or (xs ++ (c ∷ s)) (length xs) 0 ≡ c
get_or-middle [] c s = refl
get_or-middle (x ∷ xs) c s = get_or-middle xs c s

get_or-right :
    (xs : List ℕ) (c k : ℕ) (s : List ℕ)
    → get_or (xs ++ (c ∷ s)) (suc (k + length xs)) 0 ≡ get_or s k 0
get_or-right [] c k s = ap (λ i. get_or s i 0) (omega arith)
get_or-right (x ∷ xs) c k s =
    ap (λ i. get_or (xs ++ (c ∷ s)) i 0) (omega arith) ∙ get_or-right xs c k s

take-middle : (xs ys : List ℕ) → take (length xs) (xs ++ ys) ≡ xs
take-middle [] ys = refl
take-middle (x ∷ xs) ys = ap (x ∷◌) (take-middle xs ys)

drop-middle : (xs : List ℕ) (c : ℕ) (ys : List ℕ) → drop (suc (length xs)) (xs ++ (c ∷ ys)) ≡ ys
drop-middle [] c ys = refl
drop-middle (x ∷ xs) c ys = drop-middle xs c ys

last_slash-at :
    (k : ℕ) (parent name : List ℕ)
    → NoSlash name
    → k ≤ length name
    → last_slash (suc (k + length parent)) (parent ++ (slash ∷ name)) ≡ some (length parent)
unfolding last_slash
last_slash-at zero parent name n h =
    let here : 0 + length parent ≡ length parent = omega arith in
    rw (here, last_slash, get_or-middle parent slash name) (ap some here)
last_slash-at (suc k) parent name n h =
    let here : suc k + length parent ≡ suc (k + length parent) = omega arith in
    rw (here, last_slash, get_or-right parent slash k name, NoSlash-at k name n (omega arith))
      (ap (λ i. last_slash i (parent ++ (slash ∷ name))) here
        ∙ last_slash-at k parent name n (omega arith))

-- The directory part as `vfs_split_path` writes it: the root for an empty one.
unfoldable pub or_root : List ℕ → List ℕ
or_root [] = slash ∷ []
or_root (c ∷ s) = c ∷ s

split_at-append :
    (parent name : List ℕ)
    → split_at (length parent) (parent ++ (slash ∷ name)) ≡ (
        if leb 256 (length parent) || leb 128 (length name)
        then overflow
        else parts (or_root parent) name)
unfolding split_at or_root
split_at-append [] name = refl
split_at-append (c ∷ s) name =
    let two : suc (length s) + 1 ≡ suc (suc (length s)) = omega arith in
    let nonempty : (suc (length s) == 0) ≡ false = ground arith in
    rw (two, nonempty, take-middle s (slash ∷ name), drop-middle s slash name)

-- An absolute path is cut at its last slash: for a `name` without a slash and a `parent` that is
-- empty or starts with one, `vfs_split_path` gives `name` and `parent`, or `/` for an empty one. The
-- parts are written past the end of the caller's buffers when `parent` has 256 characters or more,
-- or `name` 128.
pub split_path-append :
    (parent name : List ℕ)
    → get_or (parent ++ (slash ∷ name)) 0 0 ≡ slash
    → NoSlash name
    → split_path (parent ++ (slash ∷ name)) ≡ (
        if leb 256 (length parent) || leb 128 (length name)
        then overflow
        else parts (or_root parent) name)
unfolding split_path
split_path-append parent name first n =
    let size : length (parent ++ (slash ∷ name)) ≡ suc (length name + length parent) =
      omega (arith, length-append parent (slash ∷ name)) in
    let nonempty : (suc (length name + length parent) == 0) ≡ false = ground arith in
    rw (size, nonempty, first, last_slash-at (length name) parent name n (omega arith))
      (split_at-append parent name)

module _ {S V : Type 0} (ops : VnodeOps S V) where
  lookup-or_root :
      (st : S) (root : Option V) (parent : List ℕ)
      → lookup ops st root (or_root parent) ≡ lookup ops st root parent
  unfolding or_root lookup walk next_token skip_slashes rest_of token_of skip_dot
  lookup-or_root st none parent = refl
  lookup-or_root st (some root) [] = refl
  lookup-or_root st (some root) (c ∷ s) = refl

  -- When an absolute path `parent/name` does not resolve and `O_CREAT` is set, `vfs_open` looks the
  -- parent up and has the directory found there create `name`; without that directory it is -ENOENT.
  -- Both parts must fit the buffers.
  pub open_path-create :
      (st : S) (root : Option V) (parent name : List ℕ) (flags : ℕ)
      → get_or (parent ++ (slash ∷ name)) 0 0 ≡ slash
      → NoSlash name
      → length parent < 256
      → length name < 128
      → o_creat flags ≡ true
      → lookup ops st root (parent ++ (slash ∷ name)) ≡ none
      → open_path ops st root (parent ++ (slash ∷ name)) flags
        ≡ elim (lookup ops st root parent) as (λ x. Opened S V) [
          | none ↦ error 2 st
          | some v ↦ create_in ops st v name
        ]
  unfolding open_path create_at
  open_path-create st root parent name flags first n short_parent short_name creat absent =
      let fits : (leb 256 (length parent) || leb 128 (length name)) ≡ false = ground arith in
      rw (
        absent,
        open_path,
        creat,
        create_at,
        split_path-append parent name first n,
        fits,
        lookup-or_root st root parent,
      )
