-- ===== src/Linux/Listing.antt =====
-- getdents64 of src/exec/syscalls/linux/common.c: directory entries as records of whole words in the
-- buffer of the caller.
use utopia.Base.{
  ◌⊎◌, ℕ, zero, suc, ◌+◌, ◌-◌, ◌*◌, ◌/◌, ◌%◌, ◌≤◌, ◌^◌, ◌⊎◌, ◌<◌, max, ◌≡◌, refl, sym, ap, ◌∙◌,
  subst, inl, inr, Bool, true, false, not, Option, none, some, List, [], ◌∷◌, arith, ltb, ◌==◌,
  if◌then◌else◌, ltb→lt, Bool-cases, Option-cases, length, get_elem?, ℤ, pos, negsuc,
}
use mathlib.Core.Option
use utopia.Linux.{to_int, FileOps, FileDesc, World, Dirent, errno, ebadf, efault, seek}

-- `struct linux_dirent64` as it stands in the buffer: the bytes of the name are followed by zeros up
-- to the length of the record, of which `reclen` is the `unsigned short`.
pub record Entry : Type 0 where
  pub ino : ℕ
  pub off : ℕ
  pub reclen : ℕ
  pub type : ℕ
  pub name : List ℕ

-- The length of the record for a name: the fields before it are 19 bytes, and a NUL follows it.
unfoldable pub reclen : List ℕ → ℕ
reclen name = (19 + length name + 1 + 7) / 8 * 8

-- The result of `readdir`, as far as the record fits into the `left` bytes.
unfoldable pub fitting : ℕ → ℤ × Dirent → Option Dirent
unfolding reclen
fitting left (negsuc e, d) = none
fitting left (pos k, d) = if ltb left (reclen d.name) then none else some d

-- The next entry to store; `none` where the loop ends.
unfoldable pub next_entry : (ℕ → ℤ × Dirent) → ℕ → ℕ → ℕ → Option Dirent
unfolding fitting
next_entry readdir count written index =
    if ltb written count then fitting (count - written) (readdir index) else none

-- The loop, from the index and the bytes written so far. Each record has at least 24 bytes, so the
-- fuel `count` is enough.
unfoldable pub entries_loop : (ℕ → ℤ × Dirent) → ℕ → ℕ → ℕ → ℕ → List Entry × ℕ × ℕ
unfolding reclen next_entry
entries_loop readdir zero count written index = ([], written, index)
entries_loop readdir (suc fuel) count written index =
    elim (next_entry readdir count written index) [
      | none ↦ ([], written, index)
      | some d ↦
          let rest = entries_loop readdir fuel count (written + reclen d.name) (suc index) in
          (
            record {
              ino = d.ino;
              off = suc index;
              reclen = reclen d.name % 2 ^ 16;
              type = d.type;
              name = d.name;
            }
                ∷ rest.0,
            rest.1,
            rest.2,
          )
    ]

-- The bytes that records take.
pub total : List Entry → ℕ
total [] = 0
total (e ∷ es) = reclen e.name + total es

-- Every record takes as much as its name needs, in whole words, and says so where 16 bits can.
pub Fitting : List Entry → Type 0
Fitting [] = Unit {0}
Fitting (e ∷ es) =
    (reclen e.name % 8 ≡ 0)
    × (20 + length e.name ≤ reclen e.name)
    × (reclen e.name < 28 + length e.name)
    × (e.reclen ≡ reclen e.name % 2 ^ 16)
    × Fitting es

-- Why the loop ends with `n` bytes written: the buffer is full, `readdir` gives no further entry, or
-- the next record is longer than what is left.
pub Stops : (ℕ → ℤ × Dirent) → ℕ → ℕ → ℕ → Type 0
Stops readdir count n index =
    (count ≤ n)
    ⊎ ((e : ℕ) × ((readdir index).0 ≡ negsuc e))
    ⊎ (count < n + reclen (readdir index).1.name)

abbrev pub entry_for : ℕ → Dirent → Entry
entry_for index d = record {
  ino = d.ino;
  off = suc index;
  reclen = reclen d.name % 2 ^ 16;
  type = d.type;
  name = d.name;
}

-- The records are those of `readdir` at the index and the following.
pub Given : (ℕ → ℤ × Dirent) → ℕ → List Entry → Type 0
Given readdir index [] = Unit {0}
Given readdir index (e ∷ es) =
    (e ≡ entry_for index (readdir index).1) × Given readdir (suc index) es

-- What the loop has written: records that fit, which with what was there before are at most `count`
-- bytes, as many as it says, and one index further for each.
unfoldable pub Written : (ℕ → ℤ × Dirent) → ℕ → ℕ → ℕ → List Entry × ℕ × ℕ → Type 0
unfolding Given
Written readdir count written index r =
    Fitting r.0
    × Given readdir index r.0
    × (r.1 ≡ written + total r.0)
    × (r.1 ≤ max count written)
    × (r.2 ≡ index + length r.0)

fitting-some :
    (left : ℕ) (r : ℤ × Dirent) (d : Dirent)
    → fitting left r ≡ some d
    → (reclen d.name ≤ left) × (d ≡ r.1)
unfolding fitting
fitting-some left (negsuc e, x) d h = absurd (Option.none-ne-some _ h)
fitting-some left (pos k, x) d h = elim (Bool-cases (ltb left (reclen x.name))) [
  | inl y ↦ absurd (Option.none-ne-some _ (sym (too_long y) ∙ h))
  | inr n ↦
      let e : x ≡ d = Option.some-injective _ _ (sym (fits n) ∙ h) in
      (subst (λ (z : Dirent). reclen z.name ≤ left) e (ground arith), sym e)
]
  where
    too_long : ltb left (reclen x.name) ≡ true → fitting left (pos k, x) ≡ none
    too_long y = rw y refl

    fits : ltb left (reclen x.name) ≡ false → fitting left (pos k, x) ≡ some x
    fits n = rw n refl

next_entry-some :
    (readdir : ℕ → ℤ × Dirent) (count written index : ℕ) (d : Dirent)
    → next_entry readdir count written index ≡ some d
    → (written < count) × (reclen d.name ≤ count - written) × (d ≡ (readdir index).1)
unfolding next_entry
next_entry-some readdir count written index d h = elim (Bool-cases (ltb written count)) [
  | inr n ↦ absurd (Option.none-ne-some _ (sym (full n) ∙ h))
  | inl y ↦
      let (fits, same) = fitting-some (count - written) (readdir index) d (sym (room y) ∙ h) in
      (ltb→lt written count y, fits, same)
]
  where
    full : ltb written count ≡ false → next_entry readdir count written index ≡ none
    full n = rw n refl

    room :
        ltb written count ≡ true
        → next_entry readdir count written index ≡ fitting (count - written) (readdir index)
    room y = rw y refl

reclen_bounds :
    (name : List ℕ)
    → (reclen name % 8 ≡ 0) × (20 + length name ≤ reclen name) × (reclen name < 28 + length name)
unfolding reclen
reclen_bounds name = (omega arith, omega arith, omega arith)

loop-stop :
    (readdir : ℕ → ℤ × Dirent) (fuel count written index : ℕ)
    → next_entry readdir count written index ≡ none
    → entries_loop readdir (suc fuel) count written index ≡ ([], written, index)
unfolding entries_loop
loop-stop readdir fuel count written index e = rw (e, entries_loop) refl

loop-next :
    (readdir : ℕ → ℤ × Dirent) (fuel count written index : ℕ) (d : Dirent)
    → next_entry readdir count written index ≡ some d
    → entries_loop readdir (suc fuel) count written index ≡ (
        let rest = entries_loop readdir fuel count (written + reclen d.name) (suc index) in
        (entry_for index d ∷ rest.0, rest.1, rest.2))
unfolding entries_loop
loop-next readdir fuel count written index d e = rw (e, entries_loop) refl

start_loop :
    (readdir : ℕ → ℤ × Dirent) (count written index : ℕ)
    → ([], written, index) ≡ entries_loop readdir 0 count written index
unfolding entries_loop
start_loop readdir count written index = refl

next_entry-full :
    (readdir : ℕ → ℤ × Dirent) (count written index : ℕ)
    → count - written ≤ 0
    → next_entry readdir count written index ≡ none
unfolding next_entry
next_entry-full readdir count written index h = ground arith

-- More fuel changes nothing once there is as much as bytes are left.
pub entries_loop_fuel :
    (readdir : ℕ → ℤ × Dirent) (fuel more count written index : ℕ)
    → count - written ≤ fuel
    → entries_loop readdir (fuel + more) count written index
      ≡ entries_loop readdir fuel count written index
entries_loop_fuel readdir zero zero count written index h = refl
entries_loop_fuel readdir zero (suc more) count written index h =
    ap (λ k. entries_loop readdir k count written index) {y = suc more} (omega arith)
    ∙ loop-stop readdir more count written index (next_entry-full readdir count written index h)
    ∙ start_loop readdir count written index
entries_loop_fuel readdir (suc fuel) more count written index h =
    ap (λ k. entries_loop readdir k count written index) {y = suc (fuel + more)} (omega arith)
    ∙ elim (Option-cases (next_entry readdir count written index)) [
      | inl e ↦
          loop-stop readdir (fuel + more) count written index e
          ∙ sym (loop-stop readdir fuel count written index e)
      | inr (d, e) ↦
          let (room, fits, same) = next_entry-some readdir count written index d e in
          let (whole, long, tight) = reclen_bounds d.name in
          loop-next readdir (fuel + more) count written index d e
          ∙ ap (λ (r : List Entry × ℕ × ℕ). (entry_for index d ∷ r.0, r.1, r.2))
              (entries_loop_fuel readdir fuel more count (written + reclen d.name) (suc index)
                (omega (arith, h, long, fits)))
          ∙ sym (loop-next readdir fuel count written index d e)
    ]

module _ {S V : Type 0} (ops : FileOps S V) where
  -- The part of `getdents64` on the vnode of the entry.
  unfoldable pub list_vnode :
      ℕ → ℕ → FileDesc V → Option V → World S V → (ℤ × List Entry) × World S V
  unfolding seek entries_loop
  list_vnode fd count f none w = ((ebadf, []), w)
  list_vnode fd count f (some v) w = elim (ops.is_dir w.fs v) [
    | false ↦ ((errno 20, []), w)
    | true ↦ elim (ops.readdir w.fs v) [
      | none ↦ ((errno 20, []), w)
      | some readdir ↦
          let r = entries_loop readdir count count 0 f.offset in
          ((to_int r.1, r.0), seek fd f r.2 w)
    ]
  ]

  -- `getdents64` with a buffer of `count` bytes, which may be null: the result, and the records. The
  -- source does not check the descriptor against the table: `none` where it reads outside.
  unfoldable pub getdents64 : ℤ → Bool → ℕ → World S V → Option ((ℤ × List Entry) × World S V)
  unfolding list_vnode
  getdents64 (negsuc n) buffer count w =
      if not buffer
      then some ((efault, []), w)
      else if count == 0
      then some ((pos 0, []), w)
      else none
  getdents64 (pos fd) buffer count w =
      if not buffer
      then some ((efault, []), w)
      else if count == 0
      then some ((pos 0, []), w)
      else elim (get_elem? w.fds fd) [
        | none ↦ none
        | some f ↦ some (list_vnode fd count f f.vnode w)
      ]
