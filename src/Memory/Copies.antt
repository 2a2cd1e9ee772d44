-- ===== src/Memory/Copies.antt =====
-- What `memcpy` and `memmove` of src/mm/utils.c leave at every address.
use utopia.Base.{
  ℕ, zero, suc, ◌+◌, ◌-◌, ◌*◌, ◌/◌, ◌≤◌, ◌≡◌, ◌∙◌, ◌⊎◌, inl, inr, true, false, ◌&&◌, arith, ltb,
  leb, if◌then◌else◌, Bool-cases,
}
use utopia.Memory.{Bytes, write, copy_word, copy_words, copy_up, copy_down, memcpy, memmove}

-- The byte at `x` when the `n` bytes at `s` have been copied to `d`.
unfoldable pub copied : ℕ → ℕ → ℕ → Bytes → ℕ → ℕ
copied n d s mem x = if leb d x && ltb x (d + n) then mem (s + (x - d)) else mem x

copy_up-copied :
    (n d s : ℕ) (mem : Bytes) (x : ℕ)
    → (d ≤ s) ⊎ (s + n ≤ d)
    → copy_up n d s mem x ≡ copied n d s mem x
unfolding copy_up copied
copy_up-copied zero d s mem x h = ground arith
copy_up-copied (suc n) d s mem x h =
    copy_up-copied n (d + 1) (s + 1) (write d (mem s) mem) x (ground arith) ∙ grind arith

copy_down-copied :
    (n d s : ℕ) (mem : Bytes) (x : ℕ) → s ≤ d → copy_down n d s mem x ≡ copied n d s mem x
unfolding copy_down copied
copy_down-copied zero d s mem x h = ground arith
copy_down-copied (suc n) d s mem x h =
    copy_down-copied n d s (write (d + n) (mem (s + n)) mem) x h ∙ grind arith

copy_words-copied :
    (k d s : ℕ) (mem : Bytes) (x : ℕ)
    → (d ≤ s) ⊎ (s + k * 8 ≤ d)
    → copy_words k d s mem x ≡ copied (k * 8) d s mem x
unfolding copy_words copied
copy_words-copied zero d s mem x h = ground arith
copy_words-copied (suc k) d s mem x h =
    copy_words-copied k (d + 8) (s + 8) (copy_word d s mem) x (ground arith) ∙ grind arith

-- Copying the first `w` bytes and then the others copies all.
copied-copied :
    (w n d s : ℕ) (mem front : Bytes) (x : ℕ)
    → w ≤ n
    → ((d ≤ s) ⊎ (s + n ≤ d))
    → ((y : ℕ) → front y ≡ copied w d s mem y)
    → copied (n - w) (d + w) (s + w) front x ≡ copied n d s mem x
unfolding copied
copied-copied w n d s mem front x le h e =
    elim (Bool-cases (leb (d + w) x && ltb x (d + w + (n - w)))) [
      | inl y ↦ rw y (e (s + w + (x - (d + w))) ∙ behind y)
      | inr m ↦ rw m (e x ∙ before m)
    ]
  where
    behind :
        (leb (d + w) x && ltb x (d + w + (n - w))) ≡ true
        → copied w d s mem (s + w + (x - (d + w))) ≡ copied n d s mem x
    behind y =
        let at : s + w + (x - (d + w)) ≡ s + (x - d) = ground arith in
        let out : (leb d (s + (x - d)) && ltb (s + (x - d)) (d + w)) ≡ false = ground arith in
        let in_all : (leb d x && ltb x (d + n)) ≡ true = ground arith in rw (at, out, in_all)

    before :
        (leb (d + w) x && ltb x (d + w + (n - w))) ≡ false → copied w d s mem x ≡ copied n d s mem x
    before m = ground arith

-- `memmove` copies `n` bytes for every overlap of the two ranges: each byte of the target is the one
-- that the source had before, and the rest of the memory is as it was.
pub memmove-copied : (d s n : ℕ) (mem : Bytes) (x : ℕ) → memmove d s n mem x ≡ copied n d s mem x
unfolding memmove
memmove-copied d s n mem x = elim (Bool-cases (ltb d s)) [
  | inl y ↦ rw y (copy_up-copied n d s mem x (inl (ground arith)))
  | inr m ↦ elim (Bool-cases (ltb s d)) [
    | inl y ↦ rw (m, y) (copy_down-copied n d s mem x (ground arith))
    | inr k ↦ rw (m, k) (in_place (ground arith))
  ]
]
  where
    in_place : s ≡ d → mem x ≡ copied n d s mem x
    in_place e = unfold copied in grind arith

-- `memcpy`, which copies words first, does the same when the target does not start inside the source
-- range.
pub memcpy-copied :
    (d s n : ℕ) (mem : Bytes) (x : ℕ)
    → (d ≤ s) ⊎ (s + n ≤ d)
    → memcpy d s n mem x ≡ copied n d s mem x
unfolding memcpy
memcpy-copied d s n mem x h =
    copy_up-copied (n - n / 8 * 8) (d + n / 8 * 8) (s + n / 8 * 8) (copy_words (n / 8) d s mem) x
      (ground arith)
    ∙ copied-copied (n / 8 * 8) n d s mem (copy_words (n / 8) d s mem) x (omega arith) h
        (λ y. copy_words-copied (n / 8) d s mem y (ground arith))
