-- ===== src/Memory.antt =====
-- The routines of src/mm/utils.c on a memory of bytes. An address is a number; ranges do not wrap
-- around the address space.
mod Copies
mod Compare
mod Tests
use utopia.Base.{ℕ, zero, suc, ◌+◌, ◌-◌, ◌*◌, ◌/◌, true, false, ◌&&◌, ltb, leb, ◌==◌, if◌then◌else◌}

abbrev pub Bytes : Type 0
Bytes = ℕ → ℕ

abbrev pub write : ℕ → ℕ → Bytes → Bytes
write a v mem x = if x == a then v else mem x

-- `d64[i] = s64[i]`: the eight bytes of a word are loaded and then stored.
abbrev pub copy_word : ℕ → ℕ → Bytes → Bytes
copy_word d s mem x = if leb d x && ltb x (d + 8) then mem (s + (x - d)) else mem x

-- `memcpy`'s loop over words.
pub copy_words : ℕ → ℕ → ℕ → Bytes → Bytes
copy_words zero d s mem = mem
copy_words (suc k) d s mem = copy_words k (d + 8) (s + 8) (copy_word d s mem)

-- A loop over bytes from the front: the end of `memcpy`, and `memmove` to a lower address.
pub copy_up : ℕ → ℕ → ℕ → Bytes → Bytes
copy_up zero d s mem = mem
copy_up (suc n) d s mem = copy_up n (d + 1) (s + 1) (write d (mem s) mem)

-- `memmove`'s loop from the back.
pub copy_down : ℕ → ℕ → ℕ → Bytes → Bytes
copy_down zero d s mem = mem
copy_down (suc n) d s mem = copy_down n d s (write (d + n) (mem (s + n)) mem)

pub memcpy : ℕ → ℕ → ℕ → Bytes → Bytes
unfolding copy_words copy_up
memcpy d s n mem =
    let n64 = n / 8 in copy_up (n - n64 * 8) (d + n64 * 8) (s + n64 * 8) (copy_words n64 d s mem)

pub memmove : ℕ → ℕ → ℕ → Bytes → Bytes
unfolding copy_up copy_down
memmove d s n mem =
    if ltb d s then copy_up n d s mem else if ltb s d then copy_down n d s mem else mem

pub memcmp : ℕ → ℕ → ℕ → Bytes → ℕ
memcmp a b zero mem = 0
memcmp a b (suc n) mem = elim (mem a == mem b) [ false ↦ 1 | true ↦ memcmp (a + 1) (b + 1) n mem ]
