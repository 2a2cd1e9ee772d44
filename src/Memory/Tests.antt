-- ===== src/Memory/Tests.antt =====
-- The routines of src/mm/utils.c on a memory that holds its own addresses.
use utopia.Base.{◌≡◌, refl, inr, arith}
use utopia.Memory.{Bytes, memcpy, memmove, memcmp}
use utopia.Memory.Copies.{copied, memmove-copied, memcpy-copied}

abbrev mem : Bytes
mem x = x

-- The ranges overlap, and the byte at 5 is the one that was at 3.
memmove_run : memmove 2 0 4 mem 5 ≡ 3
unfolding memmove
memmove_run = refl

memcpy_run : memcpy 100 7 19 mem 118 ≡ 25
unfolding memcpy
memcpy_run = refl

memcmp_run : memcmp 0 1 3 mem ≡ 1
unfolding memcmp
memcmp_run = refl

memmove-copied_example : memmove 2 0 4 mem 5 ≡ copied 4 2 0 mem 5
memmove-copied_example = memmove-copied 2 0 4 mem 5

memcpy-copied_example : memcpy 100 7 19 mem 118 ≡ copied 19 100 7 mem 118
memcpy-copied_example = memcpy-copied 100 7 19 mem 118 (inr (omega arith))
