-- ===== src/Heap.antt =====
-- The kernel heap of src/mm/pmm.c: a list of blocks that tile one range of addresses.
-- A `heap_block_t` is its address with its fields; the order of the list is the `next` chain from
-- `head`. Addresses and sizes are `uintptr_t` and `size_t`, and every sum wraps as in C.
pub mod Tiles
mod Tests
pub mod Used
pub mod Pages
pub mod Release
use utopia.Base.{
  ℕ, ◌+◌, ◌*◌, ◌/◌, Bool, true, false, ◌&&◌, Option, none, some, List, [], ◌∷◌, ltb, leb, ◌==◌,
  if◌then◌else◌, add64, sub64, mul64,
}

-- `heap_block_t`; `next` is the order of the list.
pub record Block : Type 0 where
  pub addr : ℕ
  pub size : ℕ
  pub free : Bool

abbrev pub block : ℕ → ℕ → Bool → Block
block a s f = record { addr = a; size = s; free = f }

-- `sizeof(heap_block_t)`: two words and a `bool`, padded to eight bytes.
abbrev pub header : ℕ
header = 24

-- `(size + 7) & ~7`
abbrev pub round_up : ℕ → ℕ
round_up size = add64 size 7 / 8 * 8

-- The body of `malloc`'s `if`: split the block if the rest can hold a header and 16 bytes.
pub carve : ℕ → Block → List Block → List Block
carve size b rest =
    if leb (add64 (add64 size header) 16) b.size
    then block b.addr size false
      ∷ block (add64 (add64 b.addr header) size) (sub64 (sub64 b.size size) header) true
      ∷ rest
    else record b { free = false } ∷ rest

-- `malloc`'s walk from `curr`: the first free block that is large enough.
pub first_fit : ℕ → List Block → Option ℕ × List Block
first_fit size [] = (none, [])
first_fit size (b ∷ bs) =
    let rest = first_fit size bs in
    if b.free && leb size b.size
    then (some (add64 b.addr header), carve size b bs)
    else (rest.0, b ∷ rest.1)

-- `malloc`; `none` is `NULL`.
pub malloc : ℕ → List Block → Option ℕ × List Block
unfolding first_fit carve
malloc size heap = if size == 0 then (none, heap) else first_fit (round_up size) heap

-- `block->free = true` at the block whose header is at `a`.
pub mark_free : ℕ → List Block → List Block
mark_free a [] = []
mark_free a (b ∷ bs) = if b.addr == a then record b { free = true } ∷ bs else b ∷ mark_free a bs

abbrev pub merge : Block → Block → Block
merge b c = record b { size = add64 b.size (add64 header c.size) }

-- `free`'s loop at `curr`, which stays put after a merge.
pub coalesce_from : Block → List Block → List Block
coalesce_from curr [] = curr ∷ []
coalesce_from curr (c ∷ cs) = elim (curr.free && c.free) [
  | true ↦ coalesce_from (merge curr c) cs
  | false ↦ curr ∷ coalesce_from c cs
]

pub coalesce : List Block → List Block
unfolding coalesce_from
coalesce [] = []
coalesce (b ∷ bs) = coalesce_from b bs

-- `free`; the argument 0 is `NULL`.
pub free : ℕ → List Block → List Block
unfolding mark_free coalesce
free ptr heap = if ptr == 0 then heap else coalesce (mark_free (sub64 ptr header) heap)

-- `(raw_addr + 4095) & ~4095`
abbrev pub page_up : ℕ → ℕ
page_up raw = add64 raw 4095 / 4096 * 4096

-- `aligned_addr` and `padding` of `page_alloc` for the payload address `raw`.
pub aligned_for : ℕ → ℕ × ℕ
aligned_for raw =
    let aligned = page_up raw in
    let padding = sub64 aligned raw in
    if (if padding == 0 then false else ltb padding (header + 16))
    then (add64 aligned 4096, add64 padding 4096)
    else (aligned, padding)

-- The split at the end of `page_alloc`: what of the taken block is not needed becomes free.
pub trim : ℕ → Block → List Block → List Block
trim size t rest =
    if leb (add64 (add64 size header) 16) t.size
    then record t { size = size }
      ∷ block (add64 (add64 t.addr header) size) (sub64 (sub64 t.size size) header) true
      ∷ rest
    else t ∷ rest

-- A block that fits: cut off the padding as a free block of its own, or take the block whole.
pub take_page : ℕ → ℕ → ℕ → Block → List Block → List Block
unfolding trim
take_page size aligned padding b rest =
    if leb (header + 16) padding
    then block b.addr (sub64 padding header) true
      ∷ trim size (block (sub64 aligned header) (sub64 b.size padding) false) rest
    else trim size (record b { free = false }) rest

-- `page_alloc`'s walk.
pub page_fit : ℕ → List Block → Option ℕ × List Block
unfolding aligned_for take_page
page_fit size [] = (none, [])
page_fit size (b ∷ bs) =
    let (aligned, padding) = aligned_for (add64 b.addr header) in
    let rest = page_fit size bs in
    if b.free && leb (add64 size padding) b.size
    then (some aligned, take_page size aligned padding b bs)
    else (rest.0, b ∷ rest.1)

pub page_alloc : ℕ → List Block → Option ℕ × List Block
unfolding page_fit
page_alloc pages heap = page_fit (mul64 4096 pages) heap
