-- ===== src/MemoryMap.antt =====
-- The memory map of src/mm/pmm.c: reserving a range, and the choice of the region for the heap.
pub mod Reserve
mod Tests
pub mod Init
use utopia.Base.{
  ℕ, zero, suc, ◌+◌, Bool, true, false, not, ◌&&◌, ◌||◌, Option, none, some, List, ◌∷◌, ◌++◌, ltb,
  leb, ◌==◌, if◌then◌else◌, add64, sub64, length, [],
}
use utopia.Heap.{Block, block, header}

-- `memory_map_entry_t`; type 1 is available memory.
pub record Entry : Type 0 where
  pub addr : ℕ
  pub len : ℕ
  pub type : ℕ

abbrev pub entry : ℕ → ℕ → ℕ → Entry
entry a l t = record { addr = a; len = l; type = t }

-- The length of `kernel_memory_map`.
abbrev pub max_entries : ℕ
max_entries = 64

-- What one round of `memory_reserve_range`'s loop does to its entry.
pub data Visit : Type 0 where
  -- the entry becomes this one
  becomes : Entry → Visit
  -- the entry is cut in two; the second part goes to the end of the map
  split : Entry → Entry → Visit

pub visit : ℕ → ℕ → Entry → Visit
visit start end e =
    let region_end = add64 e.addr e.len in
    if not (e.type == 1)
    then becomes e
    else if leb end e.addr || leb region_end start
    then becomes e
    else if leb start e.addr && leb region_end end
    then becomes (record e { type = 2 })
    else if leb start e.addr && ltb end region_end
    then becomes (record e { addr = end; len = sub64 region_end end })
    else if ltb e.addr start && leb region_end end
    then becomes (record e { len = sub64 start e.addr })
    else if ltb e.addr start && ltb end region_end
    then split (record e { len = sub64 start e.addr }) (entry end (sub64 region_end end) 1)
    else becomes e

-- The loop of `memory_reserve_range` with `done` behind the index and `todo` from it on. The
-- Boolean is false for the return value -1, and `none` means that the fuel ran out.
pub reserve_loop : ℕ → ℕ → ℕ → List Entry → List Entry → Option (Bool × List Entry)
unfolding visit
reserve_loop start end zero done todo = none
reserve_loop start end (suc fuel) done [] = some (true, done)
reserve_loop start end (suc fuel) done (e ∷ todo) = elim (visit start end e) [
  | becomes e' ↦ reserve_loop start end fuel (done ++ (e' ∷ [])) todo
  | split e' n ↦ elim (leb max_entries (length done + suc (length todo))) [
    | true ↦ some (false, done ++ (e ∷ todo))
    | false ↦ reserve_loop start end fuel (done ++ (e' ∷ [])) (todo ++ (n ∷ []))
  ]
]

-- The map holds at most `max_entries` entries, so a round more than that is enough.
pub memory_reserve_range : ℕ → ℕ → List Entry → Option (Bool × List Entry)
unfolding reserve_loop
memory_reserve_range start end entries =
    if leb end start
    then some (true, entries)
    else reserve_loop start end (max_entries + 1) [] entries

-- `memory_init`'s first loop, from the largest region so far.
pub largest_free : ℕ × ℕ → List Entry → ℕ × ℕ
largest_free best [] = best
largest_free best (e ∷ es) =
    largest_free (if e.type == 1 && ltb best.1 e.len then (e.addr, e.len) else best) es

-- The region without the kernel image, if that ends inside it.
pub above_kernel : ℕ → ℕ × ℕ → ℕ × ℕ
above_kernel kernel_end (base, size) =
    if ltb base kernel_end && ltb kernel_end (add64 base size)
    then (kernel_end, sub64 size (sub64 kernel_end base))
    else (base, size)

-- `memory_init`: the heap is one free block. `to_virt` is `phys_to_virt`, and `kernel_end` the
-- physical address of the first page behind the kernel.
pub memory_init : (ℕ → ℕ) → ℕ → List Entry → List Block
unfolding largest_free above_kernel
memory_init to_virt kernel_end entries =
    let (base, size) = above_kernel kernel_end (largest_free (0, 0) entries) in
    block (to_virt base) (sub64 size header) true ∷ []
