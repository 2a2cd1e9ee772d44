-- ===== src/MemoryMap/Tests.antt =====
-- The memory map of src/mm/pmm.c at a small map, with its theorems there.
use utopia.Base.{◌≡◌, refl, true, some, List, [], ◌∷◌, arith}
use utopia.Heap.Tiles.{Tiles}
use utopia.Heap.Release.{Coalesced}
use utopia.MemoryMap.{Entry, entry, memory_reserve_range, memory_init, largest_free, above_kernel}
use utopia.MemoryMap.Reserve.{Ends, memory_reserve_range-Ends}
use utopia.MemoryMap.Init.{HeapRegion, memory_init-Tiles}

abbrev low_and_high : List Entry
low_and_high = entry 0 0x9f000 1 ∷ entry 0x9f000 0x61000 2 ∷ entry 0x100000 0x700000 1 ∷ []

reserve_inside :
    memory_reserve_range 0x200000 0x300000 low_and_high
    ≡ some (
      true,
      entry 0 0x9f000 1
          ∷ entry 0x9f000 0x61000 2
          ∷ entry 0x100000 0x100000 1
          ∷ entry 0x300000 0x500000 1
          ∷ [],
    )
unfolding memory_reserve_range
reserve_inside = refl

memory_reserve_range-Ends_example :
    Ends 0x200000 0x300000 [] low_and_high (memory_reserve_range 0x200000 0x300000 low_and_high)
memory_reserve_range-Ends_example =
    memory_reserve_range-Ends 0x200000 0x300000 low_and_high (omega arith) (omega arith)
      (omega arith)

-- The heap begins behind the kernel, which ends at 4 MiB.
memory_init-Tiles_example :
    Tiles 0x400000 0x800000 (memory_init (λ p. p) 0x400000 low_and_high)
    × Coalesced (memory_init (λ p. p) 0x400000 low_and_high)
    × HeapRegion 0x400000 low_and_high (0x400000, 0x400000)
unfolding largest_free above_kernel
memory_init-Tiles_example =
    memory_init-Tiles (λ p. p) 0x400000 low_and_high (omega arith) (omega arith) refl
