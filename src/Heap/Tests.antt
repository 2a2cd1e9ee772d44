-- ===== src/Heap/Tests.antt =====
-- The heap operations of src/mm/pmm.c run at small heaps, and their theorems there.
use utopia.Base.{
  ℕ, ◌+◌, ◌-◌, ◌*◌, ◌%◌, ◌^◌, ◌≤◌, ◌≡◌, refl, ◌⊎◌, true, false, some, List, [], ◌∷◌, arith,
}
use utopia.Heap.{Block, block, header, malloc, free, page_alloc}
use utopia.Heap.Tiles.{Tiles, Range}
use utopia.Heap.Used.{Granted, malloc-Granted, malloc_disjoint}
use utopia.Heap.Release.{free-malloc}
use utopia.Heap.Pages.{PageRange, page_alloc-Granted}

abbrev empty_heap : List Block
empty_heap = block 4096 20480 true ∷ []

-- One payload of 104 bytes at 4120.
abbrev one_used : List Block
one_used = block 4096 104 false ∷ block 4224 20352 true ∷ []

-- A payload between two free blocks.
abbrev middle_used : List Block
middle_used = block 4096 40 true ∷ block 4160 104 false ∷ block 4288 20288 true ∷ []

abbrev range : Range 4096 24600
range = omega arith

abbrev page_range : PageRange 4096 24600
page_range = omega arith

malloc_run : malloc 100 empty_heap ≡ (some 4120, one_used)
unfolding malloc
malloc_run = refl

free_run : free 4184 middle_used ≡ empty_heap
unfolding free
free_run = refl

page_alloc_run :
    page_alloc 1 empty_heap
    ≡ (some 8192, block 4096 4048 true ∷ block 8168 4096 false ∷ block 12288 12288 true ∷ [])
unfolding page_alloc
page_alloc_run = refl

-- The sum in `round_up` wraps: a request for almost 2^64 bytes is granted with none.
malloc_wraps :
    malloc (2 ^ 64 - 1) empty_heap ≡ (some 4120, block 4096 0 false ∷ block 4120 20456 true ∷ [])
unfolding malloc
malloc_wraps = refl

malloc-Granted_example : Granted 4096 100 empty_heap (malloc 100 empty_heap).1 4120
unfolding malloc
malloc-Granted_example =
    malloc-Granted 4096 24600 100 4120 empty_heap range (omega arith) (omega arith) refl

malloc_disjoint_example :
    (4096 + header ≤ 4248) × (4248 + 8 ≤ 24600) × ((4248 + 8 ≤ 4120) ⊎ (4120 + 104 ≤ 4248))
unfolding malloc
malloc_disjoint_example =
    malloc_disjoint 4096 24600 8 4248 4120 104 one_used range (omega arith) (omega arith) refl refl

free-malloc_example : free 4248 (malloc 8 one_used).1 ≡ one_used
unfolding malloc
free-malloc_example = free-malloc 4096 24600 8 4248 one_used range (omega arith) (refl, tt) refl

page_alloc-Granted_example :
    Tiles 4096 24600 (page_alloc 1 empty_heap).1
    × ((p : ℕ)
        → (page_alloc 1 empty_heap).0 ≡ some p
        → Granted 4096 (4096 * 1) empty_heap (page_alloc 1 empty_heap).1 p × (p % 4096 ≡ 0))
page_alloc-Granted_example =
    page_alloc-Granted 4096 24600 1 empty_heap page_range (omega arith) (omega arith)
