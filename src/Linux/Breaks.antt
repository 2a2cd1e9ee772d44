-- ===== src/Linux/Breaks.antt =====
-- brk of src/exec/syscalls/linux/memory.c: where the break can be, and what a larger heap holds.
use utopia.Base.{
  ℕ, ◌≤◌, ◌<◌, ◌≡◌, refl, ◌⊎◌, inl, inr, Bool, ◌||◌, arith, ltb, leb, ◌==◌, Bool-cases,
}
use utopia.Paging.{Arch}
use utopia.Vmm.{Vm}
use utopia.Linux.Memory.{Process, user_heap_max, grow_process_brk, brk}

-- The break stands in the part of the addresses for the heap.
unfoldable pub InHeap : Process → Type 0
InHeap p = (p.brk_start ≤ p.brk_current) × (p.brk_current < user_heap_max)

module _ (a : Arch) (offset : ℕ) (room : ℕ → Bool) where
  -- Whatever is asked for and whether or not there is memory, the break stays in the heap and its
  -- start stays; the call sets the break to what was asked for or leaves it.
  pub brk-InHeap :
      (p : Process) (requested : ℕ) (vm : Vm)
      → InHeap p
      → InHeap (brk a offset room p requested vm).0
        × ((brk a offset room p requested vm).0.brk_start ≡ p.brk_start)
        × (((brk a offset room p requested vm).0.brk_current ≡ requested)
            ⊎ ((brk a offset room p requested vm).0.brk_current ≡ p.brk_current))
  unfolding brk InHeap
  brk-InHeap p requested vm h =
      elim (Bool-cases
        (requested == 0 || ltb requested p.brk_start || leb user_heap_max requested)) [
          | inl y ↦ rw (y, brk) (h, refl, inr refl)
          | inr n ↦
              rw (n, brk)
                (elim (Bool-cases (ltb p.brk_current requested)) [
                  | inr k ↦ rw (k, brk) ((ground arith, ground arith), refl, inl refl)
                  | inl y ↦
                      rw (y, brk)
                        (elim (Bool-cases (grow_process_brk a offset room p requested vm).0) [
                          | inl g ↦ rw (g, brk) ((ground arith, ground arith), refl, inl refl)
                          | inr g ↦ rw (g, brk) (h, refl, inr refl)
                        ])
                ])
        ]
