-- ===== src/Linux/Growth.antt =====
-- brk of src/exec/syscalls/linux/memory.c where it makes the heap larger, on page tables that are
-- trees.
use utopia.Base.{
  ℕ, ◌+◌, ◌-◌, ◌*◌, ◌/◌, ◌%◌, ◌^◌, ◌≤◌, ◌<◌, ◌≡◌, refl, sym, ap, ◌∙◌, subst, inl, inr, Bool, true,
  false, ◌&&◌, ◌||◌, some, arith, ltb, leb, ◌==◌, if◌then◌else◌, Bool-cases, length, get_or, add64,
}
use utopia.Paging.{Arch, IsLawful}
use utopia.Vmm.{Vm, vm_user_to_kernel}
use utopia.Vmm.Trees.{Owner, IsTree}
use utopia.Linux.Memory.{Process, user_heap_max, page_align_up, grow_process_brk, brk}
use utopia.Linux.HeapPages.{pages-Grown}

-- The ends of the heap are whole pages.
heap_pages :
    (old new : ℕ)
    → old < new
    → new < user_heap_max
    → (page_align_up old % 4096 ≡ 0)
      × (page_align_up old ≤ page_align_up new)
      × (page_align_up new ≤ 2 ^ 47)
      × (page_align_up old + (page_align_up new - page_align_up old) / 4096 * 4096
          ≡ page_align_up new)
heap_pages old new l b = (omega arith, omega arith, omega arith, omega arith)

module _ (a : Arch) (offset : ℕ) (room : ℕ → Bool) where
  -- A call that moves the break up to what was asked for was within the bounds of the heap, and its
  -- loop ended well.
  record Raised (p : Process) (requested : ℕ) (vm : Vm) : Type 0 where
    below : requested < user_heap_max
    ran : (grow_process_brk a offset room p requested vm).0 ≡ true
    result : brk a offset room p requested vm ≡ (
      record p {
        brk_current = requested;
        owned_pages = (grow_process_brk a offset room p requested vm).1;
      },
      (grow_process_brk a offset room p requested vm).2,
    )

  brk-Raised :
      (p : Process) (requested : ℕ) (vm : Vm)
      → p.brk_current < requested
      → (brk a offset room p requested vm).0.brk_current ≡ requested
      → Raised p requested vm
  unfolding brk
  brk-Raised p requested vm l e =
      elim (Bool-cases
        (requested == 0 || ltb requested p.brk_start || leb user_heap_max requested)) [
          | inl y ↦
              let z : p.brk_current ≡ requested =
                ap (λ (r : Process × Vm). r.0.brk_current) (sym (refused y)) ∙ e in
              absurd (omega (arith, z))
          | inr n ↦ elim (Bool-cases (grow_process_brk a offset room p requested vm).0) [
            | inl g ↦ record { below = ground arith; ran = g; result = raised n g }
            | inr g ↦
                let z : p.brk_current ≡ requested =
                  ap (λ (r : Process × Vm). r.0.brk_current) (sym (failed n g)) ∙ e in
                absurd (omega (arith, z))
          ]
        ]
    where
      refused :
          (requested == 0 || ltb requested p.brk_start || leb user_heap_max requested) ≡ true
          → brk a offset room p requested vm ≡ (p, vm)
      refused y = rw (y, brk) refl

      above : ltb p.brk_current requested ≡ true
      above = ground arith

      raised :
          (requested == 0 || ltb requested p.brk_start || leb user_heap_max requested) ≡ false
          → (grow_process_brk a offset room p requested vm).0 ≡ true
          → brk a offset room p requested vm ≡ (
            record p {
              brk_current = requested;
              owned_pages = (grow_process_brk a offset room p requested vm).1;
            },
            (grow_process_brk a offset room p requested vm).2,
          )
      raised n g = rw (n, brk) (rw (above, brk) (rw (g, brk) refl))

      failed :
          (requested == 0 || ltb requested p.brk_start || leb user_heap_max requested) ≡ false
          → (grow_process_brk a offset room p requested vm).0 ≡ false
          → brk a offset room p requested vm ≡ (
            record p { owned_pages = (grow_process_brk a offset room p requested vm).1 },
            (grow_process_brk a offset room p requested vm).2,
          )
      failed n g = rw (n, brk) (rw (above, brk) (rw (g, brk) refl))

  module _ (law : IsLawful a) (off : offset < 2 ^ 64) where
    -- A `brk` that moves the break up to what was asked for puts the pages that it added to the list
    -- of the process, in order, behind the addresses from the old end of the heap to the new one,
    -- both rounded up to whole pages; every other address is found where it was.
    pub brk-vm_user_to_kernel :
        (own : Owner) (p : Process) (requested x : ℕ) (vm : Vm)
        → IsTree a offset own vm
        → own p.page_table ≡ some (3, 0)
        → p.brk_current < requested
        → x < 2 ^ 48
        → (brk a offset room p requested vm).0.brk_current ≡ requested
        → vm_user_to_kernel a offset p.page_table x (brk a offset room p requested vm).1 ≡ (
            if leb (page_align_up p.brk_current) x && ltb x (page_align_up requested)
            then some (
                add64
                  (get_or
                    (brk a offset room p requested vm).0.owned_pages.pages
                    (length p.owned_pages.pages + (x - page_align_up p.brk_current) / 4096)
                    0)
                  (x % 4096))
            else vm_user_to_kernel a offset p.page_table x vm)
    unfolding grow_process_brk
    brk-vm_user_to_kernel own p requested x vm tree top l small e =
        let r = brk-Raised p requested vm l e in
        let start = page_align_up p.brk_current in
        let n = (page_align_up requested - start) / 4096 in
        let (al, low, top_end, size) = heap_pages p.brk_current requested l r.below in
        let done =
          pages-Grown a offset room law off p.page_table n start own p.owned_pages vm al
            (omega (arith, top_end, size)) tree top r.ran in
        subst
          (λ (s : Process × Vm). vm_user_to_kernel a offset p.page_table x s.1 ≡ (
            if leb start x && ltb x (page_align_up requested)
            then some (
                add64
                  (get_or s.0.owned_pages.pages (length p.owned_pages.pages + (x - start) / 4096) 0)
                  (x % 4096))
            else vm_user_to_kernel a offset p.page_table x vm))
          (sym r.result)
          (elim (Bool-cases (leb start x && ltb x (page_align_up requested))) [
            | inl y ↦ rw y (done.found x (ground arith) (ground (arith, size)))
            | inr f ↦ rw f (done.others x small (ground (arith, size)))
          ])
