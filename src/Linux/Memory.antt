-- ===== src/Linux/Memory.antt =====
-- The system calls brk, mprotect and munmap of src/exec/syscalls/linux/memory.c on the page tables of
-- src/mm/vmm.c.
use utopia.Base.{
  ℕ, zero, suc, ◌+◌, ◌-◌, ◌*◌, ◌/◌, ◌%◌, Bool, true, false, ◌||◌, none, some, ltb, leb, ◌==◌,
  if◌then◌else◌, add64, ℤ, pos,
}
use utopia.Paging.{VmFlags, Arch}
use utopia.Vmm.{Vm, to_phys, pt_pool_alloc, map_page_4k, protect_page_4k, unmap_page_4k}
use utopia.Vmm.UserSpace.{PageList, vm_page_list_add, free}
use utopia.Linux.{errno, einval}

-- What the calls use of `process_t`.
pub record Process : Type 0 where
  pub page_table : ℕ
  pub brk_start : ℕ
  pub brk_current : ℕ
  pub mmap_current : ℕ
  pub owned_pages : PageList

-- `USER_HEAP_MAX`
abbrev pub user_heap_max : ℕ
user_heap_max = 0x8000_0000_0000

-- `value + 0xFFF` without its low 12 bits.
abbrev pub page_align_up : ℕ → ℕ
page_align_up value = add64 value 0xfff / 4096 * 4096

-- How many rounds a loop from `addr` makes that ends at `addr + size`, which may wrap, in steps of
-- a page. Both are multiples of 4096.
abbrev pub rounds : ℕ → ℕ → ℕ
rounds addr size = (add64 addr size - addr) / 4096

-- The flags of a page of the heap.
abbrev pub heap_flags : VmFlags
heap_flags = record { write = true; user = true; exec = false; global = false }

module _ (a : Arch) (offset : ℕ) where
  -- The loop of `munmap` over `n` pages from `va`.
  unfoldable pub unmap_pages : ℕ → ℕ → ℕ → Vm → Bool × Vm
  unfolding unmap_page_4k
  unmap_pages root zero va vm = (true, vm)
  unmap_pages root (suc n) va vm =
      let r = unmap_page_4k a offset root va vm in
      elim r.0 [ false ↦ (false, r.1) | true ↦ unmap_pages root n (va + 0x1000) r.1 ]

  unfoldable pub munmap : Process → ℕ → ℕ → Vm → ℤ × Vm
  unfolding unmap_pages
  munmap p addr size vm =
      if size == 0
      then (einval, vm)
      else if addr % 4096 == 0
      then (let r = unmap_pages p.page_table (rounds addr (page_align_up size)) addr vm in
          (if r.0 then pos 0 else errno 12, r.1))
      else (einval, vm)

  -- The loop of `mprotect`.
  unfoldable pub protect_pages : ℕ → VmFlags → ℕ → ℕ → Vm → Bool × Vm
  unfolding protect_page_4k
  protect_pages root flags zero va vm = (true, vm)
  protect_pages root flags (suc n) va vm =
      let r = protect_page_4k a offset root va flags vm in
      elim r.0 [ false ↦ (false, r.1) | true ↦ protect_pages root flags n (va + 0x1000) r.1 ]

  -- The flags of a `prot` of `mprotect`.
  unfoldable pub prot_flags : ℕ → VmFlags
  prot_flags prot = record {
    write = prot / 2 % 2 == 1;
    user = true;
    exec = prot / 4 % 2 == 1;
    global = false;
  }

  unfoldable pub mprotect : Process → ℕ → ℕ → ℕ → Vm → ℤ × Vm
  unfolding protect_pages prot_flags
  mprotect p addr size prot vm =
      if size == 0
      then (pos 0, vm)
      else if addr % 4096 == 0
      then (let r =
            protect_pages p.page_table (prot_flags prot) (rounds addr (page_align_up size)) addr
              vm in
          (if r.0 then pos 0 else errno 12, r.1))
      else (einval, vm)

  module _ (room : ℕ → Bool) where
    -- The loop of `grow_process_brk` over `n` pages from `addr`.
    unfoldable pub grow_pages : ℕ → ℕ → PageList → ℕ → Vm → Bool × PageList × Vm
    unfolding pt_pool_alloc map_page_4k free vm_page_list_add
    grow_pages root zero owned addr vm = (true, owned, vm)
    grow_pages root (suc n) owned addr vm = elim (pt_pool_alloc vm) [
      | none ↦ (false, owned, vm)
      | some (page, vm1) ↦
          let r = map_page_4k a offset root addr (to_phys a offset page) heap_flags vm1 in
          elim r.0 [
            | false ↦ (false, owned, free page r.1)
            | true ↦ elim (vm_page_list_add room owned page) [
              | none ↦ (false, owned, r.1)
              | some more ↦ grow_pages root n more (addr + 0x1000) r.1
            ]
          ]
    ]

    -- `grow_process_brk`
    unfoldable pub grow_process_brk : Process → ℕ → Vm → Bool × PageList × Vm
    unfolding grow_pages
    grow_process_brk p new_break vm =
        let old_end = page_align_up p.brk_current in
        grow_pages p.page_table ((page_align_up new_break - old_end) / 4096) p.owned_pages old_end
          vm

    -- `brk`; the result is the break after the call.
    unfoldable pub brk : Process → ℕ → Vm → Process × Vm
    unfolding grow_process_brk
    brk p requested vm =
        if requested == 0 || ltb requested p.brk_start || leb user_heap_max requested
        then (p, vm)
        else if ltb p.brk_current requested
        then (let r = grow_process_brk p requested vm in
            (
              record p {
                brk_current = if r.0 then requested else p.brk_current;
                owned_pages = r.1;
              },
              r.2,
            ))
        else (record p { brk_current = requested }, vm)
