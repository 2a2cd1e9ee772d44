-- ===== src/Linux/MemoryTests.antt =====
-- Runs of the model of src/exec/syscalls/linux/memory.c and instances of its theorems.
use utopia.Base.{ℕ, ◌+◌, ◌≡◌, refl, true, none, some, [], ◌∷◌, arith, get_or, add64, pos}
use utopia.Paging.X86.{x86_64, x86_64-IsLawful}
use utopia.Vmm.{
  Vm, map_page_4k, vm_user_to_kernel, unmap_page_4k, descend, pt_index, pt_pool_alloc, split_leaf,
  set_entry, fill,
}
use utopia.Vmm.Tests.{hhdm, top_table, with_huge, huge_owner, with_huge-IsTree}
use utopia.Addresses.{phys_to_virt, hhdm_virt_to_phys}
use utopia.Linux.Memory.{Process, brk, munmap, unmap_pages, grow_process_brk, grow_pages}
use utopia.Vmm.Trees.{IsTree, Pages, Avoids}
use utopia.Vmm.UserSpace.{vm_page_list_add}
use utopia.Linux.Growth.{brk-vm_user_to_kernel}
use utopia.Linux.Unmapping.{munmap-vm_user_to_kernel}
use utopia.Linux.Tests.{ops, world}
use utopia.Linux.Mmap.{
  Mmapped, mmap, map_block, map_at, map_flags, advanced, target_vaddr, source_of, file_at,
  block_contents,
}
use utopia.Linux.Placing.{mmap-vm_user_to_kernel}

abbrev process : Process
process = record {
  page_table = top_table;
  brk_start = 0x40_0000;
  brk_current = 0x40_0800;
  mmap_current = 0x5000_0000;
  owned_pages = record { pages = []; cap = 0 };
}

unmapped_test : (munmap x86_64 hhdm process 0x4000_5000 0x1001 with_huge).0 ≡ pos 0
unfolding munmap unmap_pages x86_64 unmap_page_4k descend pt_index pt_pool_alloc split_leaf
    set_entry fill phys_to_virt hhdm_virt_to_phys
unmapped_test = refl

munmap-vm_user_to_kernel_example :
    vm_user_to_kernel x86_64 hhdm top_table 0x4000_6fff
      (munmap x86_64 hhdm process 0x4000_5000 0x1001 with_huge).1
    ≡ none
munmap-vm_user_to_kernel_example =
    munmap-vm_user_to_kernel x86_64 hhdm x86_64-IsLawful (omega arith) huge_owner process
      0x4000_5000 0x1001 0x4000_6fff with_huge with_huge-IsTree refl (omega arith) (omega arith)
      unmapped_test

-- The heap stands in the huge page, and there are pages for the tables and the data.
abbrev with_more : Vm
with_more = record with_huge { pool = (hhdm + 0x2000) ∷ (hhdm + 0x3000) ∷ (hhdm + 0x4000) ∷ [] }

with_more-IsTree : IsTree x86_64 hhdm huge_owner with_more
unfolding x86_64 Pages Avoids hhdm_virt_to_phys
with_more-IsTree = record {
  no_null = refl;
  nonnull = ((λ e. omega (arith, e)), ((λ e. omega (arith, e)), ((λ e. omega (arith, e)), tt)));
  child = with_huge-IsTree.child;
  huge = with_huge-IsTree.huge;
  pages = (
    refl,
    omega arith,
    omega arith,
    ((λ e. omega (arith, e)), ((λ e. omega (arith, e)), tt)),
    (
      refl,
      omega arith,
      omega arith,
      ((λ e. omega (arith, e)), tt),
      (refl, omega arith, omega arith, tt, tt),
    ),
  );
}

abbrev heap_process : Process
heap_process = record {
  page_table = top_table;
  brk_start = 0x4000_0000;
  brk_current = 0x4000_0800;
  mmap_current = 0x5000_0000;
  owned_pages = record { pages = []; cap = 0 };
}

raised_test :
    (brk x86_64 hhdm (λ c. true) heap_process 0x4000_1001 with_more).0.brk_current ≡ 0x4000_1001
unfolding brk grow_process_brk grow_pages x86_64 map_page_4k descend pt_index pt_pool_alloc
    split_leaf set_entry fill phys_to_virt hhdm_virt_to_phys vm_page_list_add
raised_test = refl

brk-vm_user_to_kernel_example :
    vm_user_to_kernel x86_64 hhdm top_table 0x4000_1abc
      (brk x86_64 hhdm (λ c. true) heap_process 0x4000_1001 with_more).1
    ≡ some (
        add64
          (get_or
            (brk x86_64 hhdm (λ c. true) heap_process 0x4000_1001 with_more).0.owned_pages.pages
            0
            0)
          0xabc)
brk-vm_user_to_kernel_example =
    brk-vm_user_to_kernel x86_64 hhdm (λ c. true) x86_64-IsLawful (omega arith) huge_owner
      heap_process 0x4000_1001 0x4000_1abc with_more with_more-IsTree refl (omega arith)
      (omega arith) raised_test

-- The file behind the descriptor 3, mapped over two pages of the block.
abbrev block : ℕ
block = hhdm + 0x10_0000

abbrev shown : Mmapped
shown = record {
  result = pos 0x5000_0000;
  process = record heap_process { mmap_current = 0x5000_2000 };
  vm = (map_block x86_64 hhdm top_table (map_flags 3) 2 0x5000_0000 0x10_0000 with_more).1;
  contents = λ k. get_or (0x62 ∷ 0x63 ∷ 0x64 ∷ []) k 0;
}

shown_test :
    mmap ops world.fs x86_64 hhdm
      (λ n. some block)
      heap_process
      world.fds
      0
      0x1800
      3
      2
      (pos 3)
      1
      with_more
    ≡ some shown
unfolding mmap map_at map_block source_of file_at target_vaddr advanced block_contents x86_64
    map_page_4k descend pt_index pt_pool_alloc split_leaf set_entry fill phys_to_virt
    hhdm_virt_to_phys
shown_test = refl

mmap-vm_user_to_kernel_example :
    vm_user_to_kernel x86_64 hhdm top_table 0x5000_1234 shown.vm ≡ some (block + 0x1234)
unfolding target_vaddr hhdm_virt_to_phys
mmap-vm_user_to_kernel_example =
    mmap-vm_user_to_kernel ops world.fs x86_64 hhdm (λ n. some block) x86_64-IsLawful (omega arith)
      huge_owner heap_process world.fds 0 0x1800 3 2 (pos 3) 1 block 0x5000_1234 with_more shown
      with_more-IsTree refl refl (omega arith) refl (omega arith) refl (omega arith) (omega arith)
      (omega arith) shown_test refl
