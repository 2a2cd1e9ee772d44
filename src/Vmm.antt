-- ===== src/Vmm.antt =====
-- The page tables of src/mm/vmm.c, for an architecture whose entries are `a` and the offset of the
-- direct map that the boot loader gave. A table is known by its virtual address. The flushes of
-- the TLB are left out.
pub mod Trees
pub mod Linking
pub mod Steps
pub mod Descent
pub mod Walks
pub mod Mapping
pub mod Calls
pub mod UserSpace
pub mod Termination
pub mod Outcomes
pub mod Taking
pub mod Cloning
pub mod Tests
use utopia.Base.{
  ℕ, zero, suc, ◌+◌, ◌-◌, ◌*◌, ◌/◌, ◌%◌, ◌^◌, Bool, true, false, ◌&&◌, Option, none, some, List,
  ◌∷◌, ltb, ◌==◌, if◌then◌else◌, add64, [],
}
use utopia.Addresses.{phys_to_virt, hhdm_virt_to_phys}
use utopia.Paging.{VmFlags, Arch}

-- The words of the pages that hold tables, by the page's virtual address and the index, and the
-- pages that `page_alloc(1)` will return, after which it returns NULL. `freed` are the pages given to
-- `free`, the last one first, and `page_table_l4` is the kernel's top table, which the functions
-- that always use it take as an argument.
pub record Vm : Type 0 where
  pub tables : ℕ → ℕ → ℕ
  pub pool : List ℕ
  pub freed : List ℕ
  pub page_table_l4 : ℕ

abbrev pub span : ℕ → ℕ
span level = 2 ^ (12 + level * 9)

unfoldable pub pt_index : ℕ → ℕ → ℕ
pt_index va level = va / span level % 512

-- The page at `t` gets the words `words`.
unfoldable pub fill : ℕ → (ℕ → ℕ) → Vm → Vm
fill t words vm = record vm { tables = λ u j. if u == t then words j else vm.tables u j }

-- `table[i] = entry`
unfoldable pub set_entry : ℕ → ℕ → ℕ → Vm → Vm
set_entry t i entry vm = record vm {
  tables = λ u j. if u == t && j == i then entry else vm.tables u j;
}

-- The page is cleared.
unfoldable pub pt_pool_alloc : Vm → Option (ℕ × Vm)
unfolding fill
pt_pool_alloc vm = elim vm.pool [
  | [] ↦ none
  | n ∷ ns ↦ some (n, fill n (λ j. 0) (record vm { pool = ns }))
]

-- How far a walk down to the last table came.
pub data Walk : Type 0 where
  arrived : ℕ → Walk
  missing : Walk
  no_memory : Walk

module _ (a : Arch) (offset : ℕ) where
  abbrev pub to_virt : ℕ → ℕ
  to_virt = phys_to_virt (some offset)

  abbrev pub to_phys : ℕ → ℕ
  to_phys = hhdm_virt_to_phys (some offset)

  -- `split_leaf` of the entry `table[i]` at the level above `level`; it fails without a page.
  unfoldable pub split_leaf : ℕ → ℕ → ℕ → Vm → Option Vm
  unfolding fill set_entry pt_pool_alloc
  split_leaf level t i vm =
      let old = vm.tables t i in
      elim (pt_pool_alloc vm) [
        | none ↦ none
        | some (n, vm1) ↦ some (
            set_entry t i (a.table (to_phys n))
              (fill n (λ j. a.child_leaf old (a.phys old + j * span level) level) vm1))
      ]

  -- A table for the missing entry `table[i]`.
  unfoldable pub add_table : ℕ → ℕ → Vm → Option (ℕ × Vm)
  unfolding set_entry pt_pool_alloc
  add_table t i vm = elim (pt_pool_alloc vm) [
    | none ↦ none
    | some (n, vm1) ↦ some (n, set_entry t i (a.table (to_phys n)) vm1)
  ]

  -- The loop of `map_page_4k`, `protect_page_4k` and `unmap_page_4k` from the table `t` of the
  -- level to the last one. Only the first of them adds a table where there is none.
  unfoldable pub descend : Bool → ℕ → ℕ → ℕ → Vm → Walk × Vm
  unfolding pt_index split_leaf add_table
  descend grow zero va t vm = (arrived t, vm)
  descend grow (suc level) va t vm =
      let i = pt_index va (suc level) in
      elim (a.present (vm.tables t i)) [
        | false ↦ elim grow [
          | false ↦ (missing, vm)
          | true ↦ elim (add_table t i vm) [
            | none ↦ (no_memory, vm)
            | some (n, vm1) ↦ descend grow level va n vm1
          ]
        ]
        | true ↦ elim (a.is_leaf (vm.tables t i) (suc level)) [
          | false ↦ descend grow level va (to_virt (a.phys (vm.tables t i))) vm
          | true ↦ elim (split_leaf level t i vm) [
            | none ↦ (no_memory, vm)
            | some vm1 ↦ descend grow level va (to_virt (a.phys (vm1.tables t i))) vm1
          ]
        ]
      ]

  -- The functions on single pages, on the table `root`, where 0 is NULL; `true` is the return value 0.
  -- `map_page_4k` of NULL is about the kernel's table.
  abbrev pub or_kernel : ℕ → Vm → ℕ
  or_kernel root vm = if root == 0 then vm.page_table_l4 else root

  unfoldable pub map_page_4k : ℕ → ℕ → ℕ → VmFlags → Vm → Bool × Vm
  unfolding pt_index set_entry descend
  map_page_4k root va phys flags vm =
      let r = descend true 3 va (or_kernel root vm) vm in
      let vm1 = r.1 in
      elim r.0 [
        | arrived t ↦ (true, set_entry t (pt_index va 0) (a.leaf phys flags false) vm1)
        | missing ↦ (false, vm1)
        | no_memory ↦ (false, vm1)
      ]

  unfoldable pub protect_page_4k : ℕ → ℕ → VmFlags → Vm → Bool × Vm
  unfolding pt_index set_entry descend
  protect_page_4k root va flags vm =
      let r = descend false 3 va root vm in
      let vm1 = r.1 in
      elim (root == 0) [
        | true ↦ (false, vm)
        | false ↦ elim r.0 [
          | arrived t ↦
              let entry = vm1.tables t (pt_index va 0) in
              if a.present entry
              then (true, set_entry t (pt_index va 0) (a.leaf (a.phys entry) flags false) vm1)
              else (false, vm1)
          | missing ↦ (false, vm1)
          | no_memory ↦ (false, vm1)
        ]
      ]

  unfoldable pub unmap_page_4k : ℕ → ℕ → Vm → Bool × Vm
  unfolding pt_index set_entry descend
  unmap_page_4k root va vm =
      let r = descend false 3 va root vm in
      let vm1 = r.1 in
      elim (root == 0) [
        | true ↦ (false, vm)
        | false ↦ elim r.0 [
          | arrived t ↦ (true, set_entry t (pt_index va 0) 0 vm1)
          | missing ↦ (true, vm1)
          | no_memory ↦ (false, vm1)
        ]
      ]

  -- The inner loop of `map_physical_range`, from the level `suc depth` down to level 1. It does not
  -- ask whether a present entry is a huge page.
  unfoldable pub reach_huge : ℕ → ℕ → ℕ → Vm → Option ℕ × Vm
  unfolding pt_index add_table
  reach_huge zero va t vm = (some t, vm)
  reach_huge (suc depth) va t vm =
      let i = pt_index va (suc (suc depth)) in
      elim (a.present (vm.tables t i)) [
        | true ↦ reach_huge depth va (to_virt (a.phys (vm.tables t i))) vm
        | false ↦ elim (add_table t i vm) [
          | none ↦ (none, vm)
          | some (n, vm1) ↦ reach_huge depth va n vm1
        ]
      ]

  -- The outer loop from `addr` to `end`, with fuel.
  unfoldable pub map_range : ℕ → ℕ → ℕ → ℕ → VmFlags → Vm → Option Bool × Vm
  unfolding pt_index set_entry reach_huge
  map_range zero page_table_l4 addr end flags vm = (none, vm)
  map_range (suc fuel) page_table_l4 addr end flags vm = elim (ltb addr end) [
    | false ↦ (some true, vm)
    | true ↦
        let r = reach_huge 2 addr page_table_l4 vm in
        elim r.0 [
          | none ↦ (some false, r.1)
          | some t ↦
              map_range fuel page_table_l4 (add64 addr (span 1)) end flags
                (set_entry t (pt_index addr 1) (a.leaf (addr - addr % span 1) flags true) r.1)
        ]
  ]

  -- `map_physical_range`; `none` would be a loop that has not ended.
  unfoldable pub map_physical_range : ℕ → ℕ → ℕ → VmFlags → Vm → Option Bool × Vm
  unfolding map_range
  map_physical_range page_table_l4 phys_start size flags vm =
      map_range (suc (size / span 1 + 1)) page_table_l4 phys_start (add64 phys_start size) flags vm

  -- The loop of `vm_user_to_kernel` from the table `t` of the level; `none` is NULL.
  unfoldable pub user_to_kernel : ℕ → ℕ → ℕ → Vm → Option ℕ
  unfolding pt_index
  user_to_kernel zero va t vm =
      let entry = vm.tables t (pt_index va 0) in
      elim (a.present entry) [
        | false ↦ none
        | true ↦ some (add64 (to_virt (a.phys entry)) (va % span 0))
      ]
  user_to_kernel (suc level) va t vm =
      let entry = vm.tables t (pt_index va (suc level)) in
      elim (a.present entry) [
        | false ↦ none
        | true ↦ elim (a.is_leaf entry (suc level)) [
          | true ↦ some (add64 (to_virt (a.phys entry)) (va % span (suc level)))
          | false ↦ user_to_kernel level va (to_virt (a.phys entry)) vm
        ]
      ]

  unfoldable pub vm_user_to_kernel : ℕ → ℕ → Vm → Option ℕ
  unfolding user_to_kernel
  vm_user_to_kernel root va vm = user_to_kernel 3 va root vm
