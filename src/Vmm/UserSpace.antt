-- ===== src/Vmm/UserSpace.antt =====
-- The functions of src/mm/vmm.c on a whole address space: cloning, collecting and freeing the user
-- half, the list of pages that a process owns, and permissions.
use utopia.Base.{
  ℕ, zero, suc, ◌+◌, ◌*◌, Bool, true, false, not, ◌&&◌, Option, none, some, List, [], ◌∷◌, ◌++◌,
  ltb, leb, ◌==◌, if◌then◌else◌, add64, length,
}
use utopia.Paging.{VmFlags, Arch}
use utopia.Vmm.{Vm, span, pt_index, fill, set_entry, pt_pool_alloc, to_virt, to_phys}

-- `vm_page_list_t`; `count` is the length of the list.
pub record PageList : Type 0 where
  pub pages : List ℕ
  pub cap : ℕ

-- `vm_page_list_add`; `room` says for which capacity `malloc` gives memory. `none` is -1.
unfoldable pub vm_page_list_add : (ℕ → Bool) → PageList → ℕ → Option PageList
vm_page_list_add room l page =
    let new_cap = if l.cap == 0 then 64 else l.cap * 2 in
    if length l.pages == l.cap
    then (if room new_cap
        then some (record { pages = l.pages ++ (page ∷ []); cap = new_cap })
        else none)
    else some (record l { pages = l.pages ++ (page ∷ []) })

unfoldable pub free : ℕ → Vm → Vm
free page vm = record vm { freed = page ∷ vm.freed }

unfoldable pub free_all : List ℕ → Vm → Vm
unfolding free
free_all [] vm = vm
free_all (p ∷ ps) vm = free_all ps (free p vm)

-- `vm_page_list_free`, but for the array itself.
unfoldable pub vm_page_list_free : PageList → Vm → PageList × Vm
unfolding free_all
vm_page_list_free l vm = (record { pages = []; cap = 0 }, free_all l.pages vm)

-- The loop over the `n` entries from `i`, which ends when the body returns -1, `false`.
unfoldable pub for_entries : {S : Type 0} → ℕ → ℕ → (ℕ → S → Bool × S) → S → Bool × S
for_entries zero i body s = (true, s)
for_entries (suc n) i body s =
    let r = body i s in elim r.0 [ false ↦ (false, r.1) | true ↦ for_entries n (suc i) body r.1 ]

-- How many entries of a table serve user addresses.
unfoldable pub user_entries : ℕ → ℕ
user_entries level = if level == 3 then 256 else 512

module _ (a : Arch) (offset : ℕ) where
  -- `clone_page_table`, whose kernel half is that of `page_table_l4`.
  unfoldable pub clone_page_table : ℕ → Vm → Option ℕ × Vm
  unfolding fill pt_pool_alloc
  clone_page_table page_table_l4 vm = elim (pt_pool_alloc vm) [
    | none ↦ (none, vm)
    | some (n, vm1) ↦
        (some n, fill n (λ j. if ltb j 256 then 0 else vm1.tables page_table_l4 j) vm1)
  ]

  -- `set_page_permissions` and `set_page_executable` are walks to the entry of the page, huge or
  -- not, which becomes `change` of it.
  unfoldable pub change_entry : (ℕ → ℕ) → ℕ → ℕ → ℕ → Vm → Vm
  unfolding pt_index set_entry
  change_entry change zero va t vm =
      let entry = vm.tables t (pt_index va 0) in
      elim (a.present entry) [ false ↦ vm | true ↦ set_entry t (pt_index va 0) (change entry) vm ]
  change_entry change (suc level) va t vm =
      let i = pt_index va (suc level) in
      let entry = vm.tables t i in
      elim (a.present entry) [
        | false ↦ vm
        | true ↦ elim (a.is_leaf entry (suc level)) [
          | true ↦ set_entry t i (change entry) vm
          | false ↦ change_entry change level va (to_virt a offset (a.phys entry)) vm
        ]
      ]

  unfoldable pub set_page_permissions : ℕ → ℕ → VmFlags → Vm → Vm
  unfolding change_entry
  set_page_permissions page_table_l4 virt flags vm =
      change_entry (λ e. a.with_flags e flags) 3 virt page_table_l4 vm

  unfoldable pub set_page_executable : ℕ → ℕ → Bool → Vm → Vm
  unfolding change_entry
  set_page_executable page_table_l4 virt executable vm =
      change_entry (λ e. a.set_exec e executable) 3 virt page_table_l4 vm

  -- `free_table_level`: the tables below, then the table.
  unfoldable pub free_table_level : ℕ → ℕ → Vm → Vm
  unfolding free for_entries
  free_table_level zero t vm = free t vm
  free_table_level (suc level) t vm =
      free t
        (for_entries 512 0
          (λ i s.
            let entry = s.tables t i in
            elim (a.present entry && not (a.is_leaf entry (suc level))) [
              | false ↦ (true, s)
              | true ↦ (true, free_table_level level (to_virt a offset (a.phys entry)) s)
            ])
          vm).1

  -- `free_page_table`: only the user half is freed. The null pointer is 0.
  unfoldable pub free_page_table : ℕ → Vm → Vm
  unfolding free for_entries free_table_level
  free_page_table l4_table vm =
      if l4_table == 0
      then vm
      else free l4_table
          (for_entries 256 0
            (λ i s.
              let entry = s.tables l4_table i in
              elim (a.present entry && not (a.is_leaf entry 3)) [
                | false ↦ (true, s)
                | true ↦ (true, free_table_level 2 (to_virt a offset (a.phys entry)) s)
              ])
            vm).1

  -- The pages found so far.
  abbrev pub Cloning : Type 0
  Cloning = PageList × Vm

  module _ (room : ℕ → Bool) (skip_lo skip_hi : ℕ) where
    skipped : ℕ → Bool
    skipped va = leb skip_lo va && ltb va skip_hi

    -- The body of the loop of `clone_user_level` at the last level.
    unfoldable pub clone_page : ℕ → ℕ → ℕ → ℕ → Cloning → Bool × Cloning
    unfolding skipped fill set_entry pt_pool_alloc vm_page_list_add free
    clone_page src dst va_base i (owned, vm) =
        let entry = vm.tables src i in
        elim (a.present entry && not (skipped (va_base + i * span 0))) [
          | false ↦ (true, (owned, vm))
          | true ↦ elim (pt_pool_alloc vm) [
            | none ↦ (false, (owned, vm))
            | some (page, vm1) ↦ elim (vm_page_list_add room owned page) [
              | none ↦ (false, (owned, free page vm1))
              | some more ↦ (
                true,
                (
                  more,
                  set_entry dst i (a.with_phys entry (to_phys a offset page))
                      (fill page (vm1.tables (to_virt a offset (a.phys entry))) vm1),
                ),
              )
            ]
          ]
        ]

    -- `clone_user_level`; `false` is -1.
    unfoldable pub clone_user_level : ℕ → ℕ → ℕ → ℕ → Cloning → Bool × Cloning
    unfolding clone_page for_entries user_entries set_entry pt_pool_alloc
    clone_user_level zero src dst va_base s = for_entries 512 0 (clone_page src dst va_base) s
    clone_user_level (suc level) src dst va_base s =
        for_entries (user_entries (suc level)) 0
          (λ i s.
            let entry = s.1.tables src i in
            let va = va_base + i * span (suc level) in
            elim (a.present entry) [
              | false ↦ (true, s)
              | true ↦ elim (a.is_leaf entry (suc level)) [
                | true ↦ (false, s)
                | false ↦ elim (leb skip_lo va && leb (add64 va (span (suc level))) skip_hi) [
                  | true ↦ (true, s)
                  | false ↦ elim (pt_pool_alloc s.1) [
                    | none ↦ (false, s)
                    | some (child, vm1) ↦
                        clone_user_level level (to_virt a offset (a.phys entry)) child va
                          (s.0, set_entry dst i (a.table (to_phys a offset child)) vm1)
                  ]
                ]
              ]
            ])
          s

    -- `clone_user_address_space`; what was cloned is freed on failure.
    unfoldable pub clone_user_address_space : ℕ → ℕ → Cloning → Option ℕ × Cloning
    unfolding clone_page_table clone_user_level free_page_table vm_page_list_free
    clone_user_address_space page_table_l4 src_l4 (owned, vm) =
        let r = clone_page_table page_table_l4 vm in
        elim r.0 [
          | none ↦ (none, (owned, r.1))
          | some new_l4 ↦
              let c = clone_user_level 3 src_l4 new_l4 0 (owned, r.1) in
              elim c.0 [
                | true ↦ (some new_l4, c.1)
                | false ↦ (none, vm_page_list_free c.1.0 (free_page_table new_l4 c.1.1))
              ]
        ]

    -- `collect_user_level`, which changes no table.
    unfoldable pub collect_user_level : ℕ → ℕ → ℕ → Vm → PageList → Bool × PageList
    unfolding skipped for_entries user_entries vm_page_list_add
    collect_user_level zero t va_base vm out =
        for_entries 512 0
          (λ i out.
            let entry = vm.tables t i in
            elim (a.present entry && not (skipped (va_base + i * span 0))) [
              | false ↦ (true, out)
              | true ↦ elim (vm_page_list_add room out (to_virt a offset (a.phys entry))) [
                | none ↦ (false, out)
                | some more ↦ (true, more)
              ]
            ])
          out
    collect_user_level (suc level) t va_base vm out =
        for_entries (user_entries (suc level)) 0
          (λ i out.
            let entry = vm.tables t i in
            elim (a.present entry && not (a.is_leaf entry (suc level))) [
              | false ↦ (true, out)
              | true ↦
                  collect_user_level level (to_virt a offset (a.phys entry))
                    (va_base + i * span (suc level)) vm out
            ])
          out

    unfoldable pub vm_collect_user_pages : ℕ → Vm → PageList → Bool × PageList
    unfolding collect_user_level
    vm_collect_user_pages l4 vm out = collect_user_level 3 l4 0 vm out
