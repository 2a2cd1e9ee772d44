-- ===== src/Vmm/Tests.antt =====
-- Runs of the model of src/mm/vmm.c and instances of its theorems.
use utopia.Base.{
  ℕ, suc, ◌+◌, ◌*◌, ◌%◌, ◌^◌, ◌≤◌, ◌≡◌, refl, sym, ap, ap₂, ◌∙◌, subst, ◌≢◌, ◌⊎◌, inl, inr, true,
  false, ◌&&◌, none, some, [], ◌∷◌, arith, ltb, ◌==◌, if◌then◌else◌,
}
use mathlib.Core.Option
use utopia.Addresses.{phys_to_virt, hhdm_virt_to_phys}
use utopia.Paging.{VmFlags}
use utopia.Paging.X86.{phys_bits, x86_64, x86_64-IsLawful}
use utopia.Vmm.{
  Vm, map_physical_range, span, fill, set_entry, map_page_4k, unmap_page_4k, protect_page_4k,
  vm_user_to_kernel, descend, pt_index, pt_pool_alloc, split_leaf, add_table, user_to_kernel,
}
use utopia.Vmm.Trees.{Owner, IsTree, Pages, Avoids}
use utopia.Vmm.Linking.{Extends, with_table}
use utopia.Vmm.Cloning.{clone_page_table-vm_user_to_kernel}
use utopia.Vmm.Termination.{map_physical_range_ends}
use utopia.Vmm.UserSpace.{
  clone_page_table, clone_user_address_space, vm_page_list_add, free_page_table, free_table_level,
  for_entries, free,
}
use utopia.Vmm.Outcomes.{
  map_page, protect_page, unmap_page, run, Sound, run-IsTree, map_page_4k-vm_user_to_kernel,
  map_page_4k_others, map_page_4k_succeeds, map_page_4k_fails, unmap_page_4k-vm_user_to_kernel,
  protect_page_4k-vm_user_to_kernel,
}

abbrev pub hhdm : ℕ
hhdm = 0xffff_8000_0000_0000

abbrev pub top_table : ℕ
top_table = hhdm + 0x1000

abbrev plain : VmFlags
plain = record { write = true; user = true; exec = false; global = false }

-- One empty table, and four pages.
abbrev start : Vm
start = record {
  tables = λ t i. 0;
  pool = (hhdm + 0x2000) ∷ (hhdm + 0x3000) ∷ (hhdm + 0x4000) ∷ (hhdm + 0x5000) ∷ [];
  freed = [];
  page_table_l4 = top_table;
}

abbrev only_top : Owner
only_top t = if t == top_table then some (3, 0) else none

start-IsTree : IsTree x86_64 hhdm only_top start
unfolding x86_64 Pages Avoids hhdm_virt_to_phys
start-IsTree = record {
  no_null = refl;
  nonnull = (
    (λ e. omega (arith, e)),
    ((λ e. omega (arith, e)), ((λ e. omega (arith, e)), ((λ e. omega (arith, e)), tt))),
  );
  child = λ t l p i o b y f. absurd (ground (arith, y));
  huge = λ t l p i o b y f. absurd (ground (arith, y));
  pages = (
    refl,
    omega arith,
    omega arith,
    omega arith,
    (
      refl,
      omega arith,
      omega arith,
      omega arith,
      (
        refl,
        omega arith,
        omega arith,
        omega arith,
        (refl, omega arith, omega arith, omega arith, tt),
      ),
    ),
  );
}

abbrev one_mapped : Vm
one_mapped = (map_page_4k x86_64 hhdm top_table 0x40_1000 0x9000 plain start).1

mapped_test : (map_page_4k x86_64 hhdm top_table 0x40_1000 0x9000 plain start).0 ≡ true
unfolding x86_64 map_page_4k descend pt_index pt_pool_alloc add_table set_entry fill
mapped_test = refl

map_page_4k-vm_user_to_kernel_example :
    vm_user_to_kernel x86_64 hhdm top_table 0x40_1234 one_mapped ≡ some (hhdm + 0x9234)
unfolding phys_to_virt
map_page_4k-vm_user_to_kernel_example =
    map_page_4k-vm_user_to_kernel x86_64 hhdm x86_64-IsLawful (omega arith) only_top top_table
      0x40_1000 0x9000 0x40_1234 plain start start-IsTree refl (omega arith) mapped_test
      (omega arith)

map_page_4k_others_example :
    (vm_user_to_kernel x86_64 hhdm top_table 0x40_2000 one_mapped
      ≡ vm_user_to_kernel x86_64 hhdm top_table 0x40_2000 start)
    × (vm_user_to_kernel x86_64 hhdm top_table 0x40_2000
          (unmap_page_4k x86_64 hhdm top_table 0x40_1000 start).1
        ≡ vm_user_to_kernel x86_64 hhdm top_table 0x40_2000 start)
map_page_4k_others_example =
    map_page_4k_others x86_64 hhdm x86_64-IsLawful (omega arith) only_top top_table top_table
      0x40_1000 0x9000 0x40_2000 plain start start-IsTree refl refl (omega arith) (omega arith)

map_page_4k_succeeds_example :
    (map_page_4k x86_64 hhdm top_table 0x7fff_ffff_0000 0x9000 plain start).0 ≡ true
map_page_4k_succeeds_example =
    map_page_4k_succeeds x86_64 hhdm x86_64-IsLawful (omega arith) only_top top_table
      0x7fff_ffff_0000 0x9000 plain start start-IsTree refl (omega arith) (omega arith)

-- Two pages are too few for three tables.
abbrev scarce : Vm
scarce = record start { pool = (hhdm + 0x2000) ∷ (hhdm + 0x3000) ∷ [] }

scarce-IsTree : IsTree x86_64 hhdm only_top scarce
unfolding x86_64 Pages Avoids hhdm_virt_to_phys
scarce-IsTree = record {
  no_null = refl;
  nonnull = ((λ e. omega (arith, e)), ((λ e. omega (arith, e)), tt));
  child = λ t l p i o b y f. absurd (ground (arith, y));
  huge = λ t l p i o b y f. absurd (ground (arith, y));
  pages = (refl, omega arith, omega arith, omega arith, (refl, omega arith, omega arith, tt, tt));
}

failed_test : (map_page_4k x86_64 hhdm top_table 0x40_1000 0x9000 plain scarce).0 ≡ false
unfolding x86_64 map_page_4k descend pt_index pt_pool_alloc add_table set_entry fill
failed_test = refl

map_page_4k_fails_example :
    vm_user_to_kernel x86_64 hhdm top_table 0x40_1000
      (map_page_4k x86_64 hhdm top_table 0x40_1000 0x9000 plain scarce).1
    ≡ vm_user_to_kernel x86_64 hhdm top_table 0x40_1000 scarce
map_page_4k_fails_example =
    map_page_4k_fails x86_64 hhdm x86_64-IsLawful (omega arith) only_top top_table top_table
      0x40_1000 0x9000 0x40_1000 plain scarce scarce-IsTree refl refl (omega arith) failed_test

-- Without a table, `map_page_4k` is about the kernel's and the other two fail.
null_test :
    (map_page_4k x86_64 hhdm 0 0x40_1000 0x9000 plain start
      ≡ map_page_4k x86_64 hhdm top_table 0x40_1000 0x9000 plain start)
    × (unmap_page_4k x86_64 hhdm 0 0x40_1000 start ≡ (false, start))
    × (protect_page_4k x86_64 hhdm 0 0x40_1000 plain start ≡ (false, start))
unfolding map_page_4k unmap_page_4k protect_page_4k
null_test = (refl, refl, refl)

-- A table whose entry 1 at the second level is a huge page of 1 GiB at 0x4000_0000, and two pages.
abbrev pub huge_owner : Owner
huge_owner t =
    if t == top_table then some (3, 0) else if t == hhdm + 0x6000 then some (2, 0) else none

abbrev pub with_huge : Vm
with_huge = record {
  tables = λ t i.
      if t == top_table && i == 0
      then 0x6007
      else if t == hhdm + 0x6000 && i == 1
      then 0x4000_0087
      else 0;
  pool = (hhdm + 0x2000) ∷ (hhdm + 0x3000) ∷ [];
  freed = [];
  page_table_l4 = top_table;
}

-- The present entries.
present_entries :
    (t i : ℕ)
    → x86_64.present (with_huge.tables t i) ≡ true
    → ((t ≡ top_table) × (i ≡ 0)) ⊎ ((t ≡ hhdm + 0x6000) × (i ≡ 1))
unfolding x86_64
present_entries t i y = ground arith

place_at :
    (t u l k p q : ℕ)
    → huge_owner u ≡ some (k, q)
    → t ≡ u
    → huge_owner t ≡ some (suc l, p)
    → (k ≡ suc l) × (q ≡ p)
place_at t u l k p q e z o =
    let r = Option.some-injective _ _ (sym e ∙ ap huge_owner (sym z) ∙ o) in
    (ap (λ (x : ℕ × ℕ). x.0) r, ap (λ (x : ℕ × ℕ). x.1) r)

pub with_huge-IsTree : IsTree x86_64 hhdm huge_owner with_huge
unfolding x86_64 Pages Avoids hhdm_virt_to_phys phys_to_virt
with_huge-IsTree = record {
  no_null = refl;
  nonnull = ((λ e. omega (arith, e)), ((λ e. omega (arith, e)), tt));
  child = λ t l p i o b y f. elim (present_entries t i y) [
    | inl (q, r) ↦
        let (k, z) = place_at t top_table l 3 p 0 refl q o in
        ap₂ (λ t i. huge_owner (phys_to_virt (some hhdm) (phys_bits (with_huge.tables t i)))) q r
        ∙ ap some (
            ap (λ v. (v, 0)) {x = 2} {y = l} (omega (arith, k))
            ∙ ap (λ w. (l, w)) {x = 0} {y = p * 512 + i} (omega (arith, z)))
    | inr (q, r) ↦
        let x : x86_64.is_leaf 0x4000_0087 (suc l) ≡ false =
          ap₂ (λ t i. x86_64.is_leaf (with_huge.tables t i) (suc l)) (sym q) (sym r) ∙ f in
        absurd (ground arith)
  ];
  huge = λ t l p i o b y f. elim (present_entries t i y) [
    | inl (q, r) ↦
        let x : x86_64.is_leaf 0x6007 (suc l) ≡ true =
          ap₂ (λ t i. x86_64.is_leaf (with_huge.tables t i) (suc l)) (sym q) (sym r) ∙ f in
        absurd (ground arith)
    | inr (q, r) ↦
        let (k, z) = place_at t (hhdm + 0x6000) l 2 p 0 refl q o in
        let e : phys_bits (with_huge.tables t i) ≡ 0x4000_0000 =
          ap₂ (λ t i. phys_bits (with_huge.tables t i)) q r in
        subst
          (λ m.
            (phys_bits (with_huge.tables t i) % span m ≡ 0)
            × (phys_bits (with_huge.tables t i) + span m ≤ 2 ^ 52))
          k (omega (arith, e))
  ];
  pages = (refl, omega arith, omega arith, omega arith, (refl, omega arith, omega arith, tt, tt));
}

unmapped_test : (unmap_page_4k x86_64 hhdm top_table 0x4000_5000 with_huge).0 ≡ true
unfolding x86_64 unmap_page_4k descend pt_index pt_pool_alloc split_leaf set_entry fill phys_to_virt
    hhdm_virt_to_phys
unmapped_test = refl

unmap_page_4k-vm_user_to_kernel_example :
    vm_user_to_kernel x86_64 hhdm top_table 0x4000_5678
      (unmap_page_4k x86_64 hhdm top_table 0x4000_5000 with_huge).1
    ≡ none
unmap_page_4k-vm_user_to_kernel_example =
    unmap_page_4k-vm_user_to_kernel x86_64 hhdm x86_64-IsLawful (omega arith) huge_owner top_table
      0x4000_5000 0x4000_5678 with_huge with_huge-IsTree refl unmapped_test (omega arith)

-- Protecting one page of it takes the same two tables, and the page is found where it was.
protect_page_4k-vm_user_to_kernel_example :
    vm_user_to_kernel x86_64 hhdm top_table 0x4000_5678
      (protect_page_4k x86_64 hhdm top_table 0x4000_5000 plain with_huge).1
    ≡ vm_user_to_kernel x86_64 hhdm top_table 0x4000_5678 with_huge
protect_page_4k-vm_user_to_kernel_example =
    protect_page_4k-vm_user_to_kernel x86_64 hhdm x86_64-IsLawful (omega arith) huge_owner top_table
      top_table 0x4000_5000 0x4000_5678 plain with_huge with_huge-IsTree refl refl

found_test :
    vm_user_to_kernel x86_64 hhdm top_table 0x4000_5678
      (protect_page_4k x86_64 hhdm top_table 0x4000_5000 plain with_huge).1
    ≡ some (hhdm + 0x4000_5678)
unfolding vm_user_to_kernel user_to_kernel x86_64 protect_page_4k descend pt_index pt_pool_alloc
    split_leaf set_entry fill phys_to_virt hhdm_virt_to_phys
found_test = refl

-- Three calls on one page.
run-IsTree_example :
    (own' : Owner) × Extends only_top own'
    × IsTree x86_64 hhdm own' (
        run x86_64 hhdm x86_64-IsLawful
          (omega arith)
          (map_page top_table 0x40_1000 0x9000 plain
            ∷ protect_page top_table 0x40_1000 plain
            ∷ unmap_page top_table 0x40_1000
            ∷ [])
          start)
unfolding Sound
run-IsTree_example =
    run-IsTree x86_64 hhdm x86_64-IsLawful (omega arith) only_top
      (map_page top_table 0x40_1000 0x9000 plain
        ∷ protect_page top_table 0x40_1000 plain
        ∷ unmap_page top_table 0x40_1000
        ∷ [])
      start start-IsTree (refl, omega arith, (refl, (refl, tt)))

clone_test : (clone_page_table x86_64 hhdm top_table start).0 ≡ some (hhdm + 0x2000)
unfolding clone_page_table pt_pool_alloc fill
clone_test = refl

clone_page_table-vm_user_to_kernel_example :
    IsTree x86_64 hhdm
      (with_table only_top (hhdm + 0x2000) (3, 0))
      (clone_page_table x86_64 hhdm top_table start).1
    × ((va : ℕ)
        → vm_user_to_kernel x86_64 hhdm
            (hhdm + 0x2000)
            va
            (clone_page_table x86_64 hhdm top_table start).1
          ≡ (if ltb (pt_index va 3) 256
              then none
              else vm_user_to_kernel x86_64 hhdm top_table va start))
clone_page_table-vm_user_to_kernel_example =
    clone_page_table-vm_user_to_kernel x86_64 hhdm x86_64-IsLawful (omega arith) only_top top_table
      (hhdm + 0x2000) start start-IsTree refl clone_test

map_physical_range_ends_example :
    (map_physical_range x86_64 hhdm top_table 0 0x80_0000 plain start).0 ≢ none
map_physical_range_ends_example =
    map_physical_range_ends x86_64 hhdm top_table plain 0 0x80_0000 start (omega arith)

-- Without a page there is no clone.
copied_test :
    (clone_user_address_space x86_64 hhdm
      (λ c. true)
      0
      0
      top_table
      top_table
      (record { pages = []; cap = 0 }, record with_huge { pool = [] })).0
    ≡ none
unfolding clone_user_address_space clone_page_table pt_pool_alloc
copied_test = refl

list_test :
    vm_page_list_add (λ c. true) (record { pages = []; cap = 0 }) 0x1000
    ≡ some (record { pages = 0x1000 ∷ []; cap = 64 })
unfolding vm_page_list_add
list_test = refl

freed_test :
    (free_page_table x86_64 hhdm top_table with_huge).freed ≡ top_table ∷ (hhdm + 0x6000) ∷ []
unfolding free_page_table free_table_level for_entries free x86_64 phys_to_virt
freed_test = refl
