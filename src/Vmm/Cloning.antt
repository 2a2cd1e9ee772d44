-- ===== src/Vmm/Cloning.antt =====
-- clone_page_table of src/mm/vmm.c: a new address space with the kernel's half and no user pages.
use utopia.Base.{
  ℕ, suc, ◌+◌, ◌*◌, ◌%◌, ◌^◌, ◌≤◌, ◌<◌, ◌≡◌, refl, sym, ap, ap₂, ◌∙◌, subst, ◌≢◌, inl, inr, true,
  false, Option, none, some, List, [], ◌∷◌, arith, ltb, ◌==◌, if◌then◌else◌, ltb→lt, Bool-cases,
}
use mathlib.Core.Option
use utopia.Paging.{Arch, IsLawful}
use utopia.Vmm.{Vm, span, pt_index, fill, pt_pool_alloc, to_virt, vm_user_to_kernel}
use utopia.Vmm.Trees.{
  Avoids, Owner, Pages, prefix, IsTree, translate, translate-missing, translate-congruent,
  change-translate, pt_index_bound,
}
use utopia.Vmm.Linking.{
  with_table, with_table_new, with_table_other, with_table-Extends, owned_differs, Pages-with_table,
}
use utopia.Vmm.Mapping.{user_to_kernel-translate}
use utopia.Vmm.UserSpace.{clone_page_table}

index_prefix : (va : ℕ) → 0 * 512 + pt_index va 3 ≡ prefix va 2
unfolding pt_index
index_prefix va = omega arith

module _ (a : Arch) (offset : ℕ) where
  -- The state after a page was there to take.
  abbrev cloned : ℕ → ℕ → List ℕ → Vm → Vm
  cloned root n ns vm =
      let vm1 = fill n (λ j. 0) (record vm { pool = ns }) in
      fill n (λ j. if ltb j 256 then 0 else vm1.tables root j) vm1

  pub clone-some :
      (root n : ℕ) (ns : List ℕ) (vm : Vm)
      → vm.pool ≡ n ∷ ns
      → clone_page_table a offset root vm ≡ (some n, cloned root n ns vm)
  unfolding clone_page_table pt_pool_alloc
  clone-some root n ns vm e = rw (e, clone_page_table) refl

  pub clone-none :
      (root : ℕ) (vm : Vm) → vm.pool ≡ [] → (clone_page_table a offset root vm).0 ≡ none
  unfolding clone_page_table pt_pool_alloc
  clone-none root vm e = rw (e, clone_page_table) refl

  module _ (law : IsLawful a) (off : offset < 2 ^ 64) (own : Owner) (root n : ℕ) (ns : List ℕ)
      (vm : Vm) (tree : IsTree a offset own vm) (top : own root ≡ some (3, 0))
      (taken : vm.pool ≡ n ∷ ns) where
    fresh : Pages a offset own (n ∷ ns)
    fresh = subst (Pages a offset own) taken tree.pages

    at_null : (n ≢ 0) × Avoids 0 ns
    unfolding Avoids
    at_null = subst (Avoids 0) taken tree.nonnull

    unowned : own n ≡ none
    unfolding Pages
    unowned = fresh.0

    differs : (u : ℕ) (q : ℕ × ℕ) → own u ≡ some q → u ≢ n
    differs u q o = owned_differs own n u unowned (λ z. Option.some-ne-none _ (sym o ∙ z))

    abbrev after : Vm
    after = cloned root n ns vm

    row_user : (j : ℕ) → j < 256 → after.tables n j ≡ 0
    unfolding fill
    row_user j h = ground arith

    row_kernel : (j : ℕ) → 256 ≤ j → after.tables n j ≡ vm.tables root j
    unfolding fill
    row_kernel j h = ground (arith, differs root _ top)

    row_old : (u j : ℕ) → u ≢ n → after.tables u j ≡ vm.tables u j
    unfolding fill
    row_old u j h = ground arith

    -- Nothing changed in the tables that there were.
    old_same :
        (va l u : ℕ)
        → l ≤ 3
        → own u ≡ some (l, prefix va l)
        → translate a offset l va u after ≡ translate a offset l va u vm
    old_same va l u b o =
        change-translate a offset own vm after tree root 512 3 0 top
          (λ v j h k. row_old v j (owned_differs own n v unowned h)) va
          (λ c p i. absurd (omega (arith, pt_index_bound va 3))) l u b o

    kernel_same :
        (va : ℕ)
        → 256 ≤ pt_index va 3
        → translate a offset 3 va n after ≡ translate a offset 3 va root vm
    kernel_same va h =
        translate-congruent a offset va 2 root n vm after (row_kernel (pt_index va 3) h) λ y f.
          old_same va 2 _ (omega arith) (
            tree.child root 2 0 (pt_index va 3) top (pt_index_bound va 3) y f
            ∙ ap (λ x. some (2, x)) (index_prefix va))

    user_none : (va : ℕ) → pt_index va 3 < 256 → translate a offset 3 va n after ≡ none
    user_none va h =
        translate-missing a offset va 3 n after
          (ap a.present (row_user (pt_index va 3) h) ∙ law.present_zero)

    abbrev place : Owner
    place = with_table own n (3, 0)

    old_place : (u l p : ℕ) → u ≢ n → place u ≡ some (l, p) → own u ≡ some (l, p)
    old_place u l p d o = sym (with_table_other own n u (3, 0) d) ∙ o

    kept_place : (u l p : ℕ) → own u ≡ some (l, p) → place u ≡ some (l, p)
    kept_place u l p o = with_table-Extends own n (3, 0) unowned u (l, p) o

    new_place : (u l p : ℕ) → u ≡ n → place u ≡ some (l, p) → (l ≡ 3) × (p ≡ 0)
    new_place u l p e o =
        let q = Option.some-injective _ _ (sym o ∙ ap place e ∙ with_table_new own n (3, 0)) in
        (ap (λ (x : ℕ × ℕ). x.0) q, ap (λ (x : ℕ × ℕ). x.1) q)

    -- A present entry of the tables after is one that there was before, at the same index of a table
    -- of the same place.
    data Before (u l p i : ℕ) : Type 0 where
      before : (v : ℕ) → own v ≡ some (l, p) → after.tables u i ≡ vm.tables v i → Before u l p i

    find_unchanged :
        (u l p i : ℕ) → place u ≡ some (l, p) → a.present (after.tables u i) ≡ true → Before u l p i
    find_unchanged u l p i o y = elim (Bool-cases (u == n)) [
      | inr x ↦ let d : u ≢ n = λ q. ground arith in before u (old_place u l p d o) (row_old u i d)
      | inl x ↦
          let e : u ≡ n = ground arith in
          let (l3, p0) = new_place u l p e o in
          elim (Bool-cases (ltb i 256)) [
            | inl k ↦
                let z : false ≡ true =
                  sym law.present_zero
                  ∙ ap a.present
                      (sym (row_user i (ltb→lt i 256 k)) ∙ ap (λ v. after.tables v i) (sym e))
                  ∙ y in
                absurd (cc)
            | inr k ↦
                before root (top ∙ ap some (ap₂ (λ v w. (v, w)) (sym l3) (sym p0)))
                  (ap (λ v. after.tables v i) e ∙ row_kernel i (ground arith))
          ]
    ]

    clone-IsTree : IsTree a offset place after
    unfolding fill Pages
    clone-IsTree = record {
      child = λ u l p i o b y f. elim (find_unchanged u (suc l) p i o y) [
        | before v w e ↦
            ap (λ x. place (to_virt a offset (a.phys x))) e
            ∙ kept_place _ _ _ (
                tree.child v l p i w b (ap a.present (sym e) ∙ y)
                  (ap (λ x. a.is_leaf x (suc l)) (sym e) ∙ f))
      ];
      huge = λ u l p i o b y f. elim (find_unchanged u (suc l) p i o y) [
        | before v w e ↦
            subst (λ x. (a.phys x % span (suc l) ≡ 0) × (a.phys x + span (suc l) ≤ 2 ^ 52)) (sym e)
              (tree.huge v l p i w b (ap a.present (sym e) ∙ y)
                (ap (λ x. a.is_leaf x (suc l)) (sym e) ∙ f))
      ];
      pages = place_pages;
      no_null = with_table_other own n 0 (3, 0) (λ e. at_null.0 (sym e)) ∙ tree.no_null;
      nonnull = at_null.1;
    }
      where
        place_pages : Pages a offset place ns
        place_pages = Pages-with_table a offset law off own n (3, 0) ns fresh.3 fresh.4

    clone_result :
        (va : ℕ)
        → vm_user_to_kernel a offset n va after
          ≡ (if ltb (pt_index va 3) 256 then none else vm_user_to_kernel a offset root va vm)
    unfolding vm_user_to_kernel
    clone_result va = elim (Bool-cases (ltb (pt_index va 3) 256)) [
      | inl y ↦
          user_to_kernel-translate a offset 3 va n after
          ∙ ap (Option.map (to_virt a offset)) (user_none va (ltb→lt (pt_index va 3) 256 y))
          ∙ rw y refl
      | inr x ↦
          user_to_kernel-translate a offset 3 va n after
          ∙ ap (Option.map (to_virt a offset)) (kernel_same va (ground arith))
          ∙ sym (user_to_kernel-translate a offset 3 va root vm)
          ∙ rw x refl
    ]

  data Cloned (root : ℕ) (vm : Vm) (n : ℕ) : Type 0 where
    took : (ns : List ℕ) → vm.pool ≡ n ∷ ns → Cloned root vm n

  clone_took :
      (root n : ℕ) (vm : Vm) → (clone_page_table a offset root vm).0 ≡ some n → Cloned root vm n
  clone_took root n vm e = go vm.pool refl
    where
      go : (ps : List ℕ) → vm.pool ≡ ps → Cloned root vm n
      go [] q = absurd (Option.none-ne-some _ (sym (clone-none root vm q) ∙ e))
      go (m ∷ ms) q =
          let w = ap (λ (r : Option ℕ × Vm). r.0) (clone-some root m ms vm q) in
          let mn : m ≡ n = Option.some-injective _ _ (sym w ∙ e) in
          took ms (q ∙ ap (λ x. x ∷ ms) mn)

  -- A `clone_page_table` that returns the table `n` makes it a tree beside the others, in which the
  -- addresses of the kernel's half are found where the kernel finds them and no other is found.
  pub clone_page_table-vm_user_to_kernel :
      (law : IsLawful a) (off : offset < 2 ^ 64) (own : Owner) (root n : ℕ) (vm : Vm)
      → IsTree a offset own vm
      → own root ≡ some (3, 0)
      → (clone_page_table a offset root vm).0 ≡ some n
      → IsTree a offset (with_table own n (3, 0)) (clone_page_table a offset root vm).1
        × ((va : ℕ)
            → vm_user_to_kernel a offset n va (clone_page_table a offset root vm).1
              ≡ (if ltb (pt_index va 3) 256 then none else vm_user_to_kernel a offset root va vm))
  clone_page_table-vm_user_to_kernel law off own root n vm tree top e =
      elim (clone_took root n vm e) [
        | took ns q ↦
            subst
              (λ v.
                IsTree a offset (with_table own n (3, 0)) v
                × ((va : ℕ)
                    → vm_user_to_kernel a offset n va v ≡ (
                        if ltb (pt_index va 3) 256
                        then none
                        else vm_user_to_kernel a offset root va vm)))
              (sym (ap (λ (r : Option ℕ × Vm). r.1) (clone-some root n ns vm q)))
              (
                clone-IsTree law off own root n ns vm tree top q,
                clone_result law off own root n ns vm tree top q,
              )
      ]
