-- ===== src/Vmm/Taking.antt =====
-- pt_pool_alloc of src/mm/vmm.c for a page that holds no table: the tables that there are stay as they
-- are.
use utopia.Base.{
  ℕ, suc, ◌+◌, ◌%◌, ◌^◌, ◌≤◌, ◌<◌, ◌≡◌, refl, sym, ap, ◌∙◌, subst, ◌≢◌, none, some, List, [], ◌∷◌,
  arith,
}
use mathlib.Core.Option
use utopia.Paging.{Arch, Frame}
use utopia.Vmm.{Vm, span, fill, pt_pool_alloc, to_virt, to_phys, vm_user_to_kernel}
use utopia.Vmm.Trees.{Avoids, Owner, Pages, IsTree, prefix-top, change-translate, pt_index_bound}
use utopia.Vmm.Linking.{owned_differs}
use utopia.Vmm.Mapping.{user_to_kernel-translate}

-- The state without the page `n`, whose words are cleared.
abbrev pub without : ℕ → List ℕ → Vm → Vm
without n ns vm = fill n (λ j. 0) (record vm { pool = ns })

pub pool-some :
    (n : ℕ) (ns : List ℕ) (vm : Vm)
    → vm.pool ≡ n ∷ ns
    → pt_pool_alloc vm ≡ some (n, without n ns vm)
unfolding pt_pool_alloc
pool-some n ns vm e = rw (e, pt_pool_alloc) refl

pub pool-none : (vm : Vm) → vm.pool ≡ [] → pt_pool_alloc vm ≡ none
unfolding pt_pool_alloc
pool-none vm e = rw (e, pt_pool_alloc) refl

module _ (a : Arch) (offset : ℕ) (own : Owner) (n : ℕ) (ns : List ℕ) (vm : Vm)
    (tree : IsTree a offset own vm) (taken : vm.pool ≡ n ∷ ns) where
  fresh : Pages a offset own (n ∷ ns)
  fresh = subst (Pages a offset own) taken tree.pages

  at_null : (n ≢ 0) × Avoids 0 ns
  unfolding Avoids
  at_null = subst (Avoids 0) taken tree.nonnull

  unowned : own n ≡ none
  unfolding Pages
  unowned = fresh.0

  pub taken_frame : (n < 2 ^ 64) × Frame (to_phys a offset n)
  unfolding Pages
  taken_frame = (fresh.1, fresh.2)

  row_old : (u j : ℕ) → u ≢ n → (without n ns vm).tables u j ≡ vm.tables u j
  unfolding fill
  row_old u j h = ground arith

  row_owned : (u j : ℕ) (q : ℕ × ℕ) → own u ≡ some q → (without n ns vm).tables u j ≡ vm.tables u j
  row_owned u j q o =
      row_old u j (owned_differs own n u unowned (λ z. Option.some-ne-none _ (sym o ∙ z)))

  -- The tables are still trees.
  pub without-IsTree : IsTree a offset own (without n ns vm)
  unfolding fill Pages
  without-IsTree = record {
    child = λ u l p i o b y f.
        ap (λ x. own (to_virt a offset (a.phys x))) (row_owned u i _ o)
        ∙ tree.child u l p i o b (ap a.present (sym (row_owned u i _ o)) ∙ y)
            (ap (λ x. a.is_leaf x (suc l)) (sym (row_owned u i _ o)) ∙ f);
    huge = λ u l p i o b y f.
        subst (λ x. (a.phys x % span (suc l) ≡ 0) × (a.phys x + span (suc l) ≤ 2 ^ 52))
          (sym (row_owned u i _ o))
          (tree.huge u l p i o b (ap a.present (sym (row_owned u i _ o)) ∙ y)
            (ap (λ x. a.is_leaf x (suc l)) (sym (row_owned u i _ o)) ∙ f));
    pages = fresh.4;
    no_null = tree.no_null;
    nonnull = at_null.1;
  }

  -- Every address is found where it was.
  pub without_same :
      (root va : ℕ)
      → own root ≡ some (3, 0)
      → vm_user_to_kernel a offset root va (without n ns vm) ≡ vm_user_to_kernel a offset root va vm
  unfolding vm_user_to_kernel
  without_same root va top =
      user_to_kernel-translate a offset 3 va root (without n ns vm)
      ∙ ap (Option.map (to_virt a offset)) (
          change-translate a offset own vm (without n ns vm) tree root 512 3 0 top
            (λ v j h k. row_old v j (owned_differs own n v unowned h)) va
            (λ c p i. absurd (omega (arith, pt_index_bound va 3))) 3 root (omega arith)
            (top ∙ ap (λ x. some (3, x)) (sym (prefix-top va))))
      ∙ sym (user_to_kernel-translate a offset 3 va root vm)
