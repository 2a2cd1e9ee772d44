-- ===== src/Vmm/Steps.antt =====
-- The two changes that a walk down makes, add_table and split_leaf: each links a new table and keeps
-- every translation.
use utopia.Base.{
  ℕ, zero, suc, ◌+◌, ◌*◌, ◌%◌, ◌^◌, ◌≤◌, ◌<◌, ◌≡◌, refl, sym, ap, ◌∙◌, subst, ◌≢◌, true, false,
  none, some, List, [], ◌∷◌, arith,
}
use utopia.Paging.{Arch, Frame, IsLawful}
use utopia.Vmm.{Vm, span, pt_index, to_phys, fill, set_entry, pt_pool_alloc, add_table, split_leaf}
use utopia.Vmm.Trees.{
  translate, Owner, IsTree, Agrees, pt_index_bound, translate-missing, translate-page,
  translate-huge,
}
use utopia.Vmm.Linking.{Links, links-Agrees, links-IsTree, Huge, own1}

module _ (a : Arch) (offset : ℕ) where
  -- The states that the two leave when the pool is `n ∷ ns`.
  abbrev pub added : ℕ → ℕ → ℕ → List ℕ → Vm → Vm
  added t i n ns vm =
      set_entry t i (a.table (to_phys a offset n)) (fill n (λ j. 0) (record vm { pool = ns }))

  pub add_table-some :
      (t i n : ℕ) (ns : List ℕ) (vm : Vm)
      → vm.pool ≡ n ∷ ns
      → add_table a offset t i vm ≡ some (n, added t i n ns vm)
  unfolding add_table pt_pool_alloc
  add_table-some t i n ns vm e = rw (e, add_table) refl

  pub add_table-none : (t i : ℕ) (vm : Vm) → vm.pool ≡ [] → add_table a offset t i vm ≡ none
  unfolding add_table pt_pool_alloc
  add_table-none t i vm e = rw (e, add_table) refl

  abbrev pub pieces : ℕ → ℕ → ℕ → Vm → ℕ → ℕ
  pieces l t i vm j = a.child_leaf (vm.tables t i) (a.phys (vm.tables t i) + j * span l) l

  abbrev pub split : ℕ → ℕ → ℕ → ℕ → List ℕ → Vm → Vm
  split l t i n ns vm =
      set_entry t i (a.table (to_phys a offset n))
        (fill n (pieces l t i vm) (fill n (λ j. 0) (record vm { pool = ns })))

  pub split_leaf-some :
      (l t i n : ℕ) (ns : List ℕ) (vm : Vm)
      → vm.pool ≡ n ∷ ns
      → split_leaf a offset l t i vm ≡ some (split l t i n ns vm)
  unfolding split_leaf pt_pool_alloc
  split_leaf-some l t i n ns vm e = rw (e, split_leaf) refl

  pub split_leaf-none : (l t i : ℕ) (vm : Vm) → vm.pool ≡ [] → split_leaf a offset l t i vm ≡ none
  unfolding split_leaf pt_pool_alloc
  split_leaf-none l t i vm e = rw (e, split_leaf) refl

  module _ (law : IsLawful a) (off : offset < 2 ^ 64) where
    pub added-Links :
        (t i n : ℕ) (ns : List ℕ) (vm : Vm)
        → vm.pool ≡ n ∷ ns
        → t ≢ n
        → Links a offset law off vm (added t i n ns vm) t i n (λ j. 0)
    unfolding set_entry fill
    added-Links t i n ns vm e d = record {
      row = λ j. ground arith;
      entry = ground arith;
      rest = λ u j un k. ground arith;
      taken = e;
    }

    pub split-Links :
        (l t i n : ℕ) (ns : List ℕ) (vm : Vm)
        → vm.pool ≡ n ∷ ns
        → t ≢ n
        → Links a offset law off vm (split l t i n ns vm) t i n (pieces l t i vm)
    unfolding set_entry fill
    split-Links l t i n ns vm e d = record {
      row = λ j. ground arith;
      entry = ground arith;
      rest = λ u j un k. ground arith;
      taken = e;
    }

    module _ (own : Owner) (vm vm' : Vm) (t i n l p : ℕ) (tree : IsTree a offset own vm)
        (mine : own t ≡ some (suc l, p)) (small : i < 512) where
      -- An empty table in the place of a missing entry.
      pub added-IsTree :
          (links : Links a offset law off vm vm' t i n (λ j. 0))
          → IsTree a offset
              (own1 a offset law off own vm vm' t i n l p (λ j. 0) tree links mine small)
              vm'
      added-IsTree links =
          links-IsTree a offset law off own vm vm' t i n l p (λ j. 0) tree links mine small
            λ k j e b y. let x : false ≡ true = sym law.present_zero ∙ y in cc

      pub added-Agrees :
          (links : Links a offset law off vm vm' t i n (λ j. 0))
          → a.present (vm.tables t i) ≡ false
          → Agrees a offset own vm vm'
      added-Agrees links y =
          links-Agrees a offset law off own vm vm' t i n l p (λ j. 0) tree links mine small
            λ va b pp ii.
              translate-missing a offset va l n vm'
                (ap a.present (links.row (pt_index va l)) ∙ law.present_zero)
              ∙ sym (
                  translate-missing a offset va (suc l) t vm
                    (ap (λ j. a.present (vm.tables t j)) ii ∙ y))

      -- The pieces of a huge page.
      module _ (b : l ≤ 2) (y : a.present (vm.tables t i) ≡ true)
          (f : a.is_leaf (vm.tables t i) (suc l) ≡ true) where
        base : ℕ
        base = a.phys (vm.tables t i)

        huge : (base % span (suc l) ≡ 0) × (base + span (suc l) ≤ 2 ^ 52)
        unfolding base
        huge = tree.huge t l p i mine small y f

        piece_frame :
            (j : ℕ)
            → j < 512
            → Frame (base + j * span l)
              × ((base + j * span l) % span l ≡ 0)
              × (base + j * span l + span l ≤ 2 ^ 52)
        piece_frame j h = elim_level l b huge.0 huge.1
          where
            elim_level :
                (m : ℕ)
                → m ≤ 2
                → base % span (suc m) ≡ 0
                → base + span (suc m) ≤ 2 ^ 52
                → Frame (base + j * span m)
                  × ((base + j * span m) % span m ≡ 0)
                  × (base + j * span m + span m ≤ 2 ^ 52)
            elim_level zero c r s = omega arith
            elim_level (suc zero) c r s = omega arith
            elim_level (suc (suc zero)) c r s = omega arith
            elim_level (suc (suc (suc m))) c r s = absurd (omega arith)

        -- The piece for an address and what the huge page gives there.
        piece_address :
            (m va : ℕ) → m ≤ 2 → pt_index va m * span m + va % span m ≡ va % span (suc m)
        unfolding pt_index
        piece_address zero va c = omega arith
        piece_address (suc zero) va c = omega arith
        piece_address (suc (suc zero)) va c = omega arith
        piece_address (suc (suc (suc m))) va c = absurd (omega arith)

        translate_piece :
            (m va : ℕ)
            → a.is_leaf (vm.tables t i) (suc m) ≡ true
            → Frame (base + pt_index va m * span m)
            → vm'.tables n (pt_index va m) ≡ pieces m t i vm (pt_index va m)
            → translate a offset m va n vm' ≡ some (base + pt_index va m * span m + va % span m)
        unfolding base
        translate_piece zero va g fr row =
            translate-page a offset va n vm' (ap a.present row ∙ law.child_present _ _ _ fr y)
            ∙ ap (λ e. some (e + va % span 0)) (ap a.phys row ∙ law.child_phys _ _ 0 fr)
        translate_piece (suc m) va g fr row =
            translate-huge a offset va m n vm' (ap a.present row ∙ law.child_present _ _ _ fr y)
              (ap (λ e. a.is_leaf e (suc m)) row ∙ law.child_is_leaf _ _ m fr g)
            ∙ ap (λ e. some (e + va % span (suc m))) (ap a.phys row ∙ law.child_phys _ _ (suc m) fr)

        module _ (links : Links a offset law off vm vm' t i n (pieces l t i vm)) where
          pieces_huge :
              Huge a offset law off own vm vm' t i n l p (pieces l t i vm) tree links mine small
          unfolding base
          pieces_huge k j e h z =
              let (fr, al, bo) = piece_frame j h in
              let same : a.phys (pieces l t i vm j) ≡ base + j * span l = law.child_phys _ _ l fr in
              (
                ap (λ m. a.is_leaf (a.child_leaf (vm.tables t i) (base + j * span l) m) (suc k)) e
                    ∙ law.child_is_leaf _ _ k fr
                        (ap (λ m. a.is_leaf (vm.tables t i) (suc m)) (sym e) ∙ f),
                ap (λ x. x % span (suc k)) same
                    ∙ ap (λ m. (base + j * span l) % span m) (sym e)
                    ∙ al,
                subst (λ x. x + span (suc k) ≤ 2 ^ 52) (sym same)
                    (subst (λ m. base + j * span l + span m ≤ 2 ^ 52) e bo),
              )

          -- Equal pages in the place of a huge page.
          pub split-IsTree :
              IsTree a offset
                (own1 a offset law off own vm vm' t i n l p (pieces l t i vm) tree links mine small)
                vm'
          split-IsTree =
              links-IsTree a offset law off own vm vm' t i n l p (pieces l t i vm) tree links mine
                small pieces_huge

          pub split-Agrees : Agrees a offset own vm vm'
          unfolding base
          split-Agrees =
              links-Agrees a offset law off own vm vm' t i n l p (pieces l t i vm) tree links mine
                small
                λ va c pp ii.
                  translate_piece l va f (piece_frame (pt_index va l) (pt_index_bound va l)).0
                    (links.row (pt_index va l))
                  ∙ ap some (omega (arith, piece_address l va b))
                  ∙ sym (
                      translate-huge a offset va l t vm (ap (λ j. a.present (vm.tables t j)) ii ∙ y)
                        (ap (λ j. a.is_leaf (vm.tables t j) (suc l)) ii ∙ f)
                      ∙ ap (λ j. some (a.phys (vm.tables t j) + va % span (suc l))) ii)
