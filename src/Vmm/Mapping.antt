-- ===== src/Vmm/Mapping.antt =====
-- What map_page_4k, protect_page_4k and unmap_page_4k do to what vm_user_to_kernel finds.
use utopia.Base.{
  true, ℕ, zero, suc, ◌+◌, ◌/◌, ◌%◌, ◌^◌, ◌≤◌, ◌<◌, ◌*◌, ◌⊎◌, ◌≡◌, refl, sym, ap, ◌∙◌, subst, ◌≢◌,
  inl, inr, Option, none, some, arith, if◌then◌else◌, Bool-cases, add64,
}
use mathlib.Core.Option
use utopia.Addresses.{phys_to_virt}
use utopia.Paging.{Arch}
use utopia.Vmm.{Vm, span, pt_index, to_virt, set_entry, user_to_kernel}
use utopia.Vmm.Trees.{
  translate-huge, translate-table, prefix-top, Owner, translate, prefix, IsTree, change-translate,
  translate-missing, translate-page,
}
use utopia.Vmm.Descent.{leaf_table, leaf_table-same, translate-leaf_table}

-- Two addresses that the tables do not tell apart above the offset in a page.
abbrev pub SamePage : ℕ → ℕ → Type 0
SamePage va va' = va % 2 ^ 48 / 4096 ≡ va' % 2 ^ 48 / 4096

pub SamePage-index :
    (va va' : ℕ) → SamePage va va' → (prefix va 0 ≡ prefix va' 0) × (pt_index va 0 ≡ pt_index va' 0)
unfolding pt_index
SamePage-index va va' h = omega arith

index-SamePage :
    (va va' : ℕ) → prefix va 0 ≡ prefix va' 0 → pt_index va 0 ≡ pt_index va' 0 → SamePage va va'
unfolding pt_index
index-SamePage va va' h k = omega arith

pub SamePage-above : (va va' l : ℕ) → l ≤ 3 → SamePage va va' → pt_index va l ≡ pt_index va' l
unfolding pt_index
SamePage-above va va' zero b h = omega arith
SamePage-above va va' (suc zero) b h = omega arith
SamePage-above va va' (suc (suc zero)) b h = omega arith
SamePage-above va va' (suc (suc (suc zero))) b h = omega arith
SamePage-above va va' (suc (suc (suc (suc l)))) b h = absurd (omega arith)

-- An address outside of a range of pages, seen from the first of them and from the rest.
pub apart :
    (n va x : ℕ)
    → (x < va) ⊎ (va + suc n * 4096 ≤ x)
    → (x < va + 0x1000) ⊎ (va + 0x1000 + n * 4096 ≤ x)
apart n va x d = ground arith

pub other_page :
    (n va x : ℕ)
    → va % 4096 ≡ 0
    → va + suc n * 4096 ≤ 2 ^ 48
    → x < 2 ^ 48
    → (x < va) ⊎ (va + suc n * 4096 ≤ x)
    → ¬ SamePage x va
other_page n va x al b s d q = ground arith

module _ (a : Arch) (offset : ℕ) where
  -- The kernel's address is that of the physical address in the direct map.
  kernel_address :
      (x y : ℕ) → add64 (phys_to_virt (some offset) x) y ≡ phys_to_virt (some offset) (x + y)
  unfolding phys_to_virt
  kernel_address x y = omega arith

  pub user_to_kernel-translate :
      (l va t : ℕ) (vm : Vm)
      → user_to_kernel a offset l va t vm
        ≡ Option.map (to_virt a offset) (translate a offset l va t vm)
  unfolding user_to_kernel translate
  user_to_kernel-translate zero va t vm =
      elim (Bool-cases (a.present (vm.tables t (pt_index va 0)))) [
        | inr n ↦ rw (n, user_to_kernel, translate) refl
        | inl y ↦ rw (y, user_to_kernel, translate) (ap some (kernel_address _ _))
      ]
  user_to_kernel-translate (suc l) va t vm =
      elim (Bool-cases (a.present (vm.tables t (pt_index va (suc l))))) [
        | inr n ↦ rw (n, user_to_kernel, translate) refl
        | inl y ↦
            rw (y, user_to_kernel, translate)
              (elim (Bool-cases (a.is_leaf (vm.tables t (pt_index va (suc l))) (suc l))) [
                | inl k ↦ rw (k, user_to_kernel, translate) (ap some (kernel_address _ _))
                | inr k ↦ rw (k, user_to_kernel, translate) (user_to_kernel-translate l va _ vm)
              ])
      ]

  -- No page at one address, none at another with the same indices.
  pub translate-none :
      (va va' : ℕ) (vm : Vm)
      → ((m : ℕ) → m ≤ 3 → pt_index va' m ≡ pt_index va m)
      → (l t : ℕ) → l ≤ 3
      → translate a offset l va t vm ≡ none
      → translate a offset l va' t vm ≡ none
  translate-none va va' vm idx zero t b e =
      elim (Bool-cases (a.present (vm.tables t (pt_index va 0)))) [
        | inr n ↦
            translate-missing a offset va' 0 t vm
              (ap (λ i. a.present (vm.tables t i)) (idx 0 b) ∙ n)
        | inl y ↦ absurd (Option.some-ne-none _ (sym (translate-page a offset va t vm y) ∙ e))
      ]
  translate-none va va' vm idx (suc l) t b e =
      let same = ap (vm.tables t) (idx (suc l) b) in
      elim (Bool-cases (a.present (vm.tables t (pt_index va (suc l))))) [
        | inr n ↦ translate-missing a offset va' (suc l) t vm (ap a.present same ∙ n)
        | inl y ↦ elim (Bool-cases (a.is_leaf (vm.tables t (pt_index va (suc l))) (suc l))) [
          | inl k ↦ absurd (Option.some-ne-none _ (sym (translate-huge a offset va l t vm y k) ∙ e))
          | inr k ↦
              translate-table a offset va' l t vm (ap a.present same ∙ y)
                (ap (λ x. a.is_leaf x (suc l)) same ∙ k)
              ∙ ap (λ x. translate a offset l va' (to_virt a offset (a.phys x)) vm) same
              ∙ translate-none va va' vm idx l _ (omega arith)
                  (sym (translate-table a offset va l t vm y k) ∙ e)
        ]
      ]

  -- A new entry in the last table `t` on the way to `va`.
  module _ (own : Owner) (vm : Vm) (tree : IsTree a offset own vm) (root t va entry : ℕ)
      (top : own root ≡ some (3, 0)) (mine : own t ≡ some (0, prefix va 0))
      (way : leaf_table a offset 3 va root vm ≡ some t) where
    abbrev pub written : Vm
    written = set_entry t (pt_index va 0) entry vm

    upper_same : (u k p j : ℕ) → own u ≡ some (suc k, p) → written.tables u j ≡ vm.tables u j
    unfolding set_entry
    upper_same u k p j o =
        let d : u ≢ t = λ z. level_differs (sym o ∙ ap own z ∙ mine) in ground arith
      where
        level_differs : {k p q : ℕ} → ◌≢◌ {A = Option (ℕ × ℕ)} (some (suc k, p)) (some (0, q))
        level_differs e = omega (arith, ap (λ (x : ℕ × ℕ). x.0) (Option.some-injective _ _ e))

    pub written-IsTree : IsTree a offset own written
    unfolding set_entry
    written-IsTree = record {
      child = λ u l p i o b y f.
          let s = upper_same u l p i o in
          ap (λ x. own (to_virt a offset (a.phys x))) s
          ∙ tree.child u l p i o b (ap a.present (sym s) ∙ y)
              (ap (λ x. a.is_leaf x (suc l)) (sym s) ∙ f);
      huge = λ u l p i o b y f.
          let s = upper_same u l p i o in
          subst (λ x. (a.phys x % span (suc l) ≡ 0) × (a.phys x + span (suc l) ≤ 2 ^ 52)) (sym s)
            (tree.huge u l p i o b (ap a.present (sym s) ∙ y)
              (ap (λ x. a.is_leaf x (suc l)) (sym s) ∙ f));
      pages = tree.pages;
      no_null = tree.no_null;
      nonnull = tree.nonnull;
    }

    -- Other pages are as before, from every table.
    pub written_other :
        (va' l u : ℕ)
        → ¬ SamePage va' va
        → l ≤ 3
        → own u ≡ some (l, prefix va' l)
        → translate a offset l va' u written ≡ translate a offset l va' u vm
    unfolding set_entry
    written_other va' l u d b o =
        change-translate a offset own vm written tree t (pt_index va 0) 0 (prefix va 0) mine
          (λ v j h k. ground arith) va' (λ c p i. absurd (d (index-SamePage va' va p i))) l u b o

    entry_lem : (i : ℕ) → i ≡ pt_index va 0 → written.tables t i ≡ entry
    unfolding set_entry
    entry_lem i e = ground arith

    -- All pages are as before if the entry leads to the same page.
    pub written_keeps :
        a.present (vm.tables t (pt_index va 0)) ≡ true
        → a.present entry ≡ true
        → a.phys entry ≡ a.phys (vm.tables t (pt_index va 0))
        → (va' l u : ℕ) → l ≤ 3
        → own u ≡ some (l, prefix va' l)
        → translate a offset l va' u written ≡ translate a offset l va' u vm
    unfolding set_entry
    written_keeps y z e va' =
        change-translate a offset own vm written tree t (pt_index va 0) 0 (prefix va 0) mine
          (λ v j h k. ground arith) va'
          λ c p i.
            let w = entry_lem (pt_index va' 0) i in
            translate-page a offset va' t written (ap a.present w ∙ z)
            ∙ ap (λ x. some (x + va' % span 0)) (ap a.phys w ∙ e)
            ∙ ap (λ j. some (a.phys (vm.tables t j) + va' % span 0)) (sym i)
            ∙ sym (translate-page a offset va' t vm (ap (λ j. a.present (vm.tables t j)) i ∙ y))

    -- The page is the entry's.
    pub written_here :
        (va' : ℕ)
        → SamePage va' va
        → translate a offset 3 va' root written
          ≡ (if a.present entry then some (a.phys entry + va' % 4096) else none)
    written_here va' h =
        translate-leaf_table a offset va' 3 root t written (
          leaf_table-same a offset own vm written tree upper_same va va'
            (λ m b. SamePage-above va' va m b h) 3 root t (omega arith) (top' va) way)
        ∙ last (entry_now (SamePage-index va' va h).1)
      where
        top' : (v : ℕ) → own root ≡ some (3, prefix v 3)
        top' v = top ∙ ap (λ x. some (3, x)) (sym (prefix-top v))

        entry_now : pt_index va' 0 ≡ pt_index va 0 → written.tables t (pt_index va' 0) ≡ entry
        entry_now e = entry_lem (pt_index va' 0) e

        last :
            written.tables t (pt_index va' 0) ≡ entry
            → translate a offset 0 va' t written
              ≡ (if a.present entry then some (a.phys entry + va' % 4096) else none)
        last e = elim (Bool-cases (a.present entry)) [
          | inl y ↦
              translate-page a offset va' t written (ap a.present e ∙ y)
              ∙ ap (λ x. some (a.phys x + va' % 4096)) e
              ∙ rw y refl
          | inr n ↦ translate-missing a offset va' 0 t written (ap a.present e ∙ n) ∙ rw n refl
        ]
