-- ===== src/Vmm/Descent.antt =====
-- The walk down to the last table, which map_page_4k, protect_page_4k and unmap_page_4k make: every
-- translation stays, and the table that it arrives at serves the address.
use utopia.Base.{
  ℕ, zero, suc, ◌≤◌, ◌<◌, ◌≡◌, refl, sym, ap, ◌∙◌, inl, inr, Bool, true, false, Option, none, some,
  arith, Bool-cases, length,
}
use mathlib.Core.Option
use utopia.Paging.{Arch}
use utopia.Vmm.{Vm, Walk, arrived, missing, no_memory, pt_index, to_virt}
use utopia.Vmm.Trees.{
  translate, Owner, prefix, prefix-below, IsTree, Agrees, pt_index_bound, translate-table,
}
use utopia.Vmm.Linking.{Extends}

module _ (a : Arch) (offset : ℕ) where
  -- The last table on the way to the address, if there is one.
  unfoldable pub leaf_table : ℕ → ℕ → ℕ → Vm → Option ℕ
  leaf_table zero va t vm = some t
  leaf_table (suc l) va t vm =
      let entry = vm.tables t (pt_index va (suc l)) in
      elim (a.present entry) [
        | false ↦ none
        | true ↦ elim (a.is_leaf entry (suc l)) [
          | true ↦ none
          | false ↦ leaf_table l va (to_virt a offset (a.phys entry)) vm
        ]
      ]

  pub leaf_table-step :
      (va l t : ℕ) (vm : Vm)
      → a.present (vm.tables t (pt_index va (suc l))) ≡ true
      → a.is_leaf (vm.tables t (pt_index va (suc l))) (suc l) ≡ false
      → leaf_table (suc l) va t vm
        ≡ leaf_table l va (to_virt a offset (a.phys (vm.tables t (pt_index va (suc l))))) vm
  unfolding leaf_table
  leaf_table-step va l t vm e f = rw (e, leaf_table) (rw (f, leaf_table) refl)

  leaf_table-missing :
      (va l t : ℕ) (vm : Vm)
      → a.present (vm.tables t (pt_index va (suc l))) ≡ false
      → leaf_table (suc l) va t vm ≡ none
  unfolding leaf_table
  leaf_table-missing va l t vm e = rw (e, leaf_table) refl

  leaf_table-huge :
      (va l t : ℕ) (vm : Vm)
      → a.present (vm.tables t (pt_index va (suc l))) ≡ true
      → a.is_leaf (vm.tables t (pt_index va (suc l))) (suc l) ≡ true
      → leaf_table (suc l) va t vm ≡ none
  unfolding leaf_table
  leaf_table-huge va l t vm e f = rw (e, leaf_table) (rw (f, leaf_table) refl)

  -- A translation goes through that table.
  pub translate-leaf_table :
      (va l t t' : ℕ) (vm : Vm)
      → leaf_table l va t vm ≡ some t'
      → translate a offset l va t vm ≡ translate a offset 0 va t' vm
  unfolding leaf_table
  translate-leaf_table va zero t t' vm e =
      ap (λ u. translate a offset 0 va u vm) (Option.some-injective _ _ e)
  translate-leaf_table va (suc l) t t' vm e =
      elim (Bool-cases (a.present (vm.tables t (pt_index va (suc l))))) [
        | inr n ↦ absurd (Option.none-ne-some _ (sym (leaf_table-missing va l t vm n) ∙ e))
        | inl y ↦ elim (Bool-cases (a.is_leaf (vm.tables t (pt_index va (suc l))) (suc l))) [
          | inl k ↦ absurd (Option.none-ne-some _ (sym (leaf_table-huge va l t vm y k) ∙ e))
          | inr k ↦
              translate-table a offset va l t vm y k
              ∙ translate-leaf_table va l
                  (to_virt a offset (a.phys (vm.tables t (pt_index va (suc l))))) t' vm
                  (sym (leaf_table-step va l t vm y k) ∙ e)
        ]
      ]

  -- A change in the last tables alone keeps the way to the address, and so does another
  -- address with the same indices.
  pub leaf_table-same :
      (own : Owner) (vm vm' : Vm)
      → IsTree a offset own vm
      → ((u k p j : ℕ) → own u ≡ some (suc k, p) → vm'.tables u j ≡ vm.tables u j)
      → (va va' : ℕ) → ((m : ℕ) → m ≤ 3 → pt_index va' m ≡ pt_index va m)
      → (l t t' : ℕ) → l ≤ 3
      → own t ≡ some (l, prefix va l)
      → leaf_table l va t vm ≡ some t'
      → leaf_table l va' t vm' ≡ some t'
  unfolding leaf_table
  leaf_table-same own vm vm' tree same va va' idx zero t t' b m e = e
  leaf_table-same own vm vm' tree same va va' idx (suc l) t t' b m e =
      let s : vm'.tables t (pt_index va' (suc l)) ≡ vm.tables t (pt_index va (suc l)) =
        ap (vm'.tables t) (idx (suc l) b) ∙ same t l (prefix va (suc l)) (pt_index va (suc l)) m in
      elim (Bool-cases (a.present (vm.tables t (pt_index va (suc l))))) [
        | inr n ↦ absurd (Option.none-ne-some _ (sym (leaf_table-missing va l t vm n) ∙ e))
        | inl y ↦ elim (Bool-cases (a.is_leaf (vm.tables t (pt_index va (suc l))) (suc l))) [
          | inl k ↦ absurd (Option.none-ne-some _ (sym (leaf_table-huge va l t vm y k) ∙ e))
          | inr k ↦
              leaf_table-step va' l t vm' (ap a.present s ∙ y) (ap (λ x. a.is_leaf x (suc l)) s ∙ k)
              ∙ ap (λ x. leaf_table l va' (to_virt a offset (a.phys x)) vm') s
              ∙ leaf_table-same own vm vm' tree same va va' idx l
                  (to_virt a offset (a.phys (vm.tables t (pt_index va (suc l))))) t' (omega arith)
                  (tree.child t l (prefix va (suc l)) (pt_index va (suc l)) m
                      (pt_index_bound va (suc l)) y k
                    ∙ ap (λ q. some (l, q)) (prefix-below va l (omega arith)))
                  (sym (leaf_table-step va l t vm y k) ∙ e)
        ]
      ]

  -- What a walk from `t` at the level `l` does, where it stops, and when it lacks memory.
  pub record Descends (own : Owner) (grow : Bool) (l va t : ℕ) (vm : Vm) (r : Walk × Vm)
      : Type 0 where
    pub own' : Owner
    pub extends : Extends own own'
    pub tree : IsTree a offset own' r.1
    pub agrees : Agrees a offset own vm r.1
    pub upper : (u k p j : ℕ) → own u ≡ some (k, p) → l < k → r.1.tables u j ≡ vm.tables u j
    pub at_arrived :
        (t' : ℕ)
        → r.0 ≡ arrived t'
        → (own' t' ≡ some (0, prefix va 0)) × (leaf_table l va t r.1 ≡ some t')
    pub at_missing : r.0 ≡ missing → (grow ≡ false) × (translate a offset l va t vm ≡ none)
    pub at_no_memory : r.0 ≡ no_memory → length vm.pool < l
