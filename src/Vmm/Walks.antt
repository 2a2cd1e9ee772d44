-- ===== src/Vmm/Walks.antt =====
-- The walk of src/mm/vmm.c does what Descends says.
use utopia.Base.{
  ℕ, zero, suc, ◌+◌, ◌*◌, ◌^◌, ◌≤◌, ◌<◌, ◌≡◌, refl, sym, ap, ◌∙◌, subst, ◌≢◌, inl, inr, Bool, true,
  false, none, some, List, [], ◌∷◌, arith, Bool-cases, length, ext,
}
use mathlib.Core.Option
use utopia.Paging.{Arch, IsLawful}
use utopia.Vmm.{
  Vm, Walk, arrived, missing, no_memory, pt_index, to_virt, add_table, split_leaf, descend,
}
use utopia.Vmm.Trees.{
  translate, Owner, Pages, prefix, prefix-below, IsTree, Agrees, pt_index_bound, translate-missing,
  translate-table,
}
use utopia.Vmm.Linking.{
  Links, Extends, own1, linked_present, linked_inner, linked_child, extends, with_table_new,
  unowned, owned_differs,
}
use utopia.Vmm.Steps.{
  added, split, pieces, add_table-some, add_table-none, split_leaf-some, split_leaf-none,
  added-Links, split-Links, added-IsTree, added-Agrees, split-IsTree, split-Agrees,
}
use utopia.Vmm.Descent.{Descends, leaf_table, leaf_table-step}

module _ (a : Arch) (offset : ℕ) where
  -- A walk goes on below an entry that leads to the table `c`, after a change that kept every
  -- translation and took at most one page.
  below :
      (own owner : Owner) (grow : Bool) (l va t c : ℕ) (vm vm1 : Vm) (r : Walk × Vm)
      → l ≤ 2
      → own t ≡ some (suc l, prefix va (suc l))
      → Extends own owner
      → Agrees a offset own vm vm1
      → ((u k p j : ℕ) → own u ≡ some (k, p) → suc l < k → vm1.tables u j ≡ vm.tables u j)
      → a.present (vm1.tables t (pt_index va (suc l))) ≡ true
      → a.is_leaf (vm1.tables t (pt_index va (suc l))) (suc l) ≡ false
      → to_virt a offset (a.phys (vm1.tables t (pt_index va (suc l)))) ≡ c
      → length vm.pool ≤ suc (length vm1.pool)
      → Descends a offset owner grow l va c vm1 r
      → Descends a offset own grow (suc l) va t vm r
  unfolding Agrees
  below own owner grow l va t c vm vm1 r b mine ext agr up y f ch len d = record {
    own' = d.own';
    extends = λ u q o. d.extends u q (ext u q o);
    tree = d.tree;
    agrees = λ x m u h o. d.agrees x m u h (ext u _ o) ∙ agr x m u h o;
    upper = λ u k p j o h. d.upper u k p j (ext u _ o) (omega arith) ∙ up u k p j o h;
    at_arrived = λ t' e. ((d.at_arrived t' e).0, way t' e);
    at_missing = λ e. ((d.at_missing e).0, gone e);
    at_no_memory = λ e. omega (arith, d.at_no_memory e, len);
  }
    where
      kept : r.1.tables t (pt_index va (suc l)) ≡ vm1.tables t (pt_index va (suc l))
      kept = d.upper t (suc l) _ (pt_index va (suc l)) (ext t _ mine) (omega arith)

      way : (t' : ℕ) → r.0 ≡ arrived t' → leaf_table a offset (suc l) va t r.1 ≡ some t'
      way t' e =
          leaf_table-step a offset va l t r.1 (ap a.present kept ∙ y)
            (ap (λ x. a.is_leaf x (suc l)) kept ∙ f)
          ∙ ap (λ x. leaf_table a offset l va x r.1)
              (ap (λ x. to_virt a offset (a.phys x)) kept ∙ ch)
          ∙ (d.at_arrived t' e).1

      gone : r.0 ≡ missing → translate a offset (suc l) va t vm ≡ none
      gone e =
          sym (agr va (suc l) t (omega arith) mine)
          ∙ translate-table a offset va l t vm1 y f
          ∙ ap (λ x. translate a offset l va x vm1) ch
          ∙ (d.at_missing e).1

  -- A walk that stops at once.
  stays :
      (own : Owner) (grow : Bool) (l va t : ℕ) (vm : Vm) (w : Walk)
      → IsTree a offset own vm
      → ((t' : ℕ)
          → w ≡ arrived t'
          → (own t' ≡ some (0, prefix va 0)) × (leaf_table a offset l va t vm ≡ some t'))
      → (w ≡ missing → (grow ≡ false) × (translate a offset l va t vm ≡ none))
      → (w ≡ no_memory → length vm.pool < l)
      → Descends a offset own grow l va t vm (w, vm)
  unfolding Agrees
  stays own grow l va t vm w tree x y z = record {
    own' = own;
    extends = λ u q o. o;
    tree = tree;
    agrees = λ v m u h o. refl;
    upper = λ u k p j o h. refl;
    at_arrived = x;
    at_missing = y;
    at_no_memory = z;
  }

  no_pages : (vm : Vm) → vm.pool ≡ [] → length vm.pool ≡ 0
  no_pages vm e = ap length e

  abbrev entry_at : ℕ → ℕ → ℕ → Vm → ℕ
  entry_at va l t vm = vm.tables t (pt_index va (suc l))

  -- The cases of a step.
  module _ (l va t : ℕ) (vm : Vm) where
    descend-missing :
        a.present (entry_at va l t vm) ≡ false
        → descend a offset false (suc l) va t vm ≡ (missing, vm)
    unfolding descend
    descend-missing e = rw (e, descend) refl

    descend-added :
        (n : ℕ) (vm1 : Vm)
        → a.present (entry_at va l t vm) ≡ false
        → add_table a offset t (pt_index va (suc l)) vm ≡ some (n, vm1)
        → descend a offset true (suc l) va t vm ≡ descend a offset true l va n vm1
    unfolding descend
    descend-added n vm1 e f = rw (e, descend) (rw (f, descend) refl)

    descend-not_added :
        a.present (entry_at va l t vm) ≡ false
        → add_table a offset t (pt_index va (suc l)) vm ≡ none
        → descend a offset true (suc l) va t vm ≡ (no_memory, vm)
    unfolding descend
    descend-not_added e f = rw (e, descend) (rw (f, descend) refl)

    descend-inner :
        (grow : Bool)
        → a.present (entry_at va l t vm) ≡ true
        → a.is_leaf (entry_at va l t vm) (suc l) ≡ false
        → descend a offset grow (suc l) va t vm
          ≡ descend a offset grow l va (to_virt a offset (a.phys (entry_at va l t vm))) vm
    unfolding descend
    descend-inner grow e f = rw (e, descend) (rw (f, descend) refl)

    descend-split :
        (grow : Bool) (vm1 : Vm)
        → a.present (entry_at va l t vm) ≡ true
        → a.is_leaf (entry_at va l t vm) (suc l) ≡ true
        → split_leaf a offset l t (pt_index va (suc l)) vm ≡ some vm1
        → descend a offset grow (suc l) va t vm
          ≡ descend a offset grow l va (to_virt a offset (a.phys (entry_at va l t vm1))) vm1
    unfolding descend
    descend-split grow vm1 e f g = rw (e, descend) (rw (f, descend) (rw (g, descend) refl))

    descend-not_split :
        (grow : Bool)
        → a.present (entry_at va l t vm) ≡ true
        → a.is_leaf (entry_at va l t vm) (suc l) ≡ true
        → split_leaf a offset l t (pt_index va (suc l)) vm ≡ none
        → descend a offset grow (suc l) va t vm ≡ (no_memory, vm)
    unfolding descend
    descend-not_split grow e f g = rw (e, descend) (rw (f, descend) (rw (g, descend) refl))

  data Pool (vm : Vm) : Type 0 where
    empty : vm.pool ≡ [] → Pool vm
    holds : (n : ℕ) (ns : List ℕ) → vm.pool ≡ n ∷ ns → Pool vm

  Pool-cases : (vm : Vm) → Pool vm
  Pool-cases vm = go vm.pool refl
    where
      go : (ns : List ℕ) → vm.pool ≡ ns → Pool vm
      go [] e = empty e
      go (n ∷ ns) e = holds n ns e

  -- No page for a new table.
  fails :
      (own : Owner) (grow : Bool) (l va t : ℕ) (vm : Vm)
      → IsTree a offset own vm
      → vm.pool ≡ []
      → Descends a offset own grow (suc l) va t vm (no_memory, vm)
  fails own grow l va t vm tree e =
      stays own grow (suc l) va t vm no_memory tree (λ t' q. absurd (cc)) (λ q. absurd (cc))
        λ q. omega (arith, ap length e)

  pool_unowned :
      (own : Owner) (vm : Vm) (n : ℕ) (ns : List ℕ)
      → IsTree a offset own vm
      → vm.pool ≡ n ∷ ns
      → own n ≡ none
  unfolding Pages
  pool_unowned own vm n ns tree e = (subst (Pages a offset own) e tree.pages).0

  module _ (law : IsLawful a) (off : offset < 2 ^ 64) where
    -- A new table `n` was linked, and the walk goes on there.
    linked :
        (own : Owner) (grow : Bool) (l va t n : ℕ) (words : ℕ → ℕ) (vm vm1 : Vm) (r : Walk × Vm)
        → l ≤ 2
        → (mine : own t ≡ some (suc l, prefix va (suc l))) → (tree : IsTree a offset own vm)
        → (links : Links a offset law off vm vm1 t (pt_index va (suc l)) n words)
        → Agrees a offset own vm vm1
        → Descends a offset
            (own1 a offset law off own vm vm1 t
              (pt_index va (suc l))
              n
              l
              (prefix va (suc l))
              words
              tree
              links
              mine
              (pt_index_bound va (suc l)))
            grow
            l
            va
            n
            vm1
            r
        → Descends a offset own grow (suc l) va t vm r
    linked own grow l va t n words vm vm1 r b mine tree links agr d =
        below own _ grow l va t n vm vm1 r b mine
          (extends a offset law off own vm vm1 t i n l q words tree links mine small) agr
          (λ u k p j o h.
            links.rest u j
              (owned_differs own n u
                (unowned a offset law off own vm vm1 t i n l q words tree links mine small)
                (λ z. Option.some-ne-none _ (sym o ∙ z)))
              (λ z. level_differs u k p o h z.0))
          (linked_present a offset law off own vm vm1 t i n l q words tree links mine small)
          (linked_inner a offset law off own vm vm1 t i n l q words tree links mine small)
          (linked_child a offset law off own vm vm1 t i n l q words tree links mine small)
          (omega (arith, ap length links.taken)) d
      where
        i : ℕ
        i = pt_index va (suc l)

        q : ℕ
        q = prefix va (suc l)

        small : i < 512
        small = pt_index_bound va (suc l)

        level_differs : (u k p : ℕ) → own u ≡ some (k, p) → suc l < k → u ≢ t
        level_differs u k p o h z =
            let e = Option.some-injective _ _ (sym o ∙ ap own z ∙ mine) in
            omega (arith, h, ap (λ (x : ℕ × ℕ). x.0) e)

    -- One step, when the walks from the next level do.
    module _ (l va t : ℕ) (own : Owner) (vm : Vm) (b : suc l ≤ 3)
        (mine : own t ≡ some (suc l, prefix va (suc l))) (tree : IsTree a offset own vm)
        (ih : (g : Bool) (u : ℕ) (o : Owner) (v : Vm)
          → o u ≡ some (l, prefix va l)
          → IsTree a offset o v
          → Descends a offset o g l va u v (descend a offset g l va u v)) where
      abbrev i : ℕ
      i = pt_index va (suc l)

      abbrev q : ℕ
      q = prefix va (suc l)

      abbrev c : ℕ
      c = to_virt a offset (a.phys (entry_at va l t vm))

      small : i < 512
      small = pt_index_bound va (suc l)

      lower : l ≤ 2
      lower = omega arith

      down : q * 512 + i ≡ prefix va l
      down = prefix-below va l lower

      Result :
          (g : Bool) {r r' : Walk × Vm}
          → r ≡ r'
          → Descends a offset own g (suc l) va t vm r
          → Descends a offset own g (suc l) va t vm r'
      Result g e d = subst (Descends a offset own g (suc l) va t vm) e d

      t_old : (n : ℕ) (ns : List ℕ) → vm.pool ≡ n ∷ ns → t ≢ n
      t_old n ns e =
          owned_differs own n t (pool_unowned own vm n ns tree e)
            (λ z. Option.some-ne-none _ (sym mine ∙ z))

      empty_entry :
          (g : Bool)
          → a.present (entry_at va l t vm) ≡ false
          → Descends a offset own g (suc l) va t vm (descend a offset g (suc l) va t vm)
      empty_entry false n = Result false (sym (descend-missing l va t vm n)) (
          stays own false (suc l) va t vm missing tree (λ t' e. absurd (cc))
            (λ e. (refl, translate-missing a offset va (suc l) t vm n)) (λ e. absurd (cc)))
      empty_entry true n = elim (Pool-cases vm) [
        | empty e ↦
            Result true (sym (descend-not_added l va t vm n (add_table-none a offset t i vm e)))
              (fails own true l va t vm tree e)
        | holds m ms e ↦
            let links = added-Links a offset law off t i m ms vm e (t_old m ms e) in
            Result true
              (sym (descend-added l va t vm m _ n (add_table-some a offset t i m ms vm e)))
              (linked own true l va t m (λ j. 0) vm (added a offset t i m ms vm) _ lower mine tree
                links (added-Agrees a offset law off own vm _ t i m l q tree mine small links n)
                (ih true m _ _ (with_table_new own m (l, q * 512 + i) ∙ ap (λ x. some (l, x)) down)
                  (added-IsTree a offset law off own vm _ t i m l q tree mine small links)))
      ]

      huge_page :
          (g : Bool)
          → a.present (entry_at va l t vm) ≡ true
          → a.is_leaf (entry_at va l t vm) (suc l) ≡ true
          → Descends a offset own g (suc l) va t vm (descend a offset g (suc l) va t vm)
      huge_page g y k = elim (Pool-cases vm) [
        | empty e ↦
            Result g (sym (descend-not_split l va t vm g y k (split_leaf-none a offset l t i vm e)))
              (fails own g l va t vm tree e)
        | holds m ms e ↦
            let links = split-Links a offset law off l t i m ms vm e (t_old m ms e) in
            Result g
              (sym (descend-split l va t vm g _ y k (split_leaf-some a offset l t i m ms vm e)))
              (subst
                (λ u.
                  Descends a offset own g (suc l) va t vm
                    (descend a offset g l va u (split a offset l t i m ms vm)))
                (sym (
                  linked_child a offset law off own vm (split a offset l t i m ms vm) t i m l q
                    (pieces a offset l t i vm) tree links mine small))
                (linked own g l va t m (pieces a offset l t i vm) vm (split a offset l t i m ms vm)
                  _ lower mine tree links
                  (split-Agrees a offset law off own vm _ t i m l q tree mine small lower y k links)
                  (ih g m _ _ (with_table_new own m (l, q * 512 + i) ∙ ap (λ x. some (l, x)) down) (
                    split-IsTree a offset law off own vm _ t i m l q tree mine small lower y k
                      links))))
      ]

      step :
          (grow : Bool)
          → Descends a offset own grow (suc l) va t vm (descend a offset grow (suc l) va t vm)
      unfolding Agrees
      step grow = elim (Bool-cases (a.present (entry_at va l t vm))) [
        | inr n ↦ empty_entry grow n
        | inl y ↦ elim (Bool-cases (a.is_leaf (entry_at va l t vm) (suc l))) [
          | inr k ↦ Result grow (sym (descend-inner l va t vm grow y k)) (
              below own own grow l va t c vm vm _ lower mine (λ u p o. o) (λ v m u h o. refl)
                (λ u x p j o h. refl) y k refl (omega arith)
                (ih grow c own vm (tree.child t l q i mine small y k ∙ ap (λ x. some (l, x)) down)
                  tree))
          | inl k ↦ huge_page grow y k
        ]
      ]

    -- Every walk from a table that serves the address does what `Descends` says.
    pub descend-Descends :
        (grow : Bool) (l va t : ℕ) (own : Owner) (vm : Vm)
        → l ≤ 3
        → own t ≡ some (l, prefix va l)
        → IsTree a offset own vm
        → Descends a offset own grow l va t vm (descend a offset grow l va t vm)
    unfolding descend leaf_table
    descend-Descends grow zero va t own vm b mine tree =
        stays own grow 0 va t vm (arrived t) tree
          (λ t' e.
            let q : t ≡ t' = ap (λ (w : Walk). table_of w) e in (ap own (sym q) ∙ mine, ap some q))
          (λ e. absurd (cc)) (λ e. absurd (cc))
      where
        table_of : Walk → ℕ
        table_of (arrived u) = u
        table_of missing = 0
        table_of no_memory = 0
    descend-Descends grow (suc l) va t own vm b mine tree =
        step l va t own vm b mine tree
          (λ g u o v e h. descend-Descends g l va u o v (omega arith) e h) grow
