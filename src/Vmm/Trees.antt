-- ===== src/Vmm/Trees.antt =====
-- The page tables as trees: which part of the addresses a table serves, and when a change of one
-- entry leaves a translation alone.
use utopia.Base.{
  ℕ, zero, suc, ◌+◌, ◌*◌, ◌/◌, ◌%◌, ◌^◌, ◌≤◌, ◌<◌, ◌≡◌, refl, sym, ap, ◌∙◌, subst, ◌≢◌, inl, inr,
  true, false, ◌&&◌, Option, none, some, List, [], ◌∷◌, arith, ◌==◌, Bool-cases,
}
use mathlib.Core.Option
use utopia.Paging.{Arch, Frame}
use utopia.Vmm.{Vm, span, pt_index, to_virt, to_phys}

-- The level of each table and the addresses that it serves, those `va` with `prefix va level` equal to
-- the number given.
abbrev pub Owner : Type 0
Owner = ℕ → Option (ℕ × ℕ)

-- What the indices above the level spell.
abbrev pub prefix : ℕ → ℕ → ℕ
prefix va level = va % 2 ^ 48 / 2 ^ (12 + suc level * 9)

pub prefix-below : (va l : ℕ) → l ≤ 2 → prefix va (suc l) * 512 + pt_index va (suc l) ≡ prefix va l
unfolding pt_index
prefix-below va zero h = omega arith
prefix-below va (suc zero) h = omega arith
prefix-below va (suc (suc zero)) h = omega arith
prefix-below va (suc (suc (suc l))) h = absurd (omega arith)

pub pt_index_bound : (va l : ℕ) → pt_index va l < 512
unfolding pt_index
pt_index_bound va l = omega arith

pub prefix-top : (va : ℕ) → prefix va 3 ≡ 0
prefix-top va = omega arith

-- Every page of the list differs from `n`.
unfoldable pub Avoids : ℕ → List ℕ → Type 0
Avoids n [] = Unit {0}
Avoids n (m ∷ ms) = (m ≢ n) × Avoids n ms

module _ (a : Arch) (offset : ℕ) where
  -- The physical address that the tables from `t` at the level give for an address.
  unfoldable pub translate : ℕ → ℕ → ℕ → Vm → Option ℕ
  translate zero va t vm =
      let entry = vm.tables t (pt_index va 0) in
      elim (a.present entry) [ false ↦ none | true ↦ some (a.phys entry + va % span 0) ]
  translate (suc level) va t vm =
      let entry = vm.tables t (pt_index va (suc level)) in
      elim (a.present entry) [
        | false ↦ none
        | true ↦ elim (a.is_leaf entry (suc level)) [
          | true ↦ some (a.phys entry + va % span (suc level))
          | false ↦ translate level va (to_virt a offset (a.phys entry)) vm
        ]
      ]

module _ (a : Arch) (offset : ℕ) where
  -- The pages of the pool are no tables, are different, and an entry can point to them.
  unfoldable pub Pages : Owner → List ℕ → Type 0
  unfolding Avoids
  Pages own [] = Unit {0}
  Pages own (n ∷ ns) =
      (own n ≡ none) × (n < 2 ^ 64) × Frame (to_phys a offset n) × Avoids n ns × Pages own ns

  -- A present entry above the last level leads to a table for the addresses of the entry, or is a
  -- huge page in its place.
  pub record IsTree (own : Owner) (vm : Vm) : Type 0 where
    pub child :
        (t l p i : ℕ)
        → own t ≡ some (suc l, p)
        → i < 512
        → a.present (vm.tables t i) ≡ true
        → a.is_leaf (vm.tables t i) (suc l) ≡ false
        → own (to_virt a offset (a.phys (vm.tables t i))) ≡ some (l, p * 512 + i)
    pub huge :
        (t l p i : ℕ)
        → own t ≡ some (suc l, p)
        → i < 512
        → a.present (vm.tables t i) ≡ true
        → a.is_leaf (vm.tables t i) (suc l) ≡ true
        → (a.phys (vm.tables t i) % span (suc l) ≡ 0)
          × (a.phys (vm.tables t i) + span (suc l) ≤ 2 ^ 52)
    pub pages : Pages own vm.pool
    -- no table and no page of the pool is at NULL
    pub no_null : own 0 ≡ none
    pub nonnull : Avoids 0 vm.pool

  -- Every translation from a table of `own` is the same in both states.
  unfoldable pub Agrees : Owner → Vm → Vm → Type 0
  Agrees own vm vm' =
      (va l t : ℕ)
      → l ≤ 3
      → own t ≡ some (l, prefix va l)
      → translate a offset l va t vm' ≡ translate a offset l va t vm

  -- The tables of `own` are the same but for the entry `i` of `t`.
  abbrev pub SameBut : Owner → ℕ → ℕ → Vm → Vm → Type 0
  SameBut own t i vm vm' =
      (u j : ℕ) → own u ≢ none → ¬ ((u ≡ t) × (j ≡ i)) → vm'.tables u j ≡ vm.tables u j

  -- The cases of a translation, by the entry that it meets.
  pub translate-missing :
      (va l t : ℕ) (vm : Vm)
      → a.present (vm.tables t (pt_index va l)) ≡ false
      → translate a offset l va t vm ≡ none
  unfolding translate
  translate-missing va zero t vm e = rw (e, translate) refl
  translate-missing va (suc l) t vm e = rw (e, translate) refl

  pub translate-page :
      (va t : ℕ) (vm : Vm)
      → a.present (vm.tables t (pt_index va 0)) ≡ true
      → translate a offset 0 va t vm ≡ some (a.phys (vm.tables t (pt_index va 0)) + va % span 0)
  unfolding translate
  translate-page va t vm e = rw (e, translate) refl

  pub translate-huge :
      (va l t : ℕ) (vm : Vm)
      → a.present (vm.tables t (pt_index va (suc l))) ≡ true
      → a.is_leaf (vm.tables t (pt_index va (suc l))) (suc l) ≡ true
      → translate a offset (suc l) va t vm
        ≡ some (a.phys (vm.tables t (pt_index va (suc l))) + va % span (suc l))
  unfolding translate
  translate-huge va l t vm e f = rw (e, translate) (rw (f, translate) refl)

  pub translate-table :
      (va l t : ℕ) (vm : Vm)
      → a.present (vm.tables t (pt_index va (suc l))) ≡ true
      → a.is_leaf (vm.tables t (pt_index va (suc l))) (suc l) ≡ false
      → translate a offset (suc l) va t vm
        ≡ translate a offset l va (to_virt a offset (a.phys (vm.tables t (pt_index va (suc l))))) vm
  unfolding translate
  translate-table va l t vm e f = rw (e, translate) (rw (f, translate) refl)

  -- Equal entries and equal translations below give equal translations.
  pub translate-congruent :
      (va l t u : ℕ) (vm vm' : Vm)
      → vm'.tables u (pt_index va (suc l)) ≡ vm.tables t (pt_index va (suc l))
      → (a.present (vm.tables t (pt_index va (suc l))) ≡ true
          → a.is_leaf (vm.tables t (pt_index va (suc l))) (suc l) ≡ false
          → translate a offset l va
              (to_virt a offset (a.phys (vm.tables t (pt_index va (suc l)))))
              vm'
            ≡ translate a offset l va
                (to_virt a offset (a.phys (vm.tables t (pt_index va (suc l)))))
                vm)
      → translate a offset (suc l) va u vm' ≡ translate a offset (suc l) va t vm
  translate-congruent va l t u vm vm' e below =
      elim (Bool-cases (a.present (vm.tables t (pt_index va (suc l))))) [
        | inr n ↦
            translate-missing va (suc l) u vm' (ap a.present e ∙ n)
            ∙ sym (translate-missing va (suc l) t vm n)
        | inl y ↦ elim (Bool-cases (a.is_leaf (vm.tables t (pt_index va (suc l))) (suc l))) [
          | inl k ↦
              translate-huge va l u vm' (ap a.present e ∙ y) (ap (λ x. a.is_leaf x (suc l)) e ∙ k)
              ∙ ap (λ x. some (a.phys x + va % span (suc l))) e
              ∙ sym (translate-huge va l t vm y k)
          | inr k ↦
              translate-table va l u vm' (ap a.present e ∙ y) (ap (λ x. a.is_leaf x (suc l)) e ∙ k)
              ∙ ap (λ x. translate a offset l va (to_virt a offset (a.phys x)) vm') e
              ∙ below y k
              ∙ sym (translate-table va l t vm y k)
        ]
      ]

  page-congruent :
      (va t : ℕ) (vm vm' : Vm)
      → vm'.tables t (pt_index va 0) ≡ vm.tables t (pt_index va 0)
      → translate a offset 0 va t vm' ≡ translate a offset 0 va t vm
  page-congruent va t vm vm' e = elim (Bool-cases (a.present (vm.tables t (pt_index va 0)))) [
    | inr n ↦
        translate-missing va 0 t vm' (ap a.present e ∙ n) ∙ sym (translate-missing va 0 t vm n)
    | inl y ↦
        translate-page va t vm' (ap a.present e ∙ y)
        ∙ ap (λ x. some (a.phys x + va % span 0)) e
        ∙ sym (translate-page va t vm y)
  ]

  module _ (own : Owner) (vm vm' : Vm) (tree : IsTree own vm) (t i k p : ℕ)
      (mine : own t ≡ some (k, p)) (same : SameBut own t i vm vm') where
    entry_same :
        (va l u : ℕ)
        → own u ≡ some (l, prefix va l)
        → ¬ ((u ≡ t) × (pt_index va l ≡ i))
        → vm'.tables u (pt_index va l) ≡ vm.tables u (pt_index va l)
    entry_same va l u e n = same u (pt_index va l) (λ q. Option.some-ne-none _ (sym e ∙ q)) n

    -- The changed entry is passed.
    passing : (va l u : ℕ) → own u ≡ some (l, prefix va l) → u ≡ t → (l ≡ k) × (prefix va l ≡ p)
    passing va l u e ut =
        let q = Option.some-injective _ _ (sym e ∙ ap own ut ∙ mine) in
        (ap (λ (r : ℕ × ℕ). r.0) q, ap (λ (r : ℕ × ℕ). r.1) q)

    unchanged :
        (va l u : ℕ)
        → own u ≡ some (l, prefix va l)
        → l ≤ 3
        → (k ≤ 3
            → prefix va k ≡ p
            → pt_index va k ≡ i
            → translate a offset k va t vm' ≡ translate a offset k va t vm)
        → (¬ ((u ≡ t) × (pt_index va l ≡ i))
            → translate a offset l va u vm' ≡ translate a offset l va u vm)
        → translate a offset l va u vm' ≡ translate a offset l va u vm
    unchanged va l u e b here other = elim (Bool-cases (u == t && pt_index va l == i)) [
      | inr n ↦ other (λ q. ground arith)
      | inl y ↦
          let ut : u ≡ t = ground arith in
          let li : pt_index va l ≡ i = ground arith in
          let (lk, pp) = passing va l u e ut in
          subst (λ v. translate a offset l va v vm' ≡ translate a offset l va v vm) (sym ut)
            (subst (λ m. translate a offset m va t vm' ≡ translate a offset m va t vm) (sym lk)
              (here (omega (arith, lk)) (ap (prefix va) (sym lk) ∙ pp)
                (ap (pt_index va) (sym lk) ∙ li)))
    ]

    -- A change of one entry leaves the translations that do not pass it alone, and all if it leaves
    -- those alone that start at its table and pass it.
    pub change-translate :
        (va : ℕ)
        → (k ≤ 3
            → prefix va k ≡ p
            → pt_index va k ≡ i
            → translate a offset k va t vm' ≡ translate a offset k va t vm)
        → (l u : ℕ) → l ≤ 3
        → own u ≡ some (l, prefix va l)
        → translate a offset l va u vm' ≡ translate a offset l va u vm
    change-translate va here zero u h e =
        unchanged va zero u e h here λ n. page-congruent va u vm vm' (entry_same va zero u e n)
    change-translate va here (suc l) u h e = unchanged va (suc l) u e h here λ n.
        translate-congruent va l u u vm vm' (entry_same va (suc l) u e n) λ y f.
          change-translate va here l (to_virt a offset (a.phys (vm.tables u (pt_index va (suc l)))))
            (omega arith)
            (tree.child u l (prefix va (suc l)) (pt_index va (suc l)) e (pt_index_bound va (suc l))
                y f
              ∙ ap (λ q. some (l, q)) (prefix-below va l (omega arith)))
