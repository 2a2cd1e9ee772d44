-- ===== src/Vmm/Calls.antt =====
-- What map_page_4k, protect_page_4k and unmap_page_4k of src/mm/vmm.c do to the addresses that
-- vm_user_to_kernel finds.
use utopia.Base.{
  ℕ, ◌+◌, ◌%◌, ◌^◌, ◌<◌, ◌≡◌, refl, sym, ap, ◌∙◌, subst, ◌⊎◌, inl, inr, Bool, true, false, none,
  some, arith, if◌then◌else◌, Bool-cases, length, ◌==◌, ==_ne,
}
use mathlib.Core.Option
use utopia.Paging.{VmFlags, Arch, Frame, IsLawful}
use utopia.Vmm.{
  Vm, Walk, arrived, missing, no_memory, pt_index, to_virt, descend, set_entry, or_kernel,
  map_page_4k, protect_page_4k, unmap_page_4k, vm_user_to_kernel,
}
use utopia.Vmm.Trees.{Owner, translate, prefix, prefix-top, IsTree, Agrees}
use utopia.Vmm.Linking.{Extends}
use utopia.Vmm.Descent.{Descends}
use utopia.Vmm.Walks.{descend-Descends}
use utopia.Vmm.Mapping.{
  SamePage, user_to_kernel-translate, written-IsTree, written_other, written_keeps, translate-none,
  SamePage-above, written_here,
}

module _ (a : Arch) (offset : ℕ) (law : IsLawful a) (off : offset < 2 ^ 64) where
  -- From `vm` to `vm'` the pages other than that of `va` keep their addresses in every address
  -- space, and the tables are still trees.
  pub record Changes (own : Owner) (va : ℕ) (vm vm' : Vm) : Type 0 where
    pub own' : Owner
    pub extends : Extends own own'
    pub tree : IsTree a offset own' vm'
    pub others :
        (va' root : ℕ)
        → own root ≡ some (3, 0)
        → ¬ SamePage va' va
        → vm_user_to_kernel a offset root va' vm' ≡ vm_user_to_kernel a offset root va' vm

  -- All pages keep their addresses.
  abbrev pub Keeps : Owner → Vm → Vm → Type 0
  Keeps own vm vm' =
      (va root : ℕ)
      → own root ≡ some (3, 0)
      → vm_user_to_kernel a offset root va vm' ≡ vm_user_to_kernel a offset root va vm

  map_if :
      (b : Bool) (x : ℕ)
      → Option.map (to_virt a offset) (if b then some x else none)
        ≡ (if b then some (to_virt a offset x) else none)
  map_if true x = refl
  map_if false x = refl

  at_top : (own : Owner) (root va : ℕ) → own root ≡ some (3, 0) → own root ≡ some (3, prefix va 3)
  at_top own root va o = o ∙ ap (λ x. some (3, x)) (sym (prefix-top va))

  from_translate :
      (own : Owner) (root va : ℕ) (vm vm' : Vm)
      → translate a offset 3 va root vm' ≡ translate a offset 3 va root vm
      → vm_user_to_kernel a offset root va vm' ≡ vm_user_to_kernel a offset root va vm
  unfolding vm_user_to_kernel
  from_translate own root va vm vm' e =
      user_to_kernel-translate a offset 3 va root vm'
      ∙ ap (Option.map (to_virt a offset)) e
      ∙ sym (user_to_kernel-translate a offset 3 va root vm)

  walk-Keeps :
      (own : Owner) (grow : Bool) (va root : ℕ) (vm : Vm) (r : Walk × Vm)
      → Descends a offset own grow 3 va root vm r
      → Keeps own vm r.1
  unfolding Agrees
  walk-Keeps own grow va root vm r d va' root' o =
      from_translate own root' va' vm r.1
        (d.agrees va' 3 root' (omega arith) (at_top own root' va' o))

  module _ (own : Owner) (root va : ℕ) (vm : Vm) (tree : IsTree a offset own vm)
      (top : own root ≡ some (3, 0)) where
    -- The table is not NULL.
    given : (root == 0) ≡ false
    given = ==_ne root 0 (λ e. Option.none-ne-some _ (sym tree.no_null ∙ ap own (sym e) ∙ top))

    abbrev walk : Bool → Walk × Vm
    walk grow = descend a offset grow 3 va root vm

    same_walk : descend a offset true 3 va (or_kernel a offset root vm) vm ≡ walk true
    same_walk = ap (λ t. descend a offset true 3 va t vm) (rw given refl)

    walked : (grow : Bool) → Descends a offset own grow 3 va root vm (walk grow)
    walked grow =
        descend-Descends a offset law off grow 3 va root own vm (omega arith)
          (at_top own root va top) tree

    stopped : (grow : Bool) → Changes own va vm (walk grow).1
    stopped grow =
        let d = walked grow in
        record {
          own' = d.own';
          extends = d.extends;
          tree = d.tree;
          others = λ va' r o n. walk-Keeps own grow va root vm (walk grow) d va' r o;
        }

    entry_written :
        (grow : Bool) (t entry : ℕ)
        → (walk grow).0 ≡ arrived t
        → Changes own va vm (set_entry t (pt_index va 0) entry (walk grow).1)
          × ((va' : ℕ)
              → SamePage va' va
              → vm_user_to_kernel a offset root va'
                  (set_entry t (pt_index va 0) entry (walk grow).1)
                ≡ (if a.present entry
                    then some (to_virt a offset (a.phys entry + va' % 4096))
                    else none))
    unfolding vm_user_to_kernel
    entry_written grow t entry e =
        let d = walked grow in
        let (mine, way) = d.at_arrived t e in
        (
          record {
            own' = d.own';
            extends = d.extends;
            tree =
                written-IsTree a offset d.own' _ d.tree root t va entry (d.extends root _ top) mine
                  way;
            others = λ va' r o n.
                from_translate own r va' _ _ (
                  written_other a offset d.own' _ d.tree root t va entry (d.extends root _ top) mine
                    way va' 3 r n (omega arith) (d.extends r _ (at_top own r va' o)))
                ∙ walk-Keeps own grow va root vm (walk grow) d va' r o;
          },
          λ va' h.
              user_to_kernel-translate a offset 3 va' root _
              ∙ ap (Option.map (to_virt a offset)) (
                  written_here a offset d.own' _ d.tree root t va entry (d.extends root _ top) mine
                    way va' h)
              ∙ map_if (a.present entry) _,
        )

    walk_cases :
        (grow : Bool)
        → ((t : ℕ) × ((walk grow).0 ≡ arrived t))
          ⊎ ((walk grow).0 ≡ missing)
          ⊎ ((walk grow).0 ≡ no_memory)
    walk_cases grow = go (walk grow).0 refl
      where
        go :
            (w : Walk)
            → (walk grow).0 ≡ w
            → ((t : ℕ) × ((walk grow).0 ≡ arrived t))
              ⊎ ((walk grow).0 ≡ missing)
              ⊎ ((walk grow).0 ≡ no_memory)
        go (arrived t) e = inl (t, e)
        go missing e = inr (inl e)
        go no_memory e = inr (inr e)

    module _ (phys : ℕ) (flags : VmFlags) where
      abbrev mapped : Bool × Vm
      mapped = map_page_4k a offset root va phys flags vm

      map-arrived :
          (t : ℕ)
          → (walk true).0 ≡ arrived t
          → mapped ≡ (true, set_entry t (pt_index va 0) (a.leaf phys flags false) (walk true).1)
      unfolding map_page_4k
      map-arrived t e =
          rw (ap (λ r. r.0) same_walk ∙ e, map_page_4k)
            (ap (λ r. (true, set_entry t (pt_index va 0) (a.leaf phys flags false) r.1)) same_walk)

      map-no_memory : (walk true).0 ≡ no_memory → mapped ≡ (false, (walk true).1)
      unfolding map_page_4k
      map-no_memory e =
          rw (ap (λ r. r.0) same_walk ∙ e, map_page_4k) (ap (λ r. (false, r.1)) same_walk)

      -- The call returns -1 only for want of memory.
      abbrev MapResult : Bool × Vm → Type 0
      MapResult r =
          Changes own va vm r.1
          × (r.0 ≡ true
              → (va' : ℕ) → SamePage va' va
              → vm_user_to_kernel a offset root va' r.1
                ≡ some (to_virt a offset (phys + va' % 4096)))
          × (r.0 ≡ false → Keeps own vm r.1 × (length vm.pool < 3))

      pub map_result : Frame phys → MapResult mapped
      map_result f = elim (walk_cases true) [
        | inl (t, e) ↦
            let w = entry_written true t (a.leaf phys flags false) e in
            subst MapResult (sym (map-arrived t e)) (
              w.0,
              (λ z va' h.
                  w.1 va' h
                  ∙ rw (law.leaf_present phys flags false) (
                      ap (λ x. some (to_virt a offset (x + va' % 4096)))
                        (law.leaf_phys phys flags false f))),
              λ z. absurd (cc),
            )
        | inr (inl e) ↦ absurd (let z : true ≡ false = ((walked true).at_missing e).0 in cc)
        | inr (inr e) ↦ subst MapResult (sym (map-no_memory e)) (
          stopped true,
          (λ z. absurd (cc)),
          λ z. (
            walk-Keeps own true va root vm (walk true) (walked true),
            (walked true).at_no_memory e,
          ),
        )
      ]

    abbrev unmapped : Bool × Vm
    unmapped = unmap_page_4k a offset root va vm

    unmap-arrived :
        (t : ℕ)
        → (walk false).0 ≡ arrived t
        → unmapped ≡ (true, set_entry t (pt_index va 0) 0 (walk false).1)
    unfolding unmap_page_4k
    unmap-arrived t e = rw (given, unmap_page_4k) (rw (e, unmap_page_4k) refl)

    unmap-missing : (walk false).0 ≡ missing → unmapped ≡ (true, (walk false).1)
    unfolding unmap_page_4k
    unmap-missing e = rw (given, unmap_page_4k) (rw (e, unmap_page_4k) refl)

    unmap-no_memory : (walk false).0 ≡ no_memory → unmapped ≡ (false, (walk false).1)
    unfolding unmap_page_4k
    unmap-no_memory e = rw (given, unmap_page_4k) (rw (e, unmap_page_4k) refl)

    abbrev UnmapResult : Bool × Vm → Type 0
    UnmapResult r =
        Changes own va vm r.1
        × (r.0 ≡ true
            → (va' : ℕ) → SamePage va' va
            → vm_user_to_kernel a offset root va' r.1 ≡ none)
        × (r.0 ≡ false → Keeps own vm r.1 × (length vm.pool < 3))

    pub unmap_result : UnmapResult unmapped
    unfolding vm_user_to_kernel
    unmap_result = elim (walk_cases false) [
      | inl (t, e) ↦
          let w = entry_written false t 0 e in
          subst UnmapResult (sym (unmap-arrived t e))
            (w.0, (λ z va' h. w.1 va' h ∙ rw law.present_zero refl), λ z. absurd (cc))
      | inr (inl e) ↦ subst UnmapResult (sym (unmap-missing e)) (
        stopped false,
        (λ z va' h.
            walk-Keeps own false va root vm (walk false) (walked false) va' root top
            ∙ user_to_kernel-translate a offset 3 va' root vm
            ∙ ap (Option.map (to_virt a offset)) (
                translate-none a offset va va' vm (λ m b. SamePage-above va' va m b h) 3 root
                  (omega arith) ((walked false).at_missing e).1)),
        λ z. absurd (cc),
      )
      | inr (inr e) ↦ subst UnmapResult (sym (unmap-no_memory e)) (
        stopped false,
        (λ z. absurd (cc)),
        λ z. (
          walk-Keeps own false va root vm (walk false) (walked false),
          (walked false).at_no_memory e,
        ),
      )
    ]

    module _ (flags : VmFlags) where
      abbrev protected : Bool × Vm
      protected = protect_page_4k a offset root va flags vm

      abbrev old_entry : ℕ → ℕ
      old_entry t = (walk false).1.tables t (pt_index va 0)

      protect-present :
          (t : ℕ)
          → (walk false).0 ≡ arrived t
          → a.present (old_entry t) ≡ true
          → protected ≡ (
            true,
            set_entry t (pt_index va 0) (a.leaf (a.phys (old_entry t)) flags false) (walk false).1,
          )
      unfolding protect_page_4k
      protect-present t e f = rw (given, protect_page_4k) (rw (e, protect_page_4k) (rw f refl))

      protect-absent :
          (t : ℕ)
          → (walk false).0 ≡ arrived t
          → a.present (old_entry t) ≡ false
          → protected ≡ (false, (walk false).1)
      unfolding protect_page_4k
      protect-absent t e f = rw (given, protect_page_4k) (rw (e, protect_page_4k) (rw f refl))

      protect-missing : (walk false).0 ≡ missing → protected ≡ (false, (walk false).1)
      unfolding protect_page_4k
      protect-missing e = rw (given, protect_page_4k) (rw (e, protect_page_4k) refl)

      protect-no_memory : (walk false).0 ≡ no_memory → protected ≡ (false, (walk false).1)
      unfolding protect_page_4k
      protect-no_memory e = rw (given, protect_page_4k) (rw (e, protect_page_4k) refl)

      abbrev ProtectResult : Bool × Vm → Type 0
      ProtectResult r = Changes own va vm r.1 × Keeps own vm r.1

      protect_stopped : protected ≡ (false, (walk false).1) → ProtectResult protected
      protect_stopped e =
          subst ProtectResult (sym e)
            (stopped false, walk-Keeps own false va root vm (walk false) (walked false))

      pub protect_result : ProtectResult protected
      protect_result = elim (walk_cases false) [
        | inl (t, e) ↦ elim (Bool-cases (a.present (old_entry t))) [
          | inl y ↦
              let d = walked false in
              let (mine, way) = d.at_arrived t e in
              let leaf = a.leaf (a.phys (old_entry t)) flags false in
              subst ProtectResult (sym (protect-present t e y)) (
                (entry_written false t leaf e).0,
                λ va' r o.
                    from_translate own r va' _ _ (
                      written_keeps a offset d.own' _ d.tree root t va leaf (d.extends root _ top)
                        mine way y (law.leaf_present _ flags false) (law.leaf_again _ flags false)
                        va' 3 r (omega arith) (d.extends r _ (at_top own r va' o)))
                    ∙ walk-Keeps own false va root vm (walk false) d va' r o,
              )
          | inr n ↦ protect_stopped (protect-absent t e n)
        ]
        | inr (inl e) ↦ protect_stopped (protect-missing e)
        | inr (inr e) ↦ protect_stopped (protect-no_memory e)
      ]
