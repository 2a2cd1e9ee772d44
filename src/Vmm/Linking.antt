-- ===== src/Vmm/Linking.antt =====
-- What it does to the trees to link a new table into an entry, as add_table and split_leaf do.
use utopia.Base.{
  add64, ℕ, suc, ◌+◌, ◌*◌, ◌%◌, ◌^◌, ◌≤◌, ◌<◌, ◌≡◌, refl, sym, ap, ap₂, ◌∙◌, subst, ◌≢◌, inl, inr,
  true, false, ◌&&◌, none, some, List, [], ◌∷◌, arith, ◌==◌, if◌then◌else◌, ==_self, ==_ne,
  Bool-cases,
}
use mathlib.Core.Option
use utopia.Addresses.{phys_to_virt, hhdm_virt_to_phys}
use utopia.Paging.{Arch, Frame, IsLawful}
use utopia.Vmm.{Vm, span, pt_index, to_virt, to_phys}
use utopia.Vmm.Trees.{
  translate, Owner, prefix, Avoids, Pages, IsTree, SameBut, change-translate, translate-table,
  Agrees,
}

-- `own` with `n` as one more table.
pub with_table : Owner → ℕ → ℕ × ℕ → Owner
with_table own n place u = if u == n then some place else own u

pub with_table_new : (own : Owner) (n : ℕ) (place : ℕ × ℕ) → with_table own n place n ≡ some place
unfolding with_table
with_table_new own n place = rw (==_self n) refl

pub with_table_other :
    (own : Owner) (n u : ℕ) (place : ℕ × ℕ) → u ≢ n → with_table own n place u ≡ own u
unfolding with_table
with_table_other own n u place h = rw (==_ne u n h) refl

-- What is owned is not a table that is not.
pub owned_differs : (own : Owner) (n u : ℕ) → own n ≡ none → own u ≢ none → u ≢ n
owned_differs own n u e h q = h (ap own q ∙ e)

-- All that was owned still is, in the same place.
abbrev pub Extends : Owner → Owner → Type 0
Extends own own' = (u : ℕ) (place : ℕ × ℕ) → own u ≡ some place → own' u ≡ some place

pub with_table-Extends :
    (own : Owner) (n : ℕ) (place : ℕ × ℕ) → own n ≡ none → Extends own (with_table own n place)
with_table-Extends own n place e u q h =
    with_table_other own n u place
      (owned_differs own n u e (λ z. Option.some-ne-none _ (sym h ∙ z)))
    ∙ h

module _ (a : Arch) (offset : ℕ) (law : IsLawful a) (off : offset < 2 ^ 64) where
  pub Pages-with_table :
      (own : Owner) (n : ℕ) (place : ℕ × ℕ) (ns : List ℕ)
      → Avoids n ns
      → Pages a offset own ns
      → Pages a offset (with_table own n place) ns
  unfolding Pages Avoids
  Pages-with_table own n place [] v ps = tt
  Pages-with_table own n place (m ∷ ms) v ps = (
    with_table_other own n m place v.0 ∙ ps.0,
    ps.1,
    ps.2,
    ps.3,
    Pages-with_table own n place ms v.1 ps.4,
  )

  -- A page of the pool is where its physical address is mapped.
  pub to_virt-to_phys : (n : ℕ) → n < 2 ^ 64 → to_virt a offset (to_phys a offset n) ≡ n
  unfolding phys_to_virt hhdm_virt_to_phys
  to_virt-to_phys n h = omega arith

  -- The same for the bytes behind its start.
  pub through_phys :
      (page d : ℕ) → page < 2 ^ 64 → to_virt a offset (to_phys a offset page + d) ≡ add64 page d
  unfolding phys_to_virt hhdm_virt_to_phys
  through_phys page d h = omega arith

  -- From `vm` to `vm'` the page `n` was taken from the pool, filled with `words`, and linked into the
  -- entry `i` of `t`.
  pub record Links (vm vm' : Vm) (t i n : ℕ) (words : ℕ → ℕ) : Type 0 where
    pub row : (j : ℕ) → vm'.tables n j ≡ words j
    pub entry : vm'.tables t i ≡ a.table (to_phys a offset n)
    pub rest : (u j : ℕ) → u ≢ n → ¬ ((u ≡ t) × (j ≡ i)) → vm'.tables u j ≡ vm.tables u j
    pub taken : vm.pool ≡ n ∷ vm'.pool

  module _ (own : Owner) (vm vm' : Vm) (t i n l p : ℕ) (words : ℕ → ℕ)
      (tree : IsTree a offset own vm) (links : Links vm vm' t i n words)
      (mine : own t ≡ some (suc l, p)) (small : i < 512) where
    pub fresh : Pages a offset own (n ∷ vm'.pool)
    fresh = subst (Pages a offset own) links.taken tree.pages

    pub unowned : own n ≡ none
    unfolding Pages
    unowned = fresh.0

    pub frame : Frame (to_phys a offset n)
    unfolding Pages
    frame = fresh.2

    abbrev pub own1 : Owner
    own1 = with_table own n (l, p * 512 + i)

    pub extends : Extends own own1
    extends = with_table-Extends own n (l, p * 512 + i) unowned

    at_null : (n ≢ 0) × Avoids 0 vm'.pool
    unfolding Avoids
    at_null = subst (Avoids 0) links.taken tree.nonnull

    avoids : Avoids n vm'.pool
    unfolding Pages
    avoids = fresh.3

    others : Pages a offset own vm'.pool
    unfolding Pages
    others = fresh.4

    -- The entry leads to the new table.
    pub linked_present : a.present (vm'.tables t i) ≡ true
    linked_present = ap a.present links.entry ∙ law.table_present _ frame

    pub linked_inner : a.is_leaf (vm'.tables t i) (suc l) ≡ false
    linked_inner = ap (λ e. a.is_leaf e (suc l)) links.entry ∙ law.table_inner _ l frame

    pub linked_child : to_virt a offset (a.phys (vm'.tables t i)) ≡ n
    unfolding Pages
    linked_child =
        ap (λ e. to_virt a offset (a.phys e)) links.entry
        ∙ ap (to_virt a offset) (law.table_phys _ frame)
        ∙ to_virt-to_phys n fresh.1

    owned_new : (u : ℕ) → own u ≢ none → u ≢ n
    owned_new u h = owned_differs own n u unowned h

    pub links-SameBut : SameBut a offset own t i vm vm'
    links-SameBut u j h k = links.rest u j (owned_new u h) k

    -- All translations stay if the new table gives those that the entry gave.
    pub links-Agrees :
        ((va : ℕ)
          → l ≤ 2
          → prefix va (suc l) ≡ p
          → pt_index va (suc l) ≡ i
          → translate a offset l va n vm' ≡ translate a offset (suc l) va t vm)
        → Agrees a offset own vm vm'
    unfolding Agrees
    links-Agrees h va =
        change-translate a offset own vm vm' tree t i (suc l) p mine links-SameBut va λ b pp ii.
          translate-table a offset va l t vm'
            (ap (λ j. a.present (vm'.tables t j)) ii ∙ linked_present)
            (ap (λ j. a.is_leaf (vm'.tables t j) (suc l)) ii ∙ linked_inner)
          ∙ ap (λ u. translate a offset l va u vm')
              (ap (λ j. to_virt a offset (a.phys (vm'.tables t j))) ii ∙ linked_child)
          ∙ h va (omega arith) pp ii

    -- What the words of the new table must be for it to be well-formed, when `l` is not the last
    -- level: absent, or huge pages.
    abbrev pub Huge : Type 0
    Huge =
        (k j : ℕ)
        → l ≡ suc k
        → j < 512
        → a.present (words j) ≡ true
        → (a.is_leaf (words j) (suc k) ≡ true)
          × (a.phys (words j) % span (suc k) ≡ 0)
          × (a.phys (words j) + span (suc k) ≤ 2 ^ 52)

    -- The entries of the tables after the change: of the new table, the link, or as before.
    data Place (u j : ℕ) : Type 0 where
      new : u ≡ n → Place u j
      link : u ≡ t → j ≡ i → Place u j
      old : u ≢ n → vm'.tables u j ≡ vm.tables u j → Place u j

    place : (u j : ℕ) → Place u j
    place u j = elim (Bool-cases (u == n)) [
      | inl y ↦ new (ground arith)
      | inr x ↦ elim (Bool-cases (u == t && j == i)) [
        | inl y ↦ link (ground arith) (ground arith)
        | inr z ↦
            let un : u ≢ n = λ q. ground arith in old un (links.rest u j un (λ q. ground arith))
      ]
    ]

    -- The new table stands at the level `l`.
    new_level : (u k q : ℕ) → u ≡ n → own1 u ≡ some (suc k, q) → l ≡ suc k
    new_level u k q e o =
        ap (λ (r : ℕ × ℕ). r.0)
          (Option.some-injective _ _
            (sym (with_table_new own n (l, p * 512 + i)) ∙ ap own1 (sym e) ∙ o))

    t_old : t ≢ n
    t_old = owned_new t (λ q. Option.some-ne-none _ (sym mine ∙ q))

    link_place : (u k q : ℕ) → u ≡ t → own1 u ≡ some (suc k, q) → (k ≡ l) × (q ≡ p)
    link_place u k q e o =
        let r =
          Option.some-injective _ _
            (sym o ∙ ap own1 e ∙ with_table_other own n t (l, p * 512 + i) t_old ∙ mine) in
        (omega (arith, ap (λ (r : ℕ × ℕ). r.0) r), ap (λ (r : ℕ × ℕ). r.1) r)

    child_at :
        Huge
        → (u k q j : ℕ) → own1 u ≡ some (suc k, q)
        → j < 512
        → a.present (vm'.tables u j) ≡ true
        → a.is_leaf (vm'.tables u j) (suc k) ≡ false
        → own1 (to_virt a offset (a.phys (vm'.tables u j))) ≡ some (k, q * 512 + j)
    child_at h u k q j o b y f = elim (place u j) [
      | new e ↦
          let w : vm'.tables u j ≡ words j = ap (λ v. vm'.tables v j) e ∙ links.row j in
          let z = h k j (new_level u k q e o) b (ap a.present (sym w) ∙ y) in
          let x : false ≡ true = sym f ∙ ap (λ v. a.is_leaf v (suc k)) w ∙ z.0 in cc
      | link e d ↦
          let (kl, qp) = link_place u k q e o in
          ap (λ v. own1 (to_virt a offset (a.phys (vm'.tables v j)))) e
          ∙ ap (λ v. own1 (to_virt a offset (a.phys (vm'.tables t v)))) d
          ∙ ap own1 linked_child
          ∙ with_table_new own n (l, p * 512 + i)
          ∙ ap some (ap₂ (λ v w. (v, w)) (sym kl) (ap₂ (λ v w. v * 512 + w) (sym qp) (sym d)))
      | old d e ↦
          ap (λ v. own1 (to_virt a offset (a.phys v))) e
          ∙ extends _ _ (
              tree.child u k q j (sym (with_table_other own n u (l, p * 512 + i) d) ∙ o) b
                (ap a.present (sym e) ∙ y) (ap (λ v. a.is_leaf v (suc k)) (sym e) ∙ f))
    ]

    huge_at :
        Huge
        → (u k q j : ℕ) → own1 u ≡ some (suc k, q)
        → j < 512
        → a.present (vm'.tables u j) ≡ true
        → a.is_leaf (vm'.tables u j) (suc k) ≡ true
        → (a.phys (vm'.tables u j) % span (suc k) ≡ 0)
          × (a.phys (vm'.tables u j) + span (suc k) ≤ 2 ^ 52)
    huge_at h u k q j o b y f = elim (place u j) [
      | new e ↦
          let w : vm'.tables u j ≡ words j = ap (λ v. vm'.tables v j) e ∙ links.row j in
          let z = h k j (new_level u k q e o) b (ap a.present (sym w) ∙ y) in
          (
            ap (λ v. a.phys v % span (suc k)) w ∙ z.1,
            subst (λ v. a.phys v + span (suc k) ≤ 2 ^ 52) (sym w) z.2,
          )
      | link e d ↦
          let (kl, qp) = link_place u k q e o in
          let x : true ≡ false =
            sym f
            ∙ ap₂ (λ v w. a.is_leaf (vm'.tables v w) (suc k)) e d
            ∙ ap (λ v. a.is_leaf (vm'.tables t i) (suc v)) kl
            ∙ linked_inner in
          cc
      | old d e ↦
          let z =
            tree.huge u k q j (sym (with_table_other own n u (l, p * 512 + i) d) ∙ o) b
              (ap a.present (sym e) ∙ y) (ap (λ v. a.is_leaf v (suc k)) (sym e) ∙ f) in
          (
            ap (λ v. a.phys v % span (suc k)) e ∙ z.0,
            subst (λ v. a.phys v + span (suc k) ≤ 2 ^ 52) (sym e) z.1,
          )
    ]

    pub links-IsTree : Huge → IsTree a offset own1 vm'
    links-IsTree h = record {
      child = λ u k q j o b y f. child_at h u k q j o b y f;
      huge = λ u k q j o b y f. huge_at h u k q j o b y f;
      pages = Pages-with_table own n (l, p * 512 + i) vm'.pool avoids others;
      no_null = with_table_other own n 0 (l, p * 512 + i) (λ e. at_null.0 (sym e)) ∙ tree.no_null;
      nonnull = at_null.1;
    }
