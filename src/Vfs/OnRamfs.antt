-- ===== src/Vfs/OnRamfs.antt =====
-- src/fs/ramfs.c under the virtual file system of src/fs/vfs.c: the operations that `ramfs_ops`
-- holds, and that they keep the contract of `create`.
use utopia.Base.{
  ℕ, ◌≤◌, ◌<◌, ◌≡◌, refl, sym, ap, ◌∙◌, subst, inl, inr, true, none, some, List, arith, ◌==◌, Bool,
  Bool-cases, false, Option-cases, length, get_elem?, take, is_zero,
}
use mathlib.Core.Option
use mathlib.Core.Bool.{false≢true}
use utopia.Text.{strcmp}
use utopia.Text.Compare.{NulFree, strcmp_iff}
use utopia.Ramfs
use utopia.Ramfs.{create_entry, Store, Node, VnodeType, file, is_dir}
use utopia.Ramfs.Directory.{IsValid, get_elem?-lt}
use utopia.Ramfs.Names.{Gained, is_zero-pos, create_entry-Gained}
use utopia.Vfs.{VnodeOps, step}
use utopia.Vfs.Creates.{Creates, take-all}

-- The `lookup` and `create` of `ramfs_ops`; a node is its position in the store. `alloc` says whether an
-- allocation succeeds.
unfoldable pub ramfs_ops : (Store → Bool) → VnodeOps Store ℕ
ramfs_ops alloc = record {
  type = λ st v. elim (get_elem? st v) [ none ↦ file | some n ↦ n.type ];
  lookup = λ st v. some (λ name. Ramfs.lookup st v name);
  create = λ st v. some (λ name. Ramfs.create (alloc st) st v name);
}

abbrev pub Fits : List ℕ → Type 0
Fits name = length name ≤ 63

directory :
    (alloc : Store → Bool) (st : Store) (d : ℕ)
    → is_dir ((ramfs_ops alloc).type st d) ≡ true
    → (p : Node) × (get_elem? st d ≡ some p) × (is_dir p.type ≡ true)
unfolding ramfs_ops
directory alloc st d h = elim (Option-cases (get_elem? st d)) [
  | inl e ↦ absurd (false≢true (rw (e, is_dir) at h))
  | inr (p, e) ↦ (p, e, rw (e, is_dir) at h)
]

lookup-inside : (st : Store) (e w : ℕ) (q : List ℕ) → Ramfs.lookup st e q ≡ some w → e < length st
unfolding Ramfs.lookup
lookup-inside st e w q h = elim (Option-cases (get_elem? st e)) [
  | inl none_there ↦ absurd (Option.none-ne-some w (rw (none_there, Ramfs.lookup) at h))
  | inr (p, at) ↦ get_elem?-lt st e p at
]

refused : (st : Store) (d : ℕ) (name : List ℕ) → (create_entry file false st d name).0 ≡ none
unfolding create_entry
refused st d name = ground arith

-- What a call that returned `v` and left `st'` gained.
create-Gained :
    (alloc : Store → Bool) (st st' : Store) (d v : ℕ) (name : List ℕ)
    → IsValid st
    → Fits name
    → is_dir ((ramfs_ops alloc).type st d) ≡ true
    → Ramfs.lookup st d name ≡ none
    → Ramfs.create (alloc st) st d name ≡ (some v, st')
    → Gained file st st' d name v
unfolding Ramfs.create
create-Gained alloc st st' d v name valid fits is absent call = elim (Bool-cases (alloc st)) [
  | inr n ↦
      let none_there = ap (λ b. (create_entry file b st d name).0) n ∙ refused st d name in
      absurd (Option.none-ne-some v (sym none_there ∙ ap (λ r. r.0) call))
  | inl y ↦
      let ran = ap (λ b. create_entry file b st d name) (sym y) ∙ call in
      let (p, at, kind) = directory alloc st d is in
      let (made, gained) = create_entry-Gained file st d p name valid at kind absent in
      let same : length st ≡ v =
        Option.some-injective (length st) v (sym made ∙ ap (λ r. r.0) ran) in
      subst (λ n. Gained file st st' d n v) (take-all 63 name fits)
        (subst (λ w. Gained file st st' d (take 63 name) w) same
          (subst (λ s. Gained file st s d (take 63 name) (length st)) (ap (λ r. r.1) ran) gained))
]

module _ {st st' : Store} {d v : ℕ} {name : List ℕ} (gained : Gained file st st' d name v)
    (nul : NulFree name) (absent : Ramfs.lookup st d name ≡ none) where
  there : Ramfs.lookup st' d name ≡ some v
  there = gained.here name ∙ rw ((strcmp_iff name name nul nul).1 refl)

  kept_here :
      (w : ℕ) (q : List ℕ)
      → NulFree q
      → Ramfs.lookup st d q ≡ some w
      → Ramfs.lookup st' d q ≡ some w
  kept_here w q n h = elim (Bool-cases (is_zero (strcmp name q))) [
    | inl y ↦
        let same : name ≡ q = (strcmp_iff name q nul n).0 (is_zero-pos (strcmp name q) y) in
        absurd (Option.none-ne-some w (sym absent ∙ ap (λ s. Ramfs.lookup st d s) same ∙ h))
    | inr m ↦ gained.here q ∙ rw m h
  ]

  kept :
      (e w : ℕ) (q : List ℕ)
      → NulFree q
      → Ramfs.lookup st e q ≡ some w
      → Ramfs.lookup st' e q ≡ some w
  kept e w q n h = elim (Bool-cases (d == e)) [
    | inl y ↦
        let same : d ≡ e = ground arith in
        subst (λ i. Ramfs.lookup st i q ≡ some w → Ramfs.lookup st' i q ≡ some w) same
          (kept_here w q n) h
    | inr m ↦ gained.elsewhere e q (ground arith) (lookup-inside st e w q h) ∙ h
  ]

-- `ramfs_create` keeps the contract that `vfs_open` relies on, for names of at most 63 characters and
-- whether or not allocations succeed.
pub ramfs-Creates : (alloc : Store → Bool) → Creates (ramfs_ops alloc) IsValid Fits
unfolding ramfs_ops step
ramfs-Creates alloc = record {
  law = λ st st' d v name f valid nul fits is absent at call.
      let ran : Ramfs.create (alloc st) st d name ≡ (some v, st') =
        ap (λ g. g name) (Option.some-injective (λ n. Ramfs.create (alloc st) st d n) f at)
        ∙ call in
      let gained = create-Gained alloc st st' d v name valid fits is absent ran in
      (gained.valid, there gained nul absent, kept gained nul absent);
}
