-- ===== src/Vfs/Creates.antt =====
-- What `vfs_open` of src/fs/vfs.c needs of the `create` of a file system, and what it then makes:
-- a file that the path leads to.
use utopia.Base.{
  ℕ, zero, suc, ◌≤◌, ◌<◌, ◌≡◌, refl, sym, ap, ap₂, ◌∙◌, inl, inr, true, false, Option, none, some,
  List, [], ◌∷◌, ◌++◌, append-nil, append_assoc, arith, ◌==◌, ==_ne, Bool-cases, Option-cases,
  length, get_or, take,
}
use mathlib.Core.Option
use utopia.Text.Compare.{NulFree, NulFree-take}
use utopia.Vfs.{
  is_dir, VnodeOps, slash, is_dot, skip_dot, step, lookup, Opened, opened, error, o_creat,
  create_in, open_path,
}
use utopia.Vfs.Paths.{emit, components, components_from, components_from-append}
use utopia.Vfs.Resolve.{resolve, resolve-append, lookup-resolve, lookup-slash}
use utopia.Vfs.Open.{NoSlash, open_path-create}

-- In a valid state, `create` in the directory `d` makes `v` under a name that was not there and that
-- fits, and all that could be looked up before still can.
pub record Creates {S V : Type 0} (ops : VnodeOps S V) (Valid : S → Type 0) (Fits : List ℕ → Type 0)
    : Type 0 where
  pub law :
      (st st' : S) (d v : V) (name : List ℕ) (f : List ℕ → Option V × S)
      → Valid st
      → NulFree name
      → Fits name
      → is_dir (ops.type st d) ≡ true
      → step ops st d name ≡ none
      → ops.create st d ≡ some f
      → f name ≡ (some v, st')
      → Valid st'
        × (step ops st' d name ≡ some v)
        × ((e w : V) (q : List ℕ)
            → NulFree q
            → step ops st e q ≡ some w
            → step ops st' e q ≡ some w)

AllNulFree : List (List ℕ) → Type 0
AllNulFree [] = Unit {0}
AllNulFree (p ∷ ps) = NulFree p × AllNulFree ps

NulFree-snoc : (s : List ℕ) (c : ℕ) → NulFree s → 0 < c → NulFree (s ++ (c ∷ []))
NulFree-snoc [] c n h = (h, tt)
NulFree-snoc (d ∷ s) c n h = (n.0, NulFree-snoc s c n.1 h)

emit-NulFree :
    (cur : List ℕ) (ps : List (List ℕ)) → NulFree cur → AllNulFree ps → AllNulFree (emit cur ps)
unfolding emit AllNulFree
emit-NulFree [] ps n a = a
emit-NulFree (c ∷ cur) ps n a = (n, a)

components-NulFree : (cur s : List ℕ) → NulFree cur → NulFree s → AllNulFree (components_from cur s)
unfolding components_from
components-NulFree cur [] n m = emit-NulFree cur [] n (unfold AllNulFree in tt)
components-NulFree cur (c ∷ s) n m = elim (Bool-cases (c == slash)) [
  | inl y ↦
      rw (y, components_from) (emit-NulFree cur (components s) n (components-NulFree [] s tt m.1))
  | inr k ↦
      rw (k, components_from)
        (components-NulFree (cur ++ (c ∷ [])) s (NulFree-snoc cur c n m.0) m.1)
]

NulFree-skip : (s : List ℕ) → NulFree s → NulFree (skip_dot s)
unfolding skip_dot
NulFree-skip [] n = n
NulFree-skip (c ∷ []) n = ground arith
NulFree-skip (c ∷ d ∷ s) n = ground arith

components-name :
    (cur name : List ℕ) → NoSlash name → components_from cur name ≡ emit (cur ++ name) []
unfolding components_from
components-name cur [] n = ap (λ s. emit s []) (sym (append-nil cur))
components-name cur (c ∷ s) n =
    rw (==_ne c slash n.0, components_from)
      (components-name (cur ++ (c ∷ [])) s n.1 ∙ ap (λ s. emit s []) (append_assoc cur (c ∷ []) s))

pub take-all : (n : ℕ) (s : List ℕ) → length s ≤ n → take n s ≡ s
take-all zero [] h = refl
take-all zero (c ∷ s) h = absurd (omega arith)
take-all (suc n) [] h = refl
take-all (suc n) (c ∷ s) h = ap (c ∷◌) (take-all n s (omega arith))

elim-some :
    {V : Type 0} (r : Option V) → elim r as (λ x. Option V) [ none ↦ none | some v ↦ some v ] ≡ r
elim-some none = refl
elim-some (some v) = refl

module _ {S V : Type 0} (ops : VnodeOps S V) where
  resolve-one :
      (st : S) (root d : V) (p : List ℕ)
      → take 127 p ≡ p
      → is_dot p ≡ false
      → resolve ops st root d (p ∷ []) ≡ step ops st d p
  unfolding resolve
  resolve-one st root d p whole dot = rw (resolve, whole, dot, whole) (elim-some (step ops st d p))

  resolve-name :
      (st : S) (root d : V) (name : List ℕ)
      → NoSlash name
      → is_dot name ≡ false
      → 0 < length name
      → length name < 128
      → resolve ops st root d (components name) ≡ step ops st d name
  unfolding emit
  resolve-name st root d [] n dot some_name short = absurd (omega arith)
  resolve-name st root d (c ∷ s) n dot some_name short =
      ap (resolve ops st root d) (components-name [] (c ∷ s) n)
      ∙ resolve-one st root d (c ∷ s) (take-all 127 (c ∷ s) (omega arith)) dot

  -- A name below a directory that a path leads to.
  lookup-name :
      (st : S) (root d : V) (parent name : List ℕ)
      → get_or (parent ++ (slash ∷ name)) 0 0 ≡ slash
      → NoSlash name
      → is_dot name ≡ false
      → 0 < length name
      → length name < 128
      → lookup ops st (some root) parent ≡ some d
      → lookup ops st (some root) (parent ++ (slash ∷ name)) ≡ step ops st d name
  unfolding resolve components_from skip_dot emit
  lookup-name st root d [] name first n dot some_name short found =
      lookup-slash ops st root name
      ∙ resolve-name st root root name n dot some_name short
      ∙ ap (λ v. step ops st v name)
          (Option.some-injective root d (sym (lookup-resolve ops st root []) ∙ found))
  lookup-name st root d (c ∷ p) name first n dot some_name short found =
      ap (λ x. lookup ops st (some root) (x ∷ (p ++ (slash ∷ name)))) first
      ∙ lookup-slash ops st root (p ++ (slash ∷ name))
      ∙ ap (resolve ops st root root) (components_from-append [] p name)
      ∙ resolve-append ops st root root d (components p) (components name) inside
      ∙ resolve-name st root d name n dot some_name short
    where
      inside : resolve ops st root root (components p) ≡ some d
      inside =
          sym (lookup-slash ops st root p)
          ∙ ap (λ x. lookup ops st (some root) (x ∷ p)) (sym first)
          ∙ found

  -- Names that can be looked up in `st` lead where they did in `st'`.
  abbrev Kept : S → S → Type 0
  Kept st st' =
      (e w : V) (q : List ℕ) → NulFree q → step ops st e q ≡ some w → step ops st' e q ≡ some w

  resolve-Kept :
      (st st' : S) (root current d : V) (ps : List (List ℕ))
      → Kept st st'
      → AllNulFree ps
      → resolve ops st root current ps ≡ some d
      → resolve ops st' root current ps ≡ some d
  unfolding resolve AllNulFree
  resolve-Kept st st' root current d [] k a h = h
  resolve-Kept st st' root current d (p ∷ ps) k a h = elim (Bool-cases (is_dot (take 127 p))) [
    | inl y ↦ rw (y, resolve) (resolve-Kept st st' root root d ps k a.1 (rw (y, resolve) at h))
    | inr n ↦
        rw (n, resolve)
          (next (step ops st current (take 127 p)) refl (rw (n, resolve) at h)
            (λ w e. resolve-Kept st st' root w d ps k a.1 e))
  ]
    where
      next :
          (r : Option V)
          → step ops st current (take 127 p) ≡ r
          → elim r as (λ x. Option V) [ none ↦ none | some w ↦ resolve ops st root w ps ] ≡ some d
          → ((w : V) → resolve ops st root w ps ≡ some d → resolve ops st' root w ps ≡ some d)
          → elim (step ops st' current (take 127 p)) as (λ x. Option V) [
            | none ↦ none
            | some w ↦ resolve ops st' root w ps
          ]
            ≡ some d
      next none same e ih = absurd (ground arith)
      next (some w) same e ih = rw (k current w (take 127 p) (NulFree-take 127 p a.0) same) (ih w e)

  lookup-Kept :
      (st st' : S) (root d : V) (parent : List ℕ)
      → Kept st st'
      → NulFree parent
      → lookup ops st (some root) parent ≡ some d
      → lookup ops st' (some root) parent ≡ some d
  lookup-Kept st st' root d parent k n h =
      lookup-resolve ops st' root parent
      ∙ resolve-Kept st st' root root d (components (skip_dot parent)) k
          (components-NulFree [] (skip_dot parent) tt (NulFree-skip parent n))
          (sym (lookup-resolve ops st root parent) ∙ h)

error≢opened : {S V : Type 0} {n : ℕ} {st st' : S} {v : V} → error n st ≡ opened v st' → ⊥
error≢opened e = ground arith

opened-injective :
    {S V : Type 0} (st st' : S) (v w : V) → opened w st ≡ opened v st' → (w ≡ v) × (st ≡ st')
opened-injective st st' v w e = ground arith

-- What a call of `ops->create` that makes `v` is.
create_in-opened :
    {S V : Type 0} (ops : VnodeOps S V) (st st' : S) (d v : V) (name : List ℕ)
    → create_in ops st d name ≡ opened v st'
    → (is_dir (ops.type st d) ≡ true)
      × (f : List ℕ → Option V × S) × (ops.create st d ≡ some f)
      × (f name ≡ (some v, st'))
unfolding create_in
create_in-opened ops st st' d v name h = elim (Bool-cases (is_dir (ops.type st d))) [
  | inr n ↦ absurd (error≢opened (rw n at h))
  | inl y ↦ elim (Option-cases (ops.create st d)) [
    | inl e ↦ absurd (error≢opened (rw (y, e) at h))
    | inr (f, e) ↦ elim (Option-cases (f name).0) [
      | inl g ↦ absurd (error≢opened (rw (y, e, g) at h))
      | inr (w, g) ↦
          let (same, after) = opened-injective (f name).1 st' v w (rw (y, e, g) at h) in
          (y, f, e, ap₂ (λ a b. (a, b)) (g ∙ ap some same) after)
    ]
  ]
]

module _ {S V : Type 0} (ops : VnodeOps S V) {Valid : S → Type 0} {Fits : List ℕ → Type 0}
    (creates : Creates ops Valid Fits) where
  -- With a file system whose `create` keeps its contract: a file that `vfs_open` creates with
  -- `O_CREAT` is what a lookup of the same path finds afterwards. The path is absolute and of C
  -- strings, its last component is not `.` and fits the file system, and both parts of it fit the
  -- buffers.
  pub lookup-open_path :
      (st st' : S) (root v : V) (parent name : List ℕ) (flags : ℕ)
      → Valid st
      → get_or (parent ++ (slash ∷ name)) 0 0 ≡ slash
      → NoSlash name
      → NulFree parent
      → NulFree name
      → Fits name
      → is_dot name ≡ false
      → 0 < length name
      → length parent < 256
      → length name < 128
      → o_creat flags ≡ true
      → lookup ops st (some root) (parent ++ (slash ∷ name)) ≡ none
      → open_path ops st (some root) (parent ++ (slash ∷ name)) flags ≡ opened v st'
      → Valid st' × (lookup ops st' (some root) (parent ++ (slash ∷ name)) ≡ some v)
  lookup-open_path st st' root v parent name flags valid first n nul_parent nul_name fits dot
        some_name short_parent short creat absent made =
      by_parent (lookup ops st (some root) parent) refl (
        sym (
          open_path-create ops st (some root) parent name flags first n short_parent short creat
            absent)
        ∙ made)
    where
      by_parent :
          (r : Option V)
          → lookup ops st (some root) parent ≡ r
          → elim r as (λ x. Opened S V) [ none ↦ error 2 st | some d ↦ create_in ops st d name ]
            ≡ opened v st'
          → Valid st' × (lookup ops st' (some root) (parent ++ (slash ∷ name)) ≡ some v)
      by_parent none found o = absurd (error≢opened o)
      by_parent (some d) found o =
          let (is, f, at, call) = create_in-opened ops st st' d v name o in
          let fresh : step ops st d name ≡ none =
            sym (lookup-name ops st root d parent name first n dot some_name short found)
            ∙ absent in
          let (valid', there, kept) =
            creates.law st st' d v name f valid nul_name fits is fresh at call in
          (
            valid',
            lookup-name ops st' root d parent name first n dot some_name short
                  (lookup-Kept ops st st' root d parent kept nul_parent found)
                ∙ there,
          )
