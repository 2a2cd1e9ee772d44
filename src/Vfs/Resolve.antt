-- ===== src/Vfs/Resolve.antt =====
-- What `vfs_lookup` of src/fs/vfs.c finds, component by component.
use utopia.Base.{
  ℕ, zero, suc, ◌≤◌, ◌<◌, ◌≡◌, refl, sym, ap, ◌∙◌, inl, inr, true, false, Option, none, some, List,
  [], ◌∷◌, ◌++◌, arith, ◌==◌, Bool-cases, length, take,
}
use mathlib.Core.Option
use utopia.Vfs.{
  VnodeOps, slash, is_dot, skip_slashes, token_of, rest_of, next_token, skip_dot, step, walk,
  lookup,
}
use utopia.Vfs.Paths.{
  emit, components_from, components, components_from-token, components-skip, components_from-append,
  rest_of-shorter,
}

module _ {S V : Type 0} (ops : VnodeOps S V) where
  -- The node that a list of components leads to from `current`: a name is cut after 127 characters,
  -- and `.` leads back to `root`.
  unfoldable pub resolve : S → V → V → List (List ℕ) → Option V
  resolve st root current [] = some current
  resolve st root current (name ∷ names) = elim (is_dot (take 127 name)) [
    | true ↦ resolve st root root names
    | false ↦ elim (step ops st current (take 127 name)) [
      | none ↦ none
      | some next ↦ resolve st root next names
    ]
  ]

  -- A round of the loop whose token is `t` and which leaves `rest`.
  round :
      (fuel : ℕ) (st : S) (root current : V) (t rest : List ℕ)
      → ((v : V) → walk ops fuel st root v rest ≡ resolve st root v (components rest))
      → elim (length (take 127 t) == 0) as (λ x. Option V) [
        | true ↦ walk ops fuel st root current rest
        | false ↦ elim (is_dot (take 127 t)) as (λ x. Option V) [
          | true ↦ walk ops fuel st root root rest
          | false ↦ elim (step ops st current (take 127 t)) as (λ x. Option V) [
            | none ↦ none
            | some next ↦ walk ops fuel st root next rest
          ]
        ]
      ]
        ≡ resolve st root current (emit t (components rest))
  unfolding emit resolve
  round fuel st root current [] rest ih = ih current
  round fuel st root current (x ∷ xs) rest ih = elim (Bool-cases (is_dot (take 127 (x ∷ xs)))) [
    | inl y ↦ rw (nonempty, y, resolve) (ih root)
    | inr n ↦ rw (nonempty, n, resolve) (next (step ops st current (take 127 (x ∷ xs))))
  ]
    where
      nonempty : (length (take 127 (x ∷ xs)) == 0) ≡ false
      nonempty = ground arith

      next :
          (r : Option V)
          → elim r as (λ x. Option V) [ none ↦ none | some next ↦ walk ops fuel st root next rest ]
            ≡ elim r as (λ x. Option V) [
              | none ↦ none
              | some next ↦ resolve st root next (components rest)
            ]
      next none = refl
      next (some v) = ih v

  walk-resolve :
      (fuel : ℕ) (st : S) (root current : V) (p : List ℕ)
      → length p < fuel
      → walk ops fuel st root current p ≡ resolve st root current (components p)
  unfolding walk next_token
  walk-resolve zero st root current p h = absurd (omega arith)
  walk-resolve (suc fuel) st root current [] h = unfold resolve components_from emit in refl
  walk-resolve (suc fuel) st root current (c ∷ s) h =
      let q : List ℕ = skip_slashes (c ∷ s) in
      round fuel st root current (token_of q) (rest_of q)
        (λ v. walk-resolve fuel st root v (rest_of q) (omega (arith, rest_of-shorter c s)))
      ∙ ap (resolve st root current) (sym (components_from-token [] q) ∙ components-skip (c ∷ s))

  skip_dot-le : (p : List ℕ) → length (skip_dot p) ≤ length p
  unfolding skip_dot
  skip_dot-le [] = omega arith
  skip_dot-le (c ∷ []) = ground arith
  skip_dot-le (c ∷ d ∷ s) = ground arith

  -- With a root, `vfs_lookup` takes the components of the path one after the other, those of the
  -- path without a leading `.`; runs of slashes separate them. Its loop always ends.
  pub lookup-resolve :
      (st : S) (root : V) (path : List ℕ)
      → lookup ops st (some root) path ≡ resolve st root root (components (skip_dot path))
  unfolding lookup
  lookup-resolve st root path =
      walk-resolve (suc (length path)) st root root (skip_dot path)
        (omega (arith, skip_dot-le path))

  pub resolve-append :
      (st : S) (root current v : V) (ps qs : List (List ℕ))
      → resolve st root current ps ≡ some v
      → resolve st root current (ps ++ qs) ≡ resolve st root v qs
  unfolding resolve
  resolve-append st root current v [] qs h =
      ap (λ w. resolve st root w qs) (Option.some-injective current v h)
  resolve-append st root current v (p ∷ ps) qs h = elim (Bool-cases (is_dot (take 127 p))) [
    | inl y ↦ rw (y, resolve) (resolve-append st root root v ps qs (rw (y, resolve) at h))
    | inr n ↦
        rw (n, resolve)
          (next (step ops st current (take 127 p)) (rw (n, resolve) at h)
            (λ w e. resolve-append st root w v ps qs e))
  ]
    where
      next :
          (r : Option V)
          → elim r as (λ x. Option V) [ none ↦ none | some w ↦ resolve st root w ps ] ≡ some v
          → ((w : V)
              → resolve st root w ps ≡ some v
              → resolve st root w (ps ++ qs) ≡ resolve st root v qs)
          → elim r as (λ x. Option V) [ none ↦ none | some w ↦ resolve st root w (ps ++ qs) ]
            ≡ resolve st root v qs
      next none e ih = absurd (ground arith)
      next (some w) e ih = ih w e

  pub skip_dot-slash : (s : List ℕ) → skip_dot (slash ∷ s) ≡ slash ∷ s
  unfolding skip_dot
  skip_dot-slash [] = refl
  skip_dot-slash (c ∷ s) = refl

  pub lookup-slash :
      (st : S) (root : V) (s : List ℕ)
      → lookup ops st (some root) (slash ∷ s) ≡ resolve st root root (components s)
  unfolding components_from emit
  lookup-slash st root s =
      lookup-resolve st root (slash ∷ s)
      ∙ ap (λ p. resolve st root root (components p)) (skip_dot-slash s)

  restart :
      (st : S) (root v : V) (ys : List ℕ)
      → resolve st root v (components (b'.' ∷ slash ∷ ys)) ≡ resolve st root root (components ys)
  unfolding resolve components_from emit
  restart st root v ys = refl

  -- A `.` in the middle of an absolute path leads back to the root: when `/xs` is found, the lookup
  -- of `/xs/./ys` finds what `/ys` does, whatever `xs` is.
  pub lookup-dot :
      (st : S) (root v : V) (xs ys : List ℕ)
      → lookup ops st (some root) (slash ∷ xs) ≡ some v
      → lookup ops st (some root) (slash ∷ (xs ++ (slash ∷ b'.' ∷ slash ∷ ys)))
        ≡ lookup ops st (some root) (slash ∷ ys)
  lookup-dot st root v xs ys h =
      lookup-slash st root (xs ++ (slash ∷ b'.' ∷ slash ∷ ys))
      ∙ ap (resolve st root root) (components_from-append [] xs (b'.' ∷ slash ∷ ys))
      ∙ resolve-append st root root v (components xs) (components (b'.' ∷ slash ∷ ys))
          (sym (lookup-slash st root xs) ∙ h)
      ∙ restart st root v ys
      ∙ sym (lookup-slash st root ys)
