-- ===== src/Linux/Table.antt =====
-- The file table: what openat and close of src/exec/syscalls/linux/common.c do to it.
use utopia.Base.{
  ℕ, zero, suc, ◌+◌, ◌-◌, ◌≤◌, ◌<◌, ◌≡◌, refl, sym, ap, ◌∙◌, subst, ◌≢◌, ◌⊎◌, inl, inr, true, false,
  Option, none, some, List, [], ◌∷◌, arith, Bool-cases, length, get_elem?, set, drop, length-set,
}
use mathlib.Core.Option
use utopia.Linux.{FileDesc, free_from, free_fd}

module _ {V : Type 0} where
  -- An entry that is not in use is cleared.
  abbrev pub blank : FileDesc V
  blank = record { vnode = none; offset = 0; flags = 0; used = false }

  -- `fd` is the first entry from `i` on that is not in use.
  unfoldable pub Lowest : ℕ → List (FileDesc V) → ℕ → Type 0
  Lowest i fds fd =
      (i ≤ fd)
      × ((f : FileDesc V) × (get_elem? fds fd ≡ some f) × (f.used ≡ false))
      × ((j : ℕ) (f : FileDesc V) → i ≤ j → j < fd → get_elem? fds j ≡ some f → f.used ≡ true)

  -- Every entry from `i` on is in use.
  unfoldable pub AllUsed : ℕ → List (FileDesc V) → Type 0
  AllUsed i fds = (j : ℕ) (f : FileDesc V) → i ≤ j → get_elem? fds j ≡ some f → f.used ≡ true

  get_elem?-drop :
      (n k : ℕ) (fds : List (FileDesc V)) → get_elem? (drop n fds) k ≡ get_elem? fds (n + k)
  get_elem?-drop zero k fds = ap (get_elem? fds) (omega arith)
  get_elem?-drop (suc n) k [] = refl
  get_elem?-drop (suc n) k (f ∷ fds) =
      get_elem?-drop n k fds ∙ ap (get_elem? (f ∷ fds)) {x = suc (n + k)} (omega arith)

  -- The search from `i`, in a list whose first entry has the number `i`.
  FreeFrom : ℕ → List (FileDesc V) → Option ℕ → Type 0
  FreeFrom i fs none = (k : ℕ) (f : FileDesc V) → get_elem? fs k ≡ some f → f.used ≡ true
  FreeFrom i fs (some fd) =
      (k : ℕ) × (fd ≡ i + k)
      × ((f : FileDesc V) × (get_elem? fs k ≡ some f) × (f.used ≡ false))
      × ((j : ℕ) (f : FileDesc V) → j < k → get_elem? fs j ≡ some f → f.used ≡ true)

  free_here :
      (i : ℕ) (f : FileDesc V) (fs : List (FileDesc V))
      → f.used ≡ false
      → free_from i (f ∷ fs) ≡ some i
  unfolding free_from
  free_here i f fs e = simp (e, free_from) refl

  free_later :
      (i : ℕ) (f : FileDesc V) (fs : List (FileDesc V))
      → f.used ≡ true
      → free_from i (f ∷ fs) ≡ free_from (suc i) fs
  unfolding free_from
  free_later i f fs e = simp (e, free_from) refl

  skip_used :
      (i : ℕ) (g : FileDesc V) (fs : List (FileDesc V)) (o : Option ℕ)
      → g.used ≡ true
      → FreeFrom (suc i) fs o
      → FreeFrom i (g ∷ fs) o
  unfolding FreeFrom
  skip_used i g fs none y h = λ k f e. used_at k f e
    where
      used_at : (k : ℕ) (f : FileDesc V) → get_elem? (g ∷ fs) k ≡ some f → f.used ≡ true
      used_at zero f e = ap (λ (x : FileDesc V). x.used) (sym (Option.some-injective _ _ e)) ∙ y
      used_at (suc k) f e = h k f e
  skip_used i g fs (some fd) y (k, q, found, before) = (suc k, omega (arith, q), found, used_at)
    where
      used_at : (j : ℕ) (f : FileDesc V) → j < suc k → get_elem? (g ∷ fs) j ≡ some f → f.used ≡ true
      used_at zero f l e = ap (λ (x : FileDesc V). x.used) (sym (Option.some-injective _ _ e)) ∙ y
      used_at (suc j) f l e = before j f (omega arith) e

  free_from-FreeFrom : (i : ℕ) (fs : List (FileDesc V)) → FreeFrom i fs (free_from i fs)
  unfolding free_from FreeFrom
  free_from-FreeFrom i [] = λ k f e. absurd (Option.none-ne-some _ e)
  free_from-FreeFrom i (f ∷ fs) = elim (Bool-cases f.used) [
    | inr n ↦
        subst (FreeFrom i (f ∷ fs)) (sym (free_here i f fs n))
          (0, omega arith, (f, refl, n), λ j g l e. absurd (omega arith))
    | inl y ↦
        subst (FreeFrom i (f ∷ fs)) (sym (free_later i f fs y))
          (skip_used i f fs (free_from (suc i) fs) y (free_from-FreeFrom (suc i) fs))
  ]

  -- What the search of `openat` finds: the lowest descriptor from 3 on, or none where all are used.
  pub free_fd-found : (fds : List (FileDesc V)) (fd : ℕ) → free_fd fds ≡ some fd → Lowest 3 fds fd
  unfolding free_fd FreeFrom Lowest
  free_fd-found fds fd e =
      let (k, q, (f, g, u), before) =
        subst (FreeFrom 3 (drop 3 fds)) e (free_from-FreeFrom 3 (drop 3 fds)) in
      (
        omega (arith, q),
        (f, ap (get_elem? fds) q ∙ sym (get_elem?-drop 3 k fds) ∙ g, u),
        λ j h l m z.
            before (j - 3) h (omega (arith, q))
              (get_elem?-drop 3 (j - 3) fds ∙ ap (get_elem? fds) (omega arith) ∙ z),
      )

  pub free_fd-full : (fds : List (FileDesc V)) → free_fd fds ≡ none → AllUsed 3 fds
  unfolding free_fd FreeFrom AllUsed
  free_fd-full fds e j f l z =
      subst (FreeFrom 3 (drop 3 fds)) e (free_from-FreeFrom 3 (drop 3 fds)) (j - 3) f
        (get_elem?-drop 3 (j - 3) fds ∙ ap (get_elem? fds) (omega arith) ∙ z)

  -- Setting an entry twice, and to what it was.
  pub set-set :
      (fds : List (FileDesc V)) (n : ℕ) (f g : FileDesc V) → set (set fds n f) n g ≡ set fds n g
  set-set [] n f g = refl
  set-set (x ∷ fds) zero f g = refl
  set-set (x ∷ fds) (suc n) f g = ap (λ l. x ∷ l) (set-set fds n f g)

  pub set-same :
      (fds : List (FileDesc V)) (n : ℕ) (f : FileDesc V)
      → get_elem? fds n ≡ some f
      → set fds n f ≡ fds
  set-same [] n f e = refl
  set-same (x ∷ fds) zero f e = ap (λ y. y ∷ fds) (sym (Option.some-injective _ _ e))
  set-same (x ∷ fds) (suc n) f e = ap (λ l. x ∷ l) (set-same fds n f e)

  pub get-set :
      (fds : List (FileDesc V)) (n : ℕ) (f g : FileDesc V)
      → get_elem? fds n ≡ some f
      → get_elem? (set fds n g) n ≡ some g
  get-set [] n f g e = absurd (Option.none-ne-some _ e)
  get-set (x ∷ fds) zero f g e = refl
  get-set (x ∷ fds) (suc n) f g e = get-set fds n f g e

  -- The 32 entries; one that is not in use is cleared, and one from 3 on in use has a vnode.
  pub record IsTable (fds : List (FileDesc V)) : Type 0 where
    pub len : length fds ≡ 32
    pub cleared : (n : ℕ) (f : FileDesc V) → get_elem? fds n ≡ some f → f.used ≡ false → f ≡ blank
    pub filled :
        (n : ℕ) (f : FileDesc V) → 3 ≤ n → get_elem? fds n ≡ some f → f.used ≡ true → f.vnode ≢ none

  -- An entry of the table after a `set` is the new one or one that there was.
  set-cases :
      (fds : List (FileDesc V)) (n m : ℕ) (g f : FileDesc V)
      → get_elem? (set fds n g) m ≡ some f
      → ((m ≡ n) × (f ≡ g)) ⊎ (get_elem? fds m ≡ some f)
  set-cases [] n m g f e = absurd (Option.none-ne-some _ e)
  set-cases (x ∷ fds) zero zero g f e = inl (refl, sym (Option.some-injective _ _ e))
  set-cases (x ∷ fds) zero (suc m) g f e = inr e
  set-cases (x ∷ fds) (suc n) zero g f e = inr e
  set-cases (x ∷ fds) (suc n) (suc m) g f e = elim (set-cases fds n m g f e) [
    | inl q ↦ inl (ap suc q.0, q.1)
    | inr q ↦ inr q
  ]

  pub set-IsTable :
      (fds : List (FileDesc V)) (n : ℕ) (g : FileDesc V)
      → IsTable fds
      → (g.used ≡ false → g ≡ blank)
      → (3 ≤ n → g.used ≡ true → g.vnode ≢ none)
      → IsTable (set fds n g)
  set-IsTable fds n g t c v = record {
    len = length-set fds n g ∙ t.len;
    cleared = λ m f e u. elim (set-cases fds n m g f e) [
      | inl q ↦ q.1 ∙ c (ap (λ (x : FileDesc V). x.used) (sym q.1) ∙ u)
      | inr q ↦ t.cleared m f q u
    ];
    filled = λ m f l e u. elim (set-cases fds n m g f e) [
      | inl q ↦ λ z.
          v (omega (arith, q.0)) (ap (λ (x : FileDesc V). x.used) (sym q.1) ∙ u)
            (ap (λ (x : FileDesc V). x.vnode) (sym q.1) ∙ z)
      | inr q ↦ t.filled m f l q u
    ];
  }
