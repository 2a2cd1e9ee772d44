-- ===== src/Process/Wait.antt =====
-- What `process_wait_child` of src/exec/process.c returns and removes.
use mathlib.Core.Option
use utopia.Base.{
  ℕ, ◌≡◌, refl, sym, ap, ap₂, ◌∙◌, subst, ◌≢◌, ◌⊎◌, inl, inr, Bool, true, false, ◌&&◌, ◌||◌, none,
  some, List, [], ◌∷◌, ◌++◌, arith, if◌then◌else◌, ==_self, ==_ne, Bool-cases, Option-cases, ℤ,
}
use utopia.Process.{
  Process, no_child, still_running, reaped, wanted, search_child, unlink, wait_child,
}

abbrev pub Elsewhere : ℕ → List Process → Type 0
Elsewhere a [] = Unit {0}
Elsewhere a (p ∷ ps) = (p.addr ≢ a) × Elsewhere a ps

-- No two processes are at one address.
abbrev pub Distinct : List Process → Type 0
Distinct [] = Unit {0}
Distinct (p ∷ ps) = Elsewhere p.addr ps × Distinct ps

-- Whether there is a child that is asked for.
unfoldable pub any_wanted : ℕ → ℤ → List Process → Bool
any_wanted parent pid [] = false
any_wanted parent pid (p ∷ ps) = wanted parent pid p || any_wanted parent pid ps

-- No child that is asked for is a zombie.
abbrev pub NoneDead : ℕ → ℤ → List Process → Type 0
NoneDead parent pid [] = Unit {0}
NoneDead parent pid (p ∷ ps) = ((wanted parent pid p && p.zombie) ≡ false) × NoneDead parent pid ps

-- The first zombie that is asked for, with the processes before and behind it.
pub record Found (parent : ℕ) (pid : ℤ) (ps : List Process) (p : Process) : Type 0 where
  pub before : List Process
  pub behind : List Process
  pub split : ps ≡ before ++ (p ∷ behind)
  pub child : wanted parent pid p ≡ true
  pub dead : p.zombie ≡ true
  pub first : NoneDead parent pid before

search-Found :
    (parent : ℕ) (pid : ℤ) (ps : List Process) (p : Process)
    → (search_child parent pid ps).1 ≡ some p
    → Found parent pid ps p
unfolding search_child
search-Found parent pid [] p e = absurd (ground arith)
search-Found parent pid (q ∷ ps) p e = elim (Bool-cases (wanted parent pid q)) [
  | inr n ↦
      later (ap (λ b. b && q.zombie) n) (search-Found parent pid ps p (rw (search_child, n) at e))
  | inl y ↦ elim (Bool-cases q.zombie) [
    | inl z ↦
        let same : q ≡ p = Option.some-injective q p (rw (search_child, y, z) at e) in
        subst (Found parent pid (q ∷ ps)) same
          (record { before = []; behind = ps; split = refl; child = y; dead = z; first = tt })
    | inr m ↦
        later (ap₂ (λ b c. b && c) y m)
          (search-Found parent pid ps p (rw (search_child, y, m) at e))
  ]
]
  where
    later :
        (wanted parent pid q && q.zombie) ≡ false
        → Found parent pid ps p
        → Found parent pid (q ∷ ps) p
    later h f = record {
      before = q ∷ f.before;
      behind = f.behind;
      split = ap (q ∷◌) f.split;
      child = f.child;
      dead = f.dead;
      first = (h, f.first);
    }

search-none :
    (parent : ℕ) (pid : ℤ) (ps : List Process)
    → (search_child parent pid ps).1 ≡ none
    → NoneDead parent pid ps × ((search_child parent pid ps).0 ≡ any_wanted parent pid ps)
unfolding search_child any_wanted
search-none parent pid [] e = (tt, refl)
search-none parent pid (q ∷ ps) e = elim (Bool-cases (wanted parent pid q)) [
  | inr n ↦
      let (a, b) = search-none parent pid ps (rw (search_child, n) at e) in
      ((ap (λ c. c && q.zombie) n, a), rw (search_child, n) b)
  | inl y ↦ elim (Bool-cases q.zombie) [
    | inl z ↦ absurd (Option.some-ne-none q (rw (search_child, y, z) at e))
    | inr m ↦
        let (a, b) = search-none parent pid ps (rw (search_child, y, m) at e) in
        ((ap₂ (λ c d. c && d) y m, a), rw (search_child, y, m) refl)
  ]
]

unlink-middle :
    (before : List Process) (p : Process) (behind : List Process)
    → Distinct (before ++ (p ∷ behind))
    → unlink p.addr (before ++ (p ∷ behind)) ≡ before ++ behind
unfolding unlink
unlink-middle [] p behind d = rw (unlink, ==_self p.addr)
unlink-middle (q ∷ before) p behind d =
    rw (unlink, ==_ne q.addr p.addr (apart before d.0))
      (ap (q ∷◌) (unlink-middle before p behind d.1))
  where
    apart : (xs : List Process) → Elsewhere q.addr (xs ++ (p ∷ behind)) → q.addr ≢ p.addr
    apart [] e at = e.0 (sym at)
    apart (x ∷ xs) e at = apart xs e.1 at

-- `process_wait_child` reaps the first child that is asked for and is a zombie: it returns its pid
-- and its status and takes it, and no other process, off the table. If there is none the table stays
-- as it is, and the result says whether a child that is asked for is running. The processes are at
-- different addresses.
pub wait_child-Found :
    (parent : ℕ) (pid : ℤ) (ps : List Process)
    → Distinct ps
    → ((p : Process) × (f : Found parent pid ps p) × (wait_child parent pid ps
          ≡ (reaped p.pid p.exit_status, f.before ++ f.behind)))
      ⊎ (NoneDead parent pid ps
          × (wait_child parent pid ps
              ≡ ((if any_wanted parent pid ps then still_running else no_child), ps)))
unfolding wait_child
wait_child-Found parent pid ps d = elim (Option-cases (search_child parent pid ps).1) [
  | inl e ↦ let (a, b) = search-none parent pid ps e in inr (a, rw (wait_child, e, b) refl)
  | inr (p, e) ↦
      let f : Found parent pid ps p = search-Found parent pid ps p e in
      inl (
        p,
        f,
        rw (wait_child, e)
            (ap (λ qs. (reaped p.pid p.exit_status, qs))
              (ap (unlink p.addr) f.split
                ∙ unlink-middle f.before p f.behind (subst Distinct f.split d))),
      )
]
