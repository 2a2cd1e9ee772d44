-- ===== src/Process/Reap.antt =====
-- A process that ends by `process_terminate` of src/exec/process.c is the one that
-- `process_wait_child` of its parent gets.
use utopia.Base.{
  ℕ, suc, ◌<◌, ◌≡◌, refl, sym, ap, ◌∙◌, ◌≢◌, ◌⊎◌, inl, inr, Bool, true, false, not, ◌&&◌, ◌||◌,
  some, List, [], ◌∷◌, arith, ◌==◌, if◌then◌else◌, ==_self, ==_ne, Bool-cases, pos,
}
use utopia.Process.{
  Process, reaped, wanted, search_child, close_files, has_init, adopt, sweep, has_parent,
  make_zombie, unlink, replace, retire, terminate, wait_child,
}

abbrev pub Others : Process → List Process → Type 0
Others q [] = Unit {0}
Others q (p ∷ ps) = (p.addr ≢ q.addr) × (p.pid ≢ q.pid) × Others q ps

-- The table holds `q`, and no other process has its address or its pid.
abbrev pub Holds : Process → List Process → Type 0
Holds q [] = ⊥
Holds q (p ∷ ps) = ((p ≡ q) × Others q ps) ⊎ ((p.addr ≢ q.addr) × (p.pid ≢ q.pid) × Holds q ps)

-- What is in the table when `process_terminate` looks for the parent.
unfoldable pub survivors : Process → List Process → List Process
survivors proc ps =
    let q = close_files proc in
    let table = replace proc.addr q ps in
    sweep proc.addr (adopt (has_init proc.addr table) proc.addr proc.pid table)

Others-replace :
    (q : Process) (ps : List Process) → Others q ps → Others q (replace q.addr (close_files q) ps)
unfolding replace
Others-replace q [] o = tt
Others-replace q (p ∷ ps) o = rw (==_ne p.addr q.addr o.0) (o.0, o.1, Others-replace q ps o.2)

Holds-replace :
    (q : Process) (ps : List Process)
    → Holds q ps
    → Holds (close_files q) (replace q.addr (close_files q) ps)
unfolding replace close_files
Holds-replace q [] h = h
Holds-replace q (p ∷ ps) (inl (e, o)) =
    inl (rw (ap (λ r. r.addr) e, ==_self q.addr) refl, Others-replace q ps o)
Holds-replace q (p ∷ ps) (inr (a, b, h)) =
    rw (==_ne p.addr q.addr a) (inr (a, b, Holds-replace q ps h))

Others-adopt :
    (init : Bool) (q : Process) (ps : List Process)
    → Others q ps
    → Others q (adopt init q.addr q.pid ps)
unfolding adopt
Others-adopt init q [] o = tt
Others-adopt init q (p ∷ ps) o = elim (Bool-cases (p.addr == q.addr || not (p.ppid == q.pid))) [
  | inl y ↦ rw y (o.0, o.1, Others-adopt init q ps o.2)
  | inr n ↦ rw n (o.0, o.1, Others-adopt init q ps o.2)
]

Holds-adopt :
    (init : Bool) (q : Process) (ps : List Process)
    → Holds q ps
    → Holds q (adopt init q.addr q.pid ps)
unfolding adopt
Holds-adopt init q [] h = h
Holds-adopt init q (p ∷ ps) (inl (e, o)) =
    let self : (p.addr == q.addr || not (p.ppid == q.pid)) ≡ true =
      ground (arith, ap (λ r. r.addr) e) in
    inl (rw self e, Others-adopt init q ps o)
Holds-adopt init q (p ∷ ps) (inr (a, b, h)) =
    elim (Bool-cases (p.addr == q.addr || not (p.ppid == q.pid))) [
      | inl y ↦ rw y (inr (a, b, Holds-adopt init q ps h))
      | inr n ↦ rw n (inr (a, b, Holds-adopt init q ps h))
    ]

Others-sweep : (q : Process) (ps : List Process) → Others q ps → Others q (sweep q.addr ps)
unfolding sweep
Others-sweep q [] o = tt
Others-sweep q (p ∷ ps) o = elim (Bool-cases (not (p.addr == q.addr) && p.zombie && p.ppid == 0)) [
  | inl y ↦ rw (sweep, y) (Others-sweep q ps o.2)
  | inr n ↦ rw (sweep, n) (o.0, o.1, Others-sweep q ps o.2)
]

Holds-sweep : (q : Process) (ps : List Process) → Holds q ps → Holds q (sweep q.addr ps)
unfolding sweep
Holds-sweep q [] h = h
Holds-sweep q (p ∷ ps) (inl (e, o)) =
    let kept : (not (p.addr == q.addr) && p.zombie && p.ppid == 0) ≡ false =
      ground (arith, ap (λ r. r.addr) e) in
    rw (sweep, kept) (inl (e, Others-sweep q ps o))
Holds-sweep q (p ∷ ps) (inr (a, b, h)) =
    elim (Bool-cases (not (p.addr == q.addr) && p.zombie && p.ppid == 0)) [
      | inl y ↦ rw (sweep, y) (Holds-sweep q ps h)
      | inr n ↦ rw (sweep, n) (inr (a, b, Holds-sweep q ps h))
    ]

replace-Others : (q r : Process) (ps : List Process) → Others q ps → replace q.addr r ps ≡ ps
unfolding replace
replace-Others q r [] o = refl
replace-Others q r (p ∷ ps) o = rw (==_ne p.addr q.addr o.0) (ap (p ∷◌) (replace-Others q r ps o.2))

-- The parent stays in the table while it is alive.
has_parent-replace :
    (k : ℕ) (q : Process) (ps : List Process)
    → Holds q ps
    → has_parent k (replace q.addr (close_files q) ps) ≡ has_parent k ps
unfolding has_parent replace close_files
has_parent-replace k q [] h = absurd h
has_parent-replace k q (p ∷ ps) (inl (e, o)) =
    rw (ap (λ r. r.addr) e, ==_self q.addr, replace-Others q (close_files q) ps o)
      (ap (λ r. (r.pid == k && not r.zombie) || has_parent k ps) (sym e))
has_parent-replace k q (p ∷ ps) (inr (a, b, h)) =
    rw (==_ne p.addr q.addr a) (ap ((p.pid == k && not p.zombie) ||◌) (has_parent-replace k q ps h))

has_parent-adopt :
    (k : ℕ) (init : Bool) (a pid : ℕ) (ps : List Process)
    → has_parent k (adopt init a pid ps) ≡ has_parent k ps
unfolding has_parent adopt
has_parent-adopt k init a pid [] = refl
has_parent-adopt k init a pid (p ∷ ps) = elim (Bool-cases (p.addr == a || not (p.ppid == pid))) [
  | inl y ↦ rw (y, has_parent-adopt k init a pid ps)
  | inr n ↦ rw (n, has_parent-adopt k init a pid ps)
]

has_parent-sweep :
    (k a : ℕ) (ps : List Process) → has_parent k ps ≡ true → has_parent k (sweep a ps) ≡ true
unfolding has_parent sweep
has_parent-sweep k a [] h = h
has_parent-sweep k a (p ∷ ps) h = elim (Bool-cases (not (p.addr == a) && p.zombie && p.ppid == 0)) [
  | inl y ↦ rw (sweep, y) (has_parent-sweep k a ps (ground arith))
  | inr n ↦ rw (sweep, n) (ground (arith, has_parent-sweep k a ps))
]

-- Among the children of its parent the search finds `q` by its pid.
search-Holds :
    (q : Process) (n : ℕ) (ps : List Process)
    → q.pid ≡ suc n
    → Holds q ps
    → (search_child q.ppid (pos (suc n)) (make_zombie q ps)).1 ≡ some (record q { zombie = true })
unfolding search_child make_zombie wanted
search-Holds q n [] at h = absurd h
search-Holds q n (p ∷ ps) at (inl (e, o)) =
    let here : (p.addr == q.addr) ≡ true = ground (arith, ap (λ r. r.addr) e) in
    let child : (p.ppid == q.ppid && p.pid == suc n) ≡ true =
      ground (arith, ap (λ r. r.ppid) e, ap (λ r. r.pid) e) in
    rw (make_zombie, here, search_child, child)
      (ap {A = Process} (λ r. some (record r { zombie = true })) e)
search-Holds q n (p ∷ ps) at (inr (a, b, h)) =
    let other : (p.ppid == q.ppid && p.pid == suc n) ≡ false = ground arith in
    rw (make_zombie, ==_ne p.addr q.addr a, search_child, other) (search-Holds q n ps at h)

unlink-make_zombie :
    (q : Process) (ps : List Process) → unlink q.addr (make_zombie q ps) ≡ unlink q.addr ps
unfolding unlink make_zombie
unlink-make_zombie q [] = refl
unlink-make_zombie q (p ∷ ps) = elim (Bool-cases (p.addr == q.addr)) [
  | inl y ↦ rw (make_zombie, y, unlink, y)
  | inr n ↦ rw (make_zombie, n, unlink, n) (ap (p ∷◌) (unlink-make_zombie q ps))
]

-- A process that ends while its parent lives is reaped by the parent's `process_wait_child` for its
-- pid: that returns its pid and its exit status, and takes it out of the table. Its address and its
-- pid are its own, and the pids of the process and its parent are not 0.
pub wait_child-terminate :
    (proc : Process) (n : ℕ) (ps : List Process)
    → Holds proc ps
    → proc.pid ≡ suc n
    → 0 < proc.ppid
    → has_parent proc.ppid ps ≡ true
    → wait_child proc.ppid (pos proc.pid) (terminate proc ps)
      ≡ (reaped proc.pid proc.exit_status, unlink proc.addr (survivors proc ps))
unfolding wait_child terminate retire close_files survivors
wait_child-terminate proc n ps h at child lives =
    let q : Process = close_files proc in
    let table : List Process = replace proc.addr q ps in
    let init : Bool = has_init proc.addr table in
    let rest : List Process = sweep proc.addr (adopt init proc.addr proc.pid table) in
    let holds : Holds q rest =
      Holds-sweep q (adopt init proc.addr proc.pid table)
        (Holds-adopt init q table (Holds-replace proc ps h)) in
    let parent : has_parent proc.ppid rest ≡ true =
      has_parent-sweep proc.ppid proc.addr (adopt init proc.addr proc.pid table) (
        has_parent-adopt proc.ppid init proc.addr proc.pid table
        ∙ has_parent-replace proc.ppid proc ps h
        ∙ lives) in
    let stays : (not (proc.ppid == 0) && has_parent proc.ppid rest) ≡ true = ground arith in
    let found : (search_child proc.ppid (pos proc.pid) (make_zombie q rest)).1
        ≡ some (record q { zombie = true }) =
      ap (λ k. (search_child proc.ppid (pos k) (make_zombie q rest)).1) at
      ∙ search-Holds q n rest at holds in
    let ended : terminate proc ps ≡ make_zombie q rest =
      ap (λ b. if b then make_zombie q rest else unlink proc.addr rest) stays in
    ap (wait_child proc.ppid (pos proc.pid)) ended
    ∙ rw (wait_child, found)
        (ap (λ l. (reaped proc.pid proc.exit_status, l)) (unlink-make_zombie q rest))
