-- ===== src/Process/Members.antt =====
-- Which processes are in the table through the steps of process_terminate of src/exec/process.c.
use utopia.Base.{
  ℕ, ◌≡◌, refl, sym, ap, ◌∙◌, subst, ◌≢◌, ◌⊎◌, inl, inr, Bool, true, false, not, ◌&&◌, ◌||◌, List,
  [], ◌∷◌, arith, ◌==◌, if◌then◌else◌, Bool-cases,
}
use utopia.Process.{Process, has_init, adopt, sweep, make_zombie, unlink, replace}

-- The process is in the table.
abbrev pub Has : Process → List Process → Type 0
Has p [] = ⊥
Has p (q ∷ ps) = (p ≡ q) ⊎ Has p ps

-- A process that lives, other than the one at `a`, has the pid.
abbrev pub Living : ℕ → ℕ → List Process → Type 0
Living a pid ps = (q : Process) × Has q ps × (q.addr ≢ a) × (q.pid ≡ pid) × (q.zombie ≡ false)

Has-tail :
    (p x : Process) (ps qs : List Process) → (Has p ps → Has p qs) → Has p (x ∷ ps) → Has p (x ∷ qs)
Has-tail p x ps qs f (inl e) = inl e
Has-tail p x ps qs f (inr h) = inr (f h)

-- What is in the table when the process at its head is not the one meant.
Has-next :
    (a : ℕ) (p x : Process) (ps : List Process)
    → (x.addr == a) ≡ true
    → p.addr ≢ a
    → Has p (x ∷ ps)
    → Has p ps
Has-next a p x ps y ne (inl e) =
    let z = ap (λ (w : Process). w.addr) e in absurd (ground (arith, z))
Has-next a p x ps y ne (inr h) = h

-- `p` after `adopt`.
abbrev pub moved : Bool → ℕ → ℕ → Process → Process
moved init a pid p =
    if p.addr == a || not (p.ppid == pid) then p else record p { ppid = if init then 1 else 0 }

-- Whether `sweep` frees `p`.
abbrev pub swept : ℕ → Process → Bool
swept a p = not (p.addr == a) && p.zombie && p.ppid == 0

pub Has-replace :
    (a : ℕ) (q p : Process) (ps : List Process) → p.addr ≢ a → Has p ps → Has p (replace a q ps)
unfolding replace
Has-replace a q p [] ne h = h
Has-replace a q p (x ∷ ps) ne (inl e) =
    let n : (x.addr == a) ≡ false = let z = ap (λ (y : Process). y.addr) e in ground arith in
    inl (rw n e)
Has-replace a q p (x ∷ ps) ne (inr h) = inr (Has-replace a q p ps ne h)

pub replace-Has :
    (a : ℕ) (q p : Process) (ps : List Process)
    → q.addr ≡ a
    → p.addr ≢ a
    → Has p (replace a q ps)
    → Has p ps
unfolding replace
replace-Has a q p [] at ne h = h
replace-Has a q p (x ∷ ps) at ne (inr h) = inr (replace-Has a q p ps at ne h)
replace-Has a q p (x ∷ ps) at ne (inl e) = elim (Bool-cases (x.addr == a)) [
  | inl y ↦ let z : p ≡ q = e ∙ rw y refl in absurd (ne (ap (λ (w : Process). w.addr) z ∙ at))
  | inr n ↦ inl (e ∙ rw n refl)
]

pub Has-adopt :
    (init : Bool) (a pid : ℕ) (p : Process) (ps : List Process)
    → Has p ps
    → Has (moved init a pid p) (adopt init a pid ps)
unfolding adopt
Has-adopt init a pid p [] h = h
Has-adopt init a pid p (x ∷ ps) (inl e) = inl (ap (moved init a pid) e)
Has-adopt init a pid p (x ∷ ps) (inr h) = inr (Has-adopt init a pid p ps h)

pub adopt-Has :
    (init : Bool) (a pid : ℕ) (z : Process) (ps : List Process)
    → Has z (adopt init a pid ps)
    → (p : Process) × Has p ps × (z ≡ moved init a pid p)
unfolding adopt
adopt-Has init a pid z [] h = absurd h
adopt-Has init a pid z (x ∷ ps) (inl e) = (x, inl refl, e)
adopt-Has init a pid z (x ∷ ps) (inr h) =
    let (p, k, e) = adopt-Has init a pid z ps h in (p, inr k, e)

pub Has-sweep :
    (a : ℕ) (p : Process) (ps : List Process) → swept a p ≡ false → Has p ps → Has p (sweep a ps)
unfolding sweep
Has-sweep a p [] n h = h
Has-sweep a p (x ∷ ps) n (inl e) =
    let m : swept a x ≡ false = ap (swept a) (sym e) ∙ n in rw (m, sweep) (inl e)
Has-sweep a p (x ∷ ps) n (inr h) = elim (Bool-cases (swept a x)) [
  | inl y ↦ rw (y, sweep) (Has-sweep a p ps n h)
  | inr m ↦ rw (m, sweep) (inr (Has-sweep a p ps n h))
]

pub sweep-Has :
    (a : ℕ) (p : Process) (ps : List Process) → Has p (sweep a ps) → Has p ps × (swept a p ≡ false)
unfolding sweep
sweep-Has a p [] h = absurd h
sweep-Has a p (x ∷ ps) h = elim (Bool-cases (swept a x)) [
  | inl y ↦ let (k, n) = sweep-Has a p ps (subst (Has p) (freed y) h) in (inr k, n)
  | inr m ↦ here m (λ k. sweep-Has a p ps k) (subst (Has p) (stays m) h)
]
  where
    freed : swept a x ≡ true → sweep a (x ∷ ps) ≡ sweep a ps
    freed y = rw (y, sweep) refl

    stays : swept a x ≡ false → sweep a (x ∷ ps) ≡ x ∷ sweep a ps
    stays m = rw (m, sweep) refl

    here :
        swept a x ≡ false
        → (Has p (sweep a ps) → Has p ps × (swept a p ≡ false))
        → Has p (x ∷ sweep a ps)
        → Has p (x ∷ ps) × (swept a p ≡ false)
    here m f (inl e) = (inl e, ap (swept a) e ∙ m)
    here m f (inr k) = let (l, n) = f k in (inr l, n)

pub Has-make_zombie :
    (proc p : Process) (ps : List Process)
    → p.addr ≢ proc.addr
    → Has p ps
    → Has p (make_zombie proc ps)
unfolding make_zombie
Has-make_zombie proc p [] ne h = h
Has-make_zombie proc p (x ∷ ps) ne h = elim (Bool-cases (x.addr == proc.addr)) [
  | inl y ↦ rw (y, make_zombie) (inr (Has-next proc.addr p x ps y ne h))
  | inr n ↦
      rw (n, make_zombie)
        (Has-tail p x ps (make_zombie proc ps) (λ k. Has-make_zombie proc p ps ne k) h)
]

pub make_zombie-Has :
    (proc p : Process) (ps : List Process)
    → p.addr ≢ proc.addr
    → Has p (make_zombie proc ps)
    → Has p ps
unfolding make_zombie
make_zombie-Has proc p [] ne h = h
make_zombie-Has proc p (x ∷ ps) ne h = elim (Bool-cases (x.addr == proc.addr)) [
  | inl y ↦
      inr (Has-next proc.addr p (record x { zombie = true }) ps y ne (subst (Has p) (here y) h))
  | inr n ↦
      Has-tail p x (make_zombie proc ps) ps (λ k. make_zombie-Has proc p ps ne k)
        (subst (Has p) (later n) h)
]
  where
    here :
        (x.addr == proc.addr) ≡ true → make_zombie proc (x ∷ ps) ≡ record x { zombie = true } ∷ ps
    here y = rw (y, make_zombie) refl

    later : (x.addr == proc.addr) ≡ false → make_zombie proc (x ∷ ps) ≡ x ∷ make_zombie proc ps
    later n = rw (n, make_zombie) refl

pub Has-unlink :
    (a : ℕ) (p : Process) (ps : List Process) → p.addr ≢ a → Has p ps → Has p (unlink a ps)
unfolding unlink
Has-unlink a p [] ne h = h
Has-unlink a p (x ∷ ps) ne h = elim (Bool-cases (x.addr == a)) [
  | inl y ↦ rw (y, unlink) (Has-next a p x ps y ne h)
  | inr n ↦ rw (n, unlink) (Has-tail p x ps (unlink a ps) (λ k. Has-unlink a p ps ne k) h)
]

pub unlink-Has : (a : ℕ) (p : Process) (ps : List Process) → Has p (unlink a ps) → Has p ps
unfolding unlink
unlink-Has a p [] h = h
unlink-Has a p (x ∷ ps) h = elim (Bool-cases (x.addr == a)) [
  | inl y ↦ inr (subst (Has p) (here y) h)
  | inr n ↦ Has-tail p x (unlink a ps) ps (λ k. unlink-Has a p ps k) (subst (Has p) (later n) h)
]
  where
    here : (x.addr == a) ≡ true → unlink a (x ∷ ps) ≡ ps
    here y = rw (y, unlink) refl

    later : (x.addr == a) ≡ false → unlink a (x ∷ ps) ≡ x ∷ unlink a ps
    later n = rw (n, unlink) refl

-- `has_init` says whether a process with the pid 1 lives.
pub has_init-Living : (a : ℕ) (ps : List Process) → has_init a ps ≡ true → Living a 1 ps
unfolding has_init
has_init-Living a [] h = let z : false ≡ true = h in absurd (cc)
has_init-Living a (x ∷ ps) h = elim (Bool-cases (has_init a ps)) [
  | inl y ↦ let (q, k, r, s, z) = has_init-Living a ps y in (q, inr k, r, s, z)
  | inr n ↦ (x, inl refl, (λ e. ground arith), ground arith, ground arith)
]

pub Living-has_init :
    (a : ℕ) (q : Process) (ps : List Process)
    → Has q ps
    → q.addr ≢ a
    → q.pid ≡ 1
    → q.zombie ≡ false
    → has_init a ps ≡ true
unfolding has_init
Living-has_init a q [] h ne p z = absurd h
Living-has_init a q (x ∷ ps) (inr k) ne p z =
    let i = Living-has_init a q ps k ne p z in ground (arith, i)
Living-has_init a q (x ∷ ps) (inl e) ne p z =
    let ax = ap (λ (w : Process). w.addr) e in
    let px = ap (λ (w : Process). w.pid) e in
    let zx = ap (λ (w : Process). w.zombie) e in ground arith

-- `adopt` changes nothing but the parent.
pub moved_same :
    (init : Bool) (a pid : ℕ) (p : Process)
    → ((moved init a pid p).addr ≡ p.addr)
      × ((moved init a pid p).pid ≡ p.pid)
      × ((moved init a pid p).zombie ≡ p.zombie)
moved_same init a pid p = elim (Bool-cases (p.addr == a || not (p.ppid == pid))) [
  | inl y ↦ rw y (refl, refl, refl)
  | inr n ↦ rw n (refl, refl, refl)
]

pub moved_child :
    (init : Bool) (a pid : ℕ) (p : Process)
    → p.addr ≢ a
    → p.ppid ≡ pid
    → moved init a pid p ≡ record p { ppid = if init then 1 else 0 }
moved_child init a pid p ne e =
    let n : (p.addr == a || not (p.ppid == pid)) ≡ false = ground arith in rw n refl

pub moved_other : (init : Bool) (a pid : ℕ) (p : Process) → p.ppid ≢ pid → moved init a pid p ≡ p
moved_other init a pid p ne =
    let y : (p.addr == a || not (p.ppid == pid)) ≡ true = ground arith in rw y refl
