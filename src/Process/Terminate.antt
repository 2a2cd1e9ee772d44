-- ===== src/Process/Terminate.antt =====
-- What `process_terminate` of src/exec/process.c leaves in the table.
use utopia.Base.{
  ◌∙◌, ◌⊎◌, sym, subst, ℕ, ◌<◌, ◌≡◌, refl, sym, ap, ◌∙◌, subst, ◌⊎◌, ◌≢◌, inl, inr, Bool, true,
  false, not, ◌&&◌, List, arith, ◌==◌, if◌then◌else◌, Bool-cases,
}
use utopia.Process.Members.{
  Has, Living, moved, swept, Has-replace, replace-Has, Has-adopt, adopt-Has, Has-sweep, sweep-Has,
  Has-make_zombie, make_zombie-Has, Has-unlink, unlink-Has, has_init-Living, Living-has_init,
  moved_same, moved_child, moved_other,
}
use utopia.Process.{
  Process, close_files, has_init, adopt, sweep, has_parent, make_zombie, unlink, replace, retire,
  terminate,
}

-- Every zombie that is a child neither of the process at `a`, with the pid `pid`, nor of nobody has a
-- living parent other than it.
unfoldable pub Awaited : ℕ → ℕ → List Process → Type 0
Awaited a pid ps =
    (z : Process)
    → Has z ps
    → z.addr ≢ a
    → z.zombie ≡ true
    → z.ppid ≢ pid
    → z.ppid ≢ 0
    → Living a z.ppid ps

-- What the end of `proc` leaves of the table `ps`.
pub record Settled (proc : Process) (ps after : List Process) : Type 0 where
  -- no other process is its child
  pub childless : (p : Process) → Has p after → p.addr ≢ proc.addr → p.ppid ≢ proc.pid
  -- its children went to init, if that lives
  pub adopted :
      (p : Process)
      → Has p ps
      → p.addr ≢ proc.addr
      → p.ppid ≡ proc.pid
      → Living proc.addr 1 ps
      → Has (record p { ppid = 1 }) after
  -- or to nobody, where those that live stay
  pub orphaned :
      (p : Process)
      → Has p ps
      → p.addr ≢ proc.addr
      → p.ppid ≡ proc.pid
      → ¬ Living proc.addr 1 ps
      → p.zombie ≡ false
      → Has (record p { ppid = 0 }) after
  -- the other processes stay, but for zombies of nobody
  pub kept :
      (p : Process)
      → Has p ps
      → p.addr ≢ proc.addr
      → p.ppid ≢ proc.pid
      → (p.zombie ≡ false) ⊎ (0 < p.ppid)
      → Has p after
  -- every other zombie has a living parent
  pub awaited :
      (z : Process)
      → Has z after
      → z.addr ≢ proc.addr
      → z.zombie ≡ true
      → Living proc.addr z.ppid after

module _ (proc : Process) (ps : List Process) where
  abbrev table : List Process
  table = replace proc.addr (close_files proc) ps

  abbrev init : Bool
  init = has_init proc.addr table

  abbrev rest : List Process
  rest = sweep proc.addr (adopt init proc.addr proc.pid table)

  -- The table at the end is `rest` with the process made a zombie or taken out.
  ended :
      (terminate proc ps ≡ make_zombie (close_files proc) rest)
      ⊎ (terminate proc ps ≡ unlink proc.addr rest)
  unfolding terminate retire close_files
  ended = elim (Bool-cases (not (proc.ppid == 0) && has_parent proc.ppid rest)) [
    | inl y ↦ inl (rw y refl)
    | inr n ↦ inr (rw n refl)
  ]

  abbrev after : List Process
  after = terminate proc ps

  into : (p : Process) → p.addr ≢ proc.addr → Has p rest → Has p after
  unfolding close_files
  into p ne h = elim ended [
    | inl e ↦ subst (Has p) (sym e) (Has-make_zombie (close_files proc) p rest ne h)
    | inr e ↦ subst (Has p) (sym e) (Has-unlink proc.addr p rest ne h)
  ]

  from : (p : Process) → p.addr ≢ proc.addr → Has p after → Has p rest
  unfolding close_files
  from p ne h = elim ended [
    | inl e ↦ make_zombie-Has (close_files proc) p rest ne (subst (Has p) e h)
    | inr e ↦ unlink-Has proc.addr p rest (subst (Has p) e h)
  ]

  -- What becomes of another process that `sweep` does not free.
  fate :
      (p : Process)
      → p.addr ≢ proc.addr
      → Has p ps
      → swept proc.addr (moved init proc.addr proc.pid p) ≡ false
      → Has (moved init proc.addr proc.pid p) after
  fate p ne h n =
      into (moved init proc.addr proc.pid p)
        (λ e. ne (sym (moved_same init proc.addr proc.pid p).0 ∙ e))
        (Has-sweep proc.addr _ _ n (
          Has-adopt init proc.addr proc.pid p table
            (Has-replace proc.addr (close_files proc) p ps ne h)))

  in_table : (p : Process) → p.addr ≢ proc.addr → Has p table → Has p ps
  unfolding close_files
  in_table p ne h = replace-Has proc.addr (close_files proc) p ps refl ne h

  init-Living : init ≡ true → Living proc.addr 1 ps
  init-Living i =
      let (q, h, ne, pid, z) = has_init-Living proc.addr table i in (q, in_table q ne h, ne, pid, z)

  Living-init : Living proc.addr 1 ps → init ≡ true
  Living-init (q, h, ne, pid, z) =
      Living-has_init proc.addr q table (Has-replace proc.addr (close_files proc) q ps ne h) ne pid
        z

  -- Who lives still does.
  lives : (pid : ℕ) → Living proc.addr pid ps → Living proc.addr pid after
  lives pid (q, h, ne, e, z) =
      let (same_addr, same_pid, same_zombie) = moved_same init proc.addr proc.pid q in
      let alive : (moved init proc.addr proc.pid q).zombie ≡ false = same_zombie ∙ z in
      (
        moved init proc.addr proc.pid q,
        fate q ne h (not_swept (moved init proc.addr proc.pid q) alive),
        (λ k. ne (sym same_addr ∙ k)),
        same_pid ∙ e,
        alive,
      )
    where
      not_swept : (p : Process) → p.zombie ≡ false → swept proc.addr p ≡ false
      not_swept p k = ground arith

  zombie-Living :
      Awaited proc.addr proc.pid ps
      → (z : Process) → Has z after
      → z.addr ≢ proc.addr
      → z.zombie ≡ true
      → Living proc.addr z.ppid after
  unfolding Awaited
  zombie-Living w z h ne dead =
      let (there, n) = sweep-Has proc.addr z (adopt init proc.addr proc.pid table) (from z ne h) in
      let (p, in_p, e) = adopt-Has init proc.addr proc.pid z table there in
      let (same_addr, same_pid, same_zombie) = moved_same init proc.addr proc.pid p in
      let ne_p : p.addr ≢ proc.addr = λ k. ne (ap (λ (x : Process). x.addr) e ∙ same_addr ∙ k) in
      let parent : z.ppid ≢ 0 = λ k. ground (arith, n, dead, ne) in
      lives z.ppid (elim (Bool-cases (p.ppid == proc.pid)) [
        | inr o ↦
            let other : p.ppid ≢ proc.pid = λ k. ground arith in
            let zp : z ≡ p = e ∙ moved_other init proc.addr proc.pid p other in
            subst (λ (x : Process). Living proc.addr x.ppid ps) (sym zp)
              (w p (in_table p ne_p in_p) ne_p (ap (λ (x : Process). x.zombie) (sym zp) ∙ dead)
                other (λ k. parent (ap (λ (x : Process). x.ppid) zp ∙ k)))
        | inl y ↦
            let own : p.ppid ≡ proc.pid = ground arith in
            let zp = e ∙ moved_child init proc.addr proc.pid p ne_p own in
            let to : z.ppid ≡ (if init then 1 else 0) = ap (λ (x : Process). x.ppid) zp in
            elim (Bool-cases init) [
              | inl i ↦
                  let one : z.ppid ≡ 1 = to ∙ rw i refl in
                  subst (λ k. Living proc.addr k ps) (sym one) (init-Living i)
              | inr i ↦ absurd (parent (to ∙ rw i refl))
            ]
      ])

  no_child : 1 < proc.pid → (p : Process) → Has p after → p.addr ≢ proc.addr → p.ppid ≢ proc.pid
  no_child l z h ne k =
      let (there, n) = sweep-Has proc.addr z (adopt init proc.addr proc.pid table) (from z ne h) in
      let (p, in_p, e) = adopt-Has init proc.addr proc.pid z table there in
      let (same_addr, same_pid, same_zombie) = moved_same init proc.addr proc.pid p in
      let ne_p : p.addr ≢ proc.addr = λ q. ne (ap (λ (x : Process). x.addr) e ∙ same_addr ∙ q) in
      elim (Bool-cases (p.ppid == proc.pid)) [
        | inr o ↦
            let other : p.ppid ≢ proc.pid = λ q. ground arith in
            other (
              sym (ap (λ (x : Process). x.ppid) (e ∙ moved_other init proc.addr proc.pid p other))
              ∙ k)
        | inl y ↦
            let own : p.ppid ≡ proc.pid = ground arith in
            let to : z.ppid ≡ (if init then 1 else 0) =
              ap (λ (x : Process). x.ppid) (e ∙ moved_child init proc.addr proc.pid p ne_p own) in
            elim (Bool-cases init) [
              | inl i ↦ let one : z.ppid ≡ 1 = to ∙ rw i refl in omega (arith, one, k, l)
              | inr i ↦
                  let none_left : z.ppid ≡ 0 = to ∙ rw i refl in omega (arith, none_left, k, l)
            ]
      ]

  -- After `process_terminate` of a process other than init no other process is its child: its children
  -- went to init where that lives, and else to nobody, the zombies among them being freed. The other
  -- processes stay, but for zombies of nobody, and every zombie other than the process itself has a
  -- living parent, provided that before the call each with a parent other than the process had.
  pub terminate-Settled : 1 < proc.pid → Awaited proc.addr proc.pid ps → Settled proc ps after
  terminate-Settled l w = record {
    childless = no_child l;
    adopted = λ p h ne e i.
        let to : moved init proc.addr proc.pid p ≡ record p { ppid = 1 } =
          moved_child init proc.addr proc.pid p ne e ∙ rw (Living-init i) refl in
        subst (λ x. Has x after) to
          (fate p ne h
            (ap (swept proc.addr) to ∙ with_parent (record p { ppid = 1 }) (omega arith)));
    orphaned = λ p h ne e i z.
        let none_lives : init ≡ false = elim (Bool-cases init) [
          | inl y ↦ absurd (i (init-Living y))
          | inr n ↦ n
        ] in
        let to : moved init proc.addr proc.pid p ≡ record p { ppid = 0 } =
          moved_child init proc.addr proc.pid p ne e ∙ rw none_lives refl in
        subst (λ x. Has x after) to
          (fate p ne h (ap (swept proc.addr) to ∙ alive (record p { ppid = 0 }) z));
    kept = λ p h ne e r.
        let to = moved_other init proc.addr proc.pid p e in
        subst (λ x. Has x after) to
          (fate p ne h
            (ap (swept proc.addr) to ∙ elim r [ inl z ↦ alive p z | inr q ↦ with_parent p q ]));
    awaited = zombie-Living w;
  }
    where
      alive : (p : Process) → p.zombie ≡ false → swept proc.addr p ≡ false
      alive p k = ground arith

      with_parent : (p : Process) → 0 < p.ppid → swept proc.addr p ≡ false
      with_parent p k = ground arith
