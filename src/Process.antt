-- ===== src/Process.antt =====
-- The table of processes of src/exec/process.c: process_terminate and process_wait_child. A process
-- is known by its address, as the source compares pointers. What a process owns beyond its open
-- files (its page table, its pages, its thread) is left out.
pub mod Wait
pub mod Members
pub mod Terminate
pub mod Reap
mod Tests
use utopia.Base.{
  ℕ, zero, suc, Bool, true, false, not, ◌&&◌, ◌||◌, Option, none, some, List, ◌∷◌, map, ◌==◌,
  if◌then◌else◌, ℤ, pos, negsuc, [],
}

-- `process_t`
pub record Process : Type 0 where
  pub addr : ℕ
  pub pid : ℕ
  pub ppid : ℕ
  pub zombie : Bool
  pub exit_status : ℤ
  pub used : List Bool

-- What `process_wait_child` returns: -1, 0, or a pid with the status of that process.
pub data Waited : Type 0 where
  no_child : Waited
  still_running : Waited
  reaped : ℕ → ℤ → Waited

-- `p` is a child that the call asks for; a `pid` of 0 or less asks for any.
pub wanted : ℕ → ℤ → Process → Bool
wanted parent (negsuc n) p = p.ppid == parent
wanted parent (pos zero) p = p.ppid == parent
wanted parent (pos (suc n)) p = p.ppid == parent && p.pid == suc n

-- The loop: whether there is such a child, and the first one that is a zombie.
pub search_child : ℕ → ℤ → List Process → Bool × Option Process
unfolding wanted
search_child parent pid [] = (false, none)
search_child parent pid (p ∷ ps) = elim (wanted parent pid p) [
  | false ↦ search_child parent pid ps
  | true ↦ elim p.zombie [ true ↦ (true, some p) | false ↦ (true, (search_child parent pid ps).1) ]
]

-- The process at `a` leaves the list.
pub unlink : ℕ → List Process → List Process
unlink a [] = []
unlink a (p ∷ ps) = elim (p.addr == a) [ true ↦ ps | false ↦ p ∷ unlink a ps ]

-- `process_wait_child` of the process with the pid `parent`.
pub wait_child : ℕ → ℤ → List Process → Waited × List Process
unfolding search_child unlink
wait_child parent pid ps = elim (search_child parent pid ps).1 [
  | some p ↦ (reaped p.pid p.exit_status, unlink p.addr ps)
  | none ↦ (if (search_child parent pid ps).0 then still_running else no_child, ps)
]

-- The files that `process_terminate` closes.
pub close_files : Process → Process
close_files p = record p { used = map (λ u. false) p.used }

-- Whether the process of the pid 1 is there and can adopt.
pub has_init : ℕ → List Process → Bool
has_init a [] = false
has_init a (p ∷ ps) = has_init a ps || (p.pid == 1 && not p.zombie && not (p.addr == a))

-- The children of the process at `a` with the pid `pid` go to init, or to nobody.
pub adopt : Bool → ℕ → ℕ → List Process → List Process
adopt init a pid [] = []
adopt init a pid (p ∷ ps) =
    (if p.addr == a || not (p.ppid == pid) then p else record p { ppid = if init then 1 else 0 })
    ∷ adopt init a pid ps

-- The zombies that nobody will wait for are freed.
pub sweep : ℕ → List Process → List Process
sweep a [] = []
sweep a (p ∷ ps) = elim (not (p.addr == a) && p.zombie && p.ppid == 0) [
  | true ↦ sweep a ps
  | false ↦ p ∷ sweep a ps
]

pub has_parent : ℕ → List Process → Bool
has_parent ppid [] = false
has_parent ppid (p ∷ ps) = (p.pid == ppid && not p.zombie) || has_parent ppid ps

-- The process at the address of `proc` becomes a zombie.
pub make_zombie : Process → List Process → List Process
make_zombie proc [] = []
make_zombie proc (p ∷ ps) = elim (p.addr == proc.addr) [
  | true ↦ record p { zombie = true } ∷ ps
  | false ↦ p ∷ make_zombie proc ps
]

-- `process_terminate` of `proc`, which `ps` holds with its files closed: a zombie if a living parent
-- can wait for it, else removed.
pub retire : Process → List Process → List Process
unfolding has_init adopt sweep has_parent make_zombie unlink
retire proc ps =
    let rest = sweep proc.addr (adopt (has_init proc.addr ps) proc.addr proc.pid ps) in
    if not (proc.ppid == 0) && has_parent proc.ppid rest
    then make_zombie proc rest
    else unlink proc.addr rest

pub replace : ℕ → Process → List Process → List Process
replace a q [] = []
replace a q (p ∷ ps) = (if p.addr == a then q else p) ∷ replace a q ps

pub terminate : Process → List Process → List Process
unfolding close_files retire replace
terminate proc ps = retire (close_files proc) (replace proc.addr (close_files proc) ps)
