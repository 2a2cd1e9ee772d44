-- ===== src/Scheduler.antt =====
-- The scheduler of src/exec/scheduler.c: the ready queue, the wait queues and the choice of the next
-- thread. A pointer to a thread or to a wait queue is a number, and the CPU is an argument. Locks,
-- the interrupt flags and the writes of the machine's registers but the page table root are left
-- out. The registers `R` that an interrupt saves are a parameter.
pub mod Chains
pub mod ReadyQueue
pub mod Waiting
pub mod Switching
pub mod Calls
mod Tests
use mathlib.Core.Option
use utopia.Base.{ℕ, Bool, true, false, not, ◌&&◌, Option, none, some, ◌==◌, if◌then◌else◌, get_or}

pub data ThreadState : Type 0 where
  ready : ThreadState
  running : ThreadState
  blocked : ThreadState
  terminated : ThreadState
  uninitialised : ThreadState

abbrev pub is_running : ThreadState → Bool
is_running running = true
is_running s = false

abbrev pub is_blocked : ThreadState → Bool
is_blocked blocked = true
is_blocked s = false

abbrev pub is_terminated : ThreadState → Bool
is_terminated terminated = true
is_terminated s = false

-- `thread_t`. `process` says whether there is one, and `page_table` is the physical address of its
-- page table.
pub record Thread (R : Type 0) : Type 0 where
  pub state : ThreadState
  pub process : Bool
  pub page_table : Option ℕ
  pub regs : R
  pub waiting_on : Option ℕ
  pub wait_seq : ℕ
  pub next : Option ℕ

pub record WaitQueue : Type 0 where
  pub head : Option ℕ
  pub seq : ℕ

-- The variables of the file; an array has an entry for each CPU.
pub record Scheduler (R : Type 0) : Type 0 where
  pub threads : ℕ → Thread R
  pub queues : ℕ → WaitQueue
  pub current : ℕ → Option ℕ
  pub idle : ℕ → Option ℕ
  pub ready_head : Option ℕ
  pub ready_tail : Option ℕ
  pub zombies : Option ℕ
  pub pending_zombie : ℕ → Option ℕ
  pub pending_park : ℕ → Option ℕ
  pub boot_cr3 : ℕ → ℕ
  pub active_cr3 : ℕ → ℕ
  pub context_switch_lock : Bool

-- A write through a pointer or to an array.
abbrev pub update : {A : Type 0} → ℕ → A → (ℕ → A) → ℕ → A
update i a f j = if j == i then a else f j

abbrev pub same : Option ℕ → ℕ → Bool
same none i = false
same (some j) i = j == i

module _ {R : Type 0} where
  -- The threads with `t` at the end of the list whose last is `tail`.
  pub link : Option ℕ → ℕ → (ℕ → Thread R) → ℕ → Thread R
  link none t threads = threads
  link (some l) t threads = update l (record (threads l) { next = some t }) threads

  -- `enqueue_locked`
  pub enqueue : ℕ → Scheduler R → Scheduler R
  unfolding link
  enqueue t s =
      let threads = update t (record (s.threads t) { state = ready; next = none }) s.threads in
      record s {
        threads = link s.ready_tail t threads;
        ready_head = elim s.ready_tail [ none ↦ some t | some l ↦ s.ready_head ];
        ready_tail = some t;
      }

  -- `dequeue_locked`
  pub dequeue : Scheduler R → Option ℕ × Scheduler R
  dequeue s = elim s.ready_head [
    | none ↦ (none, s)
    | some t ↦ (
      some t,
      record s {
        threads = update t (record (s.threads t) { next = none }) s.threads;
        ready_head = (s.threads t).next;
        ready_tail = elim (s.threads t).next [ none ↦ none | some n ↦ s.ready_tail ];
      },
    )
  ]

  -- `t` stays awake, because its wait queue was woken after its snapshot.
  pub unpark : ℕ → Scheduler R → Scheduler R
  unfolding enqueue
  unpark t s =
      enqueue t
        (record s { threads = update t (record (s.threads t) { waiting_on = none }) s.threads })

  -- `t` becomes the first of the wait queue `q`.
  pub park_on : ℕ → ℕ → Scheduler R → Scheduler R
  park_on t q s = record s {
    threads = update t (record (s.threads t) { next = (s.queues q).head }) s.threads;
    queues = update q (record (s.queues q) { head = some t }) s.queues;
  }

  -- The pending thread goes to its wait queue, or back to the ready queue.
  pub park : ℕ → Scheduler R → Scheduler R
  unfolding unpark park_on
  park cpu s = elim (s.pending_park cpu) [
    | none ↦ s
    | some t ↦
        let s' : Scheduler R = record s { pending_park = update cpu none s.pending_park } in
        elim (s.threads t).waiting_on [
          | none ↦ unpark t s'
          | some q ↦
              if not ((s.queues q).seq == (s.threads t).wait_seq)
              then unpark t s'
              else park_on t q s'
        ]
  ]

  pub bury : ℕ → Scheduler R → Scheduler R
  bury cpu s = elim (s.pending_zombie cpu) [
    | none ↦ s
    | some t ↦ record s {
      threads = update t (record (s.threads t) { next = s.zombies }) s.threads;
      zombies = some t;
      pending_zombie = update cpu none s.pending_zombie;
    }
  ]

  -- A thread that could go on running goes to the end of the ready queue.
  pub requeue : ℕ → ℕ → Scheduler R → Scheduler R
  unfolding enqueue
  requeue cpu curr s =
      if is_running (s.threads curr).state && not (same (s.idle cpu) curr)
      then enqueue curr s
      else s

  -- The next thread: the first of the ready queue, else the idle thread, else the current one.
  pub pick : ℕ → ℕ → Scheduler R → ℕ × Scheduler R
  unfolding dequeue
  pick cpu curr s = elim (dequeue s).0 [
    | some t ↦ (t, (dequeue s).1)
    | none ↦ (Option.get_or (s.idle cpu) curr, (dequeue s).1)
  ]

  pub stay : ℕ → Scheduler R → Scheduler R
  stay curr s = record s {
    threads =
        update curr (record (s.threads curr) { state = running; waiting_on = none }) s.threads;
  }

  -- The page table root that is active afterwards; `write_cr3` is called when it changes, and for a
  -- process always.
  pub switch_root : ℕ → Option ℕ → Scheduler R → Scheduler R
  switch_root cpu (some root) s =
      if root == 0 then s else record s { active_cr3 = update cpu root s.active_cr3 }
  switch_root cpu none s =
      if s.boot_cr3 cpu == 0
      then s
      else record s { active_cr3 = update cpu (s.boot_cr3 cpu) s.active_cr3 }

  -- What `curr` becomes when the CPU leaves it for `next`.
  pub switched : ℕ → ℕ → ℕ → Scheduler R → Scheduler R
  switched cpu curr next s =
      let state = (s.threads curr).state in
      record s {
        pending_park =
            if is_blocked state then update cpu (some curr) s.pending_park else s.pending_park;
        pending_zombie =
            if is_terminated state && not (same (s.idle cpu) curr)
            then update cpu (some curr) s.pending_zombie
            else s.pending_zombie;
        threads = update next (record (s.threads next) { state = running }) s.threads;
        current = update cpu (some next) s.current;
      }

  -- The switch from `curr` to `next`.
  pub switch : ℕ → ℕ → ℕ → Scheduler R → Scheduler R
  unfolding switched switch_root
  switch cpu curr next s =
      switch_root cpu (if (s.threads next).process then (s.threads next).page_table else none)
        (switched cpu curr next s)
