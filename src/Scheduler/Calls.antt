-- ===== src/Scheduler/Calls.antt =====
-- The entry points of src/exec/scheduler.c: the timer's `scheduler_schedule`, and `scheduler_wait`
-- and `scheduler_wake_all` of the wait queues.
use utopia.Base.{
  ℕ, zero, suc, Bool, true, false, not, ◌&&◌, Option, none, some, ◌==◌, if◌then◌else◌, add64,
}
use utopia.Scheduler.{
  blocked, is_blocked, WaitQueue, Scheduler, update, same, enqueue, park, bury, requeue, pick, stay,
  switch,
}

module _ {R : Type 0} (from_kernel : R → Bool) (kernel_frame : R → R) where
  -- The registers of the interrupted thread are saved.
  unfoldable pub save : ℕ → R → Scheduler R → Scheduler R
  save curr regs s = record s {
    threads =
        update curr
          (record (s.threads curr) { regs = if from_kernel regs then kernel_frame regs else regs })
          s.threads;
  }

  -- `scheduler_schedule` behind its early returns.
  unfoldable pub reschedule : ℕ → ℕ → R → Scheduler R → R × Scheduler R
  reschedule cpu curr regs s =
      let (next, s') = pick cpu curr (requeue cpu curr (bury cpu (park cpu (save curr regs s)))) in
      if next == curr
      then (regs, stay curr s')
      else ((s'.threads next).regs, switch cpu curr next s')

  -- `scheduler_schedule`: `from_kernel` tells whether the registers are of the kernel, and
  -- `kernel_frame` is how those are saved on x86_64.
  unfoldable pub schedule : ℕ → R → Scheduler R → R × Scheduler R
  unfolding reschedule
  schedule cpu regs s = if s.context_switch_lock then (regs, s) else elim (s.current cpu) [
    | none ↦ (regs, s)
    | some curr ↦
        if from_kernel regs && (s.threads curr).process && not (is_blocked (s.threads curr).state)
        then (regs, s)
        else reschedule cpu curr regs s
  ]

module _ {R : Type 0} where
  -- `scheduler_wait` up to the interrupt that switches; the Boolean says whether it gets there.
  unfoldable pub block : ℕ → ℕ → ℕ → Scheduler R → Bool × Scheduler R
  block cpu q seq s = if not ((s.queues q).seq == seq) then (false, s) else elim (s.current cpu) [
    | none ↦ (false, s)
    | some curr ↦ if same (s.idle cpu) curr then (false, s) else (
      true,
      record s {
        threads =
            update curr
              (record (s.threads curr) { state = blocked; waiting_on = some q; wait_seq = seq })
              s.threads;
      },
    )
  ]

  -- The loop of `scheduler_wake_all` from the waiter `t`. A list of `fuel` threads or more runs out.
  unfoldable pub wake : ℕ → Option ℕ → Scheduler R → Option (Scheduler R)
  wake zero t s = none
  wake (suc fuel) none s = some s
  wake (suc fuel) (some t) s = wake fuel (s.threads t).next (
      enqueue t
        (record s { threads = update t (record (s.threads t) { waiting_on = none }) s.threads }))

  unfoldable pub wake_all : ℕ → ℕ → Scheduler R → Option (Scheduler R)
  unfolding wake
  wake_all fuel q s =
      let woken : WaitQueue = record { head = none; seq = add64 (s.queues q).seq 1 } in
      wake fuel (s.queues q).head (record s { queues = update q woken s.queues })
