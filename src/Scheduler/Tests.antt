-- ===== src/Scheduler/Tests.antt =====
-- A small machine for src/exec/scheduler.c: thread 1 runs, 2 and 3 are ready, 4 is about to wait on
-- the wait queue 0, and 5 waits there. The registers are a number.
use utopia.Base.{ℕ, ◌≡◌, refl, Bool, true, false, Option, none, some, List, [], ◌∷◌, arith, get_or}
use utopia.Scheduler.{
  ThreadState, ready, running, blocked, Thread, Scheduler, park, pick, requeue, bury,
}
use utopia.Scheduler.ReadyQueue.{Queue}
use utopia.Scheduler.Waiting.{Parking, park-wake_all}
use utopia.Scheduler.Switching.{schedule-rotates}
use utopia.Scheduler.Calls
use utopia.Scheduler.Calls.{schedule, wake_all}

abbrev thread : ThreadState → ℕ → Option ℕ → Option ℕ → Thread ℕ
thread state regs waiting_on next = record {
  state = state;
  process = true;
  page_table = none;
  regs = regs;
  waiting_on = waiting_on;
  wait_seq = 7;
  next = next;
}

abbrev table : List (Thread ℕ)
table =
    thread running 10 none none
    ∷ thread running 11 none none
    ∷ thread ready 12 none (some 3)
    ∷ thread ready 13 none none
    ∷ thread blocked 14 (some 0) none
    ∷ thread blocked 15 (some 0) none
    ∷ []

abbrev machine : Option ℕ → Scheduler ℕ
machine pending = record {
  threads = λ i. get_or table i (thread running 0 none none);
  queues = λ q. record { head = some 5; seq = 7 };
  current = λ cpu. some 1;
  idle = λ cpu. some 0;
  ready_head = some 2;
  ready_tail = some 3;
  zombies = none;
  pending_zombie = λ cpu. none;
  pending_park = λ cpu. pending;
  boot_cr3 = λ cpu. 4096;
  active_cr3 = λ cpu. 4096;
  context_switch_lock = false;
}

abbrev user : ℕ → Bool
user regs = false

abbrev frame : ℕ → ℕ
frame regs = regs

machine-Queue : (pending : Option ℕ) → Queue (machine pending) (2 ∷ 3 ∷ [])
machine-Queue pending = record {
  chain = (refl, (refl, tt));
  tail = refl;
  distinct = omega arith;
  states = (refl, (refl, tt));
}

schedule_run : (schedule user frame 0 99 (machine none)).0 ≡ 12
unfolding schedule Calls.save pick requeue bury park
schedule_run = refl

schedule-rotates_example :
    ((schedule user frame 0 99 (machine none)).0 ≡ 12)
    × Queue (schedule user frame 0 99 (machine none)).1 (3 ∷ 1 ∷ [])
    × ((schedule user frame 0 99 (machine none)).1.current 0 ≡ some 2)
    × (((schedule user frame 0 99 (machine none)).1.threads 1).regs ≡ 99)
schedule-rotates_example =
    schedule-rotates user frame 0 1 0 2 (3 ∷ []) 99 (machine none) refl refl refl refl (omega arith)
      refl refl refl (machine-Queue none) (omega arith)

machine-Parking : Parking (machine (some 4)) 0 4 0 (2 ∷ 3 ∷ []) (5 ∷ [])
machine-Parking = record {
  pending = refl;
  on = refl;
  snapshot = refl;
  word = omega arith;
  queue = machine-Queue (some 4);
  waiters = (refl, tt);
  distinct = omega arith;
}

park-wake_all_example :
    ((s' : Scheduler ℕ) × (wake_all 3 0 (machine (some 4)) ≡ some s')
      × Queue (park 0 s') (2 ∷ 3 ∷ 5 ∷ 4 ∷ []))
    × ((s' : Scheduler ℕ) × (wake_all 3 0 (park 0 (machine (some 4))) ≡ some s')
        × Queue s' (2 ∷ 3 ∷ 4 ∷ 5 ∷ []))
park-wake_all_example =
    park-wake_all 3 (machine (some 4)) 0 4 0 (2 ∷ 3 ∷ []) (5 ∷ []) machine-Parking (omega arith)
