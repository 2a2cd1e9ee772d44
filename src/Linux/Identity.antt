-- ===== src/Linux/Identity.antt =====
-- The calls of src/exec/syscalls/linux/common.c that say which process and thread runs and where it
-- stands, and tgkill.
use utopia.Base.{ℕ, ◌*◌, ◌/◌, ◌%◌, ◌&&◌, List, [], ◌∷◌, ltb, ◌==◌, if◌then◌else◌, replicate, ℤ, pos}
use utopia.Linux.{errno, einval}

-- What the calls use of `process_t` and `thread_t`.
pub record Caller : Type 0 where
  pub pid : ℕ
  pub tid : ℕ

-- What a call returns, with the bytes that it stored; or the thread ends with a status.
pub data Outcome : Type 0 where
  returns : ℤ → List ℕ → Outcome
  exits : ℕ → Outcome

-- `getcwd` into a buffer of `size` bytes: always "/" and its NUL.
unfoldable pub getcwd : ℕ → Outcome
getcwd size = if ltb size 2 then returns (errno 34) [] else returns (pos 2) (0x2f ∷ 0 ∷ [])

unfoldable pub getpgid : Caller → ℕ → Outcome
getpgid c pid = returns (pos (if pid == 0 then c.pid else pid)) []

-- `getpgrp`, `getsid` and `setsid`
unfoldable pub getpgrp : Caller → Outcome
getpgrp c = returns (pos c.pid) []

unfoldable pub setpgid : Outcome
setpgid = returns (pos 0) []

-- `set_tid_address`; the id is stored, as an `int32_t`, where the address is not null.
unfoldable pub set_tid_address : Caller → ℕ → Outcome
set_tid_address c addr = returns (pos c.tid) (
    if addr == 0
    then []
    else (c.tid % 256)
      ∷ (c.tid / 256 % 256)
      ∷ (c.tid / 65536 % 256)
      ∷ (c.tid / 16777216 % 256)
      ∷ [])

-- `tgkill`: SIGABRT is 6, and other signals than that and 0 are unknown.
unfoldable pub tgkill : Caller → ℕ → ℕ → ℕ → Outcome
tgkill c tgid tid signal =
    if tgid == c.pid && tid == c.tid
    then (if signal == 0
        then returns (pos 0) []
        else if signal == 6
        then exits 6
        else returns (errno 38) [])
    else returns (errno 3) []

-- `exit`
unfoldable pub exit : ℕ → Outcome
exit code = exits (code % 256 * 256)

-- `rt_sigprocmask`, which clears the set that it returns.
unfoldable pub rt_sigprocmask : ℕ → ℕ → Outcome
rt_sigprocmask oldset size =
    if ltb 128 size
    then returns einval []
    else returns (pos 0) (if oldset == 0 then [] else replicate size 0)

-- `rt_sigaction`
unfoldable pub rt_sigaction : ℕ → Outcome
rt_sigaction oldact = returns (pos 0) (if oldact == 0 then [] else replicate 24 0)
