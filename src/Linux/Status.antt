-- ===== src/Linux/Status.antt =====
-- fstat, newfstatat, access, poll and pselect6 of src/exec/syscalls/linux/common.c: what the calls
-- say of files.
use utopia.Base.{
  ℕ, zero, suc, ◌+◌, ◌/◌, ◌%◌, ◌^◌, Bool, false, not, ◌&&◌, ◌||◌, Option, none, some, List, [], ◌∷◌,
  ltb, leb, ◌==◌, if◌then◌else◌, add64, get_elem?, set, ℤ, pos, negsuc,
}
use utopia.Linux.{FileOps, FileDesc, World, errno, ebadf, efault, open_file}

-- The fields of `struct stat` that are not left 0.
pub record Stat : Type 0 where
  pub dev : ℕ
  pub ino : ℕ
  pub size : ℕ
  pub blksize : ℕ
  pub blocks : ℕ
  pub mode : ℕ

module _ {S V : Type 0} (ops : FileOps S V) (address : V → ℕ) where
  -- The type bits and the permissions, which depend on the type alone.
  unfoldable pub mode_of : S → V → ℕ
  mode_of fs v = if ops.is_dir fs v then 0x4000 + 0x1ed else 0x8000 + 0x1a4

  unfoldable pub stat_of : S → V → Stat
  unfolding mode_of
  stat_of fs v = record {
    dev = 1;
    ino = address v;
    size = ops.size fs v;
    blksize = 4096;
    blocks = add64 (ops.size fs v) 511 / 512;
    mode = mode_of fs v;
  }

  -- A descriptor of the console.
  abbrev pub console_stat : Stat
  console_stat = record {
    dev = 0;
    ino = 0;
    size = 0;
    blksize = 1024;
    blocks = 0;
    mode = 0x2000 + 0x1b6;
  }

  -- `fstat` into a buffer that is not null.
  unfoldable pub stat_vnode : S → Option V → ℤ × Option Stat
  unfolding stat_of
  stat_vnode fs none = (ebadf, none)
  stat_vnode fs (some v) = (pos 0, some (stat_of fs v))

  unfoldable pub fstat : ℤ → Bool → World S V → ℤ × Option Stat
  unfolding open_file stat_vnode
  fstat fd buffer w = if not buffer then (efault, none) else elim (open_file w.fds fd) [
    | none ↦ (ebadf, none)
    | some (n, f) ↦ if leb n 2 then (pos 0, some console_stat) else stat_vnode w.fs f.vnode
  ]

  -- What `vfs_open` gave to `newfstatat`.
  unfoldable pub stat_opened : ℤ × Option V × S → ℤ × Option Stat
  unfolding stat_vnode
  stat_opened (pos zero, v, fs) = stat_vnode fs v
  stat_opened (pos (suc k), v, fs) = (pos (suc k), none)
  stat_opened (negsuc k, v, fs) = (negsuc k, none)

  -- `newfstatat` with pointers that are not null.
  unfoldable pub newfstatat : List ℕ → World S V → (ℤ × Option Stat) × World S V
  unfolding stat_opened
  newfstatat path w = let r = ops.open_path path 0 w.fs in (stat_opened r, record w { fs = r.2 })

  -- The permission bits that the `mode` of `access` asks for must all be there in some class.
  unfoldable pub permits : ℕ → ℕ → Bool
  permits mode st_mode =
      (mode / 4 % 2 == 0 || not (st_mode / 4 % 2 + st_mode / 32 % 2 + st_mode / 256 % 2 == 0))
      && (mode / 2 % 2 == 0 || not (st_mode / 2 % 2 + st_mode / 16 % 2 + st_mode / 128 % 2 == 0))
      && (mode % 2 == 0 || not (st_mode % 2 + st_mode / 8 % 2 + st_mode / 64 % 2 == 0))

  unfoldable pub access_opened : ℕ → ℤ × Option V × S → ℤ
  unfolding permits mode_of
  access_opened mode (pos zero, none, fs) = pos 0
  access_opened mode (pos zero, some v, fs) =
      if mode == 0 || permits mode (mode_of fs v) then pos 0 else errno 13
  access_opened mode (pos (suc k), v, fs) = pos (suc k)
  access_opened mode (negsuc k, v, fs) = negsuc k

  -- `access` with a path that is not null.
  unfoldable pub access : List ℕ → ℕ → World S V → ℤ × World S V
  unfolding access_opened
  access path mode w =
      let r = ops.open_path path 0 w.fs in (access_opened mode r, record w { fs = r.2 })

-- `struct pollfd`
pub record PollFd : Type 0 where
  pub fd : ℤ
  pub events : ℕ
  pub revents : ℕ

module _ {S V : Type 0} (ops : FileOps S V) where
  -- Whether there is something to read from the entry of a descriptor that is not 0.
  unfoldable pub readable : S → FileDesc V → Option V → Bool
  readable fs f none = false
  readable fs f (some v) = ltb f.offset (ops.size fs v)

  -- The `revents` for an entry in use: POLLOUT is 4 and POLLIN is 1.
  unfoldable pub ready_events : S → ℕ → ℕ → FileDesc V → ℕ
  unfolding readable
  ready_events fs n events f =
      (if events / 4 % 2 == 1 then 4 else 0)
      + (if events % 2 == 1 && (n == 0 || readable fs f f.vnode) then 1 else 0)

  -- The body of the loop of `poll`; POLLNVAL is 32.
  unfoldable pub poll_fd : World S V → PollFd → PollFd
  unfolding open_file ready_events
  poll_fd w p = elim p.fd [
    | negsuc n ↦ record p { revents = 0 }
    | pos n ↦ elim (open_file w.fds (pos n)) [
      | none ↦ record p { revents = 32 }
      | some (m, f) ↦ record p { revents = ready_events w.fs m p.events f }
    ]
  ]

  -- `poll`, with the count so far.
  unfoldable pub poll_loop : World S V → ℕ → List PollFd → ℕ × List PollFd
  unfolding poll_fd
  poll_loop w ready [] = (ready, [])
  poll_loop w ready (p ∷ ps) =
      let q = poll_fd w p in
      let rest = poll_loop w (if q.revents == 0 then ready else suc ready) ps in
      (rest.0, q ∷ rest.1)

  unfoldable pub poll : World S V → List PollFd → ℤ × List PollFd
  unfolding poll_loop
  poll w ps = let r = poll_loop w 0 ps in (pos r.0, r.1)

-- The answer of `pselect6` so far: the bits for reading and for writing, and the count.
pub record Selected : Type 0 where
  pub reads : ℕ
  pub writes : ℕ
  pub count : ℕ

-- `1ULL << fd` is in the set.
abbrev pub has_bit : ℕ → ℕ → Bool
has_bit set fd = set / 2 ^ fd % 2 == 1

module _ {V : Type 0} where
  unfoldable pub is_used : Option (FileDesc V) → Bool
  is_used none = false
  is_used (some f) = f.used

  -- The loop of `pselect6` from the descriptor `fd` on.
  unfoldable pub select_loop : ℕ → ℕ → ℕ → ℕ → List (FileDesc V) → Selected → Selected
  unfolding is_used
  select_loop zero fd readfds writefds fds s = s
  select_loop (suc n) fd readfds writefds fds s =
      let used = is_used (get_elem? fds fd) in
      let r = used && has_bit readfds fd in
      let w = used && has_bit writefds fd in
      select_loop n (suc fd) readfds writefds fds (record {
        reads = s.reads + (if r then 2 ^ fd else 0);
        writes = s.writes + (if w then 2 ^ fd else 0);
        count = s.count + (if r then 1 else 0) + (if w then 1 else 0);
      })

  -- `pselect6`; a null set is 0. `none` is `-EINVAL`.
  unfoldable pub pselect6 : ℤ → ℕ → ℕ → List (FileDesc V) → Option Selected
  unfolding select_loop
  pselect6 (negsuc n) readfds writefds fds = none
  pselect6 (pos n) readfds writefds fds =
      if ltb 32 n
      then none
      else some (select_loop n 0 readfds writefds fds (record { reads = 0; writes = 0; count = 0 }))
