-- ===== src/Linux/Tests.antt =====
-- Runs of the model of src/exec/syscalls/linux and instances of its theorems.
use utopia.Base.{
  ℕ, zero, suc, ◌<◌, ◌≡◌, refl, sym, ap, ◌∙◌, ◌⊎◌, Bool, true, false, none, some, List, [], ◌∷◌,
  ◌++◌, arith, ◌==◌, if◌then◌else◌, length, get_elem?, set, take, drop, replicate, ℤ, pos,
}
use mathlib.Core.Option
use utopia.Linux.{
  do_write, writev_loop, writev, offset_of, FileOps, FileDesc, World, Dirent, errno, emfile, in_use,
  open_file, free_from, free_fd, opened, openat, close, seek, lseek, read, pread64, do_read,
  read_vnode, given,
}
use utopia.Linux.Identity.{returns, getcwd, tgkill}
use utopia.Linux.Table.{blank, set-IsTable, IsTable, Lowest, AllUsed}
use utopia.Linux.Opening.{entry_for, openat-Lowest, close-openat}
use utopia.Linux.Reading.{taken, read-lseek}
use utopia.Linux.Sequential.{Serves, OnFile, read-read}
use utopia.Linux.Invariant.{
  call_getdents64, GivesNode, Call, call_openat, call_close, call_read, call_writev, run,
  run-IsTable,
}
use utopia.Linux.Listing.{list_vnode, entries_loop, next_entry, fitting, reclen, getdents64}
use utopia.Linux.Status.{
  poll, poll_loop, poll_fd, ready_events, readable, pselect6, select_loop, is_used, fstat,
  stat_vnode, stat_of, mode_of, access, access_opened, permits,
}
use mathlib.Core.Option.{Option}

-- A file system of one file, `false`, and one directory, `true`, with two entries.
abbrev content : List ℕ
content = 0x61 ∷ 0x62 ∷ 0x63 ∷ 0x64 ∷ []

abbrev get_content : ℕ → ℕ → ℤ × List ℕ
get_content n offset = (pos 0, take n (drop offset content))

abbrev listing : ℕ → ℤ × Dirent
listing zero = (pos 0, record { ino = 7; type = 8; name = 0x61 ∷ [] })
listing (suc zero) = (pos 0, record { ino = 8; type = 4; name = 0x62 ∷ 0x63 ∷ [] })
listing (suc (suc n)) = (errno 2, record { ino = 0; type = 0; name = [] })

abbrev pub ops : FileOps (Unit {0}) Bool
ops = record {
  is_dir = λ s v. v;
  size = λ s v. if v then 0 else 4;
  read = λ s v. if v then none else some get_content;
  write = λ s v. none;
  readdir = λ s v. if v then some listing else none;
  keyboard_read = λ count s. (0x71 ∷ [], s);
  null_size = 0;
  open_path = λ path flags s. (pos 0, some (length path == 1), s);
}

abbrev console : FileDesc Bool
console = record { vnode = none; offset = 0; flags = 0; used = true }

abbrev on : Bool → FileDesc Bool
on v = record { vnode = some v; offset = 0; flags = 0; used = true }

-- The descriptors 3, on the file, and 4, on the directory, are open.
abbrev pub world : World (Unit {0}) Bool
world = record {
  fds = console ∷ console ∷ console ∷ on false ∷ on true ∷ replicate 27 blank;
  fs = tt;
  printed = [];
}

get-replicate : (k n : ℕ) (f g : FileDesc Bool) → get_elem? (replicate k g) n ≡ some f → f ≡ g
get-replicate zero n f g e = absurd (Option.none-ne-some _ e)
get-replicate (suc k) zero f g e = sym (Option.some-injective _ _ e)
get-replicate (suc k) (suc n) f g e = get-replicate k n f g e

empty-IsTable : IsTable (replicate 32 (blank {V = Bool}))
empty-IsTable = record {
  len = refl;
  cleared = λ n f e u. get-replicate 32 n f blank e;
  filled = λ n f l e u.
      let x : true ≡ false =
        sym u ∙ ap (λ (g : FileDesc Bool). g.used) (get-replicate 32 n f blank e) in
      absurd (cc);
}

with_console :
    (fds : List (FileDesc Bool)) (n : ℕ) → n < 3 → IsTable fds → IsTable (set fds n console)
with_console fds n h t =
    set-IsTable fds n console t (λ z. absurd (cc)) (λ l u. absurd (omega arith))

with_file :
    (fds : List (FileDesc Bool)) (n : ℕ) (v : Bool) → IsTable fds → IsTable (set fds n (on v))
with_file fds n v t =
    set-IsTable fds n (on v) t (λ z. absurd (cc)) (λ l u q. Option.some-ne-none _ q)

world-IsTable : IsTable world.fds
world-IsTable = with_file _ 4 true (
    with_file _ 3 false (
      with_console _ 2 (omega arith)
        (with_console _ 1 (omega arith) (with_console _ 0 (omega arith) empty-IsTable))))

openat-Lowest_example :
    ((fd : ℕ) × ((openat ops (some (0x2f ∷ [])) 0 world).0 ≡ pos fd)
      × Lowest 3 world.fds fd
      × (open_file (openat ops (some (0x2f ∷ [])) 0 world).1.fds (pos fd)
          ≡ some (fd, entry_for ops 0 true tt)))
    ⊎ ((openat ops (some (0x2f ∷ [])) 0 world ≡ (emfile, world)) × AllUsed 3 world.fds)
openat-Lowest_example = openat-Lowest ops (0x2f ∷ []) 0 true tt world refl

opened_test : (openat ops (some (0x2f ∷ [])) 0 world).0 ≡ pos 5
unfolding openat opened free_fd free_from
opened_test = refl

close-openat_example : close (pos 5) (openat ops (some (0x2f ∷ [])) 0 world).1 ≡ (pos 0, world)
close-openat_example = close-openat ops (0x2f ∷ []) 0 5 true tt world world-IsTable refl opened_test

read-lseek_example :
    ((read ops (pos 3) 2 (lseek ops (pos 3) 1 0 world).1).0 ≡ (pread64 ops (pos 3) 2 1 world).0)
    × ((pread64 ops (pos 3) 2 1 world).1
        ≡ record world { fs = taken ops 2 tt (open_file world.fds (pos 3)) })
read-lseek_example = read-lseek ops (pos 3) 2 1 world (omega arith)

pread_test : (pread64 ops (pos 3) 2 1 world).0 ≡ (pos 2, 0x62 ∷ 0x63 ∷ [])
unfolding pread64 do_read read_vnode given open_file in_use
pread_test = refl

on_file : OnFile ops 2 false get_content content world (on false)
unfolding open_file in_use
on_file = record { opened = refl; vnode = refl; is_file = refl; reads = refl }

read-read_example :
    ((read ops (pos 3) 3 world).0.1 ++ (read ops (pos 3) 3 (read ops (pos 3) 3 world).1).0.1
      ≡ (read ops (pos 3) 6 world).0.1)
    × ((read ops (pos 3) 3 (read ops (pos 3) 3 world).1).1 ≡ (read ops (pos 3) 6 world).1)
unfolding Serves
read-read_example =
    read-read ops 2 false get_content content 3 3 world (on false) (λ n o. refl) on_file
      (omega arith)

abbrev calls : List Call
calls =
    call_openat (some []) 0x400
    ∷ call_read (pos 5) 9
    ∷ call_getdents64 (pos 4) true 60
    ∷ call_writev ((1 ∷ []) ∷ []) (pos 2)
    ∷ call_close (pos 5)
    ∷ []

abbrev after_calls : World (Unit {0}) Bool
after_calls = record world {
  fds =
      console ∷ console ∷ console ∷ on false ∷ record (on true) { offset = 2 } ∷ replicate 27 blank;
  printed = 1 ∷ [];
}

calls_test : run ops calls world ≡ some after_calls
unfolding run openat opened free_fd free_from close read do_read read_vnode given offset_of
    open_file in_use writev writev_loop do_write getdents64 list_vnode entries_loop next_entry
    fitting reclen seek
calls_test = refl

always_given : GivesNode ops
unfolding GivesNode
always_given path flags fs fs' e =
    Option.some-ne-none _ (ap (λ (r : ℤ × Option Bool × Unit {0}). r.1) e)

run-IsTable_files_example : IsTable after_calls.fds
run-IsTable_files_example =
    run-IsTable ops calls world after_calls always_given world-IsTable calls_test

poll_test :
    poll ops world (
      record { fd = pos 3; events = 5; revents = 0 }
      ∷ record { fd = pos 9; events = 1; revents = 0 }
      ∷ [])
    ≡ (
      pos 2,
      record { fd = pos 3; events = 5; revents = 5 }
          ∷ record { fd = pos 9; events = 1; revents = 32 }
          ∷ [],
    )
unfolding poll poll_loop poll_fd ready_events readable open_file in_use
poll_test = refl

select_test :
    pselect6 (pos 5) 0x18 0x28 world.fds ≡ some (record { reads = 0x18; writes = 8; count = 3 })
unfolding pselect6 select_loop is_used
select_test = refl

fstat_test : fstat ops (λ v. 0x9000) (pos 3) true world ≡ (
  pos 0,
  some (record { dev = 1; ino = 0x9000; size = 4; blksize = 4096; blocks = 1; mode = 0x81a4 }),
)
unfolding fstat stat_vnode stat_of mode_of open_file in_use
fstat_test = refl

access_test : (access ops (λ v. 0) [] 1 world).0 ≡ errno 13
unfolding access access_opened permits mode_of
access_test = refl

cwd_test : getcwd 9 ≡ returns (pos 2) (0x2f ∷ 0 ∷ [])
unfolding getcwd
cwd_test = refl

kill_test : tgkill (record { pid = 3; tid = 4 }) 3 4 9 ≡ returns (errno 38) []
unfolding tgkill
kill_test = refl
