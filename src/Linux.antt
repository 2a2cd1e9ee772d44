-- ===== src/Linux.antt =====
-- The system calls on files of src/exec/syscalls/linux/common.c and io.c, with the file table of the
-- process of include/exec/process.h. The file system is a parameter, as the source calls it through
-- the table of functions of a vnode. The calls are made by a process, so `process` is not null.
pub mod Table
pub mod Opening
pub mod Reading
pub mod Sequential
pub mod Writing
pub mod Memory
pub mod Unmapping
pub mod Listing
pub mod Status
pub mod Breaks
pub mod HeapPages
pub mod Growth
pub mod Mmap
pub mod Blocks
pub mod Placing
pub mod Invariant
pub mod Identity
pub mod Tests
mod MemoryTests
use utopia.Base.{
  ℕ, zero, suc, ◌+◌, ◌-◌, ◌/◌, ◌%◌, ◌^◌, Bool, true, false, ◌&&◌, ◌||◌, Option, none, some, List,
  ◌∷◌, ◌++◌, ltb, ◌==◌, if◌then◌else◌, add64, length, get_elem?, set, drop, ℤ, pos, negsuc, [],
}

-- What the calls use of the rest of the kernel, whose state, the file systems and the input ring, is
-- `S`, and whose vnodes are `V`. The results are those of the source: 0, or an error, with what is
-- stored through the pointers.
pub record Dirent : Type 0 where
  pub ino : ℕ
  pub type : ℕ
  pub name : List ℕ

pub record FileOps (S V : Type 0) : Type 0 where
  pub is_dir : S → V → Bool
  pub size : S → V → ℕ
  -- `none` where `ops->read` and so on are null.
  pub read : S → V → Option (ℕ → ℕ → ℤ × List ℕ)
  pub write : S → V → Option (List ℕ → ℕ → ℤ × ℕ × S)
  pub readdir : S → V → Option (ℕ → ℤ × Dirent)
  -- `keyboard_read`, which takes what it gives out of the ring
  pub keyboard_read : ℕ → S → List ℕ × S
  -- what is read as the size of the vnode at the null pointer
  pub null_size : ℕ
  -- `vfs_open`
  pub open_path : List ℕ → ℕ → S → ℤ × Option V × S

-- `file_desc_t`
pub record FileDesc (V : Type 0) : Type 0 where
  pub vnode : Option V
  pub offset : ℕ
  pub flags : ℕ
  pub used : Bool

-- The files of the process, the rest of the kernel, and what `user_print` has printed.
pub record World (S V : Type 0) : Type 0 where
  pub fds : List (FileDesc V)
  pub fs : S
  pub printed : List ℕ

-- `(int)x` and `(int64_t)x` of a word.
abbrev pub to_int : ℕ → ℤ
to_int x = let y = x % 2 ^ 32 in if ltb y (2 ^ 31) then pos y else negsuc (2 ^ 32 - 1 - y)

abbrev pub to_int64 : ℕ → ℤ
to_int64 x = let y = x % 2 ^ 64 in if ltb y (2 ^ 63) then pos y else negsuc (2 ^ 64 - 1 - y)

-- `(size_t)x`
abbrev pub to_u64 : ℤ → ℕ
to_u64 (pos n) = n % 2 ^ 64
to_u64 (negsuc n) = 2 ^ 64 - 1 - n % 2 ^ 64

-- `-E`
abbrev pub errno : ℕ → ℤ
errno e = negsuc (e - 1)

abbrev pub ebadf : ℤ
ebadf = errno 9

abbrev pub eisdir : ℤ
eisdir = errno 21

abbrev pub einval : ℤ
einval = errno 22

abbrev pub emfile : ℤ
emfile = errno 24

abbrev pub efault : ℤ
efault = errno 14

module _ {V : Type 0} where
  -- The entry of a descriptor that is in range and in use.
  unfoldable pub in_use : ℕ → Option (FileDesc V) → Option (ℕ × FileDesc V)
  in_use n none = none
  in_use n (some f) = elim f.used [ false ↦ none | true ↦ some (n, f) ]

  unfoldable pub open_file : List (FileDesc V) → ℤ → Option (ℕ × FileDesc V)
  unfolding in_use
  open_file fds (negsuc n) = none
  open_file fds (pos n) = in_use n (get_elem? fds n)

  -- The first entry not in use, from the entry `i` on.
  unfoldable pub free_from : ℕ → List (FileDesc V) → Option ℕ
  free_from i [] = none
  free_from i (f ∷ fs) = elim f.used [ false ↦ some i | true ↦ free_from (suc i) fs ]

  -- The search of `open` and `openat`, which skips 0, 1 and 2.
  unfoldable pub free_fd : List (FileDesc V) → Option ℕ
  unfolding free_from
  free_fd fds = free_from 3 (drop 3 fds)

module _ {S V : Type 0} where
  module _ (ops : FileOps S V) where
    -- `vnode->size`; the source does not ask whether the pointer is null.
    abbrev node_size : S → Option V → ℕ
    node_size fs none = ops.null_size
    node_size fs (some v) = ops.size fs v

    -- What `vfs_open` gave goes into the entry `fd`, also a null pointer. The node's size is read only
    -- for `O_APPEND`.
    unfoldable pub opened : ℕ → ℕ → World S V → ℤ × Option V × S → ℤ × World S V
    opened fd flags w (pos zero, o, fs) = (
      pos fd,
      record w {
        fds = set w.fds fd (record {
          vnode = o;
          offset = if flags / 0x400 % 2 == 1 then node_size fs o else 0;
          flags = flags;
          used = true;
        });
        fs = fs;
      },
    )
    opened fd flags w (pos (suc n), v, fs) = (pos (suc n), record w { fs = fs })
    opened fd flags w (negsuc n, v, fs) = (negsuc n, record w { fs = fs })

    -- `open` and `openat`, whose bodies are the same; the path is `none` for a null pointer.
    unfoldable pub openat : Option (List ℕ) → ℕ → World S V → ℤ × World S V
    unfolding free_fd opened
    openat none flags w = (efault, w)
    openat (some path) flags w = elim (free_fd w.fds) [
      | none ↦ (emfile, w)
      | some fd ↦ opened fd flags w (ops.open_path path flags w.fs)
    ]

  -- `close`
  unfoldable pub close : ℤ → World S V → ℤ × World S V
  unfolding open_file
  close fd w = elim (open_file w.fds fd) [
    | none ↦ (ebadf, w)
    | some (n, f) ↦ (
      pos 0,
      record w { fds = set w.fds n (record { vnode = none; offset = 0; flags = 0; used = false }) },
    )
  ]

  -- The offset of an entry becomes `offset`.
  unfoldable pub seek : ℕ → FileDesc V → ℕ → World S V → World S V
  seek n f offset w = record w { fds = set w.fds n (record f { offset = offset }) }

  module _ (ops : FileOps S V) where
    -- `add` of an offset and a signed displacement, as 64-bit integers.
    unfoldable pub displaced : ℕ → ℕ → ℤ
    displaced base offset = to_int64 (base + offset)

    -- The new offset of `lseek`; `none` for a `whence` that is none of the three.
    unfoldable pub target : World S V → FileDesc V → V → ℕ → ℕ → Option ℤ
    unfolding displaced
    target w f v offset whence =
        if whence == 0
        then some (to_int64 offset)
        else if whence == 1
        then some (displaced f.offset offset)
        else if whence == 2
        then some (displaced (ops.size w.fs v) offset)
        else none

    -- The end of `lseek`: a new offset below 0 is an error.
    unfoldable pub seek_to : ℕ → FileDesc V → Option ℤ → World S V → ℤ × World S V
    unfolding seek
    seek_to n f none w = (einval, w)
    seek_to n f (some (negsuc k)) w = (einval, w)
    seek_to n f (some (pos k)) w = (pos k, seek n f k w)

    -- The part of `lseek` on the vnode of the entry.
    unfoldable pub seek_vnode : ℕ → FileDesc V → Option V → ℕ → ℕ → World S V → ℤ × World S V
    unfolding target seek_to
    seek_vnode n f none offset whence w = (ebadf, w)
    seek_vnode n f (some v) offset whence w = seek_to n f (target w f v offset whence) w

    -- `lseek`; `offset` is the word of the argument.
    unfoldable pub lseek : ℤ → ℕ → ℕ → World S V → ℤ × World S V
    unfolding open_file seek_vnode
    lseek fd offset whence w = elim (open_file w.fds fd) [
      | none ↦ (ebadf, w)
      | some (n, f) ↦ seek_vnode n f f.vnode offset whence w
    ]

    -- What a read gives: the result, and the bytes that it stored in the buffer.
    abbrev pub Got : Type 0
    Got = ℤ × List ℕ

    -- The result of `ops->read`, which is 0 or an error.
    unfoldable pub given : Got → Bool × Got
    given (negsuc k, bytes) = (false, (negsuc k, bytes))
    given (pos (suc k), bytes) = (false, (pos (suc k), bytes))
    given (pos zero, bytes) = (true, (pos (length bytes), bytes))

    -- The part of `do_read` on the vnode of the entry: what it gives, and whether it was a read that
    -- returned 0.
    unfoldable pub read_vnode : S → Option V → ℕ → ℕ → Bool × Got
    unfolding given
    read_vnode fs none count offset = (false, (ebadf, []))
    read_vnode fs (some v) count offset = elim (ops.is_dir fs v) [
      | true ↦ (false, (eisdir, []))
      | false ↦ elim (ops.read fs v) [
        | none ↦ (false, (einval, []))
        | some get ↦ given (get count offset)
      ]
    ]

    -- `do_read` at `offset`.
    unfoldable pub do_read : ℤ → ℕ → ℕ → Bool → World S V → Got × World S V
    unfolding open_file seek read_vnode
    do_read fd count offset update w = elim (open_file w.fds fd) [
      | none ↦ ((ebadf, []), w)
      | some (zero, f) ↦
          let r = ops.keyboard_read count w.fs in ((pos (length r.0), r.0), record w { fs = r.1 })
      | some (suc n, f) ↦
          let r = read_vnode w.fs f.vnode count offset in
          (r.1, if update && r.0 then seek (suc n) f (add64 f.offset (length r.1.1)) w else w)
    ]

    -- The offset that `read` takes from the table before the descriptor is checked; 0 out of range.
    unfoldable pub offset_of : List (FileDesc V) → ℤ → ℕ
    offset_of fds (negsuc n) = 0
    offset_of fds (pos n) = elim (get_elem? fds n) [ none ↦ 0 | some f ↦ f.offset ]

    unfoldable pub read : ℤ → ℕ → World S V → Got × World S V
    unfolding do_read offset_of
    read fd count w = do_read fd count (offset_of w.fds fd) true w

    unfoldable pub pread64 : ℤ → ℕ → ℕ → World S V → Got × World S V
    unfolding do_read
    pread64 fd count offset w = do_read fd count offset false w

    -- The end of `do_write`, with the result of `ops->write`.
    unfoldable pub put_back : ℕ → FileDesc V → World S V → ℤ × ℕ × S → ℤ × World S V
    unfolding seek
    put_back n f w (negsuc k, written, fs) = (negsuc k, record w { fs = fs })
    put_back n f w (pos (suc k), written, fs) = (pos (suc k), record w { fs = fs })
    put_back n f w (pos zero, written, fs) =
        (pos written, seek n f (add64 f.offset written) (record w { fs = fs }))

    -- The part of `do_write` on the vnode of the entry.
    unfoldable pub write_vnode : List ℕ → ℕ → FileDesc V → Option V → World S V → ℤ × World S V
    unfolding put_back
    write_vnode bytes n f none w = (ebadf, w)
    write_vnode bytes n f (some v) w = elim (ops.is_dir w.fs v) [
      | true ↦ (eisdir, w)
      | false ↦ elim (ops.write w.fs v) [
        | none ↦ (errno 30, w)
        | some put ↦ put_back n f w (put bytes f.offset)
      ]
    ]

    -- `do_write`
    unfoldable pub do_write : List ℕ → ℤ → World S V → ℤ × World S V
    unfolding open_file write_vnode
    do_write bytes fd w = elim (open_file w.fds fd) [
      | none ↦ (ebadf, w)
      | some (n, f) ↦ elim (n == 1 || n == 2) [
        | true ↦ (pos (length bytes), record w { printed = w.printed ++ bytes })
        | false ↦ write_vnode bytes n f f.vnode w
      ]
    ]

    unfoldable pub write : List ℕ → ℤ → World S V → ℤ × World S V
    unfolding do_write
    write bytes fd w = do_write bytes fd w

    -- The loop of `writev` with the sum so far, over the vectors.
    unfoldable pub writev_loop : List (List ℕ) → ℤ → ℕ → World S V → ℤ × World S V
    unfolding do_write
    writev_loop [] fd total w = (to_int64 total, w)
    writev_loop (bytes ∷ iov) fd total w =
        let r = do_write bytes fd w in
        let ret = to_u64 r.0 in
        elim (ret == to_u64 ebadf) [
          | true ↦ (if total == 0 then ebadf else to_int64 total, r.1)
          | false ↦ elim (ltb ret (length bytes)) [
            | true ↦ (to_int64 (add64 total ret), r.1)
            | false ↦ writev_loop iov fd (add64 total ret) r.1
          ]
        ]

    unfoldable pub writev : List (List ℕ) → ℤ → World S V → ℤ × World S V
    unfolding writev_loop
    writev iov fd w = writev_loop iov fd 0 w
