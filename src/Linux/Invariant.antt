-- ===== src/Linux/Invariant.antt =====
-- The file table under the system calls of src/exec/syscalls/linux on files.
use utopia.Base.{
  ℕ, zero, suc, ◌≡◌, refl, sym, ◌∙◌, subst, inl, inr, Bool, true, false, ◌||◌, Option, none, some,
  List, [], ◌∷◌, ltb, ◌==◌, if◌then◌else◌, Bool-cases, Option-cases, add64, length, set, get_elem?,
  ap, ◌≢◌, ℤ, pos, negsuc,
}
use mathlib.Core.Option
use utopia.Linux.{
  to_u64, FileOps, FileDesc, World, ebadf, open_file, free_fd, opened, openat, close, seek, seek_to,
  seek_vnode, lseek, do_read, offset_of, read, pread64, put_back, write_vnode, do_write, write,
  writev_loop, writev,
}
use utopia.Linux.Listing.{Entry, getdents64, list_vnode}
use utopia.Linux.Table.{blank, IsTable, set-IsTable}
use utopia.Linux.Reading.{open_file-some}

-- The calls of a process on its files.
pub data Call : Type 0 where
  call_openat : Option (List ℕ) → ℕ → Call
  call_close : ℤ → Call
  call_lseek : ℤ → ℕ → ℕ → Call
  call_read : ℤ → ℕ → Call
  call_pread64 : ℤ → ℕ → ℕ → Call
  call_write : List ℕ → ℤ → Call
  call_writev : List (List ℕ) → ℤ → Call
  call_getdents64 : ℤ → Bool → ℕ → Call

module _ {S V : Type 0} (ops : FileOps S V) where
  -- The state after a call, whatever it returns; `none` where the source reads outside the table.
  unfoldable pub call : Call → World S V → Option (World S V)
  unfolding openat close lseek read pread64 write writev getdents64
  call (call_openat path flags) w = some (openat ops path flags w).1
  call (call_close fd) w = some (close fd w).1
  call (call_lseek fd offset whence) w = some (lseek ops fd offset whence w).1
  call (call_read fd count) w = some (read ops fd count w).1
  call (call_pread64 fd count offset) w = some (pread64 ops fd count offset w).1
  call (call_write bytes fd) w = some (write ops bytes fd w).1
  call (call_writev iov fd) w = some (writev ops iov fd w).1
  call (call_getdents64 fd buffer count) w =
      Option.map (λ (r : (ℤ × List Entry) × World S V). r.1) (getdents64 ops fd buffer count w)

  unfoldable pub run : List Call → World S V → Option (World S V)
  unfolding call
  run [] w = some w
  run (c ∷ cs) w = elim (call c w) [ none ↦ none | some u ↦ run cs u ]

  -- A `vfs_open` that returns 0 has stored a vnode.
  unfoldable pub GivesNode : Type 0
  GivesNode =
      (path : List ℕ) (flags : ℕ) (fs fs' : S) → ops.open_path path flags fs ≢ (pos 0, none, fs')

  -- A seek in an open entry.
  seek-IsTable :
      (fd : ℤ) (n offset : ℕ) (f : FileDesc V) (w u : World S V)
      → IsTable w.fds
      → open_file w.fds fd ≡ some (n, f)
      → u.fds ≡ w.fds
      → IsTable (seek n f offset u).fds
  unfolding seek
  seek-IsTable fd n offset f w u t e s =
      let (q, g, used) = open_file-some w.fds fd n f e in
      subst (λ l. IsTable (set l n (record f { offset = offset }))) (sym s)
        (set-IsTable w.fds n (record f { offset = offset }) t
          (λ z. let x : true ≡ false = sym used ∙ z in absurd (cc)) (λ l z. t.filled n f l g used))

  opened-IsTable :
      (fd flags : ℕ) (w : World S V) (r : ℤ × Option V × S)
      → IsTable w.fds
      → ((fs : S) → r ≢ (pos 0, none, fs))
      → IsTable (opened ops fd flags w r).1.fds
  unfolding opened
  opened-IsTable fd flags w (pos zero, some v, fs) t g =
      set-IsTable w.fds fd _ t (λ z. absurd (cc)) (λ l z q. Option.some-ne-none _ q)
  opened-IsTable fd flags w (pos zero, none, fs) t g = absurd (g fs refl)
  opened-IsTable fd flags w (pos (suc n), v, fs) t g = t
  opened-IsTable fd flags w (negsuc n, v, fs) t g = t

  openat-IsTable :
      (path : Option (List ℕ)) (flags : ℕ) (w : World S V)
      → IsTable w.fds
      → GivesNode
      → IsTable (openat ops path flags w).1.fds
  unfolding openat GivesNode
  openat-IsTable none flags w t g = t
  openat-IsTable (some path) flags w t g = elim (Option-cases (free_fd w.fds)) [
    | inl e ↦ rw (e, openat) t
    | inr (fd, e) ↦
        rw (e, openat)
          (opened-IsTable fd flags w (ops.open_path path flags w.fs) t (λ fs. g path flags w.fs fs))
  ]

  close-IsTable : (fd : ℤ) (w : World S V) → IsTable w.fds → IsTable (close fd w).1.fds
  unfolding close
  close-IsTable fd w t = elim (Option-cases (open_file w.fds fd)) [
    | inl e ↦ rw (e, close) t
    | inr (r, e) ↦ rw (e, close) (set-IsTable w.fds r.0 blank t (λ z. refl) (λ l z. absurd (cc)))
  ]

  seek_to-IsTable :
      (fd : ℤ) (n : ℕ) (f : FileDesc V) (o : Option ℤ) (w : World S V)
      → IsTable w.fds
      → open_file w.fds fd ≡ some (n, f)
      → IsTable (seek_to ops n f o w).1.fds
  unfolding seek_to
  seek_to-IsTable fd n f none w t e = t
  seek_to-IsTable fd n f (some (negsuc k)) w t e = t
  seek_to-IsTable fd n f (some (pos k)) w t e = seek-IsTable fd n k f w w t e refl

  seek_vnode-IsTable :
      (fd : ℤ) (n : ℕ) (f : FileDesc V) (o : Option V) (offset whence : ℕ) (w : World S V)
      → IsTable w.fds
      → open_file w.fds fd ≡ some (n, f)
      → IsTable (seek_vnode ops n f o offset whence w).1.fds
  unfolding seek_vnode
  seek_vnode-IsTable fd n f none offset whence w t e = t
  seek_vnode-IsTable fd n f (some v) offset whence w t e = seek_to-IsTable fd n f _ w t e

  lseek-IsTable :
      (fd : ℤ) (offset whence : ℕ) (w : World S V)
      → IsTable w.fds
      → IsTable (lseek ops fd offset whence w).1.fds
  unfolding lseek
  lseek-IsTable fd offset whence w t = elim (Option-cases (open_file w.fds fd)) [
    | inl e ↦ rw (e, lseek) t
    | inr (r, e) ↦ rw (e, lseek) (seek_vnode-IsTable fd r.0 r.1 r.1.vnode offset whence w t e)
  ]

  advanced-IsTable :
      (fd : ℤ) (n offset : ℕ) (b : Bool) (f : FileDesc V) (w : World S V)
      → IsTable w.fds
      → open_file w.fds fd ≡ some (n, f)
      → IsTable (if b then seek n f offset w else w).fds
  advanced-IsTable fd n offset true f w t e = seek-IsTable fd n offset f w w t e refl
  advanced-IsTable fd n offset false f w t e = t

  do_read-IsTable :
      (fd : ℤ) (count offset : ℕ) (update : Bool) (w : World S V)
      → IsTable w.fds
      → IsTable (do_read ops fd count offset update w).1.fds
  unfolding do_read
  do_read-IsTable fd count offset update w t = by_entry (open_file w.fds fd) refl
    where
      by_entry :
          (o : Option (ℕ × FileDesc V))
          → open_file w.fds fd ≡ o
          → IsTable (do_read ops fd count offset update w).1.fds
      by_entry none e = rw (e, do_read) t
      by_entry (some (zero, f)) e = rw (e, do_read) t
      by_entry (some (suc n, f)) e = rw (e, do_read) (advanced-IsTable fd (suc n) _ _ f w t e)

  put_back-IsTable :
      (fd : ℤ) (n : ℕ) (f : FileDesc V) (w : World S V) (r : ℤ × ℕ × S)
      → IsTable w.fds
      → open_file w.fds fd ≡ some (n, f)
      → IsTable (put_back ops n f w r).1.fds
  unfolding put_back
  put_back-IsTable fd n f w (negsuc k, written, fs) t e = t
  put_back-IsTable fd n f w (pos (suc k), written, fs) t e = t
  put_back-IsTable fd n f w (pos zero, written, fs) t e =
      seek-IsTable fd n (add64 f.offset written) f w (record w { fs = fs }) t e refl

  write_vnode-IsTable :
      (bytes : List ℕ) (fd : ℤ) (n : ℕ) (f : FileDesc V) (o : Option V) (w : World S V)
      → IsTable w.fds
      → open_file w.fds fd ≡ some (n, f)
      → IsTable (write_vnode ops bytes n f o w).1.fds
  unfolding write_vnode
  write_vnode-IsTable bytes fd n f none w t e = t
  write_vnode-IsTable bytes fd n f (some v) w t e = elim (Bool-cases (ops.is_dir w.fs v)) [
    | inl y ↦ rw (y, write_vnode) t
    | inr d ↦
        rw (d, write_vnode)
          (elim (Option-cases (ops.write w.fs v)) [
            | inl z ↦ rw (z, write_vnode) t
            | inr (put, z) ↦
                rw (z, write_vnode) (put_back-IsTable fd n f w (put bytes f.offset) t e)
          ])
  ]

  do_write-IsTable :
      (bytes : List ℕ) (fd : ℤ) (w : World S V)
      → IsTable w.fds
      → IsTable (do_write ops bytes fd w).1.fds
  unfolding do_write
  do_write-IsTable bytes fd w t = elim (Option-cases (open_file w.fds fd)) [
    | inl e ↦ rw (e, do_write) t
    | inr (r, e) ↦
        rw (e, do_write)
          (elim (Bool-cases (r.0 == 1 || r.0 == 2)) [
            | inl y ↦ rw (y, do_write) t
            | inr n ↦ rw (n, do_write) (write_vnode-IsTable bytes fd r.0 r.1 r.1.vnode w t e)
          ])
  ]

  writev_loop-IsTable :
      (iov : List (List ℕ)) (fd : ℤ) (total : ℕ) (w : World S V)
      → IsTable w.fds
      → IsTable (writev_loop ops iov fd total w).1.fds
  unfolding writev_loop
  writev_loop-IsTable [] fd total w t = t
  writev_loop-IsTable (bytes ∷ iov) fd total w t =
      let u = do_write-IsTable bytes fd w t in
      elim (Bool-cases (to_u64 (do_write ops bytes fd w).0 == to_u64 ebadf)) [
        | inl y ↦ rw (y, writev_loop) u
        | inr n ↦
            rw (n, writev_loop)
              (elim (Bool-cases (ltb (to_u64 (do_write ops bytes fd w).0) (length bytes))) [
                | inl y ↦ rw (y, writev_loop) u
                | inr k ↦
                    rw (k, writev_loop) (writev_loop-IsTable iov fd _ (do_write ops bytes fd w).1 u)
              ])
      ]

  list_vnode-IsTable :
      (fd count : ℕ) (f : FileDesc V) (o : Option V) (w : World S V)
      → IsTable w.fds
      → get_elem? w.fds fd ≡ some f
      → f.vnode ≡ o
      → IsTable (list_vnode ops fd count f o w).1.fds
  unfolding list_vnode seek
  list_vnode-IsTable fd count f none w t e q = t
  list_vnode-IsTable fd count f (some v) w t e q = elim (Bool-cases (ops.is_dir w.fs v)) [
    | inr n ↦ rw (n, list_vnode) t
    | inl y ↦
        rw (y, list_vnode)
          (elim (Option-cases (ops.readdir w.fs v)) [
            | inl z ↦ rw (z, list_vnode) t
            | inr (readdir, z) ↦ rw (z, list_vnode) (listed _)
          ])
  ]
    where
      listed : (offset : ℕ) → IsTable (set w.fds fd (record f { offset = offset }))
      listed offset =
          set-IsTable w.fds fd (record f { offset = offset }) t
            (λ u.
              let z = ap (λ (x : FileDesc V). x.vnode) (t.cleared fd f e u) in
              absurd (Option.some-ne-none _ (sym q ∙ z)))
            (λ l u z. Option.some-ne-none _ (sym q ∙ z))

  getdents64-IsTable :
      (fd : ℤ) (buffer : Bool) (count : ℕ) (w u : World S V)
      → IsTable w.fds
      → call (call_getdents64 fd buffer count) w ≡ some u
      → IsTable u.fds
  unfolding call getdents64
  getdents64-IsTable fd false count w u t e = by_descriptor fd e
    where
      by_descriptor : (fd : ℤ) → call (call_getdents64 fd false count) w ≡ some u → IsTable u.fds
      by_descriptor (negsuc n) e =
          subst (λ (x : World S V). IsTable x.fds) (Option.some-injective _ _ e) t
      by_descriptor (pos n) e =
          subst (λ (x : World S V). IsTable x.fds) (Option.some-injective _ _ e) t
  getdents64-IsTable (negsuc n) true count w u t e = elim (Bool-cases (count == 0)) [
    | inl y ↦
        subst (λ (x : World S V). IsTable x.fds) (Option.some-injective _ _ (sym (empty y) ∙ e)) t
    | inr k ↦ absurd (Option.none-ne-some _ (sym (outside k) ∙ e))
  ]
    where
      empty : (count == 0) ≡ true → call (call_getdents64 (negsuc n) true count) w ≡ some w
      empty y = rw y refl

      outside : (count == 0) ≡ false → call (call_getdents64 (negsuc n) true count) w ≡ none
      outside k = rw k refl
  getdents64-IsTable (pos n) true count w u t e = elim (Bool-cases (count == 0)) [
    | inl y ↦
        subst (λ (x : World S V). IsTable x.fds) (Option.some-injective _ _ (sym (empty y) ∙ e)) t
    | inr k ↦ elim (Option-cases (get_elem? w.fds n)) [
      | inl z ↦ absurd (Option.none-ne-some _ (sym (outside k z) ∙ e))
      | inr (f, z) ↦
          subst (λ (x : World S V). IsTable x.fds)
            (Option.some-injective _ _ (sym (inside k f z) ∙ e))
            (list_vnode-IsTable n count f f.vnode w t z refl)
    ]
  ]
    where
      empty : (count == 0) ≡ true → call (call_getdents64 (pos n) true count) w ≡ some w
      empty y = rw y refl

      outside :
          (count == 0) ≡ false
          → get_elem? w.fds n ≡ none
          → call (call_getdents64 (pos n) true count) w ≡ none
      outside k z = rw k (rw z refl)

      inside :
          (count == 0) ≡ false
          → (f : FileDesc V) → get_elem? w.fds n ≡ some f
          → call (call_getdents64 (pos n) true count) w
            ≡ some (list_vnode ops n count f f.vnode w).1
      inside k f z = rw k (rw z refl)

  -- A call that returns `some` of what is a table leaves one.
  gave : (x u : World S V) → some x ≡ some u → IsTable x.fds → IsTable u.fds
  gave x u e t = subst (λ (y : World S V). IsTable y.fds) (Option.some-injective _ _ e) t

  call-IsTable :
      (c : Call) (w u : World S V) → GivesNode → IsTable w.fds → call c w ≡ some u → IsTable u.fds
  unfolding call read pread64 write writev
  call-IsTable (call_openat path flags) w u g t e = gave _ u e (openat-IsTable path flags w t g)
  call-IsTable (call_close fd) w u g t e = gave _ u e (close-IsTable fd w t)
  call-IsTable (call_lseek fd offset whence) w u g t e =
      gave _ u e (lseek-IsTable fd offset whence w t)
  call-IsTable (call_read fd count) w u g t e =
      gave _ u e (do_read-IsTable fd count (offset_of ops w.fds fd) true w t)
  call-IsTable (call_pread64 fd count offset) w u g t e =
      gave _ u e (do_read-IsTable fd count offset false w t)
  call-IsTable (call_write bytes fd) w u g t e = gave _ u e (do_write-IsTable bytes fd w t)
  call-IsTable (call_writev iov fd) w u g t e = gave _ u e (writev_loop-IsTable iov fd 0 w t)
  call-IsTable (call_getdents64 fd buffer count) w u g t e =
      getdents64-IsTable fd buffer count w u t e

  -- The table keeps its 32 entries under every sequence of openat, close, lseek, read, pread64, write,
  -- writev and getdents64 in which no getdents64 is called with a descriptor outside the table; entries
  -- not in use are cleared, and those from 3 on in use have a vnode, provided that a `vfs_open` that
  -- returns 0 has stored one.
  pub run-IsTable :
      (cs : List Call) (w u : World S V)
      → GivesNode
      → IsTable w.fds
      → run cs w ≡ some u
      → IsTable u.fds
  unfolding run
  run-IsTable [] w u g t e = gave w u e t
  run-IsTable (c ∷ cs) w u g t e = elim (Option-cases (call c w)) [
    | inl z ↦ absurd (Option.none-ne-some _ (sym (ended z) ∙ e))
    | inr (x, z) ↦ run-IsTable cs x u g (call-IsTable c w x g t z) (sym (goes_on x z) ∙ e)
  ]
    where
      ended : call c w ≡ none → run (c ∷ cs) w ≡ none
      ended z = rw (z, run) refl

      goes_on : (x : World S V) → call c w ≡ some x → run (c ∷ cs) w ≡ run cs x
      goes_on x z = rw (z, run) refl
