-- ===== src/Linux/Reading.antt =====
-- read, pread64 and lseek of src/exec/syscalls/linux: how they use the offset of a descriptor.
use utopia.Base.{
  ℕ, zero, suc, ◌^◌, ◌<◌, ◌≡◌, refl, sym, ap, ◌∙◌, subst, ◌⊎◌, inl, inr, Bool, true, false, ◌&&◌,
  Option, none, some, List, [], arith, if◌then◌else◌, Bool-cases, Option-cases, add64, length,
  get_elem?, set, ℤ, pos, negsuc,
}
use mathlib.Core.Option
use utopia.Linux.{
  in_use, FileOps, FileDesc, World, ebadf, open_file, seek, seek_to, seek_vnode, target, lseek, Got,
  read_vnode, do_read, offset_of, read, pread64,
}
use utopia.Linux.Table.{get-set}
use utopia.Linux.Opening.{open_file-get}

module _ {V : Type 0} where
  in_use-some :
      (m n : ℕ) (o : Option (FileDesc V)) (f : FileDesc V)
      → in_use m o ≡ some (n, f)
      → (m ≡ n) × (o ≡ some f) × (f.used ≡ true)
  unfolding in_use
  in_use-some m n none f e = absurd (Option.none-ne-some _ e)
  in_use-some m n (some g) f e = elim (Bool-cases g.used) [
    | inr u ↦ absurd (Option.none-ne-some _ (sym (unused u) ∙ e))
    | inl u ↦
        let q = Option.some-injective _ _ (sym (used u) ∙ e) in
        let gf : g ≡ f = ap (λ (r : ℕ × FileDesc V). r.1) q in
        (
          ap (λ (r : ℕ × FileDesc V). r.0) q,
          ap some gf,
          ap (λ (x : FileDesc V). x.used) (sym gf) ∙ u,
        )
  ]
    where
      unused : g.used ≡ false → in_use m (some g) ≡ none
      unused u = simp (u, in_use) refl

      used : g.used ≡ true → in_use m (some g) ≡ some (m, g)
      used u = simp (u, in_use) refl

  -- An open descriptor is the number of an entry in use.
  pub open_file-some :
      (fds : List (FileDesc V)) (fd : ℤ) (n : ℕ) (f : FileDesc V)
      → open_file fds fd ≡ some (n, f)
      → (fd ≡ pos n) × (get_elem? fds n ≡ some f) × (f.used ≡ true)
  unfolding open_file
  open_file-some fds (negsuc m) n f e = absurd (Option.none-ne-some _ e)
  open_file-some fds (pos m) n f e =
      let (q, g, u) = in_use-some m n (get_elem? fds m) f e in
      (ap pos q, ap (get_elem? fds) (sym q) ∙ g, u)

module _ {S V : Type 0} (ops : FileOps S V) where
  do_read-closed :
      (fd : ℤ) (count offset : ℕ) (update : Bool) (w : World S V)
      → open_file w.fds fd ≡ none
      → do_read ops fd count offset update w ≡ ((ebadf, []), w)
  unfolding do_read
  do_read-closed fd count offset update w e = rw (e, do_read) refl

  do_read-keyboard :
      (fd : ℤ) (count offset : ℕ) (update : Bool) (w : World S V) (f : FileDesc V)
      → open_file w.fds fd ≡ some (0, f)
      → do_read ops fd count offset update w
        ≡ (let r = ops.keyboard_read count w.fs in ((pos (length r.0), r.0), record w { fs = r.1 }))
  unfolding do_read
  do_read-keyboard fd count offset update w f e = rw (e, do_read) refl

  pub do_read-file :
      (fd : ℤ) (count offset n : ℕ) (update : Bool) (w : World S V) (f : FileDesc V)
      → open_file w.fds fd ≡ some (suc n, f)
      → do_read ops fd count offset update w ≡ (
          let r = read_vnode ops w.fs f.vnode count offset in
          (r.1, if update && r.0 then seek (suc n) f (add64 f.offset (length r.1.1)) w else w))
  unfolding do_read
  do_read-file fd count offset n update w f e = rw (e, do_read) refl

  data Opened (w : World S V) (fd : ℤ) : Type 0 where
    closed : open_file w.fds fd ≡ none → Opened w fd
    console : (f : FileDesc V) → open_file w.fds fd ≡ some (0, f) → Opened w fd
    file : (n : ℕ) (f : FileDesc V) → open_file w.fds fd ≡ some (suc n, f) → Opened w fd

  opened_cases : (w : World S V) (fd : ℤ) → Opened w fd
  opened_cases w fd = go (open_file w.fds fd) refl
    where
      go : (o : Option (ℕ × FileDesc V)) → open_file w.fds fd ≡ o → Opened w fd
      go none e = closed e
      go (some (zero, f)) e = console f e
      go (some (suc n, f)) e = file n f e

  -- The rest of the kernel after a read of what `open_file` gave: only the console takes something, out
  -- of the input ring.
  pub taken : ℕ → S → Option (ℕ × FileDesc V) → S
  taken count fs none = fs
  taken count fs (some (zero, f)) = (ops.keyboard_read count fs).1
  taken count fs (some (suc n, f)) = fs

  -- What `pread64` of any descriptor changes.
  do_read-peek :
      (fd : ℤ) (count offset : ℕ) (w : World S V)
      → (do_read ops fd count offset false w).1
        ≡ record w { fs = taken count w.fs (open_file w.fds fd) }
  unfolding taken
  do_read-peek fd count offset w = elim (opened_cases w fd) [
    | closed e ↦
        ap (λ (r : Got ops × World S V). r.1) (do_read-closed fd count offset false w e)
        ∙ ap (λ o. record w { fs = taken count w.fs o }) (sym e)
    | console f e ↦
        ap (λ (r : Got ops × World S V). r.1) (do_read-keyboard fd count offset false w f e)
        ∙ ap (λ o. record w { fs = taken count w.fs o }) (sym e)
    | file n f e ↦
        ap (λ (r : Got ops × World S V). r.1) (do_read-file fd count offset n false w f e)
        ∙ ap (λ o. record w { fs = taken count w.fs o }) (sym e)
  ]

  -- An open descriptor after its offset has been set.
  pub sought :
      (w : World S V) (n offset : ℕ) (f : FileDesc V)
      → open_file w.fds (pos n) ≡ some (n, f)
      → open_file (seek n f offset w).fds (pos n) ≡ some (n, record f { offset = offset })
  unfolding seek
  sought w n offset f e =
      let (q, g, u) = open_file-some w.fds (pos n) n f e in
      open_file-get (set w.fds n (record f { offset = offset })) n (record f { offset = offset })
        (get-set w.fds n f (record f { offset = offset }) g) u

  pub offset-open :
      (fds : List (FileDesc V)) (n : ℕ) (f : FileDesc V)
      → open_file fds (pos n) ≡ some (n, f)
      → offset_of ops fds (pos n) ≡ f.offset
  unfolding offset_of
  offset-open fds n f e = let (q, g, u) = open_file-some fds (pos n) n f e in rw (g, offset_of) refl

  read-sought :
      (count offset n : ℕ) (f : FileDesc V) (w : World S V)
      → open_file w.fds (pos (suc n)) ≡ some (suc n, f)
      → (read ops (pos (suc n)) count (seek (suc n) f offset w)).0
        ≡ (read_vnode ops w.fs f.vnode count offset).1
  unfolding read seek
  read-sought count offset n f w e =
      let e' = sought w (suc n) offset f e in
      ap (λ (r : Got ops × World S V). r.0)
        (do_read-file (pos (suc n)) count _ n true (seek (suc n) f offset w)
          (record f { offset = offset }) e')
      ∙ ap (λ o. (read_vnode ops w.fs f.vnode count o).1)
          (offset-open (seek (suc n) f offset w).fds (suc n) (record f { offset = offset }) e')

  read-nothing :
      (count offset n : ℕ) (f : FileDesc V) (w : World S V)
      → open_file w.fds (pos (suc n)) ≡ some (suc n, f)
      → f.vnode ≡ none
      → (read ops (pos (suc n)) count w).0 ≡ (read_vnode ops w.fs f.vnode count offset).1
  unfolding read read_vnode
  read-nothing count offset n f w e v =
      ap (λ (r : Got ops × World S V). r.0) (do_read-file (pos (suc n)) count _ n true w f e)
      ∙ ap (λ o. (read_vnode ops w.fs o count (offset_of ops w.fds (pos (suc n)))).1) v
      ∙ sym (ap (λ o. (read_vnode ops w.fs o count offset).1) v)

  lseek-closed :
      (fd : ℤ) (offset : ℕ) (w : World S V)
      → open_file w.fds fd ≡ none
      → lseek ops fd offset 0 w ≡ (ebadf, w)
  unfolding lseek
  lseek-closed fd offset w e = rw (e, lseek) refl

  lseek-nothing :
      (fd : ℤ) (offset n : ℕ) (f : FileDesc V) (w : World S V)
      → open_file w.fds fd ≡ some (n, f)
      → f.vnode ≡ none
      → lseek ops fd offset 0 w ≡ (ebadf, w)
  unfolding lseek seek_vnode
  lseek-nothing fd offset n f w e v = rw (e, lseek) (ap (λ o. seek_vnode ops n f o offset 0 w) v)

  start_target :
      (w : World S V) (f : FileDesc V) (v : V) (offset : ℕ)
      → offset < 2 ^ 63
      → target ops w f v offset 0 ≡ some (pos offset)
  unfolding target
  start_target w f v offset h = ground arith

  lseek-start :
      (fd : ℤ) (offset n : ℕ) (f : FileDesc V) (v : V) (w : World S V)
      → offset < 2 ^ 63
      → open_file w.fds fd ≡ some (n, f)
      → f.vnode ≡ some v
      → lseek ops fd offset 0 w ≡ (pos offset, seek n f offset w)
  unfolding lseek seek_vnode seek_to
  lseek-start fd offset n f v w h e g =
      rw (e, lseek)
        (ap (λ o. seek_vnode ops n f o offset 0 w) g
          ∙ ap (λ t. seek_to ops n f t w) (start_target w f v offset h))

  abbrev after_seek : ℤ → ℕ → World S V → World S V
  after_seek fd offset w = (lseek ops fd offset 0 w).1

  abbrev SameRead : ℤ → ℕ → ℕ → World S V → Type 0
  SameRead fd count offset w =
      (read ops fd count (after_seek fd offset w)).0 ≡ (do_read ops fd count offset false w).0

  read-closed :
      (fd : ℤ) (count : ℕ) (w : World S V)
      → open_file w.fds fd ≡ none
      → read ops fd count w ≡ ((ebadf, []), w)
  unfolding read
  read-closed fd count w e = do_read-closed fd count (offset_of ops w.fds fd) true w e

  read-keyboard :
      (fd : ℤ) (count : ℕ) (w : World S V) (f : FileDesc V)
      → open_file w.fds fd ≡ some (0, f)
      → read ops fd count w
        ≡ (let r = ops.keyboard_read count w.fs in ((pos (length r.0), r.0), record w { fs = r.1 }))
  unfolding read
  read-keyboard fd count w f e = do_read-keyboard fd count (offset_of ops w.fds fd) true w f e

  same-closed :
      (fd : ℤ) (count offset : ℕ) (w : World S V)
      → open_file w.fds fd ≡ none
      → SameRead fd count offset w
  same-closed fd count offset w e =
      ap (λ (r : ℤ × World S V). (read ops fd count r.1).0) (lseek-closed fd offset w e)
      ∙ ap (λ (r : Got ops × World S V). r.0)
          (read-closed fd count w e ∙ sym (do_read-closed fd count offset false w e))

  same-console :
      (count offset : ℕ) (w : World S V) (f : FileDesc V)
      → offset < 2 ^ 63
      → open_file w.fds (pos 0) ≡ some (0, f)
      → SameRead (pos 0) count offset w
  unfolding seek
  same-console count offset w f h e =
      console_read (Option-cases f.vnode)
      ∙ ap (λ (r : Got ops × World S V). r.0)
          (sym (do_read-keyboard (pos 0) count offset false w f e))
    where
      console_read :
          (f.vnode ≡ none) ⊎ ((v : V) × (f.vnode ≡ some v))
          → (read ops (pos 0) count (after_seek (pos 0) offset w)).0
            ≡ (let r = ops.keyboard_read count w.fs in (pos (length r.0), r.0))
      console_read (inl v) =
          ap (λ (r : ℤ × World S V). (read ops (pos 0) count r.1).0)
            (lseek-nothing (pos 0) offset 0 f w e v)
          ∙ ap (λ (r : Got ops × World S V). r.0) (read-keyboard (pos 0) count w f e)
      console_read (inr (v, q)) =
          ap (λ (r : ℤ × World S V). (read ops (pos 0) count r.1).0)
            (lseek-start (pos 0) offset 0 f v w h e q)
          ∙ ap (λ (r : Got ops × World S V). r.0)
              (read-keyboard (pos 0) count (seek 0 f offset w) _ (sought w 0 offset f e))

  same-file :
      (count offset n : ℕ) (w : World S V) (f : FileDesc V)
      → offset < 2 ^ 63
      → open_file w.fds (pos (suc n)) ≡ some (suc n, f)
      → SameRead (pos (suc n)) count offset w
  same-file count offset n w f h e =
      file_read (Option-cases f.vnode)
      ∙ ap (λ (r : Got ops × World S V). r.0)
          (sym (do_read-file (pos (suc n)) count offset n false w f e))
    where
      file_read :
          (f.vnode ≡ none) ⊎ ((v : V) × (f.vnode ≡ some v))
          → (read ops (pos (suc n)) count (after_seek (pos (suc n)) offset w)).0
            ≡ (read_vnode ops w.fs f.vnode count offset).1
      file_read (inl v) =
          ap (λ (r : ℤ × World S V). (read ops (pos (suc n)) count r.1).0)
            (lseek-nothing (pos (suc n)) offset (suc n) f w e v)
          ∙ read-nothing count offset n f w e v
      file_read (inr (v, q)) =
          ap (λ (r : ℤ × World S V). (read ops (pos (suc n)) count r.1).0)
            (lseek-start (pos (suc n)) offset (suc n) f v w h e q)
          ∙ read-sought count offset n f w e

  -- After a `lseek` to `offset` from the start, `read` gives what `pread64` gives at that offset, for
  -- any descriptor. `pread64` changes nothing, but that on the console, the descriptor 0, it takes what
  -- it gives out of the input ring. The offset is one that the source's `int64_t` holds.
  pub read-lseek :
      (fd : ℤ) (count offset : ℕ) (w : World S V)
      → offset < 2 ^ 63
      → ((read ops fd count (lseek ops fd offset 0 w).1).0 ≡ (pread64 ops fd count offset w).0)
        × ((pread64 ops fd count offset w).1
            ≡ record w { fs = taken count w.fs (open_file w.fds fd) })
  unfolding pread64
  read-lseek fd count offset w h = (same (opened_cases w fd), do_read-peek fd count offset w)
    where
      same : Opened w fd → SameRead fd count offset w
      same (closed e) = same-closed fd count offset w e
      same (console f e) =
          let q = (open_file-some w.fds fd 0 f e).0 in
          subst (λ d. SameRead d count offset w) (sym q)
            (same-console count offset w f h (subst (λ d. open_file w.fds d ≡ some (0, f)) q e))
      same (file n f e) =
          let q = (open_file-some w.fds fd (suc n) f e).0 in
          subst (λ d. SameRead d count offset w) (sym q)
            (same-file count offset n w f h (subst (λ d. open_file w.fds d ≡ some (suc n, f)) q e))
