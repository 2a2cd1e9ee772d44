-- ===== src/Linux/Opening.antt =====
-- openat and close of src/exec/syscalls/linux/common.c: which descriptor a file gets, and that
-- closing it undoes the opening.
use utopia.Base.{
  ℕ, ◌/◌, ◌%◌, ◌≡◌, refl, sym, ap, ◌∙◌, ◌⊎◌, inl, inr, true, none, some, List, ◌==◌, if◌then◌else◌,
  Option-cases, get_elem?, set, ℤ, pos, negsuc,
}
use utopia.Linux.{
  in_use, FileOps, FileDesc, World, emfile, open_file, free_fd, opened, openat, close,
}
use utopia.Linux.Table.{
  Lowest, AllUsed, blank, IsTable, free_fd-found, free_fd-full, set-set, set-same, get-set,
}

pos_injective : {m n : ℕ} → pos m ≡ pos n → m ≡ n
pos_injective e = ap magnitude e
  where
    magnitude : ℤ → ℕ
    magnitude (pos n) = n
    magnitude (negsuc n) = n

module _ {V : Type 0} where
  pub open_file-get :
      (fds : List (FileDesc V)) (n : ℕ) (f : FileDesc V)
      → get_elem? fds n ≡ some f
      → f.used ≡ true
      → open_file fds (pos n) ≡ some (n, f)
  unfolding open_file in_use
  open_file-get fds n f e u = ap (in_use n) e ∙ simp (u, in_use) refl

  -- An entry that is set to one in use is open.
  reopened :
      (fds : List (FileDesc V)) (fd : ℕ) (g : FileDesc V)
      → Lowest 3 fds fd
      → g.used ≡ true
      → open_file (set fds fd g) (pos fd) ≡ some (fd, g)
  unfolding Lowest
  reopened fds fd g low u = open_file-get (set fds fd g) fd g (get-set fds fd low.1.0 g low.1.1) u

  was_blank :
      (fds : List (FileDesc V)) (fd : ℕ) → IsTable fds → Lowest 3 fds fd → set fds fd blank ≡ fds
  unfolding Lowest
  was_blank fds fd t low =
      let (f, e, u) = low.1 in set-same fds fd blank (e ∙ ap some (t.cleared fd f e u))

module _ {S V : Type 0} where
  close-open :
      (w : World S V) (n : ℕ) (f : FileDesc V)
      → open_file w.fds (pos n) ≡ some (n, f)
      → close (pos n) w ≡ (pos 0, record w { fds = set w.fds n blank })
  unfolding close
  close-open w n f e = rw (e, close) refl

module _ {S V : Type 0} (ops : FileOps S V) where
  -- The entry for a vnode that was opened.
  unfoldable pub entry_for : ℕ → V → S → FileDesc V
  entry_for flags v fs = record {
    vnode = some v;
    offset = if flags / 0x400 % 2 == 1 then ops.size fs v else 0;
    flags = flags;
    used = true;
  }

  openat-opened :
      (path : List ℕ) (flags fd : ℕ) (v : V) (fs : S) (w : World S V)
      → ops.open_path path flags w.fs ≡ (pos 0, some v, fs)
      → free_fd w.fds ≡ some fd
      → openat ops (some path) flags w
        ≡ (pos fd, record w { fds = set w.fds fd (entry_for flags v fs); fs = fs })
  unfolding openat opened entry_for
  openat-opened path flags fd v fs w e f = rw (f, openat) (ap (opened ops fd flags w) e)

  openat-full :
      (path : List ℕ) (flags : ℕ) (w : World S V)
      → free_fd w.fds ≡ none
      → openat ops (some path) flags w ≡ (emfile, w)
  unfolding openat
  openat-full path flags w f = rw (f, openat) refl

  -- Opening a path that `vfs_open` finds gives the lowest descriptor from 3 on that is not in use, and
  -- that is then open on the vnode, or returns `-EMFILE` and changes nothing when all are in use.
  pub openat-Lowest :
      (path : List ℕ) (flags : ℕ) (v : V) (fs : S) (w : World S V)
      → ops.open_path path flags w.fs ≡ (pos 0, some v, fs)
      → ((fd : ℕ) × ((openat ops (some path) flags w).0 ≡ pos fd)
          × Lowest 3 w.fds fd
          × (open_file (openat ops (some path) flags w).1.fds (pos fd)
              ≡ some (fd, entry_for flags v fs)))
        ⊎ ((openat ops (some path) flags w ≡ (emfile, w)) × AllUsed 3 w.fds)
  unfolding open_file entry_for
  openat-Lowest path flags v fs w e = elim (Option-cases (free_fd w.fds)) [
    | inl f ↦ inr (openat-full path flags w f, free_fd-full w.fds f)
    | inr (fd, f) ↦
        let low = free_fd-found w.fds fd f in
        let o = openat-opened path flags fd v fs w e f in
        inl (
          fd,
          ap (λ (r : ℤ × World S V). r.0) o,
          low,
          ap (λ (r : ℤ × World S V). open_file r.1.fds (pos fd)) o
              ∙ reopened w.fds fd (entry_for flags v fs) low refl,
        )
  ]

  -- In a table whose unused entries are cleared, closing the descriptor that an `openat` gave leaves
  -- every entry as it was before.
  pub close-openat :
      (path : List ℕ) (flags fd : ℕ) (v : V) (fs : S) (w : World S V)
      → IsTable w.fds
      → ops.open_path path flags w.fs ≡ (pos 0, some v, fs)
      → (openat ops (some path) flags w).0 ≡ pos fd
      → close (pos fd) (openat ops (some path) flags w).1 ≡ (pos 0, record w { fs = fs })
  unfolding entry_for
  close-openat path flags fd v fs w t e r = elim (Option-cases (free_fd w.fds)) [
    | inl f ↦
        let z : ◌≡◌ {A = ℤ} emfile (pos fd) =
          ap (λ (r : ℤ × World S V). r.0) (sym (openat-full path flags w f)) ∙ r in
        absurd (cc)
    | inr (n, f) ↦
        let low = free_fd-found w.fds n f in
        let o = openat-opened path flags n v fs w e f in
        let nf : n ≡ fd = pos_injective (sym (ap (λ (r : ℤ × World S V). r.0) o) ∙ r) in
        ap (λ (r : ℤ × World S V). close (pos fd) r.1) o
        ∙ ap (λ m. close (pos m) (record w { fds = set w.fds n (entry_for flags v fs); fs = fs }))
            (sym nf)
        ∙ close-open _ n (entry_for flags v fs) (reopened w.fds n (entry_for flags v fs) low refl)
        ∙ ap (λ l. (pos 0, record w { fds = l; fs = fs }))
            (set-set w.fds n (entry_for flags v fs) blank ∙ was_blank w.fds n t low)
  ]
