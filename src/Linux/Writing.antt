-- ===== src/Linux/Writing.antt =====
-- write and writev of src/exec/syscalls/linux/io.c.
use utopia.Base.{
  ℕ, ◌+◌, ◌-◌, ◌^◌, ◌≤◌, ◌<◌, ◌≡◌, refl, sym, ap, ap₂, ◌∙◌, true, false, ◌||◌, some, List, [], ◌∷◌,
  ◌++◌, append-nil, append_assoc, arith, ltb, ◌==◌, add64, length, length-append, ℤ, pos,
}
use utopia.Linux.{
  FileOps, FileDesc, World, errno, ebadf, eisdir, to_u64, open_file, do_write, write_vnode,
  writev_loop, writev,
}

-- The bytes of all vectors.
unfoldable pub concat : List (List ℕ) → List ℕ
concat [] = []
concat (bytes ∷ iov) = bytes ++ concat iov

module _ {S V : Type 0} (ops : FileOps S V) where
  print : List ℕ → World S V → World S V
  print bytes w = record w { printed = w.printed ++ bytes }

  write-console :
      (bytes : List ℕ) (n : ℕ) (w : World S V) (f : FileDesc V)
      → open_file w.fds (pos n) ≡ some (n, f)
      → (n == 1 || n == 2) ≡ true
      → do_write ops bytes (pos n) w ≡ (pos (length bytes), print bytes w)
  unfolding do_write print
  write-console bytes n w f e c = rw (e, do_write) (rw (c, do_write) refl)

  -- The loop goes on after a write that was neither `-EBADF` nor short.
  writev-next :
      (bytes : List ℕ) (iov : List (List ℕ)) (fd : ℤ) (total : ℕ) (w : World S V)
      → (to_u64 (do_write ops bytes fd w).0 == to_u64 ebadf) ≡ false
      → ltb (to_u64 (do_write ops bytes fd w).0) (length bytes) ≡ false
      → writev_loop ops (bytes ∷ iov) fd total w
        ≡ writev_loop ops iov fd
            (add64 total (to_u64 (do_write ops bytes fd w).0))
            (do_write ops bytes fd w).1
  unfolding writev_loop
  writev-next bytes iov fd total w e f = rw (e, writev_loop) (rw (f, writev_loop) refl)

  -- A write to the console, whatever is to be written next.
  console_next :
      (bytes : List ℕ) (iov : List (List ℕ)) (n total : ℕ) (w : World S V) (f : FileDesc V)
      → open_file w.fds (pos n) ≡ some (n, f)
      → (n == 1 || n == 2) ≡ true
      → total + length bytes < 2 ^ 63
      → writev_loop ops (bytes ∷ iov) (pos n) total w
        ≡ writev_loop ops iov (pos n) (total + length bytes) (print bytes w)
  console_next bytes iov n total w f e c h =
      let r = write-console bytes n w f e c in
      let ret : to_u64 (do_write ops bytes (pos n) w).0 ≡ length bytes =
        ap (λ (x : ℤ × World S V). to_u64 x.0) r ∙ small (length bytes) (omega arith) in
      writev-next bytes iov (pos n) total w (rw ret (ground arith)) (rw ret (ground arith))
      ∙ ap₂ (λ x y. writev_loop ops iov (pos n) x y)
          (ap (add64 total) ret ∙ sum total (length bytes) h) (ap (λ (x : ℤ × World S V). x.1) r)
    where
      small : (k : ℕ) → k < 2 ^ 63 → to_u64 (pos k) ≡ k
      small k h = omega arith

      sum : (t k : ℕ) → t + k < 2 ^ 63 → add64 t k ≡ t + k
      sum t k h = omega arith

  -- The loop, with `total` bytes written before.
  loop-console :
      (iov : List (List ℕ)) (n total : ℕ) (w : World S V) (f : FileDesc V)
      → open_file w.fds (pos n) ≡ some (n, f)
      → (n == 1 || n == 2) ≡ true
      → total + length (concat iov) < 2 ^ 63
      → writev_loop ops iov (pos n) total w
        ≡ (pos (total + length (concat iov)), print (concat iov) w)
  unfolding writev_loop print concat
  loop-console [] n total w f e c h =
      ap₂ (λ x y. (x, record w { printed = y })) (ground arith) (sym (append-nil w.printed))
  loop-console (bytes ∷ iov) n total w f e c h =
      let both = length-append bytes (concat iov) in
      console_next bytes iov n total w f e c (omega (arith, both))
      ∙ loop-console iov n (total + length bytes) (print bytes w) f e c (omega (arith, both))
      ∙ ap₂ (λ x y. (pos x, record w { printed = y })) (omega (arith, both))
          (append_assoc w.printed bytes (concat iov))

  -- A `writev` on the descriptor 1 or 2 prints the bytes of all vectors in order and returns how many
  -- they are, when that is below 2^63.
  pub writev-concat :
      (iov : List (List ℕ)) (n : ℕ) (w : World S V) (f : FileDesc V)
      → open_file w.fds (pos n) ≡ some (n, f)
      → (n == 1 || n == 2) ≡ true
      → length (concat iov) < 2 ^ 63
      → writev ops iov (pos n) w
        ≡ (pos (length (concat iov)), record w { printed = w.printed ++ concat iov })
  unfolding writev print
  writev-concat iov n w f e c h =
      loop-console iov n 0 w f e c (omega arith)
      ∙ ap (λ x. (pos x, print (concat iov) w)) (omega arith)

  not_console : (n : ℕ) → 3 ≤ n → (n == 1 || n == 2) ≡ false
  not_console n h = ground arith

  write-dir :
      (bytes : List ℕ) (n : ℕ) (w : World S V) (f : FileDesc V) (v : V)
      → open_file w.fds (pos n) ≡ some (n, f)
      → 3 ≤ n
      → f.vnode ≡ some v
      → ops.is_dir w.fs v ≡ true
      → do_write ops bytes (pos n) w ≡ (eisdir, w)
  unfolding do_write write_vnode
  write-dir bytes n w f v e h q d =
      rw (e, do_write)
        (rw (not_console n h, do_write)
          (ap (λ o. write_vnode ops bytes n f o w) q ∙ rw (d, write_vnode) refl))

  dir_next :
      (bytes : List ℕ) (iov : List (List ℕ)) (n total : ℕ) (w : World S V) (f : FileDesc V) (v : V)
      → open_file w.fds (pos n) ≡ some (n, f)
      → 3 ≤ n
      → f.vnode ≡ some v
      → ops.is_dir w.fs v ≡ true
      → length bytes < 2 ^ 63
      → writev_loop ops (bytes ∷ iov) (pos n) total w
        ≡ writev_loop ops iov (pos n) (add64 total (2 ^ 64 - 21)) w
  dir_next bytes iov n total w f v e h q d k =
      let r = write-dir bytes n w f v e h q d in
      let ret : to_u64 (do_write ops bytes (pos n) w).0 ≡ 2 ^ 64 - 21 =
        ap (λ (x : ℤ × World S V). to_u64 x.0) r in
      writev-next bytes iov (pos n) total w (rw ret refl) (rw ret (ground arith))
      ∙ ap₂ (λ x y. writev_loop ops iov (pos n) x y) (ap (add64 total) ret)
          (ap (λ (x : ℤ × World S V). x.1) r)

  -- A `writev` of two vectors on a directory adds the two errors: it returns -42, which is no error
  -- of a write, where one vector gives `-EISDIR`.
  pub writev_dir_adds :
      (a b : List ℕ) (n : ℕ) (w : World S V) (f : FileDesc V) (v : V)
      → open_file w.fds (pos n) ≡ some (n, f)
      → 3 ≤ n
      → f.vnode ≡ some v
      → ops.is_dir w.fs v ≡ true
      → length a < 2 ^ 63
      → length b < 2 ^ 63
      → ((writev ops (a ∷ []) (pos n) w).0 ≡ eisdir)
        × ((writev ops (a ∷ b ∷ []) (pos n) w).0 ≡ errno 42)
  unfolding writev
  writev_dir_adds a b n w f v e h q d k l = (
    ap (λ (x : ℤ × World S V). x.0) (dir_next a [] n 0 w f v e h q d k),
    ap (λ (x : ℤ × World S V). x.0)
        (dir_next a (b ∷ []) n 0 w f v e h q d k ∙ dir_next b [] n (2 ^ 64 - 21) w f v e h q d l),
  )
