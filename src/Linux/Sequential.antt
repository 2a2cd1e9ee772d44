-- ===== src/Linux/Sequential.antt =====
-- read of src/exec/syscalls/linux/io.c, one call after the other on the same descriptor.
use utopia.Base.{
  ℕ, zero, suc, ◌+◌, ◌^◌, ◌≤◌, ◌<◌, ◌≡◌, refl, sym, ap, ap₂, ◌∙◌, Bool, true, false, some, List, [],
  ◌∷◌, ◌++◌, arith, if◌then◌else◌, add64, length, take, drop, length-append, ℤ, pos,
}
use utopia.Linux.{
  FileOps, FileDesc, World, open_file, seek, Got, given, read_vnode, do_read, offset_of, read,
}
use utopia.Linux.Table.{set-set}
use utopia.Linux.Reading.{do_read-file, sought, offset-open}

take_nil : (n : ℕ) → take {A = ℕ} n [] ≡ []
take_nil zero = refl
take_nil (suc n) = refl

drop_nil : (n : ℕ) → drop {A = ℕ} n [] ≡ []
drop_nil zero = refl
drop_nil (suc n) = refl

take-split :
    (m n : ℕ) (xs : List ℕ) → take m xs ++ take n (drop (length (take m xs)) xs) ≡ take (m + n) xs
take-split zero n xs = ap (λ k. take k xs) (omega arith)
take-split (suc m) n [] = take_nil n ∙ sym (take_nil (suc m + n))
take-split (suc m) n (x ∷ xs) =
    ap (λ l. x ∷ l) (take-split m n xs)
    ∙ ap (λ k. take k (x ∷ xs)) {x = suc (m + n)} {y = suc m + n} (omega arith)

drop-add : (m n : ℕ) (xs : List ℕ) → drop n (drop m xs) ≡ drop (m + n) xs
drop-add zero n xs = ap (λ k. drop k xs) (omega arith)
drop-add (suc m) n [] = drop_nil n ∙ sym (drop_nil (suc m + n))
drop-add (suc m) n (x ∷ xs) =
    drop-add m n xs ∙ ap (λ k. drop k (x ∷ xs)) {x = suc (m + n)} {y = suc m + n} (omega arith)

length-take_le : (n : ℕ) (xs : List ℕ) → length (take n xs) ≤ n
length-take_le zero xs = omega arith
length-take_le (suc n) [] = omega arith
length-take_le (suc n) (x ∷ xs) = omega (arith, length-take_le n xs)

-- The `read` of a file with the bytes `content`: it returns 0 and stores what there is from the
-- offset on, at most the bytes asked for.
unfoldable pub Serves : (ℕ → ℕ → ℤ × List ℕ) → List ℕ → Type 0
Serves get content = (n offset : ℕ) → get n offset ≡ (pos 0, take n (drop offset content))

module _ {S V : Type 0} (ops : FileOps S V) (k : ℕ) (v : V) (get : ℕ → ℕ → ℤ × List ℕ)
    (content : List ℕ) where
  -- The descriptor `suc k` of the world is open on the file.
  pub record OnFile (w : World S V) (f : FileDesc V) : Type 0 where
    pub opened : open_file w.fds (pos (suc k)) ≡ some (suc k, f)
    pub vnode : f.vnode ≡ some v
    pub is_file : ops.is_dir w.fs v ≡ false
    pub reads : ops.read w.fs v ≡ some get

  bytes_at : ℕ → ℕ → List ℕ
  bytes_at n offset = take n (drop offset content)

  vnode_read :
      (fs : S) (n offset : ℕ)
      → Serves get content
      → ops.is_dir fs v ≡ false
      → ops.read fs v ≡ some get
      → read_vnode ops fs (some v) n offset
        ≡ (true, (pos (length (bytes_at n offset)), bytes_at n offset))
  unfolding read_vnode given Serves bytes_at
  vnode_read fs n offset s d r =
      rw (d, read_vnode) (rw (r, read_vnode) (ap (given ops) (s n offset)))

  no_wrap : (n o : ℕ) → o + n < 2 ^ 64 → add64 o (length (bytes_at n o)) ≡ o + length (bytes_at n o)
  unfolding bytes_at
  no_wrap n o h = omega (arith, length-take_le n (drop o content))

  read_step :
      (n : ℕ) (w : World S V) (f : FileDesc V)
      → Serves get content
      → OnFile w f
      → f.offset + n < 2 ^ 64
      → read ops (pos (suc k)) n w ≡ (
        (pos (length (bytes_at n f.offset)), bytes_at n f.offset),
        seek (suc k) f (f.offset + length (bytes_at n f.offset)) w,
      )
  unfolding read
  read_step n w f s on h =
      ap (λ o. do_read ops (pos (suc k)) n o true w) {x = offset_of ops w.fds (pos (suc k))}
        (offset-open ops w.fds (suc k) f on.opened)
      ∙ do_read-file ops (pos (suc k)) n f.offset k true w f on.opened
      ∙ ap
          (λ (r : Bool × Got ops).
            (r.1, if r.0 then seek (suc k) f (add64 f.offset (length r.1.1)) w else w))
          (ap (λ o. read_vnode ops w.fs o n f.offset) on.vnode
            ∙ vnode_read w.fs n f.offset s on.is_file on.reads)
      ∙ ap (λ o. ((pos (length (bytes_at n f.offset)), bytes_at n f.offset), seek (suc k) f o w))
          (no_wrap n f.offset h)

  abbrev f1 : ℕ → FileDesc V → FileDesc V
  f1 m f = record f { offset = f.offset + length (bytes_at m f.offset) }

  abbrev w1 : ℕ → World S V → FileDesc V → World S V
  w1 m w f = seek (suc k) f (f.offset + length (bytes_at m f.offset)) w

  still : (m : ℕ) (w : World S V) (f : FileDesc V) → OnFile w f → OnFile (w1 m w f) (f1 m f)
  unfolding seek
  still m w f on = record {
    opened = sought ops w (suc k) (f.offset + length (bytes_at m f.offset)) f on.opened;
    vnode = on.vnode;
    is_file = on.is_file;
    reads = on.reads;
  }

  later : (m n : ℕ) (f : FileDesc V) → f.offset + m + n < 2 ^ 64 → (f1 m f).offset + n < 2 ^ 64
  unfolding bytes_at
  later m n f h = omega (arith, length-take_le m (drop f.offset content))

  joined :
      (m n : ℕ) (f : FileDesc V)
      → bytes_at m f.offset ++ bytes_at n (f1 m f).offset ≡ bytes_at (m + n) f.offset
  unfolding bytes_at
  joined m n f =
      ap (λ l. take m (drop f.offset content) ++ take n l)
        (sym (drop-add f.offset (length (take m (drop f.offset content))) content))
      ∙ take-split m n (drop f.offset content)

  seek-seek :
      (n x y : ℕ) (f : FileDesc V) (w : World S V)
      → seek n (record f { offset = x }) y (seek n f x w) ≡ seek n f y w
  unfolding seek
  seek-seek n x y f w =
      ap (λ l. record w { fds = l })
        (set-set w.fds n (record f { offset = x }) (record f { offset = y }))

  moved :
      (m n : ℕ) (f : FileDesc V)
      → (f1 m f).offset + length (bytes_at n (f1 m f).offset)
        ≡ f.offset + length (bytes_at (m + n) f.offset)
  moved m n f =
      let whole = ap length (joined m n f) in
      omega (arith, whole, length-append (bytes_at m f.offset) (bytes_at n (f1 m f).offset))

  -- Two calls of `read` on an open file give together the bytes that one call for as many gives, and
  -- leave the descriptor as that one does.
  pub read-read :
      (m n : ℕ) (w : World S V) (f : FileDesc V)
      → Serves get content
      → OnFile w f
      → f.offset + m + n < 2 ^ 64
      → ((read ops (pos (suc k)) m w).0.1
            ++ (read ops (pos (suc k)) n (read ops (pos (suc k)) m w).1).0.1
          ≡ (read ops (pos (suc k)) (m + n) w).0.1)
        × ((read ops (pos (suc k)) n (read ops (pos (suc k)) m w).1).1
            ≡ (read ops (pos (suc k)) (m + n) w).1)
  read-read m n w f s on h =
      let one = read_step m w f s on (omega arith) in
      let two = read_step n (w1 m w f) (f1 m f) s (still m w f on) (later m n f h) in
      let both = read_step (m + n) w f s on (omega arith) in
      (
        ap₂ (λ (x y : Got ops × World S V). x.0.1 ++ y.0.1) one (ap next one ∙ two)
            ∙ joined m n f
            ∙ ap (λ (x : Got ops × World S V). x.0.1) (sym both),
        ap (λ (x : Got ops × World S V). (next x).1) one
            ∙ ap (λ (x : Got ops × World S V). x.1) two
            ∙ seek-seek (suc k) (f.offset + length (bytes_at m f.offset)) _ f w
            ∙ ap (λ o. seek (suc k) f o w) (moved m n f)
            ∙ ap (λ (x : Got ops × World S V). x.1) (sym both),
      )
    where
      next : Got ops × World S V → Got ops × World S V
      next x = read ops (pos (suc k)) n x.1
