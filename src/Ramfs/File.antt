-- ===== src/Ramfs/File.antt =====
-- What `ramfs_write` of src/fs/ramfs.c leaves in a file, and that `ramfs_read` finds it there.
use mathlib.Core.Option
use utopia.Base.{
  ℕ, zero, suc, ◌+◌, ◌-◌, ◌^◌, ◌≤◌, ◌<◌, min, max, ◌≡◌, refl, ap, ◌∙◌, inl, inr, true, false, ◌&&◌,
  Option, none, some, List, ◌∷◌, arith, ltb, leb, if◌then◌else◌, Bool-cases, add64, sub64, length,
  get_elem?, get_or, set, take, drop, replicate, get_elem?-set_self, length-take, length-drop,
  length-replicate, ext, get_or-take, get_or-drop, get_or-end, get_or-replicate, [],
}
use utopia.Ramfs.Directory.{get_elem?-lt}
use utopia.Ramfs.{
  is_dir, fill, read_bytes, Node, Store, file, overlay, bytes_of, grow, write_node, read_node, read,
  write,
}

length-overlay : (xs : List ℕ) (o : ℕ) (bs : List ℕ) → length (overlay xs o bs) ≡ length xs
unfolding overlay
length-overlay [] o bs = refl
length-overlay (x ∷ xs) (suc o) bs = ap suc (length-overlay xs o bs)
length-overlay (x ∷ xs) zero [] = refl
length-overlay (x ∷ xs) zero (b ∷ bs) = ap suc (length-overlay xs zero bs)

get_or-overlay :
    (xs : List ℕ) (o : ℕ) (bs : List ℕ) (k : ℕ)
    → o + length bs ≤ length xs
    → get_or (overlay xs o bs) k 0
      ≡ (if leb o k && ltb k (o + length bs) then get_or bs (k - o) 0 else get_or xs k 0)
unfolding overlay
get_or-overlay [] o bs k h = ground arith
get_or-overlay (x ∷ xs) (suc o) bs zero h = ground arith
get_or-overlay (x ∷ xs) (suc o) bs (suc k) h = ground (arith, get_or-overlay xs o bs k)
get_or-overlay (x ∷ xs) zero [] k h = ground arith
get_or-overlay (x ∷ xs) zero (b ∷ bs) zero h = ground arith
get_or-overlay (x ∷ xs) zero (b ∷ bs) (suc k) h = ground (arith, get_or-overlay xs zero bs k)

-- A file holds as many bytes as its size says.
pub record IsFile (n : Node) : Type 0 where
  pub type : n.type ≡ file
  pub sized : length (bytes_of n.contents) ≡ n.size

-- The name and the place in the tree.
abbrev pub SamePlace : Node → Node → Type 0
SamePlace n m =
    (m.name ≡ n.name) × (m.parent ≡ n.parent) × (m.children ≡ n.children) × (m.next ≡ n.next)

-- `m` is `n` with `buffer` written at `offset`: those bytes are the buffer's, a gap before them
-- is zero, and every other byte is as before. Its name and its place in the tree stay.
pub record Written (n m : Node) (buffer : List ℕ) (offset : ℕ) : Type 0 where
  pub valid : IsFile m
  pub size : m.size ≡ max n.size (offset + length buffer)
  pub placed : SamePlace n m
  pub byte :
      (k : ℕ)
      → get_or (bytes_of m.contents) k 0 ≡ (
          if leb offset k && ltb k (offset + length buffer)
          then get_or buffer (k - offset) 0
          else get_or (bytes_of n.contents) k 0)

grow_lem :
    (needed : ℕ) (n : Node)
    → IsFile n
    → (m : Node) × (grow true needed n ≡ some m)
      × IsFile m
      × (m.size ≡ max n.size needed)
      × SamePlace n m
      × ((k : ℕ) → get_or (bytes_of m.contents) k 0 ≡ get_or (bytes_of n.contents) k 0)
unfolding grow
grow_lem needed n v = elim (Bool-cases (ltb n.size needed)) [
  | inr big ↦ (n, rw big, v, ground arith, (refl, refl, refl, refl), λ k. refl)
  | inl small ↦
      let old : List ℕ = take n.size (bytes_of n.contents) in
      let new : List ℕ = overlay (replicate needed 0) 0 old in
      let size-old : length old ≡ n.size =
        omega (arith, length-take n.size (bytes_of n.contents), v.sized) in
      let size-new : length new ≡ needed =
        length-overlay (replicate needed 0) 0 old ∙ length-replicate needed 0 in
      (
        record n { size = needed; contents = some new },
        rw small,
        record { type = v.type; sized = size-new },
        ground arith,
        (refl, refl, refl, refl),
        λ k.
            get_or-overlay (replicate needed 0) 0 old k
              (ground (arith, length-replicate {A = ℕ} needed 0))
            ∙ ground (
              arith,
              size-old,
              get_or-take n.size (bytes_of n.contents) k 0,
              get_or-end (bytes_of n.contents) k 0,
              get_or-replicate {A = ℕ} needed k 0,
            ),
      )
]

-- The `memcpy` at the end of `ramfs_write` into the node that has room.
fill-Written :
    (n m : Node) (buffer : List ℕ) (offset : ℕ)
    → IsFile m
    → m.size ≡ max n.size (offset + length buffer)
    → SamePlace n m
    → ((k : ℕ) → get_or (bytes_of m.contents) k 0 ≡ get_or (bytes_of n.contents) k 0)
    → Written n
        (record m { contents = Option.map (λ bytes. overlay bytes offset buffer) m.contents })
        buffer
        offset
fill-Written n m buffer offset v size place old = record {
  valid = record { type = v.type; sized = len m.contents ∙ v.sized };
  size = size;
  placed = place;
  byte = λ k. at m.contents k (omega (arith, v.sized)) ∙ rw (old k);
}
  where
    len :
        (c : Option (List ℕ))
        → length (bytes_of (Option.map (λ bytes. overlay bytes offset buffer) c))
          ≡ length (bytes_of c)
    len none = refl
    len (some bytes) = length-overlay bytes offset buffer

    at :
        (c : Option (List ℕ)) (k : ℕ)
        → offset + length buffer ≤ length (bytes_of c)
        → get_or (bytes_of (Option.map (λ bytes. overlay bytes offset buffer) c)) k 0 ≡ (
            if leb offset k && ltb k (offset + length buffer)
            then get_or buffer (k - offset) 0
            else get_or (bytes_of c) k 0)
    at none k h = ground arith
    at (some bytes) k h = get_or-overlay bytes offset buffer k h

file_not_dir : (n : Node) → IsFile n → is_dir n.type ≡ false
file_not_dir n v = ap is_dir v.type

write_node-Written :
    (n : Node) (buffer : List ℕ) (offset : ℕ)
    → IsFile n
    → offset + length buffer < 2 ^ 64
    → (m : Node) × (write_node true n buffer offset ≡ some m) × Written n m buffer offset
unfolding write_node fill
write_node-Written n buffer offset v h =
    let exact : add64 offset (length buffer) ≡ offset + length buffer = omega arith in
    let (m, e, w, size, place, old) = grow_lem (offset + length buffer) n v in
    (
      record m { contents = Option.map (λ bytes. overlay bytes offset buffer) m.contents },
      rw (file_not_dir n v, exact, e),
      fill-Written n m buffer offset w size place old,
    )

-- A write of `buffer` at `offset` to a file succeeds where the allocation does and reports the
-- buffer's length; the node's size and bytes are then those of `Written`, its name, parent, children
-- and next sibling are as before, and no other node changes.
pub write-Written :
    (st : Store) (i : ℕ) (n : Node) (buffer : List ℕ) (offset : ℕ)
    → get_elem? st i ≡ some n
    → IsFile n
    → offset + length buffer < 2 ^ 64
    → (m : Node) × (write true st i buffer offset ≡ some (length buffer, set st i m))
      × Written n m buffer offset
unfolding write
write-Written st i n buffer offset at v h =
    let (m, e, w) = write_node-Written n buffer offset v h in (m, rw (at, write, e), w)

-- A read of a file returns the bytes from `offset` on that there are, `size` of them at most.
read_node-bytes :
    (n : Node) (size offset : ℕ)
    → IsFile n
    → offset + size < 2 ^ 64
    → read_node n size offset
      ≡ some (
        min size (n.size - offset),
        take (min size (n.size - offset)) (drop offset (bytes_of n.contents)),
      )
unfolding read_node read_bytes
read_node-bytes n size offset v h = rw (file_not_dir n v) (ap some (bytes n.contents v.sized))
  where
    bytes :
        (c : Option (List ℕ))
        → length (bytes_of c) ≡ n.size
        → read_bytes n.size c size offset ≡ (
          min size (n.size - offset),
          take (min size (n.size - offset)) (drop offset (bytes_of c)),
        )
    bytes none e = let zero_left : min size (n.size - offset) ≡ 0 = omega arith in rw zero_left
    bytes (some bs) e = elim (Bool-cases (leb n.size offset)) [
      | inl y ↦ let zero_left : min size (n.size - offset) ≡ 0 = ground arith in rw (y, zero_left)
      | inr m ↦
          let count : (if ltb n.size (add64 offset size) then sub64 n.size offset else size)
              ≡ min size (n.size - offset) =
            ground arith in
          rw (m, count)
    ]

-- Reading a file gives the bytes from `offset` on that there are, at most `size` of them, and
-- reports their number.
pub read-bytes :
    (st : Store) (i : ℕ) (n : Node) (size offset : ℕ)
    → get_elem? st i ≡ some n
    → IsFile n
    → offset + size < 2 ^ 64
    → read st i size offset
      ≡ some (
        min size (n.size - offset),
        take (min size (n.size - offset)) (drop offset (bytes_of n.contents)),
      )
unfolding read
read-bytes st i n size offset at v h = rw (at, read) (read_node-bytes n size offset v h)

-- Reading back the range that a write has just filled gives the buffer that was written.
pub read-write :
    (st : Store) (i : ℕ) (n : Node) (buffer : List ℕ) (offset : ℕ)
    → get_elem? st i ≡ some n
    → IsFile n
    → offset + length buffer < 2 ^ 64
    → (st' : Store) × (write true st i buffer offset ≡ some (length buffer, st'))
      × (read st' i (length buffer) offset ≡ some (length buffer, buffer))
read-write st i n buffer offset at v h = (
  set st i m,
  e,
  read-bytes (set st i m) i m (length buffer) offset
        (get_elem?-set_self st i m (get_elem?-lt st i n at)) w.valid h
      ∙ rw (all, same),
)
  where
    result :
        (m : Node) × (write true st i buffer offset ≡ some (length buffer, set st i m))
        × Written n m buffer offset
    result = write-Written st i n buffer offset at v h

    m : Node
    m = result.0

    e : write true st i buffer offset ≡ some (length buffer, set st i m)
    e = result.1

    w : Written n m buffer offset
    w = result.2

    all : min (length buffer) (m.size - offset) ≡ length buffer
    all = omega (arith, w.size)

    bytes : List ℕ
    bytes = bytes_of m.contents

    room : offset + length buffer ≤ length bytes
    room = omega (arith, w.size, w.valid.sized)

    same : take (length buffer) (drop offset bytes) ≡ buffer
    same =
        ext (take (length buffer) (drop offset bytes)) buffer 0
          (omega (
            arith,
            room,
            length-take (length buffer) (drop offset bytes),
            length-drop offset bytes,
          ))
          λ k l.
            let below : k < length buffer = omega (
              arith,
              room,
              length-take (length buffer) (drop offset bytes),
              length-drop offset bytes,
            ) in
            get_or-take (length buffer) (drop offset bytes) k 0 below
            ∙ get_or-drop offset bytes k 0
            ∙ w.byte (offset + k)
            ∙ ground (arith, below)
