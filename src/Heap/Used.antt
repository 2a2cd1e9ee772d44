-- ===== src/Heap/Used.antt =====
-- What a client of the heap of src/mm/pmm.c sees: which payloads are in use, and how large.
use utopia.Base.{
  ℕ, ◌+◌, ◌-◌, ◌%◌, ◌^◌, ◌≤◌, ◌<◌, ◌≡◌, refl, ap, ◌∙◌, subst, ◌≢◌, ◌⊎◌, inl, inr, true, not, ◌&&◌,
  Option, none, some, List, [], ◌∷◌, arith, ltb, leb, ◌==◌, if◌then◌else◌, ==_self, ==_ne,
  Bool-cases, add64,
}
use utopia.Heap.{round_up, malloc, first_fit, Block, header, carve}
use utopia.Heap.Tiles.{malloc-Tiles, Tiles, Range, le_of_Tiles}

-- The size of the block in use whose payload starts at `p`.
abbrev pub used : List Block → ℕ → Option ℕ
used [] p = none
used (b ∷ bs) p = if not b.free && b.addr + header == p then some b.size else used bs p

pub used-below :
    (lo hi : ℕ) (bs : List Block) (p : ℕ) → Tiles lo hi bs → p < lo + header → used bs p ≡ none
used-below lo hi [] p t h = refl
used-below lo hi (b ∷ bs) p t h = ground (arith, used-below (lo + header + b.size) hi bs p t.2)

-- A payload in use lies inside the range.
pub used_bounds :
    (lo hi : ℕ) (bs : List Block) (p s : ℕ)
    → Tiles lo hi bs
    → used bs p ≡ some s
    → (lo + header ≤ p) × (p + s ≤ hi) × (p % 8 ≡ 0)
used_bounds lo hi [] p s t u = absurd (ground arith)
used_bounds lo hi (b ∷ bs) p s t u = ground (
  arith,
  le_of_Tiles (lo + header + b.size) hi bs t.2,
  used_bounds (lo + header + b.size) hi bs p s t.2,
)

-- Two payloads in use do not overlap, and there is room for a header between them.
pub used_disjoint :
    (lo hi : ℕ) (bs : List Block) (p q s r : ℕ)
    → Tiles lo hi bs
    → used bs p ≡ some s
    → used bs q ≡ some r
    → p < q
    → p + s + header ≤ q
used_disjoint lo hi [] p q s r t u v h = absurd (ground arith)
used_disjoint lo hi (b ∷ bs) p q s r t u v h = ground (
  arith,
  used_disjoint (lo + header + b.size) hi bs p q s r t.2,
  used_bounds (lo + header + b.size) hi bs p s t.2,
  used_bounds (lo + header + b.size) hi bs q r t.2,
)

-- From `bs` to `bs'` exactly the payload at `p` came into use, with at least `size` bytes.
pub record Granted (lo size : ℕ) (bs bs' : List Block) (p : ℕ) : Type 0 where
  pub room : ℕ
  pub enough : size ≤ room
  pub above : lo + header ≤ p
  pub fresh : used bs p ≡ none
  pub now : (q : ℕ) → used bs' q ≡ (if p == q then some room else used bs q)

carve-Granted :
    (lo hi size : ℕ) (b : Block) (bs : List Block)
    → Range lo hi
    → b.free ≡ true
    → size ≤ b.size
    → Tiles lo hi (b ∷ bs)
    → Granted lo size (b ∷ bs) (carve size b bs) (add64 b.addr header)
unfolding carve
carve-Granted lo hi size b bs range isfree fits t =
    elim (Bool-cases (leb (add64 (add64 size header) 16) b.size)) [
      | inl e ↦ record {
        room = size;
        enough = omega arith;
        above = omega (arith, room);
        fresh = ground (arith, below);
        now = λ q. rw e (ground (arith, room));
      }
      | inr e ↦ record {
        room = b.size;
        enough = fits;
        above = omega (arith, room);
        fresh = ground (arith, below);
        now = λ q. rw e (ground (arith, room));
      }
    ]
  where
    room : lo + header + b.size ≤ hi
    room = le_of_Tiles (lo + header + b.size) hi bs t.2

    below : used bs (add64 b.addr header) ≡ none
    below = used-below (lo + header + b.size) hi bs (add64 b.addr header) t.2 (omega (arith, room))

pub Granted-cons :
    (lo size p : ℕ) (b : Block) (bs bs' : List Block)
    → b.addr ≡ lo
    → Granted (lo + header + b.size) size bs bs' p
    → Granted lo size (b ∷ bs) (b ∷ bs') p
Granted-cons lo size p b bs bs' at g = record {
  room = room;
  enough = enough;
  above = omega arith;
  fresh = ground arith;
  now = λ q. ground (arith, now q);
}
  where
    open g use {room, enough, above, fresh, now}

pub first_fit-Granted :
    (lo hi size p : ℕ) (bs : List Block)
    → Range lo hi
    → Tiles lo hi bs
    → (first_fit size bs).0 ≡ some p
    → Granted lo size bs (first_fit size bs).1 p
unfolding first_fit
first_fit-Granted lo hi size p [] range t e = absurd (ground arith)
first_fit-Granted lo hi size p (b ∷ bs) range t e = elim (Bool-cases (b.free && leb size b.size)) [
  | inl y ↦ rw y (
      subst (Granted lo size (b ∷ bs) (carve size b bs)) (ground arith)
        (carve-Granted lo hi size b bs range (ground arith) (ground arith) t))
  | inr n ↦ rw n (
      Granted-cons lo size p b bs (first_fit size bs).1 t.0
        (first_fit-Granted (lo + header + b.size) hi size p bs (omega arith) t.2 (ground arith)))
]

-- A `malloc` that returns a pointer `p` brings exactly the payload at `p` into use, which was not
-- in use before and has at least `size` bytes; `size` is at most 2^64 - 8.
pub malloc-Granted :
    (lo hi size p : ℕ) (heap : List Block)
    → Range lo hi
    → Tiles lo hi heap
    → size ≤ 2 ^ 64 - 8
    → (malloc size heap).0 ≡ some p
    → Granted lo size heap (malloc size heap).1 p
unfolding malloc
malloc-Granted lo hi size p heap range t small e = elim (Bool-cases (size == 0)) [
  | inl y ↦ absurd (ground arith)
  | inr n ↦ rw n (weaken (first_fit-Granted lo hi (round_up size) p heap range t (ground arith)))
]
  where
    weaken : {bs : List Block} → Granted lo (round_up size) heap bs p → Granted lo size heap bs p
    weaken g = record {
      room = g.room;
      enough = omega (arith, g.enough);
      above = g.above;
      fresh = g.fresh;
      now = g.now;
    }

-- No free block has `size` bytes.
abbrev pub NoRoom : ℕ → List Block → Type 0
NoRoom size [] = Unit {0}
NoRoom size (b ∷ bs) = (b.free ≡ true → b.size < size) × NoRoom size bs

first_fit-none :
    (size : ℕ) (bs : List Block)
    → (first_fit size bs).0 ≡ none
    → NoRoom size bs × ((first_fit size bs).1 ≡ bs)
unfolding first_fit
first_fit-none size [] e = (tt, refl)
first_fit-none size (b ∷ bs) e = elim (Bool-cases (b.free && leb size b.size)) [
  | inl y ↦ absurd (ground arith)
  | inr n ↦
      let (h, k) = first_fit-none size bs (ground arith) in
      rw n (((λ f. ground arith), h), ap (λ l. b ∷ l) k)
]

-- A `malloc` of a size other than 0 returns `NULL` only if no free block has room for the rounded
-- size, and then it leaves the heap as it was.
pub malloc-none :
    (size : ℕ) (heap : List Block)
    → size ≢ 0
    → (malloc size heap).0 ≡ none
    → NoRoom (round_up size) heap × ((malloc size heap).1 ≡ heap)
unfolding malloc
malloc-none size heap pos e =
    rw (==_ne size 0 pos) (first_fit-none (round_up size) heap (ground arith))

-- What a `malloc` of `size` bytes at `p` overlaps: nothing outside the heap's range, and no payload
-- that was in use. `size` is at most 2^64 - 8.
pub malloc_disjoint :
    (lo hi size p q r : ℕ) (heap : List Block)
    → Range lo hi
    → Tiles lo hi heap
    → size ≤ 2 ^ 64 - 8
    → (malloc size heap).0 ≡ some p
    → used heap q ≡ some r
    → (lo + header ≤ p) × (p + size ≤ hi) × ((p + size ≤ q) ⊎ (q + r ≤ p))
malloc_disjoint lo hi size p q r heap range t small e u =
    (g.above, omega (arith, bounds, g.enough), apart)
  where
    heap' : List Block
    heap' = (malloc size heap).1

    g : Granted lo size heap heap' p
    g = malloc-Granted lo hi size p heap range t small e

    t' : Tiles lo hi heap'
    t' = malloc-Tiles lo hi size heap range t

    mine : used heap' p ≡ some g.room
    mine = g.now p ∙ rw (==_self p)

    bounds : (lo + header ≤ p) × (p + g.room ≤ hi) × (p % 8 ≡ 0)
    bounds = used_bounds lo hi heap' p g.room t' mine

    differ : p ≢ q
    differ pq = ground (arith, g.fresh)

    theirs : used heap' q ≡ some r
    theirs = g.now q ∙ rw (==_ne p q differ) u

    apart : (p + size ≤ q) ⊎ (q + r ≤ p)
    apart = elim (Bool-cases (ltb p q)) [
      | inl y ↦
          inl (ground (arith, g.enough, used_disjoint lo hi heap' p q g.room r t' mine theirs))
      | inr n ↦ inr (ground (arith, differ, used_disjoint lo hi heap' q p r g.room t' theirs mine))
    ]
