-- ===== src/Heap/Tiles.antt =====
-- The representation invariant of the heap of src/mm/pmm.c: the blocks tile a range of addresses,
-- each header on a multiple of eight, and every operation keeps it so.
use utopia.Base.{
  ℕ, ◌+◌, ◌%◌, ◌^◌, ◌≤◌, ◌<◌, ◌≡◌, List, [], ◌∷◌, arith, inl, inr, leb, leb→le, subst, Bool-cases,
  ◌&&◌, add64, sub64, ◌==◌,
}
use utopia.Heap.{
  Block, header, round_up, carve, first_fit, malloc, mark_free, merge, coalesce_from, coalesce,
  free,
}

-- The blocks cover `[lo, hi)` without a gap, in the order of their addresses.
abbrev pub Tiles : ℕ → ℕ → List Block → Type 0
Tiles lo hi [] = lo ≡ hi
Tiles lo hi (b ∷ bs) = (b.addr ≡ lo) × (lo % 8 ≡ 0) × Tiles (lo + header + b.size) hi bs

-- The range starts above the null page and ends below the last address.
pub record Range (lo hi : ℕ) : Type 0 where
  pub above : 16 ≤ lo
  pub below : hi < 2 ^ 64

pub le_of_Tiles : (lo hi : ℕ) (bs : List Block) → Tiles lo hi bs → lo ≤ hi
le_of_Tiles lo hi [] t = omega arith
le_of_Tiles lo hi (b ∷ bs) t = omega (arith, le_of_Tiles (lo + header + b.size) hi bs t.2)

pub carve-Tiles :
    (lo hi size : ℕ) (b : Block) (bs : List Block)
    → Range lo hi
    → size % 8 ≡ 0
    → size ≤ b.size
    → Tiles lo hi (b ∷ bs)
    → Tiles lo hi (carve size b bs)
unfolding carve
carve-Tiles lo hi size b bs bound al fits t =
    elim (Bool-cases (leb (add64 (add64 size header) 16) b.size)) [
      | inl e ↦ rw e (t.0, t.1, (start (leb→le _ _ e), aligned, rest (leb→le _ _ e)))
      | inr e ↦ rw e t
    ]
  where
    room : lo + header + b.size ≤ hi
    room = le_of_Tiles (lo + header + b.size) hi bs t.2

    start :
        add64 (add64 size header) 16 ≤ b.size
        → add64 (add64 b.addr header) size ≡ lo + header + size
    start e = omega (arith, room)

    aligned : (lo + header + size) % 8 ≡ 0
    aligned = omega arith

    end :
        add64 (add64 size header) 16 ≤ b.size
        → lo + header + b.size ≡ lo + header + size + header + sub64 (sub64 b.size size) header
    end e = omega (arith, room)

    rest :
        add64 (add64 size header) 16 ≤ b.size
        → Tiles (lo + header + size + header + sub64 (sub64 b.size size) header) hi bs
    rest e = subst (λ k. Tiles k hi bs) (end e) t.2

pub first_fit-Tiles :
    (lo hi size : ℕ) (bs : List Block)
    → Range lo hi
    → size % 8 ≡ 0
    → Tiles lo hi bs
    → Tiles lo hi (first_fit size bs).1
unfolding first_fit
first_fit-Tiles lo hi size [] bound al t = t
first_fit-Tiles lo hi size (b ∷ bs) bound al t = elim (Bool-cases (b.free && leb size b.size)) [
  | inl e ↦ rw e (carve-Tiles lo hi size b bs bound al (ground arith) t)
  | inr e ↦ rw e (t.0, t.1, first_fit-Tiles (lo + header + b.size) hi size bs (omega arith) al t.2)
]

-- `malloc` keeps the tiling, whatever size is asked for.
pub malloc-Tiles :
    (lo hi size : ℕ) (heap : List Block)
    → Range lo hi
    → Tiles lo hi heap
    → Tiles lo hi (malloc size heap).1
unfolding malloc
malloc-Tiles lo hi size heap bound t = elim (Bool-cases (size == 0)) [
  | inl e ↦ rw e t
  | inr e ↦ rw e (first_fit-Tiles lo hi (round_up size) heap bound (omega arith) t)
]

pub mark_free-Tiles :
    (lo hi a : ℕ) (bs : List Block) → Tiles lo hi bs → Tiles lo hi (mark_free a bs)
unfolding mark_free
mark_free-Tiles lo hi a [] t = t
mark_free-Tiles lo hi a (b ∷ bs) t = elim (Bool-cases (b.addr == a)) [
  | inl e ↦ rw e t
  | inr e ↦ rw e (t.0, t.1, mark_free-Tiles (lo + header + b.size) hi a bs t.2)
]

merge-Tiles :
    (lo hi : ℕ) (b c : Block) (bs : List Block)
    → Range lo hi
    → Tiles lo hi (b ∷ c ∷ bs)
    → Tiles lo hi (merge b c ∷ bs)
merge-Tiles lo hi b c bs bound t =
    let end : ℕ = lo + header + b.size + header + c.size in
    let room : end ≤ hi = le_of_Tiles end hi bs t.2.2 in
    (t.0, t.1, subst (λ k. Tiles k hi bs) (omega arith) t.2.2)

pub coalesce_from-Tiles :
    (lo hi : ℕ) (b : Block) (bs : List Block)
    → Range lo hi
    → Tiles lo hi (b ∷ bs)
    → Tiles lo hi (coalesce_from b bs)
unfolding coalesce_from
coalesce_from-Tiles lo hi b [] bound t = t
coalesce_from-Tiles lo hi b (c ∷ cs) bound t = elim (Bool-cases (b.free && c.free)) [
  | inl e ↦
      rw (e, coalesce_from)
        (coalesce_from-Tiles lo hi (merge b c) cs bound (merge-Tiles lo hi b c cs bound t))
  | inr e ↦
      rw (e, coalesce_from)
        (t.0, t.1, coalesce_from-Tiles (lo + header + b.size) hi c cs (omega arith) t.2)
]

coalesce-Tiles :
    (lo hi : ℕ) (bs : List Block) → Range lo hi → Tiles lo hi bs → Tiles lo hi (coalesce bs)
unfolding coalesce
coalesce-Tiles lo hi [] bound t = t
coalesce-Tiles lo hi (b ∷ bs) bound t = coalesce_from-Tiles lo hi b bs bound t

-- `free` keeps the tiling, whatever pointer it is given.
pub free-Tiles :
    (lo hi ptr : ℕ) (heap : List Block)
    → Range lo hi
    → Tiles lo hi heap
    → Tiles lo hi (free ptr heap)
unfolding free
free-Tiles lo hi ptr heap bound t = elim (Bool-cases (ptr == 0)) [
  | inl e ↦ rw e t
  | inr e ↦ rw e (coalesce-Tiles lo hi _ bound (mark_free-Tiles lo hi _ heap t))
]
