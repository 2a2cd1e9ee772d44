-- ===== src/Heap/Release.antt =====
-- What `free` of src/mm/pmm.c does to the payloads in use, and that it leaves no two free
-- neighbours.
use utopia.Base.{
  leb→le, ==_self, add64, leb, true, some, subst, ℕ, ◌+◌, ◌-◌, ◌^◌, ◌≤◌, ◌<◌, ◌≡◌, Bool, false,
  none, List, [], ◌∷◌, refl, arith, inl, inr, Bool-cases, ◌&&◌, sub64, if◌then◌else◌, ◌==◌, ap, ◌∙◌,
  ==_ne, ◌≢◌,
}
use utopia.Heap.{
  round_up, block, malloc, first_fit, carve, Block, header, mark_free, merge, coalesce_from,
  coalesce, free,
}
use utopia.Heap.Tiles.{first_fit-Tiles, le_of_Tiles, Tiles, Range}
use utopia.Heap.Used.{used_bounds, first_fit-Granted, used, used-below}

mark_free-used :
    (lo hi p q : ℕ) (bs : List Block)
    → Tiles lo hi bs
    → header ≤ p
    → used (mark_free (p - header) bs) q ≡ (if p == q then none else used bs q)
unfolding mark_free
mark_free-used lo hi p q [] t h = ground arith
mark_free-used lo hi p q (b ∷ bs) t h = ground (
  arith,
  mark_free-used (lo + header + b.size) hi p q bs t.2,
  used-below (lo + header + b.size) hi bs p t.2,
)

-- Merging free neighbours hides no payload in use and shows none.
coalesce_from-used :
    (q : ℕ) (b : Block) (bs : List Block) → used (coalesce_from b bs) q ≡ used (b ∷ bs) q
unfolding coalesce_from
coalesce_from-used q b [] = refl
coalesce_from-used q b (c ∷ cs) = elim (Bool-cases (b.free && c.free)) [
  | inl e ↦ rw (e, coalesce_from) (coalesce_from-used q (merge b c) cs ∙ ground arith)
  | inr e ↦ rw (e, coalesce_from) (ground (arith, coalesce_from-used q c cs))
]

coalesce-used : (q : ℕ) (bs : List Block) → used (coalesce bs) q ≡ used bs q
unfolding coalesce
coalesce-used q [] = refl
coalesce-used q (b ∷ bs) = coalesce_from-used q b bs

-- `free p` takes exactly the payload at `p` out of use; every other one stays, with its size.
pub free-used :
    (lo hi p q : ℕ) (heap : List Block)
    → Range lo hi
    → Tiles lo hi heap
    → header ≤ p
    → p < 2 ^ 64
    → used (free p heap) q ≡ (if p == q then none else used heap q)
unfolding free
free-used lo hi p q heap range t above below =
    rw (==_ne p 0 (omega arith), exact)
      (coalesce-used q (mark_free (p - header) heap) ∙ mark_free-used lo hi p q heap t above)
  where
    exact : sub64 p header ≡ p - header
    exact = omega arith

-- No two neighbours are both free.
abbrev pub Coalesced : List Block → Type 0
Coalesced [] = Unit {0}
Coalesced (b ∷ []) = Unit {0}
Coalesced (b ∷ c ∷ cs) = ((b.free && c.free) ≡ false) × Coalesced (c ∷ cs)

-- `bs` begins with a block that is free exactly if `f`.
HeadIs : Bool → List Block → Type 0
HeadIs f [] = ⊥
HeadIs f (b ∷ bs) = b.free ≡ f

coalesce_from-Coalesced :
    (b : Block) (bs : List Block)
    → HeadIs b.free (coalesce_from b bs) × Coalesced (coalesce_from b bs)
unfolding coalesce_from HeadIs
coalesce_from-Coalesced b [] = (refl, tt)
coalesce_from-Coalesced b (c ∷ cs) = elim (Bool-cases (b.free && c.free)) [
  | inl e ↦ rw (e, coalesce_from) (coalesce_from-Coalesced (merge b c) cs)
  | inr e ↦
      rw (e, coalesce_from) (refl, prepend (coalesce_from c cs) e (coalesce_from-Coalesced c cs))
]
  where
    prepend :
        (l : List Block)
        → (b.free && c.free) ≡ false
        → HeadIs c.free l × Coalesced l
        → Coalesced (b ∷ l)
    prepend [] e (h, k) = absurd h
    prepend (d ∷ l) e (h, k) = (rw h e, k)

-- After `free p` of a pointer other than `NULL` no two neighbouring blocks are both free.
pub free-Coalesced : (p : ℕ) (heap : List Block) → p ≢ 0 → Coalesced (free p heap)
unfolding free coalesce
free-Coalesced p heap pos = rw (==_ne p 0 pos) (all (mark_free (sub64 p header) heap))
  where
    all : (bs : List Block) → Coalesced (coalesce bs)
    all [] = tt
    all (b ∷ bs) = (coalesce_from-Coalesced b bs).1

-- A heap without free neighbours is what `coalesce` makes of it.
coalesce_from_id : (b : Block) (bs : List Block) → Coalesced (b ∷ bs) → coalesce_from b bs ≡ b ∷ bs
unfolding coalesce_from
coalesce_from_id b [] k = refl
coalesce_from_id b (c ∷ cs) k =
    rw (k.0, coalesce_from) (ap (λ l. b ∷ l) (coalesce_from_id c cs k.1))

coalesce_from-cons :
    (b : Block) (xs bs : List Block)
    → coalesce xs ≡ bs
    → Coalesced (b ∷ bs)
    → coalesce_from b xs ≡ b ∷ bs
unfolding coalesce coalesce_from HeadIs
coalesce_from-cons b [] bs e k = ap (λ l. b ∷ l) e
coalesce_from-cons b (x ∷ xs) bs e k =
    rw (apart bs (subst (HeadIs x.free) e (coalesce_from-Coalesced x xs).0) k, coalesce_from)
      (ap (λ l. b ∷ l) e)
  where
    apart : (l : List Block) → HeadIs x.free l → Coalesced (b ∷ l) → (b.free && x.free) ≡ false
    apart [] h k = absurd h
    apart (c ∷ cs) h k = rw (← h) (k.0)

Coalesced-tail : (b : Block) (bs : List Block) → Coalesced (b ∷ bs) → Coalesced bs
Coalesced-tail b [] k = tt
Coalesced-tail b (c ∷ cs) k = k.1

carve-undo :
    (lo hi size : ℕ) (b : Block) (bs : List Block)
    → Range lo hi
    → b.free ≡ true
    → size ≤ b.size
    → Tiles lo hi (b ∷ bs)
    → Coalesced (b ∷ bs)
    → coalesce (mark_free b.addr (carve size b bs)) ≡ b ∷ bs
unfolding carve mark_free coalesce
carve-undo lo hi size b bs range isfree fits t k =
    elim (Bool-cases (leb (add64 (add64 size header) 16) b.size)) [
      | inl e ↦
          rw (e, ==_self b.addr)
            (subst (λ c. coalesce_from c bs ≡ b ∷ bs) (whole (leb→le _ _ e))
              (coalesce_from_id b bs k))
      | inr e ↦
          rw (e, ==_self b.addr)
            (subst (λ c. coalesce_from c bs ≡ b ∷ bs) (ground arith) (coalesce_from_id b bs k))
    ]
  where
    room : lo + header + b.size ≤ hi
    room = le_of_Tiles (lo + header + b.size) hi bs t.2

    whole :
        add64 (add64 size header) 16 ≤ b.size
        → b
          ≡ merge
              (block b.addr size true)
              (block (add64 (add64 b.addr header) size) (sub64 (sub64 b.size size) header) true)
    whole e = ground (arith, room)

skip :
    (p : ℕ) (b : Block) (xs bs : List Block)
    → (b.addr == p - header) ≡ false
    → coalesce (mark_free (p - header) xs) ≡ bs
    → Coalesced (b ∷ bs)
    → coalesce (mark_free (p - header) (b ∷ xs)) ≡ b ∷ bs
unfolding mark_free
skip p b xs bs far ih k =
    rw far (unfold coalesce in coalesce_from-cons b (mark_free (p - header) xs) bs ih k)

first_fit-undo :
    (lo hi size p : ℕ) (bs : List Block)
    → Range lo hi
    → Tiles lo hi bs
    → Coalesced bs
    → (first_fit size bs).0 ≡ some p
    → coalesce (mark_free (p - header) (first_fit size bs).1) ≡ bs
unfolding first_fit
first_fit-undo lo hi size p [] range t k e = absurd (ground arith)
first_fit-undo lo hi size p (b ∷ bs) range t k e = elim (Bool-cases (b.free && leb size b.size)) [
  | inl y ↦
      let at : p - header ≡ b.addr = ground (arith, le_of_Tiles (lo + header + b.size) hi bs t.2) in
      rw (y, at) (carve-undo lo hi size b bs range (ground arith) (ground arith) t k)
  | inr n ↦
      let e' : (first_fit size bs).0 ≡ some p = ground arith in
      let range' : Range (lo + header + b.size) hi = omega arith in
      let ih =
        first_fit-undo (lo + header + b.size) hi size p bs range' t.2 (Coalesced-tail b bs k) e' in
      let far : (b.addr == p - header) ≡ false =
        ground
          (arith, (first_fit-Granted (lo + header + b.size) hi size p bs range' t.2 e').above) in
      rw n (skip p b (first_fit size bs).1 bs far ih k)
]

-- Freeing what `malloc` has just returned gives back the very heap from before, if that had no
-- free neighbours.
pub free-malloc :
    (lo hi size p : ℕ) (heap : List Block)
    → Range lo hi
    → Tiles lo hi heap
    → Coalesced heap
    → (malloc size heap).0 ≡ some p
    → free p (malloc size heap).1 ≡ heap
unfolding malloc free
free-malloc lo hi size p heap range t k e = elim (Bool-cases (size == 0)) [
  | inl y ↦ absurd (ground arith)
  | inr n ↦
      let e' : (first_fit (round_up size) heap).0 ≡ some p = ground arith in
      let granted = first_fit-Granted lo hi (round_up size) p heap range t e' in
      let heap' : List Block = (first_fit (round_up size) heap).1 in
      let tiles : Tiles lo hi heap' =
        first_fit-Tiles lo hi (round_up size) heap range (omega arith) t in
      let bounds = used_bounds lo hi heap' p granted.room tiles (granted.now p ∙ rw (==_self p)) in
      let exact : sub64 p header ≡ p - header = omega (arith, granted.above, bounds.1) in
      rw (n, ==_ne p 0 (omega (arith, granted.above)), exact)
        (first_fit-undo lo hi (round_up size) p heap range t k e')
]
