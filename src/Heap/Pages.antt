-- ===== src/Heap/Pages.antt =====
-- `page_alloc` of src/mm/pmm.c: page-aligned payloads from the same heap.
use utopia.Base.{
  ℕ, ◌+◌, ◌*◌, ◌%◌, ◌^◌, ◌≤◌, ◌<◌, ◌≡◌, refl, subst, ◌⊎◌, inl, inr, true, false, ◌&&◌, some, List,
  [], ◌∷◌, arith, leb, ◌==◌, if◌then◌else◌, leb→le, Bool-cases, add64, sub64, mul64,
}
use utopia.Heap.{Block, block, header, aligned_for, trim, take_page, page_fit, page_alloc}
use utopia.Heap.Tiles.{Tiles, le_of_Tiles}
use utopia.Heap.Used.{used, used-below, Granted, Granted-cons}

-- The range also ends two pages below the last address, so that rounding up cannot wrap.
pub record PageRange (lo hi : ℕ) : Type 0 where
  pub above : 16 ≤ lo
  pub below : hi + 8192 ≤ 2 ^ 64

-- The padding is none, or enough for a block of its own.
pub aligned_for_lem :
    (raw : ℕ)
    → raw + 8192 ≤ 2 ^ 64
    → let (aligned, padding) = aligned_for raw in
      (aligned ≡ raw + padding)
      × (aligned % 4096 ≡ 0)
      × (padding < 8192)
      × ((padding ≡ 0) ⊎ (header + 16 ≤ padding))
unfolding aligned_for
aligned_for_lem raw h = ground arith

trim-Tiles :
    (lo hi size : ℕ) (t : Block) (rest : List Block)
    → PageRange lo hi
    → size % 8 ≡ 0
    → size + 8192 ≤ 2 ^ 64
    → Tiles lo hi (t ∷ rest)
    → Tiles lo hi (trim size t rest)
unfolding trim
trim-Tiles lo hi size t rest range al small h =
    elim (Bool-cases (leb (add64 (add64 size header) 16) t.size)) [
      | inl e ↦
          let fits : size + header + 16 ≤ t.size = omega (arith, leb→le _ _ e) in
          rw e (
            h.0,
            h.1,
            (
              omega (arith, room),
              omega arith,
              subst (λ k. Tiles k hi rest) (omega (arith, room)) h.2,
            ),
          )
      | inr e ↦ rw e h
    ]
  where
    room : lo + header + t.size ≤ hi
    room = le_of_Tiles (lo + header + t.size) hi rest h.2

trim-Granted :
    (lo hi size : ℕ) (t : Block) (rest : List Block)
    → PageRange lo hi
    → t.free ≡ false
    → size ≤ t.size
    → Tiles lo hi (t ∷ rest)
    → (r : ℕ) × (size ≤ r)
      × ((q : ℕ)
          → used (trim size t rest) q ≡ (if t.addr + header == q then some r else used rest q))
unfolding trim
trim-Granted lo hi size t rest range busy fits h =
    elim (Bool-cases (leb (add64 (add64 size header) 16) t.size)) [
      | inl e ↦ (size, omega arith, λ q. rw e (ground arith))
      | inr e ↦ (t.size, fits, λ q. rw e (ground arith))
    ]

module _ (lo hi size aligned padding : ℕ) (b : Block) (rest : List Block) (range : PageRange lo hi)
    (al : size % 8 ≡ 0) (small : size + 8192 ≤ 2 ^ 64) (at : aligned ≡ lo + header + padding)
    (page : aligned % 4096 ≡ 0) (gap : (padding ≡ 0) ⊎ (header + 16 ≤ padding))
    (fits : size + padding ≤ b.size) (t : Tiles lo hi (b ∷ rest)) where
  room : lo + header + b.size ≤ hi
  room = le_of_Tiles (lo + header + b.size) hi rest t.2

  -- The block that is left of `b` after the padding.
  inner :
      header + 16 ≤ padding
      → Tiles (lo + padding) hi (block (sub64 aligned header) (sub64 b.size padding) false ∷ rest)
  inner h = (
    omega (arith, room),
    omega (arith, t.1),
    subst (λ k. Tiles k hi rest) (omega (arith, room)) t.2,
  )

  take_page-Tiles : Tiles lo hi (take_page size aligned padding b rest)
  unfolding take_page
  take_page-Tiles = elim (Bool-cases (leb (header + 16) padding)) [
    | inl e ↦
        let big = leb→le _ _ e in
        rw e (
          t.0,
          t.1,
          subst
              (λ k.
                Tiles k hi
                  (trim size (block (sub64 aligned header) (sub64 b.size padding) false) rest))
              (omega (arith, big, room))
              (trim-Tiles (lo + padding) hi size _ rest (omega arith) al small (inner big)),
        )
    | inr e ↦ rw e (trim-Tiles lo hi size (record b { free = false }) rest range al small t)
  ]

  take_page-Granted :
      b.free ≡ true → Granted lo size (b ∷ rest) (take_page size aligned padding b rest) aligned
  unfolding take_page
  take_page-Granted isfree = elim (Bool-cases (leb (header + 16) padding)) [
    | inl e ↦
        let big = leb→le _ _ e in
        let t' : Block = block (sub64 aligned header) (sub64 b.size padding) false in
        let (r, enough, now) =
          trim-Granted (lo + padding) hi size t' rest (omega arith) refl (omega (arith, room))
            (inner big) in
        rw e (record {
          room = r;
          enough = enough;
          above = omega arith;
          fresh = ground (arith, used-below (lo + header + b.size) hi rest aligned t.2);
          now = λ q. ground (arith, now q, room);
        })
    | inr e ↦
        let (r, enough, now) =
          trim-Granted lo hi size (record b { free = false }) rest range refl (omega arith) t in
        let none_left : padding ≡ 0 = ground arith in
        rw e (record {
          room = r;
          enough = enough;
          above = omega arith;
          fresh = ground (arith, used-below (lo + header + b.size) hi rest aligned t.2);
          now = λ q. ground (arith, now q, room);
        })
  ]

page_fit-Granted :
    (lo hi size : ℕ) (bs : List Block)
    → PageRange lo hi
    → size % 8 ≡ 0
    → size + 8192 ≤ 2 ^ 64
    → Tiles lo hi bs
    → Tiles lo hi (page_fit size bs).1
      × ((p : ℕ)
          → (page_fit size bs).0 ≡ some p
          → Granted lo size bs (page_fit size bs).1 p × (p % 4096 ≡ 0))
unfolding page_fit
page_fit-Granted lo hi size [] range al small t = (t, λ p e. absurd (ground arith))
page_fit-Granted lo hi size (b ∷ bs) range al small t =
    elim (Bool-cases (b.free && leb (add64 size padding) b.size)) [
      | inl y ↦
          let fits : size + padding ≤ b.size = ground (arith, facts) in
          rw y (
            take_page-Tiles lo hi size aligned padding b bs range al small at page gap fits t,
            λ p e.
                let here : aligned ≡ p = ground arith in
                rw (← here) (
                  take_page-Granted lo hi size aligned padding b bs range al small at page gap fits
                      t (ground arith),
                  page,
                ),
          )
      | inr n ↦
          let (tiles, grant) =
            page_fit-Granted (lo + header + b.size) hi size bs (omega arith) al small t.2 in
          rw n (
            (t.0, t.1, tiles),
            λ p e.
                let (g, m) = grant p (ground arith) in
                (Granted-cons lo size p b bs (page_fit size bs).1 t.0 g, m),
          )
    ]
  where
    aligned : ℕ
    aligned = (aligned_for (add64 b.addr header)).0

    padding : ℕ
    padding = (aligned_for (add64 b.addr header)).1

    room : lo + header + b.size ≤ hi
    room = le_of_Tiles (lo + header + b.size) hi bs t.2

    raw : add64 b.addr header ≡ lo + header
    raw = omega (arith, room)

    facts :
        (aligned ≡ add64 b.addr header + padding)
        × (aligned % 4096 ≡ 0)
        × (padding < 8192)
        × ((padding ≡ 0) ⊎ (header + 16 ≤ padding))
    facts = aligned_for_lem (add64 b.addr header) (omega (arith, room, raw))

    at : aligned ≡ lo + header + padding
    at = omega (arith, facts, raw)

    page : aligned % 4096 ≡ 0
    page = facts.1

    gap : (padding ≡ 0) ⊎ (header + 16 ≤ padding)
    gap = facts.3

-- `page_alloc` keeps the tiling, and a pointer that it returns is page-aligned and is a payload of
-- at least `pages` pages that comes into use, for sizes up to two pages below 2^64.
pub page_alloc-Granted :
    (lo hi pages : ℕ) (heap : List Block)
    → PageRange lo hi
    → 4096 * pages + 8192 ≤ 2 ^ 64
    → Tiles lo hi heap
    → Tiles lo hi (page_alloc pages heap).1
      × ((p : ℕ)
          → (page_alloc pages heap).0 ≡ some p
          → Granted lo (4096 * pages) heap (page_alloc pages heap).1 p × (p % 4096 ≡ 0))
unfolding page_alloc
page_alloc-Granted lo hi pages heap range small t =
    let exact : mul64 4096 pages ≡ 4096 * pages = omega arith in
    rw exact (page_fit-Granted lo hi (4096 * pages) heap range (omega arith) small t)
