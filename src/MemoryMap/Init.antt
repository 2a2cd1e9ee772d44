-- ===== src/MemoryMap/Init.antt =====
-- `memory_init` of src/mm/pmm.c: the heap is the largest available region, less the kernel.
use utopia.Base.{
  ◌∙◌, sym, ◌⊎◌, ap, ℕ, ◌+◌, ◌%◌, ◌^◌, ◌≤◌, ◌<◌, ◌≡◌, refl, inl, inr, Bool, true, false, ◌&&◌, List,
  [], ◌∷◌, arith, if◌then◌else◌, sym, ap, subst, ◌⊎◌, ltb, ◌==◌, Bool-cases, add64,
}
use utopia.Heap.{header}
use utopia.Heap.Tiles.{Tiles}
use utopia.Heap.Release.{Coalesced}
use utopia.MemoryMap.{Entry, largest_free, above_kernel, memory_init}
use utopia.MemoryMap.Reserve.{available, NoWrap}

-- Every available region is at most `size` long.
abbrev pub AllWithin : ℕ → List Entry → Type 0
AllWithin size [] = Unit {0}
AllWithin size (e ∷ es) = (e.type ≡ 1 → e.len ≤ size) × AllWithin size es

-- The bytes of a region all satisfy `p`.
abbrev pub Covers : (ℕ → Bool) → ℕ × ℕ → Type 0
Covers p (base, size) = (x : ℕ) → base ≤ x → x < base + size → p x ≡ true

largest_free-le : (base size : ℕ) (es : List Entry) → size ≤ (largest_free (base, size) es).1
unfolding largest_free
largest_free-le base size [] = omega arith
largest_free-le base size (e ∷ es) = elim (Bool-cases (e.type == 1 && ltb size e.len)) [
  | inl y ↦ rw (y, largest_free) (ground (arith, largest_free-le e.addr e.len es))
  | inr n ↦ rw (n, largest_free) (largest_free-le base size es)
]

module _ (base size : ℕ) (e : Entry) (es : List Entry) where
  longer :
      (e.type == 1 && ltb size e.len) ≡ true
      → largest_free (base, size) (e ∷ es) ≡ largest_free (e.addr, e.len) es
  unfolding largest_free
  longer y = rw y

  not_longer :
      (e.type == 1 && ltb size e.len) ≡ false
      → largest_free (base, size) (e ∷ es) ≡ largest_free (base, size) es
  unfolding largest_free
  not_longer n = rw n

largest_free-AllWithin :
    (k base size : ℕ) (es : List Entry) → (largest_free (base, size) es).1 ≤ k → AllWithin k es
largest_free-AllWithin k base size [] h = tt
largest_free-AllWithin k base size (e ∷ es) h = elim (Bool-cases (e.type == 1 && ltb size e.len)) [
  | inl y ↦
      let h' : (largest_free (e.addr, e.len) es).1 ≤ k = rw (longer base size e es y) at h in
      (
        (λ f. omega (arith, largest_free-le e.addr e.len es)),
        largest_free-AllWithin k e.addr e.len es h',
      )
  | inr n ↦
      let h' : (largest_free (base, size) es).1 ≤ k = rw (not_longer base size e es n) at h in
      (
        (λ f. ground (arith, largest_free-le base size es)),
        largest_free-AllWithin k base size es h',
      )
]

largest_free-Covers :
    (p : ℕ → Bool) (base size : ℕ) (es : List Entry)
    → Covers p (base, size)
    → ((x : ℕ) → available es x ≡ true → p x ≡ true)
    → Covers p (largest_free (base, size) es)
unfolding largest_free
largest_free-Covers p base size [] c h = c
largest_free-Covers p base size (e ∷ es) c h = elim (Bool-cases (e.type == 1 && ltb size e.len)) [
  | inl y ↦
      rw (y, largest_free)
        (largest_free-Covers p e.addr e.len es (λ x a b. h x (ground arith))
          (λ x a. h x (ground arith)))
  | inr n ↦ rw (n, largest_free) (largest_free-Covers p base size es c (λ x a. h x (ground arith)))
]

largest_free-NoWrap :
    (base size : ℕ) (es : List Entry)
    → base + size < 2 ^ 64
    → NoWrap es
    → (largest_free (base, size) es).0 + (largest_free (base, size) es).1 < 2 ^ 64
unfolding largest_free
largest_free-NoWrap base size [] h w = h
largest_free-NoWrap base size (e ∷ es) h w = elim (Bool-cases (e.type == 1 && ltb size e.len)) [
  | inl y ↦ rw (y, largest_free) (largest_free-NoWrap e.addr e.len es w.0 w.1)
  | inr n ↦ rw (n, largest_free) (largest_free-NoWrap base size es h w.1)
]

-- The region is one of the available ones of the map.
abbrev pub Listed : ℕ × ℕ → List Entry → Type 0
Listed region [] = ⊥
Listed region (e ∷ es) =
    ((e.type ≡ 1) × (e.addr ≡ region.0) × (e.len ≡ region.1)) ⊎ Listed region es

largest_free-Listed :
    (base size : ℕ) (es : List Entry)
    → (largest_free (base, size) es ≡ (base, size)) ⊎ Listed (largest_free (base, size) es) es
unfolding largest_free
largest_free-Listed base size [] = inl refl
largest_free-Listed base size (e ∷ es) = elim (Bool-cases (e.type == 1 && ltb size e.len)) [
  | inl y ↦ inr (
      subst (λ r. Listed r (e ∷ es)) (sym (longer base size e es y))
        (elim (largest_free-Listed e.addr e.len es) [
          | inl q ↦
              inl (ground arith, sym (ap (λ (r : ℕ × ℕ). r.0) q), sym (ap (λ (r : ℕ × ℕ). r.1) q))
          | inr l ↦ inr l
        ]))
  | inr n ↦ elim (largest_free-Listed base size es) [
    | inl q ↦ inl (not_longer base size e es n ∙ q)
    | inr l ↦ inr (subst (λ r. Listed r (e ∷ es)) (sym (not_longer base size e es n)) (inr l))
  ]
]

-- What the region of the heap is, for the map `es`: what the kernel leaves of `whole`.
pub record HeapRegion (kernel_end : ℕ) (es : List Entry) (region : ℕ × ℕ) : Type 0 where
  -- an available region of the map, and none is longer
  pub whole : ℕ × ℕ
  pub listed : Listed whole es
  pub largest : AllWithin whole.1 es
  -- the heap begins behind the kernel if that ends inside the region, or else where the region does,
  -- and goes on to the region's end
  pub start : region.0 ≡ (
      if ltb whole.0 kernel_end && ltb kernel_end (whole.0 + whole.1) then kernel_end else whole.0)
  pub end : region.0 + region.1 ≡ whole.0 + whole.1
  -- all of it is available memory
  pub covers : Covers (available es) region
  -- the kernel does not end inside it
  pub clear : ¬ ((region.0 < kernel_end) × (kernel_end < region.0 + region.1))
  pub bounded : region.0 + region.1 < 2 ^ 64

above_kernel-HeapRegion :
    (kernel_end : ℕ) (es : List Entry)
    → NoWrap es
    → 0 < (largest_free (0, 0) es).1
    → HeapRegion kernel_end es (above_kernel kernel_end (largest_free (0, 0) es))
unfolding above_kernel
above_kernel-HeapRegion kernel_end es w some_bytes =
    elim (Bool-cases (ltb base kernel_end && ltb kernel_end (add64 base size))) [
      | inl y ↦ rw y (record {
        whole = (base, size);
        listed = is_listed;
        end = ground (arith, bound);
        start = ground (arith, bound);
        covers = λ x a b. all x (ground arith) (ground (arith, bound));
        clear = λ h. ground arith;
        largest = largest_free-AllWithin size 0 0 es (omega arith);
        bounded = ground (arith, bound);
      })
      | inr n ↦ rw n (record {
        whole = (base, size);
        listed = is_listed;
        end = refl;
        start = ground (arith, bound);
        covers = all;
        clear = λ h. ground (arith, bound);
        largest = largest_free-AllWithin size 0 0 es (omega arith);
        bounded = bound;
      })
    ]
  where
    base : ℕ
    base = (largest_free (0, 0) es).0

    size : ℕ
    size = (largest_free (0, 0) es).1

    all : Covers (available es) (largest_free (0, 0) es)
    all = largest_free-Covers (available es) 0 0 es (λ x a b. ground arith) (λ x a. a)

    is_listed : Listed (base, size) es
    is_listed = elim (largest_free-Listed 0 0 es) [
      | inl q ↦ absurd (omega (arith, ap (λ (r : ℕ × ℕ). r.1) q))
      | inr l ↦ l
    ]

    bound : base + size < 2 ^ 64
    bound = largest_free-NoWrap 0 0 es (omega arith) w

-- A region with room for a header was not empty before the kernel was cut off.
some_region :
    (kernel_end base size : ℕ)
    → base + size < 2 ^ 64
    → header ≤ (above_kernel kernel_end (base, size)).1
    → 0 < size
unfolding above_kernel
some_region kernel_end base size b h = ground arith

-- `memory_init` makes a heap that tiles the virtual addresses of one region, in one free block. The
-- region is available memory throughout, the kernel does not end inside it, and it is the largest
-- available region of the map, or all of that behind the end of the kernel. It must have room for a header, and its
-- virtual address must be a multiple of eight.
pub memory_init-Tiles :
    (to_virt : ℕ → ℕ) (kernel_end : ℕ) (es : List Entry)
    → NoWrap es
    → let region = above_kernel kernel_end (largest_free (0, 0) es) in
      header ≤ region.1
      → to_virt region.0 % 8 ≡ 0
      → Tiles (to_virt region.0) (to_virt region.0 + region.1) (memory_init to_virt kernel_end es)
        × Coalesced (memory_init to_virt kernel_end es)
        × HeapRegion kernel_end es region
unfolding memory_init
memory_init-Tiles to_virt kernel_end es w room al =
    let h = above_kernel-HeapRegion kernel_end es w (
      some_region kernel_end (largest_free (0, 0) es).0 (largest_free (0, 0) es).1
        (largest_free-NoWrap 0 0 es (omega arith) w) room) in
    ((refl, al, omega (arith, h.bounded)), tt, h)
