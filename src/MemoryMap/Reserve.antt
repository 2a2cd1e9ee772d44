-- ===== src/MemoryMap/Reserve.antt =====
-- `memory_reserve_range` of src/mm/pmm.c takes exactly the bytes of the range out of the
-- available memory.
use utopia.Base.{
  ℕ, zero, suc, ◌+◌, ◌^◌, ◌≤◌, ◌<◌, ◌≡◌, refl, ◌∙◌, subst, ◌⊎◌, inl, inr, Bool, true, false, ◌&&◌,
  ◌||◌, Option, some, List, [], ◌∷◌, ◌++◌, arith, ltb, leb, ◌==◌, Bool-cases, add64, length,
  length-append,
}
use utopia.MemoryMap.{
  Entry, max_entries, Visit, becomes, split, visit, reserve_loop, memory_reserve_range,
}

-- `x` lies in an available region.
abbrev pub within : Entry → ℕ → Bool
within e x = e.type == 1 && leb e.addr x && ltb x (e.addr + e.len)

abbrev pub available : List Entry → ℕ → Bool
available [] x = false
available (e ∷ es) x = within e x || available es x

-- No region reaches the end of the address space.
abbrev pub NoWrap : List Entry → Type 0
NoWrap [] = Unit {0}
NoWrap (e ∷ es) = (e.addr + e.len < 2 ^ 64) × NoWrap es

abbrev pub outside : ℕ → ℕ → ℕ → Bool
outside start end x = ltb x start || leb end x

-- What becomes of one entry's bytes, the new entry's included.
abbrev Visited : ℕ → ℕ → Entry → Visit → Type 0
Visited start end e (becomes e') =
    (e'.addr + e'.len < 2 ^ 64) × ((x : ℕ) → within e' x ≡ (within e x && outside start end x))
Visited start end e (split e' n) =
    (e'.addr + e'.len < 2 ^ 64)
    × (n.addr + n.len < 2 ^ 64)
    × ((x : ℕ)
        → (within e' x || (within n x && outside start end x))
          ≡ (within e x && outside start end x))
    × ((x : ℕ) → within n x ≡ true → within e x ≡ true)

visit-Visited :
    (start end : ℕ) (e : Entry)
    → start < end
    → end < 2 ^ 64
    → e.addr + e.len < 2 ^ 64
    → Visited start end e (visit start end e)
unfolding visit
visit-Visited start end e h k w =
    let exact : add64 e.addr e.len ≡ e.addr + e.len = omega arith in
    elim (Bool-cases (e.type == 1)) [
      | inr n ↦ rw n (w, λ x. ground arith)
      | inl y ↦
          rw (y, exact)
            (elim (Bool-cases (leb end e.addr || leb (e.addr + e.len) start)) [
              | inl a ↦ rw a (w, λ x. ground arith)
              | inr a ↦ rw a (elim (Bool-cases (leb start e.addr && leb (e.addr + e.len) end)) [
                | inl b ↦ rw b (w, λ x. ground arith)
                | inr b ↦ rw b (elim (Bool-cases (leb start e.addr && ltb end (e.addr + e.len))) [
                  | inl c ↦ rw c (ground arith, λ x. ground arith)
                  | inr c ↦ rw c (elim (Bool-cases (ltb e.addr start && leb (e.addr + e.len) end)) [
                    | inl d ↦ rw d (ground arith, λ x. ground arith)
                    | inr d ↦
                        rw (d, cut a b c d)
                          (ground arith, ground arith, (λ x. ground arith), λ x. ground arith)
                  ])
                ])
              ])
            ])
    ]
  where
    cut :
        (leb end e.addr || leb (e.addr + e.len) start) ≡ false
        → (leb start e.addr && leb (e.addr + e.len) end) ≡ false
        → (leb start e.addr && ltb end (e.addr + e.len)) ≡ false
        → (ltb e.addr start && leb (e.addr + e.len) end) ≡ false
        → (ltb e.addr start && ltb end (e.addr + e.len)) ≡ true
    cut a b c d = ground arith

available-append :
    (xs ys : List Entry) (x : ℕ) → available (xs ++ ys) x ≡ (available xs x || available ys x)
available-append [] ys x = refl
available-append (e ∷ xs) ys x = ground (arith, available-append xs ys x)

NoWrap-append : (xs ys : List Entry) → NoWrap xs → NoWrap ys → NoWrap (xs ++ ys)
NoWrap-append [] ys h k = k
NoWrap-append (e ∷ xs) ys h k = (h.0, NoWrap-append xs ys h.1 k)

-- What a return says of the available bytes: on 0 those of `todo` in the range are gone and all
-- else is as before; on -1 nothing became available.
abbrev pub Outcome : ℕ → ℕ → List Entry → List Entry → Bool × List Entry → Type 0
Outcome start end done todo (true, m) =
    (x : ℕ) → available m x ≡ (available done x || (available todo x && outside start end x))
Outcome start end done todo (false, m) =
    (x : ℕ) → available m x ≡ true → (available done x || available todo x) ≡ true

Outcome-becomes :
    (start end : ℕ) (done todo : List Entry) (e e' : Entry)
    → ((x : ℕ) → within e' x ≡ (within e x && outside start end x))
    → (r : Bool × List Entry) → Outcome start end (done ++ (e' ∷ [])) todo r
    → Outcome start end done (e ∷ todo) r
Outcome-becomes start end done todo e e' v (true, m) o =
    λ x. o x ∙ ground (arith, v x, available-append done (e' ∷ []) x)
Outcome-becomes start end done todo e e' v (false, m) o =
    λ x i. let h = o x i in ground (arith, v x, available-append done (e' ∷ []) x)

Outcome-split :
    (start end : ℕ) (done todo : List Entry) (e e' n : Entry)
    → ((x : ℕ)
        → (within e' x || (within n x && outside start end x))
          ≡ (within e x && outside start end x))
    → ((x : ℕ) → within n x ≡ true → within e x ≡ true)
    → (r : Bool × List Entry) → Outcome start end (done ++ (e' ∷ [])) (todo ++ (n ∷ [])) r
    → Outcome start end done (e ∷ todo) r
Outcome-split start end done todo e e' n v w (true, m) o = λ x.
    o x ∙ ground (arith, v x, available-append done (e' ∷ []) x, available-append todo (n ∷ []) x)
Outcome-split start end done todo e e' n v w (false, m) o = λ x i.
    let h = o x i in
    ground (arith, v x, w x, available-append done (e' ∷ []) x, available-append todo (n ∷ []) x)

Visit-cases :
    (v : Visit) → ((e : Entry) × (v ≡ becomes e)) ⊎ ((e : Entry) × (n : Entry) × (v ≡ split e n))
Visit-cases (becomes e) = inl (e, refl)
Visit-cases (split e n) = inr (e, n, refl)

-- The loop has ended, with 0 or -1, and the map kept its bound and form.
abbrev pub Ends : ℕ → ℕ → List Entry → List Entry → Option (Bool × List Entry) → Type 0
Ends start end done todo o =
    (r : Bool × List Entry) × (o ≡ some r)
    × Outcome start end done todo r
    × NoWrap r.1
    × (length r.1 ≤ max_entries)

reserve_loop-Ends :
    (start end : ℕ) (fuel : ℕ) (done todo : List Entry)
    → start < end
    → end < 2 ^ 64
    → NoWrap done
    → NoWrap todo
    → length done + length todo ≤ max_entries
    → max_entries < length done + fuel
    → Ends start end done todo (reserve_loop start end fuel done todo)
unfolding reserve_loop
reserve_loop-Ends start end zero done todo lt small nd nt room fuel = absurd (omega arith)
reserve_loop-Ends start end (suc f) done [] lt small nd nt room fuel =
    ((true, done), refl, (λ x. ground arith), nd, omega arith)
reserve_loop-Ends start end (suc f) done (e ∷ todo) lt small nd nt room fuel =
    elim (Visit-cases (visit start end e)) [
      | inl (e', q) ↦
          let v = subst (Visited start end e) q (visit-Visited start end e lt small nt.0) in
          let size = length-append done (e' ∷ []) in
          let (r, eq, o, w, l) =
            reserve_loop-Ends start end f (done ++ (e' ∷ [])) todo lt small
              (NoWrap-append done (e' ∷ []) nd (v.0, tt)) nt.1 (omega (arith, size))
              (omega (arith, size)) in
          (r, rw (q, reserve_loop) eq, Outcome-becomes start end done todo e e' v.1 r o, w, l)
      | inr (e', n, q) ↦ elim (Bool-cases (leb max_entries (length done + suc (length todo)))) [
        | inl full ↦ (
          (false, done ++ (e ∷ todo)),
          rw (q, reserve_loop, full),
          (λ x i. ground (arith, available-append done (e ∷ todo) x)),
          NoWrap-append done (e ∷ todo) nd nt,
          omega (arith, length-append done (e ∷ todo)),
        )
        | inr free ↦
            let v = subst (Visited start end e) q (visit-Visited start end e lt small nt.0) in
            let size = length-append done (e' ∷ []) in
            let size' = length-append todo (n ∷ []) in
            let below : length done + suc (length todo) < max_entries = ground arith in
            let (r, eq, o, w, l) =
              reserve_loop-Ends start end f (done ++ (e' ∷ [])) (todo ++ (n ∷ [])) lt small
                (NoWrap-append done (e' ∷ []) nd (v.0, tt))
                (NoWrap-append todo (n ∷ []) nt.1 (v.1, tt)) (omega (arith, size, size'))
                (omega (arith, size)) in
            (
              r,
              rw (q, reserve_loop, free) eq,
              Outcome-split start end done todo e e' n v.2 v.3 r o,
              w,
              l,
            )
      ]
    ]

-- `memory_reserve_range` ends, keeps the map within its 64 entries, and on a return of 0 a byte is
-- available afterwards exactly if it was before and lies outside `[start, end)`; on -1 no byte
-- became available. No region may reach the end of the address space.
pub memory_reserve_range-Ends :
    (start end : ℕ) (entries : List Entry)
    → end < 2 ^ 64
    → NoWrap entries
    → length entries ≤ max_entries
    → Ends start end [] entries (memory_reserve_range start end entries)
unfolding memory_reserve_range
memory_reserve_range-Ends start end entries small w room = elim (Bool-cases (leb end start)) [
  | inl y ↦ rw y ((true, entries), refl, (λ x. ground arith), w, room)
  | inr n ↦ rw n (
      reserve_loop-Ends start end (max_entries + 1) [] entries (ground arith) small tt w
        (omega arith) (omega arith))
]
