-- ===== src/Memory/Compare.antt =====
-- `memcmp` of src/mm/utils.c tells whether two ranges hold the same bytes.
use utopia.Base.{ℕ, zero, suc, ◌+◌, ◌<◌, ◌≡◌, refl, ◌↔◌, ◌⊎◌, inl, inr, arith, ◌==◌, Bool-cases}
use utopia.Memory.{Bytes, memcmp}

abbrev Same : ℕ → ℕ → ℕ → Bytes → Type 0
Same a b n mem = (i : ℕ) → i < n → mem (a + i) ≡ mem (b + i)

first : (a b n : ℕ) (mem : Bytes) → Same a b (suc n) mem → mem a ≡ mem b
first a b n mem f = grind (arith, f 0 (omega arith))

rest : (a b n : ℕ) (mem : Bytes) → Same a b (suc n) mem → Same (a + 1) (b + 1) n mem
rest a b n mem f i h = grind (arith, f (suc i) (omega arith))

longer :
    (a b n : ℕ) (mem : Bytes) → mem a ≡ mem b → Same (a + 1) (b + 1) n mem → Same a b (suc n) mem
longer a b n mem e f zero h = grind (arith, e)
longer a b n mem e f (suc i) h = grind (arith, f i (omega arith))

-- `memcmp` returns 0 exactly if the `n` bytes at `a` and at `b` are the same, and else 1.
pub memcmp_iff :
    (a b n : ℕ) (mem : Bytes)
    → ((memcmp a b n mem ≡ 0) ↔ ((i : ℕ) → i < n → mem (a + i) ≡ mem (b + i)))
      × ((memcmp a b n mem ≡ 0) ⊎ (memcmp a b n mem ≡ 1))
unfolding memcmp
memcmp_iff a b zero mem = ((λ e i h. absurd (omega arith), λ f. refl), inl refl)
memcmp_iff a b (suc n) mem = elim (Bool-cases (mem a == mem b)) [
  | inr m ↦
      rw (memcmp, m)
        ((λ e. absurd (omega arith), λ f. absurd (ground (arith, first a b n mem f))), inr refl)
  | inl y ↦
      let (same, cases) = memcmp_iff (a + 1) (b + 1) n mem in
      rw (memcmp, y)
        ((λ e. longer a b n mem (ground arith) (same.0 e), λ f. same.1 (rest a b n mem f)), cases)
]
