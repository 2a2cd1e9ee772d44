-- ===== src/Text/Compare.antt =====
-- What the comparisons of src/lib/string.c decide.
use utopia.Base.{
  ℕ, zero, suc, ◌<◌, ◌≡◌, refl, ap₂, subst, ◌≢◌, ◌↔◌, inl, inr, not, ◌&&◌, List, [], ◌∷◌, arith,
  ◌==◌, Bool-cases, take, pos, sub_ℕ,
}
use utopia.Text.{strcmp, strncmp}

-- No character is the NUL.
abbrev pub NulFree : List ℕ → Type 0
NulFree [] = Unit {0}
NulFree (c ∷ s) = (0 < c) × NulFree s

pub NulFree-take : (n : ℕ) (s : List ℕ) → NulFree s → NulFree (take n s)
NulFree-take zero s h = tt
NulFree-take (suc n) [] h = tt
NulFree-take (suc n) (c ∷ s) h = (h.0, NulFree-take n s h.1)

sub_ℕ-ne : (a b : ℕ) → a ≢ b → sub_ℕ a b ≢ pos 0
sub_ℕ-ne a b h e = ground arith

strcmp_sound : (s t : List ℕ) → NulFree s → NulFree t → strcmp s t ≡ pos 0 → s ≡ t
unfolding strcmp
strcmp_sound [] [] ns nt h = refl
strcmp_sound [] (b ∷ t) ns nt h = absurd (sub_ℕ-ne 0 b (omega arith) h)
strcmp_sound (a ∷ s) [] ns nt h = absurd (sub_ℕ-ne a 0 (omega arith) h)
strcmp_sound (a ∷ s) (b ∷ t) ns nt h = elim (Bool-cases (not (a == 0) && a == b)) [
  | inl y ↦ ap₂ ◌∷◌ (ground arith) (strcmp_sound s t ns.1 nt.1 (rw (y, strcmp) at h))
  | inr n ↦ absurd (sub_ℕ-ne a b (ground arith) (rw (n, strcmp) at h))
]

strcmp_self : (s : List ℕ) → NulFree s → strcmp s s ≡ pos 0
unfolding strcmp
strcmp_self [] n = refl
strcmp_self (a ∷ s) n = ground (arith, strcmp_self s n.1)

-- Of strings without NULs `strcmp` returns 0 exactly if they are equal.
pub strcmp_iff : (s t : List ℕ) → NulFree s → NulFree t → (strcmp s t ≡ pos 0) ↔ (s ≡ t)
strcmp_iff s t ns nt =
    (strcmp_sound s t ns nt, λ e. subst (λ u. strcmp s u ≡ pos 0) e (strcmp_self s ns))

-- Of strings without NULs `strncmp` agrees with `strcmp` of their first `n` characters.
pub strncmp-strcmp :
    (s t : List ℕ) (n : ℕ) → NulFree s → NulFree t → strncmp s t n ≡ strcmp (take n s) (take n t)
unfolding strcmp strncmp
strncmp-strcmp s t zero ns nt = refl
strncmp-strcmp [] [] (suc n) ns nt = refl
strncmp-strcmp [] (b ∷ t) (suc n) ns nt = refl
strncmp-strcmp (a ∷ s) [] (suc n) ns nt = refl
strncmp-strcmp (a ∷ s) (b ∷ t) (suc n) ns nt = ground (arith, strncmp-strcmp s t n ns.1 nt.1)
