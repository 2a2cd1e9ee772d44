-- ===== src/Scheduler/Chains.antt =====
-- The lists that the `next` of the threads of src/exec/scheduler.c make.
use mathlib.Core.Option
use utopia.Base.{
  ℕ, ◌≡◌, refl, sym, ap, ◌∙◌, subst, ◌≢◌, inl, inr, true, false, Option, none, some, List, [], ◌∷◌,
  ◌++◌, arith, ◌==◌, ==_self, ==_ne, Bool-cases,
}
use utopia.Scheduler.{Thread, update}

-- The threads from `head` on are those of the list, and the last has no `next`.
abbrev pub Chain : {R : Type 0} → (ℕ → Thread R) → Option ℕ → List ℕ → Type 0
Chain threads none [] = Unit {0}
Chain threads none (x ∷ xs) = ⊥
Chain threads (some i) [] = ⊥
Chain threads (some i) (x ∷ xs) = (i ≡ x) × Chain threads (threads i).next xs

abbrev pub Fresh : ℕ → List ℕ → Type 0
Fresh t [] = Unit {0}
Fresh t (x ∷ xs) = (x ≢ t) × Fresh t xs

abbrev pub Distinct : List ℕ → Type 0
Distinct [] = Unit {0}
Distinct (x ∷ xs) = Fresh x xs × Distinct xs

-- No thread is in both lists.
abbrev pub Apart : List ℕ → List ℕ → Type 0
Apart [] ys = Unit {0}
Apart (x ∷ xs) ys = Fresh x ys × Apart xs ys

abbrev pub last : List ℕ → Option ℕ
last [] = none
last (x ∷ []) = some x
last (x ∷ y ∷ xs) = last (y ∷ xs)

pub last-append : (xs : List ℕ) (t : ℕ) → last (xs ++ (t ∷ [])) ≡ some t
last-append [] t = refl
last-append (x ∷ []) t = refl
last-append (x ∷ y ∷ xs) t = last-append (y ∷ xs) t

last-ne : (x l y : ℕ) (xs : List ℕ) → Fresh x (y ∷ xs) → last (y ∷ xs) ≡ some l → x ≢ l
last-ne x l y [] f e q = f.0 (Option.some-injective y l e ∙ sym q)
last-ne x l y (z ∷ xs) f e q = last-ne x l z xs f.1 e q

module _ {R : Type 0} where
  -- A write to threads outside the list does not change it.
  pub Chain-update :
      (threads : ℕ → Thread R) (h : Option ℕ) (xs : List ℕ) (t : ℕ) (th : Thread R)
      → Fresh t xs
      → Chain threads h xs
      → Chain (update t th threads) h xs
  Chain-update threads none [] t th f c = c
  Chain-update threads none (x ∷ xs) t th f c = c
  Chain-update threads (some i) [] t th f c = c
  Chain-update threads (some i) (x ∷ xs) t th f c =
      let other : (i == t) ≡ false = ==_ne i t (λ e. f.0 (sym c.0 ∙ e)) in
      (c.0, rw other (Chain-update threads (threads i).next xs t th f.1 c.1))

  -- A write that keeps `next` does not change any list.
  pub Chain-update_same :
      (threads : ℕ → Thread R) (h : Option ℕ) (xs : List ℕ) (t : ℕ) (th : Thread R)
      → th.next ≡ (threads t).next
      → Chain threads h xs
      → Chain (update t th threads) h xs
  Chain-update_same threads none [] t th e c = c
  Chain-update_same threads none (x ∷ xs) t th e c = c
  Chain-update_same threads (some i) [] t th e c = c
  Chain-update_same threads (some i) (x ∷ xs) t th e c = (
    c.0,
    elim (Bool-cases (i == t)) [
      | inl y ↦
          let at : i ≡ t = ground arith in
          rw y (
            subst (λ n. Chain (update t th threads) n xs) (ap (λ k. (threads k).next) at ∙ sym e)
              (Chain-update_same threads (threads i).next xs t th e c.1))
      | inr n ↦ rw n (Chain-update_same threads (threads i).next xs t th e c.1)
    ],
  )

  -- A thread without a `next` that is linked to the last one becomes the last.
  pub Chain-link :
      (threads : ℕ → Thread R) (h : Option ℕ) (x : ℕ) (xs : List ℕ) (l t : ℕ) (th : Thread R)
      → Chain threads h (x ∷ xs)
      → Distinct (x ∷ xs)
      → Fresh t (x ∷ xs)
      → last (x ∷ xs) ≡ some l
      → th.next ≡ some t
      → (threads t).next ≡ none
      → Chain (update l th threads) h ((x ∷ xs) ++ (t ∷ []))
  Chain-link threads none x xs l t th c d f e to_t end = absurd c
  Chain-link threads (some i) x [] l t th c d f e to_t end =
      let at : x ≡ l = Option.some-injective x l e in
      let here : (i == l) ≡ true = rw (c.0 ∙ at) (==_self l) in
      let other : (t == l) ≡ false = ==_ne t l (λ q. f.0 (at ∙ sym q)) in
      (c.0, rw (here, to_t) (refl, rw (other, end) tt))
  Chain-link threads (some i) x (y ∷ xs) l t th c d f e to_t end =
      let other : (i == l) ≡ false = ==_ne i l (λ q. last-ne x l y xs d.0 e (sym c.0 ∙ q)) in
      (c.0, rw other (Chain-link threads (threads i).next y xs l t th c.1 d.1 f.1 e to_t end))

pub Fresh-append : (t : ℕ) (xs ys : List ℕ) → Fresh t (xs ++ ys) → Fresh t xs × Fresh t ys
Fresh-append t [] ys f = (tt, f)
Fresh-append t (x ∷ xs) ys f = let (a, b) = Fresh-append t xs ys f.1 in ((f.0, a), b)

pub Distinct-snoc : (xs : List ℕ) (t : ℕ) → Distinct xs → Fresh t xs → Distinct (xs ++ (t ∷ []))
Distinct-snoc [] t d f = (tt, tt)
Distinct-snoc (x ∷ xs) t d f = (fresh xs d.0, Distinct-snoc xs t d.1 f.1)
  where
    fresh : (ys : List ℕ) → Fresh x ys → Fresh x (ys ++ (t ∷ []))
    fresh [] g = (λ e. f.0 (sym e), tt)
    fresh (y ∷ ys) g = (g.0, fresh ys g.1)

pub last-some : (x : ℕ) (xs : List ℕ) → (l : ℕ) × (last (x ∷ xs) ≡ some l)
last-some x [] = (x, refl)
last-some x (y ∷ xs) = last-some y xs

-- What it means that no thread is twice in a list, at one thread of it.
pub Distinct-middle :
    (xs : List ℕ) (w : ℕ) (ws : List ℕ)
    → Distinct (xs ++ (w ∷ ws))
    → Fresh w xs × Fresh w ws × Apart xs ws
Distinct-middle [] w ws d = (tt, d.0, tt)
Distinct-middle (x ∷ xs) w ws d =
    let (a, b, c) = Distinct-middle xs w ws d.1 in
    let (here, f) = Fresh-append x xs (w ∷ ws) d.0 in ((λ e. f.0 (sym e), a), b, (f.1, c))

pub Distinct-prefix : (xs ys : List ℕ) → Distinct (xs ++ ys) → Distinct xs
Distinct-prefix [] ys d = tt
Distinct-prefix (x ∷ xs) ys d = ((Fresh-append x xs ys d.0).0, Distinct-prefix xs ys d.1)

pub last-Apart : (xs ys : List ℕ) (l : ℕ) → Apart xs ys → last xs ≡ some l → Fresh l ys
last-Apart [] ys l a e = absurd (Option.none-ne-some l e)
last-Apart (x ∷ []) ys l a e = subst (λ k. Fresh k ys) (Option.some-injective x l e) a.0
last-Apart (x ∷ y ∷ xs) ys l a e = last-Apart (y ∷ xs) ys l a.1 e

pub last-Fresh : (xs : List ℕ) (l i : ℕ) → Fresh i xs → last xs ≡ some l → l ≢ i
last-Fresh [] l i f e at = Option.none-ne-some l e
last-Fresh (x ∷ []) l i f e at = f.0 (Option.some-injective x l e ∙ at)
last-Fresh (x ∷ y ∷ xs) l i f e at = last-Fresh (y ∷ xs) l i f.1 e at

pub Fresh-snoc : (t : ℕ) (xs : List ℕ) (y : ℕ) → Fresh t xs → y ≢ t → Fresh t (xs ++ (y ∷ []))
Fresh-snoc t [] y f n = (n, tt)
Fresh-snoc t (x ∷ xs) y f n = (f.0, Fresh-snoc t xs y f.1 n)

pub Fresh-join : (t : ℕ) (xs ys : List ℕ) → Fresh t xs → Fresh t ys → Fresh t (xs ++ ys)
Fresh-join t [] ys f g = g
Fresh-join t (x ∷ xs) ys f g = (f.0, Fresh-join t xs ys f.1 g)

pub Distinct-without :
    (xs : List ℕ) (t : ℕ) (ws : List ℕ) → Distinct (xs ++ (t ∷ ws)) → Distinct (xs ++ ws)
Distinct-without [] t ws d = d.1
Distinct-without (x ∷ xs) t ws d =
    let (f, g) = Fresh-append x xs (t ∷ ws) d.0 in
    (Fresh-join x xs ws f g.1, Distinct-without xs t ws d.1)
