-- ===== src/Ramfs/Directory.antt =====
-- The directories of src/fs/ramfs.c: `ramfs_create` and `ramfs_mkdir` against `ramfs_lookup`.
use utopia.Base.{
  ℕ, zero, suc, ◌≤◌, ◌<◌, ◌≡◌, refl, sym, ap, ◌∙◌, subst, ◌≢◌, inl, inr, true, false, Option, none,
  some, List, [], ◌∷◌, ◌++◌, arith, ◌==◌, if◌then◌else◌, Bool-cases, Option-cases, length,
  get_elem?, length-append, length-set, get_elem?-set_self, get_elem?-set_ne, is_zero,
}
use mathlib.Core.Option.{some-injective}
use utopia.Text.{strcmp}
use utopia.Ramfs.{Node, Store, is_dir, find_from, find_child, add_child, lookup, mount}

-- A pointer that is null or below `n`.
abbrev pub Below : ℕ → Option ℕ → Type 0
Below n none = Unit {0}
Below n (some j) = j < n

-- `next` leads to an older node, and every list of children begins in the store.
pub record IsValid (st : Store) : Type 0 where
  pub next_older : (i : ℕ) (n : Node) → get_elem? st i ≡ some n → Below i n.next
  pub children_in : (i : ℕ) (n : Node) → get_elem? st i ≡ some n → Below (length st) n.children

pub mount-IsValid : IsValid mount
unfolding mount
mount-IsValid = record { next_older = first; children_in = inside }
  where
    first : (i : ℕ) (n : Node) → get_elem? mount i ≡ some n → Below i n.next
    first zero n e =
        subst (λ (o : Option Node). elim o [ none ↦ Unit {0} | some m ↦ Below 0 m.next ]) e tt
    first (suc i) n e = absurd (ground arith)

    inside : (i : ℕ) (n : Node) → get_elem? mount i ≡ some n → Below (length mount) n.children
    inside zero n e =
        subst (λ (o : Option Node). elim o [ none ↦ Unit {0} | some m ↦ Below 1 m.children ]) e tt
    inside (suc i) n e = absurd (ground arith)

get_elem?-append_left :
    (xs : Store) (x : Node) (i : ℕ) → i < length xs → get_elem? (xs ++ (x ∷ [])) i ≡ get_elem? xs i
get_elem?-append_left [] x i h = absurd (omega arith)
get_elem?-append_left (y ∷ xs) x zero h = refl
get_elem?-append_left (y ∷ xs) x (suc i) h = get_elem?-append_left xs x i (omega arith)

get_elem?-append_end : (xs : Store) (x : Node) → get_elem? (xs ++ (x ∷ [])) (length xs) ≡ some x
get_elem?-append_end [] x = refl
get_elem?-append_end (y ∷ xs) x = get_elem?-append_end xs x

pub get_elem?-lt : (xs : Store) (i : ℕ) (n : Node) → get_elem? xs i ≡ some n → i < length xs
get_elem?-lt [] i n e = absurd (ground arith)
get_elem?-lt (x ∷ xs) zero n e = omega arith
get_elem?-lt (x ∷ xs) (suc i) n e = omega (arith, get_elem?-lt xs i n e)

Below-mono : (i n : ℕ) (o : Option ℕ) → i ≤ n → Below i o → Below n o
Below-mono i n none h b = tt
Below-mono i n (some j) h b = omega arith

-- More fuel than the index needs changes nothing: the search ends by a null pointer.
find_from-fuel :
    (st : Store) (f g : ℕ) (cur : Option ℕ) (q : List ℕ)
    → IsValid st
    → Below f cur
    → Below g cur
    → find_from f st cur q ≡ find_from g st cur q
unfolding find_from
find_from-fuel st zero zero cur q v a b = refl
find_from-fuel st zero (suc g) none q v a b = refl
find_from-fuel st zero (suc g) (some i) q v a b = absurd (omega arith)
find_from-fuel st (suc f) zero none q v a b = refl
find_from-fuel st (suc f) zero (some i) q v a b = absurd (omega arith)
find_from-fuel st (suc f) (suc g) none q v a b = refl
find_from-fuel st (suc f) (suc g) (some i) q v a b = elim (Option-cases (get_elem? st i)) [
  | inl e ↦ rw (e, find_from)
  | inr (o, e) ↦
      let older = v.next_older i o e in
      let ih =
        find_from-fuel st f g o.next q v (Below-mono i f o.next (omega arith) older)
          (Below-mono i g o.next (omega arith) older) in
      rw (e, find_from)
        (λ k. elim (is_zero (strcmp o.name q)) as (λ x. Option ℕ) [ true ↦ some i | false ↦ ih k ])
]

of_some : (P : Node → Type 0) {a m : Node} → some a ≡ some m → P a → P m
of_some P {a} {m} e h = subst P (some-injective a m e) h

-- A directory `p` at `parent`, and a node `n` that is put into it.
module _ (st : Store) (parent : ℕ) (p n : Node) (at : get_elem? st parent ≡ some p) where
  unfoldable pub after : Store
  after = add_child st parent p n

  unfoldable pub child : Node
  child = record n { next = p.children; parent = some parent }

  parent_in : parent < length st
  parent_in = get_elem?-lt st parent p at

  pub length-after : length after ≡ suc (length st)
  unfolding after add_child child
  length-after =
      length-set (st ++ (child ∷ [])) parent (record p { children = some (length st) })
      ∙ length-append st (child ∷ [])
      ∙ omega arith

  pub get_elem?-after_parent :
      get_elem? after parent ≡ some (record p { children = some (length st) })
  unfolding after add_child child
  get_elem?-after_parent =
      get_elem?-set_self (st ++ (child ∷ [])) parent (record p { children = some (length st) })
        (omega (arith, parent_in, length-append st (child ∷ [])))

  pub get_elem?-after_new : get_elem? after (length st) ≡ some child
  unfolding after add_child child
  get_elem?-after_new =
      get_elem?-set_ne (st ++ (child ∷ [])) parent (length st)
        (record p { children = some (length st) }) (omega (arith, parent_in))
      ∙ get_elem?-append_end st child

  pub get_elem?-after_other :
      (j : ℕ) → parent ≢ j → j < length st → get_elem? after j ≡ get_elem? st j
  unfolding after add_child child
  get_elem?-after_other j ne l =
      get_elem?-set_ne (st ++ (child ∷ [])) parent j (record p { children = some (length st) }) ne
      ∙ get_elem?-append_left st child j l

  -- A search among the old nodes does not see the change.
  find_from-after :
      (fuel : ℕ) (cur : Option ℕ) (q : List ℕ)
      → IsValid st
      → Below (length st) cur
      → find_from fuel after cur q ≡ find_from fuel st cur q
  unfolding find_from
  find_from-after zero cur q v b = refl
  find_from-after (suc fuel) none q v b = refl
  find_from-after (suc fuel) (some j) q v b = elim (Bool-cases (parent == j)) [
    | inl y ↦
        let same : parent ≡ j = ground arith in
        let ih = find_from-after fuel p.next q v (
          Below-mono parent (length st) p.next (omega (arith, parent_in))
            (v.next_older parent p at)) in
        subst (λ i. find_from (suc fuel) after (some i) q ≡ find_from (suc fuel) st (some i) q) same
          (rw (get_elem?-after_parent, at, find_from)
            (λ i. elim (is_zero (strcmp p.name q)) as (λ x. Option ℕ) [
              | true ↦ some parent
              | false ↦ ih i
            ]))
    | inr m ↦
        let other : get_elem? after j ≡ get_elem? st j = get_elem?-after_other j (ground arith) b in
        elim (Option-cases (get_elem? st j)) [
          | inl e ↦ rw (other, e, find_from)
          | inr (o, e) ↦
              let ih =
                find_from-after fuel o.next q v
                  (Below-mono j (length st) o.next (omega arith) (v.next_older j o e)) in
              rw (other, e, find_from)
                (λ i. elim (is_zero (strcmp o.name q)) as (λ x. Option ℕ) [
                  | true ↦ some j
                  | false ↦ ih i
                ])
        ]
  ]

  find_from-new :
      (fuel : ℕ) (q : List ℕ)
      → IsValid st
      → find_from (suc fuel) after (some (length st)) q
        ≡ (if is_zero (strcmp n.name q) then some (length st) else find_from fuel st p.children q)
  unfolding find_from
  find_from-new fuel q v = elim (Bool-cases (is_zero (strcmp n.name q))) [
    | inl y ↦ rw (get_elem?-after_new, find_from) (unfold child in rw y)
    | inr m ↦
        rw (get_elem?-after_new, find_from)
          (unfold child in rw m (find_from-after fuel p.children q v (v.children_in parent p at)))
  ]

  -- The new node is found first, and behind it what was found before.
  pub lookup-after :
      (q : List ℕ)
      → IsValid st
      → is_dir p.type ≡ true
      → lookup after parent q
        ≡ (if is_zero (strcmp n.name q) then some (length st) else lookup st parent q)
  unfolding lookup
  lookup-after q v d =
      rw (get_elem?-after_parent, at, lookup, d)
        (unfold find_child in
          find_from-new (length after) q v
          ∙ ap
              (λ f.
                if is_zero (strcmp n.name q) then some (length st) else find_from f st p.children q)
              length-after)

  -- In another directory nothing changes.
  pub lookup-after_other :
      (d : ℕ) (q : List ℕ)
      → IsValid st
      → parent ≢ d
      → d < length st
      → lookup after d q ≡ lookup st d q
  unfolding lookup
  lookup-after_other d q v ne l = elim (Option-cases (get_elem? st d)) [
    | inl e ↦ rw (get_elem?-after_other d ne l, e, lookup)
    | inr (o, e) ↦
        let inside = v.children_in d o e in
        rw (get_elem?-after_other d ne l, e, lookup)
          (unfold find_child in
            ap (λ r. if is_dir o.type then r else none)
              (find_from-after (suc (length after)) o.children q v inside
                ∙ find_from-fuel st (suc (length after)) (suc (length st)) o.children q v
                    (Below-mono (length st) (suc (length after)) o.children
                      (omega (arith, length-after)) inside)
                    (Below-mono (length st) (suc (length st)) o.children (omega arith) inside)))
  ]

  -- What holds of the directory, of the new node and of every other node holds of all.
  each_after :
      (P : ℕ → Node → Type 0)
      → P parent (record p { children = some (length st) })
      → P (length st) child
      → ((i : ℕ) (m : Node) → get_elem? st i ≡ some m → P i m)
      → (i : ℕ) (m : Node) → get_elem? after i ≡ some m
      → P i m
  each_after P hp hn ho i m e = elim (Bool-cases (parent == i)) [
    | inl y ↦
        let same : parent ≡ i = ground arith in
        subst (λ j. P j m) same
          (of_some (P parent) (sym get_elem?-after_parent ∙ ap (get_elem? after) same ∙ e) hp)
    | inr n' ↦ elim (Bool-cases (length st == i)) [
      | inl y ↦
          let same : length st ≡ i = ground arith in
          subst (λ j. P j m) same
            (of_some (P (length st)) (sym get_elem?-after_new ∙ ap (get_elem? after) same ∙ e) hn)
      | inr l ↦
          let below : i < suc (length st) = omega (arith, get_elem?-lt after i m e, length-after) in
          ho i m (sym (get_elem?-after_other i (ground arith) (ground (arith, below))) ∙ e)
    ]
  ]

  pub after-IsValid : IsValid st → n.children ≡ none → IsValid after
  unfolding child
  after-IsValid v c = record {
    next_older =
        each_after (λ i m. Below i m.next) (v.next_older parent p at) (v.children_in parent p at)
          v.next_older;
    children_in =
        each_after (λ i m. Below (length after) m.children) (omega (arith, length-after)) (rw c tt)
          (λ i m e.
            Below-mono (length st) (length after) m.children (omega (arith, length-after))
              (v.children_in i m e));
  }
