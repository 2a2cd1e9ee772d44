-- ===== src/Ramfs/Names.antt =====
-- What `ramfs_create` and `ramfs_mkdir` of src/fs/ramfs.c do to the names that `ramfs_lookup`
-- finds.
use utopia.Base.{
  suc, subst, ℕ, ◌<◌, ◌≡◌, refl, sym, ap, ◌∙◌, ◌≢◌, inl, inr, Bool, true, false, none, some, List,
  arith, if◌then◌else◌, Bool-cases, length, get_elem?, take, length-take, ℤ, pos, negsuc, is_zero,
}
use mathlib.Core.Option
use utopia.Text.{strcmp}
use utopia.Text.Compare.{NulFree, NulFree-take, strcmp_iff}
use utopia.Ramfs.{Node, Store, VnodeType, is_dir, create_node, find_child, lookup, create_entry}
use utopia.Ramfs.Directory.{
  child, length-after, get_elem?-after_parent, get_elem?-after_new, get_elem?-after_other, IsValid,
  after, lookup-after, lookup-after_other, after-IsValid,
}

-- A node of the type and the name in the directory `parent`, without contents and children.
pub record IsNew (kind : VnodeType) (d : ℕ) (called : List ℕ) (n : Node) : Type 0 where
  pub type : n.type ≡ kind
  pub name : n.name ≡ called
  pub size : n.size ≡ 0
  pub contents : n.contents ≡ none
  pub children : n.children ≡ none
  pub parent : n.parent ≡ some d

-- From `st` to `st'` the directory `parent` has gained the name `name`, at the node `new`, which is
-- of the type `type` and has nothing in it; names that compare unequal to it and the other
-- directories are as before.
pub record Gained (type : VnodeType) (st st' : Store) (parent : ℕ) (name : List ℕ) (new : ℕ)
    : Type 0 where
  pub valid : IsValid st'
  pub fresh : new ≡ length st
  pub here :
      (q : List ℕ)
      → lookup st' parent q ≡ (if is_zero (strcmp name q) then some new else lookup st parent q)
  pub elsewhere : (d : ℕ) (q : List ℕ) → parent ≢ d → d < length st → lookup st' d q ≡ lookup st d q
  -- the new node
  pub made : (n : Node) × (get_elem? st' new ≡ some n) × IsNew type parent name n
  pub empty : (q : List ℕ) → lookup st' new q ≡ none
  -- of the directory only the head of its children is another, and the other nodes stay
  pub grown :
      (p : Node)
      → get_elem? st parent ≡ some p
      → get_elem? st' parent ≡ some (record p { children = some new })
  pub kept : (i : ℕ) → parent ≢ i → i < length st → get_elem? st' i ≡ get_elem? st i
  pub longer : length st' ≡ suc (length st)

found-none :
    (st : Store) (parent : ℕ) (p : Node) (name : List ℕ)
    → get_elem? st parent ≡ some p
    → is_dir p.type ≡ true
    → lookup st parent name ≡ find_child st p name
unfolding lookup
found-none st parent p name at d = rw (at, lookup, d)

-- A lookup in a node without children finds nothing.
lookup-new :
    (st : Store) (parent : ℕ) (p n : Node) (at : get_elem? st parent ≡ some p)
    → n.children ≡ none
    → (q : List ℕ) → lookup (after st parent p n at) (length st) q ≡ none
unfolding lookup child find_child
lookup-new st parent p n at e q = elim (Bool-cases (is_dir n.type)) [
  | inl d ↦ rw (get_elem?-after_new st parent p n at, lookup) (rw (d, e) refl)
  | inr d ↦ rw (get_elem?-after_new st parent p n at, lookup) (rw d refl)
]

-- In a directory without the name, `ramfs_create` and `ramfs_mkdir` make one new node, an empty file
-- or an empty directory, and bring its name into the directory: the first 63 characters of what was
-- asked for. In the directory itself only the head of its children changes, and no other node does;
-- lookups of other names and in other directories find what they found.
pub create_entry-Gained :
    (type : VnodeType) (st : Store) (parent : ℕ) (p : Node) (name : List ℕ)
    → IsValid st
    → get_elem? st parent ≡ some p
    → is_dir p.type ≡ true
    → lookup st parent name ≡ none
    → ((create_entry type true st parent name).0 ≡ some (length st))
      × Gained type st (create_entry type true st parent name).1 parent (take 63 name) (length st)
unfolding create_entry
create_entry-Gained type st parent p name v at d absent =
    let absent' : find_child st p name ≡ none = sym (found-none st parent p name at d) ∙ absent in
    rw (at, create_entry, d, absent')
      (
        refl,
        unfold after create_node child in
            record {
              valid = after-IsValid st parent p (create_node name type) at v refl;
              fresh = refl;
              here = λ q. lookup-after st parent p (create_node name type) at q v d;
              elsewhere =
                  λ e q ne l. lookup-after_other st parent p (create_node name type) at e q v ne l;
              made = (
                _,
                get_elem?-after_new st parent p (create_node name type) at,
                record {
                  type = refl;
                  name = refl;
                  size = refl;
                  contents = refl;
                  children = refl;
                  parent = refl;
                },
              );
              empty = lookup-new st parent p (create_node name type) at refl;
              grown = λ m e.
                  subst
                    (λ (o : Node).
                      get_elem? (after st parent p (create_node name type) at) parent
                      ≡ some (record o { children = some (length st) }))
                    (Option.some-injective _ _ (sym at ∙ e))
                    (get_elem?-after_parent st parent p (create_node name type) at);
              kept = get_elem?-after_other st parent p (create_node name type) at;
              longer = length-after st parent p (create_node name type) at;
            },
      )

-- Where they return -1 the store is as it was.
pub create_entry-none :
    (type : VnodeType) (alloc : Bool) (st : Store) (parent : ℕ) (name : List ℕ)
    → (create_entry type alloc st parent name).0 ≡ none
    → (create_entry type alloc st parent name).1 ≡ st
unfolding create_entry
create_entry-none type alloc st parent name h = ground arith

take-ne : (n : ℕ) (s : List ℕ) → n < length s → take n s ≢ s
take-ne n s h e = omega (arith, ap length e, length-take n s)

pub is_zero-pos : (z : ℤ) → is_zero z ≡ true → z ≡ pos 0
is_zero-pos (pos n) h = ground arith
is_zero-pos (negsuc n) h = absurd (ground arith)

-- A name of more than 63 characters is created but not found: after a successful `ramfs_create` or
-- `ramfs_mkdir` a lookup of the same name still fails.
pub lookup-create_entry_long :
    (type : VnodeType) (st : Store) (parent : ℕ) (p : Node) (name : List ℕ)
    → IsValid st
    → get_elem? st parent ≡ some p
    → is_dir p.type ≡ true
    → NulFree name
    → 63 < length name
    → lookup st parent name ≡ none
    → ((create_entry type true st parent name).0 ≡ some (length st))
      × (lookup (create_entry type true st parent name).1 parent name ≡ none)
lookup-create_entry_long type st parent p name v at d nul long absent =
    let (made, gained) = create_entry-Gained type st parent p name v at d absent in
    (made, gained.here name ∙ rw differs absent)
  where
    differs : is_zero (strcmp (take 63 name) name) ≡ false
    differs = elim (Bool-cases (is_zero (strcmp (take 63 name) name))) [
      | inr n ↦ n
      | inl y ↦ absurd (
          take-ne 63 name long
            ((strcmp_iff (take 63 name) name (NulFree-take 63 name nul) nul).0 (is_zero-pos _ y)))
    ]
