-- ===== src/Ramfs.antt =====
-- The in-memory file system of src/fs/ramfs.c. A `ramfs_node_t*` is the index of its node in the
-- store, where nodes are only ever added. Whether an allocation succeeds is an argument, `true` if
-- it does. The fields that point to the operations and the mount are left out.
pub mod Directory
pub mod Names
pub mod File
mod Tests
use utopia.Base.{
  ℕ, zero, suc, ◌-◌, Bool, true, false, not, Option, none, some, List, ◌∷◌, ◌++◌, map, ltb, leb,
  ◌==◌, if◌then◌else◌, add64, sub64, length, get_elem?, get_or, set, take, drop, replicate, is_zero,
  [],
}
use mathlib.Core.Option
use utopia.Text.{strcmp}

-- `vnode_type_t`
pub data VnodeType : Type 0 where
  file dir : VnodeType

abbrev pub is_dir : VnodeType → Bool
is_dir file = false
is_dir dir = true

-- `ramfs_node_t` with its `vnode_t`; `none` is a null pointer.
pub record Node : Type 0 where
  pub type : VnodeType
  pub size : ℕ
  pub name : List ℕ
  pub parent : Option ℕ
  pub children : Option ℕ
  pub next : Option ℕ
  pub contents : Option (List ℕ)

abbrev pub Store : Type 0
Store = List Node

-- `ramfs_create_node`: the name is cut to 63 characters.
pub create_node : List ℕ → VnodeType → Node
create_node name type = record {
  type = type;
  size = 0;
  name = take 63 name;
  parent = none;
  children = none;
  next = none;
  contents = none;
}

-- The loop of `ramfs_find_child` from `cur`.
pub find_from : ℕ → Store → Option ℕ → List ℕ → Option ℕ
find_from zero st cur name = none
find_from (suc fuel) st none name = none
find_from (suc fuel) st (some i) name = elim (get_elem? st i) [
  | none ↦ none
  | some n ↦ elim (is_zero (strcmp n.name name)) [
    | true ↦ some i
    | false ↦ find_from fuel st n.next name
  ]
]

-- `ramfs_find_child`. A sibling list has at most as many nodes as the store.
pub find_child : Store → Node → List ℕ → Option ℕ
unfolding find_from
find_child st parent name = find_from (suc (length st)) st parent.children name

-- `ramfs_add_child` for the node `n`, which becomes the last of the store.
pub add_child : Store → ℕ → Node → Node → Store
add_child st parent p n =
    set (st ++ (record n { next = p.children; parent = some parent } ∷ [])) parent
      (record p { children = some (length st) })

-- `ramfs_lookup`; `none` is the return value -1.
unfoldable pub lookup : Store → ℕ → List ℕ → Option ℕ
unfolding find_child
lookup st parent name = elim (get_elem? st parent) [
  | none ↦ none
  | some p ↦ if is_dir p.type then find_child st p name else none
]

-- The common body of `ramfs_mkdir` and `ramfs_create`: the new node's pointer, or -1.
unfoldable pub create_entry : VnodeType → Bool → Store → ℕ → List ℕ → Option ℕ × Store
unfolding create_node find_child add_child
create_entry type alloc st parent name = elim (get_elem? st parent) [
  | none ↦ (none, st)
  | some p ↦ if not (is_dir p.type) then (none, st) else elim (find_child st p name) [
    | some i ↦ (none, st)
    | none ↦
        if alloc
        then (some (length st), add_child st parent p (create_node name type))
        else (none, st)
  ]
]

unfoldable pub mkdir : Bool → Store → ℕ → List ℕ → Option ℕ × Store
unfolding create_entry
mkdir = create_entry dir

unfoldable pub create : Bool → Store → ℕ → List ℕ → Option ℕ × Store
unfolding create_entry
create = create_entry file

-- `memcpy(data + offset, buffer, size)`; what would go past the end is dropped.
pub overlay : List ℕ → ℕ → List ℕ → List ℕ
overlay [] offset buffer = []
overlay (x ∷ xs) (suc offset) buffer = x ∷ overlay xs offset buffer
overlay (x ∷ xs) zero [] = x ∷ xs
overlay (x ∷ xs) zero (b ∷ bs) = b ∷ overlay xs zero bs

-- `ramfs_read` of a file with the bytes `contents`.
pub read_bytes : ℕ → Option (List ℕ) → ℕ → ℕ → ℕ × List ℕ
read_bytes file_size none size offset = (0, [])
read_bytes file_size (some bytes) size offset =
    if leb file_size offset
    then (0, [])
    else let to_read = if ltb file_size (add64 offset size) then sub64 file_size offset else size in
      (to_read, take to_read (drop offset bytes))

-- `ramfs_read` of a node: how many bytes it reports, and the bytes; `none` is -1.
pub read_node : Node → ℕ → ℕ → Option (ℕ × List ℕ)
unfolding read_bytes
read_node n size offset =
    if is_dir n.type then none else some (read_bytes n.size n.contents size offset)

unfoldable pub read : Store → ℕ → ℕ → ℕ → Option (ℕ × List ℕ)
unfolding read_node
read st i size offset = elim (get_elem? st i) [ none ↦ none | some n ↦ read_node n size offset ]

abbrev bytes_of : Option (List ℕ) → List ℕ
bytes_of none = []
bytes_of (some bytes) = bytes

-- The part of `ramfs_write` that makes room for `needed` bytes; a failed allocation is `none`.
pub grow : Bool → ℕ → Node → Option Node
grow alloc needed n =
    if ltb n.size needed
    then (if alloc
        then some (record n {
          size = needed;
          contents = some (overlay (replicate needed 0) 0 (take n.size (bytes_of n.contents)));
        })
        else none)
    else some n

-- The last `memcpy` of `ramfs_write`.
pub fill : List ℕ → ℕ → Option Node → Option Node
unfolding overlay
fill buffer offset none = none
fill buffer offset (some m) =
    some (record m { contents = Option.map (λ bytes. overlay bytes offset buffer) m.contents })

pub write_node : Bool → Node → List ℕ → ℕ → Option Node
unfolding grow fill
write_node alloc n buffer offset =
    if is_dir n.type then none else fill buffer offset (grow alloc (add64 offset (length buffer)) n)

-- `ramfs_write`: the number of bytes that it reports and the store, or -1.
unfoldable pub write : Bool → Store → ℕ → List ℕ → ℕ → Option (ℕ × Store)
unfolding write_node
write alloc st i buffer offset = elim (get_elem? st i) [
  | none ↦ none
  | some n ↦ elim (write_node alloc n buffer offset) [
    | none ↦ none
    | some m ↦ some (length buffer, set st i m)
  ]
]

-- The walk of `ramfs_readdir` along the siblings.
pub nth_child : ℕ → Store → Option ℕ → Option ℕ
nth_child zero st cur = cur
nth_child (suc k) st none = none
nth_child (suc k) st (some i) = elim (get_elem? st i) [
  | none ↦ none
  | some n ↦ nth_child k st n.next
]

-- `vfs_dirent_t`; 4 is the type of a directory and 8 of a file.
pub record Dirent : Type 0 where
  pub ino : ℕ
  pub off : ℕ
  pub type : ℕ
  pub name : List ℕ

abbrev dirent_type : VnodeType → ℕ
dirent_type dir = 4
dirent_type file = 8

-- `ramfs_readdir`; `none` is -1.
unfoldable pub readdir : Store → ℕ → ℕ → Option Dirent
unfolding nth_child
readdir st i index = elim (get_elem? st i) [
  | none ↦ none
  | some d ↦
      if not (is_dir d.type)
      then none
      else if index == 0
      then some (record { ino = i; off = 1; type = 4; name = b'.' ∷ [] })
      else if index == 1
      then some
          (record { ino = Option.get_or d.parent i; off = 2; type = 4; name = b'.' ∷ b'.' ∷ [] })
      else elim (nth_child (index - 2) st d.children) [
        | none ↦ none
        | some c ↦ elim (get_elem? st c) [
          | none ↦ none
          | some n ↦
              some
                (record { ino = c; off = add64 index 1; type = dirent_type n.type; name = n.name })
        ]
      ]
]

-- `ramfs_mount`: a store with the root, which is the node 0.
unfoldable pub mount : Store
mount =
    record {
      type = dir;
      size = 0;
      name = [];
      parent = none;
      children = none;
      next = none;
      contents = none;
    }
    ∷ []
