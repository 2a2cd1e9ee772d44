-- ===== src/Vfs.antt =====
-- The virtual file system of src/fs/vfs.c. The state `S` and the nodes `V` of the mounted file
-- system are parameters, and so are its operations: `VnodeOps` is `vnode_ops_t`.
pub mod Paths
pub mod Resolve
pub mod Mounting
pub mod Open
pub mod Creates
pub mod OnRamfs
mod Tests
use utopia.Base.{
  ℕ, zero, suc, ◌+◌, ◌/◌, ◌%◌, Bool, true, false, not, ◌&&◌, ◌||◌, Option, none, some, List, ◌∷◌,
  ◌++◌, leb, ◌==◌, if◌then◌else◌, length, get_or, take, drop, is_zero, [],
}
use utopia.Text.{strcmp}
use utopia.Ramfs.{VnodeType, file, dir, is_dir}

-- The part of `vnode_ops_t` that path lookup and opening call, and the type of a vnode. `none` is an
-- operation that the file system does not have. The inner `none` of `lookup` is a nonzero return
-- value or a null node, that of `create` a nonzero return value: a `create` that returns 0 stores the
-- node that it made.
pub record VnodeOps (S V : Type 0) : Type 0 where
  pub type : S → V → VnodeType
  pub lookup : S → V → Option (List ℕ → Option V)
  pub create : S → V → Option (List ℕ → Option V × S)

-- `filesystem_driver_t` and `filesystem_mount_t`; what a driver's `mount` does with the source and
-- the target is the root that it sets, or `none` if it fails.
pub record Driver (V : Type 0) : Type 0 where
  pub name : List ℕ
  pub mount : Option (List ℕ → List ℕ → Option (Option V))

pub record Mount (V : Type 0) : Type 0 where
  pub root : Option V
  pub driver : List ℕ

-- `g_drivers` and `g_mounts`, as long as their counters say.
pub record Registry (V : Type 0) : Type 0 where
  pub drivers : List (Driver V)
  pub mounts : List (Mount V)

abbrev pub max_drivers : ℕ
max_drivers = 16

abbrev pub max_mounts : ℕ
max_mounts = 16

abbrev pub slash : ℕ
slash = b'/'

abbrev pub is_dot : List ℕ → Bool
is_dot (c ∷ []) = c == b'.'
is_dot s = false

module _ {V : Type 0} where
  -- `vfs_register_driver`; the Boolean is false for -1. A null driver or name is `none`.
  pub register_driver : Option (Driver V) → Registry V → Bool × Registry V
  register_driver none r = (false, r)
  register_driver (some d) r =
      if leb max_drivers (length r.drivers)
      then (false, r)
      else (true, record r { drivers = r.drivers ++ (d ∷ []) })

  -- `vfs_find_driver`
  pub find_driver : List (Driver V) → List ℕ → Option (Driver V)
  find_driver [] type = none
  find_driver (d ∷ ds) type = if is_zero (strcmp d.name type) then some d else find_driver ds type

  -- The call of the driver's `mount` and what follows it.
  pub finish_mount : Driver V → List ℕ → List ℕ → Registry V → Bool × Registry V
  finish_mount d source target r = elim d.mount [
    | none ↦ (false, r)
    | some f ↦ elim (f source target) [
      | none ↦ (false, r)
      | some root ↦
          (true, record r { mounts = r.mounts ++ (record { root = root; driver = d.name } ∷ []) })
    ]
  ]

  -- `vfs_mount`; `alloc` says whether the allocation of the mount succeeds.
  pub mount : Bool → List ℕ → List ℕ → List ℕ → Registry V → Bool × Registry V
  unfolding find_driver finish_mount
  mount alloc type source target r = elim (find_driver r.drivers type) [
    | none ↦ (false, r)
    | some d ↦
        if leb max_mounts (length r.mounts)
        then (false, r)
        else if alloc
        then finish_mount d source target r
        else (false, r)
  ]

-- `vfs_next_token`: what the loops skip, what they copy, and what is left.
pub skip_slashes : List ℕ → List ℕ
skip_slashes [] = []
skip_slashes (c ∷ s) = if c == slash then skip_slashes s else c ∷ s

pub token_of : List ℕ → List ℕ
token_of [] = []
token_of (c ∷ s) = if c == slash then [] else c ∷ token_of s

pub rest_of : List ℕ → List ℕ
rest_of [] = []
rest_of (c ∷ s) = if c == slash then c ∷ s else rest_of s

pub next_token : List ℕ → List ℕ × List ℕ
unfolding skip_slashes token_of rest_of
next_token path = let q = skip_slashes path in (take 127 (token_of q), rest_of q)

-- The leading `.` that `vfs_lookup` drops.
pub skip_dot : List ℕ → List ℕ
skip_dot [] = []
skip_dot (c ∷ []) = if c == b'.' then [] else c ∷ []
skip_dot (c ∷ d ∷ s) = if c == b'.' && d == slash then s else c ∷ d ∷ s

-- `vfs_split_path`; its caller's buffers hold 256 and 128 characters, and a part that does not fit
-- is `overflow`.
pub data Split : Type 0 where
  failed : Split
  overflow : Split
  parts : List ℕ → List ℕ → Split

-- The loop for the last slash, from the index below `i` down.
pub last_slash : ℕ → List ℕ → Option ℕ
last_slash zero path = none
last_slash (suc i) path = elim (get_or path i 0 == slash) [
  | true ↦ some i
  | false ↦ last_slash i path
]

pub split_at : ℕ → List ℕ → Split
split_at i path =
    let parent = if i == 0 then slash ∷ [] else take i path in
    let filename = drop (i + 1) path in
    if leb 256 (length parent) || leb 128 (length filename) then overflow else parts parent filename

pub split_path : List ℕ → Split
unfolding last_slash split_at
split_path path =
    if length path == 0 || not (get_or path 0 0 == slash)
    then failed
    else elim (last_slash (length path) path) [ none ↦ failed | some i ↦ split_at i path ]

-- What `vfs_open` returns: a node, a negative errno, or a buffer overrun.
pub data Opened (S V : Type 0) : Type 0 where
  opened : V → S → Opened S V
  error : ℕ → S → Opened S V
  overrun : Opened S V

abbrev pub o_creat : ℕ → Bool
o_creat flags = flags / 0x40 % 2 == 1

abbrev pub o_excl : ℕ → Bool
o_excl flags = flags / 0x80 % 2 == 1

abbrev pub o_directory : ℕ → Bool
o_directory flags = flags / 0x10000 % 2 == 1

module _ {S V : Type 0} (ops : VnodeOps S V) where
  -- The call `current->ops->lookup`.
  pub step : S → V → List ℕ → Option V
  step st v name = elim (ops.lookup st v) [ none ↦ none | some f ↦ f name ]

  -- The loop of `vfs_lookup`. It consumes a character a round, which bounds the fuel.
  pub walk : ℕ → S → V → V → List ℕ → Option V
  walk zero st root current p = none
  walk (suc fuel) st root current [] = some current
  walk (suc fuel) st root current (c ∷ s) =
      let token = (next_token (c ∷ s)).0 in
      let rest = (next_token (c ∷ s)).1 in
      elim (length token == 0) [
        | true ↦ walk fuel st root current rest
        | false ↦ elim (is_dot token) [
          | true ↦ walk fuel st root root rest
          | false ↦ elim (step st current token) [
            | none ↦ none
            | some next ↦ walk fuel st root next rest
          ]
        ]
      ]

  -- `vfs_lookup` with `root` the root of the first mount; `none` is -1.
  pub lookup : S → Option V → List ℕ → Option V
  unfolding walk skip_dot next_token step
  lookup st none path = none
  lookup st (some root) path = walk (suc (length path)) st root root (skip_dot path)

  -- The part of `vfs_open` that makes a file in the directory at `parent`.
  pub create_in : S → V → List ℕ → Opened S V
  create_in st parent filename =
      if not (is_dir (ops.type st parent)) then error 20 st else elim (ops.create st parent) [
        | none ↦ error 30 st
        | some f ↦ elim (f filename).0 [
          | none ↦ error 5 (f filename).1
          | some v ↦ opened v (f filename).1
        ]
      ]

  pub create_at : S → Option V → List ℕ → Opened S V
  unfolding lookup create_in split_path
  create_at st root path = elim (split_path path) [
    | failed ↦ error 2 st
    | overflow ↦ overrun
    | parts parent filename ↦ elim (lookup st root parent) [
      | none ↦ error 2 st
      | some v ↦ create_in st v filename
    ]
  ]

  -- `vfs_open`
  pub open_path : S → Option V → List ℕ → ℕ → Opened S V
  unfolding lookup create_at
  open_path st root path flags = elim (lookup st root path) [
    | some v ↦
        if o_creat flags && o_excl flags
        then error 17 st
        else if o_directory flags && not (is_dir (ops.type st v))
        then error 20 st
        else opened v st
    | none ↦ if o_creat flags then create_at st root path else error 2 st
  ]
