-- ===== src/Vfs/Tests.antt =====
-- The virtual file system of src/fs/vfs.c over a small ramfs, with its theorems there.
use utopia.Base.{Bool, ℕ, ◌≡◌, refl, sym, subst, true, none, some, List, [], ◌∷◌, ◌++◌, arith}
use utopia.Ramfs
use utopia.Ramfs.{Store, Node, dir, file}
use utopia.Ramfs.Names.{create_entry-Gained}
use utopia.Ramfs.Directory.{IsValid, mount-IsValid}
use utopia.Text.{strcmp}
use utopia.Vfs.{Driver, Registry, slash, skip_dot, lookup, opened, open_path}
use utopia.Vfs.Paths.{components}
use utopia.Vfs.Resolve.{resolve, lookup-resolve}
use utopia.Vfs.Creates.{Creates, lookup-open_path}
use utopia.Vfs.OnRamfs.{Fits, ramfs_ops, ramfs-Creates}

-- Every allocation succeeds.
abbrev roomy : Ramfs.Store → Bool
roomy st = true

abbrev tmp : List ℕ
tmp = b't' ∷ b'm' ∷ b'p' ∷ []

abbrev log : List ℕ
log = b'l' ∷ b'o' ∷ b'g' ∷ []

abbrev slash_tmp : List ℕ
slash_tmp = slash ∷ tmp

-- A ramfs with the directory `/tmp`.
abbrev root_node : Node
root_node = record {
  type = dir;
  size = 0;
  name = [];
  parent = none;
  children = some 1;
  next = none;
  contents = none;
}

abbrev tmp_node : Node
tmp_node = record {
  type = dir;
  size = 0;
  name = tmp;
  parent = some 0;
  children = none;
  next = none;
  contents = none;
}

abbrev with_tmp : Store
with_tmp = root_node ∷ tmp_node ∷ []

with_tmp_run : with_tmp ≡ (Ramfs.create_entry dir true Ramfs.mount 0 tmp).1
unfolding Ramfs.create_entry Ramfs.mount
with_tmp_run = refl

open_run :
    open_path (ramfs_ops roomy) with_tmp (some 0) (slash_tmp ++ (slash ∷ log)) 0x40
    ≡ opened 2 (Ramfs.create true with_tmp 1 log).1
unfolding open_path ramfs_ops Ramfs.create Ramfs.lookup strcmp
open_run = refl

with_tmp-IsValid : IsValid with_tmp
unfolding Ramfs.mount
with_tmp-IsValid =
    subst IsValid (sym with_tmp_run)
      (create_entry-Gained dir Ramfs.mount 0 _ tmp mount-IsValid refl refl
        (unfold Ramfs.lookup in refl)).1.valid

lookup_absent : lookup (ramfs_ops roomy) with_tmp (some 0) (slash_tmp ++ (slash ∷ log)) ≡ none
unfolding lookup ramfs_ops Ramfs.lookup strcmp
lookup_absent = refl

lookup_tmp : lookup (ramfs_ops roomy) with_tmp (some 0) slash_tmp ≡ some 1
unfolding lookup ramfs_ops Ramfs.lookup strcmp
lookup_tmp = refl

lookup-open_path_example :
    IsValid (Ramfs.create true with_tmp 1 log).1
    × (lookup
          (ramfs_ops roomy)
          (Ramfs.create true with_tmp 1 log).1
          (some 0)
          (slash_tmp ++ (slash ∷ log))
        ≡ some 2)
lookup-open_path_example =
    lookup-open_path (ramfs_ops roomy) (ramfs-Creates roomy) with_tmp
      (Ramfs.create true with_tmp 1 log).1 0 2 slash_tmp log 0x40 with_tmp-IsValid refl
      (omega arith) (omega arith) (omega arith) (omega arith) refl (omega arith) (omega arith)
      (omega arith) refl lookup_absent open_run

lookup-resolve_example :
    lookup (ramfs_ops roomy) with_tmp (some 0) slash_tmp
    ≡ resolve (ramfs_ops roomy) with_tmp 0 0 (components (skip_dot slash_tmp))
lookup-resolve_example = lookup-resolve (ramfs_ops roomy) with_tmp 0 slash_tmp

abbrev ramfs_driver : Driver ℕ
ramfs_driver = record { name = tmp; mount = some (λ source target. some (some 0)) }

abbrev one_driver : Registry ℕ
one_driver = record { drivers = ramfs_driver ∷ []; mounts = [] }

ramfs-Creates_example : Creates (ramfs_ops roomy) IsValid Fits
ramfs-Creates_example = ramfs-Creates roomy
