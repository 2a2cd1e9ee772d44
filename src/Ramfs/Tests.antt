-- ===== src/Ramfs/Tests.antt =====
-- The file system of src/fs/ramfs.c at a small tree, with its theorems there.
use utopia.Base.{ℕ, ◌≡◌, refl, true, none, some, List, [], ◌∷◌, arith, set, take, replicate}
use utopia.Text.{strcmp}
use utopia.Ramfs.{
  Node, Store, file, dir, find_from, lookup, create_entry, read, write, readdir, mount,
}
use utopia.Ramfs.Directory.{mount-IsValid}
use utopia.Ramfs.File.{IsFile, Written, write-Written, read-write}
use utopia.Ramfs.Names.{Gained, create_entry-Gained}

abbrev dev : List ℕ
dev = b'd' ∷ b'e' ∷ b'v' ∷ []

abbrev hi : List ℕ
hi = b'h' ∷ b'i' ∷ []

abbrev root : Node
root = record {
  type = dir;
  size = 0;
  name = [];
  parent = none;
  children = none;
  next = none;
  contents = none;
}

abbrev hello : Node
hello = record {
  type = file;
  size = 2;
  name = hi;
  parent = some 0;
  children = none;
  next = none;
  contents = some (7 ∷ 8 ∷ []);
}

abbrev tree : Store
tree = record root { children = some 1 } ∷ hello ∷ []

tree_listing : readdir tree 0 2 ≡ some (record { ino = 1; off = 3; type = 8; name = hi })
unfolding readdir
tree_listing = refl

tree_lookup : lookup tree 0 hi ≡ some 1
unfolding lookup strcmp
tree_lookup = refl

hello-IsFile : IsFile hello
hello-IsFile = record { type = refl; sized = refl }

write-Written_example :
    (m : Node) × (write true tree 1 (9 ∷ 9 ∷ []) 3 ≡ some (2, set tree 1 m))
    × Written hello m (9 ∷ 9 ∷ []) 3
write-Written_example = write-Written tree 1 hello (9 ∷ 9 ∷ []) 3 refl hello-IsFile (omega arith)

read-write_example :
    (st : Store) × (write true tree 1 (9 ∷ 9 ∷ []) 3 ≡ some (2, st))
    × (read st 1 2 3 ≡ some (2, 9 ∷ 9 ∷ []))
read-write_example = read-write tree 1 hello (9 ∷ 9 ∷ []) 3 refl hello-IsFile (omega arith)

create_entry-Gained_example :
    ((create_entry dir true mount 0 dev).0 ≡ some 1)
    × Gained dir mount (create_entry dir true mount 0 dev).1 0 (take 63 dev) 1
unfolding mount lookup find_from
create_entry-Gained_example = create_entry-Gained dir mount 0 root dev mount-IsValid refl refl refl

abbrev long_name : List ℕ
long_name = replicate 64 b'a'
