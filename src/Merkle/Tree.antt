-- ===== src/Merkle/Tree.antt =====
-- The state of a `MerkleTree` in reapi/merkletree/merkletree.go: the directories by their names.
use siso.Common.{
  Bool, ◌||◌, List, [], ◌∷◌, ◌++◌, Option, none, some, Bytes, codes, bytes_eq, if◌then◌else◌,
}

pub record FileNode : Type 0 where
  pub name : Bytes
  pub digest : Bytes
  pub is_executable : Bool

pub record SymlinkNode : Type 0 where
  pub name : Bytes
  pub target : Bytes

-- The digest is `none` until the tree is built.
pub record DirectoryNode : Type 0 where
  pub name : Bytes
  pub digest : Option Bytes

pub record Directory : Type 0 where
  pub files : List FileNode
  pub symlinks : List SymlinkNode
  pub directories : List DirectoryNode

-- `m.m`: a name is bound to a directory, or to nothing where the subtree is precomputed.
abbrev pub Entries : Type 0
Entries = List (Bytes × Option Directory)

-- The store has the digests of the data in it; it may be missing.
pub record MerkleTree : Type 0 where
  pub entries : Entries
  pub store : Option (List Bytes)

abbrev pub empty_directory : Directory
empty_directory = record { files = []; symlinks = []; directories = [] }

-- `New`
abbrev pub new_tree : Option (List Bytes) → MerkleTree
new_tree store = record { entries = ([], some empty_directory) ∷ []; store = store }

-- A lookup in the map; the outer option is whether the name is there.
unfoldable pub find : Bytes → Entries → Option (Option Directory)
find k [] = none
find k ((key, d) ∷ es) = let rest = find k es in if bytes_eq key k then some d else rest

-- A directory is shared by the map and all who have its pointer: a write through one is a write to the map.
unfoldable pub modify : Bytes → (Directory → Directory) → Entries → Entries
modify k f [] = []
modify k f ((key, none) ∷ es) = (key, none) ∷ modify k f es
modify k f ((key, some d) ∷ es) = (key, some (if bytes_eq key k then f d else d)) ∷ modify k f es

-- `pathJoin`
abbrev pub path_join : Bytes → Bytes → Bytes
path_join dir base =
    if bytes_eq dir (codes ".") || bytes_eq dir [] then base else dir ++ (b'/' ∷ base)

-- The name that a directory has in the map, where `dirstate` calls the root `.`.
abbrev pub key_of : Bytes → Bytes
key_of name = if bytes_eq name (codes ".") then [] else name

-- `m.store.Set`, if there is a store.
unfoldable pub put_all : List Bytes → MerkleTree → MerkleTree
put_all ds t = elim (t.store) [ none ↦ t | some s ↦ record t { store = some (s ++ ds) } ]

abbrev pub add_file : FileNode → Directory → Directory
add_file f d = record d { files = d.files ++ (f ∷ []) }

abbrev pub add_symlink : SymlinkNode → Directory → Directory
add_symlink s d = record d { symlinks = d.symlinks ++ (s ∷ []) }

abbrev pub add_directory : DirectoryNode → Directory → Directory
add_directory n d = record d { directories = d.directories ++ (n ∷ []) }
