-- ===== src/Merkle/Build.antt =====
-- `Build` and `buildTree` of reapi/merkletree/merkletree.go. The digest of a directory is a parameter: it is
-- that of its serialised form, which may fail.
use siso.Common.{
  ℕ, zero, suc, ◌+◌, Bool, true, false, not, ◌&&◌, List, [], ◌∷◌, ◌++◌, Option, none, some, Bytes,
  bytes_eq, ◌==◌, ltb, if◌then◌else◌, length,
}
use Prim.Native.Nat.{max}
use siso.Merkle.Tree.{
  FileNode, SymlinkNode, DirectoryNode, Directory, Entries, MerkleTree, find, modify, path_join,
  put_all,
}

-- What a name of a directory stands for.
pub data Node : Type 0 where
  file : FileNode → Node
  symlink : SymlinkNode → Node
  subdir : DirectoryNode → Node

unfoldable pub node_name : Node → Bytes
node_name (file f) = f.name
node_name (symlink s) = s.name
node_name (subdir d) = d.name

-- `names`
unfoldable pub lookup_node : Bytes → List Node → Option Node
lookup_node k [] = none
lookup_node k (n ∷ ns) =
    let rest = lookup_node k ns in if bytes_eq (node_name n) k then some n else rest

unfoldable pub digest_eq : Option Bytes → Option Bytes → Bool
digest_eq none none = true
digest_eq (some a) (some b) = bytes_eq a b
digest_eq _ _ = false

abbrev pub bool_eq : Bool → Bool → Bool
bool_eq true b = b
bool_eq false b = not b

-- `proto.Equal`, for two nodes.
unfoldable pub node_eq : Node → Node → Bool
node_eq (file f) (file g) =
    bytes_eq (f.name) (g.name)
    && bytes_eq (f.digest) (g.digest)
    && bool_eq (f.is_executable) (g.is_executable)
node_eq (symlink s) (symlink u) = bytes_eq (s.name) (u.name) && bytes_eq (s.target) (u.target)
node_eq (subdir d) (subdir e) = bytes_eq (d.name) (e.name) && digest_eq (d.digest) (e.digest)
node_eq _ _ = false

-- The order of two names.
unfoldable pub bytes_lt : Bytes → Bytes → Bool
bytes_lt s [] = false
bytes_lt [] (d ∷ t) = true
bytes_lt (c ∷ s) (d ∷ t) = if c == d then bytes_lt s t else ltb c d

-- `sort.Slice` by name.
unfoldable pub insert_by {ℓ} : {A : Type ℓ} → (A → Bytes) → A → List A → List A
insert_by key x [] = x ∷ []
insert_by key x (y ∷ ys) =
    let rest = insert_by key x ys in if bytes_lt (key y) (key x) then y ∷ rest else x ∷ y ∷ ys

unfoldable pub sort_by {ℓ} : {A : Type ℓ} → (A → Bytes) → List A → List A
sort_by key [] = []
sort_by key (x ∷ xs) = insert_by key x (sort_by key xs)

-- The loop over the files: those that are kept and the names, or `none` where two that differ have one name.
unfoldable pub pick_files : List Node → List FileNode → Option (List FileNode × List Node)
pick_files names [] = some ([], names)
pick_files names (f ∷ fs) = elim (lookup_node (f.name) names) [
  | some p ↦ elim (node_eq (file f) p) [ false ↦ none | true ↦ pick_files names fs ]
  | none ↦ elim (pick_files (file f ∷ names) fs) [ none ↦ none | some (gs, ns) ↦ some (f ∷ gs, ns) ]
]

-- The loop over the symlinks.
unfoldable pub pick_symlinks : List Node → List SymlinkNode → Option (List SymlinkNode × List Node)
pick_symlinks names [] = some ([], names)
pick_symlinks names (s ∷ ss) = elim (lookup_node (s.name) names) [
  | some p ↦ elim (node_eq (symlink s) p) [ false ↦ none | true ↦ pick_symlinks names ss ]
  | none ↦ elim (pick_symlinks (symlink s ∷ names) ss) [
    | none ↦ none
    | some (us, ns) ↦ some (s ∷ us, ns)
  ]
]

pub data BuildError : Type 0 where
  duplicate not_found no_digest out_of_fuel : BuildError

pub data Built {ℓ} (A : Type ℓ) : Type ℓ where
  built : A → Built A
  broken : BuildError → Built A

abbrev pub set_files : List FileNode → Directory → Directory
set_files fs d = record d { files = fs }

abbrev pub set_symlinks : List SymlinkNode → Directory → Directory
set_symlinks ss d = record d { symlinks = ss }

abbrev pub set_directories : List DirectoryNode → Directory → Directory
set_directories ns d = record d { directories = ns }

-- A write to the directory of the name.
abbrev pub write_dir : Bytes → (Directory → Directory) → MerkleTree → MerkleTree
write_dir k f t = record t { entries = modify k f t.entries }

-- The tree below a directory's name.
abbrev pub Builder : Type 0
Builder = Bytes → MerkleTree → Built Bytes × MerkleTree

abbrev pub with_digest : DirectoryNode → Built Bytes × MerkleTree → Built DirectoryNode × MerkleTree
with_digest n (built digest, t) = (built (record n { digest = some digest }), t)
with_digest n (broken e, t) = (broken e, t)

-- A node whose digest is not known yet is built, unless the subtree is precomputed.
unfoldable pub digest_node :
    Builder
    → Bytes
    → Option Directory
    → DirectoryNode
    → MerkleTree
    → Built DirectoryNode × MerkleTree
digest_node sub dirname none n t = (built n, t)
digest_node sub dirname (some d) n t = elim (n.digest) [
  | some digest ↦ (built n, t)
  | none ↦ with_digest n (sub (path_join dirname (n.name)) t)
]

abbrev pub is_symlink : Option Node → Bool
is_symlink (some (symlink s)) = true
is_symlink _ = false

abbrev pub cons_built :
    DirectoryNode
    → Built (List DirectoryNode) × MerkleTree
    → Built (List DirectoryNode) × MerkleTree
cons_built n (built ns, t) = (built (n ∷ ns), t)
cons_built n (broken e, t) = (broken e, t)

-- What the loop over the subdirectories returns, and the rest of it: it takes the names, the nodes that the
-- loop has seen, and the tree.
abbrev pub Dirs : Type 0
Dirs = Built (List DirectoryNode) × MerkleTree

abbrev pub DirsRest : Type 0
DirsRest = List Node → List DirectoryNode → MerkleTree → Dirs

-- A node whose name is there already has to be the same. At an error the nodes that were seen stay in the
-- directory, with their digests.
unfoldable pub place :
    Bytes
    → List Node
    → List DirectoryNode
    → DirectoryNode
    → List DirectoryNode
    → DirsRest
    → Built DirectoryNode × MerkleTree
    → Dirs
place dirname names seen n ns rest (broken e, t) =
    (broken e, write_dir dirname (set_directories (seen ++ (n ∷ ns))) t)
place dirname names seen n ns rest (built m, t) = elim (lookup_node (n.name) names) [
  | none ↦ cons_built m (rest (subdir m ∷ names) (seen ++ (m ∷ [])) t)
  | some p ↦ elim (node_eq (subdir m) p) [
    | true ↦ rest names (seen ++ (m ∷ [])) t
    | false ↦ (broken duplicate, write_dir dirname (set_directories (seen ++ (m ∷ ns))) t)
  ]
]

-- One round of the loop; a symlink of the name takes its place.
unfoldable pub build_dir :
    Builder
    → Bytes
    → List Node
    → List DirectoryNode
    → DirectoryNode
    → List DirectoryNode
    → MerkleTree
    → DirsRest
    → Option (Option Directory)
    → Dirs
build_dir sub dirname names seen n ns t rest none =
    (broken not_found, write_dir dirname (set_directories (seen ++ (n ∷ ns))) t)
build_dir sub dirname names seen n ns t rest (some d) =
    elim (is_symlink (lookup_node (n.name) names)) [
      | true ↦ rest names (seen ++ (n ∷ [])) t
      | false ↦ place dirname names seen n ns rest (digest_node sub dirname d n t)
    ]

-- The loop over the subdirectories: those that are kept.
unfoldable pub build_dirs :
    Builder → Bytes → List Node → List DirectoryNode → List DirectoryNode → MerkleTree → Dirs
build_dirs sub dirname names seen [] t = (built [], t)
build_dirs sub dirname names seen (n ∷ ns) t =
    build_dir sub dirname names seen n ns t
      (λ names' seen' t'. build_dirs sub dirname names' seen' ns t')
      (find (path_join dirname (n.name)) (t.entries))

-- The longest name in the map. The name of a subdirectory is longer than that of its directory, so this
-- bounds how deep the calls of `buildTree` are.
unfoldable pub longest : Entries → ℕ
longest [] = 0
longest ((key, d) ∷ es) = max (length key) (longest es)

module _ (digest_of : Directory → Option Bytes) where
  abbrev pub add_digest : Option Bytes → MerkleTree → Built Bytes × MerkleTree
  add_digest none t = (broken no_digest, t)
  add_digest (some h) t = (built h, put_all (h ∷ []) t)

  -- The digest of the directory as it is now.
  abbrev pub digest_dir : Option (Option Directory) → MerkleTree → Built Bytes × MerkleTree
  digest_dir (some (some d)) t = add_digest (digest_of d) t
  digest_dir _ t = (broken not_found, t)

  unfoldable pub close_dir : Bytes → Dirs → Built Bytes × MerkleTree
  close_dir dirname (broken e, t) = (broken e, t)
  close_dir dirname (built ns, t) =
      let t' = write_dir dirname (set_directories (sort_by (λ n. n.name) ns)) t in
      digest_dir (find dirname (t'.entries)) t'

  unfoldable pub build_links :
      Builder
      → Bytes
      → Directory
      → Option (List SymlinkNode × List Node)
      → MerkleTree
      → Built Bytes × MerkleTree
  build_links sub dirname d none t = (broken duplicate, t)
  build_links sub dirname d (some (ss, names)) t = close_dir dirname (
      build_dirs sub dirname names [] (d.directories)
        (write_dir dirname (set_symlinks (sort_by (λ s. s.name) ss)) t))

  unfoldable pub build_files :
      Builder
      → Bytes
      → Directory
      → Option (List FileNode × List Node)
      → MerkleTree
      → Built Bytes × MerkleTree
  build_files sub dirname d none t = (broken duplicate, t)
  build_files sub dirname d (some (fs, names)) t =
      build_links sub dirname d (pick_symlinks names (d.symlinks))
        (write_dir dirname (set_files (sort_by (λ f. f.name) fs)) t)

  -- `buildTree`, of the directory that the name is bound to.
  unfoldable pub build_tree : ℕ → Bytes → MerkleTree → Built Bytes × MerkleTree
  build_tree zero dirname t = (broken out_of_fuel, t)
  build_tree (suc fuel) dirname t = elim (find dirname (t.entries)) [
    | some (some d) ↦ build_files (build_tree fuel) dirname d (pick_files [] (d.files)) t
    | some none ↦ (broken not_found, t)
    | none ↦ (broken not_found, t)
  ]

  -- `Build`
  unfoldable pub build : MerkleTree → Built Bytes × MerkleTree
  build t = build_tree (longest (t.entries) + 1) [] t
