-- ===== src/Merkle/Entries.antt =====
-- `Set`, `setDir`, `SetTree` and `setTree` of reapi/merkletree/merkletree.go.
use siso.Common.{
  Bool, true, false, not, ◌&&◌, ◌||◌, List, [], ◌∷◌, ◌++◌, Option, none, some, Bytes, codes,
  bytes_eq, ◌==◌, if◌then◌else◌,
}
use siso.Merkle.Tree.{
  Entries, MerkleTree, empty_directory, find, modify, path_join, key_of, put_all, add_file,
  add_symlink, add_directory,
}

-- `content` is the digest of the data, which a directory and a symlink do not have.
pub record Entry : Type 0 where
  pub name : Bytes
  pub content : Option Bytes
  pub is_executable : Bool
  pub target : Bytes

pub record TreeEntry : Type 0 where
  pub name : Bytes
  pub digest : Bytes
  pub store : Option (List Bytes)

pub data SetError : Type 0 where
  abs_path ambiguous bad_path bad_tree precomputed : SetError

-- The tree as it is at the return, and the error if any.
pub data SetResult : Type 0 where
  added : MerkleTree → SetResult
  refused : SetError → MerkleTree → SetResult

-- `splitElem`: the first element and the others.
unfoldable pub split_elem : Bytes → Bytes × List Bytes
split_elem [] = ([], [])
split_elem (c ∷ s) =
    let rest = split_elem s in if c == b'/' then ([], rest.0 ∷ rest.1) else (c ∷ rest.0, rest.1)

-- An absolute name, on a system whose separator is the slash.
unfoldable pub is_absolute : Bytes → Bool
is_absolute [] = false
is_absolute (c ∷ s) = (c == b'/') || (c == b'\\')

-- What an element that is not the last one does.
pub data Element : Type 0 where
  stay up down : Element

abbrev pub element : Bytes → Element
element name =
    if bytes_eq name [] || bytes_eq name (codes ".")
    then stay
    else if bytes_eq name (codes "..")
    then up
    else down

-- `setDir`: the name of the directory, or `none` for a precomputed one.
unfoldable pub set_dir : Bytes → Bytes → MerkleTree → Option Bytes × MerkleTree
set_dir cur name t =
    let dirname = path_join cur name in
    elim (find dirname (t.entries)) [
      | some (some d) ↦ (some dirname, t)
      | some none ↦ (none, t)
      | none ↦ (
        some dirname,
        record t {
          entries =
              modify (key_of cur) (add_directory (record { name = name; digest = none }))
                (t.entries)
              ++ ((dirname, some empty_directory) ∷ []);
        },
      )
    ]

-- The loop over the elements, with the directories that `..` goes back to. The last element is up to `leaf`.
unfoldable pub walk :
    (Bytes → Bytes → List Bytes → MerkleTree → SetResult)
    → Bytes
    → List Bytes
    → Bytes
    → List Bytes
    → MerkleTree
    → SetResult
walk leaf name [] cur stack t = leaf name cur stack t
walk leaf name (next ∷ rest) cur stack t = elim (element name) [
  | stay ↦ walk leaf next rest cur stack t
  | up ↦ elim stack [ [] ↦ refused bad_path t | top ∷ below ↦ walk leaf next rest top below t ]
  | down ↦ elim ((set_dir cur name t).0) [
    | none ↦ refused precomputed ((set_dir cur name t).1)
    | some dirname ↦ walk leaf next rest dirname (cur ∷ stack) ((set_dir cur name t).1)
  ]
]

abbrev pub is_dot : Bytes → Bool
is_dot name = bytes_eq name (codes ".")

abbrev pub is_dots : Bytes → Bool
is_dots name = bytes_eq name (codes "..")

-- The last element of a directory.
unfoldable pub directory_leaf : Bytes → Bytes → MerkleTree → SetResult
directory_leaf name cur t = elim ((set_dir cur name t).0) [
  | none ↦ refused precomputed ((set_dir cur name t).1)
  | some dirname ↦ added ((set_dir cur name t).1)
]

-- The last element of a symlink (whose target is not empty) or of a directory.
unfoldable pub plain_leaf : Bytes → Bytes → Bytes → List Bytes → MerkleTree → SetResult
plain_leaf target name cur stack t =
    if bytes_eq name []
    then refused bad_path t
    else if is_dot name
    then added t
    else if is_dots name
    then elim stack [ [] ↦ refused bad_path t | top ∷ below ↦ added t ]
    else if bytes_eq target []
    then directory_leaf name cur t
    else added (record t {
      entries =
          modify (key_of cur) (add_symlink (record { name = name; target = target })) (t.entries);
    })

-- The last element of a file.
unfoldable pub file_leaf : Bytes → Bool → Bytes → Bytes → List Bytes → MerkleTree → SetResult
file_leaf digest is_executable name cur stack t =
    if is_dot name || is_dots name
    then refused bad_path t
    else added (
        put_all (digest ∷ []) (record t {
          entries =
              modify (key_of cur)
                (add_file (record { name = name; digest = digest; is_executable = is_executable }))
                (t.entries);
        }))

unfoldable pub entry_leaf : Entry → Bytes → Bytes → List Bytes → MerkleTree → SetResult
entry_leaf e name cur stack t = elim (e.content) [
  | none ↦ plain_leaf (e.target) name cur stack t
  | some digest ↦ file_leaf digest (e.is_executable) name cur stack t
]

abbrev pub is_some {ℓ} : {A : Type ℓ} → Option A → Bool
is_some none = false
is_some (some a) = true

-- `Set`
unfoldable pub set_entry : Entry → MerkleTree → SetResult
set_entry e t =
    let elems = split_elem (e.name) in
    if not (bytes_eq (e.target) []) && is_some (e.content)
    then refused ambiguous t
    else if is_absolute (e.name)
    then refused abs_path t
    else if not (is_some (e.content)) && is_some (find (e.name) (t.entries))
    then added t
    else walk (entry_leaf e) (elems.0) (elems.1) (codes ".") [] t

-- The entries of `setTree`.
unfoldable pub list_tree : Bytes → Bytes → Bytes → Entries → Entries
list_tree digest name cur es =
    let dirname = path_join cur name in
    let es' =
      modify (key_of cur) (add_directory (record { name = name; digest = some digest })) es in
    if is_some (find dirname es') then es' else es' ++ ((dirname, none) ∷ [])

-- `setTree`; what is in the subtree's store is put into the tree's.
unfoldable pub add_tree : TreeEntry → Bytes → Bytes → MerkleTree → MerkleTree
add_tree e name cur t =
    let t' = record t { entries = list_tree (e.digest) name cur (t.entries) } in
    elim (e.store) [ none ↦ t' | some ds ↦ put_all ds t' ]

unfoldable pub tree_leaf : TreeEntry → Bytes → Bytes → List Bytes → MerkleTree → SetResult
tree_leaf e name cur stack t =
    if bytes_eq name [] || is_dot name || is_dots name
    then refused bad_path t
    else added (add_tree e name cur t)

-- `SetTree`
unfoldable pub set_tree : TreeEntry → MerkleTree → SetResult
set_tree e t =
    let elems = split_elem (e.name) in
    if bytes_eq (e.digest) []
    then refused bad_tree t
    else if is_absolute (e.name)
    then refused abs_path t
    else if is_some (find (e.name) (t.entries))
    then refused precomputed t
    else walk (tree_leaf e) (elems.0) (elems.1) (codes ".") [] t
