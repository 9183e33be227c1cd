-- ===== src/Merkle/Setting.antt =====
-- `Set` and `SetTree` of reapi/merkletree/merkletree.go keep the invariant, with an error and without.
use siso.Common.{
  ◌≡◌, ◌≢◌, ◌⊎◌, refl, sym, ◌∙◌, Bool, true, false, not, ◌&&◌, ◌||◌, List, [], ◌∷◌, Option, none,
  some, Bytes, codes, bytes_eq, bytes_eq_iff, or_false, if◌then◌else◌, Bool-cases, Option-cases,
  inl, inr, arith,
}
use siso.Merkle.Tree.{
  DirectoryNode, Entries, MerkleTree, empty_directory, find, modify, path_join, key_of,
  add_directory,
}
use siso.Merkle.Entries.{
  bad_path, precomputed, Entry, TreeEntry, SetResult, added, refused, element, stay, up, down,
  set_dir, walk, is_dot, is_dots, directory_leaf, plain_leaf, file_leaf, entry_leaf, is_some,
  set_entry, list_tree, add_tree, tree_leaf, set_tree, is_absolute,
}
use siso.Merkle.Linked.{Has, IsEntry, IsLinked, is_some-find-modify}
use siso.Merkle.Listing.{IsName, IsLinked-listed, IsLinked-new, IsLinked-same, put_all-entries}

-- What holds of the tree, with an error and without.
unfoldable pub IsGood : SetResult → Type 0
IsGood (added t) = IsLinked (t.entries)
IsGood (refused e t) = IsLinked (t.entries)

set_dir-IsLinked :
    (cur name : Bytes) (t : MerkleTree)
    → IsName name
    → IsLinked (t.entries)
    → IsLinked ((set_dir cur name t).1.entries)
unfolding set_dir IsEntry
set_dir-IsLinked cur name t a h = elim (Option-cases (find (path_join cur name) (t.entries))) [
  | inl e ↦
      rw (set_dir, e)
        (IsLinked-new (t.entries) cur (record { name = name; digest = none }) (some empty_directory)
          a (λ big. tt) h)
  | inr (none, e) ↦ rw (set_dir, e) h
  | inr (some d, e) ↦ rw (set_dir, e) h
]

IsGood-if : (b : Bool) (x y : SetResult) → IsGood x → IsGood y → IsGood (if b then x else y)
IsGood-if true x y h k = h
IsGood-if false x y h k = k

-- What the leaf has to keep.
abbrev KeepsGood : (Bytes → Bytes → List Bytes → MerkleTree → SetResult) → Type 0
KeepsGood leaf =
    (name cur : Bytes) (stack : List Bytes) (t : MerkleTree)
    → IsLinked (t.entries)
    → IsGood (leaf name cur stack t)

ne-bytes_eq : (a b : Bytes) → bytes_eq a b ≡ false → a ≢ b
ne-bytes_eq a b h e = let k = (bytes_eq_iff a b).1 e in cc

no_dot-IsName : (name : Bytes) → (bytes_eq name [] || is_dot name) ≡ false → IsName name
no_dot-IsName name h =
    let (a, b) = or_false (bytes_eq name []) (is_dot name) h in
    (ne-bytes_eq name [] a, ne-bytes_eq name (codes ".") b)

-- The step into a subdirectory.
IsGood-down :
    (o : Option Bytes) (t : MerkleTree) (go : Bytes → SetResult)
    → IsLinked (t.entries)
    → ((dirname : Bytes) → IsGood (go dirname))
    → IsGood (elim o [ none ↦ refused precomputed t | some dirname ↦ go dirname ])
unfolding IsGood
IsGood-down none t go h g = h
IsGood-down (some dirname) t go h g = g dirname

IsGood-up :
    (stack : List Bytes) (t : MerkleTree) (go : Bytes → List Bytes → SetResult)
    → IsLinked (t.entries)
    → ((top : Bytes) (below : List Bytes) → IsGood (go top below))
    → IsGood (elim stack [ [] ↦ refused bad_path t | top ∷ below ↦ go top below ])
unfolding IsGood
IsGood-up [] t go h g = h
IsGood-up (top ∷ below) t go h g = g top below

pub element-cases :
    (name : Bytes)
    → (element name ≡ stay) ⊎ (element name ≡ up) ⊎ ((element name ≡ down) × IsName name)
element-cases name = elim (Bool-cases (bytes_eq name [] || is_dot name)) [
  | inl e ↦ inl (rw e refl)
  | inr e ↦ elim (Bool-cases (is_dots name)) [
    | inl f ↦ inr (inl (rw (e, f) refl))
    | inr f ↦ inr (inr (rw (e, f) refl, no_dot-IsName name e))
  ]
]

walk-IsGood :
    (leaf : Bytes → Bytes → List Bytes → MerkleTree → SetResult)
    → KeepsGood leaf
    → (name : Bytes) (rest : List Bytes) (cur : Bytes) (stack : List Bytes) (t : MerkleTree)
    → IsLinked (t.entries)
    → IsGood (walk leaf name rest cur stack t)
unfolding walk
walk-IsGood leaf k name [] cur stack t h = k name cur stack t h
walk-IsGood leaf k name (next ∷ rest) cur stack t h = elim (element-cases name) [
  | inl e ↦ rw (walk, e) (walk-IsGood leaf k next rest cur stack t h)
  | inr (inl e) ↦
      rw (walk, e) (IsGood-up stack t _ h (λ top below. walk-IsGood leaf k next rest top below t h))
  | inr (inr (e, a)) ↦
      let h' = set_dir-IsLinked cur name t a h in
      rw (walk, e)
        (IsGood-down ((set_dir cur name t).0) ((set_dir cur name t).1) _ h' (λ dirname.
          walk-IsGood leaf k next rest dirname (cur ∷ stack) ((set_dir cur name t).1) h'))
]

directory_leaf-IsGood :
    (name cur : Bytes) (t : MerkleTree)
    → IsName name
    → IsLinked (t.entries)
    → IsGood (directory_leaf name cur t)
unfolding directory_leaf IsGood
directory_leaf-IsGood name cur t a h =
    let h' = set_dir-IsLinked cur name t a h in
    IsGood-down ((set_dir cur name t).0) ((set_dir cur name t).1)
      (λ dirname. added ((set_dir cur name t).1)) h' (λ dirname. h')

entry_leaf-KeepsGood : (e : Entry) → KeepsGood (entry_leaf e)
unfolding entry_leaf plain_leaf file_leaf IsGood
entry_leaf-KeepsGood e name cur stack t h = elim (Option-cases (e.content)) [
  | inl q ↦ rw q (elim (Bool-cases (bytes_eq name [])) [
    | inl a ↦ rw a h
    | inr a ↦ rw a (elim (Bool-cases (is_dot name)) [
      | inl b ↦ rw b h
      | inr b ↦ rw b (
          IsGood-if (is_dots name) _ _ (IsGood-up stack t (λ top below. added t) h (λ top below. h))
            (IsGood-if (bytes_eq (e.target) []) _ _
              (directory_leaf-IsGood name cur t
                (ne-bytes_eq name [] a, ne-bytes_eq name (codes ".") b) h)
              (IsLinked-same (t.entries) (key_of cur) _ (λ d. refl) h)))
    ])
  ])
  | inr (digest, q) ↦ rw q (
      IsGood-if (is_dot name || is_dots name) _ _ h
        (rw (put_all-entries _ _) (IsLinked-same (t.entries) (key_of cur) _ (λ d. refl) h)))
]

-- `Set` keeps the invariant of the tree, whatever the entry is and whether or not it reports an error: every
-- subdirectory that a directory lists is in the map, and the root is a directory.
pub set_entry-IsGood : (e : Entry) (t : MerkleTree) → IsLinked (t.entries) → IsGood (set_entry e t)
unfolding set_entry IsGood
set_entry-IsGood e t h = IsGood-if (not (bytes_eq (e.target) []) && is_some (e.content)) _ _ h (
    IsGood-if (is_absolute (e.name)) _ _ h (
      IsGood-if (not (is_some (e.content)) && is_some (find (e.name) (t.entries))) _ _ h
        (walk-IsGood (entry_leaf e) (entry_leaf-KeepsGood e) _ _ (codes ".") [] t h)))

list_tree-IsLinked :
    (digest name cur : Bytes) (es : Entries)
    → IsName name
    → IsLinked es
    → IsLinked (list_tree digest name cur es)
unfolding list_tree IsEntry
list_tree-IsLinked digest name cur es a h =
    let n : DirectoryNode = record { name = name; digest = some digest } in
    let es' = modify (key_of cur) (add_directory n) es in
    elim (Bool-cases (is_some (find (path_join cur name) es'))) [
      | inl q ↦
          let k : Has (path_join cur name) es =
            sym (is_some-find-modify (key_of cur) (add_directory n) (path_join cur name) es) ∙ q in
          rw q (IsLinked-listed es cur n a k h)
      | inr q ↦ rw q (IsLinked-new es cur n none a (λ big. tt) h)
    ]

add_tree-IsLinked :
    (e : TreeEntry) (name cur : Bytes) (t : MerkleTree)
    → IsName name
    → IsLinked (t.entries)
    → IsLinked ((add_tree e name cur t).entries)
unfolding add_tree
add_tree-IsLinked e name cur t a h =
    let h' = list_tree-IsLinked (e.digest) name cur (t.entries) a h in
    elim (Option-cases (e.store)) [
      | inl q ↦ rw (add_tree, q) h'
      | inr (ds, q) ↦ rw (add_tree, q, put_all-entries ds _) h'
    ]

tree_leaf-KeepsGood : (e : TreeEntry) → KeepsGood (tree_leaf e)
unfolding tree_leaf IsGood
tree_leaf-KeepsGood e name cur stack t h =
    elim (Bool-cases (bytes_eq name [] || is_dot name || is_dots name)) [
      | inl q ↦ rw q h
      | inr q ↦ rw q (add_tree-IsLinked e name cur t (no_dot-IsName name (ground arith)) h)
    ]

-- `SetTree` keeps the invariant of the tree, whether or not it reports an error: every subdirectory that a
-- directory lists is in the map, and the root is a directory.
pub set_tree-IsGood :
    (e : TreeEntry) (t : MerkleTree) → IsLinked (t.entries) → IsGood (set_tree e t)
unfolding set_tree IsGood
set_tree-IsGood e t h = IsGood-if (bytes_eq (e.digest) []) _ _ h (
    IsGood-if (is_absolute (e.name)) _ _ h (
      IsGood-if (is_some (find (e.name) (t.entries))) _ _ h
        (walk-IsGood (tree_leaf e) (tree_leaf-KeepsGood e) _ _ (codes ".") [] t h)))
