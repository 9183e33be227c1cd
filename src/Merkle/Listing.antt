-- ===== src/Merkle/Listing.antt =====
-- Subdirectories that are listed in a directory and put into the map (reapi/merkletree/merkletree.go).
use siso.Common.{
  ◌≡◌, ◌≢◌, refl, List, [], ◌∷◌, ◌++◌, Option, some, Bytes, codes, bytes_eq, bytes_eq_iff,
  bytes_eq_refl, All, All-append, Bool-cases, Option-cases, inl, inr,
}
use siso.Merkle.Tree.{
  DirectoryNode, Directory, Entries, MerkleTree, find, modify, path_join, key_of, put_all,
  add_directory,
}
use siso.Merkle.Linked.{
  Has, IsDir, IsNode, IsEntry, IsLinked, AllEntries, has_rest, here, there, entries-weaken,
  Has-modify, IsDir-modify, entries-modify,
}

Has-append : (j : Bytes) (es xs : Entries) → Has j es → Has j (es ++ xs)
unfolding find
Has-append j [] xs h = absurd cc
Has-append j ((key, d) ∷ es) xs h = elim (Bool-cases (bytes_eq key j)) [
  | inl e ↦ rw e refl
  | inr e ↦ rw e (Has-append j es xs (has_rest (bytes_eq key j) d (find j es) e h))
]

Has-new : (j : Bytes) (x : Option Directory) (es : Entries) → Has j (es ++ ((j, x) ∷ []))
unfolding find
Has-new j x [] = rw (bytes_eq_refl j) refl
Has-new j x ((key, d) ∷ es) = elim (Bool-cases (bytes_eq key j)) [
  | inl e ↦ rw e refl
  | inr e ↦ rw e (Has-new j x es)
]

pub IsDir-append : (j : Bytes) (es xs : Entries) → IsDir j es → IsDir j (es ++ xs)
unfolding find
IsDir-append j [] xs (d, h) = absurd cc
IsDir-append j ((key, x) ∷ es) xs (d, h) = elim (Bool-cases (bytes_eq key j)) [
  | inl e ↦ rw e (d, here (bytes_eq key j) (some x) (find j es) d e h)
  | inr e ↦ rw e (IsDir-append j es xs (d, there (bytes_eq key j) (some x) (find j es) d e h))
]

-- The name that a directory has in the map, and the names of what is in it.
root_join : (name : Bytes) → path_join (key_of (codes ".")) name ≡ path_join (codes ".") name
unfolding bytes_eq
root_join name = refl

path_join-key_of : (cur name : Bytes) → path_join (key_of cur) name ≡ path_join cur name
path_join-key_of cur name = elim (Bool-cases (bytes_eq cur (codes "."))) [
  | inl e ↦ let q : cur ≡ codes "." = (bytes_eq_iff cur (codes ".")).0 e in rw q (root_join name)
  | inr e ↦ let q : key_of cur ≡ cur = rw e refl in rw q refl
]

-- A name of an element.
abbrev pub IsName : Bytes → Type 0
IsName name = (name ≢ []) × (name ≢ codes ".")

IsNode-key_of :
    (es : Entries) (cur : Bytes) (n : DirectoryNode)
    → IsName (n.name)
    → Has (path_join cur (n.name)) es
    → IsNode es (key_of cur) n
unfolding IsNode
IsNode-key_of es cur n (a, b) h = (a, b, rw (path_join-key_of cur (n.name)) h)

nodes-add :
    (es : Entries) (k : Bytes) (n : DirectoryNode)
    → IsNode es k n
    → (d : Directory) → All (IsNode es k) (d.directories)
    → All (IsNode es k) ((add_directory n d).directories)
nodes-add es k n h d g = All-append (IsNode es k) (d.directories) (n ∷ []) g (h, tt)

-- A subdirectory is listed that is in the map.
pub IsLinked-listed :
    (es : Entries) (cur : Bytes) (n : DirectoryNode)
    → IsName (n.name)
    → Has (path_join cur (n.name)) es
    → IsLinked es
    → IsLinked (modify (key_of cur) (add_directory n) es)
unfolding IsLinked
IsLinked-listed es cur n a h (l, r) =
    let k = key_of cur in
    let f = add_directory n in
    let es' = modify k f es in
    let big : AllEntries es' es = entries-weaken es es' es (λ j. Has-modify k f j es) l in
    let node = IsNode-key_of es' cur n a (Has-modify k f (path_join cur (n.name)) es h) in
    (entries-modify k f es' es (nodes-add es' k n node) big, IsDir-modify k f [] es r)

-- A subdirectory is listed and put into the map.
pub IsLinked-new :
    (es : Entries) (cur : Bytes) (n : DirectoryNode) (x : Option Directory)
    → IsName (n.name)
    → ((big : Entries) → IsEntry big (path_join cur (n.name), x))
    → IsLinked es
    → IsLinked (modify (key_of cur) (add_directory n) es ++ ((path_join cur (n.name), x) ∷ []))
unfolding IsLinked
IsLinked-new es cur n x a g (l, r) =
    let k = key_of cur in
    let f = add_directory n in
    let new = (path_join cur (n.name), x) ∷ [] in
    let es' = modify k f es ++ new in
    let big : AllEntries es' es =
      entries-weaken es es' es (λ j h. Has-append j (modify k f es) new (Has-modify k f j es h))
        l in
    let node = IsNode-key_of es' cur n a (Has-new (path_join cur (n.name)) x (modify k f es)) in
    (
      All-append (IsEntry es') (modify k f es) new
          (entries-modify k f es' es (nodes-add es' k n node) big) (g es', tt),
      IsDir-append [] (modify k f es) new (IsDir-modify k f [] es r),
    )

-- A write that leaves the subdirectories as they are.
pub IsLinked-same :
    (es : Entries) (k : Bytes) (f : Directory → Directory)
    → ((d : Directory) → (f d).directories ≡ d.directories)
    → IsLinked es
    → IsLinked (modify k f es)
unfolding IsLinked
IsLinked-same es k f g (l, r) =
    let es' = modify k f es in
    (
      entries-modify k f es' es (λ d h. rw (g d) h)
          (entries-weaken es es' es (λ j. Has-modify k f j es) l),
      IsDir-modify k f [] es r,
    )

pub put_all-entries : (ds : List Bytes) (t : MerkleTree) → (put_all ds t).entries ≡ t.entries
unfolding put_all
put_all-entries ds t = elim (Option-cases (t.store)) [
  | inl e ↦ rw (put_all, e) refl
  | inr (s, e) ↦ rw (put_all, e) refl
]
