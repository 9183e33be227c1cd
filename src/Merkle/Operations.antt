-- ===== src/Merkle/Operations.antt =====
-- A tree that is filled and then built (reapi/merkletree/merkletree.go).
use siso.Common.{List, [], ◌∷◌, Option, Bytes, bytes_eq, refl}
use siso.Merkle.Tree.{Directory, MerkleTree, new_tree, empty_directory, find}
use siso.Merkle.Entries.{Entry, TreeEntry, SetResult, added, refused, set_entry, set_tree}
use siso.Merkle.Linked.{IsEntry, IsLinked}
use siso.Merkle.Setting.{IsGood, set_entry-IsGood, set_tree-IsGood}
use siso.Merkle.Build.{build}
use siso.Merkle.Sound.{IsSound, Anything}
use siso.Merkle.Builds.{build-IsSound}

-- A call of `Set` or of `SetTree`.
pub data Operation : Type 0 where
  set : Entry → Operation
  set_subtree : TreeEntry → Operation

-- The tree as it is at the return.
abbrev pub tree_of : SetResult → MerkleTree
tree_of (added t) = t
tree_of (refused e t) = t

abbrev pub apply : Operation → MerkleTree → SetResult
apply (set e) t = set_entry e t
apply (set_subtree e) t = set_tree e t

-- The calls one after the other, whether or not they report errors.
unfoldable pub apply_all : List Operation → MerkleTree → MerkleTree
apply_all [] t = t
apply_all (op ∷ ops) t = apply_all ops (tree_of (apply op t))

tree_of-IsLinked : (r : SetResult) → IsGood r → IsLinked ((tree_of r).entries)
unfolding IsGood
tree_of-IsLinked (added t) h = h
tree_of-IsLinked (refused e t) h = h

apply-IsGood : (op : Operation) (t : MerkleTree) → IsLinked (t.entries) → IsGood (apply op t)
apply-IsGood (set e) t h = set_entry-IsGood e t h
apply-IsGood (set_subtree e) t h = set_tree-IsGood e t h

apply_all-IsLinked :
    (ops : List Operation) (t : MerkleTree)
    → IsLinked (t.entries)
    → IsLinked ((apply_all ops t).entries)
unfolding apply_all
apply_all-IsLinked [] t h = h
apply_all-IsLinked (op ∷ ops) t h =
    apply_all-IsLinked ops (tree_of (apply op t))
      (tree_of-IsLinked (apply op t) (apply-IsGood op t h))

new_tree-IsLinked : (store : Option (List Bytes)) → IsLinked ((new_tree store).entries)
unfolding IsLinked IsEntry find bytes_eq
new_tree-IsLinked store = ((tt, tt), (empty_directory, refl))

-- After any calls of `Set` and `SetTree` on a new tree, whether or not they report errors, `Build` ends with a
-- digest, or with the error that two nodes of one name differ or that the digest of a directory cannot be
-- computed: it never misses a directory, and the fuel is enough. Every directory that is listed is in the map
-- then, and the root is a directory.
pub build-apply_all :
    (digest_of : Directory → Option Bytes) (store : Option (List Bytes)) (ops : List Operation)
    → IsSound Anything
        ((apply_all ops (new_tree store)).entries)
        (build digest_of (apply_all ops (new_tree store)))
build-apply_all digest_of store ops =
    build-IsSound digest_of (apply_all ops (new_tree store))
      (apply_all-IsLinked ops (new_tree store) (new_tree-IsLinked store))
