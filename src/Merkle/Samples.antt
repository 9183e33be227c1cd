-- ===== src/Merkle/Samples.antt =====
-- A small tree.
use siso.Common.{All, arith, List, refl, false, [], ◌∷◌, Option, none, some, Bytes, codes, bytes_eq}
use siso.Merkle.Tree.{Directory, MerkleTree, new_tree, empty_directory, find}
use siso.Merkle.Entries.{Entry, TreeEntry, set_entry, set_tree}
use siso.Merkle.Linked.{IsDir, IsEntry, IsLinked}
use siso.Merkle.Build.{build}
use siso.Merkle.Setting.{IsGood, set_entry-IsGood, set_tree-IsGood}
use siso.Merkle.Sound.{IsSound, Anything}
use siso.Merkle.Operations.{Operation, set, set_subtree, apply_all, build-apply_all}
use siso.Merkle.Leading.{HasNoSlash}
use siso.Merkle.Filed.{IsFiled, set_entry-IsFiled}

abbrev fresh : MerkleTree
fresh = new_tree (some [])

fresh-root : IsDir [] (fresh.entries)
unfolding find bytes_eq
fresh-root = (empty_directory, refl)

fresh-IsLinked : IsLinked (fresh.entries)
unfolding IsLinked IsEntry
fresh-IsLinked = ((tt, tt), fresh-root)

abbrev header : Entry
header = record {
  name = codes "gen/../src/a.h";
  content = some (codes "d1");
  is_executable = false;
  target = [];
}

set_entry-IsGood_example : IsGood (set_entry header fresh)
set_entry-IsGood_example = set_entry-IsGood header fresh fresh-IsLinked

abbrev toolchain : TreeEntry
toolchain = record { name = codes "third_party/llvm"; digest = codes "d2"; store = none }

set_tree-IsGood_example : IsGood (set_tree toolchain fresh)
set_tree-IsGood_example = set_tree-IsGood toolchain fresh fresh-IsLinked

-- A digest that is the same for all directories.
abbrev names_of : Directory → Option Bytes
names_of d = some (codes "dir")

abbrev calls : List Operation
calls = set header ∷ set_subtree toolchain ∷ set header ∷ []

build-apply_all_example :
    IsSound Anything
      ((apply_all calls (new_tree (some []))).entries)
      (build names_of (apply_all calls (new_tree (some []))))
build-apply_all_example = build-apply_all names_of (some []) calls

abbrev elements : List Bytes
elements = codes ".." ∷ codes "src" ∷ codes "a.h" ∷ []

first-HasNoSlash : HasNoSlash (codes "gen")
first-HasNoSlash = (λ e. omega arith, (λ e. omega arith, (λ e. omega arith, tt)))

elements-HasNoSlash : All HasNoSlash elements
elements-HasNoSlash = (
  (λ e. omega arith, (λ e. omega arith, tt)),
  (
    (λ e. omega arith, (λ e. omega arith, (λ e. omega arith, tt))),
    ((λ e. omega arith, (λ e. omega arith, (λ e. omega arith, tt))), tt),
  ),
)

set_entry-IsFiled_example :
    IsFiled [] (codes "d1") false (codes "gen") elements (set_entry header fresh)
set_entry-IsFiled_example =
    set_entry-IsFiled (codes "gen") elements [] (codes "d1") false fresh first-HasNoSlash
      elements-HasNoSlash fresh-root
