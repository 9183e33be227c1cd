-- ===== src/Merkle/Builds.antt =====
-- `Build` of reapi/merkletree/merkletree.go ends, and finds every directory.
use siso.Common.{
  ℕ, zero, suc, ◌+◌, ◌≤◌, ◌<◌, ◌≢◌, refl, sym, ◌∙◌, List, [], Option, none, some, Bytes, codes,
  length, All, arith,
}
use siso.Merkle.Tree.{
  FileNode, SymlinkNode, DirectoryNode, Directory, Entries, MerkleTree, path_join,
}
use siso.Merkle.Build.{
  Node, duplicate, broken, set_files, set_symlinks, write_dir, Builder, build_dirs, sort_by,
  pick_files, pick_symlinks, build_links, build_files, build_tree, longest, build,
}
use siso.Merkle.Linked.{Has, IsDir, IsNode, IsEntry, IsLinked}
use siso.Merkle.Listing.{IsLinked-same}
use siso.Merkle.Sound.{
  IsFrame, IsFrame-refl, nodes-frame, IsFine, IsSound, IsSound-trans, IsExpected, Listed, Anything,
}
use siso.Merkle.Subdirs.{BuildsBelow, build_dirs-IsSound}
use siso.Merkle.Building.{
  join-longer, join_ne_dot, longest-lt, found-Listed, close_dir-IsSound, written-IsFrame,
}

module _ (digest_of : Directory → Option Bytes) (start : Entries) (sub : Builder) (k : Bytes)
    (d : Directory) (below : BuildsBelow start sub k) (dir : IsDir k start)
    (listed : Listed k start (d.directories)) where
  duplicate-IsSound :
      (t : MerkleTree)
      → IsLinked (t.entries)
      → IsFrame start (t.entries)
      → IsSound Anything start (broken duplicate, t)
  unfolding IsSound IsFine IsExpected
  duplicate-IsSound t l f = (l, f, tt)

  build_links-IsSound :
      (o : Option (List SymlinkNode × List Node)) (t : MerkleTree)
      → IsLinked (t.entries)
      → IsFrame start (t.entries)
      → IsSound Anything start (build_links digest_of sub k d o t)
  unfolding build_links
  build_links-IsSound none t l f = duplicate-IsSound t l f
  build_links-IsSound (some (ss, names)) t l f =
      let g = set_symlinks (sort_by (λ s. s.name) ss) in
      let t' = write_dir k g t in
      let f' = written-IsFrame digest_of k start g t f in
      let l' = IsLinked-same (t.entries) k g (λ x. refl) l in
      close_dir-IsSound digest_of k start _ dir (
        IsSound-trans (Listed k) start (t'.entries) (build_dirs sub k names [] (d.directories) t')
          f'
          (build_dirs-IsSound start sub k below (d.directories) names [] t' f' l' tt
            (nodes-frame start (t'.entries) k (d.directories) f' listed)))

  build_files-IsSound :
      (o : Option (List FileNode × List Node)) (t : MerkleTree)
      → IsLinked (t.entries)
      → IsFrame start (t.entries)
      → IsSound Anything start (build_files digest_of sub k d o t)
  unfolding build_files
  build_files-IsSound none t l f = duplicate-IsSound t l f
  build_files-IsSound (some (fs, names)) t l f =
      let g = set_files (sort_by (λ x. x.name) fs) in
      build_links-IsSound (pick_symlinks names (d.symlinks)) (write_dir k g t)
        (IsLinked-same (t.entries) k g (λ x. refl) l) (written-IsFrame digest_of k start g t f)

-- No name is longer.
abbrev pub Fits : ℕ → Entries → Type 0
Fits m es = (j : Bytes) → Has j es → length j ≤ m

IsDir-Has : (k : Bytes) (es : Entries) → IsDir k es → Has k es
IsDir-Has k es (d, e) = rw e refl

-- The names of the subdirectories.
child_ne_dot :
    (k : Bytes) (es : Entries) (x : DirectoryNode)
    → IsNode es k x
    → path_join k (x.name) ≢ codes "."
unfolding IsNode
child_ne_dot k es x (a, b, h) = join_ne_dot k (x.name) a b

child_fuel :
    (m fuel : ℕ) (k : Bytes) (es : Entries) (x : DirectoryNode)
    → k ≢ codes "."
    → IsNode es k x
    → m < length k + suc fuel
    → m < length (path_join k (x.name)) + fuel
unfolding IsNode
child_fuel m fuel k es x n (a, b, h) l = let q = join-longer k (x.name) n a in omega arith

IsLinked-entries : (es : Entries) → IsLinked es → All (IsEntry es) es
unfolding IsLinked
IsLinked-entries es (l, r) = l

build_tree-IsSound :
    (digest_of : Directory → Option Bytes) (m fuel : ℕ) (k : Bytes) (t : MerkleTree)
    → IsLinked (t.entries)
    → IsDir k (t.entries)
    → k ≢ codes "."
    → Fits m (t.entries)
    → m < length k + fuel
    → IsSound Anything (t.entries) (build_tree digest_of fuel k t)
unfolding build_tree IsFrame
build_tree-IsSound digest_of m zero k t l d n f h =
    absurd (let q = f k (IsDir-Has k (t.entries) d) in omega arith)
build_tree-IsSound digest_of m (suc fuel) k t l (d, e) n f h =
    let below : BuildsBelow (t.entries) (build_tree digest_of fuel) k = λ x t' w l' node dir'.
      build_tree-IsSound digest_of m fuel (path_join k (x.name)) t' l' dir'
        (child_ne_dot k (t'.entries) x node) (λ j g. f j (sym (w.0 j) ∙ g))
        (child_fuel m fuel k (t'.entries) x n node h) in
    rw (build_tree, e)
      (build_files-IsSound digest_of (t.entries) (build_tree digest_of fuel) k d below (d, e)
        (found-Listed (t.entries) (t.entries) k d (IsLinked-entries (t.entries) l) e)
        (pick_files [] (d.files)) t l (IsFrame-refl (t.entries)))

-- Building a tree with the invariant.
pub build-IsSound :
    (digest_of : Directory → Option Bytes) (t : MerkleTree)
    → IsLinked (t.entries)
    → IsSound Anything (t.entries) (build digest_of t)
unfolding build IsLinked
build-IsSound digest_of t l =
    build_tree-IsSound digest_of (longest (t.entries)) (longest (t.entries) + 1) [] t l l.1
      (λ e. cc) (λ j g. longest-lt j (t.entries) g) (omega arith)
