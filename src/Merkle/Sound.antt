-- ===== src/Merkle/Sound.antt =====
-- What building a tree (reapi/merkletree/merkletree.go) keeps, and which errors it does not report.
use siso.Common.{◌≡◌, refl, ◌∙◌, List, [], ◌∷◌, Bytes, All}
use siso.Merkle.Tree.{DirectoryNode, Directory, Entries, MerkleTree, find, modify}
use siso.Merkle.Entries.{is_some}
use siso.Merkle.Build.{
  BuildError, duplicate, not_found, no_digest, out_of_fuel, Built, built, broken, set_directories,
  write_dir, cons_built, Dirs,
}
use siso.Merkle.Linked.{
  IsDir, IsNode, IsLinked, All-weaken, IsNode-weaken, entries-weaken, is_some-find-modify,
  Has-modify, IsDir-modify, entries-modify,
}

-- The same names are in the maps, and a directory stays one.
unfoldable pub IsFrame : Entries → Entries → Type 0
IsFrame es es' =
    ((k : Bytes) → is_some (find k es') ≡ is_some (find k es))
    × ((k : Bytes) → IsDir k es → IsDir k es')

pub IsFrame-refl : (es : Entries) → IsFrame es es
unfolding IsFrame
IsFrame-refl es = (λ k. refl, λ k d. d)

pub IsFrame-trans : (a b c : Entries) → IsFrame a b → IsFrame b c → IsFrame a c
unfolding IsFrame
IsFrame-trans a b c (h, k) (h', k') = (λ j. h' j ∙ h j, λ j d. k' j (k j d))

pub IsFrame-modify :
    (k : Bytes) (f : Directory → Directory) (es : Entries) → IsFrame es (modify k f es)
unfolding IsFrame
IsFrame-modify k f es = (λ j. is_some-find-modify k f j es, λ j. IsDir-modify k f j es)

pub nodes-frame :
    (es es' : Entries) (k : Bytes) (ns : List DirectoryNode)
    → IsFrame es es'
    → All (IsNode es k) ns
    → All (IsNode es' k) ns
unfolding IsFrame
nodes-frame es es' k ns (h, d) =
    All-weaken (IsNode es k) (IsNode es' k) ns (λ n. IsNode-weaken es es' k n (λ j g. h j ∙ g))

-- A write of a list of subdirectories that are in the map.
pub IsLinked-directories :
    (es : Entries) (k : Bytes) (ns : List DirectoryNode)
    → IsLinked es
    → All (IsNode es k) ns
    → IsLinked (modify k (set_directories ns) es)
unfolding IsLinked
IsLinked-directories es k ns (l, r) h =
    let f = set_directories ns in
    let es' = modify k f es in
    let h' = nodes-frame es es' k ns (IsFrame-modify k f es) h in
    (
      entries-modify k f es' es (λ d g. h') (entries-weaken es es' es (λ j. Has-modify k f j es) l),
      IsDir-modify k f [] es r,
    )

-- An error that a tree with the invariant may have.
unfoldable pub IsExpected : BuildError → Type 0
IsExpected duplicate = Unit
IsExpected no_digest = Unit
IsExpected not_found = ⊥
IsExpected out_of_fuel = ⊥

module _ {ℓ} {A : Type ℓ} (P : Entries → A → Type 0) where
  unfoldable pub IsFine : Entries → Built A → Type 0
  IsFine es (built a) = P es a
  IsFine es (broken e) = IsExpected e

  -- A result from the tree `es`.
  unfoldable pub IsSound : Entries → Built A × MerkleTree → Type 0
  IsSound es r = IsLinked (r.1.entries) × IsFrame es (r.1.entries) × IsFine (r.1.entries) (r.0)

  pub IsSound-trans :
      (es es' : Entries) (r : Built A × MerkleTree) → IsFrame es es' → IsSound es' r → IsSound es r
  unfolding IsSound
  IsSound-trans es es' r f (l, g, h) = (l, IsFrame-trans es es' (r.1.entries) f g, h)

-- A directory node has the name.
abbrev pub Named : Bytes → Entries → DirectoryNode → Type 0
Named name es m = m.name ≡ name

-- The nodes are subdirectories of the directory `k`.
abbrev pub Listed : Bytes → Entries → List DirectoryNode → Type 0
Listed k es ns = All (IsNode es k) ns

abbrev pub Anything : Entries → Bytes → Type 0
Anything es digest = Unit

pub broken-IsSound :
    (k : Bytes) (e : BuildError) (ns : List DirectoryNode) (es : Entries) (t : MerkleTree)
    → IsExpected e
    → IsLinked (t.entries)
    → IsFrame es (t.entries)
    → Listed k (t.entries) ns
    → IsSound (Listed k) es (broken e, write_dir k (set_directories ns) t)
unfolding IsSound IsFine
broken-IsSound k e ns es t x l f h = (
  IsLinked-directories (t.entries) k ns l h,
  IsFrame-trans es (t.entries) _ f (IsFrame-modify k (set_directories ns) (t.entries)),
  x,
)

pub IsNode-named :
    (es : Entries) (k : Bytes) (n m : DirectoryNode)
    → m.name ≡ n.name
    → IsNode es k n
    → IsNode es k m
unfolding IsNode
IsNode-named es k n m e h = rw e h

pub cons_built-IsSound :
    (k : Bytes) (es : Entries) (m : DirectoryNode) (r : Dirs)
    → IsNode es k m
    → IsSound (Listed k) es r
    → IsSound (Listed k) es (cons_built m r)
unfolding IsSound IsFine
cons_built-IsSound k es m (built ns, t) h (l, f, g) =
    (l, f, ((nodes-frame es (t.entries) k (m ∷ []) f (h, tt)).0, g))
cons_built-IsSound k es m (broken e, t) h (l, f, g) = (l, f, g)
