-- ===== src/Merkle/Subdirs.antt =====
-- The loop of `buildTree` in reapi/merkletree/merkletree.go over the subdirectories.
use siso.Common.{
  ◌≡◌, refl, true, List, [], ◌∷◌, ◌++◌, Option, none, some, Bytes, All-append, Bool-cases,
  Option-cases, inl, inr,
}
use siso.Merkle.Tree.{DirectoryNode, Directory, Entries, MerkleTree, find, path_join}
use siso.Merkle.Entries.{is_some}
use siso.Merkle.Build.{
  Node, subdir, lookup_node, node_eq, duplicate, Built, built, broken, Builder, with_digest,
  digest_node, is_symlink, DirsRest, place, build_dir, build_dirs,
}
use siso.Merkle.Linked.{IsDir, IsNode, IsLinked}
use siso.Merkle.Sound.{
  IsFrame, IsFrame-refl, IsFrame-trans, nodes-frame, IsFine, IsSound, IsSound-trans, IsExpected,
  Named, Listed, Anything, broken-IsSound, IsNode-named, cons_built-IsSound,
}

-- Building a subdirectory of `k` is sound, in a tree with the names of the map `start`.
abbrev pub BuildsBelow : Entries → Builder → Bytes → Type 0
BuildsBelow start sub k =
    (n : DirectoryNode) (t : MerkleTree)
    → IsFrame start (t.entries)
    → IsLinked (t.entries)
    → IsNode (t.entries) k n
    → IsDir (path_join k (n.name)) (t.entries)
    → IsSound Anything (t.entries) (sub (path_join k (n.name)) t)

with_digest-IsSound :
    (n : DirectoryNode) (es : Entries) (r : Built Bytes × MerkleTree)
    → IsSound Anything es r
    → IsSound (Named (n.name)) es (with_digest n r)
unfolding IsSound IsFine
with_digest-IsSound n es (built digest, t) h = (h.0, h.1, refl)
with_digest-IsSound n es (broken e, t) h = h

digest_node-IsSound :
    (start : Entries) (sub : Builder) (k : Bytes) (o : Option Directory) (n : DirectoryNode)
    (t : MerkleTree)
    → BuildsBelow start sub k
    → IsFrame start (t.entries)
    → IsLinked (t.entries)
    → IsNode (t.entries) k n
    → find (path_join k (n.name)) (t.entries) ≡ some o
    → IsSound (Named (n.name)) (t.entries) (digest_node sub k o n t)
unfolding digest_node IsSound IsFine
digest_node-IsSound start sub k none n t b w l h e = (l, IsFrame-refl (t.entries), refl)
digest_node-IsSound start sub k (some d) n t b w l h e = elim (Option-cases (n.digest)) [
  | inl q ↦ rw q (with_digest-IsSound n (t.entries) _ (b n t w l h (d, e)))
  | inr (x, q) ↦ rw q (l, IsFrame-refl (t.entries), refl)
]

duplicate-IsExpected : IsExpected duplicate
unfolding IsExpected
duplicate-IsExpected = tt

absent : (o : Option (Option Directory)) → o ≡ none → is_some o ≡ true → ⊥
absent none e h = cc
absent (some x) e h = cc

-- The rest of the loop, where `ns` are the nodes to come.
abbrev pub RestIsSound : Entries → Bytes → List DirectoryNode → DirsRest → Type 0
RestIsSound start k ns rest =
    (names : List Node) (seen : List DirectoryNode) (t : MerkleTree)
    → IsFrame start (t.entries)
    → IsLinked (t.entries)
    → Listed k (t.entries) seen
    → Listed k (t.entries) ns
    → IsSound (Listed k) (t.entries) (rest names seen t)

module _ (start : Entries) (k : Bytes) (names : List Node) (seen : List DirectoryNode)
    (n : DirectoryNode) (ns : List DirectoryNode) (rest : DirsRest)
    (r : RestIsSound start k ns rest) where
  Listed-all :
      (es : Entries) (m : DirectoryNode)
      → Listed k es seen
      → IsNode es k m
      → Listed k es ns
      → Listed k es (seen ++ (m ∷ ns))
  Listed-all es m s h l = All-append (IsNode es k) seen (m ∷ ns) s (h, l)

  Listed-snoc :
      (es : Entries) (m : DirectoryNode)
      → Listed k es seen
      → IsNode es k m
      → Listed k es (seen ++ (m ∷ []))
  Listed-snoc es m s h = All-append (IsNode es k) seen (m ∷ []) s (h, tt)

  place-IsSound :
      (es : Entries) (d : Built DirectoryNode × MerkleTree)
      → IsFrame start es
      → Listed k es seen
      → IsNode es k n
      → Listed k es ns
      → IsSound (Named (n.name)) es d
      → IsSound (Listed k) es (place k names seen n ns rest d)
  unfolding place IsSound IsFine
  place-IsSound es (broken e, t) w s h l (g, f, x) =
      broken-IsSound k e (seen ++ (n ∷ ns)) es t x g f
        (nodes-frame es (t.entries) k (seen ++ (n ∷ ns)) f (Listed-all es n s h l))
  place-IsSound es (built m, t) w s h l (g, f, x) =
      let s' = nodes-frame es (t.entries) k seen f s in
      let l' = nodes-frame es (t.entries) k ns f l in
      let h' = (nodes-frame es (t.entries) k (m ∷ []) f (IsNode-named es k n m x h, tt)).0 in
      let go : (names' : List Node)
          → IsSound (Listed k) (t.entries) (rest names' (seen ++ (m ∷ [])) t) =
        λ names'.
          r names' (seen ++ (m ∷ [])) t (IsFrame-trans start es (t.entries) w f) g
            (Listed-snoc (t.entries) m s' h') l' in
      elim (Option-cases (lookup_node (n.name) names)) [
        | inl q ↦
            rw (place, q)
              (cons_built-IsSound k es m _ (IsNode-named es k n m x h) (
                IsSound-trans (Listed k) es (t.entries)
                  (rest (subdir m ∷ names) (seen ++ (m ∷ [])) t) f (go (subdir m ∷ names))))
        | inr (p, q) ↦
            rw (place, q)
              (elim (Bool-cases (node_eq (subdir m) p)) [
                | inl c ↦ rw c (
                    IsSound-trans (Listed k) es (t.entries) (rest names (seen ++ (m ∷ [])) t) f
                      (go names))
                | inr c ↦ rw c (
                    broken-IsSound k duplicate (seen ++ (m ∷ ns)) es t duplicate-IsExpected g f
                      (Listed-all (t.entries) m s' h' l'))
              ])
      ]

  build_dir-IsSound :
      (sub : Builder) (t : MerkleTree) (o : Option (Option Directory))
      → BuildsBelow start sub k
      → IsFrame start (t.entries)
      → IsLinked (t.entries)
      → Listed k (t.entries) seen
      → IsNode (t.entries) k n
      → Listed k (t.entries) ns
      → find (path_join k (n.name)) (t.entries) ≡ o
      → IsSound (Listed k) (t.entries) (build_dir sub k names seen n ns t rest o)
  unfolding build_dir IsNode
  build_dir-IsSound sub t none b w g s h l e = absurd (absent _ e h.2)
  build_dir-IsSound sub t (some o) b w g s h l e =
      elim (Bool-cases (is_symlink (lookup_node (n.name) names))) [
        | inl q ↦
            rw (build_dir, q) (r names (seen ++ (n ∷ [])) t w g (Listed-snoc (t.entries) n s h) l)
        | inr q ↦
            rw (build_dir, q)
              (place-IsSound (t.entries) _ w s h l
                (digest_node-IsSound start sub k o n t b w g h e))
      ]

pub build_dirs-IsSound :
    (start : Entries) (sub : Builder) (k : Bytes)
    → BuildsBelow start sub k
    → (ns : List DirectoryNode)
    → RestIsSound start k ns (λ names seen t. build_dirs sub k names seen ns t)
unfolding build_dirs IsSound IsFine
build_dirs-IsSound start sub k b [] names seen t w g s l = (g, IsFrame-refl (t.entries), tt)
build_dirs-IsSound start sub k b (n ∷ ns) names seen t w g s l =
    build_dir-IsSound start k names seen n ns _ (build_dirs-IsSound start sub k b ns) sub t _ b w g
      s l.0 l.1 refl
