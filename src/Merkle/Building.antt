-- ===== src/Merkle/Building.antt =====
-- `Build` of reapi/merkletree/merkletree.go ends, and finds every directory.
use siso.Common.{
  ◌≤◌, ◌<◌, ◌≡◌, ◌≢◌, refl, sym, ap, false, List, [], ◌∷◌, Option, none, some, Bytes, codes,
  bytes_eq, bytes_eq_iff, length, length-append, All, Bool-cases, Option-cases, inl, inr, arith,
}
use siso.Merkle.Tree.{Directory, Entries, MerkleTree, find, modify, path_join, put_all}
use siso.Merkle.Build.{
  built, broken, set_directories, write_dir, Dirs, sort_by, insert_by, bytes_lt, digest_dir,
  close_dir, longest,
}
use siso.Merkle.Linked.{has_rest, here, there, Has, IsDir, IsNode, IsEntry, IsLinked}
use siso.Merkle.Listing.{put_all-entries}
use siso.Merkle.Sound.{
  IsFrame, IsFrame-trans, IsFrame-modify, IsLinked-directories, IsFine, IsSound, IsExpected, Listed,
  Anything,
}

-- The names of subdirectories get longer.
other_name : (a b : Bytes) → a ≢ b → bytes_eq a b ≡ false
other_name a b h = elim (Bool-cases (bytes_eq a b)) [
  | inl e ↦ absurd (h ((bytes_eq_iff a b).0 e))
  | inr e ↦ e
]

pub join-longer :
    (k name : Bytes) → k ≢ codes "." → name ≢ [] → length k < length (path_join k name)
unfolding bytes_eq
join-longer [] [] a b = absurd (b refl)
join-longer [] (d ∷ name) a b = omega arith
join-longer (c ∷ k) name a b =
    let l = length-append (c ∷ k) (b'/' ∷ name) in
    rw (other_name (c ∷ k) (codes ".") a) (omega arith)

pub join_ne_dot : (k name : Bytes) → name ≢ [] → name ≢ codes "." → path_join k name ≢ codes "."
unfolding bytes_eq
join_ne_dot [] name b c = c
join_ne_dot (d ∷ k) name b c = elim (Bool-cases (bytes_eq (d ∷ k) (codes "."))) [
  | inl e ↦ rw e c
  | inr e ↦ let l = length-append k (b'/' ∷ name) in rw e (λ q. let r = ap length q in omega arith)
]

pub longest-lt : (k : Bytes) (es : Entries) → Has k es → length k ≤ longest es
unfolding find longest
longest-lt k [] h = absurd cc
longest-lt k ((key, d) ∷ es) h = elim (Bool-cases (bytes_eq key k)) [
  | inl e ↦ let q : k ≡ key = sym ((bytes_eq_iff key k).0 e) in rw q (omega arith)
  | inr e ↦
      let r : Has k es = has_rest (bytes_eq key k) d (find k es) e h in
      let ih = longest-lt k es r in omega arith
]

-- What a directory lists is in the map.
pub found-Listed :
    (big es : Entries) (k : Bytes) (d : Directory)
    → All (IsEntry big) es
    → find k es ≡ some (some d)
    → Listed k big (d.directories)
unfolding find IsEntry
found-Listed big [] k d l h = absurd cc
found-Listed big ((key, none) ∷ es) k d l h = elim (Bool-cases (bytes_eq key k)) [
  | inl e ↦ absurd (let q = here (bytes_eq key k) (some none) (find k es) d e h in cc)
  | inr e ↦ found-Listed big es k d l.1 (there (bytes_eq key k) (some none) (find k es) d e h)
]
found-Listed big ((key, some x) ∷ es) k d l h = elim (Bool-cases (bytes_eq key k)) [
  | inl e ↦
      let p : key ≡ k = (bytes_eq_iff key k).0 e in
      let q : some (some x) ≡ some (some d) =
        here (bytes_eq key k) (some (some x)) (find k es) d e h in
      let r : x ≡ d = cc in rw⁻¹ (r, p) l.0
  | inr e ↦ found-Listed big es k d l.1 (there (bytes_eq key k) (some (some x)) (find k es) d e h)
]

All-insert_by {ℓ κ} :
    {A : Type ℓ} (P : A → Type κ) (key : A → Bytes) (x : A) (ys : List A)
    → P x
    → All P ys
    → All P (insert_by key x ys)
unfolding insert_by
All-insert_by P key x [] h k = (h, tt)
All-insert_by P key x (y ∷ ys) h k = elim (Bool-cases (bytes_lt (key y) (key x))) [
  | inl e ↦ rw e (k.0, All-insert_by P key x ys h k.1)
  | inr e ↦ rw e (h, k)
]

-- Sorting keeps what holds of all.
All-sort_by {ℓ κ} :
    {A : Type ℓ} (P : A → Type κ) (key : A → Bytes) (xs : List A)
    → All P xs
    → All P (sort_by key xs)
unfolding sort_by
All-sort_by P key [] h = tt
All-sort_by P key (x ∷ xs) h = All-insert_by P key x (sort_by key xs) h.0 (All-sort_by P key xs h.1)

module _ (digest_of : Directory → Option Bytes) (k : Bytes) where
  stored_IsSound :
      (es : Entries) (t : MerkleTree) (h : Bytes)
      → IsLinked (t.entries)
      → IsFrame es (t.entries)
      → IsSound Anything es (built h, put_all (h ∷ []) t)
  unfolding IsSound IsFine
  stored_IsSound es t h l f = rw (put_all-entries (h ∷ []) t) (l, f, tt)

  digest_dir-IsSound :
      (es : Entries) (o : Option (Option Directory)) (t : MerkleTree)
      → IsLinked (t.entries)
      → IsFrame es (t.entries)
      → (d : Directory) → o ≡ some (some d)
      → IsSound Anything es (digest_dir digest_of o t)
  unfolding IsSound IsFine IsExpected
  digest_dir-IsSound es none t l f d e = absurd cc
  digest_dir-IsSound es (some none) t l f d e = absurd cc
  digest_dir-IsSound es (some (some x)) t l f d e = elim (Option-cases (digest_of x)) [
    | inl q ↦ rw q (l, f, tt)
    | inr (h, q) ↦ rw q (stored_IsSound es t h l f)
  ]

  pub close_dir-IsSound :
      (es : Entries) (r : Dirs)
      → IsDir k es
      → IsSound (Listed k) es r
      → IsSound Anything es (close_dir digest_of k r)
  unfolding close_dir IsSound IsFine IsFrame
  close_dir-IsSound es (broken e, t) d (l, f, h) = (l, f, h)
  close_dir-IsSound es (built ns, t) d (l, f, h) =
      let sorted = sort_by (λ n. n.name) ns in
      let es' = modify k (set_directories sorted) (t.entries) in
      let l' =
        IsLinked-directories (t.entries) k sorted l
          (All-sort_by (IsNode (t.entries) k) (λ n. n.name) ns h) in
      let f' =
        IsFrame-trans es (t.entries) es' f
          (IsFrame-modify k (set_directories sorted) (t.entries)) in
      let (x, e) = f'.1 k d in digest_dir-IsSound es _ (record t { entries = es' }) l' f' x e

  -- A write of the files or the symlinks.
  pub written-IsFrame :
      (es : Entries) (f : Directory → Directory) (t : MerkleTree)
      → IsFrame es (t.entries)
      → IsFrame es ((write_dir k f t).entries)
  written-IsFrame es f t h = IsFrame-trans es (t.entries) _ h (IsFrame-modify k f (t.entries))
