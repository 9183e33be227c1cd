-- ===== src/Merkle/Filed.antt =====
-- What `Set` of reapi/merkletree/merkletree.go does with a file, for a path as it is written.
use siso.Common.{
  ◌≡◌, ◌≢◌, sym, ap, ◌∙◌, ◌⊎◌, Bool, true, false, ◌||◌, List, [], ◌∷◌, none, some, Bytes, codes,
  bytes_eq, bytes_eq_iff, ◌==◌, Bool-cases, inl, inr, All, arith,
}
use siso.Merkle.Tree.{MerkleTree, find}
use siso.Merkle.Entries.{
  ambiguous, abs_path, bad_path, precomputed, SetResult, added, refused, is_dot, is_dots,
  entry_leaf, set_entry, is_absolute,
}
use siso.Merkle.Linked.{IsDir}
use siso.Merkle.Placed.{
  resolve_path, dir_name, outer_names, AreDirs, IsLastFile, file_of, no_file, IsPlaced,
  walk-IsPlaced,
}
use siso.Merkle.Leading.{
  path_text, HasNoSlash, Leads, dir_text, split_elem-path_text, unequal, Leads-resolve_path,
  resolve_path-Leads, Leads-IsName, key_of-dir_text,
}

-- The last element is a file's name.
abbrev pub IsFileName : Bytes → Type 0
IsFileName name = (name ≢ codes ".") × (name ≢ codes "..")

-- The path leads to a file that is not out of the root.
abbrev pub LeadsToFile : Bytes → List Bytes → List Bytes → Bytes → Type 0
LeadsToFile first rest ns name = Leads [] first rest ns name × IsFileName name

-- A file is put where its path leads to; an error has its reason.
unfoldable pub IsFiled :
    (target digest : Bytes) (is_executable : Bool) → Bytes → List Bytes → SetResult → Type 0
IsFiled target digest x first rest (added t) =
    (ns : List Bytes) × (name : Bytes) × (LeadsToFile first rest ns name
      × IsLastFile (dir_text ns) (file_of digest x name) (t.entries))
IsFiled target digest x first rest (refused ambiguous t) = target ≢ []
IsFiled target digest x first rest (refused abs_path t) =
    (s : Bytes) × ((path_text first rest ≡ b'/' ∷ s) ⊎ (path_text first rest ≡ b'\\' ∷ s))
IsFiled target digest x first rest (refused bad_path t) =
    (ns : List Bytes) (name : Bytes) → LeadsToFile first rest ns name → ⊥
IsFiled target digest x first rest (refused precomputed t) =
    (k : Bytes) × (find k (t.entries) ≡ some none)
IsFiled target digest x first rest (refused e t) = ⊥

no_file-IsFileName : (name : Bytes) → (is_dot name || is_dots name) ≡ false → IsFileName name
no_file-IsFileName name e = (
  (λ q. let r = (bytes_eq_iff name (codes ".")).1 q in ground arith),
  (λ q. let r = (bytes_eq_iff name (codes "..")).1 q in ground arith),
)

no_file-LeadsToFile :
    (first : Bytes) (rest ns : List Bytes) (name : Bytes)
    → no_file (resolve_path [] first rest) ≡ true
    → LeadsToFile first rest ns name
    → ⊥
no_file-LeadsToFile first rest ns name e (h, (a, b)) =
    let q : (is_dot name || is_dots name) ≡ true = sym (ap no_file (Leads-resolve_path h)) ∙ e in
    let c = unequal name (codes ".") a in let d = unequal name (codes "..") b in ground arith

IsPlaced-IsFiled :
    (target digest : Bytes) (x : Bool) (first : Bytes) (rest : List Bytes) (r : SetResult)
    → IsPlaced digest x r (resolve_path [] first rest)
    → IsFiled target digest x first rest r
unfolding IsPlaced IsFiled
IsPlaced-IsFiled target digest x first rest (added t) (ns, name, (e, f, h)) =
    let l = resolve_path-Leads first rest [] ns name e in
    let n : (is_dot name || is_dots name) ≡ false = sym (ap no_file e) ∙ f in
    (ns, name, ((l, no_file-IsFileName name n), rw⁻¹ (key_of-dir_text ns (Leads-IsName l tt)) h))
IsPlaced-IsFiled target digest x first rest (refused bad_path t) h =
    λ ns name. no_file-LeadsToFile first rest ns name h
IsPlaced-IsFiled target digest x first rest (refused precomputed t) h = h
IsPlaced-IsFiled target digest x first rest (refused e t) h = absurd h

absolute_text :
    (s : Bytes) → is_absolute s ≡ true → (t : Bytes) × ((s ≡ b'/' ∷ t) ⊎ (s ≡ b'\\' ∷ t))
unfolding is_absolute
absolute_text [] h = absurd cc
absolute_text (c ∷ s) h = elim (Bool-cases (c == b'/')) [
  | inl e ↦ let q : c ≡ b'/' = ground arith in (s, inl (ap (λ d. d ∷ s) q))
  | inr e ↦ let q : c ≡ b'\\' = ground arith in (s, inr (ap (λ d. d ∷ s) q))
]

-- `Set` of a file with a path that is written as elements between slashes, in a tree whose root is a directory.
-- Without an error, the path leads to a directory by its elements (an empty one and `.` stay, `..` goes
-- back and never leaves the root), and this directory, under the names on the way to it between slashes, is
-- in the tree with the file as its last one. Every error has its reason: a target, a path that starts with a
-- slash or a backslash, a path that leads out of the root or ends with `.` or `..`, or a directory in the
-- tree that is precomputed.
pub set_entry-IsFiled :
    (first : Bytes) (rest : List Bytes) (target digest : Bytes) (is_executable : Bool)
    (t : MerkleTree)
    → HasNoSlash first
    → All HasNoSlash rest
    → IsDir [] (t.entries)
    → IsFiled target digest is_executable first rest (
        set_entry
          (record {
            name = path_text first rest;
            content = some digest;
            is_executable = is_executable;
            target = target;
          })
          t)
unfolding set_entry entry_leaf IsFiled AreDirs dir_name outer_names
set_entry-IsFiled first rest target digest x t a b h = elim (Bool-cases (bytes_eq target [])) [
  | inr e ↦ rw e (λ q. let r = (bytes_eq_iff target []).1 q in cc)
  | inl e ↦ elim (Bool-cases (is_absolute (path_text first rest))) [
    | inl f ↦ rw (e, f) (absolute_text (path_text first rest) f)
    | inr f ↦
        rw (e, f, split_elem-path_text first rest a b)
          (IsPlaced-IsFiled target digest x first rest _ (walk-IsPlaced digest x first rest [] t h))
  ]
]
