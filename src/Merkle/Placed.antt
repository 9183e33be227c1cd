-- ===== src/Merkle/Placed.antt =====
-- Where `Set` of reapi/merkletree/merkletree.go puts a file: into the directory that its path leads to.
use siso.Common.{
  ◌≡◌, refl, ◌∙◌, ap, Bool, true, false, ◌||◌, List, [], ◌∷◌, ◌++◌, Option, none, some, Bytes,
  codes, bytes_eq, bytes_eq_iff, bytes_eq_refl, if◌then◌else◌, Bool-cases, Option-cases, inl, inr,
}
use siso.Merkle.Tree.{
  FileNode, Directory, Entries, MerkleTree, empty_directory, find, modify, path_join, key_of,
  add_file, add_directory,
}
use siso.Merkle.Entries.{
  bad_path, precomputed, SetResult, added, refused, stay, up, down, element, set_dir, walk, is_dot,
  is_dots, file_leaf, is_some,
}
use siso.Merkle.Linked.{IsDir, here, there, is_some-find-modify, IsDir-modify}
use siso.Merkle.Building.{join_ne_dot}
use siso.Merkle.Setting.{element-cases}
use siso.Merkle.Listing.{IsName, IsDir-append, put_all-entries}

-- The directory that a path leads to, from the one whose names are these, innermost first: an empty name and
-- `.` stay, `..` goes back, and may not leave the root. The last element is left over.
unfoldable pub resolve_path : List Bytes → Bytes → List Bytes → Option (List Bytes × Bytes)
resolve_path ns name [] = some (ns, name)
resolve_path ns name (next ∷ rest) = elim (element name) [
  | stay ↦ resolve_path ns next rest
  | up ↦ elim ns [ [] ↦ none | n ∷ outer ↦ resolve_path outer next rest ]
  | down ↦ resolve_path (name ∷ ns) next rest
]

-- The name of the directory, and those of the directories around it.
unfoldable pub dir_name : List Bytes → Bytes
dir_name [] = codes "."
dir_name (n ∷ ns) = path_join (dir_name ns) n

unfoldable pub outer_names : List Bytes → List Bytes
outer_names [] = []
outer_names (n ∷ ns) = dir_name ns ∷ outer_names ns

-- The directory and those around it are in the map.
unfoldable pub AreDirs : List Bytes → Entries → Type 0
AreDirs [] es = IsDir [] es
AreDirs (n ∷ ns) es = IsDir (key_of (dir_name (n ∷ ns))) es × AreDirs ns es

-- The last file of the directory.
abbrev pub IsLastFile : Bytes → FileNode → Entries → Type 0
IsLastFile k f es =
    (d : Directory) × (fs : List FileNode) × ((find k es ≡ some (some d))
      × (d.files ≡ fs ++ (f ∷ [])))

IsLastFile-modify :
    (k : Bytes) (f : FileNode) (es : Entries)
    → IsDir k es
    → IsLastFile k f (modify k (add_file f) es)
unfolding find modify
IsLastFile-modify k f [] (d, h) = absurd cc
IsLastFile-modify k f ((key, none) ∷ es) (d, h) = elim (Bool-cases (bytes_eq key k)) [
  | inl e ↦ absurd (let q = here (bytes_eq key k) (some none) (find k es) d e h in cc)
  | inr e ↦
      rw e (IsLastFile-modify k f es (d, there (bytes_eq key k) (some none) (find k es) d e h))
]
IsLastFile-modify k f ((key, some x) ∷ es) (d, h) = elim (Bool-cases (bytes_eq key k)) [
  | inl e ↦ rw e (add_file f x, x.files, (refl, refl))
  | inr e ↦
      rw e (IsLastFile-modify k f es (d, there (bytes_eq key k) (some (some x)) (find k es) d e h))
]

AreDirs-keep :
    (ns : List Bytes) (es es' : Entries)
    → ((k : Bytes) → IsDir k es → IsDir k es')
    → AreDirs ns es
    → AreDirs ns es'
unfolding AreDirs
AreDirs-keep [] es es' f h = f [] h
AreDirs-keep (n ∷ ns) es es' f h = (f _ h.0, AreDirs-keep ns es es' f h.1)

AreDirs-here : (ns : List Bytes) (es : Entries) → AreDirs ns es → IsDir (key_of (dir_name ns)) es
unfolding AreDirs dir_name bytes_eq
AreDirs-here [] es h = h
AreDirs-here (n ∷ ns) es h = h.0

no_entry :
    (b : Bool) (d : Option Directory) (rest : Option (Option Directory))
    → b ≡ true
    → is_some (if b then some d else rest) ≡ false
    → ⊥
no_entry true d rest e h = cc
no_entry false d rest e h = cc

no_entry_behind :
    (b : Bool) (d : Option Directory) (rest : Option (Option Directory))
    → b ≡ false
    → is_some (if b then some d else rest) ≡ false
    → is_some rest ≡ false
no_entry_behind true d rest e h = cc
no_entry_behind false d rest e h = h

IsDir-new :
    (k : Bytes) (x : Directory) (es : Entries)
    → is_some (find k es) ≡ false
    → IsDir k (es ++ ((k, some x) ∷ []))
unfolding find
IsDir-new k x [] h = (x, rw (bytes_eq_refl k) refl)
IsDir-new k x ((key, d) ∷ es) h = elim (Bool-cases (bytes_eq key k)) [
  | inl e ↦ absurd (no_entry (bytes_eq key k) d (find k es) e h)
  | inr e ↦ rw e (IsDir-new k x es (no_entry_behind (bytes_eq key k) d (find k es) e h))
]

join-key_of : (k name : Bytes) → IsName name → key_of (path_join k name) ≡ path_join k name
join-key_of k name (a, b) = elim (Bool-cases (bytes_eq (path_join k name) (codes "."))) [
  | inl e ↦ absurd (join_ne_dot k name a b ((bytes_eq_iff (path_join k name) (codes ".")).0 e))
  | inr e ↦ rw e refl
]

-- The path leads out of the root, or its last element is no name of a file.
abbrev pub no_file : Option (List Bytes × Bytes) → Bool
no_file none = true
no_file (some (ns, name)) = is_dot name || is_dots name

-- What a step into a subdirectory gives.
unfoldable Stepped : List Bytes → Bytes → Option Bytes × MerkleTree → Type 0
Stepped ns name (none, t) = (k : Bytes) × (find k (t.entries) ≡ some none)
Stepped ns name (some dirname, t) =
    (dirname ≡ dir_name (name ∷ ns)) × AreDirs (name ∷ ns) (t.entries)

set_dir-Stepped :
    (ns : List Bytes) (name : Bytes) (t : MerkleTree)
    → IsName name
    → AreDirs ns (t.entries)
    → Stepped ns name (set_dir (dir_name ns) name t)
unfolding set_dir Stepped AreDirs dir_name
set_dir-Stepped ns name t a h =
    let k = path_join (dir_name ns) name in
    let q : key_of k ≡ k = join-key_of (dir_name ns) name a in
    elim (Option-cases (find k (t.entries))) [
      | inl e ↦
          rw (set_dir, e)
            (let f = add_directory (record { name = name; digest = none }) in
              let o = key_of (dir_name ns) in
              let free : is_some (find k (modify o f (t.entries))) ≡ false =
                is_some-find-modify o f k (t.entries) ∙ ap is_some e in
              (
                refl,
                (
                  rw q (IsDir-new k empty_directory (modify o f (t.entries)) free),
                  AreDirs-keep ns (t.entries) _
                      (λ j d.
                        IsDir-append j (modify o f (t.entries)) _
                          (IsDir-modify o f j (t.entries) d))
                      h,
                ),
              ))
      | inr (none, e) ↦ rw (set_dir, e) (k, e)
      | inr (some d, e) ↦ rw (set_dir, e) (refl, (rw q (d, e), h))
    ]

module _ (digest : Bytes) (is_executable : Bool) where
  abbrev pub file_of : Bytes → FileNode
  file_of name = record { name = name; digest = digest; is_executable = is_executable }

  -- Where the file is put, or why it is not.
  unfoldable pub IsPlaced : SetResult → Option (List Bytes × Bytes) → Type 0
  IsPlaced (refused bad_path t) o = no_file o ≡ true
  IsPlaced (refused precomputed t) o = (k : Bytes) × (find k (t.entries) ≡ some none)
  IsPlaced (refused e t) o = ⊥
  IsPlaced (added t) o =
      (ns : List Bytes) × (name : Bytes) × ((o ≡ some (ns, name))
        × (no_file o ≡ false)
        × IsLastFile (key_of (dir_name ns)) (file_of name) (t.entries))

  file_leaf-IsPlaced :
      (ns : List Bytes) (name : Bytes) (stack : List Bytes) (t : MerkleTree)
      → AreDirs ns (t.entries)
      → IsPlaced (file_leaf digest is_executable name (dir_name ns) stack t) (some (ns, name))
  unfolding file_leaf IsPlaced
  file_leaf-IsPlaced ns name stack t h = elim (Bool-cases (is_dot name || is_dots name)) [
    | inl e ↦ rw e e
    | inr e ↦ rw e (
      ns,
      name,
      (
        refl,
        e,
        rw (put_all-entries (digest ∷ []) _) (
            IsLastFile-modify (key_of (dir_name ns)) (file_of name) (t.entries)
              (AreDirs-here ns (t.entries) h)),
      ),
    )
  ]

  abbrev Places : Bytes → List Bytes → Type 0
  Places name rest =
      (ns : List Bytes) (t : MerkleTree)
      → AreDirs ns (t.entries)
      → IsPlaced (walk (file_leaf digest is_executable) name rest (dir_name ns) (outer_names ns) t)
          (resolve_path ns name rest)

  IsPlaced-up :
      (next : Bytes) (rest : List Bytes) (ns : List Bytes) (t : MerkleTree)
      → Places next rest
      → AreDirs ns (t.entries)
      → IsPlaced
          (elim (outer_names ns) [
            | [] ↦ refused bad_path t
            | top ∷ below ↦ walk (file_leaf digest is_executable) next rest top below t
          ])
          (elim ns [ [] ↦ none | n ∷ outer ↦ resolve_path outer next rest ])
  unfolding IsPlaced outer_names AreDirs
  IsPlaced-up next rest [] t ih h = refl
  IsPlaced-up next rest (n ∷ ns) t ih h = ih ns t h.1

  IsPlaced-down :
      (next : Bytes) (rest : List Bytes) (name : Bytes) (ns : List Bytes)
      (r : Option Bytes × MerkleTree)
      → Places next rest
      → Stepped ns name r
      → IsPlaced
          (elim (r.0) [
            | none ↦ refused precomputed (r.1)
            | some dirname ↦
                walk
                  (file_leaf digest is_executable)
                  next
                  rest
                  dirname
                  (dir_name ns ∷ outer_names ns)
                  (r.1)
          ])
          (resolve_path (name ∷ ns) next rest)
  unfolding IsPlaced outer_names Stepped
  IsPlaced-down next rest name ns (none, t) ih h = h
  IsPlaced-down next rest name ns (some dirname, t) ih (e, h) = rw e (ih (name ∷ ns) t h)

  pub walk-IsPlaced : (name : Bytes) (rest : List Bytes) → Places name rest
  unfolding walk resolve_path
  walk-IsPlaced name [] ns t h = file_leaf-IsPlaced ns name (outer_names ns) t h
  walk-IsPlaced name (next ∷ rest) ns t h =
      let ih = walk-IsPlaced next rest in
      elim (element-cases name) [
        | inl e ↦ rw (walk, resolve_path, e) (ih ns t h)
        | inr (inl e) ↦ rw (walk, resolve_path, e) (IsPlaced-up next rest ns t ih h)
        | inr (inr (e, a)) ↦
            rw (walk, resolve_path, e)
              (IsPlaced-down next rest name ns (set_dir (dir_name ns) name t) ih
                (set_dir-Stepped ns name t a h))
      ]
