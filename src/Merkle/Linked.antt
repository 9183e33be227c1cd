-- ===== src/Merkle/Linked.antt =====
-- The invariant of a tree (reapi/merkletree/merkletree.go): every subdirectory that a directory lists is in
-- the map, and the root is a directory.
use siso.Common.{
  ◌≡◌, ◌≢◌, refl, ◌∙◌, Bool, true, false, List, [], ◌∷◌, Option, none, some, Bytes, codes, bytes_eq,
  bytes_eq_iff, if◌then◌else◌, All, Bool-cases, inl, inr,
}
use siso.Merkle.Tree.{DirectoryNode, Directory, Entries, find, modify, path_join}
use siso.Merkle.Entries.{is_some}

-- The name is in the map.
abbrev pub Has : Bytes → Entries → Type 0
Has k es = is_some (find k es) ≡ true

-- The name is bound to a directory.
abbrev pub IsDir : Bytes → Entries → Type 0
IsDir k es = (d : Directory) × (find k es ≡ some (some d))

-- A subdirectory of the directory `k`.
unfoldable pub IsNode : Entries → Bytes → DirectoryNode → Type 0
IsNode es k n = (n.name ≢ []) × (n.name ≢ codes ".") × Has (path_join k (n.name)) es

unfoldable pub IsEntry : Entries → Bytes × Option Directory → Type 0
IsEntry es (k, none) = Unit
IsEntry es (k, some d) = All (IsNode es k) (d.directories)

unfoldable pub IsLinked : Entries → Type 0
IsLinked es = All (IsEntry es) es × IsDir [] es

-- Names that are in one map are in the other.
abbrev pub Within : Entries → Entries → Type 0
Within es es' = (k : Bytes) → Has k es → Has k es'

pub All-weaken {ℓ κ} :
    {A : Type ℓ} (P Q : A → Type κ) (xs : List A) → ((x : A) → P x → Q x) → All P xs → All Q xs
All-weaken P Q [] f h = tt
All-weaken P Q (x ∷ xs) f h = (f x h.0, All-weaken P Q xs f h.1)

pub IsNode-weaken :
    (es es' : Entries) (k : Bytes) (n : DirectoryNode)
    → Within es es'
    → IsNode es k n
    → IsNode es' k n
unfolding IsNode
IsNode-weaken es es' k n w h = (h.0, h.1, w (path_join k (n.name)) h.2)

IsEntry-weaken :
    (es es' : Entries) (e : Bytes × Option Directory) → Within es es' → IsEntry es e → IsEntry es' e
unfolding IsEntry
IsEntry-weaken es es' (k, none) w h = tt
IsEntry-weaken es es' (k, some d) w h =
    All-weaken (IsNode es k) (IsNode es' k) (d.directories) (λ n. IsNode-weaken es es' k n w) h

-- The part of the invariant that is about a list of entries of the map.
abbrev pub AllEntries : Entries → Entries → Type 0
AllEntries big es = All (IsEntry big) es

pub entries-weaken : (es es' xs : Entries) → Within es es' → AllEntries es xs → AllEntries es' xs
entries-weaken es es' xs w h =
    All-weaken (IsEntry es) (IsEntry es') xs (λ e. IsEntry-weaken es es' e w) h

-- What a lookup finds at an entry and behind it.
pub has_rest :
    (b : Bool) (d : Option Directory) (rest : Option (Option Directory))
    → b ≡ false
    → is_some (if b then some d else rest) ≡ true
    → is_some rest ≡ true
has_rest true d rest e h = cc
has_rest false d rest e h = h

pub here :
    (b : Bool) (x rest : Option (Option Directory)) (d : Directory)
    → b ≡ true
    → (if b then x else rest) ≡ some (some d)
    → x ≡ some (some d)
here true x rest d e h = h
here false x rest d e h = cc

pub there :
    (b : Bool) (x rest : Option (Option Directory)) (d : Directory)
    → b ≡ false
    → (if b then x else rest) ≡ some (some d)
    → rest ≡ some (some d)
there true x rest d e h = cc
there false x rest d e h = h

-- What a write to a directory keeps.
module _ (k : Bytes) (f : Directory → Directory) where
  pub is_some-find-modify :
      (j : Bytes) (es : Entries) → is_some (find j (modify k f es)) ≡ is_some (find j es)
  unfolding find modify
  is_some-find-modify j [] = refl
  is_some-find-modify j ((key, none) ∷ es) = elim (Bool-cases (bytes_eq key j)) [
    | inl e ↦ rw e refl
    | inr e ↦ rw e (is_some-find-modify j es)
  ]
  is_some-find-modify j ((key, some d) ∷ es) = elim (Bool-cases (bytes_eq key j)) [
    | inl e ↦ rw e refl
    | inr e ↦ rw e (is_some-find-modify j es)
  ]

  pub Has-modify : (j : Bytes) (es : Entries) → Has j es → Has j (modify k f es)
  Has-modify j es h = is_some-find-modify j es ∙ h

  pub IsDir-modify : (j : Bytes) (es : Entries) → IsDir j es → IsDir j (modify k f es)
  unfolding find modify
  IsDir-modify j [] (d, h) = absurd cc
  IsDir-modify j ((key, none) ∷ es) (d, h) = elim (Bool-cases (bytes_eq key j)) [
    | inl e ↦ absurd (let q = here (bytes_eq key j) (some none) (find j es) d e h in cc)
    | inr e ↦ rw e (IsDir-modify j es (d, there (bytes_eq key j) (some none) (find j es) d e h))
  ]
  IsDir-modify j ((key, some x) ∷ es) (d, h) = elim (Bool-cases (bytes_eq key j)) [
    | inl e ↦ rw e (_, refl)
    | inr e ↦ rw e (IsDir-modify j es (d, there (bytes_eq key j) (some (some x)) (find j es) d e h))
  ]

  written :
      (big : Entries) (key : Bytes) (d : Directory)
      → key ≡ k
      → ((d : Directory)
          → All (IsNode big k) (d.directories)
          → All (IsNode big k) ((f d).directories))
      → All (IsNode big key) (d.directories)
      → All (IsNode big key) ((f d).directories)
  written big key d e g = rw e (g d)

  pub entries-modify :
      (big es : Entries)
      → ((d : Directory)
          → All (IsNode big k) (d.directories)
          → All (IsNode big k) ((f d).directories))
      → AllEntries big es
      → AllEntries big (modify k f es)
  unfolding modify IsEntry
  entries-modify big [] g h = tt
  entries-modify big ((key, none) ∷ es) g h = (tt, entries-modify big es g h.1)
  entries-modify big ((key, some d) ∷ es) g h = elim (Bool-cases (bytes_eq key k)) [
    | inl e ↦
        let q : key ≡ k = (bytes_eq_iff key k).0 e in
        rw e (written big key d q g h.0, entries-modify big es g h.1)
    | inr e ↦ rw e (h.0, entries-modify big es g h.1)
  ]
