-- ===== src/Merkle/Leading.antt =====
-- Where the elements of a path lead to (reapi/merkletree/merkletree.go).
use siso.Common.{
  ◌≡◌, ◌≢◌, refl, sym, ap, ◌∙◌, ◌⊎◌, false, List, [], ◌∷◌, ◌++◌, Option, none, some, Bytes, codes,
  bytes_eq, bytes_eq_iff, ◌==◌, Bool-cases, inl, inr, All, arith,
}
use siso.Merkle.Tree.{path_join, key_of}
use siso.Merkle.Entries.{stay, up, down, element, split_elem}
use siso.Merkle.Building.{join_ne_dot}
use siso.Merkle.Listing.{IsName}
use siso.Merkle.Placed.{resolve_path, dir_name}

-- The path of these elements.
abbrev pub path_text : Bytes → List Bytes → Bytes
path_text name [] = name
path_text name (next ∷ rest) = name ++ (b'/' ∷ path_text next rest)

abbrev pub HasNoSlash : Bytes → Type 0
HasNoSlash name = All (λ c. c ≢ b'/') name

-- Where the elements of a path lead to from the directory `ns` (its name and those around it, the innermost
-- first): the directory, and the last element.
pub data Leads : List Bytes → Bytes → List Bytes → List Bytes → Bytes → Type 0 where
  last : {ns : List Bytes} (name : Bytes) → Leads ns name [] ns name
  empty :
      {ns ns' : List Bytes} {next name : Bytes} {rest : List Bytes}
      → Leads ns next rest ns' name
      → Leads ns [] (next ∷ rest) ns' name
  dot :
      {ns ns' : List Bytes} {next name : Bytes} {rest : List Bytes}
      → Leads ns next rest ns' name
      → Leads ns (codes ".") (next ∷ rest) ns' name
  dots :
      {n : Bytes} {ns ns' : List Bytes} {next name : Bytes} {rest : List Bytes}
      → Leads ns next rest ns' name
      → Leads (n ∷ ns) (codes "..") (next ∷ rest) ns' name
  into :
      {n : Bytes} {ns ns' : List Bytes} {next name : Bytes} {rest : List Bytes}
      → n ≢ []
      → n ≢ codes "."
      → n ≢ codes ".."
      → Leads (n ∷ ns) next rest ns' name
      → Leads ns n (next ∷ rest) ns' name

-- The name of a directory in the map.
abbrev pub dir_text : List Bytes → Bytes
dir_text [] = []
dir_text (n ∷ []) = n
dir_text (n ∷ m ∷ ns) = dir_text (m ∷ ns) ++ (b'/' ∷ n)

split_elem-name :
    (name t : Bytes)
    → HasNoSlash name
    → split_elem (name ++ (b'/' ∷ t)) ≡ (name, (split_elem t).0 ∷ (split_elem t).1)
unfolding split_elem
split_elem-name [] t h = refl
split_elem-name (c ∷ name) t h =
    let e : (c == b'/') ≡ false = let k = h.0 in ground arith in
    rw (e, split_elem-name name t h.1) refl

split_elem-last : (name : Bytes) → HasNoSlash name → split_elem name ≡ (name, [])
unfolding split_elem
split_elem-last [] h = refl
split_elem-last (c ∷ name) h =
    let e : (c == b'/') ≡ false = let k = h.0 in ground arith in
    rw (e, split_elem-last name h.1) refl

pub split_elem-path_text :
    (name : Bytes) (rest : List Bytes)
    → HasNoSlash name
    → All HasNoSlash rest
    → split_elem (path_text name rest) ≡ (name, rest)
split_elem-path_text name [] h k = split_elem-last name h
split_elem-path_text name (next ∷ rest) h k =
    split_elem-name name (path_text next rest) h
    ∙ ap (λ r. (name, r.0 ∷ r.1)) (split_elem-path_text next rest k.0 k.1)

element-empty : element [] ≡ stay
unfolding bytes_eq
element-empty = refl

element-dot : element (codes ".") ≡ stay
unfolding bytes_eq
element-dot = refl

element-dots : element (codes "..") ≡ up
unfolding bytes_eq
element-dots = refl

pub unequal : (s t : Bytes) → s ≢ t → bytes_eq s t ≡ false
unequal s t h = elim (Bool-cases (bytes_eq s t)) [
  | inl e ↦ absurd (h ((bytes_eq_iff s t).0 e))
  | inr e ↦ e
]

element-name : (n : Bytes) → n ≢ [] → n ≢ codes "." → n ≢ codes ".." → element n ≡ down
element-name n a b c = rw (unequal n [] a, unequal n (codes ".") b, unequal n (codes "..") c) refl

pub Leads-resolve_path :
    {ns : List Bytes} {first : Bytes} {rest ns' : List Bytes} {name : Bytes}
    → Leads ns first rest ns' name
    → resolve_path ns first rest ≡ some (ns', name)
unfolding resolve_path
Leads-resolve_path (last name) = refl
Leads-resolve_path (empty h) = rw (resolve_path, element-empty) (Leads-resolve_path h)
Leads-resolve_path (dot h) = rw (resolve_path, element-dot) (Leads-resolve_path h)
Leads-resolve_path (dots h) = rw (resolve_path, element-dots) (Leads-resolve_path h)
Leads-resolve_path (into a b c h) = rw (resolve_path, element-name _ a b c) (Leads-resolve_path h)

name-kinds :
    (n : Bytes)
    → (n ≡ [])
      ⊎ (n ≡ codes ".")
      ⊎ (n ≡ codes "..")
      ⊎ ((n ≢ []) × (n ≢ codes ".") × (n ≢ codes ".."))
name-kinds n = elim (Bool-cases (bytes_eq n [])) [
  | inl e ↦ inl ((bytes_eq_iff n []).0 e)
  | inr e ↦ elim (Bool-cases (bytes_eq n (codes "."))) [
    | inl f ↦ inr (inl ((bytes_eq_iff n (codes ".")).0 f))
    | inr f ↦ elim (Bool-cases (bytes_eq n (codes ".."))) [
      | inl g ↦ inr (inr (inl ((bytes_eq_iff n (codes "..")).0 g)))
      | inr g ↦ inr (inr (inr (differs n [] e, differs n (codes ".") f, differs n (codes "..") g)))
    ]
  ]
]
  where
    differs : (s t : Bytes) → bytes_eq s t ≡ false → s ≢ t
    differs s t e q = let r = (bytes_eq_iff s t).1 q in cc

resolve_path-stay :
    (ns : List Bytes) (n next : Bytes) (rest : List Bytes)
    → element n ≡ stay
    → resolve_path ns n (next ∷ rest) ≡ resolve_path ns next rest
unfolding resolve_path
resolve_path-stay ns n next rest e = rw (resolve_path, e) refl

resolve_path-down :
    (ns : List Bytes) (n next : Bytes) (rest : List Bytes)
    → element n ≡ down
    → resolve_path ns n (next ∷ rest) ≡ resolve_path (n ∷ ns) next rest
unfolding resolve_path
resolve_path-down ns n next rest e = rw (resolve_path, e) refl

resolve_path-root :
    (n next : Bytes) (rest : List Bytes) → element n ≡ up → resolve_path [] n (next ∷ rest) ≡ none
unfolding resolve_path
resolve_path-root n next rest e = rw (resolve_path, e) refl

resolve_path-up :
    (m : Bytes) (ns : List Bytes) (n next : Bytes) (rest : List Bytes)
    → element n ≡ up
    → resolve_path (m ∷ ns) n (next ∷ rest) ≡ resolve_path ns next rest
unfolding resolve_path
resolve_path-up m ns n next rest e = rw (resolve_path, e) refl

same_place :
    (ns ns' : List Bytes) (first name : Bytes)
    → ◌≡◌ {A = Option (List Bytes × Bytes)} (some (ns, first)) (some (ns', name))
    → Leads ns first [] ns' name
same_place ns ns' first name e =
    let p : ns ≡ ns' = cc in let q : first ≡ name = cc in rw (p, q) (last name)

pub resolve_path-Leads :
    (first : Bytes) (rest ns ns' : List Bytes) (name : Bytes)
    → resolve_path ns first rest ≡ some (ns', name)
    → Leads ns first rest ns' name
resolve_path-Leads first [] ns ns' name h = same_place ns ns' first name (unfold resolve_path in h)
resolve_path-Leads n (next ∷ rest) ns ns' name h = elim (name-kinds n) [
  | inl e ↦
      let q = resolve_path-stay ns n next rest (ap element e ∙ element-empty) in
      rw e (empty (resolve_path-Leads next rest ns ns' name (sym q ∙ h)))
  | inr (inl e) ↦
      let q = resolve_path-stay ns n next rest (ap element e ∙ element-dot) in
      rw e (dot (resolve_path-Leads next rest ns ns' name (sym q ∙ h)))
  | inr (inr (inl e)) ↦ rw e (
      by_dots ns (λ ms k. resolve_path-Leads next rest ms ns' name k) (ap element e ∙ element-dots)
        h)
  | inr (inr (inr (a, b, c))) ↦
      let q = resolve_path-down ns n next rest (element-name n a b c) in
      into a b c (resolve_path-Leads next rest (n ∷ ns) ns' name (sym q ∙ h))
]
  where
    by_dots :
        (ms : List Bytes)
        → ((below : List Bytes)
            → resolve_path below next rest ≡ some (ns', name)
            → Leads below next rest ns' name)
        → element n ≡ up
        → resolve_path ms n (next ∷ rest) ≡ some (ns', name)
        → Leads ms (codes "..") (next ∷ rest) ns' name
    by_dots [] ih e k = let q = resolve_path-root n next rest e in absurd cc
    by_dots (m ∷ ms) ih e k = dots (ih ms (sym (resolve_path-up m ms n next rest e) ∙ k))

pub Leads-IsName :
    {ns : List Bytes} {first : Bytes} {rest ns' : List Bytes} {name : Bytes}
    → Leads ns first rest ns' name
    → All IsName ns
    → All IsName ns'
Leads-IsName (last name) a = a
Leads-IsName (empty h) a = Leads-IsName h a
Leads-IsName (dot h) a = Leads-IsName h a
Leads-IsName (dots h) a = Leads-IsName h a.1
Leads-IsName (into p q r h) a = Leads-IsName h ((p, q), a)

join_ne_nil : (k name : Bytes) → name ≢ [] → path_join k name ≢ []
unfolding bytes_eq
join_ne_nil [] name b = b
join_ne_nil (d ∷ k) name b = elim (Bool-cases (bytes_eq (d ∷ k) (codes "."))) [
  | inl e ↦ rw e b
  | inr e ↦ rw e (λ q. cc)
]

join-below :
    (dir base : Bytes)
    → bytes_eq dir (codes ".") ≡ false
    → bytes_eq dir [] ≡ false
    → path_join dir base ≡ dir ++ (b'/' ∷ base)
join-below dir base e f = rw (e, f) refl

dir_name_ne : (n : Bytes) (ns : List Bytes) → IsName n → dir_name (n ∷ ns) ≢ codes "."
unfolding dir_name
dir_name_ne n ns a = join_ne_dot (dir_name ns) n a.0 a.1

dir_name-dir_text :
    (n : Bytes) (ns : List Bytes) → All IsName (n ∷ ns) → dir_name (n ∷ ns) ≡ dir_text (n ∷ ns)
unfolding dir_name bytes_eq
dir_name-dir_text n [] a = refl
dir_name-dir_text n (m ∷ ns) a =
    let e = unequal (dir_name (m ∷ ns)) (codes ".") (dir_name_ne m ns (a.1.0)) in
    let f = unequal (dir_name (m ∷ ns)) [] (join_ne_nil (dir_name ns) m (a.1.0.0)) in
    join-below (dir_name (m ∷ ns)) n e f ∙ ap (λ d. d ++ (b'/' ∷ n)) (dir_name-dir_text m ns a.1)

pub key_of-dir_text : (ns : List Bytes) → All IsName ns → key_of (dir_name ns) ≡ dir_text ns
unfolding dir_name bytes_eq
key_of-dir_text [] a = refl
key_of-dir_text (n ∷ ns) a =
    rw (unequal (dir_name (n ∷ ns)) (codes ".") (dir_name_ne n ns a.0)) (dir_name-dir_text n ns a)
