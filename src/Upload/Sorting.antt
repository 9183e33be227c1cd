-- ===== src/Upload/Sorting.antt =====
-- The sort and the search of `separateBlobs` in reapi/cas.go.
use siso.Common.{
  ℕ, zero, suc, ◌+◌, ◌/◌, ◌≤◌, ◌<◌, ◌≡◌, refl, Bool, true, false, Bool-cases, inl, inr, List, [],
  ◌∷◌, some, ltb, get_elem?, All, arith,
}
use mathlib.Core.List.{Permᴰ}
use mathlib.Core.List.Permᴰ.{nil, cons, swap, trans}
use siso.Upload.Separate.{Digest, insert_by_size, sort_by_size, search}

unfoldable pub IsSorted : List Digest → Type 0
IsSorted [] = Unit
IsSorted (x ∷ xs) = All (λ y. x.size_bytes ≤ y.size_bytes) xs × IsSorted xs

pub All-insert_by_size :
    (P : Digest → Type 0) (x : Digest) (xs : List Digest)
    → P x
    → All P xs
    → All P (insert_by_size x xs)
unfolding insert_by_size
All-insert_by_size P x [] p h = (p, tt)
All-insert_by_size P x (y ∷ ys) p h = elim (Bool-cases (ltb (y.size_bytes) (x.size_bytes))) [
  | inl e ↦ rw e (h.0, All-insert_by_size P x ys p h.1)
  | inr e ↦ rw e (p, h)
]

pub All-sort_by_size : (P : Digest → Type 0) (xs : List Digest) → All P xs → All P (sort_by_size xs)
unfolding sort_by_size
All-sort_by_size P [] h = tt
All-sort_by_size P (x ∷ xs) h =
    All-insert_by_size P x (sort_by_size xs) h.0 (All-sort_by_size P xs h.1)

All-larger :
    (m n : ℕ) (xs : List Digest)
    → m ≤ n
    → All (λ y. n ≤ y.size_bytes) xs
    → All (λ y. m ≤ y.size_bytes) xs
All-larger m n [] h k = tt
All-larger m n (x ∷ xs) h k = let e = k.0 in (omega arith, All-larger m n xs h k.1)

insert_by_size-IsSorted :
    (x : Digest) (xs : List Digest) → IsSorted xs → IsSorted (insert_by_size x xs)
unfolding insert_by_size IsSorted
insert_by_size-IsSorted x [] h = (tt, tt)
insert_by_size-IsSorted x (y ∷ ys) h = elim (Bool-cases (ltb (y.size_bytes) (x.size_bytes))) [
  | inl e ↦
      let le : y.size_bytes ≤ x.size_bytes = ground arith in
      rw e (
        All-insert_by_size (λ z. y.size_bytes ≤ z.size_bytes) x ys le h.0,
        insert_by_size-IsSorted x ys h.1,
      )
  | inr e ↦
      let le : x.size_bytes ≤ y.size_bytes = ground arith in
      rw e ((le, All-larger (x.size_bytes) (y.size_bytes) ys le h.0), h)
]

pub sort_by_size-IsSorted : (xs : List Digest) → IsSorted (sort_by_size xs)
unfolding sort_by_size IsSorted
sort_by_size-IsSorted [] = tt
sort_by_size-IsSorted (x ∷ xs) =
    insert_by_size-IsSorted x (sort_by_size xs) (sort_by_size-IsSorted xs)

permutation : (xs : List Digest) → Permᴰ xs xs
permutation [] = nil
permutation (x ∷ xs) = cons refl (permutation xs)

insert_by_size-perm : (x : Digest) (xs : List Digest) → Permᴰ (insert_by_size x xs) (x ∷ xs)
unfolding insert_by_size
insert_by_size-perm x [] = permutation (x ∷ [])
insert_by_size-perm x (y ∷ ys) = elim (Bool-cases (ltb (y.size_bytes) (x.size_bytes))) [
  | inl e ↦ rw e (trans (cons refl (insert_by_size-perm x ys)) (swap refl refl))
  | inr e ↦ rw e (permutation (x ∷ y ∷ ys))
]

pub sort_by_size-perm : (xs : List Digest) → Permᴰ (sort_by_size xs) xs
unfolding sort_by_size
sort_by_size-perm [] = nil
sort_by_size-perm (x ∷ xs) =
    trans (insert_by_size-perm x (sort_by_size xs)) (cons refl (sort_by_size-perm xs))

All-get_elem? :
    (P : Digest → Type 0) (xs : List Digest) (i : ℕ) (a : Digest)
    → All P xs
    → get_elem? xs i ≡ some a
    → P a
All-get_elem? P [] i a h e = absurd cc
All-get_elem? P (x ∷ xs) zero a h e = let q : x ≡ a = cc in rw⁻¹ q h.0
All-get_elem? P (x ∷ xs) (suc i) a h e = All-get_elem? P xs i a h.1 e

pub get_elem?-IsSorted :
    (xs : List Digest) (i j : ℕ) (a b : Digest)
    → IsSorted xs
    → i ≤ j
    → get_elem? xs i ≡ some a
    → get_elem? xs j ≡ some b
    → a.size_bytes ≤ b.size_bytes
unfolding IsSorted
get_elem?-IsSorted [] i j a b h le e f = absurd cc
get_elem?-IsSorted (x ∷ xs) zero zero a b h le e f = let q : a ≡ b = cc in rw q (omega arith)
get_elem?-IsSorted (x ∷ xs) zero (suc j) a b h le e f =
    let q : x ≡ a = cc in rw⁻¹ q (All-get_elem? (λ y. x.size_bytes ≤ y.size_bytes) xs j b h.0 f)
get_elem?-IsSorted (x ∷ xs) (suc i) zero a b h le e f = absurd (omega arith)
get_elem?-IsSorted (x ∷ xs) (suc i) (suc j) a b h le e f =
    get_elem?-IsSorted xs i j a b h.1 (omega arith) e f

-- The index is the first one where the test is true.
abbrev pub Finds : (ℕ → Bool) → ℕ → Type 0
Finds f k = ((m : ℕ) → m < k → f m ≡ false) × ((m : ℕ) → k ≤ m → f m ≡ true)

search-stop : (fuel : ℕ) (f : ℕ → Bool) (i j : ℕ) → ltb i j ≡ false → search (suc fuel) f i j ≡ i
unfolding search
search-stop fuel f i j e = rw (search, e) refl

search-left :
    (fuel : ℕ) (f : ℕ → Bool) (i j : ℕ)
    → ltb i j ≡ true
    → f ((i + j) / 2) ≡ true
    → search (suc fuel) f i j ≡ search fuel f i ((i + j) / 2)
unfolding search
search-left fuel f i j e t = rw (search, e, t) refl

search-right :
    (fuel : ℕ) (f : ℕ → Bool) (i j : ℕ)
    → ltb i j ≡ true
    → f ((i + j) / 2) ≡ false
    → search (suc fuel) f i j ≡ search fuel f ((i + j) / 2 + 1) j
unfolding search
search-right fuel f i j e t = rw (search, e, t) refl

pub search-Finds :
    (fuel : ℕ) (f : ℕ → Bool) (i j : ℕ)
    → ((m n : ℕ) → m ≤ n → f m ≡ true → f n ≡ true)
    → ((m : ℕ) → m < i → f m ≡ false)
    → ((m : ℕ) → j ≤ m → f m ≡ true)
    → j ≤ i + fuel
    → Finds f (search fuel f i j)
unfolding search
search-Finds zero f i j mono below above h = (below, λ m k. above m (omega arith))
search-Finds (suc fuel) f i j mono below above h = elim (Bool-cases (ltb i j)) [
  | inr e ↦ rw (search-stop fuel f i j e) (below, λ m k. above m (ground arith))
  | inl e ↦ elim (Bool-cases (f ((i + j) / 2))) [
    | inl t ↦ rw (search-left fuel f i j e t) (
        search-Finds fuel f i ((i + j) / 2) mono below (λ m k. mono ((i + j) / 2) m k t)
          (ground arith))
    | inr t ↦
        let small : (m : ℕ) → m < (i + j) / 2 + 1 → f m ≡ false = λ m k. elim (Bool-cases (f m)) [
          | inl g ↦ let c = mono m ((i + j) / 2) (omega arith) g in cc
          | inr g ↦ g
        ] in
        rw (search-right fuel f i j e t)
          (search-Finds fuel f ((i + j) / 2 + 1) j mono small above (ground arith))
  ]
]
