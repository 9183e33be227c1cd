-- ===== src/Upload/Sending.antt =====
-- What `upload` of reapi/cas.go puts into batches and what it streams.
use siso.Common.{
  ℕ, zero, suc, ◌+◌, ◌≤◌, ◌<◌, ◌≡◌, refl, ap, sym, ◌∙◌, true, false, List, [], ◌∷◌, ◌++◌, map,
  Option, none, some, Bytes, length, take, drop, get_elem?, get_elem?-lt, Option-cases, inl, inr,
  All, arith,
}
use mathlib.Core.List.{Permᴰ}
use siso.Upload.Batches.{create_batches}
use siso.Upload.Separate.{
  Digest, Request, sort_by_size, is_large, large_at, split_index, separate_blobs, lookup_blobs,
  batch_byte_limit, prepare_upload,
}
use siso.Upload.Sorting.{
  IsSorted, All-sort_by_size, sort_by_size-IsSorted, sort_by_size-perm, get_elem?-IsSorted, Finds,
  search-Finds,
}
use siso.Upload.Bundles.{Fits, IsBundled, create_batches-IsBundled}

All-take : (P : Digest → Type 0) (n : ℕ) (xs : List Digest) → All P xs → All P (take n xs)
All-take P zero xs h = tt
All-take P (suc n) [] h = tt
All-take P (suc n) (x ∷ xs) h = (h.0, All-take P n xs h.1)

take-drop : (n : ℕ) (xs : List Digest) → take n xs ++ drop n xs ≡ xs
take-drop zero xs = refl
take-drop (suc n) [] = refl
take-drop (suc n) (x ∷ xs) = ap (λ t. x ∷ t) (take-drop n xs)

get_elem?-none : (xs : List Digest) (i : ℕ) → get_elem? xs i ≡ none → length xs ≤ i
get_elem?-none [] i h = omega arith
get_elem?-none (x ∷ xs) zero h = absurd cc
get_elem?-none (x ∷ xs) (suc i) h = let k = get_elem?-none xs i h in omega arith

-- The blob can be read, and has the size that its digest says.
unfoldable pub IsStored : (Digest → Option Bytes) → Digest → Type 0
IsStored read d = (contents : Bytes) × (read d ≡ some contents) × (length contents ≡ d.size_bytes)

-- The request has the contents of its blob.
unfoldable pub IsRead : (Digest → Option Bytes) → Request → Type 0
IsRead read r = (read (r.digest) ≡ some (r.contents)) × (length (r.contents) ≡ r.digest.size_bytes)

lookup_blobs-IsRead :
    (read : Digest → Option Bytes) (blobs : List Digest)
    → All (IsStored read) blobs
    → (reqs : List Request) × (lookup_blobs read blobs ≡ some reqs)
      × (map (λ r. r.digest) reqs ≡ blobs)
      × All (IsRead read) reqs
unfolding lookup_blobs IsRead IsStored
lookup_blobs-IsRead read [] h = ([], refl, refl, tt)
lookup_blobs-IsRead read (d ∷ ds) ((contents, e, l), h) =
    let (reqs, f, g, i) = lookup_blobs-IsRead read ds h in
    (
      record { digest = d; contents = contents } ∷ reqs,
      rw (lookup_blobs, e, f) refl,
      ap (λ t. d ∷ t) g,
      ((e, l), i),
    )

module _ (entry_size : ℕ → ℕ) (bare_size byte_limit : ℕ) where
  abbrev IsSmall : Digest → Type 0
  IsSmall d = is_large entry_size bare_size byte_limit d ≡ false

  abbrev pub IsLarge : Digest → Type 0
  IsLarge d = is_large entry_size bare_size byte_limit d ≡ true

  take-IsSmall :
      (n : ℕ) (xs : List Digest)
      → ((m : ℕ) → m < n → large_at entry_size bare_size byte_limit xs m ≡ false)
      → All IsSmall (take n xs)
  unfolding large_at
  take-IsSmall zero xs h = tt
  take-IsSmall (suc n) [] h = tt
  take-IsSmall (suc n) (x ∷ xs) h =
      (h 0 (omega arith), take-IsSmall n xs (λ m k. h (suc m) (omega arith)))

  drop-IsLarge :
      (n : ℕ) (xs : List Digest)
      → ((m : ℕ) → n ≤ m → large_at entry_size bare_size byte_limit xs m ≡ true)
      → All IsLarge (drop n xs)
  unfolding large_at
  drop-IsLarge zero [] h = tt
  drop-IsLarge zero (x ∷ xs) h =
      (h 0 (omega arith), drop-IsLarge zero xs (λ m k. h (suc m) (omega arith)))
  drop-IsLarge (suc n) [] h = tt
  drop-IsLarge (suc n) (x ∷ xs) h = drop-IsLarge n xs (λ m k. h (suc m) (omega arith))

  -- A blob that is not smaller than a large one is large.
  IsLarge-mono :
      ((m n : ℕ) → m ≤ n → entry_size m ≤ entry_size n)
      → (a b : Digest) → a.size_bytes ≤ b.size_bytes
      → IsLarge a
      → IsLarge b
  IsLarge-mono mono a b le h = let k = mono (a.size_bytes) (b.size_bytes) le in ground arith

  large_at_end :
      (xs : List Digest) (m : ℕ)
      → length xs ≤ m
      → large_at entry_size bare_size byte_limit xs m ≡ true
  unfolding large_at
  large_at_end [] m h = refl
  large_at_end (x ∷ xs) zero h = absurd (omega arith)
  large_at_end (x ∷ xs) (suc m) h = large_at_end xs m (omega arith)

  large_at_mono :
      ((m n : ℕ) → m ≤ n → entry_size m ≤ entry_size n)
      → (xs : List Digest) → IsSorted xs
      → (m n : ℕ) → m ≤ n
      → large_at entry_size bare_size byte_limit xs m ≡ true
      → large_at entry_size bare_size byte_limit xs n ≡ true
  unfolding large_at
  large_at_mono mono xs s m n le h = elim (Option-cases (get_elem? xs n)) [
    | inl e ↦ rw (large_at, e) refl
    | inr (b, f) ↦ elim (Option-cases (get_elem? xs m)) [
      | inl e ↦
          let x = get_elem?-none xs m e in let y = get_elem?-lt xs n b f in absurd (omega arith)
      | inr (a, e) ↦
          let q : large_at entry_size bare_size byte_limit xs m
              ≡ is_large entry_size bare_size byte_limit a =
            rw (large_at, e) refl in
          rw (large_at, f)
            (IsLarge-mono mono a b (get_elem?-IsSorted xs m n a b s le e f) (sym q ∙ h))
    ]
  ]

  split_index-Finds :
      ((m n : ℕ) → m ≤ n → entry_size m ≤ entry_size n)
      → (xs : List Digest) → IsSorted xs
      → Finds
          (large_at entry_size bare_size byte_limit xs)
          (split_index entry_size bare_size byte_limit xs)
  unfolding split_index
  split_index-Finds mono xs s =
      search-Finds (length xs) (large_at entry_size bare_size byte_limit xs) 0 (length xs)
        (large_at_mono mono xs s) (λ m k. absurd (omega arith)) (large_at_end xs) (omega arith)

  -- Requests for small blobs fit the limit.
  IsSmall-Fits :
      (read : Digest → Option Bytes) (reqs : List Request)
      → All (IsRead read) reqs
      → All IsSmall (map (λ r. r.digest) reqs)
      → All (Fits (λ r. entry_size (length (r.contents))) bare_size byte_limit) reqs
  unfolding IsRead Fits
  IsSmall-Fits read [] h k = tt
  IsSmall-Fits read (r ∷ reqs) h k =
      let l = h.0.1 in
      let le : bare_size + entry_size (r.digest.size_bytes) ≤ byte_limit = ground arith in
      (λ z. rw l le, IsSmall-Fits read reqs h.1 k.1)

  -- The small blobs and the large ones are the blobs.
  separate_blobs-perm :
      (blobs : List Digest)
      → Permᴰ
          ((separate_blobs entry_size bare_size byte_limit blobs).0
            ++ (separate_blobs entry_size bare_size byte_limit blobs).1)
          blobs
  unfolding separate_blobs
  separate_blobs-perm blobs =
      let sorted = sort_by_size blobs in
      rw (take-drop (split_index entry_size bare_size byte_limit sorted) sorted)
        (sort_by_size-perm blobs)

-- When every blob can be read and has the size that its digest says, and a request for a larger blob is not
-- smaller, an upload sends every blob once. The large blobs, which are streamed, are those whose request alone
-- reaches the limit of bytes. Each of the others has a request with its contents; the requests are put into
-- batches in their order, each with at least one request and at most 1000 and with a message that is not larger
-- than the limit, and a batch ends only where the next request would be one too many or make it too large.
pub prepare_upload-IsBundled :
    (entry_size : ℕ → ℕ) (bare_size max_batch : ℕ) (read : Digest → Option Bytes)
    (blobs : List Digest)
    → ((m n : ℕ) → m ≤ n → entry_size m ≤ entry_size n)
    → All (IsStored read) blobs
    → (reqs : List Request) × (batches : List (List Request)) × (larges : List Digest)
      × (prepare_upload entry_size bare_size max_batch read blobs ≡ some (batches, larges))
      × IsBundled
          (λ r. entry_size (length (r.contents)))
          bare_size
          (batch_byte_limit max_batch)
          reqs
          batches
      × Permᴰ (map (λ r. r.digest) reqs ++ larges) blobs
      × All (IsRead read) reqs
      × All
          (λ d. is_large entry_size bare_size (batch_byte_limit max_batch) d ≡ false)
          (map (λ r. r.digest) reqs)
      × All (λ d. is_large entry_size bare_size (batch_byte_limit max_batch) d ≡ true) larges
unfolding prepare_upload separate_blobs
prepare_upload-IsBundled entry_size bare_size max_batch read blobs mono stored =
    let limit = batch_byte_limit max_batch in
    let sorted = sort_by_size blobs in
    let k = split_index entry_size bare_size limit sorted in
    let (below, above) =
      split_index-Finds entry_size bare_size limit mono sorted (sort_by_size-IsSorted blobs) in
    let small = take-IsSmall entry_size bare_size limit k sorted below in
    let large = drop-IsLarge entry_size bare_size limit k sorted above in
    let (reqs, e, d, r) =
      lookup_blobs-IsRead read (take k sorted)
        (All-take (IsStored read) k sorted (All-sort_by_size (IsStored read) blobs stored)) in
    let few : All (IsSmall entry_size bare_size limit) (map (λ r. r.digest) reqs) = rw d small in
    let fits = IsSmall-Fits entry_size bare_size limit read reqs r few in
    let entry : Request → ℕ = λ r. entry_size (length (r.contents)) in
    (
      reqs,
      create_batches entry bare_size limit reqs,
      drop k sorted,
      rw (prepare_upload, e) refl,
      create_batches-IsBundled entry bare_size limit reqs fits,
      rw d (separate_blobs-perm entry_size bare_size limit blobs),
      r,
      few,
      large,
    )
