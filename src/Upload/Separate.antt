-- ===== src/Upload/Separate.antt =====
-- `upload` of reapi/cas.go, up to its calls of the server: `separateBlobs`, `lookupBlobsInStore` and the
-- batches. A blob's digest has its size; the size that a request has in a batch is a parameter, which is a
-- function of the size of its data, as all hashes are of one length.
use siso.Common.{
  ℕ, zero, suc, ◌+◌, ◌*◌, ◌/◌, Bool, true, false, ◌||◌, List, [], ◌∷◌, Option, none, some, Bytes,
  ltb, leb, if◌then◌else◌, length, take, drop, get_elem?,
}
use siso.Upload.Batches.{create_batches}

pub record Digest : Type 0 where
  pub hash : Bytes
  pub size_bytes : ℕ

pub record Request : Type 0 where
  pub digest : Digest
  pub contents : Bytes

-- `sort.Slice` by size.
unfoldable pub insert_by_size : Digest → List Digest → List Digest
insert_by_size x [] = x ∷ []
insert_by_size x (y ∷ ys) =
    let rest = insert_by_size x ys in
    if ltb (y.size_bytes) (x.size_bytes) then y ∷ rest else x ∷ y ∷ ys

unfoldable pub sort_by_size : List Digest → List Digest
sort_by_size [] = []
sort_by_size (x ∷ xs) = insert_by_size x (sort_by_size xs)

-- The loop of `sort.Search`; each round makes the range smaller.
unfoldable pub search : ℕ → (ℕ → Bool) → ℕ → ℕ → ℕ
search zero f i j = i
search (suc fuel) f i j = elim (ltb i j) [
  | false ↦ i
  | true ↦ elim (f ((i + j) / 2)) [
    | false ↦ search fuel f ((i + j) / 2 + 1) j
    | true ↦ search fuel f i ((i + j) / 2)
  ]
]

module _ (entry_size : ℕ → ℕ) (bare_size byte_limit : ℕ) where
  -- Whether a batch with the blob alone is too large.
  abbrev pub is_large : Digest → Bool
  is_large d =
      leb byte_limit (d.size_bytes) || leb byte_limit (bare_size + entry_size (d.size_bytes))

  -- The test of the search, on a sorted list.
  unfoldable pub large_at : List Digest → ℕ → Bool
  large_at blobs i = elim (get_elem? blobs i) [ none ↦ true | some d ↦ is_large d ]

  unfoldable pub split_index : List Digest → ℕ
  split_index blobs = search (length blobs) (large_at blobs) 0 (length blobs)

  -- The small and the large blobs.
  unfoldable pub separate_blobs : List Digest → List Digest × List Digest
  separate_blobs blobs =
      let sorted = sort_by_size blobs in
      (take (split_index sorted) sorted, drop (split_index sorted) sorted)

-- The requests, or `none` where a blob is not in the store or cannot be read.
unfoldable pub lookup_blobs : (Digest → Option Bytes) → List Digest → Option (List Request)
lookup_blobs read [] = some []
lookup_blobs read (d ∷ ds) = elim (read d) [
  | none ↦ none
  | some contents ↦ elim (lookup_blobs read ds) [
    | none ↦ none
    | some reqs ↦ some (record { digest = d; contents = contents } ∷ reqs)
  ]
]

-- `defaultBatchUpdateByteLimit`, or the server's limit.
abbrev pub batch_byte_limit : ℕ → ℕ
batch_byte_limit max_batch = if ltb 0 max_batch then max_batch else 4 * 1024 * 1024

-- The batches of `uploadWithBatchUpdateBlobs` and the blobs that are streamed.
unfoldable pub prepare_upload :
    (ℕ → ℕ)
    → ℕ
    → ℕ
    → (Digest → Option Bytes)
    → List Digest
    → Option (List (List Request) × List Digest)
prepare_upload entry_size bare_size max_batch read blobs =
    let limit = batch_byte_limit max_batch in
    let (smalls, larges) = separate_blobs entry_size bare_size limit blobs in
    elim (lookup_blobs read smalls) [
      | none ↦ none
      | some reqs ↦
          some (create_batches (λ r. entry_size (length (r.contents))) bare_size limit reqs, larges)
    ]
