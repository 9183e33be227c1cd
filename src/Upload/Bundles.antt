-- ===== src/Upload/Bundles.antt =====
-- What is in the batches of an upload (`createBatchUpdateBlobsRequests` of reapi/cas.go).
use siso.Common.{
  ℕ, ◌+◌, ◌≤◌, ◌<◌, ◌≡◌, refl, ap, sym, ◌∙◌, ◌⊎◌, inl, inr, true, false, Bool-cases, List, [], ◌∷◌,
  ◌++◌, append_assoc, length, length-append, ◌==◌, All, arith,
}
use siso.Upload.Batches.{batch_blob_upload_limit, is_full, bundle, create_batches}

abbrev pub concat {ℓ} : {A : Type ℓ} → List (List A) → List A
concat [] = []
concat (xs ∷ xss) = xs ++ concat xss

module _ {ℓ} {A : Type ℓ} (entry_size : A → ℕ) (bare_size byte_limit : ℕ) where
  -- The size of the message of a batch.
  unfoldable pub batch_size : List A → ℕ
  batch_size [] = bare_size
  batch_size (req ∷ reqs) = entry_size req + batch_size reqs

  -- A request that fits the limit on its own.
  unfoldable pub Fits : A → Type 0
  Fits req = 0 < byte_limit → bare_size + entry_size req ≤ byte_limit

  -- A batch has requests, not too many of them, and is not too large.
  unfoldable pub IsBatch : List A → Type 0
  IsBatch batch =
      (0 < length batch)
      × (length batch ≤ batch_blob_upload_limit)
      × (0 < byte_limit → batch_size batch ≤ byte_limit)

  -- The next request would be one too many, or make the batch too large.
  unfoldable pub IsClosed : List A → List A → Type 0
  IsClosed batch [] = Unit
  IsClosed batch (next ∷ rest) =
      (length batch ≡ batch_blob_upload_limit) ⊎ (byte_limit < batch_size batch + entry_size next)

  -- No batch ends before it has to.
  unfoldable pub IsTight : List (List A) → Type 0
  IsTight [] = Unit
  IsTight (batch ∷ batches) = IsClosed batch (concat batches) × IsTight batches

  -- The batches are those of the requests.
  unfoldable pub IsBundled : List A → List (List A) → Type ℓ
  IsBundled reqs batches = (concat batches ≡ reqs) × All IsBatch batches × IsTight batches

  -- The state of the loop in front of the rest.
  unfoldable IsOpen : List A → List A → Type 0
  IsOpen batch [] = length batch ≡ 0
  IsOpen batch (req ∷ rest) =
      (length batch < batch_blob_upload_limit)
      × (0 < byte_limit → batch_size batch + entry_size req ≤ byte_limit)

  batch_size-snoc :
      (batch : List A) (req : A)
      → batch_size (batch ++ (req ∷ [])) ≡ batch_size batch + entry_size req
  unfolding batch_size
  batch_size-snoc [] req = omega arith
  batch_size-snoc (x ∷ xs) req = let e = batch_size-snoc xs req in omega arith

  fresh-IsOpen : (reqs : List A) → All Fits reqs → IsOpen [] reqs
  unfolding IsOpen Fits batch_size
  fresh-IsOpen [] h = refl
  fresh-IsOpen (req ∷ reqs) h = (omega arith, h.0)

  is_full-IsClosed :
      (batch rest : List A)
      → is_full entry_size bare_size byte_limit (length batch) (batch_size batch) rest ≡ true
      → IsClosed batch rest
  unfolding is_full IsClosed
  is_full-IsClosed batch [] h = tt
  is_full-IsClosed batch (next ∷ rest) h =
      elim (Bool-cases (length batch == batch_blob_upload_limit)) [
        | inl e ↦ inl (ground arith)
        | inr e ↦ inr (ground arith)
      ]

  is_full-IsOpen :
      (batch rest : List A)
      → length batch ≤ batch_blob_upload_limit
      → is_full entry_size bare_size byte_limit (length batch) (batch_size batch) rest ≡ false
      → IsOpen batch rest
  unfolding is_full IsOpen
  is_full-IsOpen batch [] k h = absurd cc
  is_full-IsOpen batch (next ∷ rest) k h = (ground arith, λ z. ground arith)

  -- What a round of the loop does, where `n` is the size with its request.
  bundle-full :
      (batch : List A) (req : A) (rest : List A) (n : ℕ)
      → n ≡ batch_size batch + entry_size req
      → is_full entry_size bare_size byte_limit (length (batch ++ (req ∷ []))) n rest ≡ true
      → bundle entry_size bare_size byte_limit batch (batch_size batch) (req ∷ rest)
        ≡ (batch ++ (req ∷ [])) ∷ bundle entry_size bare_size byte_limit [] bare_size rest
  unfolding bundle
  bundle-full batch req rest n e h = rw (bundle, sym e, h) refl

  bundle-more :
      (batch : List A) (req : A) (rest : List A) (n : ℕ)
      → n ≡ batch_size batch + entry_size req
      → is_full entry_size bare_size byte_limit (length (batch ++ (req ∷ []))) n rest ≡ false
      → bundle entry_size bare_size byte_limit batch (batch_size batch) (req ∷ rest)
        ≡ bundle entry_size bare_size byte_limit (batch ++ (req ∷ [])) n rest
  unfolding bundle
  bundle-more batch req rest n e h =
      rw (bundle, sym e, h)
        (ap (λ m. bundle entry_size bare_size byte_limit (batch ++ (req ∷ [])) m rest) (sym e))

  bundle-IsBundled :
      (rest batch : List A)
      → All Fits rest
      → IsOpen batch rest
      → IsBundled
          (batch ++ rest)
          (bundle entry_size bare_size byte_limit batch (batch_size batch) rest)
  unfolding bundle IsBundled IsOpen IsBatch IsTight batch_size
  bundle-IsBundled [] [] h o = (refl, tt, tt)
  bundle-IsBundled [] (x ∷ xs) h o = absurd (omega arith)
  bundle-IsBundled (req ∷ rest) batch h (few, fits) =
      let b = batch ++ (req ∷ []) in
      let e = batch_size-snoc batch req in
      let l : length b ≡ length batch + 1 = length-append batch (req ∷ []) in
      let a : b ++ rest ≡ batch ++ (req ∷ rest) = append_assoc batch (req ∷ []) rest in
      elim (Bool-cases (is_full entry_size bare_size byte_limit (length b) (batch_size b) rest)) [
        | inl full ↦
            let (c, i, t) = bundle-IsBundled rest [] h.1 (fresh-IsOpen rest h.1) in
            let small : 0 < byte_limit → batch_size b ≤ byte_limit =
              λ z. let f = fits z in omega arith in
            let closed : IsClosed b
                (concat (bundle entry_size bare_size byte_limit [] bare_size rest)) =
              rw c (is_full-IsClosed b rest full) in
            rw (bundle-full batch req rest (batch_size b) e full)
              (ap (λ z. b ++ z) c ∙ a, ((omega arith, omega arith, small), i), (closed, t))
        | inr partial ↦
            let (c, i, t) =
              bundle-IsBundled rest b h.1 (is_full-IsOpen b rest (omega arith) partial) in
            rw (bundle-more batch req rest (batch_size b) e partial) (c ∙ a, i, t)
      ]

-- The requests of an upload are put into batches in their order, and none is lost: each batch has at least one
-- request and at most 1000, and its message is not larger than the limit, where the limit is not 0 and
-- each request fits it on its own; and a batch ends only where the next request would be one too many or make
-- the message larger than the limit.
pub create_batches-IsBundled {ℓ} :
    {A : Type ℓ} (entry_size : A → ℕ) (bare_size byte_limit : ℕ) (reqs : List A)
    → All (Fits entry_size bare_size byte_limit) reqs
    → IsBundled entry_size bare_size byte_limit reqs
        (create_batches entry_size bare_size byte_limit reqs)
unfolding create_batches batch_size
create_batches-IsBundled entry_size bare_size byte_limit reqs h =
    bundle-IsBundled entry_size bare_size byte_limit reqs [] h
      (fresh-IsOpen entry_size bare_size byte_limit reqs h)
