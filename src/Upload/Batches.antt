-- ===== src/Upload/Batches.antt =====
-- `createBatchUpdateBlobsRequests` of reapi/cas.go. A batch is the list of its requests. The size that a
-- request has in the message of its batch (`entry_size`), and that of a batch without requests, are parameters:
-- `proto.Size` adds the sizes of a message's fields.
use siso.Common.{ℕ, ◌+◌, Bool, true, false, ◌&&◌, ◌||◌, List, [], ◌∷◌, ◌++◌, ◌==◌, ltb, length}

-- `batchBlobUploadLimit`
abbrev pub batch_blob_upload_limit : ℕ
batch_blob_upload_limit = 1000

module _ {ℓ} {A : Type ℓ} (entry_size : A → ℕ) (bare_size byte_limit : ℕ) where
  -- Whether the batch ends in front of the rest, when it has `count` requests.
  unfoldable pub is_full : ℕ → ℕ → List A → Bool
  is_full count size [] = true
  is_full count size (next ∷ rest) =
      (count == batch_blob_upload_limit)
      || (ltb 0 byte_limit && ltb byte_limit (size + entry_size next))

  -- The loop: `batch` has the requests from the last offset on.
  unfoldable pub bundle : List A → ℕ → List A → List (List A)
  bundle batch size [] = []
  bundle batch size (req ∷ rest) =
      elim (is_full (length (batch ++ (req ∷ []))) (size + entry_size req) rest) [
        | true ↦ (batch ++ (req ∷ [])) ∷ bundle [] bare_size rest
        | false ↦ bundle (batch ++ (req ∷ [])) (size + entry_size req) rest
      ]

  unfoldable pub create_batches : List A → List (List A)
  create_batches reqs = bundle [] bare_size reqs
