-- ===== src/Upload/Samples.antt =====
-- An upload of three blobs under a limit of 200 bytes.
use siso.Common.{
  ℕ, ◌+◌, ◌≤◌, ◌≡◌, refl, true, false, List, [], ◌∷◌, ◌++◌, map, Option, some, Bytes, codes, length,
  replicate, All, arith,
}
use mathlib.Core.List.{Permᴰ}
use siso.Upload.Separate.{Digest, Request, is_large, prepare_upload}
use siso.Upload.Bundles.{IsBundled}
use siso.Upload.Sending.{IsStored, IsRead, prepare_upload-IsBundled}

abbrev entry_size : ℕ → ℕ
entry_size n = n + 76

abbrev read : Digest → Option Bytes
read d = some (replicate (d.size_bytes) b'x')

abbrev blobs : List Digest
blobs =
    record { hash = codes "a"; size_bytes = 20 }
    ∷ record { hash = codes "b"; size_bytes = 150 }
    ∷ record { hash = codes "c"; size_bytes = 2 }
    ∷ []

blobs-IsStored : All (IsStored read) blobs
unfolding IsStored
blobs-IsStored = (
  (replicate 20 b'x', refl, refl),
  ((replicate 150 b'x', refl, refl), ((replicate 2 b'x', refl, refl), tt)),
)

entry_size_mono : (m n : ℕ) → m ≤ n → entry_size m ≤ entry_size n
entry_size_mono m n h = omega arith

prepare_upload-IsBundled_example :
    (reqs : List Request) × (batches : List (List Request)) × (larges : List Digest)
    × (prepare_upload entry_size 10 200 read blobs ≡ some (batches, larges))
    × IsBundled (λ r. entry_size (length (r.contents))) 10 200 reqs batches
    × Permᴰ (map (λ r. r.digest) reqs ++ larges) blobs
    × All (IsRead read) reqs
    × All (λ d. is_large entry_size 10 200 d ≡ false) (map (λ r. r.digest) reqs)
    × All (λ d. is_large entry_size 10 200 d ≡ true) larges
prepare_upload-IsBundled_example =
    prepare_upload-IsBundled entry_size 10 200 read blobs entry_size_mono blobs-IsStored
