-- ===== src/Manifest/Shards.antt =====
-- The buckets of `shardBindings` in toolsupport/ninjautil/binding.go.
use siso.Common.{
  ℕ, zero, suc, ◌+◌, ◌*◌, ◌/◌, ◌^◌, ◌≤◌, ◌<◌, ◌≡◌, inl, inr, refl, sym, ◌∙◌, ap, false, List, [],
  ◌∷◌, ◌++◌, append_assoc, append-nil, Option, some, Bytes, bytes_eq, bytes_eq_iff, ltb, lt→ltb,
  ◌==◌, if◌then◌else◌, length, get_elem?, replicate, length-replicate, Bool-cases, arith,
}
use native.Mathlib.Nat.{pow-suc, div-lt_iff_lt-mul}
use siso.Manifest.Bindings.{
  EvalString, Binding, is_late, is_older, lookup_list, bucket_count, new_shards, bucket, get,
  append_at, set_binding, set_bindings,
}

skip_unequal :
    (pos : Option ℕ) (key : Bytes) (b : Binding) (ret : Option EvalString)
    → bytes_eq key (b.name) ≡ false
    → ret ≡ (
        if is_late pos (b.value)
        then ret
        else if is_older ret (b.value)
        then ret
        else if bytes_eq key (b.name)
        then some (b.value)
        else ret)
skip_unequal pos key b ret h = rw h (elim (Bool-cases (is_late pos (b.value))) [
  | inl e ↦ rw e refl
  | inr e ↦
      rw e (elim (Bool-cases (is_older ret (b.value))) [ inl f ↦ rw f refl | inr f ↦ rw f refl ])
])

length-append_at :
    (i : ℕ) (b : Binding) (ms : List (List Binding)) → length (append_at i b ms) ≡ length ms
unfolding append_at
length-append_at i b [] = refl
length-append_at zero b (m ∷ ms) = refl
length-append_at (suc i) b (m ∷ ms) = ap suc (length-append_at i b ms)

append_at_same :
    (i : ℕ) (b : Binding) (ms : List (List Binding)) (m : List Binding)
    → get_elem? ms i ≡ some m
    → get_elem? (append_at i b ms) i ≡ some (m ++ (b ∷ []))
unfolding append_at
append_at_same i b [] m h = cc
append_at_same zero b (x ∷ ms) m h = cc
append_at_same (suc i) b (x ∷ ms) m h = append_at_same i b ms m h

append_at_ne :
    (k : ℕ) (b : Binding) (ms : List (List Binding)) (i : ℕ)
    → (k == i) ≡ false
    → get_elem? (append_at k b ms) i ≡ get_elem? ms i
unfolding append_at
append_at_ne k b [] i h = refl
append_at_ne zero b (x ∷ ms) zero h = cc
append_at_ne zero b (x ∷ ms) (suc i) h = refl
append_at_ne (suc k) b (x ∷ ms) zero h = refl
append_at_ne (suc k) b (x ∷ ms) (suc i) h = append_at_ne k b ms i (ground arith)

get-replicate {ℓ} :
    {A : Type ℓ} (n : ℕ) (a : A) (i : ℕ) → i < n → get_elem? (replicate n a) i ≡ some a
get-replicate zero a i h = absurd (omega arith)
get-replicate (suc n) a zero h = refl
get-replicate (suc n) a (suc i) h = get-replicate n a i (omega arith)

get-eq {ℓ} :
    {A : Type ℓ} (xs : List A) (i j : ℕ) (a : A)
    → i ≡ j
    → get_elem? xs j ≡ some a
    → get_elem? xs i ≡ some a
get-eq xs i j a e h = rw e h

module _ (hash : Bytes → ℕ) where
  bucket_lt : (size : ℕ) (key : Bytes) → 0 < size → bucket hash size key < size
  unfolding bucket
  bucket_lt zero key h = absurd (omega arith)
  bucket_lt (suc zero) key h = omega arith
  bucket_lt (suc (suc n)) key h = omega arith

  -- The bindings that belong in the bucket.
  unfoldable pick : ℕ → ℕ → List Binding → List Binding
  pick size i [] = []
  pick size i (b ∷ bs) =
      if bucket hash size (b.name) == i then b ∷ pick size i bs else pick size i bs

  bucket_ne :
      (size : ℕ) (key name : Bytes)
      → (bucket hash size name == bucket hash size key) ≡ false
      → bytes_eq key name ≡ false
  bucket_ne size key name h = elim (Bool-cases (bytes_eq key name)) [
    | inl e ↦
        let q : key ≡ name = (bytes_eq_iff key name).0 e in
        let r : bucket hash size name ≡ bucket hash size key = rw q refl in absurd (ground arith)
    | inr e ↦ e
  ]

  lookup_list-pick :
      (size : ℕ) (pos : Option ℕ) (key : Bytes) (bs : List Binding)
      → lookup_list pos key (pick size (bucket hash size key) bs) ≡ lookup_list pos key bs
  unfolding pick lookup_list
  lookup_list-pick size pos key [] = refl
  lookup_list-pick size pos key (b ∷ bs) =
      let ih = lookup_list-pick size pos key bs in
      elim (Bool-cases (bucket hash size (b.name) == bucket hash size key)) [
        | inl e ↦ rw (e, ih) refl
        | inr e ↦
            rw e
              (ih ∙ skip_unequal pos key b (lookup_list pos key bs) (bucket_ne size key (b.name) e))
      ]

  length-set_binding :
      (b : Binding) (shards : List (List Binding))
      → length (set_binding hash b shards) ≡ length shards
  unfolding set_binding
  length-set_binding b shards = length-append_at (bucket hash (length shards) (b.name)) b shards

  bucket-set_bindings :
      (n : ℕ) (bs : List Binding) (shards : List (List Binding)) (i : ℕ) (m : List Binding)
      → length shards ≡ n
      → get_elem? shards i ≡ some m
      → get_elem? (set_bindings hash bs shards) i ≡ some (m ++ pick n i bs)
  unfolding set_bindings pick set_binding
  bucket-set_bindings n [] shards i m l h = rw (append-nil m) h
  bucket-set_bindings n (b ∷ bs) shards i m l h =
      let k = bucket hash n (b.name) in
      let l' = length-append_at k b shards ∙ l in
      rw l (elim (Bool-cases (k == i)) [
        | inl e ↦
            let q : get_elem? (append_at k b shards) k ≡ some (m ++ (b ∷ [])) =
              append_at_same k b shards m (get-eq shards k i m (ground arith) h) in
            rw e (
              bucket-set_bindings n bs (append_at k b shards) i (m ++ (b ∷ [])) l'
                (get-eq _ i k _ (ground arith) q)
              ∙ ap some (append_assoc m (b ∷ []) (pick n i bs)))
        | inr e ↦ rw e (
            bucket-set_bindings n bs (append_at k b shards) i m l'
              (append_at_ne k b shards i e ∙ h))
      ])

  length-set_bindings :
      (bs : List Binding) (shards : List (List Binding))
      → length (set_bindings hash bs shards) ≡ length shards
  unfolding set_bindings
  length-set_bindings [] shards = refl
  length-set_bindings (b ∷ bs) shards =
      length-set_bindings bs (set_binding hash b shards) ∙ length-set_binding b shards

  get-bucket :
      (size : ℕ) (pos : Option ℕ) (key : Bytes) (shards : List (List Binding)) (m : List Binding)
      → length shards ≡ size
      → get_elem? shards (bucket hash size key) ≡ some m
      → get hash pos key shards ≡ lookup_list pos key m
  unfolding get
  get-bucket size pos key shards m l h = rw (get, l, h) refl

  -- A lookup in the buckets, whatever their number and the hash, is a lookup in the list of all bindings that
  -- were set, in the order in which they were set.
  pub get-set_bindings :
      (size : ℕ) (pos : Option ℕ) (key : Bytes) (bs : List Binding)
      → 0 < size
      → get hash pos key (set_bindings hash bs (new_shards size)) ≡ lookup_list pos key bs
  get-set_bindings size pos key bs h =
      let none_set = new_shards size in
      let l : length none_set ≡ size = length-replicate size [] in
      let i = bucket hash size key in
      let e =
        bucket-set_bindings size bs none_set i [] l
          (get-replicate size [] i (bucket_lt size key h)) in
      get-bucket size pos key (set_bindings hash bs none_set) _
        (length-set_bindings bs none_set ∙ l) e
      ∙ lookup_list-pick size pos key bs

double-pow : (size k : ℕ) → size ≡ 2 ^ k → size * 2 ≡ 2 ^ (k + 1)
double-pow size k e = let q : k + 1 ≡ suc k = omega arith in rw (q, e) (sym (pow-suc 2 k))

bucket_count_from :
    (fuel size k n : ℕ)
    → 0 < size
    → size ≡ 2 ^ k
    → n ≤ size + fuel
    → (r : ℕ) × (k' : ℕ) × ((bucket_count (suc fuel) size n ≡ some r) × (r ≡ 2 ^ k') × (n / r < 8))
unfolding bucket_count
bucket_count_from zero size k n p e h =
    let l : n / size < 8 = (div-lt_iff_lt-mul p).1 (omega arith) in
    (size, k, (rw (lt→ltb _ _ l) refl, e, l))
bucket_count_from (suc fuel) size k n p e h = elim (Bool-cases (ltb (n / size) 8)) [
  | inl f ↦ (size, k, (rw f refl, e, ground arith))
  | inr f ↦ rw f (
      bucket_count_from fuel (size * 2) (k + 1) n (omega arith) (double-pow size k e) (omega arith))
]

-- The loop that chooses the number of buckets ends, for any number of entries, with a power of two that leaves less than eight entries
-- for each bucket.
pub bucket_count-pow :
    (n : ℕ) → (r : ℕ) × (k : ℕ) × ((bucket_count (n + 1) 1 n ≡ some r) × (r ≡ 2 ^ k) × (n / r < 8))
bucket_count-pow n =
    let e : n + 1 ≡ suc n = omega arith in
    rw e (bucket_count_from n 1 0 n (omega arith) refl (omega arith))
