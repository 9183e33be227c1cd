-- ===== src/Manifest/Bindings.antt =====
-- `binding.go`, `scope.go` and the bindings of `rule.go` in toolsupport/ninjautil. The hash of a name is
-- a parameter: it depends on a seed that is drawn for each run.
use siso.Common.{
  ℕ, zero, suc, ◌*◌, ◌/◌, ◌%◌, Bool, false, List, [], ◌∷◌, ◌++◌, Option, none, some, Bytes,
  bytes_eq, ltb, leb, if◌then◌else◌, length, get_elem?, replicate,
}

-- `v` is the text and `esc` the number of its escapes.
pub record EvalString : Type 0 where
  pub pos : ℕ
  pub v : Bytes
  pub esc : ℕ

pub record Binding : Type 0 where
  pub name : Bytes
  pub value : EvalString

-- Whether a value does not stand before the position; `none` is the code's negative position.
abbrev pub is_late : Option ℕ → EvalString → Bool
is_late none x = false
is_late (some pos) x = leb pos (x.pos)

-- Whether what is found already stands behind this value.
abbrev pub is_older : Option EvalString → EvalString → Bool
is_older none x = false
is_older (some ret) x = ltb (x.pos) (ret.pos)

-- The loop of `shardBindings.get` over a list, which is that of `rule.lookupVar` too: from the last binding
-- to the first.
unfoldable pub lookup_list : Option ℕ → Bytes → List Binding → Option EvalString
lookup_list pos key [] = none
lookup_list pos key (b ∷ bs) =
    let ret = lookup_list pos key bs in
    if is_late pos (b.value)
    then ret
    else if is_older ret (b.value)
    then ret
    else if bytes_eq key (b.name)
    then some (b.value)
    else ret

-- The loop of `shardBindings.init`, and of `newRuleMap`: the number of buckets for `n` entries.
unfoldable pub bucket_count : ℕ → ℕ → ℕ → Option ℕ
bucket_count zero size n = none
bucket_count (suc fuel) size n =
    let rest = bucket_count fuel (size * 2) n in if ltb (n / size) 8 then some size else rest

-- `newShardBindings`, where the loop has found this size.
abbrev pub new_shards : ℕ → List (List Binding)
new_shards size = replicate size []

-- A binding is put at the end of a bucket.
unfoldable pub append_at : ℕ → Binding → List (List Binding) → List (List Binding)
append_at i b [] = []
append_at zero b (m ∷ ms) = (m ++ (b ∷ [])) ∷ ms
append_at (suc i) b (m ∷ ms) = m ∷ append_at i b ms

module _ (hash : Bytes → ℕ) where
  -- The bucket of a name. The number of buckets is a power of two, so the code's `&` with the number below
  -- it is the remainder.
  unfoldable pub bucket : ℕ → Bytes → ℕ
  bucket (suc zero) key = 0
  bucket size key = hash key % size

  -- `shardBindings.get`
  unfoldable pub get : Option ℕ → Bytes → List (List Binding) → Option EvalString
  get pos key shards = elim (get_elem? shards (bucket (length shards) key)) [
    | none ↦ none
    | some m ↦ lookup_list pos key m
  ]

  -- `shardBindings.set`
  unfoldable pub set_binding : Binding → List (List Binding) → List (List Binding)
  set_binding b shards = append_at (bucket (length shards) (b.name)) b shards

  unfoldable pub set_bindings : List Binding → List (List Binding) → List (List Binding)
  set_bindings [] shards = shards
  set_bindings (b ∷ bs) shards = set_bindings bs (set_binding b shards)
