-- ===== src/DepsLog/Rounds.antt =====
-- One round of the reader on each kind of record that the writer makes.
use siso.Common.{
  ℕ, suc, ◌+◌, ◌-◌, ◌*◌, ◌/◌, ◌%◌, ◌^◌, ◌≤◌, ◌<◌, ◌≡◌, refl, ap, ◌∙◌, true, false, List, [], ◌∷◌,
  ◌++◌, some, Bytes, leb, ◌==◌, Option-cases, inl, inr, length, map, length-append, All, arith,
}
use mathlib.Core.Path.{ap₂}
use siso.Common.Words.{word, sign_bit, put_word, length-put_word}
use siso.DepsLog.State.{update}
use siso.DepsLog.Reader.{
  max_record_size, words, resolve, from_words, read_deps_record, ReadState, next, count_update,
  use_deps, parsed, add_path, use_path, read_step,
}
use siso.DepsLog.Writer.{padding, path_record, put_words, as_int32, deps_record}
use siso.DepsLog.Codec.{
  IsStorable, path_body, length-path_body, read_step-framed, read_path_record-path_body,
}

words-put_word : (n : ℕ) (rest : Bytes) → n < word → words (put_word n ++ rest) ≡ n ∷ words rest
unfolding words put_word
words-put_word n rest lt =
    let e : n % 256
          + 256 * (n / 256 % 256)
          + 65536 * (n / 65536 % 256)
          + 16777216 * (n / 16777216 % 256)
        ≡ n =
      omega arith in
    rw e

words-put_words : (ns : List ℕ) → All (λ n. n < word) ns → words (put_words ns) ≡ ns
unfolding put_words
words-put_words [] h = unfold words in refl
words-put_words (n ∷ ns) h =
    words-put_word n (put_words ns) h.0 ∙ ap (λ t. n ∷ t) (words-put_words ns h.1)

length-put_words : (ns : List ℕ) → length (put_words ns) ≡ 4 * length ns
unfolding put_words
length-put_words [] = omega arith
length-put_words (n ∷ ns) =
    omega (arith, length-append (put_word n) (put_words ns), length-put_word n, length-put_words ns)

as_int32_bounded : (ns : List ℕ) → All (λ n. n < word) (map as_int32 ns)
as_int32_bounded [] = tt
as_int32_bounded (n ∷ ns) = (omega arith, as_int32_bounded ns)

-- Path ids that resolve are not negative, so writing them as int32 changes nothing.
resolve-tail :
    (id : ℕ) (ids : List ℕ) (paths deps : List Bytes)
    → resolve (id ∷ ids) paths ≡ some deps
    → (id < sign_bit) × ((ps : List Bytes) × (resolve ids paths ≡ some ps))
unfolding resolve
resolve-tail id ids paths deps h = elim (Option-cases (resolve ids paths)) [
  | inl e ↦ ground arith
  | inr (ps, e) ↦ (ground arith, (ps, e))
]

resolve-as_int32 :
    (ids : List ℕ) (paths deps : List Bytes)
    → resolve ids paths ≡ some deps
    → map as_int32 ids ≡ ids
resolve-as_int32 [] paths deps h = refl
resolve-as_int32 (id ∷ ids) paths deps h =
    let (lt, (ps, e)) = resolve-tail id ids paths deps h in
    ap₂ (λ a b. a ∷ b) (omega arith) (resolve-as_int32 ids paths ps e)

length-map {ℓ κ} :
    {A : Type ℓ} {B : Type κ} (xs : List A) (f : A → B) → length (map f xs) ≡ length xs
length-map [] f = refl
length-map (x ∷ xs) f = ap suc (length-map xs f)

-- A path record adds its path.
pub read_step-path_record :
    (p more : Bytes) (st : ReadState)
    → IsStorable p
    → length st.log.paths < sign_bit
    → read_step (path_record (length st.log.paths) p ++ more) st
      ≡ next more (record st { log = add_path p st.log })
unfolding path_record use_path
read_step-path_record p more st s lt =
    let n = length st.log.paths in
    let h = length p + padding (length p) + 4 in
    let len = length-path_body n p in
    let small : h ≤ max_record_size = s.fits in
    let plain : leb sign_bit h ≡ false = ground arith in
    read_step-framed h (path_body n p) more st (omega arith) (omega (arith, len))
      (omega (arith, len)) (omega (arith, len))
    ∙ rw (plain, read_path_record-path_body n p s lt) refl

-- The same, where the writer's count of paths is the reader's.
pub read_step-path_at :
    (n : ℕ) (p more : Bytes) (st : ReadState)
    → length st.log.paths ≡ n
    → IsStorable p
    → n < sign_bit
    → read_step (path_record n p ++ more) st ≡ next more (record st { log = add_path p st.log })
read_step-path_at n p more st e s lt = rw (← e) (read_step-path_record p more st s (omega arith))

abbrev deps_body : ℕ → ℕ → List ℕ → Bytes
deps_body i mtime ids =
    put_words (as_int32 i ∷ mtime % word ∷ as_int32 (mtime / word) ∷ map as_int32 ids)

read_deps_record-deps_body :
    (i mtime : ℕ) (ids : List ℕ) (paths deps : List Bytes)
    → i < sign_bit
    → mtime < 2 ^ 64
    → resolve ids paths ≡ some deps
    → read_deps_record (deps_body i mtime ids) paths
      ≡ parsed i (record { mtime = mtime; inputs = deps })
unfolding read_deps_record from_words
read_deps_record-deps_body i mtime ids paths deps lt fits h =
    let ns = as_int32 i ∷ mtime % word ∷ as_int32 (mtime / word) ∷ map as_int32 ids in
    let bounded : All (λ n. n < word) ns =
      (omega arith, (omega arith, (omega arith, as_int32_bounded ids))) in
    let same : as_int32 i ≡ i = omega arith in
    let time : mtime / word % word * word + mtime % word ≡ mtime = omega arith in
    rw (words-put_words ns bounded)
      (rw (resolve-as_int32 ids paths deps h, from_words, h) (rw (same, time) refl))

-- A deps record whose ids resolve updates the output's record.
pub read_step-deps_record :
    (i mtime : ℕ) (ids : List ℕ) (deps : List Bytes) (more : Bytes) (st : ReadState)
    → i < sign_bit
    → mtime < 2 ^ 64
    → 12 + 4 * length ids ≤ max_record_size
    → resolve ids st.log.paths ≡ some deps
    → read_step (deps_record i mtime ids ++ more) st
      ≡ count_update more st (update i (record { mtime = mtime; inputs = deps }) st.log)
unfolding deps_record use_deps
read_step-deps_record i mtime ids deps more st lt fits small h =
    let ns = as_int32 i ∷ mtime % word ∷ as_int32 (mtime / word) ∷ map as_int32 ids in
    let header = sign_bit + (12 + 4 * length ids) in
    let len : length (deps_body i mtime ids) ≡ 12 + 4 * length ids =
      omega (arith, length-put_words ns, length-map ids as_int32) in
    let high : leb sign_bit header ≡ true = ground arith in
    let other : (i == word - 1) ≡ false = ground arith in
    read_step-framed header (deps_body i mtime ids) more st (omega arith) (omega (arith, len))
      (omega (arith, len)) (omega (arith, len))
    ∙ rw (high, read_deps_record-deps_body i mtime ids st.log.paths deps lt fits h, other) refl
