-- ===== src/DepsLog/Visibility.antt =====
-- When `Get` shows what `Record` stored, and inputs on which the reader panics.
use siso.Common.{
  ℕ, suc, ◌+◌, ◌-◌, ◌*◌, ◌^◌, ◌≤◌, ◌<◌, ◌≡◌, refl, ap, ◌∙◌, true, false, List, [], ◌∷◌, ◌++◌,
  append_assoc, some, Bytes, leb, leb_of_lt, lt→ltb, if◌then◌else◌, eq-if, length, length-append,
  get_elem?, get_elem?-set_self, All, arith,
}
use siso.Common.Words.{sign_bit, put_word}
use siso.DepsLog.State.{DepsRecord, DepsLog, lookup, store, update, reset, get, get_at, found}
use siso.DepsLog.Reader.{
  new_file, ReadState, crashed, content, new_deps_log, read_step, read_loop, load_records, panics,
  panicked, start, max_record_size, read_deps_record, words, from_words, use_deps, crash,
}
use siso.DepsLog.Writer.{Os, ok, record_entry}
use siso.DepsLog.Codec.{IsStorable, read_step-framed}
use siso.DepsLog.Reads.{Reads}
use siso.DepsLog.Mirror.{IsMirrored, WritesWhole}
use siso.DepsLog.Recording.{Recorded, record_entry_lem, record_entry_again, opened}
use siso.DepsLog.Reopen.{after_record, get-found, lookup-append, new_deps_log-body}

module _ (os : Os) (output : Bytes) (mtime : ℕ) (deps : List Bytes) (d : DepsLog)
    (whole : WritesWhole os) (can : os.can_open ≡ true) (so : IsStorable output)
    (sd : All IsStorable deps) (fits : mtime < 2 ^ 64)
    (small : 12 + 4 * length deps ≤ max_record_size)
    (room : length d.paths + length deps + 101 < sign_bit) (m : IsMirrored d) where
  recorded : Recorded os whole output mtime deps d
  recorded = record_entry_lem os whole output mtime deps d can so sd fits small room m

  after-eq : after_record os output mtime deps d ≡ recorded.after
  after-eq = ap (λ x. x.1) recorded.runs

  -- After `Record` and `Reset`, `Get` of the output returns the recorded inputs and mtime. The conditions
  -- are that the file opens and every write is whole, that the format can hold the paths, the mtime and
  -- the record, that the indices stay below 2^31, and that the log's file replays to its tables.
  pub get-reset-record : get (reset (after_record os output mtime deps d)) output ≡ found deps mtime
  get-reset-record =
      let r = recorded in
      let g : get (reset r.after) output ≡ found deps mtime =
        get-found (reset r.after) output r.i mtime deps
          (unfold reset in lookup-append output r.i r.after.path_idx r.after.r_path_idx r.indexed)
          (unfold reset in r.mirrored.sound output r.i r.indexed) (unfold reset in r.stored) in
      rw after-eq g

  -- Recording the same output, mtime and inputs again reports no update and leaves the log and its file
  -- as they are, but for the file being open. The conditions are that the file opens and every write is
  -- whole, that the format can hold the paths, the mtime and the record, that the indices stay below
  -- 2^31, and that the log's file replays to its tables.
  pub record-record :
      record_entry os output mtime deps (after_record os output mtime deps d)
      ≡ (ok false, opened (after_record os output mtime deps d))
  record-record = rw after-eq (record_entry_again os whole output mtime deps d recorded can)

store-shared :
    (i : ℕ) (rec : DepsRecord) (d : DepsLog)
    → d.shares ≡ true
    → i < length d.r_deps
    → get_elem? (store i rec d).r_deps i ≡ some (some rec)
unfolding store
store-shared i rec d s lt = rw s (get_elem?-set_self d.r_deps i (some rec) lt)

get-store_unshared :
    (i : ℕ) (rec : DepsRecord) (d : DepsLog) (output : Bytes)
    → d.shares ≡ false
    → get (store i rec d) output ≡ get d output
unfolding store get get_at
get-store_unshared i rec d output s = rw s refl

get-reset_store :
    (i : ℕ) (rec : DepsRecord) (d : DepsLog) (output : Bytes)
    → i < length d.deps
    → lookup output d.path_idx ≡ some i
    → get_elem? d.paths i ≡ some output
    → get (reset (store i rec d)) output ≡ found rec.inputs rec.mtime
unfolding store reset
get-reset_store i rec d output lt e f =
    get-found (reset (store i rec d)) output i rec.mtime rec.inputs
      (lookup-append output i d.path_idx d.r_path_idx e) f
      (get_elem?-set_self d.deps i (some rec) lt)

-- `Get` after an update of an output that had a slot in both tables, under the same index, which is the
-- output's in both lists of paths: the new record shows at once if the read-only table still shares its array
-- with the table that is written, the old answer if not; and the new record shows after `Reset` in both cases.
pub get-update :
    (i : ℕ) (rec : DepsRecord) (d : DepsLog) (output : Bytes)
    → i < sign_bit
    → i < length d.deps
    → i < length d.r_deps
    → lookup output d.r_path_idx ≡ some i
    → get_elem? d.r_paths i ≡ some output
    → lookup output d.path_idx ≡ some i
    → get_elem? d.paths i ≡ some output
    → (after : DepsLog) × (update i rec d ≡ some (true, after))
      × (get after output ≡ (if d.shares then found rec.inputs rec.mtime else get d output))
      × (get (reset after) output ≡ found rec.inputs rec.mtime)
unfolding update
get-update i rec d output lt there r_there e f e' f' = (
  store i rec d,
  rw (leb_of_lt sign_bit i lt, lt→ltb i (length d.deps) there) refl,
  eq-if d.shares (get (store i rec d) output) (found rec.inputs rec.mtime) (get d output) shown
      (get-store_unshared i rec d output),
  get-reset_store i rec d output there e' f',
)
  where
    shown : d.shares ≡ true → get (store i rec d) output ≡ found rec.inputs rec.mtime
    shown s =
        get-found (store i rec d) output i rec.mtime rec.inputs (unfold store in e)
          (unfold store in f) (store-shared i rec d s r_there)

read_loop-panics :
    (fuel : ℕ) (tail : Bytes) (st : ReadState)
    → read_step tail st ≡ panics
    → read_loop (suc fuel) tail st ≡ panicked
unfolding read_loop
read_loop-panics fuel tail st h = rw (read_loop, h) refl

load_records-panics :
    (file body tail : Bytes) (st : ReadState)
    → Reads body start st
    → read_step tail st ≡ panics
    → load_records file (body ++ tail) ≡ crashed
unfolding load_records
load_records-panics file body tail st r h =
    let left = length (body ++ tail) - r.rounds in
    let e : suc (length (body ++ tail)) ≡ r.rounds + suc left =
      omega (arith, r.few, length-append body tail) in
    rw (load_records, loop e) refl
  where
    loop :
        suc (length (body ++ tail)) ≡ r.rounds + suc (length (body ++ tail) - r.rounds)
        → read_loop (suc (length (body ++ tail))) (body ++ tail) start ≡ panicked
    loop e = rw e (r.runs _ tail ∙ read_loop-panics _ tail st h)

words-short :
    (body : Bytes) → length body < 12 → (paths : List Bytes) → read_deps_record body paths ≡ crash
unfolding read_deps_record words from_words
words-short [] h paths = refl
words-short (a ∷ []) h paths = refl
words-short (a ∷ b ∷ []) h paths = refl
words-short (a ∷ b ∷ c ∷ []) h paths = refl
words-short (a ∷ b ∷ c ∷ d ∷ []) h paths = refl
words-short (a ∷ b ∷ c ∷ d ∷ e ∷ []) h paths = refl
words-short (a ∷ b ∷ c ∷ d ∷ e ∷ f ∷ []) h paths = refl
words-short (a ∷ b ∷ c ∷ d ∷ e ∷ f ∷ g ∷ []) h paths = refl
words-short (a ∷ b ∷ c ∷ d ∷ e ∷ f ∷ g ∷ i ∷ []) h paths = refl
words-short (a ∷ b ∷ c ∷ d ∷ e ∷ f ∷ g ∷ i ∷ j ∷ []) h paths = refl
words-short (a ∷ b ∷ c ∷ d ∷ e ∷ f ∷ g ∷ i ∷ j ∷ k ∷ []) h paths = refl
words-short (a ∷ b ∷ c ∷ d ∷ e ∷ f ∷ g ∷ i ∷ j ∷ k ∷ l ∷ []) h paths = refl
words-short (a ∷ b ∷ c ∷ d ∷ e ∷ f ∷ g ∷ i ∷ j ∷ k ∷ l ∷ m ∷ rest) h paths = absurd (omega arith)

-- A deps record of 1 to 11 bytes makes `NewDepsLog` panic, whatever whole log stands before it.
pub short_deps_record :
    (d : DepsLog) (body more : Bytes)
    → IsMirrored d
    → 0 < length body
    → length body < 12
    → new_deps_log (content (d.file ++ ((put_word (sign_bit + length body) ++ body) ++ more)))
      ≡ crashed
short_deps_record d body more m pos short =
    let h = sign_bit + length body in
    let t = (put_word h ++ body) ++ more in
    let e : d.file ++ t ≡ new_file ++ (m.body ++ t) =
      ap (λ f. f ++ t) m.file_is ∙ append_assoc new_file m.body t in
    let high : leb sign_bit h ≡ true = ground arith in
    let round : read_step t m.st ≡ panics =
      read_step-framed h body more m.st (omega arith) (omega arith) pos (omega arith)
      ∙ unfold use_deps in rw (high, words-short body short m.st.log.paths) refl in
    ap (λ f. new_deps_log (content f)) e
    ∙ new_deps_log-body (m.body ++ t)
    ∙ load_records-panics (new_file ++ (m.body ++ t)) m.body t m.st m.reads round
