-- ===== src/DepsLog/Mirror.antt =====
-- The writer's state and its file agree: reading the file gives the state back. Each step of `Record`
-- keeps that.
use siso.Common.{
  ℕ, ◌+◌, ◌*◌, ◌^◌, ◌≤◌, ◌<◌, ◌≡◌, refl, sym, ap, ◌∙◌, true, List, [], ◌∷◌, ◌++◌, append_assoc,
  some, Bytes, bytes_eq, bytes_eq_iff, ◌==◌, if◌then◌else◌, Bool-cases, inl, inr, length, get_elem?,
  take_all, get_elem?-append_left, get_elem?-append_right, get_elem?-lt, min, arith,
}
use mathlib.Core.Path.{ap₂}
use siso.Common.Words.{sign_bit, put_word}
use siso.DepsLog.State.{DepsRecord, DepsLog, PathIdx, empty_log, lookup}
use siso.DepsLog.Reader.{
  ReadState, next, start, add_path, new_file, max_record_size, read_step, count_update, resolve,
}
use siso.DepsLog.Writer.{Os, ok, path_record, deps_record, write}
use siso.DepsLog.Codec.{IsStorable}
use siso.DepsLog.Rounds.{read_step-path_at, read_step-deps_record}
use siso.DepsLog.Update.{Updated, update_lem, put_dep, grown_cap}
use siso.DepsLog.Reads.{Reads, Reads-nil, Reads-step, Reads-append}

-- What the path index says is what the list of paths says.
abbrev pub IsSound : PathIdx → List Bytes → Type 0
IsSound idx paths = (p : Bytes) (i : ℕ) → lookup p idx ≡ some i → get_elem? paths i ≡ some p

pub record IsMirrored (d : DepsLog) : Type 0 where
  pub body : Bytes
  pub file_is : d.file ≡ new_file ++ body
  pub st : ReadState
  pub reads : Reads body start st
  pub paths_are : st.log.paths ≡ d.paths
  pub idx_are : st.log.path_idx ≡ d.path_idx
  pub deps_are : st.log.deps ≡ d.deps
  pub cap_are : st.log.deps_cap ≡ d.deps_cap
  pub sound : IsSound d.path_idx d.paths

pub IsMirrored-empty : IsMirrored (empty_log new_file)
unfolding put_word lookup
IsMirrored-empty = record {
  body = [];
  file_is = refl;
  st = start;
  reads = Reads-nil start;
  paths_are = refl;
  idx_are = refl;
  deps_are = refl;
  cap_are = refl;
  sound = λ p i h. cc;
}

-- An operating system that writes every chunk whole.
abbrev pub WritesWhole : Os → Type 0
WritesWhole os = (file chunk : Bytes) → length chunk ≤ os.written file chunk

pub write_whole :
    (os : Os)
    → WritesWhole os
    → (chunk : Bytes) (d : DepsLog)
    → write os chunk d ≡ (ok tt, record d { file = d.file ++ chunk })
write_whole os whole chunk d =
    let e : min (os.written d.file chunk) (length chunk) ≡ length chunk =
      omega (arith, whole d.file chunk) in
    let same : (length chunk == length chunk) ≡ true = ground arith in
    unfold write in rw (write, e, take_all (length chunk) chunk (omega arith), same) refl

IsSound-add :
    (p : Bytes) (idx : PathIdx) (paths : List Bytes)
    → IsSound idx paths
    → IsSound ((p, length paths) ∷ idx) (paths ++ p ∷ [])
unfolding lookup
IsSound-add p idx paths sound q i h = elim (Bool-cases (bytes_eq p q)) [
  | inl same ↦
      let n : some (length paths) ≡ some i = rw same at h in
      let e : p ≡ q = (bytes_eq_iff p q).0 same in
      let last : length paths ≡ i = cc n in
      rw (← e) (get_elem?-append_right paths (p ∷ []) i 0 (omega arith))
  | inr other ↦
      let old = sound q i (rw other at h) in
      get_elem?-append_left paths (p ∷ []) i (get_elem?-lt paths i q old) ∙ old
]

length-path_record : (i : ℕ) (p : Bytes) → 0 < length (path_record i p)
unfolding path_record put_word
length-path_record i p = omega arith

length-deps_record : (i mtime : ℕ) (ids : List ℕ) → 0 < length (deps_record i mtime ids)
unfolding deps_record put_word
length-deps_record i mtime ids = omega arith

-- `d` with one more path, in memory and in the file.
abbrev pub with_path : Bytes → DepsLog → DepsLog
with_path p d = record d {
  paths = d.paths ++ p ∷ [];
  path_idx = (p, length d.paths) ∷ d.path_idx;
  file = d.file ++ path_record (length d.paths) p;
}

pub IsMirrored-with_path :
    (p : Bytes) (d : DepsLog)
    → IsStorable p
    → length d.paths < sign_bit
    → IsMirrored d
    → IsMirrored (with_path p d)
unfolding add_path
IsMirrored-with_path p d s lt m =
    let rec = path_record (length d.paths) p in
    let st' = record m.st { log = add_path p m.st.log } in
    let round : (rest : Bytes) → read_step (rec ++ rest) m.st ≡ next rest st' =
      λ rest. read_step-path_at (length d.paths) p rest m.st (ap length m.paths_are) s lt in
    record {
      body = m.body ++ rec;
      file_is = ap (λ t. t ++ rec) m.file_is ∙ append_assoc new_file m.body rec;
      st = st';
      reads =
          Reads-append m.body rec start m.st st' m.reads
            (Reads-step rec m.st st' (length-path_record (length d.paths) p) round);
      paths_are = ap (λ t. t ++ p ∷ []) m.paths_are;
      idx_are = ap₂ (λ n t. (p, n) ∷ t) (ap length m.paths_are) m.idx_are;
      deps_are = m.deps_are;
      cap_are = m.cap_are;
      sound = IsSound-add p d.path_idx d.paths m.sound;
    }

-- `d` with the new record of output `i`, in memory and in the file.
abbrev pub with_deps :
    (i mtime : ℕ) → List ℕ → (rec : DepsRecord) (d : DepsLog) → Updated i rec d → DepsLog
with_deps i mtime ids rec d u = record u.after { file = u.after.file ++ deps_record i mtime ids }

pub IsMirrored-with_deps :
    (i mtime : ℕ) (ids : List ℕ) (deps : List Bytes) (d : DepsLog)
    (u : Updated i (record { mtime = mtime; inputs = deps }) d)
    → i + 100 < sign_bit
    → mtime < 2 ^ 64
    → 12 + 4 * length ids ≤ max_record_size
    → resolve ids d.paths ≡ some deps
    → IsMirrored d
    → IsMirrored (with_deps i mtime ids (record { mtime = mtime; inputs = deps }) d u)
IsMirrored-with_deps i mtime ids deps d u lt fits small h m =
    let chunk = deps_record i mtime ids in
    let rec : DepsRecord = record { mtime = mtime; inputs = deps } in
    let v = update_lem i rec m.st.log lt in
    let st' : ReadState = record {
      log = v.after;
      total = m.st.total + 1;
      unique = if v.existed then m.st.unique else m.st.unique + 1;
    } in
    let resolved : resolve ids m.st.log.paths ≡ some deps =
      ap (λ t. resolve ids t) m.paths_are ∙ h in
    let round : (rest : Bytes) → read_step (chunk ++ rest) m.st ≡ next rest st' = λ rest.
      read_step-deps_record i mtime ids deps rest m.st (omega arith) fits small resolved
      ∙ ap (count_update rest m.st) v.runs
      ∙ unfold count_update in refl in
    record {
      body = m.body ++ chunk;
      file_is = ap (λ t. t ++ chunk) (u.file_same ∙ m.file_is) ∙ append_assoc new_file m.body chunk;
      st = st';
      reads =
          Reads-append m.body chunk start m.st st' m.reads
            (Reads-step chunk m.st st' (length-deps_record i mtime ids) round);
      paths_are = v.paths_same ∙ m.paths_are ∙ sym u.paths_same;
      idx_are = v.idx_same ∙ m.idx_are ∙ sym u.idx_same;
      deps_are = v.deps_are ∙ ap (put_dep i rec) m.deps_are ∙ sym u.deps_are;
      cap_are =
          v.cap_is ∙ ap₂ (λ a b. grown_cap i a b) m.cap_are (ap length m.deps_are) ∙ sym u.cap_is;
      sound = λ p j l.
          ap (λ t. get_elem? t j) u.paths_same ∙ m.sound p j (ap (lookup p) (sym u.idx_same) ∙ l);
    }
