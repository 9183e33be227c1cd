-- ===== src/DepsLog/Writer.antt =====
-- Appending to a deps log: `Record`, `Recompact` and what they call in
-- toolsupport/ninjautil/deps_log.go. A method returns its result beside the state that it leaves.
use siso.Common.{
  ℕ, ◌+◌, ◌-◌, ◌*◌, ◌/◌, ◌%◌, Bool, true, false, not, ◌&&◌, ◌||◌, List, [], ◌∷◌, ◌++◌, Option, none,
  some, Bytes, bytes_eq, ltb, ◌==◌, if◌then◌else◌, length, take, replicate, map, min,
}
use siso.Common.Words.{word, sign_bit, put_word}
use siso.DepsLog.State.{DepsRecord, DepsLog, empty_log, lookup, update, lookup_dep_record}
use siso.DepsLog.Reader.{max_record_size, new_file}

-- What the operating system decides: whether the file opens, and how many bytes of a chunk `Write`
-- puts behind the file's content. A short write is an error.
pub record Os : Type 0 where
  pub can_open : Bool
  pub can_close : Bool
  pub can_remove : Bool
  pub can_rename : Bool
  pub written : Bytes → Bytes → ℕ

pub data Reply {ℓ} (A : Type ℓ) : Type ℓ where
  ok : A → Reply A
  err : Reply A
  panic : Reply A

abbrev pub M {ℓ} : Type ℓ → Type ℓ
M A = DepsLog → Reply A × DepsLog

module _ {ℓ κ} {A : Type ℓ} {B : Type κ} where
  abbrev pub continue : Reply A → (A → DepsLog → Reply B × DepsLog) → DepsLog → Reply B × DepsLog
  continue (ok a) f d = f a d
  continue err f d = (err, d)
  continue panic f d = (panic, d)

abbrev pub pure {ℓ} : {A : Type ℓ} → A → M A
pure a d = (ok a, d)

infixl 5 ◌>>=◌
abbrev pub ◌>>=◌ : {A B : Type 0} → M A → (A → M B) → M B
◌>>=◌ m f d = let (r, d') = m d in continue r f d'

abbrev pub padding : ℕ → ℕ
padding path_size = (4 - path_size % 4) % 4

-- The bytes of a path record and of a deps record, with their headers.
unfoldable pub path_record : ℕ → Bytes → Bytes
path_record i path =
    put_word (length path + padding (length path) + 4)
    ++ (path ++ (replicate (padding (length path)) 0 ++ put_word (word - 1 - i % word)))

unfoldable pub put_words : List ℕ → Bytes
put_words [] = []
put_words (n ∷ ns) = put_word n ++ put_words ns

abbrev pub as_int32 : ℕ → ℕ
as_int32 n = n % word

unfoldable pub deps_record : ℕ → ℕ → List ℕ → Bytes
deps_record i mtime ids =
    put_word (sign_bit + (12 + 4 * length ids))
    ++ put_words (as_int32 i ∷ mtime % word ∷ as_int32 (mtime / word) ∷ map as_int32 ids)

unfoldable pub paths_eq : List Bytes → List Bytes → Bool
paths_eq [] [] = true
paths_eq [] (q ∷ qs) = false
paths_eq (p ∷ ps) [] = false
paths_eq (p ∷ ps) (q ∷ qs) = bytes_eq p q && paths_eq ps qs

-- Whether the stored record differs from the new one.
unfoldable pub differs : ℕ → List Bytes → List ℕ → Option DepsRecord → Bool
differs mtime deps ids none = true
differs mtime deps ids (some dr) =
    if not (length ids == length dr.inputs)
    then true
    else if not (mtime == dr.mtime)
    then true
    else not (paths_eq dr.inputs deps)

unfoldable pub update_log : ℕ → DepsRecord → M (Unit {0})
update_log i rec d = elim (update (as_int32 i) rec d) [
  | none ↦ (panic, d)
  | some (_, d') ↦ (ok tt, d')
]

module _ (os : Os) where
  unfoldable pub open_for_write : M (Unit {0})
  open_for_write d =
      if d.w then (ok tt, d) else if os.can_open then (ok tt, record d { w = true }) else (err, d)

  unfoldable pub write : Bytes → M (Unit {0})
  write chunk d =
      let n = min (os.written d.file chunk) (length chunk) in
      (if n == length chunk then ok tt else err, record d { file = d.file ++ take n chunk })

  unfoldable pub record_path : ℕ → Bytes → M (Unit {0})
  record_path i path d =
      if ltb max_record_size (length path + padding (length path) + 4)
      then (err, d)
      else write (path_record i path) d

  unfoldable pub record_deps : ℕ → ℕ → List ℕ → M (Unit {0})
  record_deps i mtime ids d =
      if ltb max_record_size (12 + 4 * length ids)
      then (err, d)
      else write (deps_record i mtime ids) d

  -- `uniquePathIdx`, and `recordPath` if the path was added.
  unfoldable pub intern : Bytes → M (ℕ × Bool)
  intern path d = elim (lookup path d.path_idx) [
    | some i ↦ (ok (i, false), d)
    | none ↦
        (record_path (length d.paths) path >>= λ _. pure (length d.paths, true)) (record d {
          paths = d.paths ++ path ∷ [];
          path_idx = (path, length d.paths) ∷ d.path_idx;
        })
  ]

  unfoldable pub intern_all : List Bytes → M (List ℕ × Bool)
  intern_all [] = pure ([], false)
  intern_all (p ∷ ps) = intern p >>= λ a. intern_all ps >>= λ b. pure (a.0 ∷ b.0, a.1 || b.1)

  -- The last part of `Record`: skip, or update and append.
  unfoldable pub commit : ℕ → ℕ → List Bytes → List ℕ → Bool → M Bool
  commit i mtime deps ids added d =
      if added || differs mtime deps ids (lookup_dep_record i d)
      then (update_log i (record { mtime = mtime; inputs = deps }) >>= λ _.
            record_deps i mtime ids >>= λ _. pure true)
          d
      else (ok false, d)

  -- `Record` of a log that is not nil.
  unfoldable pub record_entry : Bytes → ℕ → List Bytes → M Bool
  record_entry output mtime deps = open_for_write >>= λ _.
      intern output >>= λ o. intern_all deps >>= λ b. commit o.0 mtime deps b.0 (o.1 || b.1)

  -- `Close`
  unfoldable pub close : M (Unit {0})
  close d =
      if d.w then (if os.can_close then ok tt else err, record d { w = false }) else (ok tt, d)

  -- The loop of `Recompact` over `rDeps`, on the new log.
  unfoldable pub rewrite_records : List (Option DepsRecord) → List Bytes → M (Unit {0})
  rewrite_records [] ps = pure tt
  rewrite_records (none ∷ ds) [] = rewrite_records ds []
  rewrite_records (none ∷ ds) (p ∷ ps) = rewrite_records ds ps
  rewrite_records (some rec ∷ ds) [] = λ d. (panic, d)
  rewrite_records (some rec ∷ ds) (p ∷ ps) =
      record_entry p rec.mtime rec.inputs >>= λ _. rewrite_records ds ps

  -- The new log, written to a file of its own.
  unfoldable pub recompacted : DepsLog → Reply (Unit {0}) × DepsLog
  recompacted d =
      (open_for_write >>= λ _. rewrite_records d.r_deps d.r_paths >>= λ _. close)
        (empty_log new_file)

  -- The new file takes the old one's place; a file that is removed and not replaced reads as empty.
  unfoldable pub adopt : DepsLog → Reply (Unit {0}) → DepsLog → Reply (Unit {0}) × DepsLog
  adopt d err nd = (err, d)
  adopt d panic nd = (panic, d)
  adopt d (ok _) nd =
      if not os.can_remove
      then (err, d)
      else if os.can_rename
      then (
        ok tt,
        record d {
          r_paths = nd.paths;
          r_path_idx = nd.path_idx ++ d.r_path_idx;
          r_deps = nd.deps;
          paths = nd.paths;
          path_idx = nd.path_idx;
          deps = nd.deps;
          deps_cap = nd.deps_cap;
          shares = true;
          file = nd.file;
          needs_recompact = false;
        },
      )
      else (err, record d { file = [] })

  unfoldable pub recompact : M (Unit {0})
  recompact = close >>= λ _. λ d. let (r, nd) = recompacted d in adopt d r nd
