-- ===== src/DepsLog/State.antt =====
-- The state of `DepsLog` in toolsupport/ninjautil/deps_log.go, and the methods that touch no file.
-- Paths are byte strings; `filepath.ToSlash` changes nothing on Linux. An int32 and an int64 are bit
-- patterns (numbers below 2^32 and 2^64).
use siso.Common.{
  ℕ, ◌+◌, ◌-◌, ◌*◌, ◌/◌, Bool, true, false, List, [], ◌∷◌, ◌++◌, Option, none, some, Bytes,
  bytes_eq, leb, ltb, if◌then◌else◌, length, get_elem?, set, replicate,
}
use siso.Common.Words.{sign_bit}

pub record DepsRecord : Type 0 where
  pub mtime : ℕ
  pub inputs : List Bytes

-- A Go map from paths to indices; the entry in front is the one that was stored last.
abbrev pub PathIdx : Type 0
PathIdx = List (Bytes × ℕ)

unfoldable pub lookup : Bytes → PathIdx → Option ℕ
lookup k [] = none
lookup k ((j, v) ∷ m) = if bytes_eq j k then some v else lookup k m

-- `w` is true while the file is open for appending, and `file` is what the file holds.
-- `shares` is true while `rDeps` and `deps` are slices of one array: then a write to an element of
-- one shows in the other.
pub record DepsLog : Type 0 where
  pub r_paths : List Bytes
  pub r_path_idx : PathIdx
  pub r_deps : List (Option DepsRecord)
  pub paths : List Bytes
  pub path_idx : PathIdx
  pub deps : List (Option DepsRecord)
  pub deps_cap : ℕ
  pub shares : Bool
  pub w : Bool
  pub file : Bytes
  pub needs_recompact : Bool

-- `&DepsLog{fname, rPathIdx, pathIdx}` over a file that holds `content`.
abbrev pub empty_log : Bytes → DepsLog
empty_log content = record {
  r_paths = [];
  r_path_idx = [];
  r_deps = [];
  paths = [];
  path_idx = [];
  deps = [];
  deps_cap = 0;
  shares = false;
  w = false;
  file = content;
  needs_recompact = false;
}

-- `d.deps[outID] = deps`
unfoldable pub store : ℕ → DepsRecord → DepsLog → DepsLog
store out_id rec d = record d {
  deps = set d.deps out_id (some rec);
  r_deps = if d.shares then set d.r_deps out_id (some rec) else d.r_deps;
}

unfoldable pub pad : ℕ → List (Option DepsRecord) → List (Option DepsRecord)
pad n xs = xs ++ replicate (n - length xs) none

-- `none` is a panic: a negative index, or a capacity that overflows int32.
unfoldable pub update : ℕ → DepsRecord → DepsLog → Option (Bool × DepsLog)
update out_id rec d =
    if leb sign_bit out_id
    then none
    else if ltb out_id (length d.deps)
    then some (true, store out_id rec d)
    else if ltb out_id d.deps_cap
    then some (false, store out_id rec (record d { deps = pad (out_id + 1) d.deps }))
    else if leb sign_bit (out_id + 100)
    then none
    else some (
      false,
      store out_id rec (record d {
        deps = pad (out_id + 1) d.deps;
        deps_cap = (out_id + 100) / 100 * 100;
        shares = false;
      }),
    )

-- The entries of `pathIdx` go over those of `rPathIdx` (`maps.Copy`).
unfoldable pub reset : DepsLog → DepsLog
reset d = record d {
  r_paths = d.paths;
  r_path_idx = d.path_idx ++ d.r_path_idx;
  r_deps = d.deps;
  shares = true;
}

pub data Got : Type 0 where
  found : List Bytes → ℕ → Got
  no_deps_log inconsistent : Got

unfoldable pub get_deps : Option (Option DepsRecord) → Got
get_deps none = no_deps_log
get_deps (some none) = no_deps_log
get_deps (some (some rec)) = found rec.inputs rec.mtime

unfoldable pub get_at : DepsLog → Bytes → ℕ → Option Bytes → Got
get_at d output i none = no_deps_log
get_at d output i (some p) =
    if bytes_eq p output then get_deps (get_elem? d.r_deps i) else inconsistent

-- `Get` of a log that is not nil.
unfoldable pub get : DepsLog → Bytes → Got
get d output = elim (lookup output d.r_path_idx) [
  | none ↦ no_deps_log
  | some i ↦ get_at d output i (get_elem? d.r_paths i)
]

unfoldable pub lookup_dep_record : ℕ → DepsLog → Option DepsRecord
lookup_dep_record i d = elim (get_elem? d.deps i) [
  | none ↦ none
  | some none ↦ none
  | some (some rec) ↦ some rec
]

-- The recorded targets: the loop over `rPaths` stops where `rDeps` ends.
unfoldable pub targets_with_deps : List Bytes → List (Option DepsRecord) → List Bytes
targets_with_deps [] deps = []
targets_with_deps (p ∷ ps) [] = []
targets_with_deps (p ∷ ps) (none ∷ ds) = targets_with_deps ps ds
targets_with_deps (p ∷ ps) (some rec ∷ ds) = p ∷ targets_with_deps ps ds

unfoldable pub recorded_targets : DepsLog → List Bytes
recorded_targets d = targets_with_deps d.r_paths d.r_deps
