-- ===== src/DepsLog/Reader.antt =====
-- Reading a deps log file: `NewDepsLog` and what it calls in toolsupport/ninjautil/deps_log.go.
use siso.Common.{
  ℕ, zero, suc, ◌+◌, ◌-◌, ◌*◌, ◌%◌, ◌^◌, Bool, true, false, not, ◌&&◌, ◌||◌, List, [], ◌∷◌, ◌++◌,
  Option, none, some, Bytes, codes, bytes_eq, leb, ltb, ◌==◌, if◌then◌else◌, length, get_elem?,
  take, drop,
}
use siso.Common.Words.{word, sign_bit, put_word, get_word}
use siso.DepsLog.State.{DepsRecord, DepsLog, empty_log, update, reset}

abbrev pub file_signature : Bytes
file_signature = codes "# ninjadeps\n"

abbrev pub current_version : ℕ
current_version = 4

abbrev pub max_record_size : ℕ
max_record_size = 2 ^ 19 - 1

-- `IsDepsRecord` and `RecordSize` of a header's bit pattern.
abbrev pub is_deps_record : ℕ → Bool
is_deps_record h = leb sign_bit h

abbrev pub record_size : ℕ → ℕ
record_size h = h % 2 ^ 27

-- `binary.Read` into a slice of `size / 4` words.
unfoldable pub words : Bytes → List ℕ
words (a ∷ b ∷ c ∷ d ∷ rest) = (a + 256 * b + 65536 * c + 16777216 * d) ∷ words rest
words _ = []

unfoldable pub resolve : List ℕ → List Bytes → Option (List Bytes)
resolve [] paths = some []
resolve (id ∷ ids) paths = elim (if leb sign_bit id then none else get_elem? paths id) [
  | none ↦ none
  | some p ↦ elim (resolve ids paths) [ none ↦ none | some ps ↦ some (p ∷ ps) ]
]

-- `skipped` is the result (-1, nil, nil) on a bad path id; `crash` an index out of range.
pub data DepsParse : Type 0 where
  crash skipped : DepsParse
  parsed : ℕ → DepsRecord → DepsParse

unfoldable pub from_words : List ℕ → List Bytes → DepsParse
from_words (out_id ∷ lo ∷ hi ∷ ids) paths = elim (resolve ids paths) [
  | none ↦ skipped
  | some inputs ↦ parsed out_id (record { mtime = hi * word + lo; inputs = inputs })
]
from_words _ paths = crash

unfoldable pub read_deps_record : Bytes → List Bytes → DepsParse
read_deps_record buf paths = from_words (words buf) paths

-- The padding loop, with the rounds that are left and the path size so far.
unfoldable pub strip_padding : ℕ → ℕ → Bytes → Option ℕ
strip_padding zero p buf = some p
strip_padding (suc k) zero buf = none
strip_padding (suc k) (suc p) buf = elim (get_elem? buf p) [
  | none ↦ none
  | some c ↦ strip_padding k (if c == 0 then p else suc p) buf
]

-- The checksum is the one's complement of the index; as an int32 it must not be negative.
unfoldable pub check_path : ℕ → Bytes → Option (ℕ × Bytes) → Option Bytes
check_path n pathname none = none
check_path n pathname (some (checksum, _)) =
    let expected = word - 1 - checksum in
    if not (leb sign_bit expected) && expected == n then some pathname else none

unfoldable pub read_path_record : Bytes → ℕ → Option Bytes
read_path_record buf n =
    let tail = drop (length buf - 4) buf in
    elim (strip_padding 3 (length buf - 4) buf) [
      | none ↦ none
      | some p ↦ check_path n (take p buf) (get_word tail)
    ]

pub record ReadState : Type 0 where
  pub log : DepsLog
  pub total : ℕ
  pub unique : ℕ

pub data Step : Type 0 where
  panics : Step
  stop : Bool → ReadState → Step
  next : Bytes → ReadState → Step

unfoldable pub count_update : Bytes → ReadState → Option (Bool × DepsLog) → Step
count_update rest st none = panics
count_update rest st (some (existed, d)) = next rest (record {
  log = d;
  total = st.total + 1;
  unique = if existed then st.unique else st.unique + 1;
})

-- An output id of -1 is skipped.
unfoldable pub use_deps : Bytes → ReadState → DepsParse → Step
use_deps rest st crash = panics
use_deps rest st skipped = next rest st
use_deps rest st (parsed out_id rec) =
    if out_id == word - 1 then next rest st else count_update rest st (update out_id rec st.log)

unfoldable pub add_path : Bytes → DepsLog → DepsLog
add_path p d = record d { paths = d.paths ++ p ∷ []; path_idx = (p, length d.paths) ∷ d.path_idx }

unfoldable pub use_path : Bytes → ReadState → Option Bytes → Step
use_path rest st none = stop true st
use_path rest st (some p) = next rest (record st { log = add_path p st.log })

-- `f.Read(buf[:size])` fails at the end of the file, for size 0 too.
unfoldable pub read_record : ℕ → Bytes → ReadState → Step
read_record h rest st =
    let size = record_size h in
    let buf = take size rest in
    let more = drop size rest in
    if ltb max_record_size size
    then stop true st
    else if (length rest == 0) || ltb (length rest) size
    then stop true st
    else if is_deps_record h
    then use_deps more st (read_deps_record buf st.log.paths)
    else use_path more st (read_path_record buf (length st.log.paths))

-- One round of `readLoop`: end of file is a clean stop, a partial header a broken one.
unfoldable pub read_step : Bytes → ReadState → Step
read_step [] st = stop false st
read_step (b ∷ bs) st = elim (get_word (b ∷ bs)) [
  | none ↦ stop true st
  | some (h, rest) ↦ read_record h rest st
]

pub data Loop : Type 0 where
  out_of_fuel panicked : Loop
  finished : Bool → ReadState → Loop

unfoldable pub read_loop : ℕ → Bytes → ReadState → Loop
read_loop zero bs st = out_of_fuel
read_loop (suc fuel) bs st = elim (read_step bs st) [
  | panics ↦ panicked
  | stop broken st' ↦ finished broken st'
  | next rest st' ↦ read_loop fuel rest st'
]

-- The log that the loop fills; the file's content comes in at the end.
abbrev pub start : ReadState
start = record { log = empty_log []; total = 0; unique = 0 }

-- What follows `readLoop`: whether to recompact, and the read-only copies.
unfoldable pub finish_load : Bytes → Bool → ReadState → DepsLog
finish_load file broken st =
    let dead = ltb 1000 st.total && ltb (st.unique * 3) st.total in
    reset (record st.log { file = file; needs_recompact = broken || dead || (st.total == 0) })

-- The file that `createNewDepsLogFile` writes.
abbrev pub new_file : Bytes
new_file = file_signature ++ put_word current_version

pub data FileRead : Type 0 where
  missing unreadable : FileRead
  content : Bytes → FileRead

pub data Loaded : Type 0 where
  failed crashed stuck : Loaded
  loaded : DepsLog → Loaded

unfoldable pub load_records : Bytes → Bytes → Loaded
load_records file body = elim (read_loop (suc (length body)) body start) [
  | out_of_fuel ↦ stuck
  | panicked ↦ crashed
  | finished broken st ↦ loaded (finish_load file broken st)
]

-- `verifyVersion`, on what stands behind the signature.
unfoldable pub after_version : Bytes → Option (ℕ × Bytes) → Loaded
after_version file none = loaded (empty_log new_file)
after_version file (some (version, body)) =
    if version == current_version then load_records file body else loaded (empty_log new_file)

-- `NewDepsLog`; a file name is given.
unfoldable pub new_deps_log : FileRead → Loaded
new_deps_log missing = loaded (empty_log new_file)
new_deps_log unreadable = failed
new_deps_log (content file) =
    if bytes_eq (take 12 file) file_signature
    then after_version file (get_word (drop 12 file))
    else loaded (empty_log new_file)
