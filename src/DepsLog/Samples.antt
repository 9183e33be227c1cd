-- ===== src/DepsLog/Samples.antt =====
-- Concrete runs of the deps log, and the theorems of its modules at them.
use siso.Common.{
  ◌+◌, ◌<◌, ◌≡◌, refl, true, false, List, [], ◌∷◌, ◌++◌, some, Bytes, codes, bytes_eq,
  if◌then◌else◌, length, take, All, arith,
}
use siso.Common.Words.{sign_bit, put_word}
use siso.DepsLog.State.{DepsRecord, DepsLog, empty_log, lookup, update, reset, get, found}
use siso.DepsLog.Reader.{new_file, loaded, content, new_deps_log, crashed}
use siso.DepsLog.Writer.{Os, ok, record_entry}
use siso.DepsLog.Codec.{IsStorable}
use siso.DepsLog.Mirror.{IsMirrored-empty, WritesWhole}
use siso.DepsLog.Recording.{opened}
use siso.DepsLog.Reopen.{after_record, Reopened, reopen-record}
use siso.DepsLog.Sessions.{Call, session, IsRecordable, reopen-session, torn_record, named_paths}
use siso.DepsLog.Visibility.{get-reset-record, record-record, get-update, short_deps_record}

-- A disk that never fills up.
abbrev sound_os : Os
sound_os = record {
  can_open = true;
  can_close = true;
  can_remove = true;
  can_rename = true;
  written = λ file chunk. length chunk;
}

sound_os-WritesWhole : WritesWhole sound_os
sound_os-WritesWhole file chunk = omega arith

abbrev obj : Bytes
obj = codes "a.o"

abbrev src : Bytes
src = codes "a.c"

obj-IsStorable : IsStorable obj
obj-IsStorable = record {
  front = codes "a.";
  last = b'o';
  ends = refl;
  not_nul = omega arith;
  fits = omega arith;
}

src-IsStorable : IsStorable src
src-IsStorable = record {
  front = codes "a.";
  last = b'c';
  ends = refl;
  not_nul = omega arith;
  fits = omega arith;
}

abbrev new_log : DepsLog
new_log = empty_log new_file

reopen-record_example :
    (l : DepsLog) × Reopened (after_record sound_os obj 7 (src ∷ []) new_log) l
    × (get l obj ≡ found (src ∷ []) 7)
reopen-record_example =
    reopen-record sound_os obj 7 (src ∷ []) new_log sound_os-WritesWhole refl obj-IsStorable
      (src-IsStorable, tt) (omega arith) (omega arith) (omega arith) IsMirrored-empty

get-reset-record_example :
    get (reset (after_record sound_os obj 7 (src ∷ []) new_log)) obj ≡ found (src ∷ []) 7
get-reset-record_example =
    get-reset-record sound_os obj 7 (src ∷ []) new_log sound_os-WritesWhole refl obj-IsStorable
      (src-IsStorable, tt) (omega arith) (omega arith) (omega arith) IsMirrored-empty

record-record_example :
    record_entry sound_os obj 7 (src ∷ []) (after_record sound_os obj 7 (src ∷ []) new_log)
    ≡ (ok false, opened (after_record sound_os obj 7 (src ∷ []) new_log))
record-record_example =
    record-record sound_os obj 7 (src ∷ []) new_log sound_os-WritesWhole refl obj-IsStorable
      (src-IsStorable, tt) (omega arith) (omega arith) (omega arith) IsMirrored-empty

abbrev calls : List Call
calls =
    record { output = obj; mtime = 7; deps = src ∷ [] }
    ∷ record { output = obj; mtime = 8; deps = src ∷ obj ∷ [] }
    ∷ []

calls-IsRecordable : All IsRecordable calls
calls-IsRecordable = (
  record {
    output_fits = obj-IsStorable;
    deps_fit = (src-IsStorable, tt);
    mtime_fits = omega arith;
    record_fits = omega arith;
  },
  (
    record {
      output_fits = obj-IsStorable;
      deps_fit = (src-IsStorable, (obj-IsStorable, tt));
      mtime_fits = omega arith;
      record_fits = omega arith;
    },
    tt,
  ),
)

calls-named_paths : named_paths calls + 101 < sign_bit
unfolding named_paths
calls-named_paths = omega arith

reopen-session_example : (l : DepsLog) × Reopened (session sound_os calls new_log) l
reopen-session_example =
    reopen-session sound_os calls sound_os-WritesWhole refl calls-IsRecordable calls-named_paths

torn_record_example :
    (l : DepsLog) × (new_deps_log
        (content (new_file ++ take 6 (put_word 8 ++ (codes "a.o" ++ codes "xxxxx"))))
      ≡ loaded l)
    × (l.paths ≡ [])
    × (l.path_idx ≡ [])
    × (l.deps ≡ [])
    × (l.needs_recompact ≡ true)
torn_record_example =
    torn_record new_log 8 6 (codes "a.oxxxxx") IsMirrored-empty (omega arith) refl (omega arith)
      (omega arith)

abbrev one_record : DepsRecord
one_record = record { mtime = 1; inputs = src ∷ [] }

abbrev shared_log : DepsLog
shared_log = record new_log {
  r_paths = obj ∷ [];
  r_path_idx = (obj, 0) ∷ [];
  r_deps = some one_record ∷ [];
  paths = obj ∷ [];
  path_idx = (obj, 0) ∷ [];
  deps = some one_record ∷ [];
  deps_cap = 100;
  shares = true;
}

get-update_example :
    (after : DepsLog) × (update 0 (record { mtime = 2; inputs = [] }) shared_log
      ≡ some (true, after))
    × (get after obj ≡ (if true then found [] 2 else get shared_log obj))
    × (get (reset after) obj ≡ found [] 2)
unfolding lookup bytes_eq
get-update_example =
    get-update 0 (record { mtime = 2; inputs = [] }) shared_log obj (omega arith) (omega arith)
      (omega arith) refl refl refl refl

short_deps_record_example :
    new_deps_log (content (new_log.file ++ ((put_word (sign_bit + 4) ++ codes "abcd") ++ [])))
    ≡ crashed
short_deps_record_example =
    short_deps_record new_log (codes "abcd") [] IsMirrored-empty (omega arith) (omega arith)
