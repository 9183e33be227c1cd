-- ===== src/DepsLog/Sessions.antt =====
-- A build's whole use of a deps log: a sequence of `Record` calls on a new log, and a write that a
-- crash cuts short.
use siso.Common.{
  ℕ, zero, suc, ◌+◌, ◌*◌, ◌/◌, ◌%◌, ◌^◌, ◌≤◌, ◌<◌, ◌≡◌, refl, ap, ◌∙◌, true, false, List, [], ◌∷◌,
  ◌++◌, append_assoc, Bytes, ltb, lt→ltb, or_true, ◌==◌, length, take, length-take, All, arith,
}
use siso.Common.Words.{word, sign_bit, put_word, get_word}
use siso.DepsLog.State.{DepsLog, empty_log, reset}
use siso.DepsLog.Reader.{
  new_file, ReadState, loaded, content, new_deps_log, finish_load, read_step, read_record, stop,
  record_size, max_record_size,
}
use siso.DepsLog.Writer.{Os}
use siso.DepsLog.Codec.{IsStorable}
use siso.DepsLog.Reads.{load_records-stop}
use siso.DepsLog.Mirror.{IsMirrored, IsMirrored-empty, WritesWhole}
use siso.DepsLog.Recording.{record_entry_lem}
use siso.DepsLog.Reopen.{after_record, Reopened, Reopened-IsMirrored, new_deps_log-body}

pub record Call : Type 0 where
  pub output : Bytes
  pub mtime : ℕ
  pub deps : List Bytes

unfoldable pub session : Os → List Call → DepsLog → DepsLog
session os [] d = d
session os (c ∷ cs) d = session os cs (after_record os c.output c.mtime c.deps d)

-- What the format can hold of one call.
pub record IsRecordable (c : Call) : Type 0 where
  pub output_fits : IsStorable c.output
  pub deps_fit : All IsStorable c.deps
  pub mtime_fits : c.mtime < 2 ^ 64
  pub record_fits : 12 + 4 * length c.deps ≤ max_record_size

-- How many paths the calls name.
unfoldable pub named_paths : List Call → ℕ
named_paths [] = 0
named_paths (c ∷ cs) = suc (length c.deps) + named_paths cs

session-IsMirrored :
    (os : Os) (cs : List Call) (d : DepsLog)
    → WritesWhole os
    → os.can_open ≡ true
    → All IsRecordable cs
    → length d.paths + named_paths cs + 101 < sign_bit
    → IsMirrored d
    → IsMirrored (session os cs d)
unfolding session named_paths
session-IsMirrored os [] d whole can h room m = m
session-IsMirrored os (c ∷ cs) d whole can h room m =
    let r =
      record_entry_lem os whole c.output c.mtime c.deps d can h.0.output_fits h.0.deps_fit
        h.0.mtime_fits h.0.record_fits (omega arith) m in
    let e : after_record os c.output c.mtime c.deps d ≡ r.after = ap (λ x. x.1) r.runs in
    rw e (session-IsMirrored os cs r.after whole can h.1 (omega (arith, r.few_paths)) r.mirrored)

-- Whatever calls of `Record` were made on a new log, `NewDepsLog` on the file it wrote gives a log with
-- the same paths, path index, deps records and file content. The conditions are that the file opens and
-- every write is whole, that the format can hold the paths, the mtime and the record of each call, and
-- that the calls name fewer than 2^31 - 101 paths.
pub reopen-session :
    (os : Os) (cs : List Call)
    → WritesWhole os
    → os.can_open ≡ true
    → All IsRecordable cs
    → named_paths cs + 101 < sign_bit
    → (l : DepsLog) × Reopened (session os cs (empty_log new_file)) l
reopen-session os cs whole can h room =
    let d = session os cs (empty_log new_file) in
    let m =
      session-IsMirrored os cs (empty_log new_file) whole can h (omega arith) IsMirrored-empty in
    (finish_load d.file false m.st, Reopened-IsMirrored d m)

length-take_lt : (n : ℕ) (xs : Bytes) → n < length xs → length (take n xs) ≡ n
length-take_lt n xs h = omega (arith, length-take n xs)

read_record-short :
    (h : ℕ) (rest : Bytes) (st : ReadState)
    → length rest < record_size h
    → read_record h rest st ≡ stop true st
unfolding read_record
read_record-short h rest st short =
    let little : ltb (length rest) (record_size h) ≡ true = lt→ltb _ _ short in
    rw (little, or_true (length rest == 0)) (ground arith)

-- A proper prefix of a record, cut in its header or behind it, stops the reader as broken.
read_step-torn :
    (h n : ℕ) (body : Bytes) (st : ReadState)
    → h < word
    → record_size h ≡ length body
    → 0 < n
    → n < 4 + length body
    → read_step (take n (put_word h ++ body)) st ≡ stop true st
unfolding read_step put_word get_word
read_step-torn h zero body st lt size pos short = absurd (omega arith)
read_step-torn h (suc zero) body st lt size pos short = refl
read_step-torn h (suc (suc zero)) body st lt size pos short = refl
read_step-torn h (suc (suc (suc zero))) body st lt size pos short = refl
read_step-torn h (suc (suc (suc (suc n)))) body st lt size pos short =
    let e : h % 256
          + 256 * (h / 256 % 256)
          + 65536 * (h / 65536 % 256)
          + 16777216 * (h / 16777216 % 256)
        ≡ h =
      omega arith in
    rw e (read_record-short h (take n body) st (omega (arith, length-take n body, size)))

-- A crash that cuts a record short loses that record only: `NewDepsLog` still loads the log as it was
-- before the write, and asks for a recompaction. The log's file replays to its tables before the write,
-- the record's header gives its size, and at least one byte of it was written and one was not.
pub torn_record :
    (d : DepsLog) (h n : ℕ) (body : Bytes)
    → IsMirrored d
    → h < word
    → record_size h ≡ length body
    → 0 < n
    → n < 4 + length body
    → (l : DepsLog) × (new_deps_log (content (d.file ++ take n (put_word h ++ body))) ≡ loaded l)
      × (l.paths ≡ d.paths)
      × (l.path_idx ≡ d.path_idx)
      × (l.deps ≡ d.deps)
      × (l.needs_recompact ≡ true)
torn_record d h n body m lt size pos short =
    let t = take n (put_word h ++ body) in
    let e : d.file ++ t ≡ new_file ++ (m.body ++ t) =
      ap (λ f. f ++ t) m.file_is ∙ append_assoc new_file m.body t in
    let l = finish_load (new_file ++ (m.body ++ t)) true m.st in
    (
      l,
      ap (λ f. new_deps_log (content f)) e
          ∙ new_deps_log-body (m.body ++ t)
          ∙ load_records-stop (new_file ++ (m.body ++ t)) m.body t m.st true m.reads
              (read_step-torn h n body m.st lt size pos short),
      unfold finish_load reset in m.paths_are,
      unfold finish_load reset in m.idx_are,
      unfold finish_load reset in m.deps_are,
      unfold finish_load reset in refl,
    )
