-- ===== src/DepsLog/Reopen.antt =====
-- What `NewDepsLog` reads from a file that `Record` wrote, whole or cut short.
use siso.Common.{
  ℕ, ◌+◌, ◌*◌, ◌^◌, ◌≤◌, ◌<◌, ◌≡◌, refl, sym, ap, ◌∙◌, Bool, true, false, List, [], ◌∷◌, ◌++◌, some,
  Bytes, bytes_eq, bytes_eq_refl, length, get_elem?, All, arith,
}
use siso.Common.Words.{sign_bit, put_word, get_word}
use siso.DepsLog.State.{DepsLog, PathIdx, lookup, get, get_at, get_deps, found, reset}
use siso.DepsLog.Reader.{
  new_file, loaded, content, new_deps_log, after_version, load_records, finish_load,
  max_record_size,
}
use siso.DepsLog.Writer.{Os, record_entry}
use siso.DepsLog.Codec.{IsStorable}
use siso.DepsLog.Reads.{load_records-Reads}
use siso.DepsLog.Mirror.{IsMirrored, WritesWhole}
use siso.DepsLog.Recording.{record_entry_lem}

-- A file with the right signature and version is read record by record.
pub new_deps_log-body :
    (body : Bytes)
    → new_deps_log (content (new_file ++ body)) ≡ load_records (new_file ++ body) body
unfolding new_deps_log after_version get_word put_word bytes_eq
new_deps_log-body body = refl

-- The same table of paths and of deps records.
pub record SameLog (l d : DepsLog) : Type 0 where
  pub paths : l.paths ≡ d.paths
  pub idx : l.path_idx ≡ d.path_idx
  pub deps : l.deps ≡ d.deps
  pub file : l.file ≡ d.file

loaded_whole :
    (d : DepsLog) (m : IsMirrored d)
    → new_deps_log (content d.file) ≡ loaded (finish_load d.file false m.st)
loaded_whole d m =
    ap (λ f. new_deps_log (content f)) m.file_is
    ∙ new_deps_log-body m.body
    ∙ load_records-Reads (new_file ++ m.body) m.body m.st m.reads
    ∙ ap (λ f. loaded (finish_load f false m.st)) (sym m.file_is)

pub SameLog-finish_load :
    (d : DepsLog) (m : IsMirrored d) (broken : Bool) → SameLog (finish_load d.file broken m.st) d
unfolding finish_load reset
SameLog-finish_load d m broken = record {
  paths = m.paths_are;
  idx = m.idx_are;
  deps = m.deps_are;
  file = refl;
}

-- `Get` on a log that has just been reset or loaded.
pub get-found :
    (l : DepsLog) (output : Bytes) (i mtime : ℕ) (deps : List Bytes)
    → lookup output l.r_path_idx ≡ some i
    → get_elem? l.r_paths i ≡ some output
    → get_elem? l.r_deps i ≡ some (some (record { mtime = mtime; inputs = deps }))
    → get l output ≡ found deps mtime
unfolding get get_at get_deps
get-found l output i mtime deps e f g =
    rw (get, e, f, get_at, bytes_eq_refl output, g, get_deps) refl

-- The state after a call.
abbrev pub after_record : Os → Bytes → ℕ → List Bytes → DepsLog → DepsLog
after_record os output mtime deps d = (record_entry os output mtime deps d).1

-- `l` is what a restart of the build loads from the file of `d`.
pub record Reopened (d : DepsLog) (l : DepsLog) : Type 0 where
  pub loads : new_deps_log (content d.file) ≡ loaded l
  pub same : SameLog l d

pub Reopened-IsMirrored :
    (d : DepsLog) (m : IsMirrored d) → Reopened d (finish_load d.file false m.st)
Reopened-IsMirrored d m = record { loads = loaded_whole d m; same = SameLog-finish_load d m false }

pub lookup-append :
    (p : Bytes) (i : ℕ) (a b : PathIdx) → lookup p a ≡ some i → lookup p (a ++ b) ≡ some i
unfolding lookup
lookup-append p i [] b h = cc
lookup-append p i ((q, j) ∷ a) b h = ground (arith, lookup-append p i a b)

get-finish_load :
    (d : DepsLog) (m : IsMirrored d) (output : Bytes) (i mtime : ℕ) (deps : List Bytes)
    → lookup output d.path_idx ≡ some i
    → get_elem? d.deps i ≡ some (some (record { mtime = mtime; inputs = deps }))
    → get (finish_load d.file false m.st) output ≡ found deps mtime
unfolding finish_load reset
get-finish_load d m output i mtime deps e g =
    get-found (finish_load d.file false m.st) output i mtime deps
      (lookup-append output i m.st.log.path_idx _ (ap (lookup output) m.idx_are ∙ e))
      (ap (λ t. get_elem? t i) m.paths_are ∙ m.sound output i e)
      (ap (λ t. get_elem? t i) m.deps_are ∙ g)

-- After `Record` of `output`, `NewDepsLog` on the file succeeds: it has the writer's paths, path index and
-- deps records, and `Get` of `output` returns the recorded mtime and inputs. The conditions are that the
-- file opens and every write is whole, that the format can hold the paths, the mtime and the record, that
-- the indices stay below 2^31, and that the log's file replays to its tables before.
pub reopen-record :
    (os : Os) (output : Bytes) (mtime : ℕ) (deps : List Bytes) (d : DepsLog)
    → WritesWhole os
    → os.can_open ≡ true
    → IsStorable output
    → All IsStorable deps
    → mtime < 2 ^ 64
    → 12 + 4 * length deps ≤ max_record_size
    → length d.paths + length deps + 101 < sign_bit
    → IsMirrored d
    → (l : DepsLog) × Reopened (after_record os output mtime deps d) l
      × (get l output ≡ found deps mtime)
reopen-record os output mtime deps d whole can so sd fits small room m =
    let r = record_entry_lem os whole output mtime deps d can so sd fits small room m in
    let e : after_record os output mtime deps d ≡ r.after = ap (λ x. x.1) r.runs in
    let l = finish_load r.after.file false r.mirrored.st in
    (
      l,
      rw e (Reopened-IsMirrored r.after r.mirrored),
      get-finish_load r.after r.mirrored output r.i mtime deps r.indexed r.stored,
    )
