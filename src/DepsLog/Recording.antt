-- ===== src/DepsLog/Recording.antt =====
-- `Record`: it keeps the log and its file in agreement and stores the output's record.
use siso.Common.{
  ℕ, suc, ◌+◌, ◌*◌, ◌^◌, ◌≤◌, ◌<◌, ◌≡◌, refl, ap, ◌∙◌, Bool, true, false, ◌||◌, List, [], ◌∷◌,
  Option, none, some, Bytes, bytes_eq_iff, bytes_eq_refl, or_false, ltb_of_le, Bool-cases, inl, inr,
  length, get_elem?, get_elem?-lt, All, arith,
}
use siso.Common.Words.{sign_bit}
use siso.DepsLog.State.{DepsRecord, DepsLog, PathIdx, lookup, lookup_dep_record}
use siso.DepsLog.Reader.{max_record_size, resolve}
use siso.DepsLog.Writer.{
  Os, ok, deps_record, paths_eq, differs, update_log, as_int32, open_for_write, record_deps, commit,
  record_entry, intern, intern_all,
}
use siso.DepsLog.Codec.{IsStorable}
use siso.DepsLog.Update.{Updated, update_lem, get_elem?-put_dep}
use siso.DepsLog.Mirror.{IsMirrored, IsMirrored-with_deps, WritesWhole, write_whole, with_deps}
use siso.DepsLog.Interning.{
  intern_lem, intern_all_lem, intern-seen, intern_all-known, Keeps, Indexed,
}

paths_eq_sound : (ps qs : List Bytes) → paths_eq ps qs ≡ true → ps ≡ qs
unfolding paths_eq
paths_eq_sound [] [] h = refl
paths_eq_sound [] (q ∷ qs) h = cc
paths_eq_sound (p ∷ ps) [] h = cc
paths_eq_sound (p ∷ ps) (q ∷ qs) h = ground (arith, bytes_eq_iff p q, paths_eq_sound ps qs)

-- A record that does not differ is the same record.
differs_sound :
    (mtime : ℕ) (deps : List Bytes) (ids : List ℕ) (o : Option DepsRecord)
    → differs mtime deps ids o ≡ false
    → o ≡ some (record { mtime = mtime; inputs = deps })
unfolding differs
differs_sound mtime deps ids none h = cc
differs_sound mtime deps ids (some dr) h = ground (arith, paths_eq_sound dr.inputs deps)

lookup_dep_record-some :
    (i : ℕ) (d : DepsLog) (rec : DepsRecord)
    → lookup_dep_record i d ≡ some rec
    → get_elem? d.deps i ≡ some (some rec)
unfolding lookup_dep_record
lookup_dep_record-some i d rec h = ground arith

paths_eq_refl : (ps : List Bytes) → paths_eq ps ps ≡ true
unfolding paths_eq
paths_eq_refl [] = refl
paths_eq_refl (p ∷ ps) = rw (bytes_eq_refl p) (paths_eq_refl ps)

differs-same :
    (mtime : ℕ) (deps : List Bytes) (ids : List ℕ) (i : ℕ) (d : DepsLog)
    → length ids ≡ length deps
    → get_elem? d.deps i ≡ some (some (record { mtime = mtime; inputs = deps }))
    → differs mtime deps ids (lookup_dep_record i d) ≡ false
unfolding differs lookup_dep_record
differs-same mtime deps ids i d len stored =
    rw (lookup_dep_record, stored) (ground (arith, paths_eq_refl deps))

abbrev pub opened : DepsLog → DepsLog
opened d = record d { w = true }

module _ (os : Os) (whole : WritesWhole os) where
  pub record Committed (i mtime : ℕ) (deps : List Bytes) (ids : List ℕ) (added : Bool) (d : DepsLog)
      : Type 0 where
    pub changed : Bool
    pub after : DepsLog
    pub runs : commit os i mtime deps ids added d ≡ (ok changed, after)
    pub mirrored : IsMirrored after
    pub stored : get_elem? after.deps i ≡ some (some (record { mtime = mtime; inputs = deps }))
    pub paths_same : after.paths ≡ d.paths
    pub idx_same : after.path_idx ≡ d.path_idx
    pub unchanged : changed ≡ false → after ≡ d

  commit-same :
      (i mtime : ℕ) (deps : List Bytes) (ids : List ℕ) (added : Bool) (d : DepsLog)
      → (added || differs mtime deps ids (lookup_dep_record i d)) ≡ false
      → commit os i mtime deps ids added d ≡ (ok false, d)
  unfolding commit
  commit-same i mtime deps ids added d h = rw h refl

  commit-new :
      (i mtime : ℕ) (deps : List Bytes) (ids : List ℕ) (added : Bool) (d : DepsLog)
      (u : Updated i (record { mtime = mtime; inputs = deps }) d)
      → (added || differs mtime deps ids (lookup_dep_record i d)) ≡ true
      → i < sign_bit
      → 12 + 4 * length ids ≤ max_record_size
      → commit os i mtime deps ids added d
        ≡ (ok true, with_deps i mtime ids (record { mtime = mtime; inputs = deps }) d u)
  unfolding commit update_log record_deps
  commit-new i mtime deps ids added d u h lt small =
      let same : as_int32 i ≡ i = omega arith in
      rw (h, same, update_log, u.runs, ltb_of_le max_record_size (12 + 4 * length ids) small)
        (rw (write_whole os whole (deps_record i mtime ids) u.after) refl)

  pub commit_lem :
      (i mtime : ℕ) (deps : List Bytes) (ids : List ℕ) (added : Bool) (d : DepsLog)
      → i + 100 < sign_bit
      → mtime < 2 ^ 64
      → 12 + 4 * length ids ≤ max_record_size
      → resolve ids d.paths ≡ some deps
      → IsMirrored d
      → Committed i mtime deps ids added d
  commit_lem i mtime deps ids added d lt fits small h m =
      let rec : DepsRecord = record { mtime = mtime; inputs = deps } in
      elim (Bool-cases (added || differs mtime deps ids (lookup_dep_record i d))) [
        | inl new ↦
            let u = update_lem i rec d lt in
            record {
              changed = true;
              after = with_deps i mtime ids rec d u;
              runs = commit-new i mtime deps ids added d u new (omega arith) small;
              mirrored = IsMirrored-with_deps i mtime ids deps d u lt fits small h m;
              stored = ap (λ t. get_elem? t i) u.deps_are ∙ get_elem?-put_dep i rec d.deps;
              paths_same = u.paths_same;
              idx_same = u.idx_same;
              unchanged = λ e. cc;
            }
        | inr old ↦
            let (_, same) = or_false added (differs mtime deps ids (lookup_dep_record i d)) old in
            record {
              changed = false;
              after = d;
              runs = commit-same i mtime deps ids added d old;
              mirrored = m;
              stored =
                  lookup_dep_record-some i d rec
                    (differs_sound mtime deps ids (lookup_dep_record i d) same);
              paths_same = refl;
              idx_same = refl;
              unchanged = λ e. refl;
            }
      ]

  open_for_write_lem : (d : DepsLog) → os.can_open ≡ true → open_for_write os d ≡ (ok tt, opened d)
  unfolding open_for_write
  open_for_write_lem d h = ground arith

  IsMirrored-opened : (d : DepsLog) → IsMirrored d → IsMirrored (opened d)
  IsMirrored-opened d m = record {
    body = m.body;
    file_is = m.file_is;
    st = m.st;
    reads = m.reads;
    paths_are = m.paths_are;
    idx_are = m.idx_are;
    deps_are = m.deps_are;
    cap_are = m.cap_are;
    sound = m.sound;
  }

  -- What a call of `Record` leaves behind.
  pub record Recorded (output : Bytes) (mtime : ℕ) (deps : List Bytes) (d : DepsLog) : Type 0 where
    pub i : ℕ
    pub changed : Bool
    pub after : DepsLog
    pub runs : record_entry os output mtime deps d ≡ (ok changed, after)
    pub mirrored : IsMirrored after
    pub indexed : lookup output after.path_idx ≡ some i
    pub stored : get_elem? after.deps i ≡ some (some (record { mtime = mtime; inputs = deps }))
    pub ids : List ℕ
    pub deps_indexed : Indexed after.path_idx ids deps
    pub few_paths : length after.paths ≤ length d.paths + suc (length deps)
    pub keeps : Keeps d.path_idx after.path_idx

  record_entry-runs :
      (output : Bytes) (mtime : ℕ) (deps : List Bytes) (d d1 d2 d3 d4 : DepsLog) (i : ℕ)
      (ids : List ℕ) (a b c : Bool)
      → open_for_write os d ≡ (ok tt, d1)
      → intern os output d1 ≡ (ok (i, a), d2)
      → intern_all os deps d2 ≡ (ok (ids, b), d3)
      → commit os i mtime deps ids (a || b) d3 ≡ (ok c, d4)
      → record_entry os output mtime deps d ≡ (ok c, d4)
  unfolding record_entry
  record_entry-runs output mtime deps d d1 d2 d3 d4 i ids a b c e f g h = rw e (rw f (rw g h))

  pub record_entry_lem :
      (output : Bytes) (mtime : ℕ) (deps : List Bytes) (d : DepsLog)
      → os.can_open ≡ true
      → IsStorable output
      → All IsStorable deps
      → mtime < 2 ^ 64
      → 12 + 4 * length deps ≤ max_record_size
      → length d.paths + length deps + 101 < sign_bit
      → IsMirrored d
      → Recorded output mtime deps d
  record_entry_lem output mtime deps d can so sd fits small room m =
      let a = intern_lem os whole output (opened d) so (omega arith) (IsMirrored-opened d m) in
      let b = intern_all_lem os whole deps a.after sd (omega (arith, a.grows)) a.mirrored in
      let here = b.keeps output a.i a.indexed in
      let bound = get_elem?-lt b.after.paths a.i output (b.mirrored.sound output a.i here) in
      let c =
        commit_lem a.i mtime deps b.ids (a.added || b.added) b.after
          (omega (arith, bound, a.grows, b.grows)) fits (omega (arith, b.as_many)) b.resolved
          b.mirrored in
      record {
        i = a.i;
        changed = c.changed;
        after = c.after;
        runs =
            record_entry-runs output mtime deps d (opened d) a.after b.after c.after a.i b.ids
              a.added b.added c.changed (open_for_write_lem d can) a.runs b.runs c.runs;
        mirrored = c.mirrored;
        indexed = ap (lookup output) c.idx_same ∙ here;
        stored = c.stored;
        ids = b.ids;
        deps_indexed = rw c.idx_same b.indexed;
        few_paths = omega (arith, ap length c.paths_same, a.grows, b.grows);
        keeps = λ q j h. ap (lookup q) c.idx_same ∙ b.keeps q j (a.keeps q j h);
      }

  Indexed-length :
      (idx : PathIdx) (ids : List ℕ) (ps : List Bytes) → Indexed idx ids ps → length ids ≡ length ps
  Indexed-length idx [] [] h = refl
  Indexed-length idx [] (p ∷ ps) h = absurd h
  Indexed-length idx (i ∷ ids) [] h = absurd h
  Indexed-length idx (i ∷ ids) (p ∷ ps) h = ap suc (Indexed-length idx ids ps h.1)

  -- The last part of a second call finds the record that it would write.
  commit-stored :
      (i mtime : ℕ) (deps : List Bytes) (ids : List ℕ) (d : DepsLog)
      → length ids ≡ length deps
      → get_elem? d.deps i ≡ some (some (record { mtime = mtime; inputs = deps }))
      → commit os i mtime deps ids false d ≡ (ok false, d)
  commit-stored i mtime deps ids d len stored =
      commit-same i mtime deps ids false d (differs-same mtime deps ids i d len stored)

  pub record_entry_again :
      (output : Bytes) (mtime : ℕ) (deps : List Bytes) (d : DepsLog)
      (r : Recorded output mtime deps d)
      → os.can_open ≡ true
      → record_entry os output mtime deps r.after ≡ (ok false, opened r.after)
  record_entry_again output mtime deps d r can =
      record_entry-runs output mtime deps r.after (opened r.after) (opened r.after) (opened r.after)
        (opened r.after) r.i r.ids false false false (open_for_write_lem r.after can)
        (intern-seen os whole output r.i (opened r.after) r.indexed)
        (intern_all-known os whole r.ids deps (opened r.after) r.deps_indexed)
        (commit-stored r.i mtime deps r.ids (opened r.after)
          (Indexed-length r.after.path_idx r.ids deps r.deps_indexed) r.stored)
