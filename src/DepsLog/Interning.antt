-- ===== src/DepsLog/Interning.antt =====
-- Giving indices to the paths of one `Record` call.
use siso.Common.{
  ℕ, ◌+◌, ◌≤◌, ◌<◌, ◌≡◌, refl, ◌∙◌, Bool, true, false, ◌||◌, List, [], ◌∷◌, ◌++◌, none, some, Bytes,
  bytes_eq, bytes_eq_iff, bytes_eq_refl, ltb, ltb_of_le, or_false, leb_of_lt, Bool-cases,
  Option-cases, inl, inr, length, get_elem?, get_elem?-lt, length-append, All, arith,
}
use siso.Common.Words.{sign_bit}
use siso.DepsLog.State.{DepsLog, PathIdx, lookup}
use siso.DepsLog.Reader.{max_record_size, resolve}
use siso.DepsLog.Writer.{Os, ok, padding, path_record, record_path, intern, intern_all}
use siso.DepsLog.Codec.{IsStorable}
use siso.DepsLog.Mirror.{IsMirrored, IsMirrored-with_path, WritesWhole, write_whole, with_path}

-- Every path keeps its index.
abbrev pub Keeps : PathIdx → PathIdx → Type 0
Keeps idx idx' = (q : Bytes) (j : ℕ) → lookup q idx ≡ some j → lookup q idx' ≡ some j

Keeps-add : (p : Bytes) (n : ℕ) (idx : PathIdx) → lookup p idx ≡ none → Keeps idx ((p, n) ∷ idx)
unfolding lookup
Keeps-add p n idx fresh q j h = elim (Bool-cases (bytes_eq p q)) [
  | inl same ↦
      let e = (bytes_eq_iff p q).0 same in
      let gone : lookup q idx ≡ none = rw (← e) fresh in cc (h, gone)
  | inr other ↦ rw other h
]

-- Each path has its id in the index.
abbrev pub Indexed : PathIdx → List ℕ → List Bytes → Type 0
Indexed idx [] [] = Unit
Indexed idx [] (p ∷ ps) = ⊥
Indexed idx (i ∷ ids) [] = ⊥
Indexed idx (i ∷ ids) (p ∷ ps) = (lookup p idx ≡ some i) × Indexed idx ids ps

lookup_self : (p : Bytes) (n : ℕ) (idx : PathIdx) → lookup p ((p, n) ∷ idx) ≡ some n
unfolding lookup
lookup_self p n idx = rw (bytes_eq_refl p) refl

module _ (os : Os) (whole : WritesWhole os) where
  record_path-IsStorable :
      (i : ℕ) (p : Bytes) (d : DepsLog)
      → IsStorable p
      → record_path os i p d ≡ (ok tt, record d { file = d.file ++ path_record i p })
  record_path-IsStorable i p d s =
      let small : ltb max_record_size (length p + padding (length p) + 4) ≡ false =
        ltb_of_le _ _ s.fits in
      unfold record_path in rw (record_path, small) (write_whole os whole (path_record i p) d)

  intern-fresh :
      (p : Bytes) (d : DepsLog)
      → IsStorable p
      → lookup p d.path_idx ≡ none
      → intern os p d ≡ (ok (length d.paths, true), with_path p d)
  unfolding intern
  intern-fresh p d s fresh = rw (intern, fresh, record_path-IsStorable (length d.paths) p _ s) refl

  pub intern-seen :
      (p : Bytes) (i : ℕ) (d : DepsLog)
      → lookup p d.path_idx ≡ some i
      → intern os p d ≡ (ok (i, false), d)
  unfolding intern
  intern-seen p i d seen = rw (intern, seen) refl

  pub record Interned (p : Bytes) (d : DepsLog) : Type 0 where
    pub i : ℕ
    pub added : Bool
    pub after : DepsLog
    pub runs : intern os p d ≡ (ok (i, added), after)
    pub mirrored : IsMirrored after
    pub indexed : lookup p after.path_idx ≡ some i
    pub keeps : Keeps d.path_idx after.path_idx
    pub grows : length after.paths ≤ length d.paths + 1
    pub deps_same : after.deps ≡ d.deps
    pub old : added ≡ false → after ≡ d

  pub intern_lem :
      (p : Bytes) (d : DepsLog)
      → IsStorable p
      → length d.paths < sign_bit
      → IsMirrored d
      → Interned p d
  intern_lem p d s lt m = elim (Option-cases (lookup p d.path_idx)) [
    | inl fresh ↦ record {
      i = length d.paths;
      added = true;
      after = with_path p d;
      runs = intern-fresh p d s fresh;
      mirrored = IsMirrored-with_path p d s lt m;
      indexed = lookup_self p (length d.paths) d.path_idx;
      keeps = Keeps-add p (length d.paths) d.path_idx fresh;
      grows = omega (arith, length-append d.paths (p ∷ []));
      deps_same = refl;
      old = λ e. cc;
    }
    | inr (i, seen) ↦ record {
      i = i;
      added = false;
      after = d;
      runs = intern-seen p i d seen;
      mirrored = m;
      indexed = seen;
      keeps = λ q j h. h;
      grows = omega arith;
      deps_same = refl;
      old = λ e. refl;
    }
  ]

  pub record InternedAll (ps : List Bytes) (d : DepsLog) : Type 0 where
    pub ids : List ℕ
    pub added : Bool
    pub after : DepsLog
    pub runs : intern_all os ps d ≡ (ok (ids, added), after)
    pub mirrored : IsMirrored after
    pub resolved : resolve ids after.paths ≡ some ps
    pub indexed : Indexed after.path_idx ids ps
    pub keeps : Keeps d.path_idx after.path_idx
    pub grows : length after.paths ≤ length d.paths + length ps
    pub deps_same : after.deps ≡ d.deps
    pub old : added ≡ false → after ≡ d
    pub as_many : length ids ≡ length ps

  resolve_cons :
      (i : ℕ) (ids : List ℕ) (p : Bytes) (ps paths : List Bytes)
      → i < sign_bit
      → get_elem? paths i ≡ some p
      → resolve ids paths ≡ some ps
      → resolve (i ∷ ids) paths ≡ some (p ∷ ps)
  unfolding resolve
  resolve_cons i ids p ps paths lt here rest =
      rw (resolve, leb_of_lt sign_bit i lt, here, rest) refl

  intern_all_cons :
      (p : Bytes) (ps : List Bytes) (d d1 d2 : DepsLog) (i : ℕ) (ids : List ℕ) (a b : Bool)
      → intern os p d ≡ (ok (i, a), d1)
      → intern_all os ps d1 ≡ (ok (ids, b), d2)
      → intern_all os (p ∷ ps) d ≡ (ok (i ∷ ids, a || b), d2)
  unfolding intern_all
  intern_all_cons p ps d d1 d2 i ids a b e f = rw e (rw f refl)

  pub intern_all_lem :
      (ps : List Bytes) (d : DepsLog)
      → All IsStorable ps
      → length d.paths + length ps < sign_bit
      → IsMirrored d
      → InternedAll ps d
  intern_all_lem [] d s lt m = record {
    ids = [];
    added = false;
    after = d;
    runs = unfold intern_all in refl;
    mirrored = m;
    resolved = unfold resolve in refl;
    indexed = tt;
    keeps = λ q j h. h;
    grows = omega arith;
    deps_same = refl;
    old = λ e. refl;
    as_many = refl;
  }
  intern_all_lem (p ∷ ps) d s lt m =
      let a = intern_lem p d s.0 (omega arith) m in
      let b = intern_all_lem ps a.after s.1 (omega (arith, a.grows)) a.mirrored in
      let here : get_elem? b.after.paths a.i ≡ some p =
        b.mirrored.sound p a.i (b.keeps p a.i a.indexed) in
      let bound = get_elem?-lt b.after.paths a.i p here in
      record {
        ids = a.i ∷ b.ids;
        added = a.added || b.added;
        after = b.after;
        runs = intern_all_cons p ps d a.after b.after a.i b.ids a.added b.added a.runs b.runs;
        mirrored = b.mirrored;
        resolved =
            resolve_cons a.i b.ids p ps b.after.paths (omega (arith, bound, a.grows, b.grows)) here
              b.resolved;
        indexed = (b.keeps p a.i a.indexed, b.indexed);
        keeps = λ q j h. b.keeps q j (a.keeps q j h);
        grows = omega (arith, a.grows, b.grows);
        deps_same = b.deps_same ∙ a.deps_same;
        old = λ e. let (ea, eb) = or_false a.added b.added e in b.old eb ∙ a.old ea;
        as_many = omega (arith, b.as_many);
      }

  -- Paths that are all known are found, and nothing changes.
  pub intern_all-known :
      (ids : List ℕ) (ps : List Bytes) (d : DepsLog)
      → Indexed d.path_idx ids ps
      → intern_all os ps d ≡ (ok (ids, false), d)
  intern_all-known [] [] d h = unfold intern_all in refl
  intern_all-known [] (p ∷ ps) d h = absurd h
  intern_all-known (i ∷ ids) [] d h = absurd h
  intern_all-known (i ∷ ids) (p ∷ ps) d h =
      intern_all_cons p ps d d d i ids false false (intern-seen p i d h.0)
        (intern_all-known ids ps d h.1)
