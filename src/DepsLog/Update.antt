-- ===== src/DepsLog/Update.antt =====
-- What `update` does to the table of deps records, when the output's index is in range.
use siso.Common.{
  ℕ, suc, ◌+◌, ◌-◌, ◌*◌, ◌/◌, ◌<◌, ◌≡◌, refl, Bool, true, false, List, append-nil, Option, none,
  some, leb, ltb, if◌then◌else◌, Bool-cases, inl, inr, length, get_elem?, set, replicate,
  length-append, length-replicate, get_elem?-set_self, arith,
}
use siso.Common.Words.{sign_bit}
use siso.DepsLog.State.{DepsRecord, DepsLog, store, pad, update}

unfoldable pub put_dep : ℕ → DepsRecord → List (Option DepsRecord) → List (Option DepsRecord)
put_dep i rec deps = set (pad (i + 1) deps) i (some rec)

unfoldable pub grown_cap : ℕ → ℕ → ℕ → ℕ
grown_cap i cap len = if ltb i len then cap else if ltb i cap then cap else (i + 100) / 100 * 100

pub record Updated (i : ℕ) (rec : DepsRecord) (d : DepsLog) : Type 0 where
  pub existed : Bool
  pub after : DepsLog
  pub runs : update i rec d ≡ some (existed, after)
  pub deps_are : after.deps ≡ put_dep i rec d.deps
  pub cap_is : after.deps_cap ≡ grown_cap i d.deps_cap (length d.deps)
  pub paths_same : after.paths ≡ d.paths
  pub idx_same : after.path_idx ≡ d.path_idx
  pub file_same : after.file ≡ d.file
  pub w_same : after.w ≡ d.w
  pub r_paths_same : after.r_paths ≡ d.r_paths
  pub r_idx_same : after.r_path_idx ≡ d.r_path_idx

pad-long : (n : ℕ) (xs : List (Option DepsRecord)) → n < suc (length xs) → pad n xs ≡ xs
unfolding pad
pad-long n xs h = let e : n - length xs ≡ 0 = omega arith in rw e (append-nil xs)

length-pad : (i : ℕ) (xs : List (Option DepsRecord)) → i < length (pad (i + 1) xs)
unfolding pad
length-pad i xs =
    let absent : Option DepsRecord = none in
    let r = replicate (i + 1 - length xs) absent in
    omega (arith, length-append xs r, length-replicate (i + 1 - length xs) absent)

pub get_elem?-put_dep :
    (i : ℕ) (rec : DepsRecord) (deps : List (Option DepsRecord))
    → get_elem? (put_dep i rec deps) i ≡ some (some rec)
unfolding put_dep
get_elem?-put_dep i rec deps =
    get_elem?-set_self (pad (i + 1) deps) i (some rec) (length-pad i deps)

pub update_lem : (i : ℕ) (rec : DepsRecord) (d : DepsLog) → i + 100 < sign_bit → Updated i rec d
unfolding update store put_dep grown_cap
update_lem i rec d small =
    let pos : leb sign_bit i ≡ false = ground arith in
    let fits : leb sign_bit (i + 100) ≡ false = ground arith in
    elim (Bool-cases (ltb i (length d.deps))) [
      | inl there ↦ record {
        existed = true;
        after = store i rec d;
        runs = rw (pos, there) refl;
        deps_are = rw (pad-long (i + 1) d.deps (ground arith)) refl;
        cap_is = rw there refl;
        paths_same = refl;
        idx_same = refl;
        file_same = refl;
        w_same = refl;
        r_paths_same = refl;
        r_idx_same = refl;
      }
      | inr new ↦ elim (Bool-cases (ltb i d.deps_cap)) [
        | inl room ↦ record {
          existed = false;
          after = store i rec (record d { deps = pad (i + 1) d.deps });
          runs = rw (pos, new, room) refl;
          deps_are = refl;
          cap_is = rw (new, room) refl;
          paths_same = refl;
          idx_same = refl;
          file_same = refl;
          w_same = refl;
          r_paths_same = refl;
          r_idx_same = refl;
        }
        | inr full ↦ record {
          existed = false;
          after = store i rec (record d {
            deps = pad (i + 1) d.deps;
            deps_cap = (i + 100) / 100 * 100;
            shares = false;
          });
          runs = rw (pos, new, full, fits) refl;
          deps_are = refl;
          cap_is = rw (new, full) refl;
          paths_same = refl;
          idx_same = refl;
          file_same = refl;
          w_same = refl;
          r_paths_same = refl;
          r_idx_same = refl;
        }
      ]
    ]
