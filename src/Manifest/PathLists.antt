-- ===== src/Manifest/PathLists.antt =====
-- Path lists that are written with escapes and parsed (toolsupport/ninjautil/paths.go).
use siso.Common.{
  ℕ, zero, suc, ◌+◌, ◌≤◌, ◌<◌, ◌≡◌, refl, ◌∙◌, ap, Bool, true, false, not, ◌&&◌, ◌||◌, List, [],
  ◌∷◌, ◌++◌, map, Option, some, Bytes, ◌==◌, length, length-append, take-append, drop-append, All,
  Bool-cases, inl, inr, arith,
}
use siso.Manifest.Lexer.{is_whitespace, is_non_literal, skip_spaces}
use siso.Manifest.Bindings.{EvalString}
use siso.Manifest.Eval.{text, evaluate, count_escapes}
use siso.Manifest.Templates.{escape}
use siso.Manifest.Expansion.{
  no_dollar, count_escapes-escaped, escape-nonempty, skip_spaces-escape, escape_value,
}
use siso.Manifest.Paths.{skipped, scan_path, path, path_list_loop, parse_path_list}

-- A byte that a path may have: no tab, line break, bar or zero.
abbrev pub is_path_byte : ℕ → Bool
is_path_byte c = not ((c == b'\t') || (c == b'\r') || (c == b'\n') || (c == b'|') || (c == 0))

-- A path does not start with a blank.
unfoldable pub IsPath : Bytes → Type 0
IsPath [] = ⊥
IsPath (c ∷ s) = (is_whitespace c ≡ false) × All (λ b. is_path_byte b ≡ true) (c ∷ s)

-- What may stand behind a path.
unfoldable pub is_stop : Bytes → Bool
is_stop [] = true
is_stop (c ∷ s) = is_non_literal c && not (c == b'$')

-- The paths, each behind a blank, and what stands behind them.
unfoldable pub print_paths : List Bytes → Bytes → Bytes
print_paths [] t = t
print_paths (p ∷ ps) t = b' ' ∷ escape p ++ print_paths ps t

-- The scan of an escaped path finds its end, and counts its escapes.
abbrev pub Scanned : Bytes → Bytes → Type 0
Scanned v t = (n : ℕ) × ((scan_path 0 (v ++ t) ≡ some (length v, n)) × (count_escapes 0 v ≡ some n))

pub scan_path-stop : (t : Bytes) → is_stop t ≡ true → scan_path 0 t ≡ some (0, 0)
unfolding scan_path is_stop
scan_path-stop [] h = refl
scan_path-stop (c ∷ t) h =
    let e : is_non_literal c ≡ true = ground arith in
    let f : (c == b'$') ≡ false = ground arith in rw (scan_path, e, f) refl

scan_path-plain :
    (c : ℕ) (s : Bytes) (n esc : ℕ)
    → is_non_literal c ≡ false
    → scan_path 0 s ≡ some (n, esc)
    → scan_path 0 (c ∷ s) ≡ some (suc n, esc)
unfolding scan_path
scan_path-plain c s n esc h k = let q : n + 1 ≡ suc n = omega arith in rw (scan_path, h, k, q) refl

scan_path-escaped :
    (c : ℕ) (s : Bytes) (n esc : ℕ)
    → ((c == b' ') || (c == b':') || (c == b'$')) ≡ true
    → scan_path 0 s ≡ some (n, esc)
    → scan_path 0 (b'$' ∷ c ∷ s) ≡ some (suc (suc n), esc + 1)
unfolding scan_path
scan_path-escaped c s n esc h k =
    let w1 : (c == b'\r') ≡ false = ground arith in
    let w2 : (c == b'\n') ≡ false = ground arith in
    let q : scan_path 1 (c ∷ s) ≡ some (n + 1, esc) = rw k refl in
    let r : n + 1 + 1 ≡ suc (suc n) = omega arith in rw (scan_path, w1, w2, q, r) refl

scan_path-escape :
    (p t : Bytes) → All (λ b. is_path_byte b ≡ true) p → is_stop t ≡ true → Scanned (escape p) t
unfolding escape count_escapes
scan_path-escape [] t h k = (0, (scan_path-stop t k, refl))
scan_path-escape (c ∷ p) t h k =
    let (n, (a, b)) = scan_path-escape p t h.1 k in
    elim (Bool-cases ((c == b' ') || (c == b':') || (c == b'$'))) [
      | inl e ↦ rw e (
        n + 1,
        (
          scan_path-escaped c (escape p ++ t) (length (escape p)) n e a,
          count_escapes-escaped c n (escape p) e b,
        ),
      )
      | inr e ↦
          let q = h.0 in
          rw e (
            n,
            (
              scan_path-plain c (escape p ++ t) (length (escape p)) n (ground arith) a,
              no_dollar c (escape p) (ground arith) ∙ b,
            ),
          )
    ]

pub skip_blank : (s : Bytes) → skip_spaces 0 s ≡ 0 → skipped (b' ' ∷ s) ≡ s
unfolding skip_spaces
skip_blank s h = rw (skip_spaces, h) refl

parsed_off :
    (v t : Bytes) (n : ℕ)
    → skipped (b' ' ∷ (v ++ t)) ≡ v ++ t
    → scan_path 0 (v ++ t) ≡ some (length v, n)
    → path (b' ' ∷ (v ++ t)) ≡ some (record { pos = 0; v = v; esc = n }, t)
unfolding path
parsed_off v t n e a =
    rw (path, e, a, e, take-append v t (length v) refl, drop-append v t (length v) refl) refl

-- A path is parsed off, and has the path for its value.
path-print_paths :
    (env : ℕ → Bytes → Option EvalString) (p t : Bytes)
    → IsPath p
    → is_stop t ≡ true
    → (x : EvalString) × ((path (b' ' ∷ (escape p ++ t)) ≡ some (x, t))
        × (evaluate env x ≡ text p)
        × (0 < length (x.v)))
unfolding IsPath path
path-print_paths env [] t h k = absurd h
path-print_paths env (c ∷ s) t h k =
    let v = escape (c ∷ s) in
    let (n, (a, b)) = scan_path-escape (c ∷ s) t h.1 k in
    let e = skip_blank (v ++ t) (skip_spaces-escape c s t h.0) in
    (
      record { pos = 0; v = v; esc = n },
      (parsed_off v t n e a, escape_value env n (c ∷ s) b, escape-nonempty c s),
    )

-- No path comes next, and this is left.
abbrev pub Ended : Bytes → Bytes → Type 0
Ended t rest = path t ≡ some (record { pos = 0; v = []; esc = 0 }, rest)

loop-end :
    (fuel : ℕ) (t rest : Bytes) → Ended t rest → path_list_loop (suc fuel) t ≡ some ([], rest)
unfolding path_list_loop
loop-end fuel t rest h = rw (path_list_loop, h) refl

loop-path :
    (fuel : ℕ) (s : Bytes) (pos esc : ℕ) (v rest : Bytes) (xs : List EvalString) (end : Bytes)
    → path s ≡ some (record { pos = pos; v = v; esc = esc }, rest)
    → 0 < length v
    → path_list_loop fuel rest ≡ some (xs, end)
    → path_list_loop (suc fuel) s ≡ some (record { pos = pos; v = v; esc = esc } ∷ xs, end)
unfolding path_list_loop
loop-path fuel s pos esc [] rest xs end h l k = absurd (omega arith)
loop-path fuel s pos esc (c ∷ v) rest xs end h l k = rw (path_list_loop, h, k) refl

pub is_stop-print_paths :
    (ps : List Bytes) (t : Bytes) → is_stop t ≡ true → is_stop (print_paths ps t) ≡ true
unfolding is_stop print_paths
is_stop-print_paths [] t h = h
is_stop-print_paths (p ∷ ps) t h = refl

-- The values of what is parsed are the paths.
abbrev pub Values : (ℕ → Bytes → Option EvalString) → List EvalString → List Bytes → Type 0
Values env xs ps = map (evaluate env) xs ≡ map text ps

pub path_list_loop-print_paths :
    (env : ℕ → Bytes → Option EvalString) (fuel : ℕ) (ps : List Bytes) (t rest : Bytes)
    → All IsPath ps
    → is_stop t ≡ true
    → Ended t rest
    → length ps < fuel
    → (xs : List EvalString) × (path_list_loop fuel (print_paths ps t) ≡ some (xs, rest))
      × Values env xs ps
unfolding print_paths
path_list_loop-print_paths env zero ps t rest h k e l = absurd (omega arith)
path_list_loop-print_paths env (suc fuel) [] t rest h k e l = ([], loop-end fuel t rest e, refl)
path_list_loop-print_paths env (suc fuel) (p ∷ ps) t rest h k e l =
    let (x, (a, b, c)) =
      path-print_paths env p (print_paths ps t) h.0 (is_stop-print_paths ps t k) in
    let (xs, d, f) = path_list_loop-print_paths env fuel ps t rest h.1 k e (omega arith) in
    (
      x ∷ xs,
      loop-path fuel _ (x.pos) (x.esc) (x.v) (print_paths ps t) xs rest a c d,
      ap (λ y. y ∷ map (evaluate env) xs) b ∙ ap (λ y. text p ∷ y) f,
    )

length-print_paths : (ps : List Bytes) (t : Bytes) → length ps ≤ length (print_paths ps t)
unfolding print_paths
length-print_paths [] t = omega arith
length-print_paths (p ∷ ps) t =
    let l = length-append (escape p) (print_paths ps t) in
    let ih = length-print_paths ps t in omega arith

pub parse_path_list-print_paths :
    (env : ℕ → Bytes → Option EvalString) (ps : List Bytes) (t rest : Bytes)
    → All IsPath ps
    → is_stop t ≡ true
    → Ended t rest
    → (xs : List EvalString) × (parse_path_list (print_paths ps t) ≡ some (xs, rest))
      × Values env xs ps
unfolding parse_path_list
parse_path_list-print_paths env ps t rest h k e =
    let l = length-print_paths ps t in
    path_list_loop-print_paths env (length (print_paths ps t) + 1) ps t rest h k e (omega arith)
