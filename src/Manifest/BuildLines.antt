-- ===== src/Manifest/BuildLines.antt =====
-- Build statements that are written with escapes and parsed (toolsupport/ninjautil/chunk_parser.go).
use siso.Common.{
  ℕ, suc, ◌+◌, ◌≡◌, refl, Bool, true, false, ◌||◌, List, [], ◌∷◌, ◌++◌, some, Bytes, ◌==◌, length,
  take-append, drop-append, All, arith,
}
use siso.Manifest.Lexer.{is_varname, skip_spaces}
use siso.Manifest.Expansion.{no_spaces}
use siso.Manifest.Paths.{
  skipped, scan_path, path, count_varname, ident, is_pipe_end, colon, pipe, pipe2, pipe_at,
}
use siso.Manifest.PathLists.{is_stop, print_paths, scan_path-stop, skip_blank, Ended}

-- A byte of a token.
abbrev pub is_token : ℕ → Bool
is_token c = (c == b'|') || (c == b':')

token-skipped : (c : ℕ) (s : Bytes) → is_token c ≡ true → skip_spaces 0 (c ∷ s) ≡ 0
token-skipped c s h =
    let e : (c == b'$') ≡ false = ground arith in no_spaces c s (rw e refl) (ground arith)

pub token-is_stop : (c : ℕ) (s : Bytes) → is_token c ≡ true → is_stop (c ∷ s) ≡ true
unfolding is_stop
token-is_stop c s h = ground arith

token-skip : (c : ℕ) (s : Bytes) → is_token c ≡ true → skipped (c ∷ s) ≡ c ∷ s
token-skip c s h = rw (token-skipped c s h) refl

pub token-Ended : (c : ℕ) (s : Bytes) → is_token c ≡ true → Ended (c ∷ s) (c ∷ s)
unfolding path
token-Ended c s h =
    let k : is_stop (c ∷ s) ≡ true = token-is_stop c s h in
    rw (path, token-skip c s h, scan_path-stop (c ∷ s) k, token-skip c s h) refl

-- A token behind a blank.
pub blank-Ended : (c : ℕ) (s : Bytes) → is_token c ≡ true → Ended (b' ' ∷ c ∷ s) (c ∷ s)
unfolding path
blank-Ended c s h =
    let k : is_stop (c ∷ s) ≡ true = token-is_stop c s h in
    let e = skip_blank (c ∷ s) (token-skipped c s h) in
    rw (path, e, scan_path-stop (c ∷ s) k, e) refl

pub line-Ended : Ended (b'\n' ∷ []) []
unfolding path scan_path skip_spaces
line-Ended = refl

pub line-is_stop : is_stop (b'\n' ∷ []) ≡ true
unfolding is_stop
line-is_stop = refl

pub blank-is_stop : (s : Bytes) → is_stop (b' ' ∷ s) ≡ true
unfolding is_stop
blank-is_stop s = refl

-- The tokens.
pub pipe-token : (u : Bytes) → is_pipe_end u ≡ true → pipe (b'|' ∷ u) ≡ (true, u)
unfolding pipe
pipe-token u h = rw (pipe, token-skip b'|' u refl, h) refl

pub pipe2-token : (u : Bytes) → pipe2 (b'|' ∷ b'|' ∷ u) ≡ (true, u)
unfolding pipe2
pipe2-token u = rw (pipe2, token-skip b'|' (b'|' ∷ u) refl) refl

pub pipe_at-token : (u : Bytes) → pipe_at (b'|' ∷ b'@' ∷ u) ≡ (true, u)
unfolding pipe_at
pipe_at-token u = rw (pipe_at, token-skip b'|' (b'@' ∷ u) refl) refl

pub colon-token : (u : Bytes) → colon (b':' ∷ u) ≡ (true, u)
unfolding colon
colon-token u = rw (colon, token-skip b':' u refl) refl

-- The name of a rule has characters of names only, and is not empty.
unfoldable pub IsRuleName : Bytes → Type 0
IsRuleName [] = ⊥
IsRuleName (c ∷ s) = All (λ b. is_varname b ≡ true) (c ∷ s)

count_varname-length :
    (r u : Bytes) → All (λ b. is_varname b ≡ true) r → count_varname (r ++ (b' ' ∷ u)) ≡ length r
unfolding count_varname
count_varname-length [] u h = refl
count_varname-length (c ∷ r) u h =
    let e : length r + 1 ≡ suc (length r) = omega arith in rw (h.0, count_varname-length r u h.1) e

name-skipped : (c : ℕ) (s : Bytes) → is_varname c ≡ true → skip_spaces 0 (c ∷ s) ≡ 0
name-skipped c s h =
    let e : (c == b'$') ≡ false = ground arith in no_spaces c s (rw e refl) (ground arith)

pub ident-name :
    (r u : Bytes) → IsRuleName r → ident (b' ' ∷ (r ++ (b' ' ∷ u))) ≡ some (r, b' ' ∷ u)
unfolding ident IsRuleName
ident-name [] u h = absurd h
ident-name (c ∷ r) u h =
    let v = b' ' ∷ u in
    let e = skip_blank (c ∷ (r ++ v)) (name-skipped c (r ++ v) h.0) in
    let n = count_varname-length (c ∷ r) u h in
    rw (ident, e, n, take-append r v (length r) refl, drop-append r v (length r) refl) refl

pub pipe_end-print_paths :
    (ps : List Bytes) (t : Bytes) → is_pipe_end t ≡ true → is_pipe_end (print_paths ps t) ≡ true
unfolding print_paths
pipe_end-print_paths [] t h = h
pipe_end-print_paths (p ∷ ps) t h = refl

-- What starts with a blank.
pub blank-print_paths :
    (ps : List Bytes) (t : Bytes) → (w : Bytes) × (print_paths ps (b' ' ∷ t) ≡ b' ' ∷ w)
unfolding print_paths
blank-print_paths [] t = (t, refl)
blank-print_paths (p ∷ ps) t = (_, refl)
