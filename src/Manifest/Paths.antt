-- ===== src/Manifest/Paths.antt =====
-- The parser of path lists in toolsupport/ninjautil/paths.go. Its state is the rest of the buffer.
use siso.Common.{
  ℕ, zero, suc, ◌+◌, Bool, true, false, not, ◌&&◌, ◌||◌, List, [], ◌∷◌, Option, none, some, Bytes,
  ◌==◌, if◌then◌else◌, length, take, drop,
}
use siso.Manifest.Lexer.{is_varname, is_non_literal, starts_with_lf, starts_with_crlf, skip_spaces}
use siso.Manifest.Bindings.{EvalString}

-- `skipSpaces` at the position.
abbrev pub skipped : Bytes → Bytes
skipped s = drop (skip_spaces 0 s) s

-- The length of a path and the number of its `$`, where `k` bytes behind a `$` are left; a `$` at the end of
-- the buffer makes the next slice panic.
unfoldable pub scan_path : ℕ → Bytes → Option (ℕ × ℕ)
scan_path zero [] = some (0, 0)
scan_path (suc k) [] = none
scan_path (suc k) (c ∷ s) = elim (scan_path k s) [ none ↦ none | some (n, esc) ↦ some (n + 1, esc) ]
scan_path zero (c ∷ s) = elim (is_non_literal c) [
  | false ↦ elim (scan_path 0 s) [ none ↦ none | some (n, esc) ↦ some (n + 1, esc) ]
  | true ↦ elim ((c == b'$') && not (starts_with_crlf s || starts_with_lf s)) [
    | false ↦ some (0, 0)
    | true ↦ elim (scan_path 1 s) [ none ↦ none | some (n, esc) ↦ some (n + 1, esc + 1) ]
  ]
]

-- `path`: the path, which is empty where there is none, and the rest; or a panic.
unfoldable pub path : Bytes → Option (EvalString × Bytes)
path s =
    let buf = skipped s in
    elim (scan_path 0 buf) [
      | none ↦ none
      | some (n, esc) ↦ some (record { pos = 0; v = take n buf; esc = esc }, drop n buf)
    ]

-- `pathList`; each path takes a byte.
unfoldable pub path_list_loop : ℕ → Bytes → Option (List EvalString × Bytes)
path_list_loop zero s = none
path_list_loop (suc fuel) s = elim (path s) [
  | none ↦ none
  | some (x, rest) ↦ elim (x.v) [
    | [] ↦ some ([], rest)
    | c ∷ v ↦ elim (path_list_loop fuel rest) [ none ↦ none | some (xs, end) ↦ some (x ∷ xs, end) ]
  ]
]

unfoldable pub parse_path_list : Bytes → Option (List EvalString × Bytes)
parse_path_list s = path_list_loop (length s + 1) s

unfoldable pub count_varname : Bytes → ℕ
count_varname [] = 0
count_varname (c ∷ s) = let rest = count_varname s in if is_varname c then rest + 1 else 0

-- `ident`
unfoldable pub ident : Bytes → Option (Bytes × Bytes)
ident s = elim (skipped s) [
  | [] ↦ none
  | c ∷ t ↦ some (take (count_varname (c ∷ t)) (c ∷ t), drop (count_varname (c ∷ t)) (c ∷ t))
]

-- `colon`, `pipe`, `pipe2` and `pipeAt`: whether the token is next, and the rest.
unfoldable pub colon : Bytes → Bool × Bytes
colon s = elim (skipped s) [
  | [] ↦ (false, [])
  | c ∷ t ↦ if c == b':' then (true, t) else (false, c ∷ t)
]

abbrev pub is_pipe_end : Bytes → Bool
is_pipe_end [] = true
is_pipe_end (c ∷ s) = not ((c == b'|') || (c == b'@'))

unfoldable pub pipe : Bytes → Bool × Bytes
pipe s = elim (skipped s) [
  | [] ↦ (false, [])
  | c ∷ t ↦ if (c == b'|') && is_pipe_end t then (true, t) else (false, c ∷ t)
]

abbrev pub two_bytes : ℕ → Bytes → Bool × Bytes
two_bytes d (c ∷ e ∷ t) = if (c == b'|') && (e == d) then (true, t) else (false, c ∷ e ∷ t)
two_bytes d s = (false, s)

unfoldable pub pipe2 : Bytes → Bool × Bytes
pipe2 s = two_bytes b'|' (skipped s)

unfoldable pub pipe_at : Bytes → Bool × Bytes
pipe_at s = two_bytes b'@' (skipped s)
