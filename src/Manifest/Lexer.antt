-- ===== src/Manifest/Lexer.antt =====
-- toolsupport/ninjautil/lexer.go: logical lines, and the characters of names. A buffer from a position on
-- is the list of its bytes, and an offset is counted from there.
use siso.Common.{
  ℕ, ◌+◌, ◌-◌, Bool, false, not, ◌&&◌, ◌||◌, [], ◌∷◌, Bytes, ltb, leb, ◌==◌, if◌then◌else◌,
}

-- Whether a newline is escaped by the two bytes before it.
abbrev pub is_escaped : ℕ → ℕ → Bool
is_escaped p2 p1 = (p1 == b'$') || ((p2 == b'$') && (p1 == b'\r'))

-- The length of the logical line, its newline included, where `p2` and `p1` are the two bytes before.
-- The loop starts anew behind an escaped newline, and a byte before its start counts as 0.
unfoldable pub next_line : ℕ → ℕ → Bytes → ℕ
next_line p2 p1 [] = 0
next_line p2 p1 (c ∷ s) =
    let rest = next_line (if c == b'\n' then 0 else p1) (if c == b'\n' then 0 else c) s in
    if (c == b'\n') && not (is_escaped p2 p1) then 1 else rest + 1

-- `findNextLine`
abbrev pub find_next_line : Bytes → ℕ
find_next_line s = next_line 0 0 s

-- `simpleVarnameChar` and `varnameChar`
abbrev pub is_simple_varname : ℕ → Bool
is_simple_varname c =
    (leb b'a' c && leb c b'z')
    || (leb b'A' c && leb c b'Z')
    || (leb b'0' c && leb c b'9')
    || (c == b'_')
    || (c == b'-')

abbrev pub is_varname : ℕ → Bool
is_varname c = is_simple_varname c || (c == b'.')

-- `whitespaceChar` and `nonLiteralChar`
abbrev pub is_whitespace : ℕ → Bool
is_whitespace c = (c == b' ') || (c == b'\t') || (c == b'\r') || (c == b'\n')

abbrev pub is_non_literal : ℕ → Bool
is_non_literal c = is_whitespace c || (c == b'$') || (c == b':') || (c == b'|') || (c == 0)

abbrev pub starts_with_blank : Bytes → Bool
starts_with_blank [] = false
starts_with_blank (c ∷ s) = (c == b'\n') || (c == b' ') || (c == b'\t')

abbrev pub starts_with_lf : Bytes → Bool
starts_with_lf [] = false
starts_with_lf (c ∷ s) = c == b'\n'

abbrev pub starts_with_crlf : Bytes → Bool
starts_with_crlf [] = false
starts_with_crlf (c ∷ s) = (c == b'\r') && starts_with_lf s

-- How many more bytes a `$` at this place takes with it as white space.
abbrev pub escape_width : ℕ → Bytes → ℕ
escape_width c s =
    if (c == b'$') && starts_with_blank s
    then 1
    else if (c == b'$') && starts_with_crlf s
    then 2
    else 0

-- `skipSpaces`, with `k` bytes of an escape left.
unfoldable pub skip_spaces : ℕ → Bytes → ℕ
skip_spaces k [] = 0
skip_spaces k (c ∷ s) =
    let w = escape_width c s in
    let rest = skip_spaces (if ltb 0 k then k - 1 else w) s in
    if ltb 0 k || is_whitespace c || ltb 0 w then rest + 1 else 0
