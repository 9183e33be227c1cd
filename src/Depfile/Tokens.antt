-- ===== src/Depfile/Tokens.antt =====
-- `nextToken` of toolsupport/makeutil/deps.go.
use siso.Common.{ℕ, ◌-◌, Bool, false, ◌&&◌, ◌||◌, [], ◌∷◌, ◌++◌, Bytes, ltb, ◌==◌, if◌then◌else◌}

-- What follows a backslash that continues a line.
unfoldable pub starts_lf : Bytes → Bool
starts_lf [] = false
starts_lf (c ∷ s) = c == b'\n'

unfoldable pub starts_crlf : Bytes → Bool
starts_crlf [] = false
starts_crlf (c ∷ s) = (c == b'\r') && starts_lf s

-- Where skipping spaces ends: behind a newline, or at a character.
pub data Skipped : Type 0 where
  newline at_char : Bytes → Skipped

-- The first loop, with `k` characters that it has passed already.
unfoldable pub skip_spaces : ℕ → Bytes → Skipped
skip_spaces k [] = at_char []
skip_spaces k (c ∷ s) =
    let past = skip_spaces (k - 1) s in
    let one = skip_spaces 1 s in
    let two = skip_spaces 2 s in
    let on = skip_spaces 0 s in
    if ltb 0 k
    then past
    else if (c == b'\\') && starts_lf s
    then one
    else if (c == b'\\') && starts_crlf s
    then two
    else if c == b'\n'
    then newline s
    else if (c == b' ') || (c == b'\t') || (c == b'\r')
    then on
    else at_char (c ∷ s)

-- A token and what follows it.
unfoldable pub colon : Bytes → Bytes → Bytes × Bytes → Bytes × Bytes
colon [] s more = (b':' ∷ [], s)
colon (b ∷ []) s more = more
colon (b ∷ c ∷ sb) s more = (b ∷ c ∷ sb, b':' ∷ s)

-- The second loop, with the token so far.
unfoldable pub take_token : Bytes → Bytes → Bytes × Bytes
take_token sb [] = (sb, [])
take_token sb (c ∷ []) =
    if (c == b' ') || (c == b'\t') || (c == b'\n') || (c == b'\r')
    then (sb, c ∷ [])
    else if c == b':'
    then colon sb [] (sb ++ c ∷ [], [])
    else (sb ++ c ∷ [], [])
take_token sb (c ∷ d ∷ s) =
    let space = take_token (sb ++ d ∷ []) s in
    let other = take_token (sb ++ c ∷ d ∷ []) s in
    let more = take_token (sb ++ c ∷ []) (d ∷ s) in
    if c == b'\\'
    then (if d == b' '
        then space
        else if (d == b'\r') || (d == b'\n')
        then (sb, c ∷ d ∷ s)
        else other)
    else if (c == b' ') || (c == b'\t') || (c == b'\n') || (c == b'\r')
    then (sb, c ∷ d ∷ s)
    else if c == b':'
    then colon sb (d ∷ s) more
    else more

unfoldable pub after_spaces : Skipped → Bytes × Bytes
after_spaces (newline s) = (b'\n' ∷ [], s)
after_spaces (at_char s) = take_token [] s

unfoldable pub next_token : Bytes → Bytes × Bytes
next_token s = after_spaces (skip_spaces 0 s)
