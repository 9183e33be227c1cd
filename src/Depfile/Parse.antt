-- ===== src/Depfile/Parse.antt =====
-- `ParseDeps` of toolsupport/makeutil/deps.go.
use siso.Common.{
  ℕ, zero, suc, ◌+◌, ◌-◌, Bool, true, false, ◌&&◌, ◌||◌, List, [], ◌∷◌, ◌++◌, Option, none, some,
  Bytes, bytes_eq, ltb, leb, ◌==◌, if◌then◌else◌, length,
}
use siso.Depfile.Tokens.{next_token}

pub data Parsed : Type 0 where
  parsed : List Bytes → Parsed
  missing_output multiple_colon out_of_fuel : Parsed

-- How many bytes the blank at the start takes: 0 if there is none.
unfoldable pub blank_width : Bytes → ℕ
blank_width [] = 0
blank_width (c ∷ []) = if (leb 9 c && leb c 13) || (c == 32) then 1 else 0
blank_width (c ∷ d ∷ []) =
    if (leb 9 c && leb c 13) || (c == 32)
    then 1
    else if (c == 194) && ((d == 133) || (d == 160))
    then 2
    else 0
blank_width (c ∷ d ∷ e ∷ s) =
    if (leb 9 c && leb c 13) || (c == 32)
    then 1
    else if (c == 194) && ((d == 133) || (d == 160))
    then 2
    else if ((c == 225) && (d == 154) && (e == 128))
        || ((c == 226)
            && (d == 128)
            && ((leb 128 e && leb e 138) || (e == 168) || (e == 169) || (e == 175)))
        || ((c == 226) && (d == 129) && (e == 159))
        || ((c == 227) && (d == 128) && (e == 128))
    then 3
    else 0

-- `len(bytes.TrimSpace(s)) == 0`, with `k` bytes of a blank left.
unfoldable pub all_blank : ℕ → Bytes → Bool
all_blank k [] = true
all_blank k (c ∷ s) =
    let w = blank_width (c ∷ s) in
    let past = all_blank (k - 1) s in
    let on = all_blank (w - 1) s in if ltb 0 k then past else if w == 0 then false else on

-- The bytes before the first colon and those after it.
unfoldable pub split_colon : Bytes → Option (Bytes × Bytes)
split_colon [] = none
split_colon (c ∷ s) =
    let rest = split_colon s in
    if c == b':'
    then some ([], s)
    else elim rest [ none ↦ none | some (out, t) ↦ some (c ∷ out, t) ]

unfoldable pub was_seen : Bytes → List Bytes → Bool
was_seen token [] = false
was_seen token (i ∷ is) = bytes_eq token i || was_seen token is

abbrev pub add_input : Bytes → List Bytes → List Bytes
add_input token inputs = if was_seen token inputs then inputs else inputs ++ token ∷ []

unfoldable pub start_line : Option (Bytes × Bytes) → List Bytes → (Bytes → Parsed) → Parsed
start_line none inputs line = parsed inputs
start_line (some (out, s)) inputs line = if all_blank 0 out then missing_output else line s

-- The two loops: at the start of a line, or among its inputs.
unfoldable pub parse : ℕ → Bool → Bytes → List Bytes → Parsed
parse zero in_line s inputs = out_of_fuel
parse (suc fuel) in_line [] inputs = parsed inputs
parse (suc fuel) false (c ∷ s) inputs =
    start_line (split_colon (c ∷ s)) inputs (λ t. parse fuel true t inputs)
parse (suc fuel) true (c ∷ s) inputs =
    let (token, t) = next_token (c ∷ s) in
    let same = parse fuel true t inputs in
    let lines = parse fuel false t inputs in
    let more = parse fuel true t (add_input token inputs) in
    if bytes_eq token []
    then same
    else if bytes_eq token (b':' ∷ [])
    then multiple_colon
    else if bytes_eq token (b'\n' ∷ [])
    then lines
    else more

-- Each round takes at least one byte, with the exception that `Hang` is about.
unfoldable pub parse_deps : Bytes → Parsed
parse_deps b = parse (length b + 1) false b []
