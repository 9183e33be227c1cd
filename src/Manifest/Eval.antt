-- ===== src/Manifest/Eval.antt =====
-- toolsupport/ninjautil/eval.go: strings with variables and their values. The scopes in which names are
-- looked up are a parameter, a function of the position and the name.
use siso.Common.{
  ℕ, zero, suc, ◌+◌, true, false, ◌&&◌, ◌||◌, [], ◌∷◌, ◌++◌, Option, none, some, Bytes, ltb, ◌==◌,
  if◌then◌else◌, length, take, drop,
}
use siso.Manifest.Lexer.{is_simple_varname, is_whitespace, skip_spaces}
use siso.Manifest.Chunk.{index_byte}
use siso.Manifest.Bindings.{EvalString}

-- What evaluation returns: the text, or which error.
pub data Value : Type 0 where
  text : Bytes → Value
  invalid_escape unclosed cycle : Value

-- The buffer is written to in this order; an error ends it.
unfoldable pub write_text : Bytes → Value → Value
write_text a (text b) = text (a ++ b)
write_text a e = e

unfoldable pub then_write : Value → Value → Value
then_write (text a) r = write_text a r
then_write e r = e

-- How many bytes of the class there are at the start.
unfoldable pub count_simple : Bytes → ℕ
count_simple [] = 0
count_simple (c ∷ s) = let rest = count_simple s in if is_simple_varname c then rest + 1 else 0

unfoldable pub count_blank : Bytes → ℕ
count_blank [] = 0
count_blank (c ∷ s) = let rest = count_blank s in if is_whitespace c then rest + 1 else 0

-- Where the loop goes on behind an escaped line break, counted from the byte `x` of the break with `t`
-- behind it: at the first byte that is no white space, which is not looked for in the last byte.
abbrev pub strip_blank : ℕ → Bytes → ℕ
strip_blank x t = if ltb (count_blank (x ∷ t)) (length t) then count_blank (x ∷ t) else 1

-- What stands behind a `$`.
pub data Dollar : Type 0 where
  at_end unknown open_brace : Dollar
  escaped : ℕ → Dollar
  line_break : ℕ → Dollar
  variable : Bytes → ℕ → Dollar

unfoldable pub braces : Option ℕ → Bytes → Dollar
braces none t = open_brace
braces (some j) t = variable (take j t) (j + 2)

-- The numbers are the bytes that are taken behind the `$`.
unfoldable pub dollar : Bytes → Dollar
dollar [] = at_end
dollar (x ∷ t) =
    if (x == b' ') || (x == b':') || (x == b'$')
    then escaped x
    else if (x == b'\r') || (x == b'\n')
    then line_break (strip_blank x t)
    else if x == b'{'
    then braces (index_byte b'}' t) t
    else if is_simple_varname x
    then variable (take (count_simple (x ∷ t)) (x ∷ t)) (count_simple (x ∷ t))
    else unknown

-- The loop of `evaluateAppend`, where `k` bytes are taken already and `sub` evaluates a variable.
unfoldable pub eval_loop : (Bytes → Value) → ℕ → Bytes → Value
eval_loop sub k [] = text []
eval_loop sub (suc k) (c ∷ s) = eval_loop sub k s
eval_loop sub zero (c ∷ s) = elim (c == b'$') [
  | false ↦ write_text (c ∷ []) (eval_loop sub 0 s)
  | true ↦ elim (dollar s) [
    | at_end ↦ invalid_escape
    | unknown ↦ invalid_escape
    | open_brace ↦ unclosed
    | escaped x ↦ write_text (x ∷ []) (eval_loop sub 1 s)
    | line_break n ↦ eval_loop sub n s
    | variable name n ↦ then_write (sub name) (eval_loop sub n s)
  ]
]

-- A value with no escapes is taken as it is.
abbrev pub with_escapes : EvalString → Value → Value
with_escapes x r = if x.esc == 0 then text (x.v) else r

module _ (env : ℕ → Bytes → Option EvalString) where
  -- `evaluateAppend`, where so many more names may be looked up inside one another.
  unfoldable pub evaluate_append : ℕ → EvalString → Value
  evaluate_append zero x = with_escapes x (eval_loop (λ name. cycle) 0 (x.v))
  evaluate_append (suc d) x = with_escapes x (
      eval_loop (λ name. elim (env (x.pos) name) [ none ↦ text [] | some y ↦ evaluate_append d y ])
        0 (x.v))

  -- `evaluate`: 256 names.
  unfoldable pub evaluate : EvalString → Value
  evaluate x = evaluate_append 256 x

abbrev pub break_length : Bytes → Option ℕ
break_length [] = none
break_length (y ∷ t) = if y == b'\n' then some 2 else none

abbrev pub brace_length : Option ℕ → Option ℕ
brace_length none = none
brace_length (some j) = some (j + 2)

-- How many bytes `parseEvalString` takes behind a `$`, or an error.
unfoldable pub escape_length : Bytes → Option ℕ
escape_length [] = none
escape_length (x ∷ t) =
    if (x == b' ') || (x == b'\t') || (x == b':') || (x == b'$') || (x == b'\n')
    then some 1
    else if x == b'\r'
    then break_length t
    else if x == b'{'
    then brace_length (index_byte b'}' t)
    else if is_simple_varname x
    then some (count_simple (x ∷ t))
    else none

-- The loop of `parseEvalString`: the number of escapes, or an error. A name that reaches the end of the text
-- is gone through byte by byte, which finds no more `$` in it.
unfoldable pub count_escapes : ℕ → Bytes → Option ℕ
count_escapes k [] = some 0
count_escapes (suc k) (c ∷ s) = count_escapes k s
count_escapes zero (c ∷ s) = elim (c == b'$') [
  | false ↦ count_escapes 0 s
  | true ↦ elim (escape_length s) [
    | none ↦ none
    | some n ↦ elim (count_escapes n s) [ none ↦ none | some esc ↦ some (esc + 1) ]
  ]
]

-- `bytes.TrimSuffix`, of a line break.
unfoldable pub trim_lf : Bytes → Bytes
trim_lf [] = []
trim_lf (c ∷ []) = if c == b'\n' then [] else c ∷ []
trim_lf (c ∷ d ∷ s) = c ∷ trim_lf (d ∷ s)

unfoldable pub trim_crlf : Bytes → Bytes
trim_crlf [] = []
trim_crlf (c ∷ []) = c ∷ []
trim_crlf (c ∷ d ∷ []) = if (c == b'\r') && (d == b'\n') then [] else c ∷ d ∷ []
trim_crlf (c ∷ d ∷ e ∷ s) = c ∷ trim_crlf (d ∷ e ∷ s)

-- `parseEvalString`. The position is set later.
unfoldable pub parse_eval_string : Bytes → Option EvalString
parse_eval_string v =
    let v' = drop (skip_spaces 0 v) v in
    elim (count_escapes 0 v') [
      | none ↦ none
      | some esc ↦ some (record { pos = 0; v = trim_lf (trim_crlf v'); esc = esc })
    ]
