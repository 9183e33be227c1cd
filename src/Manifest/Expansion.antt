-- ===== src/Manifest/Expansion.antt =====
-- `parseEvalString` and `evaluate` of toolsupport/ninjautil/eval.go together: the short cut for strings
-- with no escapes, strings written piece by piece, names that are looked up inside themselves, and the
-- blanks behind an escaped line break.
use siso.Common.{
  ℕ, zero, suc, ◌+◌, ◌<◌, ◌≡◌, ◌≢◌, refl, sym, ◌∙◌, ap, Bool, true, false, ◌&&◌, ◌||◌, List, [],
  ◌∷◌, ◌++◌, append-nil, Option, none, some, Bytes, ◌==◌, length, All, Bool-cases, Option-cases,
  inl, inr, arith,
}
use siso.Manifest.Lexer.{is_whitespace, escape_width, skip_spaces}
use siso.Manifest.Chunk.{index_byte}
use siso.Manifest.Bindings.{EvalString}
use siso.Manifest.Eval.{
  Value, text, cycle, write_text, then_write, eval_loop, with_escapes, evaluate_append, evaluate,
  escape_length, count_escapes, trim_lf, trim_crlf, parse_eval_string,
}
use siso.Manifest.Templates.{
  Piece, ref, escape, print_pieces, value_of, IsName, eval_loop-escape_only, eval_loop-print_pieces,
}

escapes_ne :
    (o : Option ℕ) (s : Bytes)
    → elim o [
      | none ↦ none
      | some n ↦ elim (count_escapes n s) [ none ↦ none | some esc ↦ some (esc + 1) ]
    ]
      ≢ some 0
escapes_ne none s = λ h. cc
escapes_ne (some n) s = elim (Option-cases (count_escapes n s)) [
  | inl e ↦ rw e (λ h. cc)
  | inr (k, e) ↦ rw e (λ h. ground arith)
]

some_escapes : (c : ℕ) (s : Bytes) → (c == b'$') ≡ true → count_escapes 0 (c ∷ s) ≢ some 0
unfolding count_escapes
some_escapes c s e = rw (count_escapes, e) (escapes_ne (escape_length s) s)

pub no_dollar :
    (c : ℕ) (s : Bytes) → (c == b'$') ≡ false → count_escapes 0 (c ∷ s) ≡ count_escapes 0 s
unfolding count_escapes
no_dollar c s e = rw (count_escapes, e) refl

-- Where a string has no escapes, the loop gives the string.
count_escapes_zero :
    (sub : Bytes → Value) (v : Bytes) → count_escapes 0 v ≡ some 0 → eval_loop sub 0 v ≡ text v
unfolding count_escapes eval_loop write_text
count_escapes_zero sub [] h = refl
count_escapes_zero sub (c ∷ s) h = elim (Bool-cases (c == b'$')) [
  | inl e ↦ absurd (some_escapes c s e h)
  | inr e ↦ rw (eval_loop, e, count_escapes_zero sub s (sym (no_dollar c s e) ∙ h)) refl
]

-- A variable whose value is a reference to itself ends in the error for a cycle, however many names may be
-- looked up inside one another. Its name has no closing brace.
pub evaluate_append-cycle :
    (env : ℕ → Bytes → Option EvalString) (d pos : ℕ) (name : Bytes)
    → index_byte b'}' name ≡ none
    → env pos name ≡ some (record { pos = pos; v = print_pieces (ref name ∷ []); esc = 1 })
    → evaluate_append env d (record { pos = pos; v = print_pieces (ref name ∷ []); esc = 1 })
      ≡ cycle
unfolding evaluate_append value_of IsName then_write
evaluate_append-cycle env zero pos name h e = eval_loop-print_pieces _ (ref name ∷ []) (h, tt)
evaluate_append-cycle env (suc d) pos name h e =
    eval_loop-print_pieces _ (ref name ∷ []) (h, tt)
    ∙ rw (e, evaluate_append-cycle env d pos name h e) refl

-- The pieces with the values of their variables, looked up in the scopes.
abbrev pub value_in : (ℕ → Bytes → Option EvalString) → ℕ → ℕ → List Piece → Value
value_in env d pos =
    value_of (λ name. elim (env pos name) [ none ↦ text [] | some y ↦ evaluate_append env d y ])

with_escapes-loop :
    (sub : Bytes → Value) (x : EvalString)
    → count_escapes 0 (x.v) ≡ some (x.esc)
    → with_escapes x (eval_loop sub 0 (x.v)) ≡ eval_loop sub 0 (x.v)
with_escapes-loop sub x h = elim (Bool-cases (x.esc == 0)) [
  | inl e ↦
      let z : x.esc ≡ 0 = ground arith in
      let k : count_escapes 0 (x.v) ≡ some 0 = h ∙ ap some z in
      rw e (sym (count_escapes_zero sub (x.v) k))
  | inr e ↦ rw e refl
]

-- A string written piece by piece, whose escapes are counted as the parser does, has the value of its pieces:
-- the literal text, and for each variable its value, with one less of the names that may be looked up inside
-- one another. The names have no closing brace.
pub evaluate_append-print_pieces :
    (env : ℕ → Bytes → Option EvalString) (d pos esc : ℕ) (ps : List Piece)
    → All IsName ps
    → count_escapes 0 (print_pieces ps) ≡ some esc
    → evaluate_append env (suc d) (record { pos = pos; v = print_pieces ps; esc = esc })
      ≡ value_in env d pos ps
unfolding evaluate_append
evaluate_append-print_pieces env d pos esc ps n h =
    with_escapes-loop _ (record { pos = pos; v = print_pieces ps; esc = esc }) h
    ∙ eval_loop-print_pieces _ ps n

-- The last byte is a newline.
unfoldable pub ends_lf : Bytes → Bool
ends_lf [] = false
ends_lf (c ∷ []) = c == b'\n'
ends_lf (c ∷ d ∷ s) = ends_lf (d ∷ s)

trim_lf_same : (s : Bytes) → ends_lf s ≡ false → trim_lf s ≡ s
unfolding trim_lf ends_lf
trim_lf_same [] h = refl
trim_lf_same (c ∷ []) h = rw h refl
trim_lf_same (c ∷ d ∷ s) h = ap (λ t. c ∷ t) (trim_lf_same (d ∷ s) h)

trim_crlf_same : (s : Bytes) → ends_lf s ≡ false → trim_crlf s ≡ s
unfolding trim_crlf ends_lf
trim_crlf_same [] h = refl
trim_crlf_same (c ∷ []) h = refl
trim_crlf_same (c ∷ d ∷ []) h =
    let e : ((c == b'\r') && (d == b'\n')) ≡ false = ground arith in rw e refl
trim_crlf_same (c ∷ d ∷ e ∷ s) h = ap (λ t. c ∷ t) (trim_crlf_same (d ∷ e ∷ s) h)

-- Escaped text can be parsed, whatever its bytes.
escape_length-one :
    (c : ℕ) (s : Bytes)
    → ((c == b' ') || (c == b':') || (c == b'$')) ≡ true
    → escape_length (c ∷ s) ≡ some 1
unfolding escape_length
escape_length-one c s e =
    let f : ((c == b' ') || (c == b'\t') || (c == b':') || (c == b'$') || (c == b'\n')) ≡ true =
      ground arith in
    rw f refl

pub count_escapes-escaped :
    (c n : ℕ) (s : Bytes)
    → ((c == b' ') || (c == b':') || (c == b'$')) ≡ true
    → count_escapes 0 s ≡ some n
    → count_escapes 0 (b'$' ∷ c ∷ s) ≡ some (n + 1)
unfolding count_escapes
count_escapes-escaped c n s e k =
    let l : escape_length (c ∷ s) ≡ some 1 = escape_length-one c s e in
    rw (count_escapes, l, k) refl

count_escapes-escape : (s : Bytes) → (n : ℕ) × (count_escapes 0 (escape s) ≡ some n)
unfolding count_escapes escape
count_escapes-escape [] = (0, refl)
count_escapes-escape (c ∷ s) =
    let (n, k) = count_escapes-escape s in
    elim (Bool-cases ((c == b' ') || (c == b':') || (c == b'$'))) [
      | inl e ↦ (n + 1, rw e (count_escapes-escaped c n (escape s) e k))
      | inr e ↦ (n, rw e (no_dollar c (escape s) (ground arith) ∙ k))
    ]

ends_lf-behind : (c : ℕ) (t : Bytes) → 0 < length t → ends_lf (c ∷ t) ≡ ends_lf t
unfolding ends_lf
ends_lf-behind c [] h = absurd (omega arith)
ends_lf-behind c (d ∷ t) h = refl

pub escape-nonempty : (d : ℕ) (s : Bytes) → 0 < length (escape (d ∷ s))
unfolding escape
escape-nonempty d s = elim (Bool-cases ((d == b' ') || (d == b':') || (d == b'$'))) [
  | inl e ↦ rw e (omega arith)
  | inr e ↦ rw e (omega arith)
]

ends_lf-escape : (s : Bytes) → ends_lf (escape s) ≡ ends_lf s
unfolding ends_lf escape
ends_lf-escape [] = refl
ends_lf-escape (c ∷ []) = elim (Bool-cases ((c == b' ') || (c == b':') || (c == b'$'))) [
  | inl e ↦ rw e refl
  | inr e ↦ rw e refl
]
ends_lf-escape (c ∷ d ∷ s) =
    let k = ends_lf-behind c (escape (d ∷ s)) (escape-nonempty d s) ∙ ends_lf-escape (d ∷ s) in
    elim (Bool-cases ((c == b' ') || (c == b':') || (c == b'$'))) [
      | inl e ↦ rw e k
      | inr e ↦ rw e k
    ]

pub no_spaces :
    (c : ℕ) (s : Bytes) → escape_width c s ≡ 0 → is_whitespace c ≡ false → skip_spaces 0 (c ∷ s) ≡ 0
unfolding skip_spaces
no_spaces c s w h = rw (skip_spaces, w, h) refl

pub skip_spaces-escape :
    (c : ℕ) (s t : Bytes) → is_whitespace c ≡ false → skip_spaces 0 (escape (c ∷ s) ++ t) ≡ 0
unfolding escape
skip_spaces-escape c s t h = elim (Bool-cases ((c == b' ') || (c == b':') || (c == b'$'))) [
  | inl e ↦
      let w1 : ((c == b'\n') || (c == b' ') || (c == b'\t')) ≡ false = ground arith in
      let w2 : (c == b'\r') ≡ false = ground arith in
      rw e (no_spaces b'$' (c ∷ (escape s ++ t)) (rw (w1, w2) refl) refl)
  | inr e ↦
      let w1 : (c == b'$') ≡ false = ground arith in
      rw e (no_spaces c (escape s ++ t) (rw w1 refl) h)
]

-- Nothing stands behind the text.
skip_spaces-nil : (v : Bytes) → skip_spaces 0 (v ++ []) ≡ 0 → skip_spaces 0 v ≡ 0
skip_spaces-nil v = rw (append-nil v) (λ h. h)

parsed_as :
    (t : Bytes) (n : ℕ)
    → skip_spaces 0 t ≡ 0
    → count_escapes 0 t ≡ some n
    → ends_lf t ≡ false
    → parse_eval_string t ≡ some (record { pos = 0; v = t; esc = n })
unfolding parse_eval_string
parsed_as t n h k l =
    let e : trim_lf (trim_crlf t) ≡ t = ap trim_lf (trim_crlf_same t l) ∙ trim_lf_same t l in
    rw (parse_eval_string, h, k, h) (ap (λ v. some (record { pos = 0; v = v; esc = n })) e)

pub escape_value :
    (env : ℕ → Bytes → Option EvalString) (n : ℕ) (s : Bytes)
    → count_escapes 0 (escape s) ≡ some n
    → evaluate env (record { pos = 0; v = escape s; esc = n }) ≡ text s
unfolding evaluate evaluate_append
escape_value env n s k =
    with_escapes-loop _ (record { pos = 0; v = escape s; esc = n }) k ∙ eval_loop-escape_only _ s

-- Escaped text is parsed and has the text for its value, in every scope, where the text does not start with
-- white space and does not end with a newline.
pub evaluate-escape :
    (env : ℕ → Bytes → Option EvalString) (c : ℕ) (s : Bytes)
    → is_whitespace c ≡ false
    → ends_lf (c ∷ s) ≡ false
    → (x : EvalString) × (parse_eval_string (escape (c ∷ s)) ≡ some x)
      × (evaluate env x ≡ text (c ∷ s))
unfolding parse_eval_string evaluate
evaluate-escape env c s w h =
    let t = escape (c ∷ s) in
    let (n, k) = count_escapes-escape (c ∷ s) in
    let l = ends_lf-escape (c ∷ s) ∙ h in
    let q = trim_crlf_same t l in
    (
      record { pos = 0; v = t; esc = n },
      parsed_as t n (skip_spaces-nil t (skip_spaces-escape c s [] w)) k l,
      escape_value env n (c ∷ s) k,
    )
