-- ===== src/Shell/Words.antt =====
-- How `Split` goes over one escaped path, plain or quoted.
use siso.Common.{
  ℕ, ◌+◌, ◌<◌, ◌≡◌, refl, sym, ap, ◌∙◌, Bool, true, false, ◌||◌, List, [], ◌∷◌, ◌++◌, append_assoc,
  append-nil, Option, none, some, Bytes, ltb, ◌==◌, Bool-cases, inl, inr, length, length-append,
  All, arith,
}
use siso.Shell.Runes.{Runes, utf8, encode, is_space}
use siso.Shell.Split.{Splitter, write_rune, is_metachar, plain_char, split_char, see, split_chars}
use siso.Shell.Escape.{is_shell_safe_char}

abbrev pub at_char : List Bytes → Option Bytes → Bool → ℕ → Bool → ℕ → Bytes → Splitter
at_char args sb escaped qch inspace si seen = record {
  args = args;
  sb = sb;
  escaped = escaped;
  qch = qch;
  inspace = inspace;
  si = si;
  seen = seen;
}

pub encode-append : (cs ds : Runes) → encode (cs ++ ds) ≡ encode cs ++ encode ds
unfolding encode
encode-append [] ds = refl
encode-append (c ∷ cs) ds =
    ap (λ r. utf8 c ++ r) (encode-append cs ds)
    ∙ sym (append_assoc (utf8 c) (encode cs) (encode ds))

pub utf8-ascii : (c : ℕ) → c < 128 → utf8 c ≡ c ∷ []
unfolding utf8
utf8-ascii c h = elim (Bool-cases (ltb c 128)) [
  | inl low ↦ rw low refl
  | inr high ↦ absurd (ground arith)
]

-- A safe character is neither a space nor anything else that `Split` treats specially.
pub record IsOrdinary (c : ℕ) : Type 0 where
  pub backslash : (c == b'\\') ≡ false
  pub quote : ((c == b'"') || (c == b'\'')) ≡ false
  pub blank : ((c == b' ') || (c == b'\t')) ≡ false
  pub meta : is_metachar c ≡ false
  pub ascii : c < 128
  pub space : is_space c ≡ false

pub safe-IsOrdinary : (c : ℕ) → is_shell_safe_char c ≡ true → IsOrdinary c
unfolding is_shell_safe_char is_metachar is_space
safe-IsOrdinary c h = record {
  backslash = ground arith;
  quote = ground arith;
  blank = ground arith;
  meta = ground arith;
  ascii = ground arith;
  space = ground arith;
}

plain_char-buffer :
    (c : ℕ) (args : List Bytes) (b : Bytes) (si : ℕ) (seen : Bytes)
    → IsOrdinary c
    → plain_char c (at_char args (some b) false 0 false si seen)
      ≡ some (at_char args (some (b ++ utf8 c)) false 0 false (length seen + 1) seen)
unfolding plain_char write_rune
plain_char-buffer c args b si seen h = rw (h.backslash, h.quote, h.blank, h.meta) refl

pub plain_char-slice :
    (c : ℕ) (args : List Bytes) (inspace : Bool) (si : ℕ) (seen : Bytes)
    → IsOrdinary c
    → plain_char c (at_char args none false 0 inspace si seen)
      ≡ some (at_char args none false 0 false si seen)
unfolding plain_char
plain_char-slice c args inspace si seen h = rw (h.backslash, h.quote, h.blank, h.meta) refl

pub length-snoc : (xs : Bytes) (x : ℕ) → length (xs ++ x ∷ []) ≡ length xs + 1
length-snoc xs x = omega (arith, length-append xs (x ∷ []))

abbrev pub IsSafe : Runes → Type 0
IsSafe cs = All (λ c. is_shell_safe_char c ≡ true) cs

pub split_chars-step :
    (c : ℕ) (rest : Runes) (s s' : Splitter)
    → split_char c s ≡ some s'
    → split_chars (c ∷ rest) s ≡ split_chars rest (see c s')
unfolding split_chars
split_chars-step c rest s s' e = rw (split_chars, e) refl

-- Safe characters are appended to the buffer of the first word.
pub split-safe_buffer :
    (cs rest : Runes) (args : List Bytes) (b seen : Bytes)
    → IsSafe cs
    → split_chars (cs ++ rest) (at_char args (some b) false 0 false (length seen) seen)
      ≡ split_chars rest (
          at_char args
            (some (b ++ encode cs))
            false
            0
            false
            (length (seen ++ encode cs))
            (seen ++ encode cs))
unfolding split_char encode
split-safe_buffer [] rest args b seen h = rw (append-nil b, append-nil seen) refl
split-safe_buffer (c ∷ cs) rest args b seen h =
    let o = safe-IsOrdinary c h.0 in
    let e = utf8-ascii c o.ascii in
    let ih = split-safe_buffer cs rest args (b ++ c ∷ []) (seen ++ c ∷ []) h.1 in
    split_chars-step c (cs ++ rest) _ _ (plain_char-buffer c args b (length seen) seen o)
    ∙ rw
        (
          e,
          sym (length-snoc seen c),
          sym (append_assoc b (c ∷ []) (encode cs)),
          sym (append_assoc seen (c ∷ []) (encode cs)),
        )
        ih

pub split-safe_slice :
    (cs rest : Runes) (args : List Bytes) (si : ℕ) (seen : Bytes)
    → IsSafe cs
    → split_chars (cs ++ rest) (at_char args none false 0 false si seen)
      ≡ split_chars rest (at_char args none false 0 false si (seen ++ encode cs))
unfolding split_char encode
split-safe_slice [] rest args si seen h = rw (append-nil seen) refl
split-safe_slice (c ∷ cs) rest args si seen h =
    let o = safe-IsOrdinary c h.0 in
    let e = utf8-ascii c o.ascii in
    let ih = split-safe_slice cs rest args si (seen ++ c ∷ []) h.1 in
    split_chars-step c (cs ++ rest) _ _ (plain_char-slice c args false si seen o)
    ∙ rw (e, sym (append_assoc seen (c ∷ []) (encode cs))) ih
