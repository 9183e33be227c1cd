-- ===== src/Shell/Quotes.antt =====
-- How `Split` goes over a path in single quotes, in which `shellEscape` writes a quote as `'\''`.
use siso.Common.{
  ℕ, ◌+◌, ◌≡◌, ◌≢◌, refl, sym, ap, ◌∙◌, Bool, true, false, List, [], ◌∷◌, ◌++◌, append_assoc,
  append-nil, some, Bytes, ltb, ◌==◌, Bool-cases, inl, inr, length, All, arith,
}
use siso.Shell.Runes.{Runes, utf8, encode}
use siso.Shell.Split.{flush_slice, write_rune, quoted_char, plain_char, split_char, split_chars}
use siso.Shell.Escape.{escape_chars}
use siso.Shell.Words.{at_char, split_chars-step, length-snoc}

quoted_char-other :
    (c : ℕ) (args : List Bytes) (b : Bytes) (si : ℕ) (seen : Bytes)
    → (c == b'\\') ≡ false
    → (b'\'' == c) ≡ false
    → quoted_char c (at_char args (some b) false b'\'' false si seen)
      ≡ at_char args (some (b ++ utf8 c)) false b'\'' false (length seen + 1) seen
unfolding quoted_char write_rune
quoted_char-other c args b si seen h k = rw (h, k) refl

split_char-quoted :
    (c : ℕ) (args : List Bytes) (b : Bytes) (si : ℕ) (seen : Bytes)
    → (c == b'\\') ≡ false
    → (b'\'' == c) ≡ false
    → split_char c (at_char args (some b) false b'\'' false si seen)
      ≡ some (at_char args (some (b ++ utf8 c)) false b'\'' false (length seen + 1) seen)
unfolding split_char
split_char-quoted c args b si seen h k = ap (λ s. some s) (quoted_char-other c args b si seen h k)

encode_nil : encode [] ≡ []
unfolding encode
encode_nil = refl

-- The quote that closes, with what follows it.
split-close :
    (rest : Runes) (args : List Bytes) (b : Bytes) (si : ℕ) (seen : Bytes)
    → split_chars (b'\'' ∷ rest) (at_char args (some b) false b'\'' false si seen)
      ≡ split_chars rest
          (at_char args (some b) false 0 false (length (seen ++ b'\'' ∷ [])) (seen ++ b'\'' ∷ []))
unfolding split_char quoted_char utf8
split-close rest args b si seen = rw (length-snoc seen b'\'') (split_chars-step b'\'' rest _ _ refl)

flush_slice-none :
    (args : List Bytes) (b : Bytes) (e : Bool) (q : ℕ) (i : Bool) (seen : Bytes)
    → flush_slice (at_char args (some b) e q i (length seen) seen) ≡ some b
unfolding flush_slice
flush_slice-none args b e q i seen = elim (Bool-cases (ltb (length seen) (length seen))) [
  | inl lt ↦ absurd (ground arith)
  | inr ge ↦ rw ge refl
]

-- The quote that opens.
pub split-open :
    (rest : Runes) (args : List Bytes) (b : Bytes) (seen : Bytes)
    → split_chars (b'\'' ∷ rest) (at_char args (some b) false 0 false (length seen) seen)
      ≡ split_chars rest
          (at_char args (some b) false b'\'' false (length seen + 1) (seen ++ b'\'' ∷ []))
unfolding split_char plain_char utf8
split-open rest args b seen = split_chars-step b'\'' rest _ _ (
    ap (λ sb. some (at_char args sb false b'\'' false (length seen + 1) seen))
      (flush_slice-none args b false 0 false seen))

-- An escaped quote outside quotes.
split-escaped :
    (rest : Runes) (args : List Bytes) (b : Bytes) (seen : Bytes)
    → split_chars (b'\\' ∷ b'\'' ∷ rest) (at_char args (some b) false 0 false (length seen) seen)
      ≡ split_chars rest (
          at_char args
            (some (b ++ b'\'' ∷ []))
            false
            0
            false
            (length (seen ++ b'\\' ∷ b'\'' ∷ []))
            (seen ++ b'\\' ∷ b'\'' ∷ []))
unfolding split_char plain_char utf8 write_rune
split-escaped rest args b seen =
    let s1 = seen ++ b'\\' ∷ [] in
    split_chars-step b'\\' (b'\'' ∷ rest) _ _ (
      ap (λ sb. some (at_char args sb true 0 false (length seen + 1) seen))
        (flush_slice-none args b false 0 false seen))
    ∙ split_chars-step b'\'' rest _
        (at_char args (some (b ++ b'\'' ∷ [])) false 0 false (length s1 + 1) s1) refl
    ∙ rw (sym (length-snoc s1 b'\''), append_assoc seen (b'\\' ∷ []) (b'\'' ∷ [])) refl

-- The whole escape `'\''` inside quotes.
split-quote :
    (rest : Runes) (args : List Bytes) (b : Bytes) (si : ℕ) (seen : Bytes)
    → split_chars
        (b'\'' ∷ b'\\' ∷ b'\'' ∷ b'\'' ∷ rest)
        (at_char args (some b) false b'\'' false si seen)
      ≡ split_chars rest (
          at_char args
            (some (b ++ b'\'' ∷ []))
            false
            b'\''
            false
            (length (seen ++ b'\'' ∷ b'\\' ∷ b'\'' ∷ []) + 1)
            (seen ++ b'\'' ∷ b'\\' ∷ b'\'' ∷ b'\'' ∷ []))
split-quote rest args b si seen =
    let s1 = seen ++ b'\'' ∷ [] in
    let s2 = s1 ++ b'\\' ∷ b'\'' ∷ [] in
    split-close (b'\\' ∷ b'\'' ∷ b'\'' ∷ rest) args b si seen
    ∙ split-escaped (b'\'' ∷ rest) args b s1
    ∙ split-open rest args (b ++ b'\'' ∷ []) s2
    ∙ rw
        (
          append_assoc s1 (b'\\' ∷ b'\'' ∷ []) (b'\'' ∷ []),
          append_assoc seen (b'\'' ∷ []) (b'\\' ∷ b'\'' ∷ []),
          append_assoc seen (b'\'' ∷ []) (b'\\' ∷ b'\'' ∷ b'\'' ∷ []),
        )
        refl

encode-cons : (c : ℕ) (cs : Runes) → encode (c ∷ cs) ≡ utf8 c ++ encode cs
unfolding encode
encode-cons c cs = refl

split_chars-after :
    (rest : Runes) (args : List Bytes) (b b' seen seen' : Bytes)
    → b ≡ b'
    → seen ≡ seen'
    → split_chars rest (at_char args (some b) false 0 false (length seen) seen)
      ≡ split_chars rest (at_char args (some b') false 0 false (length seen') seen')
split_chars-after rest args b b' seen seen' e f = rw (e, f) refl

abbrev escaped_quote : Runes
escaped_quote = b'\'' ∷ b'\\' ∷ b'\'' ∷ b'\'' ∷ []

encode-escaped_quote : (cs : Runes) → encode (escaped_quote ++ cs) ≡ escaped_quote ++ encode cs
unfolding encode utf8
encode-escaped_quote cs = refl

encode-quote : (cs : Runes) → encode (b'\'' ∷ cs) ≡ b'\'' ∷ encode cs
unfolding encode utf8
encode-quote cs = refl

-- The rest of a quoted path, up to the closing quote.
pub split-quoted :
    (cs rest : Runes) (args : List Bytes) (b : Bytes) (si : ℕ) (seen : Bytes)
    → All (λ c. c ≢ b'\\') cs
    → split_chars
        (escape_chars cs ++ b'\'' ∷ rest)
        (at_char args (some b) false b'\'' false si seen)
      ≡ split_chars rest (
          at_char args
            (some (b ++ encode cs))
            false
            0
            false
            (length (seen ++ encode (escape_chars cs ++ b'\'' ∷ [])))
            (seen ++ encode (escape_chars cs ++ b'\'' ∷ [])))
unfolding escape_chars
split-quoted [] rest args b si seen h =
    rw (encode-quote []) (rw (encode_nil, append-nil b) (split-close rest args b si seen))
split-quoted (c ∷ cs) rest args b si seen h =
    let tail = escape_chars cs ++ b'\'' ∷ [] in
    elim (Bool-cases (c == b'\'')) [
      | inl quote ↦
          let e : c ≡ b'\'' = ground arith in
          let s1 = seen ++ escaped_quote in
          let ih =
            split-quoted cs rest args (b ++ b'\'' ∷ [])
              (length (seen ++ b'\'' ∷ b'\\' ∷ b'\'' ∷ []) + 1) s1 h.1 in
          rw e (
            split-quote (escape_chars cs ++ b'\'' ∷ rest) args b si seen
            ∙ ih
            ∙ split_chars-after rest args _ _ _ _
                (append_assoc b (b'\'' ∷ []) (encode cs) ∙ ap (λ r. b ++ r) (sym (encode-quote cs)))
                (append_assoc seen escaped_quote (encode tail)
                  ∙ ap (λ r. seen ++ r) (sym (encode-escaped_quote tail))))
      | inr other ↦
          let n : (b'\'' == c) ≡ false = ground arith in
          let m : (c == b'\\') ≡ false = ground (arith, h.0) in
          let ih = split-quoted cs rest args (b ++ utf8 c) (length seen + 1) (seen ++ utf8 c) h.1 in
          rw other (
            split_chars-step c (escape_chars cs ++ b'\'' ∷ rest) _ _
              (split_char-quoted c args b si seen m n)
            ∙ ih
            ∙ split_chars-after rest args _ _ _ _
                (append_assoc b (utf8 c) (encode cs) ∙ ap (λ r. b ++ r) (sym (encode-cons c cs)))
                (append_assoc seen (utf8 c) (encode tail)
                  ∙ ap (λ r. seen ++ r) (sym (encode-cons c tail))))
    ]
