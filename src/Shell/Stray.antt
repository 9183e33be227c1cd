-- ===== src/Shell/Stray.antt =====
-- What `Split` makes of a character that is not ASCII in front of a quote.
use siso.Common.{
  ℕ, ◌+◌, ◌/◌, ◌%◌, ◌≤◌, ◌<◌, ◌≡◌, refl, sym, ap, ◌∙◌, false, ◌||◌, [], ◌∷◌, ◌++◌, some, ltb, ◌==◌,
  Bool-cases, inl, inr, arith,
}
use siso.Shell.Runes.{utf8, is_space, trim_space, trim_right}
use siso.Shell.Split.{
  flush_slice, write_rune, is_metachar, plain_char, split_char, quoted_char, split_chars,
  finish_split, check_env, last_args, has_equals, at_end, split,
}
use siso.Shell.Trim.{trim_left-head, trim_right-front, trim_right-one}
use siso.Shell.Words.{at_char, split_chars-step}

-- A character of two bytes that is no space.
record IsTwoBytes (c : ℕ) : Type 0 where
  low : (c == b'\\') ≡ false
  quote : ((c == b'"') || (c == b'\'')) ≡ false
  blank : ((c == b' ') || (c == b'\t')) ≡ false
  meta : is_metachar c ≡ false
  bytes : utf8 c ≡ (192 + c / 64) ∷ (128 + c % 64) ∷ []

two_bytes : (c : ℕ) → 128 ≤ c → c < 2048 → IsTwoBytes c
unfolding is_metachar utf8
two_bytes c le lt = record {
  low = ground arith;
  quote = ground arith;
  blank = ground arith;
  meta = ground arith;
  bytes = elim (Bool-cases (ltb c 128)) [
    | inl small ↦ absurd (ground arith)
    | inr big ↦ elim (Bool-cases (ltb c 2048)) [
      | inl two ↦ rw (big, two) refl
      | inr more ↦ absurd (ground arith)
    ]
  ];
}

trim-stray :
    (c : ℕ) → is_space c ≡ false → trim_space (c ∷ b'\'' ∷ b'\'' ∷ []) ≡ c ∷ b'\'' ∷ b'\'' ∷ []
unfolding trim_space is_space
trim-stray c h =
    ap trim_right (trim_left-head c (b'\'' ∷ b'\'' ∷ []) h)
    ∙ trim_right-front (c ∷ b'\'' ∷ []) b'\'' [] (trim_right-one b'\'' refl)

read_first :
    (c a b : ℕ) (t : IsTwoBytes c)
    → utf8 c ≡ a ∷ b ∷ []
    → split_chars (c ∷ b'\'' ∷ b'\'' ∷ []) (at_char [] (some []) false 0 false 0 [])
      ≡ split_chars
          (b'\'' ∷ b'\'' ∷ [])
          (at_char [] (some (a ∷ b ∷ [])) false 0 false 1 (a ∷ b ∷ []))
unfolding split_char plain_char write_rune
read_first c a b t e =
    split_chars-step c (b'\'' ∷ b'\'' ∷ []) _ (at_char [] (some (utf8 c)) false 0 false 1 [])
      (rw (t.low, t.quote, t.blank, t.meta) refl)
    ∙ rw e refl

-- The quotes: the slice from the second byte on is written again.
read_quotes :
    (a b : ℕ)
    → at_end (
        split_chars
          (b'\'' ∷ b'\'' ∷ [])
          (at_char [] (some (a ∷ b ∷ [])) false 0 false 1 (a ∷ b ∷ [])))
      ≡ check_env ((a ∷ b ∷ b ∷ []) ∷ [])
unfolding split_chars split_char plain_char quoted_char flush_slice at_end finish_split last_args
    utf8
read_quotes a b = refl

check_env-bytes :
    (a b : ℕ)
    → (a == b'=') ≡ false
    → (b == b'=') ≡ false
    → check_env ((a ∷ b ∷ b ∷ []) ∷ []) ≡ some ((a ∷ b ∷ b ∷ []) ∷ [])
unfolding check_env has_equals
check_env-bytes a b h k = rw (h, k) refl

-- A two-byte character followed by an empty quoted string is not split into the word of that character:
-- the second byte of the character is written once more, so that the word is not valid UTF-8.
pub split_stray :
    (c : ℕ)
    → 128 ≤ c
    → c < 2048
    → is_space c ≡ false
    → split (c ∷ b'\'' ∷ b'\'' ∷ []) ≡ some ((utf8 c ++ (128 + c % 64) ∷ []) ∷ [])
unfolding split
split_stray c le lt h =
    let t = two_bytes c le lt in
    let a = 192 + c / 64 in
    let b = 128 + c % 64 in
    ap (λ l. at_end (split_chars l (at_char [] (some []) false 0 false 0 []))) (trim-stray c h)
    ∙ ap at_end (read_first c a b t t.bytes)
    ∙ read_quotes a b
    ∙ check_env-bytes a b (ground arith) (ground arith)
    ∙ ap (λ w. some ((w ++ b ∷ []) ∷ [])) (sym t.bytes)
