-- ===== src/Manifest/Blanks.antt =====
-- The blanks behind an escaped line break in toolsupport/ninjautil/eval.go.
use siso.Common.{
  ℕ, suc, ◌+◌, ◌<◌, ◌≡◌, refl, ◌∙◌, ap, true, false, [], ◌∷◌, ◌++◌, Bytes, lt→ltb, ltb_of_le, ◌==◌,
  length, length-append, All, arith,
}
use siso.Manifest.Lexer.{is_whitespace}
use siso.Manifest.Eval.{
  Value, text, write_text, line_break, strip_blank, count_blank, dollar, eval_loop,
}
use siso.Manifest.Templates.{eval_loop-skip, eval_loop-plain}

abbrev pub AllBlank : Bytes → Type 0
AllBlank ws = All (λ b. is_whitespace b ≡ true) ws

count_blank-length :
    (ws : Bytes) (c : ℕ) (s : Bytes)
    → AllBlank ws
    → is_whitespace c ≡ false
    → count_blank (ws ++ (c ∷ s)) ≡ length ws
unfolding count_blank
count_blank-length [] c s h k = rw k refl
count_blank-length (b ∷ ws) c s h k =
    let e : length ws + 1 ≡ suc (length ws) = omega arith in
    rw (h.0, count_blank-length ws c s h.1 k) e

-- The blanks and the byte `c` behind them, and what is behind that.
module _ (ws : Bytes) (c : ℕ) (s : Bytes) (h : AllBlank ws) (k : is_whitespace c ≡ false) where
  counted : count_blank (b'\n' ∷ (ws ++ (c ∷ s))) ≡ suc (length ws)
  counted = count_blank-length (b'\n' ∷ ws) c s (refl, h) k

  strip_some : 0 < length s → strip_blank b'\n' (ws ++ (c ∷ s)) ≡ suc (length ws)
  strip_some p =
      let l = length-append ws (c ∷ s) in
      rw (counted, lt→ltb (suc (length ws)) (length (ws ++ (c ∷ s))) (omega arith)) refl

  strip_none : length s ≡ 0 → strip_blank b'\n' (ws ++ (c ∷ s)) ≡ 1
  strip_none p =
      let l = length-append ws (c ∷ s) in
      rw (counted, ltb_of_le (suc (length ws)) (length (ws ++ (c ∷ s))) (omega arith)) refl

dollar-break : (t : Bytes) (n : ℕ) → strip_blank b'\n' t ≡ n → dollar (b'\n' ∷ t) ≡ line_break n
unfolding dollar
dollar-break t n h = ap line_break h

after_break :
    (sub : Bytes → Value) (t : Bytes) (n : ℕ)
    → strip_blank b'\n' t ≡ n
    → eval_loop sub 0 (b'$' ∷ b'\n' ∷ t) ≡ eval_loop sub n (b'\n' ∷ t)
unfolding eval_loop
after_break sub t n h = rw (eval_loop, dollar-break t n h) refl

eval_loop-blank :
    (sub : Bytes → Value) (ws : Bytes) (c : ℕ)
    → AllBlank ws
    → (c == b'$') ≡ false
    → eval_loop sub 0 (ws ++ (c ∷ [])) ≡ text (ws ++ (c ∷ []))
unfolding eval_loop write_text
eval_loop-blank sub [] c h d = eval_loop-plain sub c [] d
eval_loop-blank sub (b ∷ ws) c h d =
    eval_loop-plain sub b (ws ++ (c ∷ [])) (ground arith)
    ∙ ap (write_text (b ∷ [])) (eval_loop-blank sub ws c h.1 d)

-- Blanks behind an escaped line break, and then a byte that is no white space and no `$`: where another byte
-- follows that one the blanks are taken with the break, and where none does they are part of the value.
pub eval_loop-blanks :
    (sub : Bytes → Value) (ws s : Bytes) (c d : ℕ)
    → AllBlank ws
    → is_whitespace c ≡ false
    → (c == b'$') ≡ false
    → (eval_loop sub 0 (b'$' ∷ b'\n' ∷ (ws ++ (c ∷ d ∷ s))) ≡ eval_loop sub 0 (c ∷ d ∷ s))
      × (eval_loop sub 0 (b'$' ∷ b'\n' ∷ (ws ++ (c ∷ []))) ≡ text (ws ++ (c ∷ [])))
unfolding eval_loop
eval_loop-blanks sub ws s c d h k p = (
  after_break sub (ws ++ (c ∷ d ∷ s)) (suc (length ws)) (strip_some ws c (d ∷ s) h k (omega arith))
      ∙ eval_loop-skip sub ws (c ∷ d ∷ s) (length ws) refl,
  after_break sub (ws ++ (c ∷ [])) 1 (strip_none ws c [] h k refl) ∙ eval_loop-blank sub ws c h p,
)
