-- ===== src/Depfile/Hang.antt =====
-- A backslash and a carriage return in front of an input, with no newline behind them.
use siso.Common.{ℕ, zero, suc, ◌≡◌, refl, ap, true, false, List, [], ◌∷◌, Bytes, bytes_eq}
use siso.Depfile.Tokens.{
  starts_lf, starts_crlf, at_char, skip_spaces, after_spaces, take_token, next_token,
}
use siso.Depfile.Parse.{out_of_fuel, parse}

skip_spaces-stray :
    (s : Bytes)
    → starts_lf s ≡ false
    → skip_spaces 0 (b'\\' ∷ b'\r' ∷ s) ≡ at_char (b'\\' ∷ b'\r' ∷ s)
unfolding skip_spaces starts_crlf starts_lf
skip_spaces-stray [] h = refl
skip_spaces-stray (c ∷ s) h = rw h refl

next_token-stray :
    (s : Bytes) → starts_lf s ≡ false → next_token (b'\\' ∷ b'\r' ∷ s) ≡ ([], b'\\' ∷ b'\r' ∷ s)
unfolding next_token after_spaces take_token
next_token-stray s h = ap after_spaces (skip_spaces-stray s h)

-- With any fuel, the loop over the inputs does not come to an end at a backslash and a carriage
-- return that no newline follows: the token is empty and the rest stays the same.
pub parse_hangs :
    (fuel : ℕ) (s : Bytes) (inputs : List Bytes)
    → starts_lf s ≡ false
    → parse fuel true (b'\\' ∷ b'\r' ∷ s) inputs ≡ out_of_fuel
unfolding parse bytes_eq
parse_hangs zero s inputs h = refl
parse_hangs (suc fuel) s inputs h = rw (parse, next_token-stray s h) (parse_hangs fuel s inputs h)
