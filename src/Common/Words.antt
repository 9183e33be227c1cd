-- ===== src/Common/Words.antt =====
-- Little-endian 32-bit words as four bytes: `encoding/binary` at int32 and uint32. A word is its bit
-- pattern, a number below 2^32; an int32 is negative if the pattern is at least 2^31.
use siso.Common.Tests.{Bytes}
use siso.Common.Lists.{length}
use Prim.Native.Nat.{ℕ, ◌+◌, ◌*◌, ◌/◌, ◌%◌, ◌^◌, ◌<◌}
use mathlib.Core.Path.{◌≡◌, refl}
use mathlib.Core.List.{[], ◌∷◌, ◌++◌}
use mathlib.Core.Option.{Option, none, some}
use native.Mathlib.Omega.{arith}

abbrev pub word : ℕ
word = 2 ^ 32

abbrev pub sign_bit : ℕ
sign_bit = 2 ^ 31

unfoldable pub put_word : ℕ → Bytes
put_word n = n % 256 ∷ n / 256 % 256 ∷ n / 65536 % 256 ∷ n / 16777216 % 256 ∷ []

-- The first word of a text and what stands behind it.
unfoldable pub get_word : Bytes → Option (ℕ × Bytes)
get_word (a ∷ b ∷ c ∷ d ∷ rest) = some (a + 256 * b + 65536 * c + 16777216 * d, rest)
get_word _ = none

pub get_word-put_word :
    (n : ℕ) (rest : Bytes) → n < word → get_word (put_word n ++ rest) ≡ some (n, rest)
unfolding get_word put_word
get_word-put_word n rest h = ground arith

pub length-put_word : (n : ℕ) → length (put_word n) ≡ 4
unfolding put_word
length-put_word n = refl
