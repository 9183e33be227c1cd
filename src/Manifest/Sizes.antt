-- ===== src/Manifest/Sizes.antt =====
-- How far a round of `parseChunk` in toolsupport/ninjautil/chunk_parser.go goes, where the rest of the
-- file up to some place ends with a line break: at least one byte, and not over that place.
use siso.Common.{
  ℕ, ◌≤◌, ◌<◌, ◌≡◌, refl, Bool, true, false, ◌||◌, ◌∷◌, ◌++◌, Option, none, some, Bytes, ◌==◌,
  if◌then◌else◌, length, arith,
}
use siso.Manifest.Lexer.{skip_spaces}
use siso.Manifest.Chunk.{
  StatementType, Chunk, Round, advance, fails, panics, index_byte, Keyword, out_of_range,
  no_keyword, keyword, is_comment_at, no_binding, binding_line, indented, comment, declaration,
  keyword_line, statement_line, parse_line,
}
use siso.Manifest.Boundary.{ends, next_line_le, next_line_pos, index_byte_ends}

unfoldable pub Sized : ℕ → Round → Type 0
Sized m (advance n a) = (0 < n) × (n ≤ m)
Sized m (fails r) = Unit
Sized m panics = Unit

module _ (m : ℕ) where
  Sized-if : (c : Bool) (x y : Round) → Sized m x → Sized m y → Sized m (if c then x else y)
  Sized-if true x y h k = h
  Sized-if false x y h k = k

  Sized-declaration :
      (eq : Option ℕ) (i n : ℕ) (a : Chunk) → 0 < n → n ≤ m → Sized m (declaration eq i n a)
  unfolding declaration Sized
  Sized-declaration none i n a l h = tt
  Sized-declaration (some v) i n a l h = (l, h)

  Sized-keyword :
      (kind : StatementType) (k : Keyword) (i n : ℕ) (eq : Option ℕ) (a : Chunk)
      → 0 < n
      → n ≤ m
      → Sized m (keyword_line kind k i n eq a)
  unfolding keyword_line Sized
  Sized-keyword kind out_of_range i n eq a l h = tt
  Sized-keyword kind no_keyword i n eq a l h = Sized-declaration eq i n a l h
  Sized-keyword kind (keyword v) i n eq a l h = (l, h)

  Sized-statement :
      (c i n : ℕ) (buf : Bytes) (a : Chunk) → 0 < n → n ≤ m → Sized m (statement_line c i n buf a)
  unfolding statement_line
  Sized-statement c i n buf a l h =
      let k : (kind : StatementType) (k : Keyword)
          → Sized m (keyword_line kind k i n (index_byte b'=' buf) a) =
        λ kind k. Sized-keyword kind k i n _ a l h in
      Sized-if (c == b'b') _ _ (k _ _) (
        Sized-if (c == b'd') _ _ (k _ _) (
          Sized-if (c == b'i') _ _ (k _ _) (
            Sized-if (c == b'p') _ _ (k _ _) (
              Sized-if (c == b'r') _ _ (k _ _)
                (Sized-if (c == b's') _ _ (k _ _) (Sized-declaration _ i n a l h))))))

  Sized-binding :
      (kind : StatementType) (i n : ℕ) (line : Bytes) (o : Option ℕ) (a : Chunk)
      → 0 < n
      → n ≤ m
      → Sized m (binding_line kind i n line o a)
  unfolding binding_line no_binding Sized
  Sized-binding kind i n line none a l h =
      Sized-if ((skip_spaces 0 line == length line) || is_comment_at (skip_spaces 0 line) line) _ _
        (l, h) tt
  Sized-binding kind i n line (some v) a l h = (l, h)

  Sized-indented :
      (o : Option StatementType) (i n : ℕ) (line : Bytes) (a : Chunk)
      → 0 < n
      → n ≤ m
      → Sized m (indented o i n line a)
  unfolding indented Sized
  Sized-indented none i n line a l h = tt
  Sized-indented (some kind) i n line a l h = Sized-binding kind i n line _ _ l h

  -- A comment whose line ends at this newline.
  Sized-comment : (j : ℕ) (a : Chunk) → j < m → Sized m (comment (some j) a)
  unfolding comment Sized
  Sized-comment j a h = (omega arith, omega arith)

if_lazy :
    (m : ℕ) (c : Bool) (x y : Round)
    → (c ≡ true → Sized m x)
    → (c ≡ false → Sized m y)
    → Sized m (if c then x else y)
if_lazy m true x y h k = h refl
if_lazy m false x y h k = k refl

Sized-comment_line :
    (c : ℕ) (s t : Bytes) (a : Chunk)
    → ends 0 0 (c ∷ s) ≡ true
    → c ≡ b'#'
    → Sized (length (c ∷ s)) (comment (index_byte b'\n' (s ++ t)) a)
Sized-comment_line c s t a h e =
    let j = index_byte_ends c s t h (λ q. omega arith) in
    rw j.1.0 (Sized-comment (length (c ∷ s)) j.0 a (omega (arith, j.1.1)))

pub Sized-line :
    (i c : ℕ) (s t : Bytes) (a : Chunk)
    → ends 0 0 (c ∷ s) ≡ true
    → Sized (length (c ∷ s)) (parse_line i c (s ++ t) a)
unfolding parse_line Sized
Sized-line i c s t a h =
    let m = length (c ∷ s) in
    let l = next_line_pos 0 0 c (s ++ t) in
    let g = next_line_le 0 0 c s t h in
    Sized-if m ((c == b'\n') || (c == b'\r')) _ _ (omega arith, omega arith)
      (if_lazy m (c == b'#') _ _ (λ e. Sized-comment_line c s t a h (ground arith))
        (λ e.
          Sized-if m ((c == b' ') || (c == b'\t')) _ _ (Sized-indented m _ i _ _ a l g)
            (Sized-statement m c i _ (c ∷ (s ++ t)) a l g)))
