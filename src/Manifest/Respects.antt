-- ===== src/Manifest/Respects.antt =====
-- Lemmas on the rounds of `parseChunk` in toolsupport/ninjautil/chunk_parser.go: what a round does does
-- not depend on the statements that are there already, nor on the counts.
use siso.Common.{
  ℕ, ◌+◌, ◌≡◌, refl, ◌∙◌, ap, Bool, true, false, ◌||◌, List, [], ◌∷◌, ◌++◌, append_assoc, Option,
  none, some, Bytes, ◌==◌, if◌then◌else◌, length, arith,
}
use siso.Manifest.Lexer.{skip_spaces}
use siso.Manifest.Pieces.{is_start}
use siso.Manifest.Chunk.{
  StatementType, var_decl, Statement, Chunk, Round, advance, fails, panics, index_byte, Keyword,
  out_of_range, no_keyword, keyword, count_kind, var_of, add_statement, add_binding, is_comment_at,
  no_binding, binding_line, indented, comment, declaration, keyword_line, statement_line,
  parse_line,
}

-- The first chunk has the statements `ps` more than the second.
abbrev pub Longer : List Statement → Chunk → Chunk → Type 0
Longer ps a b = a.statements ≡ ps ++ b.statements

-- And the same last statement.
abbrev pub LongerSame : List Statement → Chunk → Chunk → Type 0
LongerSame ps a b = Longer ps a b × (a.last ≡ b.last)

-- The two rounds go on in the same way, to chunks that are so related.
unfoldable pub Agree : List Statement → Round → Round → Type 0
Agree ps (advance n a) r = (b : Chunk) × (r ≡ advance n b) × LongerSame ps a b
Agree ps (fails reason) r = Unit
Agree ps panics r = Unit

module _ (ps : List Statement) (a b : Chunk) where
  Agree-advance : (n : ℕ) → LongerSame ps a b → Agree ps (advance n a) (advance n b)
  unfolding Agree
  Agree-advance n h = (b, refl, h)

  Longer-add :
      (st : Statement)
      → Longer ps a b
      → a.statements ++ (st ∷ []) ≡ ps ++ (b.statements ++ (st ∷ []))
  Longer-add st h = ap (λ x. x ++ (st ∷ [])) h ∙ append_assoc ps b.statements (st ∷ [])

  Agree-add :
      (kind : StatementType) (i v n : ℕ)
      → Longer ps a b
      → Agree ps (advance n (add_statement kind i v n a)) (advance n (add_statement kind i v n b))
  unfolding Agree
  Agree-add kind i v n h = (_, refl, (Longer-add _ h, refl))

  Agree-declaration :
      (eq : Option ℕ) (i n : ℕ)
      → Longer ps a b
      → Agree ps (declaration eq i n a) (declaration eq i n b)
  unfolding declaration Agree
  Agree-declaration none i n h = tt
  Agree-declaration (some v) i n h = Agree-add var_decl i v n h

  Agree-keyword :
      (kind : StatementType) (k : Keyword) (i n : ℕ) (eq : Option ℕ)
      → Longer ps a b
      → Agree ps (keyword_line kind k i n eq a) (keyword_line kind k i n eq b)
  unfolding keyword_line Agree
  Agree-keyword kind out_of_range i n eq h = tt
  Agree-keyword kind no_keyword i n eq h = Agree-declaration eq i n h
  Agree-keyword kind (keyword v) i n eq h = Agree-add kind i v n h

Agree-if :
    (ps : List Statement) (c : Bool) (x y x' y' : Round)
    → Agree ps x x'
    → Agree ps y y'
    → Agree ps (if c then x else y) (if c then x' else y')
Agree-if ps true x y x' y' h k = h
Agree-if ps false x y x' y' h k = k

module _ (ps : List Statement) (a b : Chunk) where
  Agree-statement :
      (c i n : ℕ) (buf : Bytes)
      → Longer ps a b
      → Agree ps (statement_line c i n buf a) (statement_line c i n buf b)
  unfolding statement_line
  Agree-statement c i n buf h =
      let k : (kind : StatementType) (k : Keyword)
          → Agree ps (keyword_line kind k i n (index_byte b'=' buf) a)
              (keyword_line kind k i n (index_byte b'=' buf) b) =
        λ kind k. Agree-keyword ps a b kind k i n _ h in
      Agree-if ps (c == b'b') _ _ _ _ (k _ _) (
        Agree-if ps (c == b'd') _ _ _ _ (k _ _) (
          Agree-if ps (c == b'i') _ _ _ _ (k _ _) (
            Agree-if ps (c == b'p') _ _ _ _ (k _ _) (
              Agree-if ps (c == b'r') _ _ _ _ (k _ _)
                (Agree-if ps (c == b's') _ _ _ _ (k _ _) (Agree-declaration ps a b _ i n h))))))

  Agree-comment : (o : Option ℕ) → LongerSame ps a b → Agree ps (comment o a) (comment o b)
  unfolding comment
  Agree-comment none h = Agree-advance ps _ _ 0 h
  Agree-comment (some j) h = Agree-advance ps _ _ (j + 1) h

  Agree-binding :
      (kind : StatementType) (i n : ℕ) (line : Bytes) (o : Option ℕ)
      → LongerSame ps a b
      → Agree ps (binding_line kind i n line o a) (binding_line kind i n line o b)
  unfolding binding_line no_binding Agree
  Agree-binding kind i n line none h =
      Agree-if ps ((skip_spaces 0 line == length line) || is_comment_at (skip_spaces 0 line) line) _
        _ _ _ (Agree-advance ps a b n h) tt
  Agree-binding kind i n line (some v) h =
      Agree-advance ps (add_binding kind i v n a) (add_binding kind i v n b) n
        (Longer-add ps a b _ h.0, h.1)

Agree-indented :
    (ps : List Statement) (a b : Chunk) (o o' : Option StatementType) (i n : ℕ) (line : Bytes)
    → o ≡ o'
    → LongerSame ps a b
    → Agree ps (indented o i n line a) (indented o' i n line b)
unfolding indented Agree
Agree-indented ps a b o none i n line e h = rw e tt
Agree-indented ps a b o (some kind) i n line e h = rw e (
    Agree-binding ps (record a { counts = count_kind kind a.counts })
      (record b { counts = count_kind kind b.counts }) kind i n line (index_byte b'=' line) h)

pub Agree-line :
    (ps : List Statement) (a b : Chunk) (i c : ℕ) (s : Bytes)
    → LongerSame ps a b
    → Agree ps (parse_line i c s a) (parse_line i c s b)
unfolding parse_line
Agree-line ps a b i c s h =
    Agree-if ps ((c == b'\n') || (c == b'\r')) _ _ _ _ (Agree-advance ps a b 1 h) (
      Agree-if ps (c == b'#') _ _ _ _ (Agree-comment ps a b _ h) (
        Agree-if ps ((c == b' ') || (c == b'\t')) _ _ _ _
          (Agree-indented ps a b _ _ i _ _ (ap var_of h.1) h)
          (Agree-statement ps a b c i _ (c ∷ s) h.0)))

-- The first line of a chunk does not depend on the last statement either.
pub Agree-start :
    (ps : List Statement) (a b : Chunk) (i c : ℕ) (s : Bytes)
    → is_start c ≡ true
    → Longer ps a b
    → Agree ps (parse_line i c s a) (parse_line i c s b)
unfolding parse_line
Agree-start ps a b i c s k h =
    let e1 : ((c == b'\n') || (c == b'\r')) ≡ false = ground arith in
    let e2 : (c == b'#') ≡ false = ground arith in
    let e3 : ((c == b' ') || (c == b'\t')) ≡ false = ground arith in
    rw (e1, e2, e3) (Agree-statement ps a b c i _ (c ∷ s) h)
