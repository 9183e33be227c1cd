-- ===== src/Manifest/Kept.antt =====
-- Where the statements stand that `parseChunk` of toolsupport/ninjautil/chunk_parser.go finds, and that
-- the counts provide for them: round by round.
use siso.Common.{
  ℕ, zero, suc, ◌+◌, ◌≤◌, ◌<◌, ◌≡◌, refl, Bool, true, false, not, ◌&&◌, ◌||◌, [], ◌∷◌, Option, none,
  some, Bytes, ltb, ◌==◌, if◌then◌else◌, length, drop, length-drop, Bool-cases, inl, inr, arith,
}
use siso.Manifest.Lexer.{is_escaped, next_line, skip_spaces}
use siso.Manifest.Chunk.{
  StatementType, var_decl, Statement, Chunk, Round, advance, fails, panics, index_byte, Keyword,
  out_of_range, no_keyword, keyword, count_kind, add_statement, is_comment_at, no_binding,
  binding_line, indented, comment, declaration, keyword_line, statement_line, parse_line, Parsed,
  parsed, parse_lines, new_chunk, parse_chunk,
}
use siso.Manifest.Boundary.{next_line_pos}
use siso.Manifest.Loops.{go_on}
use siso.Manifest.Extents.{
  Spans, Spans-le, Spans-snoc, Covered, Covered-count, Covered-snoc, Covered-nvar, Covered-ncomment,
  tally,
}

-- What a round keeps that starts at `i` with these statements; it goes `m` bytes at most.
unfoldable pub Kept : ℕ → ℕ → ℕ → Round → Type 0
Kept lo i m (advance n ch) =
    (n ≤ m) × Spans lo (ch.statements) (i + n) × Covered (ch.statements) (ch.counts)
Kept lo i m (fails r) = Unit
Kept lo i m panics = Unit

module _ (lo i m : ℕ) where
  Kept-if :
      (c : Bool) (x y : Round) → Kept lo i m x → Kept lo i m y → Kept lo i m (if c then x else y)
  Kept-if true x y h k = h
  Kept-if false x y h k = k

  module _ (a : Chunk) (h : Spans lo (a.statements) i) (g : Covered (a.statements) (a.counts)) where
    Kept-advance : (n : ℕ) → n ≤ m → Kept lo i m (advance n a)
    unfolding Kept
    Kept-advance n l = (l, Spans-le lo i (i + n) _ (omega arith) h, g)

    Kept-add :
        (kind : StatementType) (v n : ℕ)
        → 0 < n
        → n ≤ m
        → Kept lo i m (advance n (add_statement kind i v n a))
    unfolding Kept
    Kept-add kind v n p l =
        let st : Statement = record { kind = kind; s = i; v = i + v; e = i + n } in
        (
          l,
          Spans-snoc lo i (a.statements) st refl (omega arith) h,
          Covered-snoc (a.statements) st (a.counts) g,
        )

    Kept-declaration : (eq : Option ℕ) (n : ℕ) → 0 < n → n ≤ m → Kept lo i m (declaration eq i n a)
    unfolding declaration Kept
    Kept-declaration none n p l = tt
    Kept-declaration (some v) n p l = Kept-add var_decl v n p l

    Kept-keyword :
        (kind : StatementType) (k : Keyword) (n : ℕ) (eq : Option ℕ)
        → 0 < n
        → n ≤ m
        → Kept lo i m (keyword_line kind k i n eq a)
    unfolding keyword_line Kept
    Kept-keyword kind out_of_range n eq p l = tt
    Kept-keyword kind no_keyword n eq p l = Kept-declaration eq n p l
    Kept-keyword kind (keyword v) n eq p l = Kept-add kind v n p l

    Kept-statement :
        (c n : ℕ) (buf : Bytes) → 0 < n → n ≤ m → Kept lo i m (statement_line c i n buf a)
    unfolding statement_line
    Kept-statement c n buf p l =
        let k : (kind : StatementType) (k : Keyword)
            → Kept lo i m (keyword_line kind k i n (index_byte b'=' buf) a) =
          λ kind k. Kept-keyword kind k n _ p l in
        Kept-if (c == b'b') _ _ (k _ _) (
          Kept-if (c == b'd') _ _ (k _ _) (
            Kept-if (c == b'i') _ _ (k _ _) (
              Kept-if (c == b'p') _ _ (k _ _) (
                Kept-if (c == b'r') _ _ (k _ _)
                  (Kept-if (c == b's') _ _ (k _ _) (Kept-declaration _ n p l))))))

    Kept-comment :
        (o : Option ℕ) → 0 < m → ((j : ℕ) → o ≡ some j → j < m) → Kept lo i m (comment o a)
    unfolding comment Kept
    Kept-comment none l k =
        (omega arith, Spans-le lo i (i + 0) _ (omega arith) h, Covered-ncomment _ _ g)
    Kept-comment (some j) l k =
        let b = k j refl in
        (omega arith, Spans-le lo i (i + (j + 1)) _ (omega arith) h, Covered-ncomment _ _ g)

    Kept-binding :
        (kind : StatementType) (n : ℕ) (line : Bytes) (o : Option ℕ)
        → 0 < n
        → n ≤ m
        → Kept lo i m
            (binding_line kind i n line o (record a { counts = count_kind kind a.counts }))
    unfolding binding_line no_binding Kept
    Kept-binding kind n line none p l =
        Kept-if ((skip_spaces 0 line == length line) || is_comment_at (skip_spaces 0 line) line) _ _
          (l, Spans-le lo i (i + n) _ (omega arith) h, Covered-count kind _ _ g) tt
    Kept-binding kind n line (some v) p l =
        let st : Statement = record { kind = kind; s = i; v = i + v; e = i + n } in
        (
          l,
          Spans-snoc lo i (a.statements) st refl (omega arith) h,
          Covered-nvar _ _ (Covered-snoc (a.statements) st (a.counts) g),
        )

    Kept-indented :
        (o : Option StatementType) (n : ℕ) (line : Bytes)
        → 0 < n
        → n ≤ m
        → Kept lo i m (indented o i n line a)
    unfolding indented Kept
    Kept-indented none n line p l = tt
    Kept-indented (some kind) n line p l = Kept-binding kind n line _ p l

next_line_le-length : (p2 p1 : ℕ) (s : Bytes) → next_line p2 p1 s ≤ length s
unfolding next_line
next_line_le-length p2 p1 [] = omega arith
next_line_le-length p2 p1 (c ∷ s) =
    let ih = next_line_le-length (if c == b'\n' then 0 else p1) (if c == b'\n' then 0 else c) s in
    elim (Bool-cases ((c == b'\n') && not (is_escaped p2 p1))) [
      | inl e ↦ rw e (omega arith)
      | inr e ↦ rw e (omega arith)
    ]

found_lt :
    (b : Bool) (o : Option ℕ) (n j : ℕ)
    → ((j : ℕ) → o ≡ some j → j < n)
    → (if b then some 0 else elim o [ none ↦ none | some j ↦ some (j + 1) ]) ≡ some j
    → j < suc n
found_lt true o n j f h = ground arith
found_lt false none n j f h = cc
found_lt false (some k) n j f h = let l = f k refl in ground arith

index_byte_lt : (b : ℕ) (s : Bytes) (j : ℕ) → index_byte b s ≡ some j → j < length s
unfolding index_byte
index_byte_lt b [] j h = cc
index_byte_lt b (c ∷ s) j h = found_lt (c == b) (index_byte b s) (length s) j (index_byte_lt b s) h

Kept-line :
    (lo i c : ℕ) (s : Bytes) (a : Chunk)
    → Spans lo (a.statements) i
    → Covered (a.statements) (a.counts)
    → Kept lo i (length (c ∷ s)) (parse_line i c s a)
unfolding parse_line
Kept-line lo i c s a h g =
    let m = length (c ∷ s) in
    let p = next_line_pos 0 0 c s in
    let l = next_line_le-length 0 0 (c ∷ s) in
    Kept-if lo i m ((c == b'\n') || (c == b'\r')) _ _ (Kept-advance lo i m a h g 1 (omega arith)) (
      Kept-if lo i m (c == b'#') _ _
        (Kept-comment lo i m a h g _ (omega arith)
          (λ j e. let k = index_byte_lt b'\n' s j e in omega arith))
        (Kept-if lo i m ((c == b' ') || (c == b'\t')) _ _ (Kept-indented lo i m a h g _ _ _ p l)
          (Kept-statement lo i m a h g c _ (c ∷ s) p l)))

-- What the loop returns on the rest `s` of the file at position `i`.
abbrev pub Placed : ℕ → ℕ → Chunk → Type 0
Placed lo hi ch = Spans lo (ch.statements) hi × Covered (ch.statements) (ch.counts)

abbrev Finds : ℕ → Type 0
Finds fuel =
    (lo end i : ℕ) (s : Bytes) (a ch : Chunk)
    → Placed lo i a
    → parse_lines fuel end i s a ≡ parsed ch
    → Placed lo (i + length s) ch

Finds-go_on :
    (fuel lo end i : ℕ) (s : Bytes) (r : Round) (ch : Chunk)
    → Finds fuel
    → Kept lo i (length s) r
    → go_on fuel end i s r ≡ parsed ch
    → Placed lo (i + length s) ch
unfolding Kept
Finds-go_on fuel lo end i s (advance n a) ch ih k h =
    let f = ih lo end (i + n) (drop n s) a ch (k.1, k.2) h in
    (
      Spans-le lo (i + n + length (drop n s)) (i + length s) _ (omega (arith, length-drop n s)) f.0,
      f.1,
    )
Finds-go_on fuel lo end i s (fails r) ch ih k h = cc
Finds-go_on fuel lo end i s panics ch ih k h = cc

found-same :
    (lo i n : ℕ) (a ch : Chunk) → Placed lo i a → parsed a ≡ parsed ch → Placed lo (i + n) ch
found-same lo i n a ch f h =
    let e : a ≡ ch = cc in rw⁻¹ e (Spans-le lo i (i + n) _ (omega arith) f.0, f.1)

finds-if :
    (lo i n : ℕ) (b : Bool) (x : Parsed) (a ch : Chunk)
    → Placed lo i a
    → (x ≡ parsed ch → Placed lo (i + n) ch)
    → (if b then x else parsed a) ≡ parsed ch
    → Placed lo (i + n) ch
finds-if lo i n true x a ch f g h = g h
finds-if lo i n false x a ch f g h = found-same lo i n a ch f h

finds : (fuel : ℕ) → Finds fuel
unfolding parse_lines
finds zero lo end i s a ch f h = cc
finds (suc fuel) lo end i [] a ch f h = found-same lo i 0 a ch f h
finds (suc fuel) lo end i (c ∷ s) a ch f h =
    finds-if lo i (length (c ∷ s)) (ltb i end) _ a ch f
      (Finds-go_on fuel lo end i (c ∷ s) _ ch (finds fuel) (Kept-line lo i c s a f.0 f.1)) h

parse_chunk-Placed :
    (buf : Bytes) (start end : ℕ) (ch : Chunk)
    → parse_chunk buf start end ≡ parsed ch
    → Placed start (start + length (drop start buf)) ch
unfolding parse_chunk Spans Covered tally
parse_chunk-Placed buf start end ch h =
    finds (length buf + 1) start end start (drop start buf) new_chunk ch
      (omega arith, λ k l. omega arith) h

-- The statements of a chunk that starts inside the file stand one behind the other, from its start on
-- and inside the file.
pub parse_chunk-Spans :
    (buf : Bytes) (start end : ℕ) (ch : Chunk)
    → start ≤ length buf
    → parse_chunk buf start end ≡ parsed ch
    → Spans start (ch.statements) (length buf)
parse_chunk-Spans buf start end ch l h =
    Spans-le start (start + length (drop start buf)) (length buf) (ch.statements)
      (omega (arith, length-drop start buf)) ((parse_chunk-Placed buf start end ch h).0)

-- For every kind of statement, the count of the kind that a parsed chunk has is at least the number of its
-- statements of the kind.
pub parse_chunk-Covered :
    (buf : Bytes) (start end : ℕ) (ch : Chunk)
    → parse_chunk buf start end ≡ parsed ch
    → Covered (ch.statements) (ch.counts)
parse_chunk-Covered buf start end ch h = (parse_chunk-Placed buf start end ch h).1
