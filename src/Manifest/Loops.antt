-- ===== src/Manifest/Loops.antt =====
-- Lemmas on the loop of `parseChunk` in toolsupport/ninjautil/chunk_parser.go: what it returns does not
-- depend on the statements that are there already, nor on the counts, nor on spare fuel.
use siso.Common.{
  ℕ, zero, suc, ◌+◌, ◌≡◌, refl, Bool, true, false, List, ◌∷◌, [], Bytes, ltb, if◌then◌else◌, drop,
  ◌<◌, lt→ltb,
}
use siso.Manifest.Pieces.{is_start}
use siso.Manifest.Chunk.{
  Statement, Chunk, Round, advance, fails, panics, parse_line, Parsed, parsed, failed, panicked,
  out_of_fuel, parse_lines,
}
use siso.Manifest.Respects.{Longer, LongerSame, Agree, Agree-line, Agree-start}

-- The two loops return such chunks, if the first returns one.
unfoldable pub Prefixed : List Statement → Parsed → Parsed → Type 0
Prefixed ps (parsed a) r = (b : Chunk) × (r ≡ parsed b) × Longer ps a b
Prefixed ps (failed reason) r = Unit
Prefixed ps panicked r = Unit
Prefixed ps out_of_fuel r = Unit

-- The rest of the loop after a round.
abbrev pub go_on : ℕ → ℕ → ℕ → Bytes → Round → Parsed
go_on fuel end i buf (advance n ch) = parse_lines fuel end (i + n) (drop n buf) ch
go_on fuel end i buf (fails r) = failed r
go_on fuel end i buf panics = panicked

pub parse_lines-inside :
    (fuel end i c : ℕ) (s : Bytes) (a : Chunk)
    → i < end
    → parse_lines (suc fuel) end i (c ∷ s) a ≡ go_on fuel end i (c ∷ s) (parse_line i c s a)
unfolding parse_lines
parse_lines-inside fuel end i c s a h = rw (lt→ltb i end h) refl

Prefixed-if :
    (ps : List Statement) (c : Bool) (x y x' y' : Parsed)
    → Prefixed ps x x'
    → Prefixed ps y y'
    → Prefixed ps (if c then x else y) (if c then x' else y')
Prefixed-if ps true x y x' y' h k = h
Prefixed-if ps false x y x' y' h k = k

-- A loop from related chunks.
abbrev Loops : List Statement → ℕ → ℕ → Type 0
Loops ps fuel end =
    (i : ℕ) (s : Bytes) (a b : Chunk)
    → LongerSame ps a b
    → Prefixed ps (parse_lines fuel end i s a) (parse_lines fuel end i s b)

Prefixed-go_on :
    (ps : List Statement) (fuel end i : ℕ) (buf : Bytes) (r r' : Round)
    → Loops ps fuel end
    → Agree ps r r'
    → Prefixed ps (go_on fuel end i buf r) (go_on fuel end i buf r')
unfolding Agree Prefixed
Prefixed-go_on ps fuel end i buf (advance n a) r' ih h = rw h.1 (ih (i + n) (drop n buf) a h.0 h.2)
Prefixed-go_on ps fuel end i buf (fails reason) r' ih h = tt
Prefixed-go_on ps fuel end i buf panics r' ih h = tt

pub prefixed-lines : (ps : List Statement) (fuel end : ℕ) → Loops ps fuel end
unfolding parse_lines Prefixed
prefixed-lines ps zero end i s a b h = tt
prefixed-lines ps (suc fuel) end i [] a b h = (b, refl, h.0)
prefixed-lines ps (suc fuel) end i (c ∷ s) a b h =
    Prefixed-if ps (ltb i end) _ _ _ _
      (Prefixed-go_on ps fuel end i (c ∷ s) _ _ (prefixed-lines ps fuel end)
        (Agree-line ps a b i c s h))
      (b, refl, h.0)

-- A chunk may be parsed on its own from a byte where one may start.
pub Prefixed-start :
    (ps : List Statement) (fuel end i d : ℕ) (s : Bytes) (a b : Chunk)
    → is_start d ≡ true
    → Longer ps a b
    → Prefixed ps (parse_lines fuel end i (d ∷ s) a) (parse_lines fuel end i (d ∷ s) b)
unfolding parse_lines Prefixed
Prefixed-start ps zero end i d s a b k h = tt
Prefixed-start ps (suc fuel) end i d s a b k h =
    Prefixed-if ps (ltb i end) _ _ _ _
      (Prefixed-go_on ps fuel end i (d ∷ s) _ _ (prefixed-lines ps fuel end)
        (Agree-start ps a b i d s k h))
      (b, refl, h)

if-map :
    (c : Bool) (x x' y : Parsed) (ch : Chunk)
    → (x ≡ parsed ch → x' ≡ parsed ch)
    → (if c then x else y) ≡ parsed ch
    → (if c then x' else y) ≡ parsed ch
if-map true x x' y ch f h = f h
if-map false x x' y ch f h = h

go_on-more :
    (fuel end i : ℕ) (buf : Bytes) (r : Round) (ch : Chunk)
    → ((i : ℕ) (s : Bytes) (a : Chunk)
        → parse_lines fuel end i s a ≡ parsed ch
        → parse_lines (suc fuel) end i s a ≡ parsed ch)
    → go_on fuel end i buf r ≡ parsed ch
    → go_on (suc fuel) end i buf r ≡ parsed ch
go_on-more fuel end i buf (advance n a) ch ih h = ih (i + n) (drop n buf) a h
go_on-more fuel end i buf (fails r) ch ih h = h
go_on-more fuel end i buf panics ch ih h = h

-- More fuel does not change a chunk that is returned.
pub parse_lines-more :
    (fuel end i : ℕ) (s : Bytes) (a ch : Chunk)
    → parse_lines fuel end i s a ≡ parsed ch
    → parse_lines (suc fuel) end i s a ≡ parsed ch
unfolding parse_lines
parse_lines-more zero end i s a ch h = cc
parse_lines-more (suc fuel) end i [] a ch h = h
parse_lines-more (suc fuel) end i (c ∷ s) a ch h =
    if-map (ltb i end) _ _ _ ch
      (go_on-more fuel end i (c ∷ s) (parse_line i c s a) ch
        (λ j t x q. parse_lines-more fuel end j t x ch q))
      h
