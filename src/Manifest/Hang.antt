-- ===== src/Manifest/Hang.antt =====
-- When the loop of `parseChunk` in toolsupport/ninjautil/chunk_parser.go ends.
use siso.Common.{
  ℕ, zero, suc, ◌+◌, ◌<◌, ◌≡◌, refl, true, false, ◌≢◌, none, [], ◌∷◌, append-nil, ◌++◌, Bytes, ltb,
  if◌then◌else◌, lt→ltb, length, drop, length-drop, arith,
}
use siso.Manifest.Chunk.{
  Chunk, Round, advance, fails, panics, parse_line, index_byte, comment, Parsed, parsed,
  out_of_fuel, parse_lines, new_chunk, parse_chunk,
}
use siso.Manifest.Boundary.{ends, ends-drop}
use siso.Manifest.Loops.{go_on}
use siso.Manifest.Sizes.{Sized, Sized-line}

-- A comment that no newline ends, and that starts inside the chunk, is never left, however often the loop
-- goes round.
pub parse_lines-stuck :
    (fuel end i : ℕ) (s : Bytes) (ch : Chunk)
    → i < end
    → index_byte b'\n' s ≡ none
    → parse_lines fuel end i (b'#' ∷ s) ch ≡ out_of_fuel
unfolding parse_lines parse_line comment
parse_lines-stuck zero end i s ch h k = refl
parse_lines-stuck (suc fuel) end i s ch h k =
    let e : i + 0 ≡ i = omega arith in
    rw (lt→ltb i end h, k, e) (parse_lines-stuck fuel end i s _ h k)

abbrev Ends : ℕ → ℕ → Type 0
Ends fuel end =
    (i : ℕ) (s : Bytes) (ch : Chunk)
    → length s < fuel
    → ends 0 0 s ≡ true
    → parse_lines fuel end i s ch ≢ out_of_fuel

go_on-ends :
    (fuel end i c : ℕ) (s : Bytes) (r : Round)
    → Ends fuel end
    → length s < fuel
    → ends 0 0 (c ∷ s) ≡ true
    → Sized (length (c ∷ s)) r
    → go_on fuel end i (c ∷ s) r ≢ out_of_fuel
unfolding Sized
go_on-ends fuel end i c s (advance n ch) ih l e g h =
    ih (i + n) (drop n (c ∷ s)) ch (omega (arith, length-drop n (c ∷ s))) (ends-drop n (c ∷ s) e) h
go_on-ends fuel end i c s (fails r) ih l e g h = cc
go_on-ends fuel end i c s panics ih l e g h = cc

if-ne :
    (b : _) (x : Parsed) (ch : Chunk) → x ≢ out_of_fuel → (if b then x else parsed ch) ≢ out_of_fuel
if-ne true x ch h = h
if-ne false x ch h = λ e. cc

transport_line :
    (i c : ℕ) (s t : Bytes) (m : ℕ) (ch : Chunk)
    → s ≡ t
    → Sized m (parse_line i c s ch)
    → Sized m (parse_line i c t ch)
transport_line i c s t m ch e h = rw⁻¹ e h

Sized-rest :
    (i c : ℕ) (s : Bytes) (ch : Chunk)
    → ends 0 0 (c ∷ s) ≡ true
    → Sized (length (c ∷ s)) (parse_line i c s ch)
Sized-rest i c s ch e =
    let h : Sized (length (c ∷ s)) (parse_line i c (s ++ []) ch) = Sized-line i c s [] ch e in
    transport_line i c (s ++ []) s (length (c ∷ s)) ch (append-nil s) h

pub parse_lines-Ends : (fuel end : ℕ) → Ends fuel end
unfolding parse_lines
parse_lines-Ends zero end i s ch l e = absurd (omega arith)
parse_lines-Ends (suc fuel) end i [] ch l e = λ h. cc
parse_lines-Ends (suc fuel) end i (c ∷ s) ch l e = if-ne (ltb i end) _ ch (
    go_on-ends fuel end i c s _ (parse_lines-Ends fuel end) (omega arith) e (Sized-rest i c s ch e))

-- The loop ends on a file that is empty or whose last byte is a newline that is not escaped, at whatever
-- places of the file the chunk starts and ends.
pub parse_chunk-ends :
    (buf : Bytes) (start end : ℕ) → ends 0 0 buf ≡ true → parse_chunk buf start end ≢ out_of_fuel
unfolding parse_chunk
parse_chunk-ends buf start end h =
    parse_lines-Ends (length buf + 1) end start (drop start buf) new_chunk
      (omega (arith, length-drop start buf)) (ends-drop start buf h)
