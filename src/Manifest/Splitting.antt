-- ===== src/Manifest/Splitting.antt =====
-- Where a chunk may be cut in two (toolsupport/ninjautil/chunk_parser.go): the loop over the whole is
-- the loop over the first part and then that over the second.
use siso.Common.{
  ℕ, zero, suc, ◌+◌, ◌<◌, ◌≡◌, refl, sym, ◌∙◌, true, [], ◌∷◌, ◌++◌, append-nil, Bytes, lt→ltb,
  ltb_of_le, length, drop, length-drop, arith,
}
use siso.Manifest.Pieces.{is_start}
use siso.Manifest.Chunk.{
  Chunk, Round, advance, fails, panics, parse_line, Parsed, parsed, failed, panicked, out_of_fuel,
  parse_lines, new_chunk,
}
use siso.Manifest.Boundary.{ends, ends-drop, drop-append_le}
use siso.Manifest.Loops.{Prefixed, Prefixed-start, go_on, parse_lines-inside, parse_lines-more}
use siso.Manifest.Sizes.{Sized, Sized-line}

-- The rest of the file is `pre` and then the line of `d ∷ suf` at position `b`.
module _ (end b d : ℕ) (suf : Bytes) (starts : is_start d ≡ true) (inside : b < end) where
  -- The first part returns `x` and the second `y`, which have the statements of `ch` between them.
  abbrev pub Halves : ℕ → Parsed → Chunk → Type 0
  Halves fuel r ch =
      (x : Chunk) × (y : Chunk) × ((r ≡ parsed x)
        × (parse_lines fuel end b (d ∷ suf) new_chunk ≡ parsed y)
        × (ch.statements ≡ x.statements ++ y.statements))

  Halves-second :
      (fuel : ℕ) (a ch : Chunk) (r : Parsed)
      → r ≡ parsed ch
      → Prefixed a.statements r (parse_lines fuel end b (d ∷ suf) new_chunk)
      → Halves fuel (parsed a) ch
  unfolding Prefixed
  Halves-second fuel a ch (parsed z) h p =
      let w = p.0 in
      let l = p.2 in
      let e : ch.statements ≡ a.statements ++ w.statements = cc in (a, w, (refl, p.1, e))
  Halves-second fuel a ch (failed r) h p = cc
  Halves-second fuel a ch panicked h p = cc
  Halves-second fuel a ch out_of_fuel h p = cc

  Halves-more : (fuel : ℕ) (r : Parsed) (ch : Chunk) → Halves fuel r ch → Halves (suc fuel) r ch
  Halves-more fuel r ch (x, y, (p, q, e)) =
      (x, y, (p, parse_lines-more fuel end b (d ∷ suf) new_chunk y q, e))

  -- The loop can be cut with so much fuel.
  abbrev Cuts : ℕ → Type 0
  Cuts fuel =
      (i : ℕ) (pre : Bytes) (a ch : Chunk)
      → ends 0 0 pre ≡ true
      → b ≡ i + length pre
      → parse_lines fuel end i (pre ++ (d ∷ suf)) a ≡ parsed ch
      → Halves fuel (parse_lines fuel b i (pre ++ (d ∷ suf)) a) ch

  Cuts-go_on :
      (fuel i : ℕ) (pre : Bytes) (r : Round) (ch : Chunk)
      → Cuts fuel
      → ends 0 0 pre ≡ true
      → b ≡ i + length pre
      → Sized (length pre) r
      → go_on fuel end i (pre ++ (d ∷ suf)) r ≡ parsed ch
      → Halves fuel (go_on fuel b i (pre ++ (d ∷ suf)) r) ch
  unfolding Sized
  Cuts-go_on fuel i pre (advance n a) ch ih p e g h =
      let k : drop n (pre ++ (d ∷ suf)) ≡ drop n pre ++ (d ∷ suf) =
        drop-append_le n pre (d ∷ suf) g.1 in
      rw k (
        ih (i + n) (drop n pre) a ch (ends-drop n pre p) (omega (arith, length-drop n pre))
          (rw⁻¹ k h))
  Cuts-go_on fuel i pre (fails r) ch ih p e g h = cc
  Cuts-go_on fuel i pre panics ch ih p e g h = cc

  lines-at :
      (fuel i : ℕ) (a ch : Chunk)
      → i ≡ b
      → parse_lines fuel end i (d ∷ suf) a ≡ parsed ch
      → parse_lines fuel end b (d ∷ suf) a ≡ parsed ch
  lines-at fuel i a ch k h = rw⁻¹ k h

  pub cuts : (fuel : ℕ) → Cuts fuel
  unfolding parse_lines
  cuts zero i pre a ch p e h = cc
  cuts (suc fuel) i [] a ch p e h =
      let k : i ≡ b = omega arith in
      rw (k, ltb_of_le b b (omega arith))
        (Halves-second (suc fuel) a ch _ (lines-at (suc fuel) i a ch k h) (
          Prefixed-start a.statements (suc fuel) end b d suf a new_chunk starts
            (sym (append-nil a.statements))))
  cuts (suc fuel) i (c ∷ pre) a ch p e h = rw (lt→ltb i b (omega arith)) (
      Halves-more fuel _ ch (
        Cuts-go_on fuel i (c ∷ pre) (parse_line i c (pre ++ (d ∷ suf)) a) ch (cuts fuel) p e
          (Sized-line i c pre (d ∷ suf) a p)
          (sym (parse_lines-inside fuel end i c (pre ++ (d ∷ suf)) a (omega arith)) ∙ h)))
