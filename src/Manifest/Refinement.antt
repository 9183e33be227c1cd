-- ===== src/Manifest/Refinement.antt =====
-- The chunks of a file and the file (toolsupport/ninjautil/chunk_parser.go).
use siso.Common.{
  ℕ, zero, suc, ◌+◌, ◌≤◌, ◌<◌, ◌≡◌, refl, sym, ◌∙◌, ap, true, not, ◌&&◌, ◌⊎◌, inl, inr, List, [],
  ◌∷◌, ◌++◌, append-nil, some, Bytes, ◌==◌, length, drop, length-append, length-drop, drop-append,
  Bool-cases, arith,
}
use siso.Manifest.Lexer.{is_escaped}
use siso.Manifest.Pieces.{
  is_start, is_boundary, next_chunk, chunk_end, split_from, split_into_chunks, parse_chunks,
}
use siso.Manifest.Chunk.{Chunk, parsed, parse_lines, new_chunk, parse_chunk}
use siso.Manifest.Boundary.{ends}
use siso.Manifest.Splitting.{cuts}

-- The first `n` bytes of the text are a chunk: all of it, or up to a byte where one may start.
abbrev pub IsPart : ℕ → ℕ → Bytes → ℕ → Type 0
IsPart p2 p1 s n =
    (n ≡ length s)
    ⊎ ((e : ℕ) × (pre : Bytes) × (d : ℕ) × (suf : Bytes) × ((s ≡ e ∷ pre ++ (d ∷ suf))
          × (n ≡ length (e ∷ pre))
          × (ends p2 p1 (e ∷ pre) ≡ true)
          × (is_start d ≡ true)))

IsPart-cons : (p2 p1 c : ℕ) (s : Bytes) (n : ℕ) → IsPart p1 c s n → IsPart p2 p1 (c ∷ s) (n + 1)
unfolding ends
IsPart-cons p2 p1 c s n (inl h) = inl (omega arith)
IsPart-cons p2 p1 c s n (inr (e, pre, d, suf, (h, l, k, o))) =
    inr (c, e ∷ pre, d, suf, (ap (λ t. c ∷ t) h, omega arith, k, o))

line_break-IsPart :
    (p2 p1 c : ℕ) (s : Bytes)
    → ((c == b'\n') && not (is_escaped p2 p1) && is_boundary s) ≡ true
    → IsPart p2 p1 (c ∷ s) 1
unfolding ends
line_break-IsPart p2 p1 c [] h = inl refl
line_break-IsPart p2 p1 c (d ∷ s) h = inr (c, [], d, s, (refl, refl, ground arith, ground arith))

next_chunk-IsPart : (p2 p1 : ℕ) (s : Bytes) → IsPart p2 p1 s (next_chunk p2 p1 s)
unfolding next_chunk ends
next_chunk-IsPart p2 p1 [] = inl refl
next_chunk-IsPart p2 p1 (c ∷ s) =
    elim (Bool-cases ((c == b'\n') && not (is_escaped p2 p1) && is_boundary s)) [
      | inl e ↦ rw e (line_break-IsPart p2 p1 c s e)
      | inr e ↦ rw e (IsPart-cons p2 p1 c s _ (next_chunk-IsPart p1 c s))
    ]

pub chunk_end-IsPart : (k p2 p1 : ℕ) (s : Bytes) → IsPart p2 p1 s (chunk_end k p2 p1 s)
unfolding chunk_end
chunk_end-IsPart zero p2 p1 s = next_chunk-IsPart p2 p1 s
chunk_end-IsPart (suc k) p2 p1 [] = inl refl
chunk_end-IsPart (suc k) p2 p1 (c ∷ s) = IsPart-cons p2 p1 c s _ (chunk_end-IsPart k p1 c s)

drop-drop {ℓ} : {A : Type ℓ} (a b k : ℕ) (xs : List A) → k ≡ a + b → drop b (drop a xs) ≡ drop k xs
drop-drop zero b k xs h = let e : k ≡ b = omega arith in rw e refl
drop-drop (suc a) b zero xs h = absurd (omega arith)
drop-drop (suc a) zero (suc k) [] h = refl
drop-drop (suc a) (suc b) (suc k) [] h = refl
drop-drop (suc a) b (suc k) (x ∷ xs) h = drop-drop a b k xs (omega arith)

drop_all {ℓ} : {A : Type ℓ} (n : ℕ) (xs : List A) → length xs ≤ n → drop n xs ≡ []
drop_all zero [] h = refl
drop_all zero (x ∷ xs) h = absurd (omega arith)
drop_all (suc n) [] h = refl
drop_all (suc n) (x ∷ xs) h = drop_all n xs (omega arith)

lines-nil :
    (fuel end i : ℕ) (ch : Chunk)
    → parse_lines (suc fuel) end i [] new_chunk ≡ parsed ch
    → ch.statements ≡ []
unfolding parse_lines
lines-nil fuel end i ch h = cc

-- The chunks of what is left, and the statements they give.
abbrev ChunksGive : ℕ → ℕ → ℕ → Bytes → Bytes → Chunk → Type 0
ChunksGive g size start buf s ch =
    (cs : List (ℕ × ℕ)) × (split_from g size start s ≡ some cs)
    × (parse_chunks buf cs ≡ some (ch.statements))

module _ (size : ℕ) (buf : Bytes) where
  chunks-cons :
      (g start n c : ℕ) (s : Bytes) (x y ch : Chunk)
      → chunk_end size 0 0 (c ∷ s) ≡ n
      → parse_chunk buf start (start + n) ≡ parsed x
      → ch.statements ≡ x.statements ++ y.statements
      → ChunksGive g size (start + n) buf (drop n (c ∷ s)) y
      → ChunksGive (suc g) size start buf (c ∷ s) ch
  unfolding split_from parse_chunks
  chunks-cons g start n c s x y ch e p h (cs, k, l) =
      ((start, start + n) ∷ cs, rw (split_from, e, k, e) refl, rw (parse_chunks, p, l, h) refl)

  -- The rest of the file parses as a whole.
  abbrev Rest : ℕ → Bytes → Chunk → Type 0
  Rest start s ch =
      (drop start buf ≡ s)
      × (parse_lines (length buf + 1) (length buf) start s new_chunk ≡ parsed ch)

  end-statements :
      (start : ℕ) (ch : Chunk)
      → parse_lines (length buf + 1) (length buf) start [] new_chunk ≡ parsed ch
      → ch.statements ≡ []
  end-statements start ch h =
      let k : parse_lines (suc (length buf)) (length buf) start [] new_chunk ≡ parsed ch =
        (let e : length buf + 1 ≡ suc (length buf) = omega arith in rw⁻¹ e h) in
      lines-nil (length buf) (length buf) start ch k

  chunks-end :
      (g start : ℕ) (ch : Chunk) → Rest start [] ch → ChunksGive (suc g) size start buf [] ch
  unfolding split_from parse_chunks
  chunks-end g start ch h = ([], refl, rw (parse_chunks, end-statements start ch h.1) refl)

  start-le :
      (start : ℕ) (s : Bytes) → 0 < length s → drop start buf ≡ s → start + length s ≡ length buf
  start-le start s l h = omega (arith, length-drop start buf, ap length h)

  parse_chunk-lines :
      (start end : ℕ) (s : Bytes) (ch : Chunk)
      → drop start buf ≡ s
      → parse_lines (length buf + 1) end start s new_chunk ≡ parsed ch
      → parse_chunk buf start end ≡ parsed ch
  unfolding parse_chunk
  parse_chunk-lines start end s ch h k = rw h k

  lines-of :
      (start : ℕ) (s t : Bytes) (ch : Chunk)
      → s ≡ t
      → parse_lines (length buf + 1) (length buf) start s new_chunk ≡ parsed ch
      → parse_lines (length buf + 1) (length buf) start t new_chunk ≡ parsed ch
  lines-of start s t ch p k = rw⁻¹ p k

  whole-lines :
      (start end : ℕ) (s : Bytes) (ch : Chunk)
      → end ≡ length buf
      → parse_lines (length buf + 1) (length buf) start s new_chunk ≡ parsed ch
      → parse_lines (length buf + 1) end start s new_chunk ≡ parsed ch
  whole-lines start end s ch h k = rw h k

  -- Behind the end there is nothing to parse.
  Rest-end :
      (start n : ℕ) (s : Bytes)
      → length s ≤ n
      → drop start buf ≡ s
      → Rest (start + n) (drop n s) new_chunk
  unfolding parse_lines
  Rest-end start n s l h =
      let e : drop n s ≡ [] = drop_all n s l in
      let f : length buf + 1 ≡ suc (length buf) = omega arith in
      (rw⁻¹ h (sym (drop-drop start n (start + n) buf refl)), rw (e, f) refl)

  Rest-second :
      (start n d : ℕ) (s pre suf : Bytes) (y : Chunk)
      → s ≡ pre ++ (d ∷ suf)
      → n ≡ length pre
      → drop start buf ≡ s
      → parse_lines (length buf + 1) (length buf) (start + n) (d ∷ suf) new_chunk ≡ parsed y
      → Rest (start + n) (drop n s) y
  Rest-second start n d s pre suf y q e h k =
      let x : drop n s ≡ d ∷ suf = rw q (drop-append pre (d ∷ suf) n e) in
      (rw⁻¹ h (sym (drop-drop start n (start + n) buf refl)), rw x k)

  -- The chunk at the start of the rest parses, and what is behind it.
  part-cut :
      (start d : ℕ) (s pre suf : Bytes) (ch : Chunk)
      → s ≡ pre ++ (d ∷ suf)
      → ends 0 0 pre ≡ true
      → is_start d ≡ true
      → start + length s ≡ length buf
      → Rest start s ch
      → (x : Chunk) × (y : Chunk) × ((parse_chunk buf start (start + length pre) ≡ parsed x)
          × (ch.statements ≡ x.statements ++ y.statements)
          × Rest (start + length pre) (drop (length pre) s) y)
  part-cut start d s pre suf ch p k o l h =
      let size_eq = ap length p in
      let sum = length-append pre (d ∷ suf) in
      let (x, y, (f, r, st)) =
        cuts (length buf) (start + length pre) d suf o (omega arith) (length buf + 1) start pre
          new_chunk ch k refl (lines-of start s (pre ++ (d ∷ suf)) ch p h.1) in
      (
        x,
        y,
        (
          parse_chunk-lines start (start + length pre) (pre ++ (d ∷ suf)) x (h.0 ∙ p) f,
          st,
          Rest-second start (length pre) d s pre suf y p refl h.0 r,
        ),
      )

  chunks-give :
      (g start : ℕ) (s : Bytes) (ch : Chunk)
      → length s < g
      → Rest start s ch
      → ChunksGive g size start buf s ch
  chunks-give zero start s ch l h = absurd (omega arith)
  chunks-give (suc g) start [] ch l h = chunks-end g start ch h
  chunks-give (suc g) start (c ∷ s) ch l h =
      let q = start-le start (c ∷ s) (omega arith) h.0 in
      elim (chunk_end-IsPart size 0 0 (c ∷ s)) [
        | inl e ↦
            let n = length (c ∷ s) in
            chunks-cons g start n c s ch new_chunk ch e
              (parse_chunk-lines start (start + n) (c ∷ s) ch h.0
                (whole-lines start (start + n) (c ∷ s) ch q h.1))
              (sym (append-nil ch.statements))
              (chunks-give g (start + n) (drop n (c ∷ s)) new_chunk
                (omega (arith, length-drop n (c ∷ s))) (Rest-end start n (c ∷ s) (omega arith) h.0))
        | inr (e, pre, d, suf, (p, n, k, o)) ↦
            let m = length (e ∷ pre) in
            let (x, y, (f, st, r)) = part-cut start d (c ∷ s) (e ∷ pre) suf ch p k o q h in
            chunks-cons g start m c s x y ch n f st (
              chunks-give g (start + m) (drop m (c ∷ s)) y (omega (arith, length-drop m (c ∷ s))) r)
      ]

-- The statements of the chunks are those of the file, if the file parses as one chunk, for any size of
-- the chunks.
pub parse_chunks-split_into_chunks :
    (size : ℕ) (buf : Bytes) (ch : Chunk)
    → parse_chunk buf 0 (length buf) ≡ parsed ch
    → (cs : List (ℕ × ℕ)) × (split_into_chunks size buf ≡ some cs)
      × (parse_chunks buf cs ≡ some (ch.statements))
unfolding split_into_chunks parse_chunk
parse_chunks-split_into_chunks size buf ch h =
    chunks-give size buf (length buf + 1) 0 buf ch (omega arith) (refl, h)
