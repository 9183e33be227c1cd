-- ===== src/Manifest/Boundary.antt =====
-- Lemmas on the line breaks of toolsupport/ninjautil/lexer.go: a text that ends with a line break.
use siso.Common.{
  ℕ, zero, suc, ◌+◌, ◌≤◌, ◌<◌, ◌≡◌, refl, Bool, true, false, not, ◌&&◌, ◌≢◌, inl, inr, List, [],
  ◌∷◌, ◌++◌, some, Bytes, ◌==◌, if◌then◌else◌, length, drop, Bool-cases, arith,
}
use siso.Manifest.Lexer.{is_escaped, next_line}
use siso.Manifest.Chunk.{index_byte}

-- Whether the text is empty or its last byte is a newline that no bytes of it escape, nor `p2` and `p1`
-- before it.
unfoldable pub ends : ℕ → ℕ → Bytes → Bool
ends p2 p1 [] = true
ends p2 p1 (c ∷ []) = (c == b'\n') && not (is_escaped p2 p1)
ends p2 p1 (c ∷ d ∷ s) = ends p1 c (d ∷ s)

ends-forget_one : (p2 p1 : ℕ) (s : Bytes) → ends p2 p1 s ≡ true → ends 0 p1 s ≡ true
unfolding ends
ends-forget_one p2 p1 [] h = refl
ends-forget_one p2 p1 (c ∷ []) h = ground arith
ends-forget_one p2 p1 (c ∷ d ∷ s) h = h

pub ends-forget : (p2 p1 : ℕ) (s : Bytes) → ends p2 p1 s ≡ true → ends 0 0 s ≡ true
unfolding ends
ends-forget p2 p1 [] h = refl
ends-forget p2 p1 (c ∷ []) h = ground arith
ends-forget p2 p1 (c ∷ d ∷ s) h = ends-forget_one p1 c (d ∷ s) h

pub ends-tail : (c : ℕ) (s : Bytes) → ends 0 0 (c ∷ s) ≡ true → ends 0 0 s ≡ true
unfolding ends
ends-tail c [] h = refl
ends-tail c (d ∷ s) h = ends-forget 0 c (d ∷ s) h

pub ends-drop : (n : ℕ) (s : Bytes) → ends 0 0 s ≡ true → ends 0 0 (drop n s) ≡ true
ends-drop zero s h = h
ends-drop (suc n) [] h = h
ends-drop (suc n) (c ∷ s) h = ends-drop n s (ends-tail c s h)

-- What a loop that starts anew behind a newline needs of the bytes before.
ends-reset :
    (b : Bool) (p1 c : ℕ) (s : Bytes)
    → ends p1 c s ≡ true
    → ends (if b then 0 else p1) (if b then 0 else c) s ≡ true
ends-reset true p1 c s h = ends-forget p1 c s h
ends-reset false p1 c s h = h

if-le : (b : Bool) (n m : ℕ) → n ≤ m → (if b then 1 else n + 1) ≤ suc m
if-le true n m h = omega arith
if-le false n m h = omega arith

-- A logical line that starts in such a text ends in it.
pub next_line_le :
    (p2 p1 c : ℕ) (s t : Bytes)
    → ends p2 p1 (c ∷ s) ≡ true
    → next_line p2 p1 ((c ∷ s) ++ t) ≤ length (c ∷ s)
unfolding ends next_line
next_line_le p2 p1 c [] t h = ground arith
next_line_le p2 p1 c (d ∷ s) t h = if-le ((c == b'\n') && not (is_escaped p2 p1)) _ _ (
    next_line_le (if c == b'\n' then 0 else p1) (if c == b'\n' then 0 else c) d s t
      (ends-reset (c == b'\n') p1 c (d ∷ s) h))

pub next_line_pos : (p2 p1 c : ℕ) (s : Bytes) → 0 < next_line p2 p1 (c ∷ s)
unfolding next_line
next_line_pos p2 p1 c s = elim (Bool-cases ((c == b'\n') && not (is_escaped p2 p1))) [
  | inl e ↦ rw e (omega arith)
  | inr e ↦ rw e (omega arith)
]

pub drop-append_le {ℓ} :
    {A : Type ℓ} (n : ℕ) (xs ys : List A) → n ≤ length xs → drop n (xs ++ ys) ≡ drop n xs ++ ys
drop-append_le zero xs ys h = refl
drop-append_le (suc n) [] ys h = absurd (omega arith)
drop-append_le (suc n) (x ∷ xs) ys h = drop-append_le n xs ys (omega arith)

-- Where the text ends with a newline, a newline is found before it ends.
pub index_byte_ends :
    (c : ℕ) (s t : Bytes)
    → ends 0 0 (c ∷ s) ≡ true
    → c ≢ b'\n'
    → (j : ℕ) × ((index_byte b'\n' (s ++ t) ≡ some j) × (j < length s))
unfolding ends index_byte
index_byte_ends c [] t h k = absurd (ground arith)
index_byte_ends c (d ∷ s) t h k = elim (Bool-cases (d == b'\n')) [
  | inl e ↦ (0, (rw e refl, omega arith))
  | inr e ↦
      let ih = index_byte_ends d s t (ends-tail c (d ∷ s) h) (λ q. ground arith) in
      (ih.0 + 1, (rw (e, ih.1.0) refl, omega (arith, ih.1.1)))
]
