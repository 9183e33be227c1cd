-- ===== src/Manifest/Templates.antt =====
-- What the value of a string is (toolsupport/ninjautil/eval.go), for strings written piece by piece.
use siso.Common.{
  ℕ, zero, suc, ◌+◌, ◌≡◌, refl, sym, ◌∙◌, ap, true, false, ◌||◌, List, [], ◌∷◌, ◌++◌, append_assoc,
  append-nil, Option, none, some, Bytes, ◌==◌, if◌then◌else◌, length, take-append, length-append,
  All, Bool-cases, inl, inr, arith,
}
use siso.Manifest.Chunk.{index_byte}
use siso.Manifest.Eval.{
  Value, text, invalid_escape, unclosed, cycle, write_text, then_write, dollar, braces, escaped,
  variable, eval_loop,
}

-- A piece of text, or a variable.
pub data Piece : Type 0 where
  lit : Bytes → Piece
  ref : Bytes → Piece

-- The text with its blanks, colons and dollars escaped.
unfoldable pub escape : Bytes → Bytes
escape [] = []
escape (c ∷ s) =
    if (c == b' ') || (c == b':') || (c == b'$') then b'$' ∷ c ∷ escape s else c ∷ escape s

unfoldable pub print_pieces : List Piece → Bytes
print_pieces [] = []
print_pieces (lit s ∷ ps) = escape s ++ print_pieces ps
print_pieces (ref name ∷ ps) = (b'$' ∷ b'{' ∷ name) ++ (b'}' ∷ print_pieces ps)

-- The values of the pieces one after the other; an error of a variable ends them.
unfoldable pub value_of : (Bytes → Value) → List Piece → Value
value_of sub [] = text []
value_of sub (lit s ∷ ps) = write_text s (value_of sub ps)
value_of sub (ref name ∷ ps) = then_write (sub name) (value_of sub ps)

-- Names have no closing brace.
unfoldable pub IsName : Piece → Type 0
IsName (lit s) = Unit
IsName (ref name) = index_byte b'}' name ≡ none

write_text-write_text :
    (c : ℕ) (s : Bytes) (r : Value) → write_text (c ∷ []) (write_text s r) ≡ write_text (c ∷ s) r
unfolding write_text
write_text-write_text c s (text b) = refl
write_text-write_text c s invalid_escape = refl
write_text-write_text c s unclosed = refl
write_text-write_text c s cycle = refl

write_text-nil : (r : Value) → write_text [] r ≡ r
unfolding write_text
write_text-nil (text b) = refl
write_text-nil invalid_escape = refl
write_text-nil unclosed = refl
write_text-nil cycle = refl

pub eval_loop-skip :
    (sub : Bytes → Value) (a t : Bytes) (n : ℕ)
    → n ≡ length a
    → eval_loop sub n (a ++ t) ≡ eval_loop sub 0 t
unfolding eval_loop
eval_loop-skip sub [] t zero h = refl
eval_loop-skip sub [] t (suc n) h = absurd (omega arith)
eval_loop-skip sub (c ∷ a) t zero h = absurd (omega arith)
eval_loop-skip sub (c ∷ a) t (suc n) h = eval_loop-skip sub a t n (omega arith)

module _ (sub : Bytes → Value) where
  -- A byte that needs no escape, and one that has one.
  pub eval_loop-plain :
      (c : ℕ) (s : Bytes)
      → (c == b'$') ≡ false
      → eval_loop sub 0 (c ∷ s) ≡ write_text (c ∷ []) (eval_loop sub 0 s)
  unfolding eval_loop
  eval_loop-plain c s h = rw (eval_loop, h) refl

  eval_loop-escaped :
      (c : ℕ) (s : Bytes)
      → ((c == b' ') || (c == b':') || (c == b'$')) ≡ true
      → eval_loop sub 0 (b'$' ∷ c ∷ s) ≡ write_text (c ∷ []) (eval_loop sub 0 s)
  unfolding eval_loop dollar
  eval_loop-escaped c s h = let e : dollar (c ∷ s) ≡ escaped c = rw h refl in rw (eval_loop, e) refl

  at_nil : (a b : Bytes) → eval_loop sub 0 (a ++ []) ≡ text (b ++ []) → eval_loop sub 0 a ≡ text b
  at_nil a b = rw (append-nil a, append-nil b) (λ h. h)

  eval_loop-escape :
      (s t : Bytes) → eval_loop sub 0 (escape s ++ t) ≡ write_text s (eval_loop sub 0 t)
  unfolding escape
  eval_loop-escape [] t = sym (write_text-nil _)
  eval_loop-escape (c ∷ s) t =
      let k =
        ap (write_text (c ∷ [])) (eval_loop-escape s t)
        ∙ write_text-write_text c s (eval_loop sub 0 t) in
      elim (Bool-cases ((c == b' ') || (c == b':') || (c == b'$'))) [
        | inl e ↦ rw e (eval_loop-escaped c (escape s ++ t) e ∙ k)
        | inr e ↦ rw e (eval_loop-plain c (escape s ++ t) (ground arith) ∙ k)
      ]

  pub eval_loop-escape_only : (s : Bytes) → eval_loop sub 0 (escape s) ≡ text s
  unfolding eval_loop write_text
  eval_loop-escape_only s =
      let h : eval_loop sub 0 (escape s ++ []) ≡ text (s ++ []) = eval_loop-escape s [] in
      at_nil (escape s) s h

  no_index :
      (c b : ℕ) (o : Option ℕ)
      → (c == b) ≡ true
      → (if c == b then some 0 else elim o [ none ↦ none | some j ↦ some (j + 1) ]) ≡ none
      → ⊥
  no_index c b o e = rw e (λ h. cc)

  index_rest :
      (c b : ℕ) (o : Option ℕ)
      → (c == b) ≡ false
      → (if c == b then some 0 else elim o [ none ↦ none | some j ↦ some (j + 1) ]) ≡ none
      → o ≡ none
  index_rest c b none e = λ h. refl
  index_rest c b (some j) e = rw e (λ h. cc)

  index_byte-name :
      (b : ℕ) (name t : Bytes)
      → index_byte b name ≡ none
      → index_byte b (name ++ (b ∷ t)) ≡ some (length name)
  unfolding index_byte
  index_byte-name b [] t h = (let e : (b == b) ≡ true = ground arith in rw e refl)
  index_byte-name b (c ∷ name) t h = elim (Bool-cases (c == b)) [
    | inl e ↦ absurd (no_index c b (index_byte b name) e h)
    | inr e ↦
        rw (e, index_byte-name b name t (index_rest c b (index_byte b name) e h))
          (let q : length name + 1 ≡ suc (length name) = omega arith in ap some q)
  ]

  dollar-variable :
      (name t : Bytes)
      → index_byte b'}' name ≡ none
      → dollar (b'{' ∷ name ++ (b'}' ∷ t)) ≡ variable name (length name + 2)
  unfolding dollar braces
  dollar-variable name t h =
      rw (index_byte-name b'}' name t h)
        (ap (λ x. variable x (length name + 2)) (take-append name (b'}' ∷ t) (length name) refl))

  eval_loop-variable :
      (name t : Bytes)
      → index_byte b'}' name ≡ none
      → eval_loop sub 0 ((b'$' ∷ b'{' ∷ name) ++ (b'}' ∷ t))
        ≡ then_write (sub name) (eval_loop sub 0 t)
  unfolding eval_loop
  eval_loop-variable name t h =
      let k : eval_loop sub (length name + 2) (b'{' ∷ ((name ++ (b'}' ∷ [])) ++ t))
          ≡ eval_loop sub 0 t =
        eval_loop-skip sub (b'{' ∷ (name ++ (b'}' ∷ []))) t (length name + 2)
          (omega (arith, length-append name (b'}' ∷ []))) in
      let k' : eval_loop sub (length name + 2) (b'{' ∷ (name ++ (b'}' ∷ t))) ≡ eval_loop sub 0 t =
        rw⁻¹ (append_assoc name (b'}' ∷ []) t) k in
      rw (eval_loop, dollar-variable name t h) (ap (then_write (sub name)) k')

  -- The loop finds the value of the pieces.
  pub eval_loop-print_pieces :
      (ps : List Piece) → All IsName ps → eval_loop sub 0 (print_pieces ps) ≡ value_of sub ps
  unfolding print_pieces value_of IsName eval_loop
  eval_loop-print_pieces [] h = refl
  eval_loop-print_pieces (lit s ∷ ps) h =
      eval_loop-escape s (print_pieces ps) ∙ ap (write_text s) (eval_loop-print_pieces ps h.1)
  eval_loop-print_pieces (ref name ∷ ps) h =
      eval_loop-variable name (print_pieces ps) h.0
      ∙ ap (then_write (sub name)) (eval_loop-print_pieces ps h.1)
