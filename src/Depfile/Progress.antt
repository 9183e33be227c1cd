-- ===== src/Depfile/Progress.antt =====
-- A depfile without carriage returns is parsed to its end.
use siso.Common.{
  ℕ, ◌+◌, ◌-◌, ◌≤◌, ◌≡◌, ◌≢◌, Bool, true, false, ◌&&◌, ◌||◌, [], ◌∷◌, ◌++◌, Bytes, ltb, ◌==◌,
  if◌then◌else◌, Bool-cases, inl, inr, length, All, arith,
}
use siso.Depfile.Tokens.{
  Skipped, newline, at_char, starts_lf, starts_crlf, skip_spaces, colon, after_spaces, take_token,
  next_token,
}

abbrev pub NoReturn : Bytes → Type 0
NoReturn s = All (λ c. c ≢ b'\r') s

-- What is left is no longer than `s` and has no carriage return either.
record Left (n : ℕ) (s : Bytes) : Type 0 where
  short : length s ≤ n
  plain : NoReturn s

Left-weaken : (n m : ℕ) (s : Bytes) → n ≤ m → Left n s → Left m s
Left-weaken n m s h l = record { short = omega (arith, l.short, h); plain = l.plain }

-- A property of both branches.
pick : {A : Type 0} (P : A → Type 0) (b : Bool) {x y : A} → P x → P y → P (if b then x else y)
pick P true p q = p
pick P false p q = q

-- A token's rest.
pub record Rest (n : ℕ) (r : Bytes × Bytes) : Type 0 where
  pub short : length r.1 ≤ n
  pub plain : NoReturn r.1

pick-Rest :
    (n : ℕ) (b : Bool) {x y : Bytes × Bytes} → Rest n x → Rest n y → Rest n (if b then x else y)
pick-Rest n true p q = p
pick-Rest n false p q = q

pub Rest-weaken : (n m : ℕ) (r : Bytes × Bytes) → n ≤ m → Rest n r → Rest m r
Rest-weaken n m r h l = record { short = omega (arith, l.short, h); plain = l.plain }

pub stays : (n : ℕ) (sb s : Bytes) → length s ≤ n → NoReturn s → Rest n (sb, s)
stays n sb s le h = record { short = le; plain = h }

colon-Rest :
    (n : ℕ) (sb s : Bytes) (more : Bytes × Bytes)
    → length s + 1 ≤ n
    → NoReturn s
    → Rest n more
    → Rest n (colon sb s more)
unfolding colon
colon-Rest n [] s more le h c = stays n _ s (omega (arith, le)) h
colon-Rest n (x ∷ []) s more le h c = c
colon-Rest n (x ∷ y ∷ sb) s more le h c =
    stays n _ (b':' ∷ s) (omega (arith, le)) ((λ e. omega (arith, e)), h)

abbrev is_break : ℕ → Bool
is_break c = (c == b' ') || (c == b'\t') || (c == b'\n') || (c == b'\r')

-- The rest after the second loop.
take_token-Rest : (sb s : Bytes) → NoReturn s → Rest (length s) (take_token sb s)
unfolding take_token
take_token-Rest sb [] h = stays 0 sb [] (omega arith) tt
take_token-Rest sb (c ∷ []) h =
    let last = stays 1 (sb ++ c ∷ []) [] (omega arith) tt in
    pick-Rest 1 (is_break c) (stays 1 sb (c ∷ []) (omega arith) h)
      (pick-Rest 1 (c == b':') (colon-Rest 1 sb [] _ (omega arith) tt last) last)
take_token-Rest sb (c ∷ d ∷ s) h =
    let n = length (c ∷ d ∷ s) in
    let space = Rest-weaken (length s) n _ (omega arith) (take_token-Rest (sb ++ d ∷ []) s h.1.1) in
    let other =
      Rest-weaken (length s) n _ (omega arith) (take_token-Rest (sb ++ c ∷ d ∷ []) s h.1.1) in
    let more =
      Rest-weaken (length (d ∷ s)) n _ (omega arith) (take_token-Rest (sb ++ c ∷ []) (d ∷ s) h.1) in
    let here = stays n sb (c ∷ d ∷ s) (omega arith) h in
    pick-Rest n (c == b'\\')
      (pick-Rest n (d == b' ') space (pick-Rest n ((d == b'\r') || (d == b'\n')) here other))
      (pick-Rest n (is_break c) here
        (pick-Rest n (c == b':') (colon-Rest n sb (d ∷ s) _ (omega arith) h.1 more) more))

-- A character that a token can start with.
abbrev IsStart : Bytes → Type 0
IsStart [] = Unit
IsStart (c ∷ s) =
    (((c == b' ') || (c == b'\t') || (c == b'\n') || (c == b'\r')) ≡ false)
    × (((c == b'\\') && starts_lf s) ≡ false)

abbrev SkipsTo : ℕ → Skipped → Type 0
SkipsTo n (newline t) = Left n (b'\n' ∷ t)
SkipsTo n (at_char t) = Left n t × IsStart t

SkipsTo-weaken : (n m : ℕ) (r : Skipped) → n ≤ m → SkipsTo n r → SkipsTo m r
SkipsTo-weaken n m (newline t) h l = Left-weaken n m (b'\n' ∷ t) h l
SkipsTo-weaken n m (at_char t) h l = (Left-weaken n m t h l.0, l.1)

not_blank :
    (c : ℕ)
    → (c == b'\n') ≡ false
    → ((c == b' ') || (c == b'\t') || (c == b'\r')) ≡ false
    → ((c == b' ') || (c == b'\t') || (c == b'\n') || (c == b'\r')) ≡ false
not_blank c h k = ground arith

-- A character that is no line break, after the tests for backslashes.
skip_char :
    (n : ℕ) (c : ℕ) (s : Bytes) (on : Skipped)
    → NoReturn (c ∷ s)
    → length (c ∷ s) ≤ n
    → ((c == b'\\') && starts_lf s) ≡ false
    → SkipsTo n on
    → SkipsTo n (
        if c == b'\n'
        then newline s
        else if (c == b' ') || (c == b'\t') || (c == b'\r')
        then on
        else at_char (c ∷ s))
skip_char n c s on h le no_lf next = elim (Bool-cases (c == b'\n')) [
  | inl nl ↦ rw nl (record { short = omega (arith, le); plain = ((λ e. omega (arith, e)), h.1) })
  | inr no_nl ↦ elim (Bool-cases ((c == b' ') || (c == b'\t') || (c == b'\r'))) [
    | inl blank ↦ rw (no_nl, blank) next
    | inr start ↦
        rw (no_nl, start)
          (record { short = omega (arith, le); plain = h }, (not_blank c no_nl start, no_lf))
  ]
]

skip_spaces-SkipsTo : (k : ℕ) (s : Bytes) → NoReturn s → SkipsTo (length s) (skip_spaces k s)
unfolding skip_spaces
skip_spaces-SkipsTo k [] h = (record { short = omega arith; plain = tt }, tt)
skip_spaces-SkipsTo k (c ∷ s) h =
    let n = length (c ∷ s) in
    let P = SkipsTo n in
    let on = λ (j : ℕ).
      SkipsTo-weaken (length s) n (skip_spaces j s) (omega arith) (skip_spaces-SkipsTo j s h.1) in
    elim (Bool-cases (ltb 0 k)) [
      | inl past ↦ rw past (on (k - 1))
      | inr here ↦ elim (Bool-cases ((c == b'\\') && starts_lf s)) [
        | inl lf ↦ rw (here, lf) (on 1)
        | inr no_lf ↦
            rw (here, no_lf)
              (pick P ((c == b'\\') && starts_crlf s) (on 2)
                (skip_char n c s (skip_spaces 0 s) h (omega arith) no_lf (on 0)))
      ]
    ]

unbroken :
    (c d : ℕ)
    → (c == b'\\') ≡ true
    → ((c == b'\\') && (d == b'\n')) ≡ false
    → d ≢ b'\r'
    → ((d == b'\r') || (d == b'\n')) ≡ false
unbroken c d slash h n = ground arith

-- At a start the second loop takes at least one byte.
take_token-start :
    (c : ℕ) (s : Bytes)
    → NoReturn (c ∷ s)
    → IsStart (c ∷ s)
    → Rest (length s) (take_token [] (c ∷ s))
unfolding take_token colon starts_lf
take_token-start c [] h i =
    rw i.0 (pick-Rest 0 (c == b':') (stays 0 _ [] (omega arith) tt) (stays 0 _ [] (omega arith) tt))
take_token-start c (d ∷ s) h i =
    let n = length (d ∷ s) in
    let space = Rest-weaken (length s) n _ (omega arith) (take_token-Rest (d ∷ []) s h.1.1) in
    let other = Rest-weaken (length s) n _ (omega arith) (take_token-Rest (c ∷ d ∷ []) s h.1.1) in
    let more = take_token-Rest (c ∷ []) (d ∷ s) h.1 in
    elim (Bool-cases (c == b'\\')) [
      | inl slash ↦
          let no_break = unbroken c d slash i.1 h.1.0 in
          rw slash (pick-Rest n (d == b' ') space (rw no_break other))
      | inr plain ↦
          rw (plain, i.0) (pick-Rest n (c == b':') (stays n _ (d ∷ s) (omega arith) h.1) more)
    ]

pub next_token-Rest : (c : ℕ) (s : Bytes) → NoReturn (c ∷ s) → Rest (length s) (next_token (c ∷ s))
unfolding next_token after_spaces take_token
next_token-Rest c s h = after (skip_spaces 0 (c ∷ s)) (skip_spaces-SkipsTo 0 (c ∷ s) h)
  where
    after : (r : Skipped) → SkipsTo (length (c ∷ s)) r → Rest (length s) (after_spaces r)
    after (newline t) l = stays (length s) _ t (omega (arith, l.short)) l.plain.1
    after (at_char []) l = stays (length s) _ [] (omega arith) tt
    after (at_char (x ∷ t)) l =
        Rest-weaken (length t) (length s) _ (omega (arith, l.0.short))
          (take_token-start x t l.0.plain l.1)
