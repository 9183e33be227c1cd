-- ===== src/Distance/Edits.antt =====
-- Edits of one string into another, and the least number of them by recursion on the strings.
use mathlib.Core.Path.{subst}
use siso.Common.{
  ℕ, ◌+◌, ◌≤◌, ◌≡◌, ◌⊎◌, inl, inr, sym, ap, ◌∙◌, min, [], ◌∷◌, ◌++◌, append-nil, Bytes, ltb, ◌==◌,
  if◌then◌else◌, Bool-cases, length, arith,
}

-- `k` characters are inserted, removed or replaced to make the second string of the first one.
pub data Edit : ℕ → Bytes → Bytes → Type 0 where
  finished : Edit 0 [] []
  keeps : {k : ℕ} {s t : Bytes} (a b : ℕ) → a ≡ b → Edit k s t → Edit k (a ∷ s) (b ∷ t)
  replaces : {k : ℕ} {s t : Bytes} (a b : ℕ) → Edit k s t → Edit (k + 1) (a ∷ s) (b ∷ t)
  inserts : {k : ℕ} {s t : Bytes} (b : ℕ) → Edit k s t → Edit (k + 1) s (b ∷ t)
  removes : {k : ℕ} {s t : Bytes} (a : ℕ) → Edit k s t → Edit (k + 1) (a ∷ s) t

abbrev differ : ℕ → ℕ → ℕ
differ a b = if a == b then 0 else 1

-- The least number of edits for `a ∷ s`, from the one for `s`.
abbrev pub levenshtein_cons : ℕ → (Bytes → ℕ) → Bytes → ℕ
levenshtein_cons a f [] = f [] + 1
levenshtein_cons a f (b ∷ t) = min (f t + differ a b) (min (levenshtein_cons a f t) (f (b ∷ t)) + 1)

abbrev pub levenshtein : Bytes → Bytes → ℕ
levenshtein [] t = length t
levenshtein (a ∷ s) t = levenshtein_cons a (levenshtein s) t

levenshtein-insert : (b : ℕ) (s t : Bytes) → levenshtein s (b ∷ t) ≤ levenshtein s t + 1
levenshtein-insert b [] t = omega arith
levenshtein-insert b (a ∷ s) t = omega arith

levenshtein-remove : (a : ℕ) (s t : Bytes) → levenshtein (a ∷ s) t ≤ levenshtein s t + 1
levenshtein-remove a s [] = omega arith
levenshtein-remove a s (b ∷ t) = omega arith

-- No edits are fewer.
pub levenshtein-least : {k : ℕ} {s t : Bytes} → Edit k s t → levenshtein s t ≤ k
levenshtein-least finished = omega arith
levenshtein-least (keeps {k} {s} {t} a b e r) =
    let d : differ a b ≡ 0 = ground arith in omega (arith, levenshtein-least r, d)
levenshtein-least (replaces {k} {s} {t} a b r) =
    let d : differ a b ≤ 1 = ground arith in omega (arith, levenshtein-least r, d)
levenshtein-least (inserts {k} {s} {t} b r) =
    omega (arith, levenshtein-least r, levenshtein-insert b s t)
levenshtein-least (removes {k} {s} {t} a r) =
    omega (arith, levenshtein-least r, levenshtein-remove a s t)

Edit-all : (t : Bytes) → Edit (length t) [] t
Edit-all [] = finished
Edit-all (b ∷ t) = subst (λ k. Edit k [] (b ∷ t)) (omega arith) (inserts b (Edit-all t))

min-cases : (a b : ℕ) → (min a b ≡ a) ⊎ (min a b ≡ b)
min-cases a b = elim (Bool-cases (ltb a b)) [
  | inl lt ↦ inl (ground arith)
  | inr ge ↦ inr (ground arith)
]

Edit-one : (a b : ℕ) (k : ℕ) (s t : Bytes) → Edit k s t → Edit (k + differ a b) (a ∷ s) (b ∷ t)
Edit-one a b k s t r = elim (Bool-cases (a == b)) [
  | inl same ↦
      let e : a ≡ b = ground arith in
      rw same (subst (λ n. Edit n (a ∷ s) (b ∷ t)) (omega arith) (keeps a b e r))
  | inr other ↦ rw other (replaces a b r)
]

-- And so many suffice.
levenshtein_cons-Edit :
    (a : ℕ) (s : Bytes)
    → ((t : Bytes) → Edit (levenshtein s t) s t)
    → (t : Bytes) → Edit (levenshtein (a ∷ s) t) (a ∷ s) t
levenshtein_cons-Edit a s f [] = removes a (f [])
levenshtein_cons-Edit a s f (b ∷ t) =
    let x = levenshtein s t + differ a b in
    let l = levenshtein_cons a (levenshtein s) t in
    let u = levenshtein s (b ∷ t) in
    let y = min l u in
    elim (min-cases x (y + 1)) [
      | inl e ↦
          subst (λ k. Edit k (a ∷ s) (b ∷ t)) (sym e) (Edit-one a b (levenshtein s t) s t (f t))
      | inr e ↦ elim (min-cases l u) [
        | inl g ↦
            subst (λ k. Edit k (a ∷ s) (b ∷ t)) (ap (λ z. z + 1) (sym g) ∙ sym e)
              (inserts b (levenshtein_cons-Edit a s f t))
        | inr g ↦
            subst (λ k. Edit k (a ∷ s) (b ∷ t)) (ap (λ z. z + 1) (sym g) ∙ sym e)
              (removes a (f (b ∷ t)))
      ]
    ]

pub levenshtein-Edit : (s t : Bytes) → Edit (levenshtein s t) s t
levenshtein-Edit [] t = Edit-all t
levenshtein-Edit (a ∷ s) t = levenshtein_cons-Edit a s (levenshtein-Edit s) t

-- Edits of two parts, and read from the end.
Edit-append :
    {k : ℕ} {s t : Bytes}
    → Edit k s t
    → (l : ℕ) (s' t' : Bytes) → Edit l s' t'
    → Edit (k + l) (s ++ s') (t ++ t')
Edit-append finished l s' t' r = subst (λ n. Edit n s' t') (omega arith) r
Edit-append (keeps a b e q) l s' t' r = keeps a b e (Edit-append q l s' t' r)
Edit-append (replaces {k} {s} {t} a b q) l s' t' r =
    subst (λ n. Edit n (a ∷ (s ++ s')) (b ∷ (t ++ t'))) (omega arith)
      (replaces a b (Edit-append q l s' t' r))
Edit-append (inserts {k} {s} {t} b q) l s' t' r =
    subst (λ n. Edit n (s ++ s') (b ∷ (t ++ t'))) (omega arith)
      (inserts b (Edit-append q l s' t' r))
Edit-append (removes {k} {s} {t} a q) l s' t' r =
    subst (λ n. Edit n (a ∷ (s ++ s')) (t ++ t')) (omega arith)
      (removes a (Edit-append q l s' t' r))

abbrev pub backwards : Bytes → Bytes
backwards [] = []
backwards (a ∷ s) = backwards s ++ a ∷ []

pub Edit-backwards : {k : ℕ} {s t : Bytes} → Edit k s t → Edit k (backwards s) (backwards t)
Edit-backwards finished = finished
Edit-backwards (keeps {k} {s} {t} a b e q) =
    subst (λ n. Edit n (backwards (a ∷ s)) (backwards (b ∷ t))) (omega arith)
      (Edit-append (Edit-backwards q) 0 (a ∷ []) (b ∷ []) (keeps a b e finished))
Edit-backwards (replaces {k} {s} {t} a b q) =
    Edit-append (Edit-backwards q) 1 (a ∷ []) (b ∷ []) (replaces a b finished)
Edit-backwards (inserts {k} {s} {t} b q) =
    rw (sym (append-nil (backwards s)))
      (Edit-append (Edit-backwards q) 1 [] (b ∷ []) (inserts b finished))
Edit-backwards (removes {k} {s} {t} a q) =
    rw (sym (append-nil (backwards t)))
      (Edit-append (Edit-backwards q) 1 (a ∷ []) [] (removes a finished))
