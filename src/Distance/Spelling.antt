-- ===== src/Distance/Spelling.antt =====
-- `SpellcheckTarget` of toolsupport/ninjautil/state.go, over the paths of the nodes.
use mathlib.Core.Bool.{false≢true}
use mathlib.Core.Option.{some-injective, none-ne-some}
use siso.Common.{
  ℕ, ◌≤◌, ◌<◌, ◌≡◌, ◌≢◌, ◌⊎◌, inl, inr, refl, sym, ap, ◌∙◌, Bool, true, false, ◌&&◌, ◌||◌, List, [],
  ◌∷◌, Option, none, some, Bytes, ltb, ◌==◌, if◌then◌else◌, Bool-cases, length, arith,
}
use siso.Distance.Rows.{edit_distance}

unfoldable pub has_prefix : Bytes → Bytes → Bool
has_prefix s [] = true
has_prefix [] (b ∷ t) = false
has_prefix (a ∷ s) (b ∷ t) = let rest = has_prefix s t in if a == b then rest else false

-- `strings.Contains`
unfoldable pub contains : Bytes → Bytes → Bool
contains [] t = has_prefix [] t
contains (a ∷ s) t = let rest = contains s t in if has_prefix (a ∷ s) t then true else rest

pub record Spelling : Type 0 where
  pub min_distance : ℕ
  pub similar : Bytes
  pub submatch : Bytes

abbrev is_empty : Bytes → Bool
is_empty [] = true
is_empty (b ∷ s) = false

abbrev pub distance : Bytes → Bytes → ℕ
distance t p = edit_distance t p 3

unfoldable pub spell_similar : Bytes → Bytes → Spelling → Spelling
spell_similar t p s =
    if ltb (distance t p) s.min_distance
    then record s { min_distance = distance t p; similar = p }
    else s

unfoldable pub spell_submatch : Bytes → Bytes → Spelling → Spelling
spell_submatch t p s =
    if (is_empty s.submatch || ltb (length p) (length s.submatch)) && contains p t
    then record s { submatch = p }
    else s

-- The loop over the nodes.
unfoldable pub spell_nodes : Bytes → List (Option Bytes) → Spelling → Spelling
spell_nodes t [] s = s
spell_nodes t (none ∷ ns) s = spell_nodes t ns s
spell_nodes t (some p ∷ ns) s = spell_nodes t ns (spell_submatch t p (spell_similar t p s))

unfoldable pub choose : Spelling → Option Bytes
choose s =
    if is_empty s.similar
    then (if is_empty s.submatch then none else some s.submatch)
    else some s.similar

-- `SpellcheckTarget`, where none is an error.
unfoldable pub spellcheck_target : Bytes → List (Option Bytes) → Option Bytes
spellcheck_target t ns =
    choose (spell_nodes t ns (record { min_distance = 4; similar = []; submatch = [] }))

-- `p` is the path of one of the nodes.
abbrev pub IsNode : Bytes → List (Option Bytes) → Type 0
IsNode p [] = ⊥
IsNode p (n ∷ ns) = (n ≡ some p) ⊎ IsNode p ns

-- What the loop makes of `s`.
record Searched (t : Bytes) (ns : List (Option Bytes)) (s s' : Spelling) : Type 0 where
  lower : s'.min_distance ≤ s.min_distance
  least : (p : Bytes) → IsNode p ns → s'.min_distance ≤ distance t p
  chosen :
      ((s'.similar ≡ s.similar) × (s'.min_distance ≡ s.min_distance))
      ⊎ (IsNode s'.similar ns × (s'.min_distance ≡ distance t s'.similar))

submatch_keeps :
    (t p : Bytes) (s : Spelling)
    → ((spell_submatch t p s).min_distance ≡ s.min_distance)
      × ((spell_submatch t p s).similar ≡ s.similar)
unfolding spell_submatch
submatch_keeps t p s =
    elim (Bool-cases
      ((is_empty s.submatch || ltb (length p) (length s.submatch)) && contains p t)) [
        | inl found ↦ rw found (refl, refl)
        | inr not_found ↦ rw not_found (refl, refl)
      ]

Searched-some :
    (t p : Bytes) (ns : List (Option Bytes)) (s s1 s2 : Spelling)
    → (s1.min_distance ≡ (spell_similar t p s).min_distance)
      × (s1.similar ≡ (spell_similar t p s).similar)
    → Searched t ns s1 s2
    → Searched t (some p ∷ ns) s s2
unfolding spell_similar
Searched-some t p ns s s1 s2 e h = elim (Bool-cases (ltb (distance t p) s.min_distance)) [
  | inl better ↦
      let f : (s1.min_distance ≡ distance t p) × (s1.similar ≡ p) = rw better at e in
      let lt : distance t p < s.min_distance = ground arith in
      record {
        lower = omega (arith, h.lower, f.0, lt);
        least = λ q i. least_here q i f.0;
        chosen = elim h.chosen [
          | inl (a, b) ↦
              let g : s2.similar ≡ p = a ∙ f.1 in
              inr (inl (ap (λ x. some x) (sym g)), b ∙ f.0 ∙ ap (distance t) (sym g))
          | inr (n, m) ↦ inr (inr n, m)
        ];
      }
  | inr worse ↦
      let f : (s1.min_distance ≡ s.min_distance) × (s1.similar ≡ s.similar) = rw worse at e in
      let le : s.min_distance ≤ distance t p = ground arith in
      record {
        lower = omega (arith, h.lower, f.0);
        least = λ q i. least_there q i (omega (arith, f.0, le));
        chosen = elim h.chosen [
          | inl (a, b) ↦ inl (a ∙ f.1, b ∙ f.0)
          | inr (n, m) ↦ inr (inr n, m)
        ];
      }
]
  where
    least_there :
        (q : Bytes)
        → IsNode q (some p ∷ ns)
        → s1.min_distance ≤ distance t p
        → s2.min_distance ≤ distance t q
    least_there q (inl g) le = omega (arith, h.lower, le, ap (distance t) (some-injective p q g))
    least_there q (inr i) le = h.least q i

    least_here :
        (q : Bytes)
        → IsNode q (some p ∷ ns)
        → s1.min_distance ≡ distance t p
        → s2.min_distance ≤ distance t q
    least_here q i f = least_there q i (omega (arith, f))

spell_nodes-Searched :
    (t : Bytes) (ns : List (Option Bytes)) (s : Spelling) → Searched t ns s (spell_nodes t ns s)
unfolding spell_nodes
spell_nodes-Searched t [] s = record {
  lower = omega arith;
  least = λ p i. absurd i;
  chosen = inl (refl, refl);
}
spell_nodes-Searched t (none ∷ ns) s =
    let h = spell_nodes-Searched t ns s in
    record {
      lower = h.lower;
      least = λ p i. elim i [ inl e ↦ absurd (none-ne-some p e) | inr j ↦ h.least p j ];
      chosen = elim h.chosen [ inl c ↦ inl c | inr (n, m) ↦ inr (inr n, m) ];
    }
spell_nodes-Searched t (some p ∷ ns) s =
    let s1 = spell_submatch t p (spell_similar t p s) in
    Searched-some t p ns s s1 _ (submatch_keeps t p (spell_similar t p s))
      (spell_nodes-Searched t ns s1)

choose-similar : (s : Spelling) → s.similar ≢ [] → choose s ≡ some s.similar
unfolding choose
choose-similar s h = elim (Bool-cases (is_empty s.similar)) [
  | inl empty ↦ absurd (h (empty_nil s.similar empty))
  | inr full ↦ rw full refl
]
  where
    empty_nil : (x : Bytes) → is_empty x ≡ true → x ≡ []
    empty_nil [] e = refl
    empty_nil (b ∷ x) e = absurd (false≢true e)

-- If some node is within distance 3 of what was typed, and no node has an empty path, then
-- `SpellcheckTarget` suggests a node's path, and none of the nodes is nearer.
pub spellcheck_target_nearest :
    (t p : Bytes) (ns : List (Option Bytes))
    → IsNode p ns
    → distance t p ≤ 3
    → ((q : Bytes) → IsNode q ns → q ≢ [])
    → (q : Bytes) × (spellcheck_target t ns ≡ some q)
      × IsNode q ns
      × ((r : Bytes) → IsNode r ns → distance t q ≤ distance t r)
unfolding spellcheck_target
spellcheck_target_nearest t p ns i le nonempty =
    let start : Spelling = record { min_distance = 4; similar = []; submatch = [] } in
    let s = spell_nodes t ns start in
    let h = spell_nodes-Searched t ns start in
    elim h.chosen [
      | inl (a, b) ↦ absurd (omega (arith, b, h.least p i, le))
      | inr (n, m) ↦ (
        s.similar,
        choose-similar s (nonempty s.similar n),
        n,
        λ r j. omega (arith, m, h.least r j),
      )
    ]
