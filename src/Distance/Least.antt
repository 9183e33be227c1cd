-- ===== src/Distance/Least.antt =====
-- Without a limit, `editDistance` is the least number of edits.
use mathlib.Core.Path.{subst}
use siso.Common.{
  ℕ, ◌+◌, ◌≤◌, ◌≡◌, refl, sym, ap, ◌∙◌, min, List, [], ◌∷◌, ◌++◌, append_assoc, append-nil, Bytes,
  ◌==◌, if◌then◌else◌, length, arith,
}
use siso.Distance.Rows.{count_up, next_row, last_entry, rows, edit_distance}
use siso.Distance.Edits.{
  Edit, levenshtein, levenshtein-least, levenshtein-Edit, backwards, Edit-backwards,
}

-- The table's row for `s` read from the end, from the column after `p` on.
abbrev entries : Bytes → Bytes → Bytes → List ℕ
entries s p [] = []
entries s p (b ∷ t) = levenshtein s (b ∷ p) ∷ entries s (b ∷ p) t

top_left : (a b n : ℕ) → (if a == b then n else n + 1) ≡ n + (if a == b then 0 else 1)
top_left a b n = ground arith

next_row-entries :
    (c : ℕ) (s p t : Bytes) (best : ℕ)
    → (next_row c t (levenshtein s p) (levenshtein (c ∷ s) p) best (entries s p t)).0
      ≡ entries (c ∷ s) p t
unfolding next_row
next_row-entries c s p [] best = refl
next_row-entries c s p (b ∷ t) best =
    let v = levenshtein (c ∷ s) (b ∷ p) in
    rw (top_left c b (levenshtein s p))
      (ap (λ r. v ∷ r) (next_row-entries c s (b ∷ p) t (min best v)))

last_entry-entries :
    (s p t : Bytes)
    → last_entry (levenshtein s p) (entries s p t) ≡ levenshtein s (backwards t ++ p)
unfolding last_entry
last_entry-entries s p [] = refl
last_entry-entries s p (b ∷ t) =
    last_entry-entries s (b ∷ p) t
    ∙ ap (levenshtein s) (sym (append_assoc (backwards t) (b ∷ []) p))

rows-levenshtein :
    (s1 s2 s : Bytes)
    → rows 0 s2 (levenshtein s []) s1 (entries s [] s2)
      ≡ levenshtein (backwards s1 ++ s) (backwards s2)
unfolding rows
rows-levenshtein [] s2 s =
    last_entry-entries s [] s2 ∙ ap (levenshtein s) (append-nil (backwards s2))
rows-levenshtein (c ∷ s1) s2 s =
    let y = levenshtein s [] + 1 in
    ap (rows 0 s2 y s1) (next_row-entries c s [] s2 y)
    ∙ rows-levenshtein s1 s2 (c ∷ s)
    ∙ ap (λ r. levenshtein r (backwards s2)) (sym (append_assoc (backwards s1) (c ∷ []) s))

count_up-entries : (p t : Bytes) (k : ℕ) → k ≡ length p + 1 → count_up k t ≡ entries [] p t
unfolding count_up
count_up-entries p [] k e = refl
count_up-entries p (b ∷ t) k e =
    let f : k ≡ length (b ∷ p) = omega (arith, e) in
    ap (λ r. k ∷ r) (count_up-entries (b ∷ p) t (k + 1) (omega (arith, e)))
    ∙ ap (λ n. n ∷ entries [] (b ∷ p) t) f

edit_distance-levenshtein :
    (s1 s2 : Bytes) → edit_distance s1 s2 0 ≡ levenshtein (backwards s1) (backwards s2)
unfolding edit_distance
edit_distance-levenshtein s1 s2 =
    ap (rows 0 s2 0 s1) (count_up-entries [] s2 1 (omega arith))
    ∙ rows-levenshtein s1 s2 []
    ∙ ap (λ r. levenshtein r (backwards s2)) (append-nil (backwards s1))

backwards-append : (s : Bytes) (a : ℕ) → backwards (s ++ a ∷ []) ≡ a ∷ backwards s
backwards-append [] a = refl
backwards-append (b ∷ s) a = ap (λ r. r ++ b ∷ []) (backwards-append s a)

backwards_twice : (s : Bytes) → backwards (backwards s) ≡ s
backwards_twice [] = refl
backwards_twice (a ∷ s) = backwards-append (backwards s) a ∙ ap (λ r. a ∷ r) (backwards_twice s)

-- Without a limit, `editDistance` returns the least number of insertions, removals and replacements of
-- characters that turn the first string into the second one: so many suffice, and fewer do not.
pub edit_distance-Edit :
    (s1 s2 : Bytes)
    → Edit (edit_distance s1 s2 0) s1 s2 × ((k : ℕ) → Edit k s1 s2 → edit_distance s1 s2 0 ≤ k)
edit_distance-Edit s1 s2 =
    let e = edit_distance-levenshtein s1 s2 in
    let there : Edit (levenshtein (backwards s1) (backwards s2)) s1 s2 =
      subst (λ s. Edit (levenshtein (backwards s1) (backwards s2)) s s2) (backwards_twice s1)
        (subst (λ t. Edit (levenshtein (backwards s1) (backwards s2)) (backwards (backwards s1)) t)
          (backwards_twice s2) (Edit-backwards (levenshtein-Edit (backwards s1) (backwards s2)))) in
    (
      subst (λ k. Edit k s1 s2) (sym e) there,
      λ k r. omega (arith, e, levenshtein-least (Edit-backwards r)),
    )
