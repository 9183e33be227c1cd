-- ===== src/Distance/CutOff.antt =====
-- With a limit, `editDistance` stops at the first row whose entries are all above it.
use siso.Common.{
  ℕ, ◌+◌, ◌≤◌, ◌<◌, ◌≡◌, refl, min, ◌&&◌, List, [], ◌∷◌, Bytes, ltb, ◌==◌, if◌then◌else◌,
  Bool-cases, inl, inr, All, arith,
}
use siso.Distance.Rows.{next_row, last_entry, rows, edit_distance, count_up}

abbrev Above : ℕ → List ℕ → Type 0
Above m vs = All (λ v. m ≤ v) vs

top_left-bound :
    (m previous c1 c2 : ℕ) → m ≤ previous → m ≤ (if c1 == c2 then previous else previous + 1)
top_left-bound m previous c1 c2 h = ground arith

-- The next row is not below the row.
next_row-Above :
    (m c1 : ℕ) (s2 : Bytes) (previous left best : ℕ) (olds : List ℕ)
    → m ≤ previous
    → m ≤ left
    → Above m olds
    → Above m (next_row c1 s2 previous left best olds).0
unfolding next_row
next_row-Above m c1 [] previous left best olds p l h = tt
next_row-Above m c1 (c2 ∷ s2) previous left best [] p l h = tt
next_row-Above m c1 (c2 ∷ s2) previous left best (old ∷ olds) p l h =
    let q = top_left-bound m previous c1 c2 p in
    let v = min (if c1 == c2 then previous else previous + 1) (min left old + 1) in
    let w : m ≤ v = omega (arith, q, l, h.0) in
    (w, next_row-Above m c1 s2 old v (min best v) olds h.0 w h.1)

Above-weaken : (m n : ℕ) (vs : List ℕ) → m ≤ n → Above n vs → Above m vs
Above-weaken m n [] h a = tt
Above-weaken m n (v ∷ vs) h a = (omega (arith, h, a.0), Above-weaken m n vs h a.1)

-- The best entry is not above the row, nor above the best one so far.
next_row_best :
    (c1 : ℕ) (s2 : Bytes) (previous left best : ℕ) (olds : List ℕ)
    → ((next_row c1 s2 previous left best olds).1 ≤ best)
      × Above (next_row c1 s2 previous left best olds).1 (next_row c1 s2 previous left best olds).0
unfolding next_row
next_row_best c1 [] previous left best olds = (omega arith, tt)
next_row_best c1 (c2 ∷ s2) previous left best [] = (omega arith, tt)
next_row_best c1 (c2 ∷ s2) previous left best (old ∷ olds) =
    let v = min (if c1 == c2 then previous else previous + 1) (min left old + 1) in
    let ih = next_row_best c1 s2 old v (min best v) olds in
    (omega (arith, ih.0), (omega (arith, ih.0), ih.1))

last_entry-Above : (m first : ℕ) (row : List ℕ) → m ≤ first → Above m row → m ≤ last_entry first row
unfolding last_entry
last_entry-Above m first [] h a = h
last_entry-Above m first (v ∷ vs) h a = last_entry-Above m v vs a.0 a.1

rows-Above :
    (m : ℕ) (s2 : Bytes) (first : ℕ) (s1 : Bytes) (row : List ℕ)
    → m ≤ first
    → Above m row
    → m ≤ rows 0 s2 first s1 row
unfolding rows
rows-Above m s2 first [] row h a = last_entry-Above m first row h a
rows-Above m s2 first (c1 ∷ s1) row h a =
    let y = first + 1 in
    let le : m ≤ y = omega (arith, h) in
    rows-Above m s2 y s1 (next_row c1 s2 first y y row).0 le
      (next_row-Above m c1 s2 first y y row h le a)

rows_limit :
    (limit : ℕ) (s2 : Bytes) (first : ℕ) (s1 : Bytes) (row : List ℕ)
    → (rows 0 s2 first s1 row ≤ limit → rows limit s2 first s1 row ≡ rows 0 s2 first s1 row)
      × (limit < rows 0 s2 first s1 row → limit < rows limit s2 first s1 row)
unfolding rows
rows_limit limit s2 first [] row = (λ h. refl, λ h. h)
rows_limit limit s2 first (c1 ∷ s1) row =
    let y = first + 1 in
    let r = next_row c1 s2 first y y row in
    let ih = rows_limit limit s2 y s1 r.0 in
    elim (Bool-cases (ltb 0 limit && ltb limit r.1)) [
      | inl stop ↦
          let le : limit + 1 ≤ r.1 = ground arith in
          let b = next_row_best c1 s2 first y y row in
          let above =
            rows-Above (limit + 1) s2 y s1 r.0 (omega (arith, le, b.0))
              (Above-weaken (limit + 1) r.1 r.0 le b.1) in
          rw stop ((λ h. absurd (omega (arith, h, above))), (λ h. omega arith))
      | inr on ↦ rw on ih
    ]

-- A limit does not change a distance that is at most the limit; and a distance above the limit is still
-- reported as one above the limit, if not as the distance itself.
pub edit_distance_limit :
    (s1 s2 : Bytes) (limit : ℕ)
    → (edit_distance s1 s2 0 ≤ limit → edit_distance s1 s2 limit ≡ edit_distance s1 s2 0)
      × (limit < edit_distance s1 s2 0 → limit < edit_distance s1 s2 limit)
unfolding edit_distance
edit_distance_limit s1 s2 limit = rows_limit limit s2 0 s1 (count_up 1 s2)
