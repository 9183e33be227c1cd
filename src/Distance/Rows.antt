-- ===== src/Distance/Rows.antt =====
-- `editDistance` of toolsupport/ninjautil/edit_distance.go. The row of the table is `row[0]` and the list of
-- the other entries; a limit of 0 is no limit.
use siso.Common.{ℕ, ◌+◌, min, ◌&&◌, List, [], ◌∷◌, Bytes, ltb, ◌==◌, if◌then◌else◌}

-- The row before the first character: 1, 2, …
unfoldable pub count_up : ℕ → Bytes → List ℕ
count_up k [] = []
count_up k (c ∷ cs) = k ∷ count_up (k + 1) cs

-- The loop over `x`: what becomes of the row, and the best entry. `previous` is the top-left entry and
-- `left` the entry `row[x-1]`.
unfoldable pub next_row : ℕ → Bytes → ℕ → ℕ → ℕ → List ℕ → List ℕ × ℕ
next_row c1 [] previous left best olds = ([], best)
next_row c1 (c2 ∷ s2) previous left best [] = ([], best)
next_row c1 (c2 ∷ s2) previous left best (old ∷ olds) =
    let p = if c1 == c2 then previous else previous + 1 in
    let v = min p (min left old + 1) in
    let (news, best') = next_row c1 s2 old v (min best v) olds in (v ∷ news, best')

-- `row[n]`
unfoldable pub last_entry : ℕ → List ℕ → ℕ
last_entry first [] = first
last_entry first (v ∷ vs) = last_entry v vs

-- The loop over `y`, with `y - 1` characters behind it.
unfoldable pub rows : ℕ → Bytes → ℕ → Bytes → List ℕ → ℕ
rows limit s2 first [] row = last_entry first row
rows limit s2 first (c1 ∷ s1) row =
    let y = first + 1 in
    let (row', best) = next_row c1 s2 first y y row in
    let rest = rows limit s2 y s1 row' in if ltb 0 limit && ltb limit best then limit + 1 else rest

unfoldable pub edit_distance : Bytes → Bytes → ℕ → ℕ
edit_distance s1 s2 limit = rows limit s2 0 s1 (count_up 1 s2)
