-- ===== src/Distance/Samples.antt =====
-- The distance of two target names.
use siso.Common.{ℕ, ◌≤◌, ◌<◌, ◌≡◌, refl, Bytes, codes}
use mathlib.Core.Option.{some-injective, none-ne-some}
use siso.Common.{◌∙◌, ◌≢◌, List, [], ◌∷◌, Option, none, some, inl, inr, arith}
use siso.Distance.Spelling.{distance, IsNode, spellcheck_target, spellcheck_target_nearest}
use siso.Distance.Rows.{count_up, next_row, last_entry, rows, edit_distance}
use siso.Distance.Edits.{Edit}
use siso.Distance.Least.{edit_distance-Edit}
use siso.Distance.CutOff.{edit_distance_limit}

abbrev typed : Bytes
typed = codes "chrme"

abbrev meant : Bytes
meant = codes "chrome"

typed_distance : edit_distance typed meant 0 ≡ 1
unfolding edit_distance rows next_row count_up last_entry
typed_distance = refl

edit_distance-Edit_example :
    Edit (edit_distance typed meant 0) typed meant
    × ((k : ℕ) → Edit k typed meant → edit_distance typed meant 0 ≤ k)
edit_distance-Edit_example = edit_distance-Edit typed meant

edit_distance_limit_example :
    (edit_distance typed meant 0 ≤ 3 → edit_distance typed meant 3 ≡ edit_distance typed meant 0)
    × (3 < edit_distance typed meant 0 → 3 < edit_distance typed meant 3)
edit_distance_limit_example = edit_distance_limit typed meant 3

abbrev nodes : List (Option Bytes)
nodes = none ∷ some meant ∷ []

near : distance typed meant ≤ 3
unfolding edit_distance rows next_row count_up last_entry
near = omega arith

named : (q : Bytes) → IsNode q nodes → q ≢ []
named q (inl e) = absurd (none-ne-some q e)
named q (inr (inl e)) = λ z. absurd (nonempty (some-injective meant q e ∙ z))
  where
    nonempty : meant ≢ []
    nonempty = λ w. cc
named q (inr (inr x)) = elim x [ ]

spellcheck_target_nearest_example :
    (q : Bytes) × (spellcheck_target typed nodes ≡ some q)
    × IsNode q nodes
    × ((r : Bytes) → IsNode r nodes → distance typed q ≤ distance typed r)
spellcheck_target_nearest_example =
    spellcheck_target_nearest typed meant nodes (inr (inl refl)) near named
