-- ===== src/Shell/Samples.antt =====
-- Command lines, and the theorems of the Shell modules at them.
use siso.Common.{false, ◌≡◌, ◌+◌, ◌%◌, ◌++◌, refl, true, [], ◌∷◌, some, codes, map, arith}
use siso.Shell.Runes.{Runes, utf8, encode, is_space}
use siso.Shell.Split.{split, has_equals}
use siso.Shell.Escape.{path_list}
use siso.Shell.RoundTrip.{IsShellPath, split-path_list}
use siso.Shell.Stray.{split_stray}

abbrev tool : Runes
tool = codes "cc"

-- A path with a quote and a blank.
abbrev source : Runes
source = codes "a'b c"

source-IsShellPath : IsShellPath source
source-IsShellPath = (
  λ e. cc,
  (
    λ e. omega (arith, e),
    (
      λ e. omega (arith, e),
      (λ e. omega (arith, e), (λ e. omega (arith, e), (λ e. omega (arith, e), tt))),
    ),
  ),
)

tool-IsShellPath : IsShellPath tool
tool-IsShellPath = (λ e. cc, (λ e. omega (arith, e), (λ e. omega (arith, e), tt)))

no_equals : has_equals (encode tool) ≡ false
unfolding has_equals encode utf8
no_equals = refl

split-path_list_example :
    split (path_list true (tool ∷ source ∷ []) (b' ' ∷ [])) ≡ some (map encode (tool ∷ source ∷ []))
split-path_list_example =
    split-path_list tool (source ∷ []) (tool-IsShellPath, (source-IsShellPath, tt)) no_equals

-- U+00E9
not_space : is_space 233 ≡ false
unfolding is_space
not_space = refl

split_stray_example :
    split (233 ∷ b'\'' ∷ b'\'' ∷ []) ≡ some ((utf8 233 ++ (128 + 233 % 64) ∷ []) ∷ [])
split_stray_example = split_stray 233 (omega arith) (omega arith) not_space
