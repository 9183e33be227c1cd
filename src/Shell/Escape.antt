-- ===== src/Shell/Escape.antt =====
-- toolsupport/ninjautil/shell_escape.go.
use siso.Common.{
  ℕ, Bool, true, false, ◌&&◌, ◌||◌, List, [], ◌∷◌, ◌++◌, leb, ◌==◌, if◌then◌else◌, map,
}
use siso.Shell.Runes.{Runes}

unfoldable pub is_shell_safe_char : ℕ → Bool
is_shell_safe_char c =
    (leb b'A' c && leb c b'Z')
    || (leb b'a' c && leb c b'z')
    || (leb b'0' c && leb c b'9')
    || (c == b'_')
    || (c == b'+')
    || (c == b'-')
    || (c == b'.')
    || (c == b'/')

unfoldable pub need_shell_escape : Runes → Bool
need_shell_escape [] = false
need_shell_escape (c ∷ cs) = if is_shell_safe_char c then need_shell_escape cs else true

-- The loop of `shellEscape` over the characters.
unfoldable pub escape_chars : Runes → Runes
escape_chars [] = []
escape_chars (c ∷ cs) =
    (if c == b'\'' then b'\'' ∷ b'\\' ∷ b'\'' ∷ b'\'' ∷ [] else c ∷ []) ++ escape_chars cs

unfoldable pub shell_escape : Runes → Runes
shell_escape s = if need_shell_escape s then b'\'' ∷ (escape_chars s ++ b'\'' ∷ []) else s

-- `strings.Join`
unfoldable pub join : Runes → List Runes → Runes
join sep [] = []
join sep (s ∷ []) = s
join sep (s ∷ t ∷ ss) = s ++ (sep ++ join sep (t ∷ ss))

abbrev pub escape_path : Bool → Runes → Runes
escape_path escape p = if escape then shell_escape p else p

-- `pathList` of toolsupport/ninjautil/graph.go, of the paths of the nodes.
unfoldable pub path_list : Bool → List Runes → Runes → Runes
path_list escape paths sep = join sep (map (escape_path escape) paths)
