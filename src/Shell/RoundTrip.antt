-- ===== src/Shell/RoundTrip.antt =====
-- A line of escaped paths is split into these paths.
use siso.Common.{
  ◌≡◌, ◌≢◌, refl, sym, ap, ◌∙◌, true, false, List, [], ◌∷◌, ◌++◌, append_assoc, append-nil, some,
  Bytes, map, All,
}
use siso.Shell.Runes.{Runes, encode}
use siso.Shell.Split.{Splitter, split_chars, check_env, has_equals, at_end, split}
use siso.Shell.Escape.{shell_escape, path_list}
use siso.Shell.Word.{Word, after_blank, first_Word, next_Word}
use siso.Shell.Trim.{line, line-one, line-cons, trim_space-line}

-- A path that `Split` can read back.
abbrev pub IsShellPath : Runes → Type 0
IsShellPath p = (p ≢ []) × All (λ c. c ≢ b'\\') p

not_empty : (ps : List Runes) → All IsShellPath ps → All (λ q. q ≢ []) ps
not_empty [] h = tt
not_empty (p ∷ ps) h = (h.0.0, not_empty ps h.1)

-- What the end of the line makes of the words that were read and the paths that follow.
split-line :
    (p : Runes) (ps : List Runes) (args : List Bytes) (seen : Bytes) (start : Splitter)
    → Word args p seen start
    → All IsShellPath ps
    → at_end (split_chars (line p ps) start) ≡ check_env (args ++ map encode (p ∷ ps))
unfolding at_end split_chars
split-line p [] args seen start w h =
    rw (line-one p, sym (append-nil (shell_escape p))) (ap at_end (w.run []) ∙ w.finish)
split-line p (q ∷ ps) args seen start w h =
    let seen' = seen ++ encode (shell_escape p ++ b' ' ∷ []) in
    let args' = args ++ encode p ∷ [] in
    let ih =
      split-line q ps args' seen' (after_blank args' seen') (next_Word args' q seen' h.0.0 h.0.1)
        h.1 in
    rw (line-cons p q ps) (
      ap at_end (w.run (b' ' ∷ line q ps) ∙ w.blank (line q ps))
      ∙ ih
      ∙ ap check_env (append_assoc args (encode p ∷ []) (map encode (q ∷ ps))))

-- Splitting a list of shell-escaped paths, joined by blanks, gives the paths back: `Split` undoes what
-- `pathList` writes, if no path is empty or has a backslash, and the first one has no `=`.
pub split-path_list :
    (p : Runes) (ps : List Runes)
    → All IsShellPath (p ∷ ps)
    → has_equals (encode p) ≡ false
    → split (path_list true (p ∷ ps) (b' ' ∷ [])) ≡ some (map encode (p ∷ ps))
unfolding split check_env
split-path_list p ps h e =
    ap (λ l. at_end (split_chars l start)) (trim_space-line p ps (not_empty (p ∷ ps) h))
    ∙ split-line p ps [] [] start (first_Word p h.0.1) h.1
    ∙ rw e refl
  where
    start : Splitter
    start = record {
      args = [];
      sb = some [];
      escaped = false;
      qch = 0;
      inspace = false;
      si = 0;
      seen = [];
    }
