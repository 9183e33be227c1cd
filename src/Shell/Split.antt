-- ===== src/Shell/Split.antt =====
-- toolsupport/shutil/split.go: a command line is split into its words, in one pass over the characters.
use siso.Common.{
  ℕ, ◌+◌, Bool, true, false, not, ◌||◌, List, [], ◌∷◌, ◌++◌, Option, none, some, Bytes, ltb, ◌==◌,
  if◌then◌else◌, length, drop,
}
use siso.Shell.Runes.{Runes, utf8, trim_space}

-- The variables of `Split`; `seen` is `cmdline[:i]`, so that `i` is its length. A word under
-- construction is in `sb` unless it is none, and else it is the command line from `si` on.
pub record Splitter : Type 0 where
  pub args : List Bytes
  pub sb : Option Bytes
  pub escaped : Bool
  pub qch : ℕ
  pub inspace : Bool
  pub si : ℕ
  pub seen : Bytes

abbrev buffer : Option Bytes → Bytes
buffer none = []
buffer (some b) = b

-- `cmdline[si:i]` is appended, to an empty buffer if there is none.
unfoldable pub flush_slice : Splitter → Option Bytes
flush_slice s =
    some (if ltb s.si (length s.seen) then buffer s.sb ++ drop s.si s.seen else buffer s.sb)

-- `WriteRune`, which callers use only while there is a buffer.
unfoldable pub write_rune : ℕ → Option Bytes → Option Bytes
write_rune ch none = none
write_rune ch (some b) = some (b ++ utf8 ch)

-- The word that ends here.
unfoldable pub arg_here : Splitter → Bytes
arg_here s = elim s.sb [
  | none ↦ (if ltb s.si (length s.seen) then drop s.si s.seen else [])
  | some b ↦ b
]

unfoldable pub is_metachar : ℕ → Bool
is_metachar ch =
    (ch == b';')
    || (ch == b'&')
    || (ch == b'|')
    || (ch == b'<')
    || (ch == b'>')
    || (ch == b'$')
    || (ch == b'#')
    || (ch == b'`')

-- A character inside quotes.
unfoldable pub quoted_char : ℕ → Splitter → Splitter
quoted_char ch s =
    if ch == b'\\'
    then record s { escaped = true }
    else if s.qch == ch
    then record s { qch = 0; si = length s.seen + 1 }
    else record s { sb = write_rune ch s.sb; si = length s.seen + 1 }

-- A character outside quotes: none for a shell metacharacter.
unfoldable pub plain_char : ℕ → Splitter → Option Splitter
plain_char ch s =
    if ch == b'\\'
    then some
        (record s { sb = flush_slice s; inspace = false; escaped = true; si = length s.seen + 1 })
    else if (ch == b'"') || (ch == b'\'')
    then some (record s { sb = flush_slice s; inspace = false; qch = ch; si = length s.seen + 1 })
    else if (ch == b' ') || (ch == b'\t')
    then (if s.inspace
        then some (record s { si = length s.seen + 1 })
        else some (record s {
          args = s.args ++ arg_here s ∷ [];
          sb = none;
          inspace = true;
          si = length s.seen + 1;
        }))
    else if is_metachar ch
    then none
    else elim s.sb [
      | none ↦ some (record s { inspace = false })
      | some b ↦
          (if s.inspace
            then some (record s { inspace = false })
            else some
                (record s { sb = write_rune ch s.sb; si = length s.seen + 1; inspace = false }))
    ]

unfoldable pub split_char : ℕ → Splitter → Option Splitter
split_char ch s =
    if s.escaped
    then some (record s { sb = write_rune ch s.sb; escaped = false; si = length s.seen + 1 })
    else if not (s.qch == 0)
    then some (quoted_char ch s)
    else plain_char ch s

abbrev pub see : ℕ → Splitter → Splitter
see ch s = record s { seen = s.seen ++ utf8 ch }

-- The loop over the characters.
unfoldable pub split_chars : Runes → Splitter → Option Splitter
split_chars [] s = some s
split_chars (ch ∷ chs) s = elim (split_char ch s) [
  | none ↦ none
  | some s' ↦ split_chars chs (see ch s')
]

unfoldable pub has_equals : Bytes → Bool
has_equals [] = false
has_equals (b ∷ bs) = if b == b'=' then true else has_equals bs

unfoldable pub check_env : List Bytes → Option (List Bytes)
check_env [] = some []
check_env (a ∷ rest) = if has_equals a then none else some (a ∷ rest)

-- What follows the loop.
unfoldable pub last_args : Splitter → List Bytes
last_args s = elim s.sb [
  | none ↦ (if ltb s.si (length s.seen) then s.args ++ drop s.si s.seen ∷ [] else s.args)
  | some b ↦ s.args ++ b ∷ []
]

unfoldable pub finish_split : Splitter → Option (List Bytes)
finish_split s =
    if s.escaped then none else if not (s.qch == 0) then none else check_env (last_args s)

abbrev pub new_splitter : Splitter
new_splitter = record {
  args = [];
  sb = some [];
  escaped = false;
  qch = 0;
  inspace = false;
  si = 0;
  seen = [];
}

unfoldable pub at_end : Option Splitter → Option (List Bytes)
at_end none = none
at_end (some s) = finish_split s

-- `Split`, where none is an error.
unfoldable pub split : Runes → Option (List Bytes)
split cmdline = at_end (split_chars (trim_space cmdline) new_splitter)
