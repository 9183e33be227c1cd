-- ===== src/Shell/Word.antt =====
-- One escaped path from its first character on: at the start of the line, and after a blank.
use mathlib.Core.Bool.{false≢true}
use siso.Common.{
  ℕ, ◌+◌, ◌≡◌, ◌≢◌, refl, sym, ap, ◌∙◌, true, false, List, [], ◌∷◌, ◌++◌, append_assoc, Option,
  none, some, Bytes, ltb, Bool-cases, inl, inr, length, length-append, drop, drop-append, All,
  arith, lt→ltb,
}
use siso.Shell.Runes.{Runes, utf8, encode}
use siso.Shell.Split.{
  Splitter, flush_slice, arg_here, plain_char, split_char, split_chars, last_args, finish_split,
  check_env,
}
use siso.Shell.Escape.{is_shell_safe_char, need_shell_escape, escape_chars, shell_escape}
use siso.Shell.Words.{
  at_char, split_chars-step, length-snoc, encode-append, IsSafe, split-safe_buffer,
  split-safe_slice, plain_char-slice, safe-IsOrdinary, utf8-ascii,
}
use siso.Shell.Quotes.{split-open, split-quoted}

pub need_shell_escape-IsSafe : (cs : Runes) → need_shell_escape cs ≡ false → IsSafe cs
unfolding need_shell_escape
need_shell_escape-IsSafe [] h = tt
need_shell_escape-IsSafe (c ∷ cs) h = elim (Bool-cases (is_shell_safe_char c)) [
  | inl safe ↦ (safe, need_shell_escape-IsSafe cs (rw safe at h))
  | inr bad ↦ absurd (false≢true (sym (rw bad at h)))
]

abbrev pub after_blank : List Bytes → Bytes → Splitter
after_blank args seen = at_char args none false 0 true (length seen) seen

-- A path that was read from `start`, with what a blank or the end of the line makes of it.
pub record Word (args : List Bytes) (p : Runes) (seen : Bytes) (start : Splitter) : Type 0 where
  pub reached : Splitter
  pub run : (rest : Runes) → split_chars (shell_escape p ++ rest) start ≡ split_chars rest reached
  pub blank :
      (rest : Runes)
      → split_chars (b' ' ∷ rest) reached
        ≡ split_chars rest
            (after_blank (args ++ encode p ∷ []) (seen ++ encode (shell_escape p ++ b' ' ∷ [])))
  pub finish : finish_split reached ≡ check_env (args ++ encode p ∷ [])

seen_blank :
    (seen : Bytes) (w : Runes) → seen ++ encode (w ++ b' ' ∷ []) ≡ (seen ++ encode w) ++ b' ' ∷ []
unfolding encode utf8
seen_blank seen w =
    ap (λ r. seen ++ r) (encode-append w (b' ' ∷ []))
    ∙ sym (append_assoc seen (encode w) (b' ' ∷ []))

-- The blank after a word whose bytes are `a`.
blank-after :
    (args : List Bytes) (a : Bytes) (sb : Option Bytes) (si : ℕ) (seen : Bytes) (w : Runes)
    (rest : Runes)
    → arg_here (at_char args sb false 0 false si (seen ++ encode w)) ≡ a
    → split_chars (b' ' ∷ rest) (at_char args sb false 0 false si (seen ++ encode w))
      ≡ split_chars rest (after_blank (args ++ a ∷ []) (seen ++ encode (w ++ b' ' ∷ [])))
unfolding split_char plain_char utf8
blank-after args a sb si seen w rest e =
    let s = seen ++ encode w in
    split_chars-step b' ' rest _ (at_char (args ++ a ∷ []) none false 0 true (length s + 1) s)
      (ap (λ x. some (at_char (args ++ x ∷ []) none false 0 true (length s + 1) s)) e)
    ∙ rw (seen_blank seen w, length-snoc s b' ') refl

in_buffer :
    (args : List Bytes) (p : Runes) (seen : Bytes) (start : Splitter)
    → ((rest : Runes)
        → split_chars (shell_escape p ++ rest) start
          ≡ split_chars rest (
              at_char args
                (some (encode p))
                false
                0
                false
                (length (seen ++ encode (shell_escape p)))
                (seen ++ encode (shell_escape p))))
    → Word args p seen start
unfolding finish_split last_args arg_here
in_buffer args p seen start run = record {
  reached =
      at_char args (some (encode p)) false 0 false (length (seen ++ encode (shell_escape p)))
        (seen ++ encode (shell_escape p));
  run = run;
  blank = λ rest. blank-after args (encode p) (some (encode p)) _ seen (shell_escape p) rest refl;
  finish = refl;
}

slice_nonempty :
    (seen : Bytes) (p : Runes)
    → p ≢ []
    → IsSafe p
    → ltb (length seen) (length (seen ++ encode p)) ≡ true
unfolding encode
slice_nonempty seen [] h safe = absurd (h refl)
slice_nonempty seen (c ∷ cs) h safe =
    let e = utf8-ascii c (safe-IsOrdinary c safe.0).ascii in
    rw e (lt→ltb _ _ (omega (arith, length-append seen (c ∷ encode cs))))

arg_here-slice :
    (args : List Bytes) (si : ℕ) (seen a : Bytes)
    → ltb si (length seen) ≡ true
    → drop si seen ≡ a
    → arg_here (at_char args none false 0 false si seen) ≡ a
unfolding arg_here
arg_here-slice args si seen a lt d = rw lt d

finish-slice :
    (args : List Bytes) (si : ℕ) (seen a : Bytes)
    → ltb si (length seen) ≡ true
    → drop si seen ≡ a
    → finish_split (at_char args none false 0 false si seen) ≡ check_env (args ++ a ∷ [])
unfolding finish_split last_args
finish-slice args si seen a lt d = rw (lt, d) refl

-- A safe path read as a slice of the command line.
in_slice :
    (args : List Bytes) (p : Runes) (seen : Bytes) (start : Splitter)
    → p ≢ []
    → IsSafe p
    → shell_escape p ≡ p
    → ((rest : Runes)
        → split_chars (p ++ rest) start
          ≡ split_chars rest (at_char args none false 0 false (length seen) (seen ++ encode p)))
    → Word args p seen start
in_slice args p seen start h safe same run =
    let s = at_char args none false 0 false (length seen) (seen ++ encode p) in
    let lt : ltb (length seen) (length (seen ++ encode p)) ≡ true = slice_nonempty seen p h safe in
    let d = drop-append seen (encode p) (length seen) refl in
    record {
      reached = s;
      run = λ rest. rw same (run rest);
      blank = λ rest. rw same (
          blank-after args (encode p) none (length seen) seen p rest
            (arg_here-slice args (length seen) (seen ++ encode p) (encode p) lt d));
      finish = finish-slice args (length seen) (seen ++ encode p) (encode p) lt d;
    }

pub shell_escape-safe : (p : Runes) → need_shell_escape p ≡ false → shell_escape p ≡ p
unfolding shell_escape
shell_escape-safe p h = rw h refl

pub shell_escape-quoted :
    (p : Runes)
    → need_shell_escape p ≡ true
    → shell_escape p ≡ b'\'' ∷ (escape_chars p ++ b'\'' ∷ [])
unfolding shell_escape
shell_escape-quoted p h = rw h refl

-- A quoted path, once a buffer is there.
quoted_run :
    (args : List Bytes) (p : Runes) (seen : Bytes) (start : Splitter)
    → need_shell_escape p ≡ true
    → All (λ c. c ≢ b'\\') p
    → ((rest : Runes)
        → split_chars (b'\'' ∷ rest) start
          ≡ split_chars rest
              (at_char args (some []) false b'\'' false (length seen + 1) (seen ++ b'\'' ∷ [])))
    → Word args p seen start
unfolding encode utf8
quoted_run args p seen start h plain opens =
    let tail = escape_chars p ++ b'\'' ∷ [] in
    let e = shell_escape-quoted p h in
    let assoc : (seen ++ b'\'' ∷ []) ++ encode tail ≡ seen ++ (b'\'' ∷ encode tail) =
      append_assoc seen (b'\'' ∷ []) (encode tail) in
    in_buffer args p seen start (λ rest.
      rw (e, append_assoc (escape_chars p) (b'\'' ∷ []) rest, sym assoc)
        (opens (escape_chars p ++ b'\'' ∷ rest)
          ∙ split-quoted p rest args [] (length seen + 1) (seen ++ b'\'' ∷ []) plain))

-- The first path of the line.
pub first_Word :
    (p : Runes) → All (λ c. c ≢ b'\\') p → Word [] p [] (at_char [] (some []) false 0 false 0 [])
first_Word p plain = elim (Bool-cases (need_shell_escape p)) [
  | inl quoted ↦ quoted_run [] p [] _ quoted plain (λ rest. split-open rest [] [] [])
  | inr safe ↦ in_buffer [] p [] _ (λ rest.
      rw (shell_escape-safe p safe)
        (split-safe_buffer p rest [] [] [] (need_shell_escape-IsSafe p safe)))
]

split-open_blank :
    (rest : Runes) (args : List Bytes) (seen : Bytes)
    → split_chars (b'\'' ∷ rest) (after_blank args seen)
      ≡ split_chars rest
          (at_char args (some []) false b'\'' false (length seen + 1) (seen ++ b'\'' ∷ []))
unfolding split_char plain_char flush_slice utf8
split-open_blank rest args seen = elim (Bool-cases (ltb (length seen) (length seen))) [
  | inl lt ↦ absurd (ground arith)
  | inr ge ↦
      split_chars-step b'\'' rest _
        (at_char args (some []) false b'\'' false (length seen + 1) seen) (rw ge refl)
]

split-safe_blank :
    (p rest : Runes) (args : List Bytes) (seen : Bytes)
    → p ≢ []
    → IsSafe p
    → split_chars (p ++ rest) (after_blank args seen)
      ≡ split_chars rest (at_char args none false 0 false (length seen) (seen ++ encode p))
unfolding split_char encode
split-safe_blank [] rest args seen h safe = absurd (h refl)
split-safe_blank (c ∷ cs) rest args seen h safe =
    let o = safe-IsOrdinary c safe.0 in
    split_chars-step c (cs ++ rest) _ _ (plain_char-slice c args true (length seen) seen o)
    ∙ rw (sym (append_assoc seen (utf8 c) (encode cs)))
        (split-safe_slice cs rest args (length seen) (seen ++ utf8 c) safe.1)

-- A path after a blank.
pub next_Word :
    (args : List Bytes) (p : Runes) (seen : Bytes)
    → p ≢ []
    → All (λ c. c ≢ b'\\') p
    → Word args p seen (after_blank args seen)
next_Word args p seen h plain = elim (Bool-cases (need_shell_escape p)) [
  | inl quoted ↦ quoted_run args p seen _ quoted plain (λ rest. split-open_blank rest args seen)
  | inr safe ↦
      let s = need_shell_escape-IsSafe p safe in
      in_slice args p seen _ h s (shell_escape-safe p safe)
        (λ rest. split-safe_blank p rest args seen h s)
]
