-- ===== src/Shell/Trim.antt =====
-- The words of a line of escaped paths begin and end with no space, so that trimming leaves it alone.
use siso.Common.{
  ℕ, ◌≡◌, ◌≢◌, refl, sym, ap, ◌∙◌, true, false, List, [], ◌∷◌, ◌++◌, append_assoc, append-nil,
  Bool-cases, inl, inr, All,
}
use siso.Shell.Runes.{Runes, is_space, trim_left, trim_right, trim_space}
use siso.Shell.Escape.{need_shell_escape, escape_chars, shell_escape, join, path_list}
use siso.Shell.Words.{IsSafe, safe-IsOrdinary}
use siso.Shell.Word.{need_shell_escape-IsSafe, shell_escape-safe, shell_escape-quoted}

trim_right-cons :
    (c : ℕ) (cs : Runes) (d : ℕ) (ds : Runes)
    → trim_right cs ≡ d ∷ ds
    → trim_right (c ∷ cs) ≡ c ∷ d ∷ ds
unfolding trim_right
trim_right-cons c cs d ds e = rw (trim_right, e) refl

pub trim_right-one : (c : ℕ) → is_space c ≡ false → trim_right (c ∷ []) ≡ c ∷ []
unfolding trim_right
trim_right-one c h = rw h refl

pub trim_right-front :
    (xs : Runes) (d : ℕ) (ds : Runes)
    → trim_right (d ∷ ds) ≡ d ∷ ds
    → trim_right (xs ++ d ∷ ds) ≡ xs ++ d ∷ ds
trim_right-front [] d ds h = h
trim_right-front (x ∷ []) d ds h = trim_right-cons x (d ∷ ds) d ds h
trim_right-front (x ∷ y ∷ ys) d ds h =
    trim_right-cons x (y ∷ (ys ++ d ∷ ds)) y (ys ++ d ∷ ds) (trim_right-front (y ∷ ys) d ds h)

pub trim_left-head : (c : ℕ) (cs : Runes) → is_space c ≡ false → trim_left (c ∷ cs) ≡ c ∷ cs
unfolding trim_left
trim_left-head c cs h = rw (trim_left, h) refl

-- Nothing is trimmed off `w` at the start or the end of a longer string.
pub record IsTight (w : Runes) : Type 0 where
  pub left : (rest : Runes) → trim_left (w ++ rest) ≡ w ++ rest
  pub right : (front : Runes) → trim_right (front ++ w) ≡ front ++ w

safe-trim_right : (c : ℕ) (cs : Runes) → IsSafe (c ∷ cs) → trim_right (c ∷ cs) ≡ c ∷ cs
safe-trim_right c [] h = trim_right-one c (safe-IsOrdinary c h.0).space
safe-trim_right c (d ∷ ds) h = trim_right-cons c (d ∷ ds) d ds (safe-trim_right d ds h.1)

safe-IsTight : (p : Runes) → p ≢ [] → IsSafe p → IsTight p
safe-IsTight [] h safe = absurd (h refl)
safe-IsTight (c ∷ cs) h safe = record {
  left = λ rest. trim_left-head c (cs ++ rest) (safe-IsOrdinary c safe.0).space;
  right = λ front. trim_right-front front c cs (safe-trim_right c cs safe);
}

quoted-IsTight : (w : Runes) → IsTight (b'\'' ∷ (w ++ b'\'' ∷ []))
unfolding is_space
quoted-IsTight w = record {
  left = λ rest. trim_left-head b'\'' ((w ++ b'\'' ∷ []) ++ rest) refl;
  right = λ front.
      trim_right-front front b'\'' (w ++ b'\'' ∷ [])
        (trim_right-front (b'\'' ∷ w) b'\'' [] (trim_right-one b'\'' refl));
}

pub shell_escape-IsTight : (p : Runes) → p ≢ [] → IsTight (shell_escape p)
shell_escape-IsTight p h = elim (Bool-cases (need_shell_escape p)) [
  | inl quoted ↦ rw (shell_escape-quoted p quoted) (quoted-IsTight (escape_chars p))
  | inr safe ↦ rw (shell_escape-safe p safe) (safe-IsTight p h (need_shell_escape-IsSafe p safe))
]

abbrev pub line : Runes → List Runes → Runes
line p ps = path_list true (p ∷ ps) (b' ' ∷ [])

pub line-one : (p : Runes) → line p [] ≡ shell_escape p
unfolding path_list join
line-one p = refl

pub line-cons :
    (p q : Runes) (ps : List Runes) → line p (q ∷ ps) ≡ shell_escape p ++ (b' ' ∷ line q ps)
unfolding path_list join
line-cons p q ps = refl

line-IsTight : (p : Runes) (ps : List Runes) → All (λ q. q ≢ []) (p ∷ ps) → IsTight (line p ps)
line-IsTight p [] h = rw (line-one p) (shell_escape-IsTight p h.0)
line-IsTight p (q ∷ ps) h =
    let w = shell_escape p in
    let tail = b' ' ∷ line q ps in
    let ih = line-IsTight q ps h.1 in
    rw (line-cons p q ps) (record {
      left =
          λ rest. rw (append_assoc w tail rest) ((shell_escape-IsTight p h.0).left (tail ++ rest));
      right = λ front.
          rw
            (
              sym (append_assoc w (b' ' ∷ []) (line q ps)),
              sym (append_assoc front (w ++ b' ' ∷ []) (line q ps)),
            )
            (ih.right (front ++ (w ++ b' ' ∷ [])));
    })

pub trim_space-line :
    (p : Runes) (ps : List Runes) → All (λ q. q ≢ []) (p ∷ ps) → trim_space (line p ps) ≡ line p ps
unfolding trim_space
trim_space-line p ps h =
    let t = line-IsTight p ps h in
    let left = rw (append-nil (line p ps)) at (t.left []) in ap trim_right left ∙ t.right []
