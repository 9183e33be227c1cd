-- ===== src/Manifest/Written.antt =====
-- A build statement as it is written (toolsupport/ninjautil/chunk_parser.go).
use siso.Common.{
  ℕ, ◌<◌, ◌≡◌, refl, ap, ◌∙◌, Bool, true, List, [], ◌∷◌, ◌++◌, map, Option, Bytes, length, All,
}
use siso.Manifest.Bindings.{EvalString}
use siso.Manifest.Eval.{text, evaluate}
use siso.Manifest.Paths.{ident}
use siso.Manifest.PathLists.{IsPath, print_paths, Values}
use siso.Manifest.Statements.{BuildLine, build_line, parse_inputs, parse_rule}
use siso.Manifest.BuildLines.{IsRuleName, ident-name}

-- The paths and the rule of a build statement.
pub record BuildText : Type 0 where
  pub outs : List Bytes
  pub implicit_outs : List Bytes
  pub rule_name : Bytes
  pub ins : List Bytes
  pub implicit : List Bytes
  pub order_only : List Bytes
  pub validations : List Bytes

-- The parts of the line, from the last one on.
abbrev pub print_validations : BuildText → Bytes
print_validations b = b' ' ∷ b'|' ∷ b'@' ∷ print_paths (b.validations) (b'\n' ∷ [])

abbrev pub print_order_only : BuildText → Bytes
print_order_only b = b' ' ∷ b'|' ∷ b'|' ∷ print_paths (b.order_only) (print_validations b)

abbrev pub print_implicit : BuildText → Bytes
print_implicit b = b' ' ∷ b'|' ∷ print_paths (b.implicit) (print_order_only b)

abbrev pub print_rule : BuildText → Bytes
print_rule b = b':' ∷ b' ' ∷ (b.rule_name ++ print_paths (b.ins) (print_implicit b))

-- The line behind `build`.
abbrev pub print_build : BuildText → Bytes
print_build b = print_paths (b.outs) (b' ' ∷ b'|' ∷ print_paths (b.implicit_outs) (print_rule b))

-- There is an output, and the paths and the name of the rule can be written.
unfoldable pub IsBuildText : BuildText → Type 0
IsBuildText b =
    (0 < length (b.outs))
    × IsRuleName (b.rule_name)
    × All IsPath (b.outs)
    × All IsPath (b.implicit_outs)
    × All IsPath (b.ins)
    × All IsPath (b.implicit)
    × All IsPath (b.order_only)
    × All IsPath (b.validations)

-- The name of a rule in front of a text that starts with a blank.
pub named :
    (known : Bytes → Bool) (r t w : Bytes) (outs : List EvalString) (n : ℕ)
    → t ≡ b' ' ∷ w
    → IsRuleName r
    → known r ≡ true
    → parse_rule known outs n (ident (b' ' ∷ (r ++ t))) ≡ parse_inputs outs n r t
unfolding parse_rule
named known r t w outs n e h k = rw (e, ident-name r w h, parse_rule, k) refl

pub Values-append :
    (env : ℕ → Bytes → Option EvalString) (xs ys : List EvalString) (ps qs : List Bytes)
    → Values env xs ps
    → Values env ys qs
    → Values env (xs ++ ys) (ps ++ qs)
Values-append env [] ys [] qs h k = k
Values-append env [] ys (p ∷ ps) qs h k = absurd cc
Values-append env (x ∷ xs) ys [] qs h k = absurd cc
Values-append env (x ∷ xs) ys (p ∷ ps) qs h k =
    let q : map (evaluate env) xs ≡ map text ps = cc in
    let r : evaluate env x ≡ text p = cc in
    ap (λ z. z ∷ map (evaluate env) (xs ++ ys)) r
    ∙ ap (λ z. text p ∷ z) (Values-append env xs ys ps qs q k)

-- A line with these parts.
abbrev pub numbered :
    List EvalString → List EvalString → List EvalString → Bytes → ℕ → ℕ → ℕ → BuildLine
numbered outs ins validations rule_name n m k = build_line (record {
  outs = outs;
  implicit_outs = n;
  rule_name = rule_name;
  ins = ins;
  implicit = m;
  order_only = k;
  validations = validations;
})

-- A line with other names for its numbers.
pub numbered-numbers :
    (l : BuildLine) (outs ins validations : List EvalString) (rule_name : Bytes)
    (n1 m1 k1 n2 m2 k2 : ℕ)
    → n1 ≡ n2
    → m1 ≡ m2
    → k1 ≡ k2
    → l ≡ numbered outs ins validations rule_name n1 m1 k1
    → l ≡ numbered outs ins validations rule_name n2 m2 k2
numbered-numbers l outs ins validations rule_name n1 m1 k1 n2 m2 k2 en em ek h =
    h
    ∙ ap (λ n. numbered outs ins validations rule_name n m1 k1) en
    ∙ ap (λ m. numbered outs ins validations rule_name n2 m k1) em
    ∙ ap (λ k. numbered outs ins validations rule_name n2 m2 k) ek
