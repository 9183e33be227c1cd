-- ===== src/Manifest/Statements.antt =====
-- The paths of a build statement: the first part of `parseBuild` in toolsupport/ninjautil/chunk_parser.go.
use siso.Common.{ℕ, Bool, true, false, List, [], ◌∷◌, ◌++◌, Option, none, some, Bytes, length}
use siso.Manifest.Bindings.{EvalString}
use siso.Manifest.Paths.{parse_path_list, ident, colon, pipe, pipe2, pipe_at}

-- The outputs and inputs with the number of the last ones that are implicit, and of the last inputs that are
-- only for the order.
pub record BuildPaths : Type 0 where
  pub outs : List EvalString
  pub implicit_outs : ℕ
  pub rule_name : Bytes
  pub ins : List EvalString
  pub implicit : ℕ
  pub order_only : ℕ
  pub validations : List EvalString

pub data BuildLine : Type 0 where
  build_line : BuildPaths → BuildLine
  no_outputs no_colon no_rule unknown_rule panicked : BuildLine

-- A list that is there if the token is: its paths, and the rest.
unfoldable pub after_token : Bool × Bytes → Option (List EvalString × Bytes)
after_token (false, s) = some ([], s)
after_token (true, s) = parse_path_list s

abbrev pub and_then {ℓ} :
    {A : Type ℓ} → Option (List EvalString × Bytes) → A → (List EvalString → Bytes → A) → A
and_then none e f = e
and_then (some (xs, s)) e f = f xs s

-- The inputs, behind the name of the rule.
unfoldable pub parse_inputs : List EvalString → ℕ → Bytes → Bytes → BuildLine
parse_inputs outs implicit_outs rule_name s = and_then (parse_path_list s) panicked (λ ins s1.
    and_then (after_token (pipe s1)) panicked (λ implicit s2.
      and_then (after_token (pipe2 s2)) panicked (λ order_only s3.
        and_then (after_token (pipe_at s3)) panicked (λ validations s4. build_line (record {
          outs = outs;
          implicit_outs = implicit_outs;
          rule_name = rule_name;
          ins = ins ++ (implicit ++ order_only);
          implicit = length implicit;
          order_only = length order_only;
          validations = validations;
        })))))

-- `known` says whether `lookupRule` of the scope finds a rule.
unfoldable pub parse_rule :
    (Bytes → Bool) → List EvalString → ℕ → Option (Bytes × Bytes) → BuildLine
parse_rule known outs implicit_outs none = no_rule
parse_rule known outs implicit_outs (some (rule_name, s)) = elim (known rule_name) [
  | false ↦ unknown_rule
  | true ↦ parse_inputs outs implicit_outs rule_name s
]

unfoldable pub parse_colon : (Bytes → Bool) → List EvalString → ℕ → Bool × Bytes → BuildLine
parse_colon known [] n r = no_outputs
parse_colon known (x ∷ outs) n (false, s) = no_colon
parse_colon known (x ∷ outs) n (true, s) = parse_rule known (x ∷ outs) n (ident s)

-- The line behind `build`.
unfoldable pub parse_build_line : (Bytes → Bool) → Bytes → BuildLine
parse_build_line known s = and_then (parse_path_list s) panicked (λ outs s1.
    and_then (after_token (pipe s1)) panicked (λ implicit_outs s2.
      parse_colon known (outs ++ implicit_outs) (length implicit_outs) (colon s2)))
