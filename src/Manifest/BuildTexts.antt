-- ===== src/Manifest/BuildTexts.antt =====
-- A build statement with all its parts is written and parsed (toolsupport/ninjautil/chunk_parser.go).
use siso.Common.{
  ℕ, ◌<◌, ◌≡◌, refl, ap, ◌∙◌, suc, length-append, Bool, true, List, [], ◌∷◌, ◌++◌, map, Option,
  Bytes, length, All, arith,
}
use siso.Manifest.Bindings.{EvalString}
use siso.Manifest.Eval.{text, evaluate}
use siso.Manifest.Paths.{ident}
use siso.Manifest.PathLists.{IsPath, print_paths, Values, parse_path_list-print_paths}
use siso.Manifest.Statements.{
  build_line, after_token, parse_inputs, parse_rule, parse_colon, parse_build_line,
}
use siso.Manifest.BuildLines.{
  IsRuleName, token-is_stop, token-Ended, blank-Ended, line-Ended, line-is_stop, blank-is_stop,
  pipe-token, pipe2-token, pipe_at-token, colon-token, pipe_end-print_paths, blank-print_paths,
}
use siso.Manifest.Written.{
  BuildText, print_validations, print_order_only, print_implicit, print_rule, print_build,
  IsBuildText, named, Values-append, numbered-numbers,
}

module _ (env : ℕ → Bytes → Option EvalString) (known : Bytes → Bool) (b : BuildText) where
  -- The parsed inputs.
  abbrev Inputs : List EvalString → List EvalString → List EvalString → List EvalString → Type 0
  Inputs ins implicit order_only validations =
      Values env ins (b.ins)
      × Values env implicit (b.implicit)
      × Values env order_only (b.order_only)
      × Values env validations (b.validations)

  parse_inputs-print :
      (outs : List EvalString) (n : ℕ) (rule_name : Bytes)
      → All IsPath (b.ins)
      → All IsPath (b.implicit)
      → All IsPath (b.order_only)
      → All IsPath (b.validations)
      → (ins : List EvalString) × (implicit : List EvalString) × (order_only : List EvalString)
        × (validations : List EvalString) × (parse_inputs outs n rule_name
              (print_paths (b.ins) (print_implicit b))
            ≡ build_line (record {
              outs = outs;
              implicit_outs = n;
              rule_name = rule_name;
              ins = ins ++ (implicit ++ order_only);
              implicit = length implicit;
              order_only = length order_only;
              validations = validations;
            }))
        × Inputs ins implicit order_only validations
  unfolding parse_inputs after_token
  parse_inputs-print outs n rule_name h1 h2 h3 h4 =
      let s2 = print_paths (b.implicit) (print_order_only b) in
      let s3 = print_paths (b.order_only) (print_validations b) in
      let s4 = print_paths (b.validations) (b'\n' ∷ []) in
      let (x1, e1, v1) =
        parse_path_list-print_paths env (b.ins) (print_implicit b) (b'|' ∷ s2) h1 (blank-is_stop _)
          (blank-Ended b'|' s2 refl) in
      let (x2, e2, v2) =
        parse_path_list-print_paths env (b.implicit) (print_order_only b) (b'|' ∷ b'|' ∷ s3) h2
          (blank-is_stop _) (blank-Ended b'|' (b'|' ∷ s3) refl) in
      let (x3, e3, v3) =
        parse_path_list-print_paths env (b.order_only) (print_validations b) (b'|' ∷ b'@' ∷ s4) h3
          (blank-is_stop _) (blank-Ended b'|' (b'@' ∷ s4) refl) in
      let (x4, e4, v4) =
        parse_path_list-print_paths env (b.validations) (b'\n' ∷ []) [] h4 line-is_stop
          line-Ended in
      let p2 = pipe-token s2 (pipe_end-print_paths (b.implicit) (print_order_only b) refl) in
      (
        x1,
        x2,
        x3,
        x4,
        rw (parse_inputs, e1, p2, e2, pipe2-token s3, e3, pipe_at-token s4, e4) refl,
        (v1, v2, v3, v4),
      )

  parse_colon-some :
      (outs : List EvalString) (n : ℕ) (s : Bytes)
      → 0 < length outs
      → parse_colon known outs n (true, s) ≡ parse_rule known outs n (ident s)
  unfolding parse_colon
  parse_colon-some [] n s h = absurd (omega arith)
  parse_colon-some (x ∷ outs) n s h = refl

  length-Values :
      (xs : List EvalString) (ps : List Bytes) → Values env xs ps → length xs ≡ length ps
  length-Values [] [] h = refl
  length-Values [] (p ∷ ps) h = cc
  length-Values (x ∷ xs) [] h = cc
  length-Values (x ∷ xs) (p ∷ ps) h =
      let q : map (evaluate env) xs ≡ map text ps = cc in ap suc (length-Values xs ps q)

  -- What is behind the colon.
  parse_rule-print :
      (outs : List EvalString) (n : ℕ)
      → IsRuleName (b.rule_name)
      → known (b.rule_name) ≡ true
      → parse_rule known outs n
          (ident (b' ' ∷ (b.rule_name ++ print_paths (b.ins) (print_implicit b))))
        ≡ parse_inputs outs n (b.rule_name) (print_paths (b.ins) (print_implicit b))
  unfolding parse_rule
  parse_rule-print outs n h k =
      let (w, e) =
        blank-print_paths (b.ins) (b'|' ∷ print_paths (b.implicit) (print_order_only b)) in
      named known (b.rule_name) (print_paths (b.ins) (print_implicit b)) w outs n e h k

-- A build statement that is written with all its parts is parsed, and gives the parts back in every scope: the
-- parsed outputs, inputs and validations have the written paths for their values, and the numbers of the
-- implicit and the order-only ones are those written. There is an output, a path is not empty, does not start
-- with white space and has no tab, line break, bar or zero byte, and the name of the rule is not empty and has
-- characters of names only.
pub parse_build_line-print_build :
    (env : ℕ → Bytes → Option EvalString) (known : Bytes → Bool) (b : BuildText)
    → IsBuildText b
    → known (b.rule_name) ≡ true
    → (outs : List EvalString) × (ins : List EvalString) × (validations : List EvalString)
      × (parse_build_line known (print_build b)
          ≡ build_line (record {
            outs = outs;
            implicit_outs = length (b.implicit_outs);
            rule_name = b.rule_name;
            ins = ins;
            implicit = length (b.implicit);
            order_only = length (b.order_only);
            validations = validations;
          }))
      × Values env outs (b.outs ++ b.implicit_outs)
      × Values env ins (b.ins ++ (b.implicit ++ b.order_only))
      × Values env validations (b.validations)
unfolding parse_build_line after_token IsBuildText
parse_build_line-print_build env known b (some_out, rule, h1, h2, h3, h4, h5, h6) found =
    let s0 = print_paths (b.implicit_outs) (print_rule b) in
    let (x, e, v) =
      parse_path_list-print_paths env (b.outs) (b' ' ∷ b'|' ∷ s0) (b'|' ∷ s0) h1 (blank-is_stop _)
        (blank-Ended b'|' s0 refl) in
    let (y, f, w) =
      parse_path_list-print_paths env (b.implicit_outs) (print_rule b) (print_rule b) h2
        (token-is_stop b':' _ refl) (token-Ended b':' _ refl) in
    let p = pipe-token s0 (pipe_end-print_paths (b.implicit_outs) (print_rule b) refl) in
    let m = length-Values env known b y (b.implicit_outs) w in
    let l = length-Values env known b x (b.outs) v in
    let a = length-append x y in
    let (x1, x2, x3, x4, g, (v1, v2, v3, v4)) =
      parse_inputs-print env known b (x ++ y) (length y) (b.rule_name) h3 h4 h5 h6 in
    let c = colon-token (b' ' ∷ (b.rule_name ++ print_paths (b.ins) (print_implicit b))) in
    let q =
      parse_colon-some env known b (x ++ y) (length y) _ (omega arith)
      ∙ parse_rule-print env known b (x ++ y) (length y) rule found
      ∙ g in
    let m2 = length-Values env known b x2 (b.implicit) v2 in
    let m3 = length-Values env known b x3 (b.order_only) v3 in
    (
      x ++ y,
      x1 ++ (x2 ++ x3),
      x4,
      numbered-numbers (parse_build_line known (print_build b)) (x ++ y) (x1 ++ (x2 ++ x3)) x4
          (b.rule_name) (length y) (length x2) (length x3) (length (b.implicit_outs))
          (length (b.implicit)) (length (b.order_only)) m m2 m3
          (rw (parse_build_line, e, p, f, c) q),
      Values-append env x y (b.outs) (b.implicit_outs) v w,
      Values-append env x1 (x2 ++ x3) (b.ins) (b.implicit ++ b.order_only) v1
          (Values-append env x2 x3 (b.implicit) (b.order_only) v2 v3),
      v4,
    )
