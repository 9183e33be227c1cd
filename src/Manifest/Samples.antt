-- ===== src/Manifest/Samples.antt =====
-- A small manifest, its chunks, its bindings and its strings.
use siso.Common.{
  ℕ, ◌+◌, ◌/◌, ◌^◌, ◌<◌, ◌≡◌, ◌≢◌, refl, true, false, List, [], ◌∷◌, ◌++◌, Option, none, some,
  Bytes, Bool, codes, length, All, arith,
}
use siso.Manifest.Lexer.{next_line}
use siso.Manifest.Chunk.{
  var_decl, build, Chunk, parsed, out_of_fuel, parse_lines, parse_chunk, new_chunk, no_counts,
  index_byte, is_statement, count_kind, declaration, keyword_line, statement_line, parse_line,
}
use siso.Manifest.Pieces.{split_into_chunks, parse_chunks}
use siso.Manifest.Boundary.{ends}
use siso.Manifest.Refinement.{parse_chunks-split_into_chunks}
use siso.Manifest.Hang.{parse_chunk-ends, parse_lines-stuck}
use siso.Manifest.Kept.{parse_chunk-Spans, parse_chunk-Covered}
use siso.Manifest.Extents.{Spans, Covered}
use siso.Manifest.Bindings.{
  EvalString, Binding, lookup_list, bucket_count, new_shards, get, set_bindings,
}
use siso.Manifest.Latest.{IsLatest, lookup_list-IsLatest}
use siso.Manifest.Shards.{get-set_bindings, bucket_count-pow}
use siso.Manifest.Rules.{Rule, run, start}
use siso.Manifest.Duplicates.{IsSound, run-IsSound}
use siso.Manifest.Eval.{
  Value, text, cycle, eval_loop, evaluate, evaluate_append, count_escapes, escape_length,
  count_simple, parse_eval_string,
}
use siso.Manifest.Templates.{Piece, lit, ref, escape, print_pieces, IsName}
use siso.Manifest.Expansion.{
  ends_lf, value_in, evaluate_append-cycle, evaluate_append-print_pieces, evaluate-escape,
}
use siso.Manifest.Blanks.{eval_loop-blanks}
use siso.Manifest.PathLists.{IsPath, Values}
use siso.Manifest.Statements.{build_line, parse_build_line}
use siso.Manifest.BuildLines.{IsRuleName}
use siso.Manifest.Written.{BuildText, IsBuildText, print_build}
use siso.Manifest.BuildTexts.{parse_build_line-print_build}

abbrev manifest : Bytes
manifest = codes "x=1\nbuild a: r\n"

abbrev whole : Chunk
whole = record {
  statements =
      record { kind = var_decl; s = 0; v = 1; e = 4 }
      ∷ record { kind = build; s = 4; v = 10; e = 15 }
      ∷ [];
  last = build;
  counts = record no_counts { nvar = 1; nbuild = 1 };
}

manifest-parsed : parse_chunk manifest 0 (length manifest) ≡ parsed whole
unfolding parse_chunk parse_lines parse_line next_line statement_line keyword_line is_statement
    declaration index_byte count_kind
manifest-parsed = refl

parse_chunks-split_into_chunks_example :
    (cs : List (ℕ × ℕ)) × (split_into_chunks 2 manifest ≡ some cs)
    × (parse_chunks manifest cs ≡ some (whole.statements))
parse_chunks-split_into_chunks_example =
    parse_chunks-split_into_chunks 2 manifest whole manifest-parsed

manifest-ends : ends 0 0 manifest ≡ true
unfolding ends
manifest-ends = refl

parse_chunk-ends_example : parse_chunk manifest 4 (length manifest) ≢ out_of_fuel
parse_chunk-ends_example = parse_chunk-ends manifest 4 (length manifest) manifest-ends

remark-unended : index_byte b'\n' (codes " the end") ≡ none
unfolding index_byte
remark-unended = refl

parse_lines-stuck_example : parse_lines 100 9 0 (b'#' ∷ codes " the end") new_chunk ≡ out_of_fuel
parse_lines-stuck_example =
    parse_lines-stuck 100 9 0 (codes " the end") new_chunk (omega arith) remark-unended

parse_chunk-Spans_example : Spans 0 (whole.statements) (length manifest)
parse_chunk-Spans_example =
    parse_chunk-Spans manifest 0 (length manifest) whole (omega arith) manifest-parsed

parse_chunk-Covered_example : Covered (whole.statements) (whole.counts)
parse_chunk-Covered_example = parse_chunk-Covered manifest 0 (length manifest) whole manifest-parsed

abbrev cflags : Bytes
cflags = codes "cflags"

-- `cflags` is set twice.
abbrev settings : List Binding
settings =
    record { name = cflags; value = record { pos = 3; v = codes "-g"; esc = 0 } }
    ∷ record { name = codes "cc"; value = record { pos = 1; v = codes "clang"; esc = 0 } }
    ∷ record { name = cflags; value = record { pos = 0; v = codes "-O"; esc = 0 } }
    ∷ []

lookup_list-IsLatest_example :
    IsLatest (some 2) cflags settings (lookup_list (some 2) cflags settings)
lookup_list-IsLatest_example = lookup_list-IsLatest (some 2) cflags settings

get-set_bindings_example :
    get length none cflags (set_bindings length settings (new_shards 4))
    ≡ lookup_list none cflags settings
get-set_bindings_example = get-set_bindings length 4 none cflags settings (omega arith)

bucket_count-pow_example :
    (r : ℕ) × (k : ℕ) × ((bucket_count (100 + 1) 1 100 ≡ some r) × (r ≡ 2 ^ k) × (100 / r < 8))
bucket_count-pow_example = bucket_count-pow 100

-- Two files define the same rule at once.
abbrev both : List Rule
both =
    record { name = codes "cc"; bindings = [] }
    ∷ record { name = codes "cc"; bindings = settings }
    ∷ []

abbrev mixed : List ℕ
mixed = 0 ∷ 1 ∷ 0 ∷ 1 ∷ 1 ∷ []

run-IsSound_example : IsSound (run mixed (start both))
run-IsSound_example = run-IsSound both mixed

abbrev scope : ℕ → Bytes → Option EvalString
scope pos name = lookup_list (some pos) name settings

-- `-I x ${cflags}`
abbrev pieces : List Piece
pieces = lit (codes "-I x ") ∷ ref cflags ∷ []

pieces-IsName : All IsName pieces
unfolding IsName index_byte
pieces-IsName = (tt, (refl, tt))

pieces-escapes : count_escapes 0 (print_pieces pieces) ≡ some 3
unfolding count_escapes escape_length count_simple index_byte print_pieces escape
pieces-escapes = refl

evaluate_append-print_pieces_example :
    evaluate_append scope 256 (record { pos = 9; v = print_pieces pieces; esc = 3 })
    ≡ value_in scope 255 9 pieces
evaluate_append-print_pieces_example =
    evaluate_append-print_pieces scope 255 9 3 pieces pieces-IsName pieces-escapes

name-ends : ends_lf (codes "C: $x") ≡ false
unfolding ends_lf
name-ends = refl

evaluate-escape_example :
    (x : EvalString) × (parse_eval_string (escape (codes "C: $x")) ≡ some x)
    × (evaluate scope x ≡ text (codes "C: $x"))
evaluate-escape_example = evaluate-escape scope b'C' (codes ": $x") refl name-ends

-- `cflags = ${cflags}` in a rule, where no position is checked.
abbrev itself : EvalString
itself = record { pos = 0; v = print_pieces (ref cflags ∷ []); esc = 1 }

abbrev own_scope : ℕ → Bytes → Option EvalString
own_scope pos name = some itself

cflags-braces : index_byte b'}' cflags ≡ none
unfolding index_byte
cflags-braces = refl

evaluate_append-cycle_example : evaluate_append own_scope 256 itself ≡ cycle
evaluate_append-cycle_example = evaluate_append-cycle own_scope 256 0 cflags cflags-braces refl

abbrev no_values : Bytes → Value
no_values name = text []

eval_loop-blanks_example :
    (eval_loop no_values 0 (b'$' ∷ b'\n' ∷ (codes "  " ++ codes "xy"))
      ≡ eval_loop no_values 0 (codes "xy"))
    × (eval_loop no_values 0 (b'$' ∷ b'\n' ∷ (codes "  " ++ codes "x")) ≡ text (codes "  x"))
eval_loop-blanks_example =
    eval_loop-blanks no_values (codes "  ") [] b'x' b'y' (refl, (refl, tt)) refl refl

-- `a$ b | c: cc x$:y | z || s |@ v`
abbrev compile : BuildText
compile = record {
  outs = codes "a b" ∷ [];
  implicit_outs = codes "c" ∷ [];
  rule_name = codes "cc";
  ins = codes "x:y" ∷ [];
  implicit = codes "z" ∷ [];
  order_only = codes "s" ∷ [];
  validations = codes "v" ∷ [];
}

compile-IsBuildText : IsBuildText compile
unfolding IsBuildText IsPath IsRuleName
compile-IsBuildText = (
  omega arith,
  (refl, (refl, tt)),
  ((refl, (refl, (refl, (refl, tt)))), tt),
  ((refl, (refl, tt)), tt),
  ((refl, (refl, (refl, (refl, tt)))), tt),
  ((refl, (refl, tt)), tt),
  ((refl, (refl, tt)), tt),
  ((refl, (refl, tt)), tt),
)

abbrev all_known : Bytes → Bool
all_known rule_name = true

parse_build_line-print_build_example :
    (outs : List EvalString) × (ins : List EvalString) × (validations : List EvalString)
    × (parse_build_line all_known (print_build compile)
        ≡ build_line (record {
          outs = outs;
          implicit_outs = 1;
          rule_name = codes "cc";
          ins = ins;
          implicit = 1;
          order_only = 1;
          validations = validations;
        }))
    × Values scope outs (codes "a b" ∷ codes "c" ∷ [])
    × Values scope ins (codes "x:y" ∷ codes "z" ∷ codes "s" ∷ [])
    × Values scope validations (codes "v" ∷ [])
parse_build_line-print_build_example =
    parse_build_line-print_build scope all_known compile compile-IsBuildText refl
