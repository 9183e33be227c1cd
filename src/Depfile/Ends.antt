-- ===== src/Depfile/Ends.antt =====
-- `ParseDeps` comes to an end on a depfile without carriage returns.
use mathlib.Core.Option.{some-injective, none-ne-some}
use mathlib.Core.Path.{subst}
use siso.Common.{
  ℕ, zero, suc, ◌+◌, ◌≤◌, ◌<◌, ◌≡◌, ◌≢◌, refl, ap, Bool, true, false, List, [], ◌∷◌, Option, none,
  some, Bytes, bytes_eq, ◌==◌, if◌then◌else◌, Bool-cases, Option-cases, inl, inr, length, All,
  arith,
}
use siso.Depfile.Tokens.{next_token}
use siso.Depfile.Parse.{
  Parsed, missing_output, multiple_colon, out_of_fuel, all_blank, split_colon, start_line,
  add_input, parse, parse_deps,
}
use siso.Depfile.Progress.{NoReturn, next_token-Rest}

-- The bytes after the first colon.
split_colon-Rest :
    (s : Bytes) (r : Bytes × Bytes)
    → NoReturn s
    → split_colon s ≡ some r
    → (length r.1 + 1 ≤ length s) × NoReturn r.1
unfolding split_colon
split_colon-Rest [] r h e = cc
split_colon-Rest (c ∷ s) r h e = elim (Bool-cases (c == b':')) [
  | inl here ↦
      let f : ([], s) ≡ r = some-injective _ _ (rw here at e) in
      (
        omega (arith, ap (λ (q : Bytes × Bytes). length q.1) f),
        subst (λ (q : Bytes × Bytes). NoReturn q.1) f h.1,
      )
  | inr later ↦ elim (Option-cases (split_colon s)) [
    | inl absent ↦ let g = rw (split_colon, later, absent) at e in absurd (none-ne-some r g)
    | inr ((out, t), there) ↦
        let f : (c ∷ out, t) ≡ r = some-injective _ _ (rw (split_colon, later, there) at e) in
        let ih = split_colon-Rest s (out, t) h.1 there in
        (
          omega (arith, ih.0, ap (λ (q : Bytes × Bytes). length q.1) f),
          subst (λ (q : Bytes × Bytes). NoReturn q.1) f ih.1,
        )
  ]
]

-- A property of both branches.
pick_ends :
    (b : Bool) {x y : Parsed}
    → x ≢ out_of_fuel
    → y ≢ out_of_fuel
    → (if b then x else y) ≢ out_of_fuel
pick_ends true p q = p
pick_ends false p q = q

start_line-ends :
    (r : Option (Bytes × Bytes)) (inputs : List Bytes) (line : Bytes → Parsed)
    → ((out t : Bytes) → r ≡ some (out, t) → line t ≢ out_of_fuel)
    → start_line r inputs line ≢ out_of_fuel
unfolding start_line
start_line-ends none inputs line h = λ e. cc
start_line-ends (some (out, t)) inputs line h =
    pick_ends (all_blank 0 out) {x = missing_output} (λ e. cc) (h out t refl)

parse-ends :
    (fuel : ℕ) (in_line : Bool) (s : Bytes) (inputs : List Bytes)
    → length s < fuel
    → NoReturn s
    → parse fuel in_line s inputs ≢ out_of_fuel
unfolding parse
parse-ends zero in_line s inputs lt h = absurd (omega (arith, lt))
parse-ends (suc fuel) in_line [] inputs lt h = λ e. cc
parse-ends (suc fuel) false (c ∷ s) inputs lt h =
    start_line-ends (split_colon (c ∷ s)) inputs (λ t. parse fuel true t inputs)
      (λ out t e.
        let r = split_colon-Rest (c ∷ s) (out, t) h e in
        parse-ends fuel true t inputs (omega (arith, r.0, lt)) r.1)
parse-ends (suc fuel) true (c ∷ s) inputs lt h =
    let n = next_token-Rest c s h in
    let token = (next_token (c ∷ s)).0 in
    let t = (next_token (c ∷ s)).1 in
    let go =
      λ (b : Bool) (is : List Bytes). parse-ends fuel b t is (omega (arith, n.short, lt)) n.plain in
    pick_ends (bytes_eq token []) (go true inputs) (
      pick_ends (bytes_eq token (b':' ∷ [])) {x = multiple_colon} (λ e. cc)
        (pick_ends (bytes_eq token (b'\n' ∷ [])) (go false inputs)
          (go true (add_input token inputs))))

-- `ParseDeps` comes to an end, with its inputs or an error, on every depfile that has no carriage return.
pub parse_deps-ends : (b : Bytes) → All (λ c. c ≢ b'\r') b → parse_deps b ≢ out_of_fuel
unfolding parse_deps
parse_deps-ends b h = parse-ends (length b + 1) false b [] (omega arith) h
