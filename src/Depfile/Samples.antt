-- ===== src/Depfile/Samples.antt =====
-- Depfiles, and the theorems of the Depfile modules at them.
use siso.Common.{◌≡◌, ◌≢◌, refl, true, false, [], ◌∷◌, Bytes, codes, bytes_eq, arith}
use siso.Depfile.Tokens.{
  starts_lf, starts_crlf, skip_spaces, colon, after_spaces, take_token, next_token,
}
use siso.Depfile.Parse.{
  parsed, out_of_fuel, blank_width, all_blank, split_colon, was_seen, start_line, parse, parse_deps,
}
use siso.Depfile.Hang.{parse_hangs}
use siso.Depfile.Ends.{parse_deps-ends}

abbrev depfile : Bytes
depfile = codes "o:a b\\ c\na"

depfile_inputs : parse_deps depfile ≡ parsed (codes "a" ∷ codes "b c" ∷ [])
unfolding parse_deps parse next_token after_spaces take_token colon skip_spaces starts_lf
    starts_crlf start_line all_blank blank_width split_colon was_seen bytes_eq
depfile_inputs = refl

parse_deps-ends_example : parse_deps (codes "o:a") ≢ out_of_fuel
parse_deps-ends_example =
    parse_deps-ends (codes "o:a")
      ((λ e. omega (arith, e)), ((λ e. omega (arith, e)), ((λ e. omega (arith, e)), tt)))

not_lf : starts_lf (codes "a") ≡ false
unfolding starts_lf
not_lf = refl

parse_hangs_example : parse 1000 true (b'\\' ∷ b'\r' ∷ codes "a") [] ≡ out_of_fuel
parse_hangs_example = parse_hangs 1000 (codes "a") [] not_lf
