-- ===== src/Manifest/Duplicates.antt =====
-- Calls of `setRule` in every order of their steps (toolsupport/ninjautil/rule.go).
use siso.Common.{
  ℕ, zero, suc, ◌≡◌, refl, ◌∙◌, ap, Bool, true, false, List, [], ◌∷◌, ◌++◌, some, Bytes, bytes_eq,
  bytes_eq_iff, bytes_eq_refl, ◌==◌, if◌then◌else◌, length, length-append, get_elem?, set, map, All,
  Bool-cases, Option-cases, inl, inr, arith,
}
use siso.Manifest.Rules.{
  Rule, lookup_rule, has_rule, Call, loading, swapping, stored, duplicate, Bucket, step_call, step,
  run, start,
}

-- No two rules of the list have one name.
unfoldable pub Distinct : List Rule → Type 0
Distinct [] = Unit
Distinct (r ∷ rs) = (has_rule (r.name) rs ≡ false) × Distinct rs

-- What holds of a call while the bucket has these rules.
unfoldable pub IsFine : List Rule → Call → Type 0
IsFine rules (loading r) = Unit
IsFine rules (swapping r head) =
    (has_rule (r.name) head ≡ false) × (extra : List Rule) × (rules ≡ extra ++ head)
IsFine rules (stored r) = lookup_rule (r.name) rules ≡ some r
IsFine rules (duplicate r) = has_rule (r.name) rules ≡ true

has_rule-cons :
    (name : Bytes) (r : Rule) (rs : List Rule)
    → has_rule name rs ≡ true
    → has_rule name (r ∷ rs) ≡ true
unfolding has_rule
has_rule-cons name r rs h = ground arith

if-false {ℓ} : {A : Type ℓ} (b : Bool) (x y z : A) → b ≡ false → (if b then x else y) ≡ z → y ≡ z
if-false true x y z e h = cc
if-false false x y z e h = h

found-has_rule :
    (name : Bytes) (rs : List Rule) (x : Rule)
    → lookup_rule name rs ≡ some x
    → has_rule name rs ≡ true
unfolding has_rule lookup_rule
found-has_rule name [] x h = cc
found-has_rule name (r ∷ rs) x h = elim (Bool-cases (bytes_eq (r.name) name)) [
  | inl e ↦ rw e refl
  | inr e ↦ rw e (found-has_rule name rs x (if-false (bytes_eq (r.name) name) _ _ _ e h))
]

-- A call stays fine when a rule of a new name is put at the head.
IsFine-cons :
    (r : Rule) (rules : List Rule) (c : Call)
    → has_rule (r.name) rules ≡ false
    → IsFine rules c
    → IsFine (r ∷ rules) c
unfolding IsFine lookup_rule
IsFine-cons r rules (loading x) n h = tt
IsFine-cons r rules (swapping x head) n h = (h.0, r ∷ h.1, ap (λ t. r ∷ t) h.2)
IsFine-cons r rules (stored x) n h = elim (Bool-cases (bytes_eq (r.name) (x.name))) [
  | inl e ↦
      let q : r.name ≡ x.name = (bytes_eq_iff _ _).0 e in
      let k : has_rule (r.name) rules ≡ true = rw q (found-has_rule (x.name) rules x h) in
      absurd (ground arith)
  | inr e ↦ rw e h
]
IsFine-cons r rules (duplicate x) n h = has_rule-cons (x.name) r rules h

append-length_same :
    (extra head : List Rule) → (length (extra ++ head) == length head) ≡ true → extra ++ head ≡ head
append-length_same [] head h = refl
append-length_same (x ∷ extra) head h = absurd (let l = length-append extra head in ground arith)

same_head :
    (rules extra head : List Rule)
    → rules ≡ extra ++ head
    → (length rules == length head) ≡ true
    → rules ≡ head
same_head rules extra head h e = h ∙ append-length_same extra head (rw⁻¹ h e)

-- A step of a call that is fine keeps what holds: of the rules, of the call itself and of another one.
unfoldable pub Keeps : List Rule → Call × List Rule → Type 0
Keeps rules (c, rules') =
    Distinct rules' × IsFine rules' c × ((other : Call) → IsFine rules other → IsFine rules' other)

Keeps-swap :
    (r : Rule) (rules : List Rule)
    → has_rule (r.name) rules ≡ false
    → Distinct rules
    → Keeps rules (stored r, r ∷ rules)
unfolding Keeps Distinct IsFine lookup_rule
Keeps-swap r rules n d =
    ((n, d), rw (bytes_eq_refl (r.name)) refl, λ other h. IsFine-cons r rules other n h)

step_call-Keeps :
    (c : Call) (rules : List Rule)
    → Distinct rules
    → IsFine rules c
    → Keeps rules (step_call c rules)
unfolding step_call Keeps IsFine
step_call-Keeps (loading r) rules d h = elim (Bool-cases (has_rule (r.name) rules)) [
  | inl e ↦ rw e (d, e, λ other f. f)
  | inr e ↦ rw e (d, (e, [], refl), λ other f. f)
]
step_call-Keeps (swapping r head) rules d h = elim (Bool-cases (length rules == length head)) [
  | inl e ↦ rw e (Keeps-swap r rules (rw (same_head rules h.1 head h.2 e) h.0) d)
  | inr e ↦ rw e (d, tt, λ other f. f)
]
step_call-Keeps (stored r) rules d h = (d, h, λ other f. f)
step_call-Keeps (duplicate r) rules d h = (d, h, λ other f. f)

-- What holds of the bucket and of every call.
unfoldable pub IsSound : Bucket → Type 0
IsSound b = Distinct (b.rules) × All (IsFine (b.rules)) (b.calls)

All-get :
    (rules : List Rule) (cs : List Call) (i : ℕ) (c : Call)
    → All (IsFine rules) cs
    → get_elem? cs i ≡ some c
    → IsFine rules c
All-get rules [] i c h e = absurd cc
All-get rules (x ∷ cs) zero c h e = let q : x ≡ c = cc in rw⁻¹ q h.0
All-get rules (x ∷ cs) (suc i) c h e = All-get rules cs i c h.1 e

All-map :
    (rules rules' : List Rule) (cs : List Call)
    → ((other : Call) → IsFine rules other → IsFine rules' other)
    → All (IsFine rules) cs
    → All (IsFine rules') cs
All-map rules rules' [] f h = tt
All-map rules rules' (x ∷ cs) f h = (f x h.0, All-map rules rules' cs f h.1)

All-set :
    (rules rules' : List Rule) (cs : List Call) (i : ℕ) (c : Call)
    → ((other : Call) → IsFine rules other → IsFine rules' other)
    → IsFine rules' c
    → All (IsFine rules) cs
    → All (IsFine rules') (set cs i c)
All-set rules rules' [] i c f k h = tt
All-set rules rules' (x ∷ cs) zero c f k h = (k, All-map rules rules' cs f h.1)
All-set rules rules' (x ∷ cs) (suc i) c f k h = (f x h.0, All-set rules rules' cs i c f k h.1)

step-IsSound : (i : ℕ) (b : Bucket) → IsSound b → IsSound (step i b)
unfolding step IsSound Keeps
step-IsSound i b h = elim (Option-cases (get_elem? (b.calls) i)) [
  | inl e ↦ rw (step, e) h
  | inr (c, e) ↦
      let k = step_call-Keeps c (b.rules) h.0 (All-get (b.rules) (b.calls) i c h.1 e) in
      rw (step, e) (k.0, All-set (b.rules) _ (b.calls) i _ k.2 k.1 h.1)
]

All-loading : (rs : List Rule) → All (IsFine []) (map loading rs)
unfolding IsFine
All-loading [] = tt
All-loading (r ∷ rs) = (tt, All-loading rs)

start-IsSound : (rs : List Rule) → IsSound (start rs)
unfolding IsSound Distinct
start-IsSound rs = (tt, All-loading rs)

runs-IsSound : (order : List ℕ) (b : Bucket) → IsSound b → IsSound (run order b)
unfolding run
runs-IsSound [] b h = h
runs-IsSound (i ∷ is) b h = runs-IsSound is (step i b) (step-IsSound i b h)

-- Calls that set rules in an empty bucket, with their steps in any order: no two rules of the bucket have one
-- name, a lookup finds the rule of a call that returned with no error, and where a call returned "duplicate
-- rule" a rule of the name is there.
pub run-IsSound : (rs : List Rule) (order : List ℕ) → IsSound (run order (start rs))
run-IsSound rs order = runs-IsSound order (start rs) (start-IsSound rs)
