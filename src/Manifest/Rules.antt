-- ===== src/Manifest/Rules.antt =====
-- `rule` and a bucket of `ruleMap` in toolsupport/ninjautil/rule.go: several parsers of chunks set rules at
-- once, with a compare-and-swap of the head of the bucket's list.
use siso.Common.{
  ℕ, Bool, false, ◌||◌, List, [], ◌∷◌, ◌++◌, Option, none, some, Bytes, bytes_eq, ◌==◌,
  if◌then◌else◌, length, get_elem?, set, map,
}
use siso.Manifest.Bindings.{EvalString, Binding, lookup_list}

-- The list of a bucket stands for the rules and their `next` pointers.
pub record Rule : Type 0 where
  pub name : Bytes
  pub bindings : List Binding

-- `rule.setVar` and `rule.lookupVar`
abbrev pub set_var : Bytes → EvalString → Rule → Rule
set_var key val r = record r { bindings = r.bindings ++ (record { name = key; value = val } ∷ []) }

abbrev pub lookup_var : Option ℕ → Bytes → Rule → Option EvalString
lookup_var pos key r = lookup_list pos key (r.bindings)

-- The loop of `lookupRule` over a bucket.
unfoldable pub lookup_rule : Bytes → List Rule → Option Rule
lookup_rule name [] = none
lookup_rule name (r ∷ rs) =
    let rest = lookup_rule name rs in if bytes_eq (r.name) name then some r else rest

-- The search of `setRule` for a rule of the name.
unfoldable pub has_rule : Bytes → List Rule → Bool
has_rule name [] = false
has_rule name (r ∷ rs) = bytes_eq (r.name) name || has_rule name rs

-- Where a call of `setRule` stands: before it loads the head, between its search of that list and the
-- compare-and-swap, or at its return with no error or with "duplicate rule".
pub data Call : Type 0 where
  loading : Rule → Call
  swapping : Rule → List Rule → Call
  stored : Rule → Call
  duplicate : Rule → Call

pub record Bucket : Type 0 where
  pub rules : List Rule
  pub calls : List Call

-- One step of a call. A list only ever grows at its head, so the head is the one that was loaded if the list
-- is as long as then.
unfoldable pub step_call : Call → List Rule → Call × List Rule
step_call (loading r) head = (if has_rule (r.name) head then duplicate r else swapping r head, head)
step_call (swapping r head) now =
    if length now == length head then (stored r, r ∷ now) else (loading r, now)
step_call (stored r) head = (stored r, head)
step_call (duplicate r) head = (duplicate r, head)

-- The `i`-th call makes a step.
unfoldable pub step : ℕ → Bucket → Bucket
step i b = elim (get_elem? (b.calls) i) [
  | none ↦ b
  | some c ↦ record {
    rules = (step_call c (b.rules)).1;
    calls = set (b.calls) i ((step_call c (b.rules)).0);
  }
]

-- The calls make their steps in the given order.
unfoldable pub run : List ℕ → Bucket → Bucket
run [] b = b
run (i ∷ is) b = run is (step i b)

-- All calls are at their start, and the bucket is empty.
abbrev pub start : List Rule → Bucket
start rs = record { rules = []; calls = map loading rs }
