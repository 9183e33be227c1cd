-- ===== src/Plan/Samples.antt =====
-- A plan of three steps, made by the scheduler, and the theorems of the plan's modules at it: steps 1
-- and 2 make the targets 2 and 3, and step 0 needs both to make target 1.
use mathlib.Core.List.Permᴰ
use siso.Common.{
  ℕ, zero, suc, ◌+◌, ◌-◌, ◌%◌, ◌≤◌, ◌<◌, ◌≡◌, ◌≢◌, ◌↔◌, refl, Bool, true, false, ◌&&◌, List, [],
  ◌∷◌, Bytes, codes, ◌==◌, ltb, if◌then◌else◌, arith,
}
use siso.Plan.State.{waits_of, not_visited, scanned, TargetInfo, Step, Plan, int_mod, receive, done}
use siso.Plan.Count.{tally, tally_all}
use siso.Plan.Steps.{waiting, IsOutputs, wakes}
use siso.Plan.Done.{done-wakes, done_balance, done_closes}
use siso.Plan.Run.{IsAccounted, IsSettled, IsAccounted-done}
use siso.Plan.Reach.{Reach, start, receives, finishes, Reach-ready}
use siso.Plan.Schedule.{StepDef, Found, found, no_target, Graph, out_of_fuel, Scheduler}
use siso.Plan.Targets.{schedule}
use siso.Plan.Termination.{schedule-ends}

abbrev fresh : TargetInfo
fresh = record {
  scan = not_visited;
  waits = [];
  source = false;
  output = false;
  phony_output = false;
}

abbrev idle_step : Step
idle_step = record {
  name = [];
  is_phony = false;
  nwaits = 0;
  outputs = [];
  prev_step_id = [];
  prev_step_out = 0;
}

-- `newScheduler`, where the queue has room for one step.
abbrev small_scheduler : Scheduler
small_scheduler = record {
  plan = record {
    closed = false;
    taken = [];
    q = [];
    q_cap = 1;
    ready = [];
    targets = fresh ∷ fresh ∷ fresh ∷ fresh ∷ [];
    npendings = 0;
    steps = λ t. idle_step;
    receives = λ n. 0;
    clock = 0;
  };
  total = 0;
  visited = 0;
  calls = 0;
  nsteps = 0;
  planned = λ t. false;
}

abbrev pub makes : Bytes → List ℕ → ℕ → StepDef
makes name ins out = record {
  name = name;
  is_phony = false;
  phony_output = false;
  inputs = ins;
  order_only = [];
  outputs = out ∷ [];
}

abbrev pub defs : ℕ → Found
defs (suc zero) = found (makes (codes "link") (2 ∷ 3 ∷ []) 1)
defs (suc (suc zero)) = found (makes (codes "cc a") [] 2)
defs (suc (suc (suc zero))) = found (makes (codes "cc b") [] 3)
defs _ = no_target

abbrev pub graph : Graph
graph = record {
  step_def = λ t by n. defs t;
  path = λ t. [];
  exists = λ t. true;
  cancelled = λ n. false;
  validations = λ n. [];
}

-- A plan like the one that the scheduler makes of it.
abbrev link_step : Step
link_step = record {
  name = codes "link";
  is_phony = false;
  nwaits = 2;
  outputs = 1 ∷ [];
  prev_step_id = [];
  prev_step_out = 0;
}

abbrev cc_step : Bytes → ℕ → Step
cc_step name out = record {
  name = name;
  is_phony = false;
  nwaits = 0;
  outputs = out ∷ [];
  prev_step_id = [];
  prev_step_out = 0;
}

abbrev steps : ℕ → Step
steps zero = link_step
steps (suc zero) = cc_step (codes "cc a") 2
steps (suc (suc zero)) = cc_step (codes "cc b") 3
steps (suc (suc (suc t))) = idle_step

abbrev planned : ℕ → Bool
planned t = ltb t 3

abbrev built : List ℕ → TargetInfo
built ws = record {
  scan = scanned;
  waits = ws;
  source = false;
  output = true;
  phony_output = false;
}

abbrev sample : Plan
sample = record {
  closed = false;
  taken = [];
  q = 1 ∷ [];
  q_cap = 1;
  ready = 2 ∷ [];
  targets = fresh ∷ built [] ∷ built (0 ∷ []) ∷ built (0 ∷ []) ∷ [];
  npendings = 1;
  steps = steps;
  receives = λ n. 1;
  clock = 0;
}

abbrev open_targets : List ℕ
open_targets = 2 ∷ 3 ∷ 1 ∷ []

sample-IsOutputs : IsOutputs open_targets
sample-IsOutputs = (
  λ e. omega (arith, e),
  (λ e. omega (arith, e), (λ e. omega (arith, e), tt)),
  (λ e. omega (arith, e), (λ e. omega (arith, e), tt), (λ e. omega (arith, e), tt, tt)),
)

bounded : (t : ℕ) → (steps t).nwaits < int_mod
bounded zero = omega arith
bounded (suc zero) = omega arith
bounded (suc (suc zero)) = omega arith
bounded (suc (suc (suc t))) = omega arith

exact : (t : ℕ) → (steps t).nwaits ≡ waiting t open_targets sample.targets
unfolding waits_of
exact zero = ground arith
exact (suc zero) = ground arith
exact (suc (suc zero)) = ground arith
exact (suc (suc (suc t))) = ground arith

queued : (t : ℕ) → tally t sample ≡ (if planned t && ((steps t).nwaits == 0) then 1 else 0)
queued zero = refl
queued (suc zero) = refl
queued (suc (suc zero)) = refl
queued (suc (suc (suc t))) = ground arith

sample-IsAccounted : IsAccounted planned open_targets sample
sample-IsAccounted = record {
  outputs = sample-IsOutputs;
  bounded = bounded;
  covers = λ t. omega (arith, exact t);
  exact = λ e t. exact t;
  queued = queued;
}

sample-IsSettled : IsSettled planned sample
sample-IsSettled zero h = cc
sample-IsSettled (suc zero) h = refl
sample-IsSettled (suc (suc zero)) h = refl
sample-IsSettled (suc (suc (suc t))) h = refl

-- The builder takes step 1 and finishes it.
run : Reach open_targets sample (3 ∷ 1 ∷ []) (done 1 (receive sample))
unfolding receive
run = finishes 1 (3 ∷ 1 ∷ []) (receives start) (omega arith) (Permᴰ.refl (2 ∷ 3 ∷ 1 ∷ []))

Reach-ready_example :
    (tally 0 (done 1 (receive sample)) ≤ 1)
    × (0 < tally 0 (done 1 (receive sample))
        → waiting 0 (3 ∷ 1 ∷ []) (done 1 (receive sample)).targets ≡ 0)
    × ((done 1 (receive sample)).closed ≡ false
        → planned 0 ≡ true
        → (tally 0 (done 1 (receive sample)) ≡ 1)
          ↔ (waiting 0 (3 ∷ 1 ∷ []) (done 1 (receive sample)).targets ≡ 0))
Reach-ready_example =
    Reach-ready planned open_targets (3 ∷ 1 ∷ []) sample (done 1 (receive sample)) 0
      sample-IsAccounted sample-IsSettled run

one_output : IsOutputs (2 ∷ [])
one_output = (λ e. omega (arith, e), tt, tt)

done-wakes_example :
    (((done 1 sample).steps 0).nwaits ≡ 2 - waiting 0 (2 ∷ []) sample.targets)
    × (tally 0 (done 1 sample) ≡ tally 0 sample + wakes (waiting 0 (2 ∷ []) sample.targets) 2)
unfolding waits_of
done-wakes_example = done-wakes 1 sample refl 0 one_output (omega arith) (omega arith)

done_balance_example : ((done 1 sample).npendings + tally_all (done 1 sample)) % int_mod ≡ 3
done_balance_example = done_balance 1 sample refl one_output

done_closes_example :
    ((done 1 sample).closed ≡ true)
    ↔ (((done 1 sample).ready ≡ []) × ((done 1 sample).npendings ≡ 0))
done_closes_example = done_closes 1 sample refl one_output

IsAccounted-done_example : IsAccounted planned (3 ∷ 1 ∷ []) (done 1 sample)
IsAccounted-done_example =
    IsAccounted-done planned 1 (3 ∷ 1 ∷ []) sample sample-IsSettled sample-IsAccounted

schedule-ends_example : (schedule graph (1 ∷ []) small_scheduler).0 ≢ out_of_fuel
schedule-ends_example = schedule-ends graph (1 ∷ []) small_scheduler
