-- ===== src/Plan/Targets.antt =====
-- `scheduleTarget` and `schedule` of build/plan.go.
use siso.Common.{
  ℕ, zero, suc, ◌+◌, false, List, [], ◌∷◌, Option, none, some, if◌then◌else◌, length, get_elem?,
  replicate,
}
use siso.Plan.State.{ScanState, not_visited, visiting, ignored, scanned, TargetInfo, Step}
use siso.Plan.Schedule.{
  StepDef, Graph, Outcome, ok, cycle, failed, out_of_fuel, panicked, Scheduler, on_info, set_scan,
  is_ok, on_found,
}

module _ (g : Graph) (call : StepDef → ℕ → Scheduler → Outcome × Scheduler) where
  -- A target that is visited for the first time, or was ignored before: it is being visited during the
  -- call, and done after it.
  unfoldable pub visit :
      ScanState → ℕ → Option StepDef → TargetInfo → Scheduler → Outcome × Scheduler
  visit scan target needed_by i s =
      let s1 = on_info target (set_scan visiting) s in
      let r =
        if i.source
        then (ok, s1)
        else on_found g call scan target (g.step_def target needed_by s1.calls)
            (record s1 { calls = s1.calls + 1 }) in
      (r.0, on_info target (set_scan scanned) r.1)

  unfoldable pub by_scan :
      ScanState → ℕ → Option StepDef → TargetInfo → Scheduler → Outcome × Scheduler
  by_scan not_visited target needed_by i s = visit not_visited target needed_by i s
  by_scan visiting target needed_by i s = (cycle (g.path target ∷ []), s)
  by_scan ignored target needed_by i s = visit ignored target needed_by i s
  by_scan scanned target needed_by i s = (ok, s)

-- `fuel` bounds the depth of the calls.
unfoldable pub schedule_target : Graph → ℕ → ℕ → Option StepDef → Scheduler → Outcome × Scheduler
schedule_target g zero target needed_by s = (out_of_fuel, s)
schedule_target g (suc fuel) target needed_by s = elim (get_elem? s.plan.targets target) [
  | none ↦ (panicked, s)
  | some i ↦ by_scan g (λ def t. schedule_target g fuel t (some def)) i.scan target needed_by i s
]

-- One of the targets that the user asks for, or a validation.
unfoldable pub schedule_root : Graph → ℕ → ℕ → Option TargetInfo → Scheduler → Outcome × Scheduler
schedule_root g fuel t none s = (panicked, s)
schedule_root g fuel t (some i) s = elim i.scan [
  | not_visited ↦ schedule_target g fuel t none s
  | visiting ↦ (failed, s)
  | scanned ↦ (ok, s)
  | ignored ↦ (ok, s)
]

-- The loops of `schedule` over the targets and over the validations.
unfoldable pub schedule_roots : Graph → ℕ → List ℕ → Scheduler → Outcome × Scheduler
schedule_roots g fuel [] s = (ok, s)
schedule_roots g fuel (t ∷ ts) s =
    let (o, s1) = schedule_root g fuel t (get_elem? s.plan.targets t) s in
    let rest = schedule_roots g fuel ts s1 in if is_ok o then rest else (o, s1)

-- Each call visits a target that was not visited before, so the number of targets is fuel enough.
unfoldable pub schedule_all : Graph → List ℕ → Scheduler → Outcome × Scheduler
schedule_all g ts s = schedule_roots g (suc (length s.plan.targets)) ts s

-- The targets, of which there is at least one, and the validations that the graph then has.
unfoldable pub schedule : Graph → List ℕ → Scheduler → Outcome × Scheduler
schedule g [] s = (failed, s)
schedule g (t ∷ ts) s =
    let (o, s1) = schedule_all g (t ∷ ts) s in
    let rest = schedule_all g (g.validations s1.calls) s1 in if is_ok o then rest else (o, s1)

abbrev pub no_step : Step
no_step = record {
  name = [];
  is_phony = false;
  nwaits = 0;
  outputs = [];
  prev_step_id = [];
  prev_step_out = 0;
}

abbrev pub new_target : TargetInfo
new_target = record {
  scan = not_visited;
  waits = [];
  source = false;
  output = false;
  phony_output = false;
}

-- `newScheduler` for so many targets.
unfoldable pub new_scheduler : ℕ → (ℕ → ℕ) → Scheduler
new_scheduler num_targets receives = record {
  plan = record {
    closed = false;
    taken = [];
    q = [];
    q_cap = 10000;
    ready = [];
    targets = replicate num_targets new_target;
    npendings = 0;
    steps = λ t. no_step;
    receives = receives;
    clock = 0;
  };
  total = 0;
  visited = 0;
  calls = 0;
  nsteps = 0;
  planned = λ t. false;
}
