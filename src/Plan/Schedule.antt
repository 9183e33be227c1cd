-- ===== src/Plan/Schedule.antt =====
-- Filling the plan: `scheduleTarget`, `mark` and `add` of build/plan.go. The build graph, the file
-- system and the cancellation of the context are parameters.
use siso.Common.{
  ℕ, zero, suc, ◌+◌, ◌-◌, Bool, true, false, not, ◌&&◌, List, [], ◌∷◌, ◌++◌, Option, none, some,
  Bytes, bytes_eq, ltb, ◌==◌, if◌then◌else◌, length, get_elem?,
}
use siso.Plan.State.{
  ScanState, not_visited, ignored, scanned, TargetInfo, Step, Plan, increment, set_step,
  ready_to_run, send,
}

-- What `StepDef` returns for a target that some step builds.
pub record StepDef : Type 0 where
  pub name : Bytes
  pub is_phony : Bool
  pub phony_output : Bool
  pub inputs : List ℕ
  pub order_only : List ℕ
  pub outputs : List ℕ

pub data Found : Type 0 where
  found duplicate : StepDef → Found
  no_target is_source broken : Found

-- The graph: `step_def` answers from the target, the step that needs it and how many calls were made
-- before; `path` is a target's path; `exists` says whether a source file is there; `cancelled` whether
-- the context is cancelled when so many steps have been visited; `validations` are those of the graph after so
-- many calls of `step_def`.
pub record Graph : Type 0 where
  pub step_def : ℕ → Option StepDef → ℕ → Found
  pub path : ℕ → Bytes
  pub exists : ℕ → Bool
  pub cancelled : ℕ → Bool
  pub validations : ℕ → List ℕ

pub data Outcome : Type 0 where
  ok : Outcome
  cycle : List Bytes → Outcome
  missing_source target_not_found failed interrupted phony_dependency : Outcome
  out_of_fuel panicked : Outcome

-- The scheduler. `calls` counts the `StepDef` calls, `nsteps` the steps made so far, and `planned` holds
-- of the steps that `add` has seen.
pub record Scheduler : Type 0 where
  pub plan : Plan
  pub total : ℕ
  pub visited : ℕ
  pub calls : ℕ
  pub nsteps : ℕ
  pub planned : ℕ → Bool

abbrev pub on_plan : (Plan → Plan) → Scheduler → Scheduler
on_plan f s = record s { plan = f s.plan }

-- `f` applied to the entry of one target.
unfoldable pub on_target : ℕ → (TargetInfo → TargetInfo) → List TargetInfo → List TargetInfo
on_target t f [] = []
on_target zero f (i ∷ is) = f i ∷ is
on_target (suc t) f (i ∷ is) = i ∷ on_target t f is

abbrev pub on_info : ℕ → (TargetInfo → TargetInfo) → Scheduler → Scheduler
on_info t f s = record s { plan = record s.plan { targets = on_target t f s.plan.targets } }

abbrev pub set_scan : ScanState → TargetInfo → TargetInfo
set_scan x i = record i { scan = x }

abbrev pub scan_if_new : TargetInfo → TargetInfo
scan_if_new i = elim i.scan [ not_visited ↦ set_scan scanned i | _ ↦ i ]

-- The deferred loop that marks all outputs of a step.
unfoldable pub mark_outputs : List ℕ → Scheduler → Scheduler
mark_outputs [] s = s
mark_outputs (o ∷ os) s = mark_outputs os (on_info o scan_if_new s)

unfoldable pub set_output : List ℕ → Scheduler → Scheduler
set_output [] s = s
set_output (o ∷ os) s = set_output os (on_info o (λ i. record i { output = true }) s)

-- The step goes to the queue, or is spilled.
unfoldable pub queue_step : ℕ → Plan → Plan
queue_step sid p =
    let (sent, p') = send sid p in if sent then p' else record p' { ready = p'.ready ++ sid ∷ [] }

abbrev pub plan_step : ℕ → Scheduler → Scheduler
plan_step sid s = record s { planned = λ t. if t == sid then true else s.planned t }

-- A planned step is queued if it is ready, and pending otherwise.
unfoldable pub enter : ℕ → Bool → Plan → Plan
enter sid ready p =
    if ready then queue_step sid p else record p { npendings = increment p.npendings }

-- The outputs of a phony step are not marked.
unfoldable pub add_outputs : Step → Scheduler → Scheduler
add_outputs step s = if step.is_phony then s else set_output step.outputs s

-- `add`
unfoldable pub add : ℕ → Scheduler → Scheduler
add sid s =
    let step = s.plan.steps sid in
    let s1 = add_outputs step (plan_step sid (record s { total = s.total + 1 })) in
    let (info, ready) = ready_to_run [] 0 step in
    on_plan (λ p. enter sid ready (record p { steps = set_step sid info p.steps })) s1

-- `targets[in].waits = append(…)` and `step.nwaits++`, for an input that is not a source.
unfoldable pub wait_for : ℕ → ℕ → Scheduler → Scheduler
wait_for sid t s =
    on_plan
      (λ p. record p {
        targets = on_target t (λ i. record i { waits = i.waits ++ sid ∷ [] }) p.targets;
        steps =
            set_step sid (record (p.steps sid) { nwaits = increment (p.steps sid).nwaits }) p.steps;
      })
      s

abbrev pub last_of : Bytes → List Bytes → Bytes
last_of p [] = p
last_of p (q ∷ ps) = last_of q ps

-- The path of the input is added to a cycle that is not complete yet.
unfoldable pub extend_cycle : Bytes → List Bytes → List Bytes
extend_cycle cur [] = cur ∷ []
extend_cycle cur (p ∷ []) = p ∷ cur ∷ []
extend_cycle cur (p ∷ q ∷ ps) =
    if bytes_eq p (last_of q ps) then p ∷ q ∷ ps else (p ∷ q ∷ ps) ++ cur ∷ []

unfoldable pub wrap_error : Bytes → Outcome → Outcome
wrap_error cur (cycle ps) = cycle (extend_cycle cur ps)
wrap_error cur o = o

unfoldable pub needs_schedule : ScanState → Bool
needs_schedule scanned = false
needs_schedule _ = true

-- A step's way to an input: `call` schedules a target.
unfoldable pub link_input :
    (sid : ℕ) (def : StepDef) → Bool → ℕ → Option TargetInfo → Scheduler → Outcome × Scheduler
link_input sid def trigger t none s = (panicked, s)
link_input sid def trigger t (some i) s =
    let s' = if i.source then s else wait_for sid t s in
    if trigger && i.phony_output && not def.phony_output then (phony_dependency, s') else (ok, s')

unfoldable pub is_ok : Outcome → Bool
is_ok ok = true
is_ok _ = false

-- `call` schedules an input that the given step needs.
module _ (g : Graph) (call : StepDef → ℕ → Scheduler → Outcome × Scheduler) where
  unfoldable pub visit_input : StepDef → ℕ → Option TargetInfo → Scheduler → Outcome × Scheduler
  visit_input def t none s = (panicked, s)
  visit_input def t (some i) s = if needs_schedule i.scan then call def t s else (ok, s)

  -- The loop over the inputs; `triggers` of them are left before the order-only ones.
  unfoldable pub link_inputs :
      (sid : ℕ) (def : StepDef) → ℕ → List ℕ → Scheduler → Outcome × Scheduler
  link_inputs sid def triggers [] s = (ok, s)
  link_inputs sid def triggers (t ∷ ts) s =
      let (o, s1) = visit_input def t (get_elem? s.plan.targets t) s in
      let (o2, s2) = link_input sid def (ltb 0 triggers) t (get_elem? s1.plan.targets t) s1 in
      let rest = link_inputs sid def (triggers - 1) ts s2 in
      if is_ok o then (if is_ok o2 then rest else (o2, s2)) else (wrap_error (g.path t) o, s1)

  abbrev pub new_step : StepDef → Step
  new_step def = record {
    name = def.name;
    is_phony = def.is_phony;
    nwaits = 0;
    outputs = [];
    prev_step_id = [];
    prev_step_out = 0;
  }

  -- `step.outputs = outputs; sched.add(step)`
  unfoldable pub finish_step : ℕ → StepDef → Outcome × Scheduler → Outcome × Scheduler
  finish_step sid def (ok, s) = (
    ok,
    add sid (
        on_plan
          (λ p. record p {
            steps = set_step sid (record (p.steps sid) { outputs = def.outputs }) p.steps;
          })
          s),
  )
  finish_step sid def (o, s) = (o, s)

  -- What follows `StepDef` when the step has to be scheduled.
  unfoldable pub schedule_step : ℕ → StepDef → Scheduler → Outcome × Scheduler
  schedule_step target def s =
      let s1 = on_info target (λ i. record i { phony_output = def.phony_output }) s in
      let s2 = record s1 { visited = s1.visited + 1 } in
      let sid = s2.nsteps in
      let s3 = record s2 {
        nsteps = sid + 1;
        plan = record s2.plan { steps = set_step sid (new_step def) s2.plan.steps };
      } in
      let r =
        if g.cancelled s2.visited
        then (interrupted, s2)
        else finish_step sid def
            (link_inputs sid def (length def.inputs) (def.inputs ++ def.order_only) s3) in
      (r.0, mark_outputs def.outputs r.1)

  -- `mark`
  unfoldable pub mark : ℕ → Scheduler → Outcome × Scheduler
  mark target s =
      if g.exists target
      then (ok, on_info target (λ i. record i { source = true }) s)
      else (missing_source, s)

  unfoldable pub on_found : ScanState → ℕ → Found → Scheduler → Outcome × Scheduler
  on_found scan target (found def) s = schedule_step target def s
  on_found ignored target (duplicate def) s = schedule_step target def s
  on_found scan target (duplicate def) s = (ok, s)
  on_found scan target no_target s = (target_not_found, s)
  on_found scan target is_source s = mark target s
  on_found scan target broken s = (failed, s)
