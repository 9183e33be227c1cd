-- ===== src/Plan/Termination.antt =====
-- Scheduling ends: the depth of `scheduleTarget` is bounded by the number of targets.
use siso.Common.{
  ℕ, zero, suc, ◌+◌, ◌-◌, ◌≤◌, ◌<◌, ◌≡◌, ◌≢◌, refl, ap, Bool, true, not, ◌&&◌, List, [], ◌∷◌, ◌++◌,
  Option, none, some, ltb, if◌then◌else◌, Bool-cases, Option-cases, inl, inr, length, get_elem?,
  Bytes, arith,
}
use siso.Plan.State.{ScanState, not_visited, visiting, ignored, scanned, TargetInfo, set_step}
use siso.Plan.Schedule.{
  StepDef, Found, found, duplicate, no_target, is_source, broken, Graph, Outcome, ok, cycle,
  missing_source, target_not_found, failed, interrupted, phony_dependency, out_of_fuel, panicked,
  Scheduler, on_info, set_scan, mark_outputs, wait_for, wrap_error, needs_schedule, link_input,
  is_ok, visit_input, link_inputs, finish_step, new_step, schedule_step, mark, on_found,
}
use siso.Plan.Targets.{
  visit, by_scan, schedule_target, schedule_root, schedule_roots, schedule_all, schedule,
}
use siso.Plan.Unvisited.{
  pending_scan, unvisited, unvisited-on_target, unvisited-visiting, unvisited-mark_outputs,
  unvisited-finish_step, unvisited-link, unvisited-bounded,
}

-- A call leaves no more unvisited targets, and with fewer of them than `k` it does not run out of fuel.
pub record Ends (k : ℕ) (s : Scheduler) (r : Outcome × Scheduler) : Type 0 where
  pub fewer : unvisited r.1 ≤ unvisited s
  pub ends : unvisited s < k → r.0 ≢ out_of_fuel

-- A result that is no lack of fuel, with no more unvisited targets.
ended :
    (k : ℕ) (s : Scheduler) (o : Outcome) (s' : Scheduler)
    → unvisited s' ≤ unvisited s
    → o ≢ out_of_fuel
    → Ends k s (o, s')
ended k s o s' h n = record { fewer = h; ends = λ lt. n }

finish_step-ends :
    (g : Graph) (call : StepDef → ℕ → Scheduler → Outcome × Scheduler) (sid : ℕ) (def : StepDef)
    (r : Outcome × Scheduler)
    → r.0 ≢ out_of_fuel
    → (finish_step g call sid def r).0 ≢ out_of_fuel
unfolding finish_step
finish_step-ends g call sid def (ok, s) h = λ e. cc
finish_step-ends g call sid def (_, s) h = h

wrap_error-ends : (cur : Bytes) (o : Outcome) → o ≢ out_of_fuel → wrap_error cur o ≢ out_of_fuel
unfolding wrap_error
wrap_error-ends cur (cycle ps) h = λ e. cc
wrap_error-ends cur _ h = h

link_input-Ends :
    (k sid : ℕ) (def : StepDef) (trigger : Bool) (t : ℕ) (i : Option TargetInfo) (s : Scheduler)
    → Ends k s (link_input sid def trigger t i s)
unfolding link_input
link_input-Ends k sid def trigger t none s = ended k s panicked s (omega arith) (λ e. cc)
link_input-Ends k sid def trigger t (some i) s =
    let s' = if i.source then s else wait_for sid t s in
    let fewer = unvisited-link i.source sid t s in
    elim (Bool-cases (trigger && i.phony_output && not def.phony_output)) [
      | inl bad ↦ rw bad (ended k s phony_dependency s' fewer (λ e. cc))
      | inr good ↦ rw good (ended k s ok s' fewer (λ e. cc))
    ]

-- Two calls after each other: the second starts where the first one stopped.
Ends-trans :
    (k : ℕ) (s : Scheduler) (o : Outcome) (s1 : Scheduler) (r : Outcome × Scheduler)
    → unvisited s1 ≤ unvisited s
    → Ends k s1 r
    → Ends k s r
Ends-trans k s o s1 r le e = record {
  fewer = omega (arith, e.fewer, le);
  ends = λ lt. e.ends (omega (arith, le, lt));
}

module _ (g : Graph) (call : StepDef → ℕ → Scheduler → Outcome × Scheduler) (k : ℕ)
    (call-ends : (def : StepDef) (t : ℕ) (s : Scheduler) → Ends k s (call def t s)) where
  visit_input-Ends :
      (def : StepDef) (t : ℕ) (i : Option TargetInfo) (s : Scheduler)
      → Ends k s (visit_input g call def t i s)
  unfolding visit_input
  visit_input-Ends def t none s = ended k s panicked s (omega arith) (λ e. cc)
  visit_input-Ends def t (some i) s = elim (Bool-cases (needs_schedule i.scan)) [
    | inl needed ↦ rw needed (call-ends def t s)
    | inr over ↦ rw over (ended k s ok s (omega arith) (λ e. cc))
  ]

  link_inputs-Ends :
      (sid : ℕ) (def : StepDef) (triggers : ℕ) (ts : List ℕ) (s : Scheduler)
      → Ends k s (link_inputs g call sid def triggers ts s)
  unfolding link_inputs
  link_inputs-Ends sid def triggers [] s = ended k s ok s (omega arith) (λ e. cc)
  link_inputs-Ends sid def triggers (t ∷ ts) s =
      let r = visit_input g call def t (get_elem? s.plan.targets t) s in
      let r2 = link_input sid def (ltb 0 triggers) t (get_elem? r.1.plan.targets t) r.1 in
      let h = visit_input-Ends def t (get_elem? s.plan.targets t) s in
      let h2 = link_input-Ends k sid def (ltb 0 triggers) t (get_elem? r.1.plan.targets t) r.1 in
      let h3 = link_inputs-Ends sid def (triggers - 1) ts r2.1 in
      elim (Bool-cases (is_ok r.0)) [
        | inl good ↦ elim (Bool-cases (is_ok r2.0)) [
          | inl fine ↦
              rw good (rw fine (Ends-trans k s r2.0 r2.1 _ (omega (arith, h.fewer, h2.fewer)) h3))
          | inr bad ↦ rw good (rw bad (Ends-trans k s r.0 r.1 r2 h.fewer h2))
        ]
        | inr bad ↦
            rw bad
              (record { fewer = h.fewer; ends = λ lt. wrap_error-ends (g.path t) r.0 (h.ends lt) })
      ]

  schedule_step-Ends :
      (target : ℕ) (def : StepDef) (s : Scheduler) → Ends k s (schedule_step g call target def s)
  unfolding schedule_step
  schedule_step-Ends target def s =
      let s1 = on_info target (λ i. record i { phony_output = def.phony_output }) s in
      let h1 =
        unvisited-on_target target (λ i. record i { phony_output = def.phony_output })
          s.plan.targets (λ i. omega arith) in
      let s2 = record s1 { visited = s1.visited + 1 } in
      let sid = s2.nsteps in
      let s3 = record s2 {
        nsteps = sid + 1;
        plan = record s2.plan { steps = set_step sid (new_step g call def) s2.plan.steps };
      } in
      let r = link_inputs g call sid def (length def.inputs) (def.inputs ++ def.order_only) s3 in
      let f = finish_step g call sid def r in
      let h = link_inputs-Ends sid def (length def.inputs) (def.inputs ++ def.order_only) s3 in
      let h2 = unvisited-finish_step g call sid def r in
      elim (Bool-cases (g.cancelled (s1.visited + 1))) [
        | inl stop ↦ rw stop (
            ended k s interrupted (mark_outputs def.outputs s2)
              (omega (arith, h1, unvisited-mark_outputs def.outputs s2)) (λ e. cc))
        | inr on ↦ rw on (record {
          fewer = omega (arith, h1, h.fewer, h2, unvisited-mark_outputs def.outputs f.1);
          ends = λ lt. finish_step-ends g call sid def r (h.ends (omega (arith, h1, lt)));
        })
      ]

  mark-Ends : (target : ℕ) (s : Scheduler) → Ends k s (mark g call target s)
  unfolding mark
  mark-Ends target s = elim (Bool-cases (g.exists target)) [
    | inl there ↦
        let h =
          unvisited-on_target target (λ i. record i { source = true }) s.plan.targets
            (λ i. omega arith) in
        rw there (ended k s ok (on_info target (λ i. record i { source = true }) s) h (λ e. cc))
    | inr missing ↦ rw missing (ended k s missing_source s (omega arith) (λ e. cc))
  ]

  on_found-Ends :
      (scan : ScanState) (target : ℕ) (f : Found) (s : Scheduler)
      → Ends k s (on_found g call scan target f s)
  unfolding on_found
  on_found-Ends scan target (found def) s = schedule_step-Ends target def s
  on_found-Ends ignored target (duplicate def) s = schedule_step-Ends target def s
  on_found-Ends not_visited target (duplicate def) s = ended k s ok s (omega arith) (λ e. cc)
  on_found-Ends visiting target (duplicate def) s = ended k s ok s (omega arith) (λ e. cc)
  on_found-Ends scanned target (duplicate def) s = ended k s ok s (omega arith) (λ e. cc)
  on_found-Ends scan target no_target s = ended k s target_not_found s (omega arith) (λ e. cc)
  on_found-Ends scan target is_source s = mark-Ends target s
  on_found-Ends scan target broken s = ended k s failed s (omega arith) (λ e. cc)

  visit-Ends :
      (scan : ScanState) (target : ℕ) (needed_by : Option StepDef) (i : TargetInfo) (s : Scheduler)
      → get_elem? s.plan.targets target ≡ some i
      → pending_scan i.scan ≡ 1
      → Ends (suc k) s (visit g call scan target needed_by i s)
  unfolding visit
  visit-Ends scan target needed_by i s e new =
      let s1 = on_info target (set_scan visiting) s in
      let h1 = unvisited-visiting target s.plan.targets i e new in
      let s2 = record s1 { calls = s1.calls + 1 } in
      let r = on_found g call scan target (g.step_def target needed_by s1.calls) s2 in
      let h = on_found-Ends scan target (g.step_def target needed_by s1.calls) s2 in
      let last = λ (q : Scheduler).
        unvisited-on_target target (set_scan scanned) q.plan.targets (λ j. omega arith) in
      elim (Bool-cases i.source) [
        | inl source ↦ rw source (
            ended (suc k) s ok (on_info target (set_scan scanned) s1) (omega (arith, h1, last s1))
              (λ e. cc))
        | inr built ↦ rw built (record {
          fewer = omega (arith, h1, h.fewer, last r.1);
          ends = λ lt. h.ends (omega (arith, h1, lt));
        })
      ]

  by_scan-Ends :
      (target : ℕ) (needed_by : Option StepDef) (scan : ScanState) (i : TargetInfo) (s : Scheduler)
      → get_elem? s.plan.targets target ≡ some i
      → i.scan ≡ scan
      → Ends (suc k) s (by_scan g call scan target needed_by i s)
  unfolding by_scan
  by_scan-Ends target needed_by not_visited i s e new =
      visit-Ends not_visited target needed_by i s e (ap pending_scan new)
  by_scan-Ends target needed_by visiting i s e new =
      ended (suc k) s (cycle (g.path target ∷ [])) s (omega arith) (λ e. cc)
  by_scan-Ends target needed_by ignored i s e new =
      visit-Ends ignored target needed_by i s e (ap pending_scan new)
  by_scan-Ends target needed_by scanned i s e new = ended (suc k) s ok s (omega arith) (λ e. cc)

schedule_target-Ends :
    (g : Graph) (fuel target : ℕ) (needed_by : Option StepDef) (s : Scheduler)
    → Ends fuel s (schedule_target g fuel target needed_by s)
unfolding schedule_target
schedule_target-Ends g zero target needed_by s = record {
  fewer = omega arith;
  ends = λ lt. omega (arith, lt);
}
schedule_target-Ends g (suc fuel) target needed_by s =
    elim (Option-cases (get_elem? s.plan.targets target)) [
      | inl missing ↦
          rw (schedule_target, missing) (ended (suc fuel) s panicked s (omega arith) (λ e. cc))
      | inr (i, there) ↦
          rw (schedule_target, there)
            (by_scan-Ends g (λ def t. schedule_target g fuel t (some def)) fuel
              (λ def t. schedule_target-Ends g fuel t (some def)) target needed_by i.scan i s there
              refl)
    ]

schedule_root-Ends :
    (g : Graph) (fuel t : ℕ) (i : Option TargetInfo) (s : Scheduler)
    → Ends fuel s (schedule_root g fuel t i s)
unfolding schedule_root
schedule_root-Ends g fuel t none s = ended fuel s panicked s (omega arith) (λ e. cc)
schedule_root-Ends g fuel t (some i) s = by_root i.scan
  where
    by_root :
        (x : ScanState)
        → Ends fuel s (elim x [
          | not_visited ↦ schedule_target g fuel t none s
          | visiting ↦ (failed, s)
          | scanned ↦ (ok, s)
          | ignored ↦ (ok, s)
        ])
    by_root not_visited = schedule_target-Ends g fuel t none s
    by_root visiting = ended fuel s failed s (omega arith) (λ e. cc)
    by_root scanned = ended fuel s ok s (omega arith) (λ e. cc)
    by_root ignored = ended fuel s ok s (omega arith) (λ e. cc)

schedule_roots-Ends :
    (g : Graph) (fuel : ℕ) (ts : List ℕ) (s : Scheduler) → Ends fuel s (schedule_roots g fuel ts s)
unfolding schedule_roots
schedule_roots-Ends g fuel [] s = ended fuel s ok s (omega arith) (λ e. cc)
schedule_roots-Ends g fuel (t ∷ ts) s =
    let i = get_elem? s.plan.targets t in
    let r = schedule_root g fuel t i s in
    let h = schedule_root-Ends g fuel t i s in
    let h2 = schedule_roots-Ends g fuel ts r.1 in
    elim (Bool-cases (is_ok r.0)) [
      | inl good ↦ rw good (Ends-trans fuel s r.0 r.1 _ h.fewer h2)
      | inr bad ↦ rw bad h
    ]

schedule_all-ends :
    (g : Graph) (ts : List ℕ) (s : Scheduler) → (schedule_all g ts s).0 ≢ out_of_fuel
unfolding schedule_all
schedule_all-ends g ts s =
    (schedule_roots-Ends g (suc (length s.plan.targets)) ts s).ends
      (omega (arith, unvisited-bounded s.plan.targets))

-- Scheduling any targets over any graph ends, whatever the state of the scheduler: the fuel that
-- `schedule` gives its calls does not run out.
pub schedule-ends : (g : Graph) (ts : List ℕ) (s : Scheduler) → (schedule g ts s).0 ≢ out_of_fuel
unfolding schedule
schedule-ends g [] s = λ e. cc
schedule-ends g (t ∷ ts) s =
    let r = schedule_all g (t ∷ ts) s in
    elim (Bool-cases (is_ok r.0)) [
      | inl good ↦ rw good (schedule_all-ends g (g.validations r.1.calls) r.1)
      | inr bad ↦ rw bad (schedule_all-ends g (t ∷ ts) s)
    ]
