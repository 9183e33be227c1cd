-- ===== src/Plan/Unvisited.antt =====
-- How many targets are still to be visited: no operation of build/plan.go makes them more.
use mathlib.Core.Option.{some-injective}
use siso.Common.{
  ℕ, zero, suc, ◌+◌, ◌≤◌, ◌≡◌, refl, ap, Bool, true, false, List, [], ◌∷◌, ◌++◌, some,
  if◌then◌else◌, Bool-cases, inl, inr, length, get_elem?, arith,
}
use siso.Plan.State.{
  ScanState, not_visited, visiting, ignored, scanned, TargetInfo, Plan, send, set_step,
  ready_to_run, Step,
}
use siso.Plan.Count.{send-SameRest}
use siso.Plan.Schedule.{
  StepDef, Graph, Outcome, ok, Scheduler, on_info, on_target, set_scan, scan_if_new, mark_outputs,
  set_output, queue_step, enter, add_outputs, plan_step, add, wait_for, finish_step,
}

abbrev pub pending_scan : ScanState → ℕ
pending_scan not_visited = 1
pending_scan ignored = 1
pending_scan _ = 0

-- How many targets are not visited yet, or ignored so far.
abbrev pub unvisited_of : List TargetInfo → ℕ
unvisited_of [] = 0
unvisited_of (i ∷ is) = pending_scan i.scan + unvisited_of is

abbrev pub unvisited : Scheduler → ℕ
unvisited s = unvisited_of s.plan.targets

pub unvisited-on_target :
    (t : ℕ) (f : TargetInfo → TargetInfo) (is : List TargetInfo)
    → ((i : TargetInfo) → pending_scan (f i).scan ≤ pending_scan i.scan)
    → unvisited_of (on_target t f is) ≤ unvisited_of is
unfolding on_target
unvisited-on_target t f [] h = omega arith
unvisited-on_target zero f (i ∷ is) h = omega (arith, h i)
unvisited-on_target (suc t) f (i ∷ is) h = omega (arith, unvisited-on_target t f is h)

-- Visiting a target takes it off the count.
pub unvisited-visiting :
    (t : ℕ) (is : List TargetInfo) (i : TargetInfo)
    → get_elem? is t ≡ some i
    → pending_scan i.scan ≡ 1
    → unvisited_of (on_target t (set_scan visiting) is) + 1 ≡ unvisited_of is
unfolding on_target
unvisited-visiting t [] i e h = cc
unvisited-visiting zero (j ∷ is) i e h =
    let same : pending_scan j.scan ≡ pending_scan i.scan =
      ap (λ x. pending_scan x.scan) (some-injective j i e) in
    omega (arith, same, h)
unvisited-visiting (suc t) (j ∷ is) i e h = omega (arith, unvisited-visiting t is i e h)

pub unvisited-mark_outputs :
    (os : List ℕ) (s : Scheduler) → unvisited (mark_outputs os s) ≤ unvisited s
unfolding mark_outputs
unvisited-mark_outputs [] s = omega arith
unvisited-mark_outputs (o ∷ os) s =
    let h = unvisited-on_target o scan_if_new s.plan.targets (λ i. ground arith) in
    omega (arith, unvisited-mark_outputs os (on_info o scan_if_new s), h)

pub unvisited-set_output : (os : List ℕ) (s : Scheduler) → unvisited (set_output os s) ≤ unvisited s
unfolding set_output
unvisited-set_output [] s = omega arith
unvisited-set_output (o ∷ os) s =
    let h =
      unvisited-on_target o (λ i. record i { output = true }) s.plan.targets (λ i. omega arith) in
    omega (arith, unvisited-set_output os (on_info o (λ i. record i { output = true }) s), h)

pub targets-queue_step : (sid : ℕ) (p : Plan) → (queue_step sid p).targets ≡ p.targets
unfolding queue_step
targets-queue_step sid p = elim (Bool-cases (send sid p).0) [
  | inl room ↦ rw room (send-SameRest sid p).targets
  | inr full ↦ rw full (send-SameRest sid p).targets
]

pub targets-enter : (sid : ℕ) (ready : Bool) (p : Plan) → (enter sid ready p).targets ≡ p.targets
unfolding enter
targets-enter sid true p = targets-queue_step sid p
targets-enter sid false p = refl

pub unvisited-add_outputs :
    (step : Step) (s : Scheduler) → unvisited (add_outputs step s) ≤ unvisited s
unfolding add_outputs
unvisited-add_outputs step s = elim (Bool-cases step.is_phony) [
  | inl phony ↦ rw phony (omega arith)
  | inr real ↦ rw real (unvisited-set_output step.outputs s)
]

pub unvisited-add : (sid : ℕ) (s : Scheduler) → unvisited (add sid s) ≤ unvisited s
unfolding add
unvisited-add sid s =
    let step = s.plan.steps sid in
    let s1 = plan_step sid (record s { total = s.total + 1 }) in
    let s2 = add_outputs step s1 in
    let (info, ready) = ready_to_run [] 0 step in
    let p = record s2.plan { steps = set_step sid info s2.plan.steps } in
    omega (arith, ap unvisited_of (targets-enter sid ready p), unvisited-add_outputs step s1)

pub unvisited-finish_step :
    (g : Graph) (call : StepDef → ℕ → Scheduler → Outcome × Scheduler) (sid : ℕ) (def : StepDef)
    (r : Outcome × Scheduler)
    → unvisited (finish_step g call sid def r).1 ≤ unvisited r.1
unfolding finish_step
unvisited-finish_step g call sid def (ok, s) = unvisited-add sid (record s {
  plan = record s.plan {
    steps = set_step sid (record (s.plan.steps sid) { outputs = def.outputs }) s.plan.steps;
  };
})
unvisited-finish_step g call sid def (_, s) = omega arith

pub unvisited-wait_for : (sid t : ℕ) (s : Scheduler) → unvisited (wait_for sid t s) ≤ unvisited s
unfolding wait_for
unvisited-wait_for sid t s =
    unvisited-on_target t (λ i. record i { waits = i.waits ++ sid ∷ [] }) s.plan.targets
      (λ i. omega arith)

pub unvisited-link :
    (source : Bool) (sid t : ℕ) (s : Scheduler)
    → unvisited (if source then s else wait_for sid t s) ≤ unvisited s
unvisited-link true sid t s = omega arith
unvisited-link false sid t s = unvisited-wait_for sid t s

pub unvisited-bounded : (is : List TargetInfo) → unvisited_of is ≤ length is
unvisited-bounded [] = omega arith
unvisited-bounded (i ∷ is) =
    let one : pending_scan i.scan ≤ 1 = by_scan_state i.scan in
    omega (arith, one, unvisited-bounded is)
  where
    by_scan_state : (x : ScanState) → pending_scan x ≤ 1
    by_scan_state not_visited = omega arith
    by_scan_state visiting = omega arith
    by_scan_state ignored = omega arith
    by_scan_state scanned = omega arith
