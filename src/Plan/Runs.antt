-- ===== src/Plan/Runs.antt =====
-- A build of three steps, from the scheduler on: steps 1 and 2 make the targets 2 and 3, and step 0 needs
-- both to make target 1.
use mathlib.Core.List.Permᴰ
use mathlib.Core.Path.{subst}
use siso.Common.{
  ℕ, zero, suc, ◌≤◌, ◌<◌, ◌≡◌, ◌↔◌, refl, sym, ap, ◌∙◌, ◌⊎◌, inl, inr, true, false, [], ◌∷◌, codes,
  arith,
}
use siso.Plan.State.{Plan, receive, send, ready_to_run, done}
use siso.Plan.Count.{tally}
use siso.Plan.Reach.{Reach, start, receives, finishes}
use siso.Plan.Schedule.{
  StepDef, Found, found, duplicate, no_target, ok, Scheduler, is_ok, on_found, schedule_step,
  finish_step, link_inputs, visit_input, on_target, needs_schedule, link_input, mark_outputs, add,
  enter, add_outputs, queue_step, set_output, wait_for,
}
use siso.Plan.Targets.{
  schedule, schedule_all, schedule_roots, schedule_root, schedule_target, by_scan, visit,
  new_scheduler,
}
use siso.Plan.Scheduled.{IsDef, IsDefOf, IsGraph}
use siso.Plan.Filled.{open_targets}
use siso.Plan.Wiring.{inputs_of}
use siso.Plan.Needs.{AreDone, schedule-Reach}
use siso.Plan.Samples.{graph, defs, makes}

abbrev def_of : StepDef → Found → StepDef
def_of d (found e) = e
def_of d (duplicate e) = e
def_of d _ = d

-- What `defs` answers is that definition.
found_IsDef :
    (f : Found) (def d : StepDef)
    → f ≡ found d
    → IsDef d
    → (f ≡ found def) ⊎ (f ≡ duplicate def)
    → IsDef def
found_IsDef f def d e h (inl g) = subst IsDef (ap (def_of d) (sym e ∙ g)) h
found_IsDef f def d e h (inr g) = subst IsDef (ap (def_of d) (sym e ∙ g)) h

never : (def : StepDef) → (no_target ≡ found def) ⊎ (no_target ≡ duplicate def) → IsDef def
never def (inl e) = cc
never def (inr e) = cc

defs-IsDef : (t : ℕ) (def : StepDef) → (defs t ≡ found def) ⊎ (defs t ≡ duplicate def) → IsDef def
defs-IsDef zero def h = never def h
defs-IsDef (suc zero) def h =
    found_IsDef _ def (makes (codes "link") (2 ∷ 3 ∷ []) 1) refl
      (record {
        targets = ((λ e. omega (arith, e)), ((λ e. omega (arith, e)), tt));
        few = omega arith;
      })
      h
defs-IsDef (suc (suc zero)) def h =
    found_IsDef _ def (makes (codes "cc a") [] 2) refl (record { targets = tt; few = omega arith })
      h
defs-IsDef (suc (suc (suc zero))) def h =
    found_IsDef _ def (makes (codes "cc b") [] 3) refl (record { targets = tt; few = omega arith })
      h
defs-IsDef (suc (suc (suc (suc t)))) def h = never def h

graph-IsGraph : IsGraph graph
graph-IsGraph = record { defs = λ t by n def h. defs-IsDef t def h }

abbrev new : Scheduler
new = new_scheduler 4 (λ n. 1)

abbrev filled : Scheduler
filled = (schedule graph (1 ∷ []) new).1

schedules : schedule graph (1 ∷ []) new ≡ (ok, filled)
unfolding schedule schedule_all schedule_roots is_ok schedule_root schedule_target by_scan visit
    on_found schedule_step finish_step link_inputs visit_input on_target needs_schedule link_input
    mark_outputs add enter add_outputs queue_step set_output wait_for ready_to_run receive send
    new_scheduler
schedules = refl

abbrev after : Plan
after = done 1 (receive filled.plan)

-- The builder takes both compile steps, and finishes the first.
run : Reach (open_targets filled.plan) filled.plan (1 ∷ 3 ∷ []) after
unfolding schedule schedule_all schedule_roots is_ok schedule_root schedule_target by_scan visit
    on_found schedule_step finish_step link_inputs visit_input on_target needs_schedule link_input
    mark_outputs add enter add_outputs queue_step set_output wait_for ready_to_run receive send
    new_scheduler
run = finishes 1 (1 ∷ 3 ∷ []) (receives start) (omega arith) (Permᴰ.swap refl refl)

schedule-Reach_example :
    (tally 0 after ≤ 1)
    × (filled.planned 0 ≡ false → tally 0 after ≡ 0)
    × (filled.planned 0 ≡ true
        → (def : StepDef) × IsDefOf graph def
          × ((filled.plan.steps 0).outputs ≡ def.outputs)
          × (0 < tally 0 after → AreDone filled.plan.targets (1 ∷ 3 ∷ []) (inputs_of def))
          × (after.closed ≡ false
              → (tally 0 after ≡ 1) ↔ AreDone filled.plan.targets (1 ∷ 3 ∷ []) (inputs_of def)))
schedule-Reach_example =
    schedule-Reach graph (1 ∷ []) 4 (λ n. 1) filled (1 ∷ 3 ∷ []) after 0 graph-IsGraph schedules run
