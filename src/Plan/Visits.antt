-- ===== src/Plan/Visits.antt =====
-- Scheduling keeps the entries of the targets tidy: nothing waits for a source.
use mathlib.Core.Bool.{false≢true}
use mathlib.Core.Path.{subst}
use siso.Common.{
  ℕ, zero, suc, ◌+◌, ◌-◌, ◌≡◌, refl, sym, ap, ◌∙◌, true, List, [], ◌∷◌, ◌++◌, Option, none, some,
  ltb, Bool-cases, Option-cases, inl, inr, length, get_elem?, All, replicate,
}
use siso.Plan.State.{ScanState, not_visited, visiting, ignored, scanned, TargetInfo, set_step}
use siso.Plan.Schedule.{
  StepDef, Found, found, duplicate, no_target, is_source, broken, Graph, Outcome, ok, failed,
  Scheduler, on_info, on_plan, set_scan, needs_schedule, link_input, is_ok, visit_input,
  link_inputs, new_step, finish_step, schedule_step, mark, on_found,
}
use siso.Plan.Targets.{
  visit, by_scan, schedule_target, schedule_root, schedule_roots, schedule_all, schedule,
  new_scheduler, new_target,
}
use siso.Plan.Adding.{is_ok-ok}
use siso.Plan.Tidy.{
  is_new, IsQuiet, IsTidy, AreTidy, At, IsSeen, on_target-All, on_target-At, AreTidy-At,
  AreTidy-on_info, mark_outputs-AreTidy, add-AreTidy, link_input-AreTidy, seen_scan,
}

-- A call that keeps the entries tidy, and has seen its target if it succeeds.
abbrev pub Visits : ℕ → Outcome × Scheduler → Type 0
Visits t r = AreTidy r.1 × (r.0 ≡ ok → At IsSeen t r.1.plan.targets)

module _ (g : Graph) (call : StepDef → ℕ → Scheduler → Outcome × Scheduler)
    (call-Visits : (def : StepDef) (t : ℕ) (s : Scheduler)
      → AreTidy s
      → Visits t (call def t s)) where
  visit_input-Visits :
      (def : StepDef) (t : ℕ) (i : Option TargetInfo) (s : Scheduler)
      → get_elem? s.plan.targets t ≡ i
      → AreTidy s
      → Visits t (visit_input g call def t i s)
  unfolding visit_input
  visit_input-Visits def t none s e h = (h, λ f. absurd cc)
  visit_input-Visits def t (some i) s e h = elim (Bool-cases (needs_schedule i.scan)) [
    | inl needed ↦ rw needed (call-Visits def t s h)
    | inr over ↦ rw over (
      h,
      λ f j k. let same : i ≡ j = cc in ap (λ y. is_new y.scan) (sym same) ∙ seen_scan i.scan over,
    )
  ]

  link_inputs-AreTidy :
      (sid : ℕ) (def : StepDef) (triggers : ℕ) (ts : List ℕ) (s : Scheduler)
      → AreTidy s
      → AreTidy (link_inputs g call sid def triggers ts s).1
  unfolding link_inputs
  link_inputs-AreTidy sid def triggers [] s h = h
  link_inputs-AreTidy sid def triggers (t ∷ ts) s h =
      let r = visit_input g call def t (get_elem? s.plan.targets t) s in
      let a = visit_input-Visits def t (get_elem? s.plan.targets t) s refl h in
      let r2 = link_input sid def (ltb 0 triggers) t (get_elem? r.1.plan.targets t) r.1 in
      elim (Bool-cases (is_ok r.0)) [
        | inr bad ↦ rw bad a.0
        | inl good ↦
            let b =
              link_input-AreTidy sid def (ltb 0 triggers) t (get_elem? r.1.plan.targets t) r.1 refl
                (a.1 (is_ok-ok r.0 good)) a.0 in
            elim (Bool-cases (is_ok r2.0)) [
              | inl fine ↦ rw good (rw fine (link_inputs-AreTidy sid def (triggers - 1) ts r2.1 b))
              | inr bad ↦ rw good (rw bad b)
            ]
      ]

  finish_step-AreTidy :
      (sid : ℕ) (def : StepDef) (r : Outcome × Scheduler)
      → AreTidy r.1
      → AreTidy (finish_step g call sid def r).1
  unfolding finish_step
  finish_step-AreTidy sid def (ok, s) h =
      add-AreTidy sid
        (on_plan
          (λ p. record p {
            steps = set_step sid (record (p.steps sid) { outputs = def.outputs }) p.steps;
          })
          s)
        h
  finish_step-AreTidy sid def (o, s) h = h

  schedule_step-AreTidy :
      (target : ℕ) (def : StepDef) (s : Scheduler)
      → AreTidy s
      → AreTidy (schedule_step g call target def s).1
  unfolding schedule_step
  schedule_step-AreTidy target def s h =
      let set : TargetInfo → TargetInfo = λ i. record i { phony_output = def.phony_output } in
      let s1 = on_info target set s in
      let s2 = record s1 { visited = s1.visited + 1 } in
      let h2 : AreTidy s2 = AreTidy-on_info target set s (λ i k. k) h in
      let sid = s2.nsteps in
      let s3 = record s2 {
        nsteps = sid + 1;
        plan = record s2.plan { steps = set_step sid (new_step g call def) s2.plan.steps };
      } in
      let r = link_inputs g call sid def (length def.inputs) (def.inputs ++ def.order_only) s3 in
      let f = finish_step g call sid def r in
      let l =
        link_inputs-AreTidy sid def (length def.inputs) (def.inputs ++ def.order_only) s3 h2 in
      elim (Bool-cases (g.cancelled (s1.visited + 1))) [
        | inl stop ↦ rw stop (mark_outputs-AreTidy def.outputs s2 h2)
        | inr on ↦ rw on (mark_outputs-AreTidy def.outputs f.1 (finish_step-AreTidy sid def r l))
      ]

  mark-AreTidy :
      (target : ℕ) (s : Scheduler)
      → At IsQuiet target s.plan.targets
      → AreTidy s
      → AreTidy (mark g call target s).1
  unfolding mark
  mark-AreTidy target s quiet h = elim (Bool-cases (g.exists target)) [
    | inl there ↦
        rw there
          (on_target-All IsTidy target _ s.plan.targets (λ i e k. ((λ src. quiet i e), k.1)) h)
    | inr missing ↦ rw missing h
  ]

  on_found-AreTidy :
      (scan : ScanState) (target : ℕ) (f : Found) (s : Scheduler)
      → At IsQuiet target s.plan.targets
      → AreTidy s
      → AreTidy (on_found g call scan target f s).1
  unfolding on_found
  on_found-AreTidy scan target (found def) s q h = schedule_step-AreTidy target def s h
  on_found-AreTidy ignored target (duplicate def) s q h = schedule_step-AreTidy target def s h
  on_found-AreTidy not_visited target (duplicate def) s q h = h
  on_found-AreTidy visiting target (duplicate def) s q h = h
  on_found-AreTidy scanned target (duplicate def) s q h = h
  on_found-AreTidy scan target no_target s q h = h
  on_found-AreTidy scan target is_source s q h = mark-AreTidy target s q h
  on_found-AreTidy scan target broken s q h = h

  scanned-Visits :
      (target : ℕ) (r : Outcome × Scheduler)
      → AreTidy r.1
      → Visits target (r.0, on_info target (set_scan scanned) r.1)
  scanned-Visits target r h = (
    AreTidy-on_info target (set_scan scanned) r.1 (λ i k. (k.0, λ e. absurd (false≢true e))) h,
    (λ e. on_target-At IsSeen target (set_scan scanned) r.1.plan.targets (λ i k. refl)),
  )

  visit-Visits :
      (scan : ScanState) (target : ℕ) (needed_by : Option StepDef) (i : TargetInfo) (s : Scheduler)
      → get_elem? s.plan.targets target ≡ some i
      → is_new i.scan ≡ true
      → AreTidy s
      → Visits target (visit g call scan target needed_by i s)
  unfolding visit
  visit-Visits scan target needed_by i s e new h =
      let s1 = on_info target (set_scan visiting) s in
      let h1 : AreTidy s1 =
        AreTidy-on_info target (set_scan visiting) s (λ j k. (k.0, λ q. absurd (false≢true q))) h in
      let quiet : At IsQuiet target s1.plan.targets =
        on_target-At IsQuiet target (set_scan visiting) s.plan.targets (λ j k.
          let same : i ≡ j = cc in (AreTidy-At target s.plan.targets h j k).1 (rw⁻¹ same new)) in
      let s2 = record s1 { calls = s1.calls + 1 } in
      let f = g.step_def target needed_by s1.calls in
      elim (Bool-cases i.source) [
        | inl source ↦ rw source (scanned-Visits target (ok, s1) h1)
        | inr built ↦ rw built (
            scanned-Visits target (on_found g call scan target f s2)
              (on_found-AreTidy scan target f s2 quiet h1))
      ]

  pub by_scan-Visits :
      (target : ℕ) (needed_by : Option StepDef) (i : TargetInfo) (s : Scheduler)
      → get_elem? s.plan.targets target ≡ some i
      → AreTidy s
      → Visits target (by_scan g call i.scan target needed_by i s)
  by_scan-Visits target needed_by i s e h = at_scan i.scan refl
    where
      at_scan : (x : ScanState) → i.scan ≡ x → Visits target (by_scan g call x target needed_by i s)
      at_scan not_visited q =
          unfold by_scan in visit-Visits not_visited target needed_by i s e (ap is_new q) h
      at_scan visiting q = unfold by_scan in (h, λ f. absurd cc)
      at_scan ignored q =
          unfold by_scan in visit-Visits ignored target needed_by i s e (ap is_new q) h
      at_scan scanned q =
          unfold by_scan in
          (h, λ f j k. let same : i ≡ j = cc in ap (λ y. is_new y.scan) (sym same) ∙ ap is_new q)

schedule_target-Visits :
    (g : Graph) (fuel target : ℕ) (needed_by : Option StepDef) (s : Scheduler)
    → AreTidy s
    → Visits target (schedule_target g fuel target needed_by s)
unfolding schedule_target
schedule_target-Visits g zero target needed_by s h = (h, λ f. absurd cc)
schedule_target-Visits g (suc fuel) target needed_by s h =
    elim (Option-cases (get_elem? s.plan.targets target)) [
      | inl missing ↦ rw (schedule_target, missing) (h, λ f. absurd cc)
      | inr (i, there) ↦
          rw (schedule_target, there)
            (by_scan-Visits g (λ def t. schedule_target g fuel t (some def))
              (λ def t s' k. schedule_target-Visits g fuel t (some def) s' k) target needed_by i s
              there h)
    ]

abbrev LeavesTidy : Outcome × Scheduler → Type 0
LeavesTidy r = AreTidy r.1

schedule_root-AreTidy :
    (g : Graph) (fuel t : ℕ) (i : Option TargetInfo) (s : Scheduler)
    → AreTidy s
    → AreTidy (schedule_root g fuel t i s).1
schedule_root-AreTidy g fuel t none s h = unfold schedule_root in h
schedule_root-AreTidy g fuel t (some i) s h = unfold schedule_root in by_root i.scan
  where
    by_root :
        (x : ScanState)
        → LeavesTidy (elim x [
          | not_visited ↦ schedule_target g fuel t none s
          | visiting ↦ (failed, s)
          | scanned ↦ (ok, s)
          | ignored ↦ (ok, s)
        ])
    by_root not_visited = (schedule_target-Visits g fuel t none s h).0
    by_root visiting = h
    by_root scanned = h
    by_root ignored = h

schedule_roots-AreTidy :
    (g : Graph) (fuel : ℕ) (ts : List ℕ) (s : Scheduler)
    → AreTidy s
    → AreTidy (schedule_roots g fuel ts s).1
unfolding schedule_roots
schedule_roots-AreTidy g fuel [] s h = h
schedule_roots-AreTidy g fuel (t ∷ ts) s h =
    let r = schedule_root g fuel t (get_elem? s.plan.targets t) s in
    let a = schedule_root-AreTidy g fuel t (get_elem? s.plan.targets t) s h in
    elim (Bool-cases (is_ok r.0)) [
      | inl good ↦ rw good (schedule_roots-AreTidy g fuel ts r.1 a)
      | inr bad ↦ rw bad a
    ]

new-AreTidy : (n : ℕ) → All IsTidy (replicate n new_target)
new-AreTidy zero = tt
new-AreTidy (suc n) = (((λ e. refl), (λ e. refl)), new-AreTidy n)

schedule-LeavesTidy :
    (g : Graph) (ts : List ℕ) (s : Scheduler) → AreTidy s → LeavesTidy (schedule g ts s)
unfolding schedule schedule_all
schedule-LeavesTidy g [] s h = h
schedule-LeavesTidy g (t ∷ ts) s h =
    let r = schedule_all g (t ∷ ts) s in
    let a : AreTidy r.1 = schedule_roots-AreTidy g (suc (length s.plan.targets)) (t ∷ ts) s h in
    elim (Bool-cases (is_ok r.0)) [
      | inl good ↦
          rw good (
            schedule_roots-AreTidy g (suc (length r.1.plan.targets)) (g.validations r.1.calls) r.1
              a)
      | inr bad ↦ rw bad a
    ]

pub schedule-AreTidy :
    (g : Graph) (ts : List ℕ) (n : ℕ) (receives : ℕ → ℕ) (s : Scheduler)
    → schedule g ts (new_scheduler n receives) ≡ (ok, s)
    → All IsTidy s.plan.targets
unfolding new_scheduler
schedule-AreTidy g ts n receives s e =
    subst LeavesTidy e (schedule-LeavesTidy g ts (new_scheduler n receives) (new-AreTidy n))
