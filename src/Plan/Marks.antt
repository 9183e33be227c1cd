-- ===== src/Plan/Marks.antt =====
-- The marks of the targets, and `add`: what they leave of a plan's account.
use mathlib.Core.Path.{subst}
use siso.Common.{
  ℕ, ◌+◌, ◌<◌, ◌≡◌, refl, sym, ap, ◌∙◌, Bool, true, false, List, [], ◌∷◌, ◌==◌, Bool-cases, inl,
  inr, arith,
}
use siso.Plan.State.{
  TargetInfo, Step, set_step, ready_to_run, not_visited, visiting, ignored, scanned,
}
use siso.Plan.Schedule.{
  Outcome, Scheduler, on_info, plan_step, scan_if_new, mark_outputs, set_output, add_outputs, enter,
  add,
}
use siso.Plan.Account.{
  IsPlanned, IsPlanned-on_target, IsPlanned-same, IsPlanned-enter, plan_one, enter-SameCore,
}
use siso.Plan.Adding.{IsSound, Adds}
use siso.Plan.State.{waits_of}
use siso.Plan.Count.{count}
use siso.Plan.Schedule.{StepDef}
use siso.Plan.Wiring.{
  source_of, Keeps, Keeps-refl, Keeps-trans, Made-Keeps, on_info-Keeps, outputs-set_step,
}

-- A change of marks only.
pub record Marks (s s' : Scheduler) : Type 0 where
  pub nsteps : s'.nsteps ≡ s.nsteps
  pub planned : s'.planned ≡ s.planned
  pub steps : s'.plan.steps ≡ s.plan.steps
  pub sound :
      (n : ℕ) (planned : ℕ → Bool) → IsPlanned s.plan n planned → IsPlanned s'.plan n planned
  pub keeps : Keeps (λ t. Unit) s s'

Marks-refl : (s : Scheduler) → Marks s s
Marks-refl s = record {
  nsteps = refl;
  planned = refl;
  steps = refl;
  sound = λ n pl h. h;
  keeps = Keeps-refl (λ t. Unit) s;
}

Marks-trans : (s s1 s2 : Scheduler) → Marks s s1 → Marks s1 s2 → Marks s s2
Marks-trans s s1 s2 a b = record {
  nsteps = b.nsteps ∙ a.nsteps;
  planned = b.planned ∙ a.planned;
  steps = b.steps ∙ a.steps;
  sound = λ n pl h. b.sound n pl (a.sound n pl h);
  keeps =
      Keeps-trans (λ t. Unit) (λ t. Unit) (λ t. Unit) s s1 s2 (λ t k. k) (λ t k. k) a.keeps b.keeps;
}

on_info-Marks :
    (t : ℕ) (f : TargetInfo → TargetInfo) (s : Scheduler)
    → ((i : TargetInfo) → (f i).waits ≡ i.waits)
    → ((i : TargetInfo) → (f i).source ≡ false → i.source ≡ false)
    → Marks s (on_info t f s)
on_info-Marks t f s h src = record {
  nsteps = refl;
  planned = refl;
  steps = refl;
  sound = λ n pl k. IsPlanned-on_target t f s.plan n pl h k;
  keeps = on_info-Keeps (λ y. Unit) t f s h src;
}

waits-scan_if_new : (i : TargetInfo) → (scan_if_new i).waits ≡ i.waits
waits-scan_if_new i = elim i.scan as (λ x. (scan_if_new (record i { scan = x })).waits ≡ i.waits) [
  | not_visited ↦ refl
  | visiting ↦ refl
  | ignored ↦ refl
  | scanned ↦ refl
]

source-scan_if_new : (i : TargetInfo) → (scan_if_new i).source ≡ i.source
source-scan_if_new i =
    elim i.scan as (λ x. (scan_if_new (record i { scan = x })).source ≡ i.source) [
      | not_visited ↦ refl
      | visiting ↦ refl
      | ignored ↦ refl
      | scanned ↦ refl
    ]

pub mark_outputs-Marks : (os : List ℕ) (s : Scheduler) → Marks s (mark_outputs os s)
unfolding mark_outputs
mark_outputs-Marks [] s = Marks-refl s
mark_outputs-Marks (o ∷ os) s =
    let s1 = on_info o scan_if_new s in
    Marks-trans s s1 _
      (on_info-Marks o scan_if_new s waits-scan_if_new (λ i e. sym (source-scan_if_new i) ∙ e))
      (mark_outputs-Marks os s1)

set_output-Marks : (os : List ℕ) (s : Scheduler) → Marks s (set_output os s)
unfolding set_output
set_output-Marks [] s = Marks-refl s
set_output-Marks (o ∷ os) s =
    let f : TargetInfo → TargetInfo = λ i. record i { output = true } in
    let s1 = on_info o f s in
    Marks-trans s s1 _ (on_info-Marks o f s (λ i. refl) (λ i e. e)) (set_output-Marks os s1)

add_outputs-Marks : (step : Step) (s : Scheduler) → Marks s (add_outputs step s)
unfolding add_outputs
add_outputs-Marks step s = elim (Bool-cases step.is_phony) [
  | inl phony ↦ rw phony (Marks-refl s)
  | inr real ↦ rw real (set_output-Marks step.outputs s)
]

pub Adds-Marks :
    {Q : StepDef → Type 0} (s : Scheduler) (o : Outcome) (s1 s2 : Scheduler)
    → Marks s1 s2
    → Adds Q s (o, s1)
    → Adds Q s (o, s2)
Adds-Marks s o s1 s2 m a = record {
  inv = rw (m.nsteps, m.planned) (m.sound s1.nsteps s1.planned a.inv);
  grows = omega (arith, m.nsteps, a.grows);
  frame = λ t lt. ap (λ f. (f t).nwaits) m.steps ∙ a.frame t lt;
  old = λ t lt. ap (λ f. f t) m.planned ∙ a.old t lt;
  complete = λ e t le lt. ap (λ f. f t) m.planned ∙ a.complete e t le (omega (arith, lt, m.nsteps));
  keeps =
      Keeps-trans (λ t. t < s.nsteps) (λ t. Unit) (λ t. t < s.nsteps) s s1 s2 (λ t k. k) (λ t k. tt)
        a.keeps m.keeps;
  made = λ t le pl.
      Made-Keeps (λ y. Unit) t s1 s2 m.keeps tt (a.made t le (ap (λ f. f t) (sym m.planned) ∙ pl));
}

nwaits-ready : (step : Step) → (ready_to_run [] 0 step).0.nwaits ≡ step.nwaits
unfolding ready_to_run
nwaits-ready step = elim (Bool-cases (step.nwaits == 0)) [
  | inl now ↦ rw now refl
  | inr later ↦ rw later refl
]

outputs-ready : (step : Step) → (ready_to_run [] 0 step).0.outputs ≡ step.outputs
unfolding ready_to_run
outputs-ready step = elim (Bool-cases (step.nwaits == 0)) [
  | inl now ↦ rw now refl
  | inr later ↦ rw later refl
]

ready-nwaits : (step : Step) → (ready_to_run [] 0 step).1 ≡ (step.nwaits == 0)
unfolding ready_to_run
ready-nwaits step = elim (Bool-cases (step.nwaits == 0)) [
  | inl now ↦ rw now refl
  | inr later ↦ rw later refl
]

pub nwaits-set_step :
    (sid t : ℕ) (step : Step) (steps : ℕ → Step)
    → step.nwaits ≡ (steps sid).nwaits
    → (set_step sid step steps t).nwaits ≡ (steps t).nwaits
nwaits-set_step sid t step steps e = elim (Bool-cases (t == sid)) [
  | inl same ↦ let f : t ≡ sid = ground arith in rw same (e ∙ ap (λ y. (steps y).nwaits) (sym f))
  | inr other ↦ rw other refl
]

-- What `add` does.
pub record Added (sid : ℕ) (s s' : Scheduler) : Type 0 where
  pub inv : IsSound s'
  pub nsteps : s'.nsteps ≡ s.nsteps
  pub planned : (t : ℕ) → s'.planned t ≡ plan_one sid s.planned t
  pub steps : (t : ℕ) → (s'.plan.steps t).nwaits ≡ (s.plan.steps t).nwaits
  pub keeps : Keeps (λ t. Unit) s s'

pub add-Added :
    (sid : ℕ) (s : Scheduler)
    → sid < s.nsteps
    → s.planned sid ≡ false
    → IsSound s
    → Added sid s (add sid s)
unfolding add
add-Added sid s lt off h =
    let step = s.plan.steps sid in
    let s1 = plan_step sid (record s { total = s.total + 1 }) in
    let m = add_outputs-Marks step s1 in
    let s2 = add_outputs step s1 in
    let info = (ready_to_run [] 0 step).0 in
    let p = record s2.plan { steps = set_step sid info s2.plan.steps } in
    let same : (t : ℕ) → (p.steps t).nwaits ≡ (s2.plan.steps t).nwaits = λ t.
      nwaits-set_step sid t info s2.plan.steps
        (nwaits-ready step ∙ ap (λ f. (f sid).nwaits) (sym m.steps)) in
    let sound : IsPlanned p s.nsteps s.planned =
      IsPlanned-same s2.plan p s.nsteps s.planned refl same (λ t. refl) refl
        (m.sound s.nsteps s.planned h) in
    let r : (ready_to_run [] 0 step).1 ≡ ((p.steps sid).nwaits == 0) =
      ready-nwaits step ∙ ap (λ n. n == 0) (sym (same sid ∙ ap (λ f. (f sid).nwaits) m.steps)) in
    let entered = IsPlanned-enter sid p s.nsteps s.planned lt off sound in
    let c = enter-SameCore sid (ready_to_run [] 0 step).1 p in
    record {
      inv =
          rw (m.nsteps, m.planned)
            (subst (λ b. IsPlanned (enter sid b p) s.nsteps (plan_one sid s.planned)) (sym r)
              entered);
      nsteps = m.nsteps;
      planned = λ t. ap (λ f. f t) m.planned;
      steps = λ t. ap (λ f. (f t).nwaits) c.steps ∙ same t ∙ ap (λ f. (f t).nwaits) m.steps;
      keeps = record {
        waits = λ t k x. ap (λ is. count t (waits_of x is)) c.targets ∙ m.keeps.waits t tt x;
        sources = λ x e. m.keeps.sources x (ap (source_of x) (sym c.targets) ∙ e);
        outputs = λ t k.
            ap (λ f. (f t).outputs) c.steps
            ∙ outputs-set_step sid t info s2.plan.steps
                (outputs-ready step ∙ ap (λ f. (f sid).outputs) (sym m.steps))
            ∙ m.keeps.outputs t tt;
      };
    }
