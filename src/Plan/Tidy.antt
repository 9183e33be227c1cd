-- ===== src/Plan/Tidy.antt =====
-- No step waits for a source: a target is marked as one before any step can wait for it.
use mathlib.Core.Bool.{false≢true}
use siso.Common.{
  ℕ, zero, suc, ◌+◌, ◌≡◌, refl, sym, ap, ◌∙◌, Bool, true, false, not, ◌&&◌, List, [], ◌∷◌, Option,
  none, some, Bool-cases, inl, inr, get_elem?, All,
}
use siso.Plan.State.{
  ScanState, not_visited, visiting, ignored, scanned, TargetInfo, Step, ready_to_run, set_step,
}
use siso.Plan.Schedule.{
  StepDef, Scheduler, on_target, on_info, scan_if_new, mark_outputs, set_output, add_outputs,
  plan_step, add, wait_for, needs_schedule, link_input,
}
use siso.Plan.Account.{enter-SameCore}

-- A target that has yet to be visited.
abbrev pub is_new : ScanState → Bool
is_new not_visited = true
is_new ignored = true
is_new visiting = false
is_new scanned = false

abbrev pub IsQuiet : TargetInfo → Type 0
IsQuiet i = i.waits ≡ []

-- Nothing waits for a source, or for a target that has yet to be visited.
abbrev pub IsTidy : TargetInfo → Type 0
IsTidy i = (i.source ≡ true → IsQuiet i) × (is_new i.scan ≡ true → IsQuiet i)

abbrev pub AreTidy : Scheduler → Type 0
AreTidy s = All IsTidy s.plan.targets

-- What is true of the entry of a target, if there is one.
abbrev pub At : (TargetInfo → Type 0) → ℕ → List TargetInfo → Type 0
At P t is = (i : TargetInfo) → get_elem? is t ≡ some i → P i

abbrev pub IsSeen : TargetInfo → Type 0
IsSeen i = is_new i.scan ≡ false

pub on_target-All :
    (P : TargetInfo → Type 0) (t : ℕ) (f : TargetInfo → TargetInfo) (is : List TargetInfo)
    → At (λ i. P i → P (f i)) t is
    → All P is
    → All P (on_target t f is)
unfolding on_target
on_target-All P t f [] k h = tt
on_target-All P zero f (i ∷ is) k h = (k i refl h.0, h.1)
on_target-All P (suc t) f (i ∷ is) k h = (h.0, on_target-All P t f is k h.1)

pub on_target-At :
    (P : TargetInfo → Type 0) (t : ℕ) (f : TargetInfo → TargetInfo) (is : List TargetInfo)
    → At (λ i. P (f i)) t is
    → At P t (on_target t f is)
unfolding on_target
on_target-At P t f [] k i e = absurd cc
on_target-At P zero f (j ∷ is) k i e = let q : f j ≡ i = cc in rw⁻¹ q (k j refl)
on_target-At P (suc t) f (j ∷ is) k i e = on_target-At P t f is k i e

pub AreTidy-At : (t : ℕ) (is : List TargetInfo) → All IsTidy is → At IsTidy t is
AreTidy-At t [] h i e = absurd cc
AreTidy-At zero (j ∷ is) h i e = let q : j ≡ i = cc in rw⁻¹ q h.0
AreTidy-At (suc t) (j ∷ is) h i e = AreTidy-At t is h.1 i e

pub AreTidy-on_info :
    (t : ℕ) (f : TargetInfo → TargetInfo) (s : Scheduler)
    → ((i : TargetInfo) → IsTidy i → IsTidy (f i))
    → AreTidy s
    → AreTidy (on_info t f s)
AreTidy-on_info t f s k h = on_target-All IsTidy t f s.plan.targets (λ i e. k i) h

IsTidy-scan_if_new : (i : TargetInfo) → IsTidy i → IsTidy (scan_if_new i)
IsTidy-scan_if_new i =
    elim i.scan
      as (λ x. IsTidy (record i { scan = x }) → IsTidy (scan_if_new (record i { scan = x }))) [
        | not_visited ↦ λ h. (h.0, λ e. absurd (false≢true e))
        | visiting ↦ λ h. h
        | ignored ↦ λ h. h
        | scanned ↦ λ h. h
      ]

pub mark_outputs-AreTidy : (os : List ℕ) (s : Scheduler) → AreTidy s → AreTidy (mark_outputs os s)
unfolding mark_outputs
mark_outputs-AreTidy [] s h = h
mark_outputs-AreTidy (o ∷ os) s h =
    mark_outputs-AreTidy os (on_info o scan_if_new s)
      (AreTidy-on_info o scan_if_new s IsTidy-scan_if_new h)

set_output-AreTidy : (os : List ℕ) (s : Scheduler) → AreTidy s → AreTidy (set_output os s)
unfolding set_output
set_output-AreTidy [] s h = h
set_output-AreTidy (o ∷ os) s h =
    let f : TargetInfo → TargetInfo = λ i. record i { output = true } in
    set_output-AreTidy os (on_info o f s) (AreTidy-on_info o f s (λ i k. k) h)

add_outputs-AreTidy : (step : Step) (s : Scheduler) → AreTidy s → AreTidy (add_outputs step s)
unfolding add_outputs
add_outputs-AreTidy step s h = elim (Bool-cases step.is_phony) [
  | inl phony ↦ rw phony h
  | inr real ↦ rw real (set_output-AreTidy step.outputs s h)
]

pub add-AreTidy : (sid : ℕ) (s : Scheduler) → AreTidy s → AreTidy (add sid s)
unfolding add
add-AreTidy sid s h =
    let step = s.plan.steps sid in
    let s1 = plan_step sid (record s { total = s.total + 1 }) in
    let s2 = add_outputs step s1 in
    let r = ready_to_run [] 0 step in
    let p = record s2.plan { steps = set_step sid r.0 s2.plan.steps } in
    let c = enter-SameCore sid r.1 p in rw c.targets (add_outputs-AreTidy step s1 h)

wait_for-AreTidy :
    (sid t : ℕ) (i : TargetInfo) (s : Scheduler)
    → get_elem? s.plan.targets t ≡ some i
    → i.source ≡ false
    → At IsSeen t s.plan.targets
    → AreTidy s
    → AreTidy (wait_for sid t s)
unfolding wait_for
wait_for-AreTidy sid t i s e built seen h =
    on_target-All IsTidy t _ s.plan.targets
      (λ j k q. (
        (λ src.
            let same : i ≡ j = cc in
            absurd (false≢true (sym built ∙ ap (λ y. y.source) same ∙ src))),
        (λ nw. absurd (false≢true (sym (seen j k) ∙ nw))),
      ))
      h

pub link_input-AreTidy :
    (sid : ℕ) (def : StepDef) (trigger : Bool) (t : ℕ) (i : Option TargetInfo) (s : Scheduler)
    → get_elem? s.plan.targets t ≡ i
    → At IsSeen t s.plan.targets
    → AreTidy s
    → AreTidy (link_input sid def trigger t i s).1
unfolding link_input
link_input-AreTidy sid def trigger t none s e seen h = h
link_input-AreTidy sid def trigger t (some i) s e seen h =
    let waits : i.source ≡ false → AreTidy (wait_for sid t s) =
      λ built. wait_for-AreTidy sid t i s e built seen h in
    elim (Bool-cases (trigger && i.phony_output && not def.phony_output)) [
      | inl bad ↦ rw bad (elim (Bool-cases i.source) [ inl y ↦ rw y h | inr n ↦ rw n (waits n) ])
      | inr good ↦ rw good (elim (Bool-cases i.source) [ inl y ↦ rw y h | inr n ↦ rw n (waits n) ])
    ]

pub seen_scan : (x : ScanState) → needs_schedule x ≡ false → is_new x ≡ false
unfolding needs_schedule
seen_scan not_visited h = absurd cc
seen_scan visiting h = refl
seen_scan ignored h = absurd cc
seen_scan scanned h = refl
