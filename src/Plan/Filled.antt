-- ===== src/Plan/Filled.antt =====
-- From a new scheduler to the runs of the build: what `schedule` makes is a plan whose runs are sound.
use mathlib.Core.Bool.{false≢true}
use mathlib.Core.Path.{subst}
use siso.Common.{
  ℕ, zero, suc, ◌-◌, ◌<◌, ◌≡◌, ◌≢◌, refl, sym, ap, ◌∙◌, List, [], ◌∷◌, replicate, Option, none,
  some, ltb, Bool-cases, Option-cases, inl, inr, length, get_elem?, All, arith,
}
use siso.Plan.State.{ScanState, not_visited, visiting, ignored, scanned, TargetInfo, Plan, waits_of}
use siso.Plan.Count.{count}
use siso.Plan.Steps.{waiting, IsOutputs}
use siso.Plan.Run.{IsAccounted, IsSettled}
use siso.Plan.Schedule.{
  StepDef, Graph, Outcome, ok, failed, out_of_fuel, panicked, Scheduler, is_ok,
}
use siso.Plan.Targets.{
  schedule_target, schedule_root, schedule_roots, schedule_all, schedule, new_scheduler, new_target,
}
use siso.Plan.Account.{all_waits, total, first_of}
use siso.Plan.Adding.{IsSound, Adds, Adds-refl, is_ok-ok}
use siso.Plan.Wiring.{Keeps-trans, Made-Keeps}
use siso.Plan.Scheduled.{IsDefOf, IsGraph, by_scan-Adds}

schedule_target-Adds :
    (g : Graph) (fuel target : ℕ) (needed_by : Option StepDef) (s : Scheduler)
    → IsGraph g
    → IsSound s
    → Adds (IsDefOf g) s (schedule_target g fuel target needed_by s)
unfolding schedule_target
schedule_target-Adds g zero target needed_by s d h = Adds-refl out_of_fuel s h
schedule_target-Adds g (suc fuel) target needed_by s d h =
    elim (Option-cases (get_elem? s.plan.targets target)) [
      | inl missing ↦ rw (schedule_target, missing) (Adds-refl panicked s h)
      | inr (i, there) ↦
          rw (schedule_target, there)
            (by_scan-Adds g (λ def t. schedule_target g fuel t (some def))
              (λ def t s' k. schedule_target-Adds g fuel t (some def) s' d k) i.scan target
              needed_by i s d (λ def t by n e. (t, by, n, e)) h)
    ]

schedule_root-Adds :
    (g : Graph) (fuel t : ℕ) (i : Option TargetInfo) (s : Scheduler)
    → IsGraph g
    → IsSound s
    → Adds (IsDefOf g) s (schedule_root g fuel t i s)
unfolding schedule_root
schedule_root-Adds g fuel t none s d h = Adds-refl panicked s h
schedule_root-Adds g fuel t (some i) s d h = by_root i.scan
  where
    by_root :
        (x : ScanState)
        → Adds (IsDefOf g) s (elim x [
          | not_visited ↦ schedule_target g fuel t none s
          | visiting ↦ (failed, s)
          | scanned ↦ (ok, s)
          | ignored ↦ (ok, s)
        ])
    by_root not_visited = schedule_target-Adds g fuel t none s d h
    by_root visiting = Adds-refl failed s h
    by_root scanned = Adds-refl ok s h
    by_root ignored = Adds-refl ok s h

Adds-trans :
    {Q : StepDef → Type 0} (s : Scheduler) (r r' : Outcome × Scheduler)
    → r.0 ≡ ok
    → Adds Q s r
    → Adds Q r.1 r'
    → Adds Q s r'
Adds-trans s r r' e a b = record {
  inv = b.inv;
  grows = omega (arith, a.grows, b.grows);
  frame = λ t lt. b.frame t (omega (arith, a.grows, lt)) ∙ a.frame t lt;
  old = λ t lt. b.old t (omega (arith, a.grows, lt)) ∙ a.old t lt;
  complete = λ f t from lt. elim (Bool-cases (ltb t r.1.nsteps)) [
    | inl early ↦ let l : t < r.1.nsteps = ground arith in b.old t l ∙ a.complete e t from l
    | inr late ↦ b.complete f t (ground arith) lt
  ];
  keeps =
      Keeps-trans (λ t. t < s.nsteps) (λ t. t < r.1.nsteps) (λ t. t < s.nsteps) s r.1 r'.1
        (λ t k. k) (λ t k. omega (arith, a.grows, k)) a.keeps b.keeps;
  made = λ t from pl. elim (Bool-cases (ltb t r.1.nsteps)) [
    | inl early ↦
        let l : t < r.1.nsteps = ground arith in
        Made-Keeps (λ y. y < r.1.nsteps) t r.1 r'.1 b.keeps l (a.made t from (sym (b.old t l) ∙ pl))
    | inr late ↦ b.made t (ground arith) pl
  ];
}

schedule_roots-Adds :
    (g : Graph) (fuel : ℕ) (ts : List ℕ) (s : Scheduler)
    → IsGraph g
    → IsSound s
    → Adds (IsDefOf g) s (schedule_roots g fuel ts s)
unfolding schedule_roots
schedule_roots-Adds g fuel [] s d h = Adds-refl ok s h
schedule_roots-Adds g fuel (t ∷ ts) s d h =
    let i = get_elem? s.plan.targets t in
    let r = schedule_root g fuel t i s in
    let a = schedule_root-Adds g fuel t i s d h in
    elim (Bool-cases (is_ok r.0)) [
      | inl good ↦
          rw good
            (Adds-trans s r _ (is_ok-ok r.0 good) a (schedule_roots-Adds g fuel ts r.1 d a.inv))
      | inr bad ↦ rw bad a
    ]

-- So many targets from number `k` on.
abbrev pub targets_from : ℕ → ℕ → List ℕ
targets_from k zero = []
targets_from k (suc n) = k ∷ targets_from (suc k) n

-- All targets but target 0.
abbrev pub open_targets : Plan → List ℕ
open_targets p = targets_from 1 (length p.targets - 1)

targets_from-apart : (m k n : ℕ) → m < k → All (λ o. m ≢ o) (targets_from k n)
targets_from-apart m k zero lt = tt
targets_from-apart m k (suc n) lt =
    ((λ e. omega (arith, e, lt)), targets_from-apart m (suc k) n (omega (arith, lt)))

targets_from-IsOutputs : (k n : ℕ) → 0 < k → IsOutputs (targets_from k n)
targets_from-IsOutputs k zero lt = tt
targets_from-IsOutputs k (suc n) lt = (
  (λ e. omega (arith, e, lt)),
  targets_from-apart k (suc k) n (omega arith),
  targets_from-IsOutputs (suc k) n (omega arith),
)

waiting-shift :
    (t k n : ℕ) (i : TargetInfo) (is : List TargetInfo)
    → waiting t (targets_from (suc k) n) (i ∷ is) ≡ waiting t (targets_from k n) is
unfolding waits_of
waiting-shift t k zero i is = refl
waiting-shift t k (suc n) i is = omega (arith, waiting-shift t (suc k) n i is)

waiting-all :
    (t : ℕ) (is : List TargetInfo)
    → waiting t (targets_from 0 (length is)) is ≡ total t (all_waits is)
unfolding waits_of
waiting-all t [] = refl
waiting-all t (i ∷ is) = omega (arith, waiting-shift t 0 (length is) i is, waiting-all t is)

waiting-open :
    (t : ℕ) (is : List TargetInfo)
    → first_of (all_waits is) ≡ []
    → total t (all_waits is) ≡ waiting t (targets_from 1 (length is - 1)) is
waiting-open t [] h = refl
waiting-open t (i ∷ is) h =
    let e : suc (length is) - 1 ≡ length is = omega arith in
    rw e (omega (arith, ap (count t) h, waiting-shift t 0 (length is) i is, waiting-all t is))

replicate-waits : (n t : ℕ) → total t (all_waits (replicate n new_target)) ≡ 0
replicate-waits zero t = refl
replicate-waits (suc n) t = omega (arith, replicate-waits n t)

replicate-first : (n : ℕ) → first_of (all_waits (replicate n new_target)) ≡ []
replicate-first zero = refl
replicate-first (suc n) = refl

new_scheduler-IsSound : (n : ℕ) (receives : ℕ → ℕ) → IsSound (new_scheduler n receives)
unfolding new_scheduler
new_scheduler-IsSound n receives = record {
  waits = λ t. sym (replicate-waits n t);
  first = replicate-first n;
  bounded = λ t. omega arith;
  fresh = λ t le. refl;
  unseen = λ t le. refl;
  queued = λ t. refl;
  is_open = refl;
}

-- The account of a plan that was filled from a new scheduler.
pub IsSound-IsAccounted :
    (s : Scheduler) → IsSound s → IsAccounted s.planned (open_targets s.plan) s.plan
IsSound-IsAccounted s h =
    let w = λ (t : ℕ). h.waits t ∙ waiting-open t s.plan.targets h.first in
    record {
      outputs = targets_from-IsOutputs 1 (length s.plan.targets - 1) (omega arith);
      bounded = h.bounded;
      covers = λ t. omega (arith, w t);
      exact = λ e t. w t;
      queued = h.queued;
    }

pub schedule-IsSettled :
    {Q : StepDef → Type 0} (s : Scheduler) (r : Outcome × Scheduler)
    → s.nsteps ≡ 0
    → r.0 ≡ ok
    → Adds Q s r
    → IsSettled r.1.planned r.1.plan
schedule-IsSettled s r z e a t off = elim (Bool-cases (ltb t r.1.nsteps)) [
  | inl made ↦
      let lt : t < r.1.nsteps = ground arith in
      absurd (false≢true (sym off ∙ a.complete e t (omega (arith, z)) lt))
  | inr later ↦ a.inv.fresh t (ground arith)
]

schedule-Adds_any :
    (g : Graph) (ts : List ℕ) (s : Scheduler)
    → IsGraph g
    → IsSound s
    → Adds (IsDefOf g) s (schedule g ts s)
unfolding schedule schedule_all
schedule-Adds_any g [] s d h = Adds-refl failed s h
schedule-Adds_any g (t ∷ ts) s d h =
    let r = schedule_all g (t ∷ ts) s in
    let a : Adds (IsDefOf g) s r =
      schedule_roots-Adds g (suc (length s.plan.targets)) (t ∷ ts) s d h in
    elim (Bool-cases (is_ok r.0)) [
      | inl good ↦ rw good (
          Adds-trans s r _ (is_ok-ok r.0 good) a (
            schedule_roots-Adds g (suc (length r.1.plan.targets)) (g.validations r.1.calls) r.1 d
              a.inv))
      | inr bad ↦ rw bad a
    ]

-- What scheduling adds to a new scheduler.
pub schedule-Adds :
    (g : Graph) (ts : List ℕ) (n : ℕ) (receives : ℕ → ℕ) (s : Scheduler)
    → IsGraph g
    → schedule g ts (new_scheduler n receives) ≡ (ok, s)
    → Adds (IsDefOf g) (new_scheduler n receives) (ok, s)
schedule-Adds g ts n receives s d e =
    let new = new_scheduler n receives in
    subst (Adds (IsDefOf g) new) e (schedule-Adds_any g ts new d (new_scheduler-IsSound n receives))
