-- ===== src/Plan/Scheduled.antt =====
-- The plan that scheduling makes: every step that was made is accounted for, and planned.
use siso.Common.{
  ℕ, ◌+◌, ◌≤◌, ◌<◌, ◌≡◌, ◌≢◌, refl, ap, ◌∙◌, true, false, ◌⊎◌, [], ◌∷◌, ◌++◌, Option, ◌==◌,
  Bool-cases, inl, inr, length, All, arith,
}
use siso.Plan.State.{
  ScanState, not_visited, visiting, ignored, scanned, TargetInfo, Step, int_mod, set_step,
}
use siso.Plan.Schedule.{
  StepDef, Found, found, duplicate, no_target, is_source, broken, Graph, Outcome, ok, cycle,
  missing_source, target_not_found, failed, interrupted, Scheduler, on_info, on_plan, set_scan,
  link_inputs, finish_step, new_step, schedule_step, mark, on_found, mark_outputs,
}
use siso.Plan.Targets.{visit, by_scan}
use mathlib.Core.Bool.{false≢true}
use siso.Common.{sym}
use siso.Plan.State.{waits_of}
use siso.Plan.Count.{count}
use siso.Plan.Schedule.{add}
use siso.Plan.Wiring.{
  source_of, inputs_of, IsWired, Keeps, Keeps-trans, Made-Keeps, on_info-Keeps, outputs_other,
  outputs_self, waits_of-total,
}
use siso.Plan.Account.{plan_one, IsPlanned-same, IsPlanned-new}
use siso.Plan.Adding.{IsSound, Adds, Adds-refl, Adds-on_info, Links}
use siso.Plan.Linking.{link_inputs-Links}
use siso.Plan.Marks.{Adds-Marks, mark_outputs-Marks, add-Added, nwaits-set_step}

-- A step's inputs are targets, and there are fewer than 2^64 of them.
pub record IsDef (def : StepDef) : Type 0 where
  pub targets : All (λ t. t ≢ 0) (def.inputs ++ def.order_only)
  pub few : length (def.inputs ++ def.order_only) < int_mod

-- The graph has the definition.
abbrev pub IsDefOf : Graph → StepDef → Type 0
IsDefOf g def =
    (t : ℕ) × (needed_by : Option StepDef) × (n : ℕ) × ((g.step_def t needed_by n ≡ found def)
      ⊎ (g.step_def t needed_by n ≡ duplicate def))

-- All steps of the graph are such.
pub record IsGraph (g : Graph) : Type 0 where
  pub defs :
      (t : ℕ) (needed_by : Option StepDef) (n : ℕ) (def : StepDef)
      → (g.step_def t needed_by n ≡ found def) ⊎ (g.step_def t needed_by n ≡ duplicate def)
      → IsDef def

-- What holds of every definition that the graph has.
abbrev pub DefsAre : Graph → (StepDef → Type 0) → Type 0
DefsAre g Q =
    (def : StepDef) (t : ℕ) (needed_by : Option StepDef) (n : ℕ)
    → (g.step_def t needed_by n ≡ found def) ⊎ (g.step_def t needed_by n ≡ duplicate def)
    → Q def

-- `s` changed into `s'` before the call that gives `r`, with no change of what is accounted for.
Adds-from :
    {Q : StepDef → Type 0} (s s' : Scheduler) (r : Outcome × Scheduler)
    → s'.nsteps ≡ s.nsteps
    → s'.planned ≡ s.planned
    → s'.plan.steps ≡ s.plan.steps
    → Keeps (λ t. Unit) s s'
    → Adds Q s' r
    → Adds Q s r
Adds-from s s' r n p q k a = record {
  inv = a.inv;
  grows = omega (arith, n, a.grows);
  frame = λ t lt. a.frame t (omega (arith, n, lt)) ∙ ap (λ f. (f t).nwaits) q;
  old = λ t lt. a.old t (omega (arith, n, lt)) ∙ ap (λ f. f t) p;
  complete = λ e t le lt. a.complete e t (omega (arith, n, le)) lt;
  keeps =
      Keeps-trans (λ t. Unit) (λ t. t < s'.nsteps) (λ t. t < s.nsteps) s s' r.1 (λ t l. tt)
        (λ t l. omega (arith, n, l)) k a.keeps;
  made = λ t le pl. a.made t (omega (arith, n, le)) pl;
}

nwaits_new :
    (sid : ℕ) (step : Step) (steps : ℕ → Step) → (set_step sid step steps sid).nwaits ≡ step.nwaits
nwaits_new sid step steps = elim (Bool-cases (sid == sid)) [
  | inl same ↦ rw same refl
  | inr other ↦ absurd (ground arith)
]

nwaits_old :
    (sid t : ℕ) (step : Step) (steps : ℕ → Step)
    → t < sid
    → (set_step sid step steps t).nwaits ≡ (steps t).nwaits
nwaits_old sid t step steps lt = let other : (t == sid) ≡ false = ground arith in rw other refl

Keeps-plan :
    (s s1 s2 : Scheduler) → s2.plan ≡ s1.plan → Keeps (λ t. Unit) s s1 → Keeps (λ t. Unit) s s2
Keeps-plan s s1 s2 e a = record {
  waits = λ t k x. ap (λ p. count t (waits_of x p.targets)) e ∙ a.waits t k x;
  sources = λ x f. a.sources x (ap (λ p. source_of x p.targets) (sym e) ∙ f);
  outputs = λ t k. ap (λ p. (p.steps t).outputs) e ∙ a.outputs t k;
}

-- Linking the inputs of the new step leaves the steps before it alone.
linked-Keeps :
    (s s3 s4 : Scheduler)
    → Keeps (λ t. t < s.nsteps) s s3
    → s3.nsteps ≡ s.nsteps + 1
    → Keeps (λ t. (t < s3.nsteps) × (t ≢ s.nsteps)) s3 s4
    → Keeps (λ t. t < s.nsteps) s s4
linked-Keeps s s3 s4 a n b =
    Keeps-trans (λ t. t < s.nsteps) (λ t. (t < s3.nsteps) × (t ≢ s.nsteps)) (λ t. t < s.nsteps) s s3
      s4 (λ t k. k) (λ t k. (omega (arith, n, k), (λ e. omega (arith, e, k)))) a b

-- The new step `sid` of `s3` has its inputs linked and is added, or an input failed.
finish_step-Adds :
    {Q : StepDef → Type 0} (g : Graph) (call : StepDef → ℕ → Scheduler → Outcome × Scheduler)
    (def : StepDef) (s s3 : Scheduler) (r : Outcome × Scheduler)
    → s3.nsteps ≡ s.nsteps + 1
    → s3.planned ≡ s.planned
    → ((t : ℕ) → t < s.nsteps → (s3.plan.steps t).nwaits ≡ (s.plan.steps t).nwaits)
    → s.planned s.nsteps ≡ false
    → Q def
    → Keeps (λ t. t < s.nsteps) s s3
    → ((x : ℕ) → count s.nsteps (waits_of x s3.plan.targets) ≡ 0)
    → Links Q s.nsteps (inputs_of def) s3 r
    → Adds Q s (finish_step g call s.nsteps def r)
unfolding finish_step
finish_step-Adds g call def s s3 (ok, s4) n p q off in_g kp none_yet l =
    let sid = s.nsteps in
    let step = record (s4.plan.steps sid) { outputs = def.outputs } in
    let s5 =
      on_plan
        (λ pl. record pl {
          steps = set_step sid (record (pl.steps sid) { outputs = def.outputs }) pl.steps;
        })
        s4 in
    let same : (t : ℕ) → (s5.plan.steps t).nwaits ≡ (s4.plan.steps t).nwaits =
      λ t. nwaits-set_step sid t step s4.plan.steps refl in
    let sound : IsSound s5 =
      IsPlanned-same s4.plan s5.plan s4.nsteps s4.planned refl same (λ t. refl) refl l.inv in
    let off4 : s4.planned sid ≡ false = l.old sid (omega (arith, n)) ∙ ap (λ f. f sid) p ∙ off in
    let a = add-Added sid s5 (omega (arith, n, l.grows)) off4 sound in
    let s6 = add sid s5 in
    let k45 : Keeps (λ t. t ≢ sid) s4 s5 = record {
      waits = λ t k x. refl;
      sources = λ x e. e;
      outputs = λ t k. outputs_other sid t step s4.plan.steps k;
    } in
    let k46 : Keeps (λ t. t ≢ sid) s4 s6 =
      Keeps-trans (λ t. t ≢ sid) (λ t. Unit) (λ t. t ≢ sid) s4 s5 s6 (λ t k. k) (λ t k. tt) k45
        a.keeps in
    let wired : IsWired def sid s6 = record {
      outputs = a.keeps.outputs sid tt ∙ outputs_self sid step s4.plan.steps;
      most = λ x. omega (arith, a.keeps.waits sid tt x, l.most x, none_yet x);
      least = λ x e.
          let m = l.least refl x (a.keeps.sources x e) in
          omega (arith, a.keeps.waits sid tt x, m, none_yet x);
    } in
    record {
      inv = a.inv;
      grows = omega (arith, a.nsteps, l.grows, n);
      frame = λ t lt.
          a.steps t
          ∙ same t
          ∙ l.frame t (omega (arith, n, lt)) (λ e. omega (arith, e, lt))
          ∙ q t lt;
      old = λ t lt.
          let other : (t == sid) ≡ false = ground arith in
          a.planned t ∙ rw other (l.old t (omega (arith, n, lt)) ∙ ap (λ f. f t) p);
      complete = λ e t le lt. a.planned t ∙ elim (Bool-cases (t == sid)) [
        | inl same ↦ rw same refl
        | inr other ↦
            let later : s3.nsteps ≤ t = ground (arith, n) in
            rw other (l.complete refl t later (omega (arith, a.nsteps, lt)))
      ];
      keeps =
          Keeps-trans (λ t. t < s.nsteps) (λ t. t ≢ sid) (λ t. t < s.nsteps) s s4 s6 (λ t k. k)
            (λ t k e. omega (arith, e, k)) (linked-Keeps s s3 s4 kp n l.keeps) k46;
      made = λ t le pl. elim (Bool-cases (t == sid)) [
        | inl same ↦ let e : t ≡ sid = ground arith in rw e (def, in_g, wired)
        | inr other ↦
            let later : s3.nsteps ≤ t = ground (arith, n) in
            let r : plan_one sid s4.planned t ≡ s4.planned t = rw other refl in
            Made-Keeps (λ y. y ≢ sid) t s4 s6 k46 (ground arith)
              (l.made t later (sym r ∙ sym (a.planned t) ∙ pl))
      ];
    }
finish_step-Adds g call def s s3 (o, s4) n p q off in_g kp none_yet l = record {
  inv = l.inv;
  grows = omega (arith, l.grows, n);
  frame = λ t lt. l.frame t (omega (arith, n, lt)) (λ e. omega (arith, e, lt)) ∙ q t lt;
  old = λ t lt. l.old t (omega (arith, n, lt)) ∙ ap (λ f. f t) p;
  complete = λ e t le lt. cc;
  keeps = linked-Keeps s s3 s4 kp n l.keeps;
  made = λ t le pl. elim (Bool-cases (t == s.nsteps)) [
    | inl same ↦
        let e : t ≡ s.nsteps = ground arith in
        let off4 : s4.planned s.nsteps ≡ false =
          l.old s.nsteps (omega (arith, n)) ∙ ap (λ f. f s.nsteps) p ∙ off in
        absurd (false≢true (sym off4 ∙ ap s4.planned (sym e) ∙ pl))
    | inr other ↦ l.made t (ground (arith, n)) pl
  ];
}

module _ {Q : StepDef → Type 0} (g : Graph) (call : StepDef → ℕ → Scheduler → Outcome × Scheduler)
    (call-Adds : (def : StepDef) (t : ℕ) (s : Scheduler)
      → IsSound s
      → Adds Q s (call def t s)) where
  schedule_step-Adds :
      (target : ℕ) (def : StepDef) (s : Scheduler)
      → IsDef def
      → Q def
      → IsSound s
      → Adds Q s (schedule_step g call target def s)
  unfolding schedule_step
  schedule_step-Adds target def s d q h =
      let set : TargetInfo → TargetInfo = λ i. record i { phony_output = def.phony_output } in
      let s1 = on_info target set s in
      let h1 =
        (Adds-on_info {Q = Q} s (ok, s) target set (λ i. refl) (λ i e. e) (Adds-refl ok s h)).inv in
      let s2 = record s1 { visited = s1.visited + 1 } in
      let sid = s2.nsteps in
      let ins = def.inputs ++ def.order_only in
      let s3 = record s2 {
        nsteps = sid + 1;
        plan = record s2.plan { steps = set_step sid (new_step g call def) s2.plan.steps };
      } in
      let h3 : IsSound s3 = IsPlanned-new (new_step g call def) s2.plan sid s2.planned refl h1 in
      let off : s.planned s.nsteps ≡ false = h.unseen s.nsteps (omega arith) in
      let none_yet : (s3.plan.steps sid).nwaits ≡ 0 =
        nwaits_new sid (new_step g call def) s2.plan.steps in
      let r = link_inputs g call sid def (length def.inputs) ins s3 in
      let l =
        link_inputs-Links g call call-Adds sid def (length def.inputs) ins s3 d.targets
          (omega arith) off (omega (arith, none_yet, d.few)) h3 in
      let f = finish_step g call sid def r in
      let k1 : Keeps (λ t. Unit) s s1 =
        on_info-Keeps (λ t. Unit) target set s (λ i. refl) (λ i e. e) in
      let k3 : Keeps (λ t. t < s.nsteps) s s3 = record {
        waits = λ t k x. k1.waits t tt x;
        sources = k1.sources;
        outputs = λ t k.
            outputs_other sid t (new_step g call def) s2.plan.steps (λ e. omega (arith, e, k));
      } in
      let fresh : (x : ℕ) → count sid (waits_of x s3.plan.targets) ≡ 0 =
        λ x. omega (arith, waits_of-total sid x s3.plan.targets, h3.waits sid, none_yet) in
      let older =
        λ (t : ℕ) (lt : t < s.nsteps). nwaits_old sid t (new_step g call def) s2.plan.steps lt in
      let a = finish_step-Adds g call def s s3 r refl refl older off q k3 fresh l in
      elim (Bool-cases (g.cancelled (s1.visited + 1))) [
        | inl stop ↦ rw stop (
            Adds-Marks s interrupted s2 (mark_outputs def.outputs s2)
              (mark_outputs-Marks def.outputs s2)
              (Adds-from s s2 (interrupted, s2) refl refl refl (Keeps-plan s s1 s2 refl k1)
                (Adds-refl interrupted s2 h1)))
        | inr on ↦ rw on (
            Adds-Marks s f.0 f.1 (mark_outputs def.outputs f.1) (mark_outputs-Marks def.outputs f.1)
              a)
      ]

  mark-Adds : (target : ℕ) (s : Scheduler) → IsSound s → Adds Q s (mark g call target s)
  unfolding mark
  mark-Adds target s h = elim (Bool-cases (g.exists target)) [
    | inl there ↦ rw there (
        Adds-on_info s (ok, s) target (λ i. record i { source = true }) (λ i. refl)
          (λ i e. absurd (false≢true (sym e))) (Adds-refl ok s h))
    | inr missing ↦ rw missing (Adds-refl missing_source s h)
  ]

  on_found-Adds :
      (scan : ScanState) (target : ℕ) (f : Found) (s : Scheduler)
      → ((def : StepDef) → (f ≡ found def) ⊎ (f ≡ duplicate def) → IsDef def × Q def)
      → IsSound s
      → Adds Q s (on_found g call scan target f s)
  unfolding on_found
  on_found-Adds scan target (found def) s d h =
      schedule_step-Adds target def s ((d def (inl refl)).0) ((d def (inl refl)).1) h
  on_found-Adds ignored target (duplicate def) s d h =
      schedule_step-Adds target def s ((d def (inr refl)).0) ((d def (inr refl)).1) h
  on_found-Adds not_visited target (duplicate def) s d h = Adds-refl ok s h
  on_found-Adds visiting target (duplicate def) s d h = Adds-refl ok s h
  on_found-Adds scanned target (duplicate def) s d h = Adds-refl ok s h
  on_found-Adds scan target no_target s d h = Adds-refl target_not_found s h
  on_found-Adds scan target is_source s d h = mark-Adds target s h
  on_found-Adds scan target broken s d h = Adds-refl failed s h

  visit-Adds :
      (scan : ScanState) (target : ℕ) (needed_by : Option StepDef) (i : TargetInfo) (s : Scheduler)
      → IsGraph g
      → DefsAre g Q
      → IsSound s
      → Adds Q s (visit g call scan target needed_by i s)
  unfolding visit
  visit-Adds scan target needed_by i s d all h =
      let s1 = on_info target (set_scan visiting) s in
      let h1 =
        (Adds-on_info {Q = Q} s (ok, s) target (set_scan visiting) (λ j. refl) (λ j e. e)
          (Adds-refl ok s h)).inv in
      let k1 : Keeps (λ t. Unit) s s1 =
        on_info-Keeps (λ t. Unit) target (set_scan visiting) s (λ j. refl) (λ j e. e) in
      let s2 = record s1 { calls = s1.calls + 1 } in
      let f = g.step_def target needed_by s1.calls in
      elim (Bool-cases i.source) [
        | inl source ↦ rw source (
            Adds-on_info s (ok, s1) target (set_scan scanned) (λ j. refl) (λ j e. e)
              (Adds-from s s1 (ok, s1) refl refl refl k1 (Adds-refl ok s1 h1)))
        | inr built ↦ rw built (
            Adds-on_info s (on_found g call scan target f s2) target (set_scan scanned) (λ j. refl)
              (λ j e. e)
              (Adds-from s s2 (on_found g call scan target f s2) refl refl refl
                (Keeps-plan s s1 s2 refl k1)
                (on_found-Adds scan target f s2
                  (λ def e.
                    (d.defs target needed_by s1.calls def e, all def target needed_by s1.calls e))
                  h1)))
      ]

  pub by_scan-Adds :
      (scan : ScanState) (target : ℕ) (needed_by : Option StepDef) (i : TargetInfo) (s : Scheduler)
      → IsGraph g
      → DefsAre g Q
      → IsSound s
      → Adds Q s (by_scan g call scan target needed_by i s)
  unfolding by_scan
  by_scan-Adds not_visited target needed_by i s d all h =
      visit-Adds not_visited target needed_by i s d all h
  by_scan-Adds visiting target needed_by i s d all h = Adds-refl (cycle (g.path target ∷ [])) s h
  by_scan-Adds ignored target needed_by i s d all h =
      visit-Adds ignored target needed_by i s d all h
  by_scan-Adds scanned target needed_by i s d all h = Adds-refl ok s h
