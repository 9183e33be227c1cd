-- ===== src/Plan/Linking.antt =====
-- Linking the inputs of a new step: it gets the waits for them, and nothing else changes.
use mathlib.Core.Bool.{false≢true}
use siso.Common.{
  ℕ, zero, suc, ◌+◌, ◌-◌, ◌<◌, ◌≡◌, ◌≢◌, refl, sym, ap, ◌∙◌, Bool, true, false, not, ◌&&◌, List, [],
  ◌∷◌, Option, none, some, ltb, ◌==◌, if◌then◌else◌, Bool-cases, inl, inr, length, get_elem?, All,
  arith,
}
use siso.Plan.State.{TargetInfo, Step, int_mod, set_step, increment}
use siso.Plan.Schedule.{
  StepDef, Graph, Outcome, ok, phony_dependency, panicked, Scheduler, wait_for, wrap_error,
  needs_schedule, link_input, is_ok, visit_input, link_inputs,
}
use siso.Plan.Wiring.{source_of, Keeps-refl, Keeps-trans, count-wait, wait_for-Keeps}
use siso.Plan.Account.{IsPlanned-wait}
use siso.Plan.Adding.{
  IsSound, Adds, Adds-refl, Links, Links-Adds, Links-trans, Links-error, is_ok-ok, is_ok-wrap_error,
}

nwaits_other :
    (sid t n : ℕ) (steps : ℕ → Step)
    → t ≢ sid
    → (set_step sid (record (steps sid) { nwaits = n }) steps t).nwaits ≡ (steps t).nwaits
nwaits_other sid t n steps h = elim (Bool-cases (t == sid)) [
  | inl same ↦ absurd (h (ground arith))
  | inr other ↦ rw other refl
]

nwaits_self :
    (sid n : ℕ) (steps : ℕ → Step)
    → (set_step sid (record (steps sid) { nwaits = n }) steps sid).nwaits ≡ n
nwaits_self sid n steps = elim (Bool-cases (sid == sid)) [
  | inl same ↦ rw same refl
  | inr other ↦ absurd (ground arith)
]

wait_for-Links :
    {Q : StepDef → Type 0} (o : Outcome) (sid t : ℕ) (i : TargetInfo) (s : Scheduler)
    → get_elem? s.plan.targets t ≡ some i
    → t ≢ 0
    → sid < s.nsteps
    → s.planned sid ≡ false
    → (s.plan.steps sid).nwaits + 1 < int_mod
    → IsSound s
    → Links Q sid (t ∷ []) s (o, wait_for sid t s)
unfolding wait_for
wait_for-Links o sid t i s e nz lt off room h = record {
  inv = IsPlanned-wait sid t s.plan s.nsteps s.planned i e nz lt off room h;
  grows = omega arith;
  frame = λ x l n. nwaits_other sid x (increment (s.plan.steps sid).nwaits) s.plan.steps n;
  own = omega (arith, nwaits_self sid (increment (s.plan.steps sid).nwaits) s.plan.steps, room);
  old = λ x l. refl;
  complete = λ f x le l. absurd (omega (arith, le, l));
  keeps =
      Keeps-trans (λ y. Unit) (λ y. y ≢ sid) (λ y. (y < s.nsteps) × (y ≢ sid)) s s
        (wait_for sid t s) (λ y k. tt) (λ y k. k.1) (Keeps-refl (λ y. Unit) s)
        (wait_for-Keeps sid t i s e);
  made = λ y le k. absurd (false≢true (sym (h.unseen y le) ∙ k));
  most = λ x. let q = count-wait x t sid sid s.plan.targets i e in ground arith;
  least = λ f x k. let q = count-wait x t sid sid s.plan.targets i e in ground arith;
}

-- A source is not the target that is none.
no_other :
    (t x : ℕ) (is : List TargetInfo) (i : TargetInfo)
    → get_elem? is t ≡ some i
    → i.source ≡ true
    → source_of x is ≡ false
    → (t == x) ≡ false
unfolding source_of
no_other t x [] i e f k = absurd cc
no_other zero zero (j ∷ is) i e f k =
    let q : j ≡ i = cc in absurd (false≢true (sym k ∙ ap (λ y. y.source) q ∙ f))
no_other zero (suc x) (j ∷ is) i e f k = ground arith
no_other (suc t) zero (j ∷ is) i e f k = ground arith
no_other (suc t) (suc x) (j ∷ is) i e f k = let q = no_other t x is i e f k in ground arith

link-Links :
    {Q : StepDef → Type 0} (o : Outcome) (source : Bool) (sid t : ℕ) (i : TargetInfo)
    (s : Scheduler)
    → get_elem? s.plan.targets t ≡ some i
    → i.source ≡ source
    → t ≢ 0
    → sid < s.nsteps
    → s.planned sid ≡ false
    → (s.plan.steps sid).nwaits + 1 < int_mod
    → IsSound s
    → Links Q sid (t ∷ []) s (o, if source then s else wait_for sid t s)
unfolding source_of
link-Links o false sid t i s e is nz lt off room h = wait_for-Links o sid t i s e nz lt off room h
link-Links o true sid t i s e is nz lt off room h =
    let a = Links-Adds sid s (o, s) lt (Adds-refl o s h) in
    record {
      inv = a.inv;
      grows = a.grows;
      frame = a.frame;
      own = omega arith;
      old = a.old;
      complete = a.complete;
      keeps = a.keeps;
      made = a.made;
      most = λ x. omega (arith, a.most x);
      least = λ f x k. let q = no_other t x s.plan.targets i e is k in ground arith;
    }

-- What a step's way to one input does.
link_input-Links :
    {Q : StepDef → Type 0} (sid : ℕ) (def : StepDef) (trigger : Bool) (t : ℕ)
    (i : Option TargetInfo) (s : Scheduler)
    → get_elem? s.plan.targets t ≡ i
    → t ≢ 0
    → sid < s.nsteps
    → s.planned sid ≡ false
    → (s.plan.steps sid).nwaits + 1 < int_mod
    → IsSound s
    → Links Q sid (t ∷ []) s (link_input sid def trigger t i s)
unfolding link_input is_ok
link_input-Links sid def trigger t none s e nz lt off room h =
    Links-error sid [] (t ∷ []) s (panicked, s) panicked (omega arith) (λ x. omega arith) refl
      (Links-Adds sid s (panicked, s) lt (Adds-refl panicked s h))
link_input-Links sid def trigger t (some i) s e nz lt off room h =
    elim (Bool-cases (trigger && i.phony_output && not def.phony_output)) [
      | inl bad ↦ rw bad (link-Links phony_dependency i.source sid t i s e refl nz lt off room h)
      | inr good ↦ rw good (link-Links ok i.source sid t i s e refl nz lt off room h)
    ]

module _ {Q : StepDef → Type 0} (g : Graph) (call : StepDef → ℕ → Scheduler → Outcome × Scheduler)
    (call-Adds : (def : StepDef) (t : ℕ) (s : Scheduler)
      → IsSound s
      → Adds Q s (call def t s)) where
  visit_input-Adds :
      (def : StepDef) (t : ℕ) (i : Option TargetInfo) (s : Scheduler)
      → IsSound s
      → Adds Q s (visit_input g call def t i s)
  unfolding visit_input
  visit_input-Adds def t none s h = Adds-refl panicked s h
  visit_input-Adds def t (some i) s h = elim (Bool-cases (needs_schedule i.scan)) [
    | inl needed ↦ rw needed (call-Adds def t s h)
    | inr over ↦ rw over (Adds-refl ok s h)
  ]

  -- The loop over the inputs.
  pub link_inputs-Links :
      (sid : ℕ) (def : StepDef) (triggers : ℕ) (ts : List ℕ) (s : Scheduler)
      → All (λ t. t ≢ 0) ts
      → sid < s.nsteps
      → s.planned sid ≡ false
      → (s.plan.steps sid).nwaits + length ts < int_mod
      → IsSound s
      → Links Q sid ts s (link_inputs g call sid def triggers ts s)
  unfolding link_inputs
  link_inputs-Links sid def triggers [] s nz lt off room h =
      Links-Adds sid s (ok, s) lt (Adds-refl ok s h)
  link_inputs-Links sid def triggers (t ∷ ts) s nz lt off room h =
      let i = get_elem? s.plan.targets t in
      let r = visit_input g call def t i s in
      let a = Links-Adds sid s r lt (visit_input-Adds def t i s h) in
      let i2 = get_elem? r.1.plan.targets t in
      let r2 = link_input sid def (ltb 0 triggers) t i2 r.1 in
      let lt1 : sid < r.1.nsteps = omega (arith, lt, a.grows) in
      let off1 = a.old sid lt ∙ off in
      let b =
        link_input-Links sid def (ltb 0 triggers) t i2 r.1 refl nz.0 lt1 off1
          (omega (arith, room, a.own)) a.inv in
      elim (Bool-cases (is_ok r.0)) [
        | inl good ↦
            let ab =
              Links-trans sid [] (t ∷ []) (t ∷ []) s r r2 (omega arith) (λ x. omega arith)
                (is_ok-ok r.0 good) lt a b in
            elim (Bool-cases (is_ok r2.0)) [
              | inl fine ↦
                  let c =
                    link_inputs-Links sid def (triggers - 1) ts r2.1 nz.1
                      (omega (arith, lt, ab.grows)) (ab.old sid lt ∙ off)
                      (omega (arith, room, ab.own)) ab.inv in
                  rw good (
                    rw fine (
                      Links-trans sid (t ∷ []) ts (t ∷ ts) s r2 _ (omega arith) (λ x. omega arith)
                        (is_ok-ok r2.0 fine) lt ab c))
              | inr bad ↦ rw good (
                  rw bad (
                    Links-error sid (t ∷ []) (t ∷ ts) s r2 r2.0 (omega arith) (λ x. omega arith) bad
                      ab))
            ]
        | inr bad ↦ rw bad (
            Links-error sid [] (t ∷ ts) s r (wrap_error (g.path t) r.0) (omega arith)
              (λ x. omega arith) (is_ok-wrap_error (g.path t) r.0 ∙ bad) a)
      ]
