-- ===== src/Plan/Adding.antt =====
-- What scheduling adds to a plan: new steps only, all of them planned if it succeeds.
use mathlib.Core.Bool.{false≢true}
use siso.Common.{
  ℕ, ◌+◌, ◌≤◌, ◌<◌, ◌≡◌, ◌≢◌, refl, sym, ap, ◌∙◌, true, false, List, [], ltb, Bool-cases, inl, inr,
  length, Bytes, arith,
}
use siso.Plan.State.{TargetInfo}
use siso.Plan.Schedule.{StepDef, Outcome, ok, cycle, Scheduler, on_info, wrap_error, is_ok}
use siso.Plan.State.{waits_of}
use siso.Plan.Count.{count}
use siso.Plan.Wiring.{source_of, Made, Keeps, Keeps-refl, Keeps-trans, Made-Keeps, on_info-Keeps}
use siso.Plan.Account.{IsPlanned, IsPlanned-on_target}

abbrev pub IsSound : Scheduler → Type 0
IsSound s = IsPlanned s.plan s.nsteps s.planned

pub record Adds (Q : StepDef → Type 0) (s : Scheduler) (r : Outcome × Scheduler) : Type 0 where
  pub inv : IsSound r.1
  pub grows : s.nsteps ≤ r.1.nsteps
  pub frame : (t : ℕ) → t < s.nsteps → (r.1.plan.steps t).nwaits ≡ (s.plan.steps t).nwaits
  pub old : (t : ℕ) → t < s.nsteps → r.1.planned t ≡ s.planned t
  pub complete : r.0 ≡ ok → (t : ℕ) → s.nsteps ≤ t → t < r.1.nsteps → r.1.planned t ≡ true
  pub keeps : Keeps (λ t. t < s.nsteps) s r.1
  pub made : (t : ℕ) → s.nsteps ≤ t → r.1.planned t ≡ true → Made Q t r.1

pub Adds-refl : {Q : StepDef → Type 0} (o : Outcome) (s : Scheduler) → IsSound s → Adds Q s (o, s)
Adds-refl o s h = record {
  inv = h;
  grows = omega arith;
  frame = λ t lt. refl;
  old = λ t lt. refl;
  complete = λ e t le lt. absurd (omega (arith, le, lt));
  keeps = Keeps-refl (λ t. t < s.nsteps) s;
  made = λ t le e. absurd (false≢true (sym (h.unseen t le) ∙ e));
}

-- Changes of one target's marks before or after.
pub Adds-on_info :
    {Q : StepDef → Type 0} (s : Scheduler) (r : Outcome × Scheduler) (t : ℕ)
    (f : TargetInfo → TargetInfo)
    → ((i : TargetInfo) → (f i).waits ≡ i.waits)
    → ((i : TargetInfo) → (f i).source ≡ false → i.source ≡ false)
    → Adds Q s r
    → Adds Q s (r.0, on_info t f r.1)
Adds-on_info s r t f h k a = record {
  inv = IsPlanned-on_target t f r.1.plan r.1.nsteps r.1.planned h a.inv;
  grows = a.grows;
  frame = a.frame;
  old = a.old;
  complete = a.complete;
  keeps =
      Keeps-trans (λ y. y < s.nsteps) (λ y. Unit) (λ y. y < s.nsteps) s r.1 (on_info t f r.1)
        (λ y l. l) (λ y l. tt) a.keeps (on_info-Keeps (λ y. Unit) t f r.1 h k);
  made = λ y le e.
      Made-Keeps (λ z. Unit) y r.1 (on_info t f r.1) (on_info-Keeps (λ z. Unit) t f r.1 h k) tt
        (a.made y le e);
}

-- While the inputs of the step `sid` are linked: it may have got the waits for `ts`.
pub record Links (Q : StepDef → Type 0) (sid : ℕ) (ts : List ℕ) (s : Scheduler)
    (r : Outcome × Scheduler) : Type 0 where
  pub inv : IsSound r.1
  pub grows : s.nsteps ≤ r.1.nsteps
  pub frame : (t : ℕ) → t < s.nsteps → t ≢ sid → (r.1.plan.steps t).nwaits ≡ (s.plan.steps t).nwaits
  pub own : (r.1.plan.steps sid).nwaits ≤ (s.plan.steps sid).nwaits + length ts
  pub old : (t : ℕ) → t < s.nsteps → r.1.planned t ≡ s.planned t
  pub complete : r.0 ≡ ok → (t : ℕ) → s.nsteps ≤ t → t < r.1.nsteps → r.1.planned t ≡ true
  pub keeps : Keeps (λ t. (t < s.nsteps) × (t ≢ sid)) s r.1
  pub made : (t : ℕ) → s.nsteps ≤ t → r.1.planned t ≡ true → Made Q t r.1
  pub most :
      (x : ℕ)
      → count sid (waits_of x r.1.plan.targets) ≤ count sid (waits_of x s.plan.targets) + count x ts
  pub least :
      r.0 ≡ ok
      → (x : ℕ) → source_of x r.1.plan.targets ≡ false
      → count sid (waits_of x s.plan.targets) + count x ts ≤ count sid (waits_of x r.1.plan.targets)

pub Links-Adds :
    {Q : StepDef → Type 0} (sid : ℕ) (s : Scheduler) (r : Outcome × Scheduler)
    → sid < s.nsteps
    → Adds Q s r
    → Links Q sid [] s r
Links-Adds sid s r lt a = record {
  inv = a.inv;
  grows = a.grows;
  frame = λ t l n. a.frame t l;
  own = omega (arith, a.frame sid lt);
  old = a.old;
  complete = a.complete;
  keeps = record {
    waits = λ t k x. a.keeps.waits t k.0 x;
    sources = a.keeps.sources;
    outputs = λ t k. a.keeps.outputs t k.0;
  };
  made = a.made;
  most = λ x. omega (arith, a.keeps.waits sid lt x);
  least = λ e x k. omega (arith, a.keeps.waits sid lt x);
}

-- A part that went well, and what follows it.
pub Links-trans :
    {Q : StepDef → Type 0} (sid : ℕ) (ks ls ms : List ℕ) (s : Scheduler)
    (r r' : Outcome × Scheduler)
    → length ks + length ls ≤ length ms
    → ((x : ℕ) → count x ms ≡ count x ks + count x ls)
    → r.0 ≡ ok
    → sid < s.nsteps
    → Links Q sid ks s r
    → Links Q sid ls r.1 r'
    → Links Q sid ms s r'
Links-trans sid ks ls ms s r r' le sum e lt a b = record {
  inv = b.inv;
  grows = omega (arith, a.grows, b.grows);
  frame = λ t lt n. b.frame t (omega (arith, a.grows, lt)) n ∙ a.frame t lt n;
  own = omega (arith, a.own, b.own, le);
  old = λ t lt. b.old t (omega (arith, a.grows, lt)) ∙ a.old t lt;
  complete = λ f t from lt. elim (Bool-cases (ltb t r.1.nsteps)) [
    | inl early ↦ let l : t < r.1.nsteps = ground arith in b.old t l ∙ a.complete e t from l
    | inr late ↦ b.complete f t (ground arith) lt
  ];
  keeps =
      Keeps-trans (λ t. (t < s.nsteps) × (t ≢ sid)) (λ t. (t < r.1.nsteps) × (t ≢ sid))
        (λ t. (t < s.nsteps) × (t ≢ sid)) s r.1 r'.1 (λ t k. k)
        (λ t k. (omega (arith, a.grows, k.0), k.1)) a.keeps b.keeps;
  made = λ t from pl. elim (Bool-cases (ltb t r.1.nsteps)) [
    | inl early ↦
        let l : t < r.1.nsteps = ground arith in
        Made-Keeps (λ y. (y < r.1.nsteps) × (y ≢ sid)) t r.1 r'.1 b.keeps
          (l, (λ q. omega (arith, q, from, lt))) (a.made t from (sym (b.old t l) ∙ pl))
    | inr late ↦ b.made t (ground arith) pl
  ];
  most = λ x. omega (arith, a.most x, b.most x, sum x);
  least = λ f x k.
      let p = a.least e x (b.keeps.sources x k) in
      let q = b.least f x k in omega (arith, p, q, sum x);
}

-- An error leaves nothing to complete.
pub Links-error :
    {Q : StepDef → Type 0} (sid : ℕ) (ks ls : List ℕ) (s : Scheduler) (r : Outcome × Scheduler)
    (o : Outcome)
    → length ks ≤ length ls
    → ((x : ℕ) → count x ks ≤ count x ls)
    → is_ok o ≡ false
    → Links Q sid ks s r
    → Links Q sid ls s (o, r.1)
unfolding is_ok
Links-error sid ks ls s r o le some_of e a = record {
  inv = a.inv;
  grows = a.grows;
  frame = a.frame;
  own = omega (arith, a.own, le);
  old = a.old;
  complete = λ f t. absurd (false≢true (sym e ∙ ap is_ok f));
  keeps = a.keeps;
  made = a.made;
  most = λ x. omega (arith, a.most x, some_of x);
  least = λ f x. absurd (false≢true (sym e ∙ ap is_ok f));
}

pub is_ok-ok : (o : Outcome) → is_ok o ≡ true → o ≡ ok
unfolding is_ok
is_ok-ok ok h = refl
is_ok-ok (cycle _) h = absurd (false≢true h)
is_ok-ok _ h = absurd (false≢true h)

pub is_ok-wrap_error : (cur : Bytes) (o : Outcome) → is_ok (wrap_error cur o) ≡ is_ok o
unfolding is_ok wrap_error
is_ok-wrap_error cur (cycle _) = refl
is_ok-wrap_error cur _ = refl
