-- ===== src/Plan/Wiring.antt =====
-- What the waits of the targets have to do with the inputs of the steps.
use siso.Common.{
  ℕ, zero, suc, ◌+◌, ◌≤◌, ◌≡◌, ◌≢◌, refl, sym, ap, ◌∙◌, Bool, false, List, [], ◌∷◌, ◌++◌, some,
  ◌==◌, if◌then◌else◌, Bool-cases, inl, inr, get_elem?, arith,
}
use siso.Plan.State.{TargetInfo, Step, waits_of, set_step}
use siso.Plan.Count.{count, count-append}
use siso.Plan.Schedule.{StepDef, Scheduler, on_target, on_info, wait_for}
use siso.Plan.Account.{all_waits, total}

-- Whether the target is a source.
unfoldable pub source_of : ℕ → List TargetInfo → Bool
source_of t [] = false
source_of zero (i ∷ is) = i.source
source_of (suc t) (i ∷ is) = source_of t is

-- All inputs of a step, in the order of the loop.
abbrev pub inputs_of : StepDef → List ℕ
inputs_of def = def.inputs ++ def.order_only

-- The step has the outputs of its definition, and waits for each of its inputs that is no source, as often as
-- it is listed, and for nothing else.
pub record IsWired (def : StepDef) (t : ℕ) (s : Scheduler) : Type 0 where
  pub outputs : (s.plan.steps t).outputs ≡ def.outputs
  pub most : (x : ℕ) → count t (waits_of x s.plan.targets) ≤ count x (inputs_of def)
  pub least :
      (x : ℕ)
      → source_of x s.plan.targets ≡ false
      → count x (inputs_of def) ≤ count t (waits_of x s.plan.targets)

-- The step is made from a definition of the graph.
abbrev pub Made : (StepDef → Type 0) → ℕ → Scheduler → Type 0
Made Q t s = (def : StepDef) × Q def × IsWired def t s

-- The steps of `K` are left alone, and a source stays one.
pub record Keeps (K : ℕ → Type 0) (s s' : Scheduler) : Type 0 where
  pub waits :
      (t : ℕ)
      → K t
      → (x : ℕ) → count t (waits_of x s'.plan.targets) ≡ count t (waits_of x s.plan.targets)
  pub sources : (x : ℕ) → source_of x s'.plan.targets ≡ false → source_of x s.plan.targets ≡ false
  pub outputs : (t : ℕ) → K t → (s'.plan.steps t).outputs ≡ (s.plan.steps t).outputs

pub Keeps-refl : (K : ℕ → Type 0) (s : Scheduler) → Keeps K s s
Keeps-refl K s = record { waits = λ t k x. refl; sources = λ x e. e; outputs = λ t k. refl }

pub Keeps-trans :
    (K L M : ℕ → Type 0) (s s1 s2 : Scheduler)
    → ((t : ℕ) → M t → K t)
    → ((t : ℕ) → M t → L t)
    → Keeps K s s1
    → Keeps L s1 s2
    → Keeps M s s2
Keeps-trans K L M s s1 s2 f g a b = record {
  waits = λ t m x. b.waits t (g t m) x ∙ a.waits t (f t m) x;
  sources = λ x e. a.sources x (b.sources x e);
  outputs = λ t m. b.outputs t (g t m) ∙ a.outputs t (f t m);
}

pub Made-Keeps :
    {Q : StepDef → Type 0} (K : ℕ → Type 0) (t : ℕ) (s s' : Scheduler)
    → Keeps K s s'
    → K t
    → Made Q t s
    → Made Q t s'
Made-Keeps K t s s' a k (def, q, h) = (
  def,
  q,
  record {
    outputs = a.outputs t k ∙ h.outputs;
    most = λ x. omega (arith, a.waits t k x, h.most x);
    least = λ x e. let l = h.least x (a.sources x e) in omega (arith, a.waits t k x, l);
  },
)

waits_of-on_target :
    (x t : ℕ) (f : TargetInfo → TargetInfo) (is : List TargetInfo)
    → ((i : TargetInfo) → (f i).waits ≡ i.waits)
    → waits_of x (on_target t f is) ≡ waits_of x is
unfolding on_target waits_of
waits_of-on_target x t f [] h = refl
waits_of-on_target zero zero f (i ∷ is) h = h i
waits_of-on_target (suc x) zero f (i ∷ is) h = refl
waits_of-on_target zero (suc t) f (i ∷ is) h = refl
waits_of-on_target (suc x) (suc t) f (i ∷ is) h = waits_of-on_target x t f is h

source_of-on_target :
    (x t : ℕ) (f : TargetInfo → TargetInfo) (is : List TargetInfo)
    → ((i : TargetInfo) → (f i).source ≡ false → i.source ≡ false)
    → source_of x (on_target t f is) ≡ false
    → source_of x is ≡ false
unfolding on_target source_of
source_of-on_target x t f [] h e = e
source_of-on_target zero zero f (i ∷ is) h e = h i e
source_of-on_target (suc x) zero f (i ∷ is) h e = e
source_of-on_target zero (suc t) f (i ∷ is) h e = e
source_of-on_target (suc x) (suc t) f (i ∷ is) h e = source_of-on_target x t f is h e

pub on_info-Keeps :
    (K : ℕ → Type 0) (t : ℕ) (f : TargetInfo → TargetInfo) (s : Scheduler)
    → ((i : TargetInfo) → (f i).waits ≡ i.waits)
    → ((i : TargetInfo) → (f i).source ≡ false → i.source ≡ false)
    → Keeps K s (on_info t f s)
on_info-Keeps K t f s h k = record {
  waits = λ y l x. ap (count y) (waits_of-on_target x t f s.plan.targets h);
  sources = λ x e. source_of-on_target x t f s.plan.targets k e;
  outputs = λ y l. refl;
}

-- What one more wait is.
pub count-wait :
    (x t sid y : ℕ) (is : List TargetInfo) (i : TargetInfo)
    → get_elem? is t ≡ some i
    → count y (waits_of x (on_target t (λ j. record j { waits = j.waits ++ sid ∷ [] }) is))
      ≡ count y (waits_of x is) + (if t == x then count y (sid ∷ []) else 0)
unfolding on_target waits_of
count-wait x t sid y [] i e = absurd cc
count-wait zero zero sid y (j ∷ is) i e = count-append y j.waits (sid ∷ [])
count-wait (suc x) zero sid y (j ∷ is) i e = ground arith
count-wait zero (suc t) sid y (j ∷ is) i e = ground arith
count-wait (suc x) (suc t) sid y (j ∷ is) i e = let q = count-wait x t sid y is i e in ground arith

pub outputs-set_step :
    (sid t : ℕ) (step : Step) (steps : ℕ → Step)
    → step.outputs ≡ (steps sid).outputs
    → (set_step sid step steps t).outputs ≡ (steps t).outputs
outputs-set_step sid t step steps e = elim (Bool-cases (t == sid)) [
  | inl same ↦ let f : t ≡ sid = ground arith in rw same (e ∙ ap (λ y. (steps y).outputs) (sym f))
  | inr other ↦ rw other refl
]

pub outputs_other :
    (sid t : ℕ) (step : Step) (steps : ℕ → Step)
    → t ≢ sid
    → (set_step sid step steps t).outputs ≡ (steps t).outputs
outputs_other sid t step steps h = elim (Bool-cases (t == sid)) [
  | inl same ↦ absurd (h (ground arith))
  | inr other ↦ rw other refl
]

pub outputs_self :
    (sid : ℕ) (step : Step) (steps : ℕ → Step)
    → (set_step sid step steps sid).outputs ≡ step.outputs
outputs_self sid step steps = elim (Bool-cases (sid == sid)) [
  | inl same ↦ rw same refl
  | inr other ↦ absurd (ground arith)
]

pub wait_for-Keeps :
    (sid t : ℕ) (i : TargetInfo) (s : Scheduler)
    → get_elem? s.plan.targets t ≡ some i
    → Keeps (λ y. y ≢ sid) s (wait_for sid t s)
unfolding wait_for
wait_for-Keeps sid t i s e = record {
  waits = λ y n x. let q = count-wait x t sid y s.plan.targets i e in ground arith;
  sources = λ x k. source_of-on_target x t _ s.plan.targets (λ j h. h) k;
  outputs = λ y n. outputs_other sid y _ s.plan.steps n;
}

pub waits_of-total :
    (t x : ℕ) (is : List TargetInfo) → count t (waits_of x is) ≤ total t (all_waits is)
unfolding waits_of
waits_of-total t x [] = omega arith
waits_of-total t zero (i ∷ is) = omega arith
waits_of-total t (suc x) (i ∷ is) = omega (arith, waits_of-total t x is)
