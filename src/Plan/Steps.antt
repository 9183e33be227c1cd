-- ===== src/Plan/Steps.antt =====
-- The loop of `done` over the steps that wait for one output: what it does to each step.
use siso.Common.{
  ℕ, zero, suc, ◌+◌, ◌-◌, ◌%◌, ◌≤◌, ◌<◌, ◌≡◌, ◌≢◌, refl, sym, ap, ◌∙◌, ◌&&◌, List, [], ◌∷◌, ltb,
  ◌==◌, if◌then◌else◌, length, Bool-cases, inl, inr, arith, Bytes, All,
}
use siso.Plan.State.{
  Step, TargetInfo, Wake, wake_step, wake_all, ready_to_run, decrement, set_step, int_mod, waits_of,
  set_waits,
}
use siso.Plan.Count.{count}
use siso.Plan.Waking.{found_ready, enqueue-found, enqueue_lem}

-- The number of steps found ready, during the loops.
abbrev pub all_found : Wake → ℕ
all_found w = length w.plan.taken + length w.plan.q + length w.spilled

pub record Woken (s : ℕ) (w w' : Wake) : Type 0 where
  pub closed : w'.plan.closed ≡ w.plan.closed
  pub ready : w'.plan.ready ≡ w.plan.ready
  pub targets : w'.plan.targets ≡ w.plan.targets
  pub nwaits :
      (t : ℕ)
      → (w'.plan.steps t).nwaits
        ≡ (if t == s then decrement (w.plan.steps s).nwaits else (w.plan.steps t).nwaits)
  pub found :
      (t : ℕ)
      → found_ready t w'
        ≡ found_ready t w + (if decrement (w.plan.steps s).nwaits == 0 then count t (s ∷ []) else 0)
  pub balance :
      (w'.plan.npendings + all_found w') % int_mod ≡ (w.plan.npendings + all_found w) % int_mod

nwaits-ready_to_run :
    (prev : Bytes) (out : ℕ) (i : Step)
    → out ≢ 0
    → (ready_to_run prev out i).0.nwaits ≡ decrement i.nwaits
unfolding ready_to_run
nwaits-ready_to_run prev out i h = ground arith

ready-ready_to_run :
    (prev : Bytes) (out : ℕ) (i : Step)
    → out ≢ 0
    → (ready_to_run prev out i).1 ≡ (decrement i.nwaits == 0)
unfolding ready_to_run
ready-ready_to_run prev out i h = ground arith

nwaits-set_step :
    (prev : Bytes) (out s t : ℕ) (steps : ℕ → Step)
    → out ≢ 0
    → (set_step s (ready_to_run prev out (steps s)).0 steps t).nwaits
      ≡ (if t == s then decrement (steps s).nwaits else (steps t).nwaits)
nwaits-set_step prev out s t steps h = elim (Bool-cases (t == s)) [
  | inl same ↦ rw same (nwaits-ready_to_run prev out (steps s) h)
  | inr other ↦ rw other refl
]

wake_step_lem : (prev : Bytes) (out s : ℕ) (w : Wake) → out ≢ 0 → Woken s w (wake_step prev out s w)
unfolding wake_step
wake_step_lem prev out s w h =
    let info = (ready_to_run prev out (w.plan.steps s)).0 in
    let w1 = record w { plan = record w.plan { steps = set_step s info w.plan.steps } } in
    let e = enqueue_lem s w1 in
    elim (Bool-cases (decrement (w.plan.steps s).nwaits == 0)) [
      | inl now ↦
          rw (ready-ready_to_run prev out (w.plan.steps s) h, now)
            (record {
              closed = e.closed;
              ready = e.ready;
              targets = e.targets;
              nwaits =
                  λ t. ap (λ f. (f t).nwaits) e.steps ∙ nwaits-set_step prev out s t w.plan.steps h;
              found = λ t. rw now (enqueue-found t s w1);
              balance = omega (arith, e.npendings, e.all);
            })
      | inr later ↦
          rw (ready-ready_to_run prev out (w.plan.steps s) h, later)
            (record {
              closed = refl;
              ready = refl;
              targets = refl;
              nwaits = λ t. nwaits-set_step prev out s t w.plan.steps h;
              found = λ t. rw later (omega arith);
              balance = refl;
            })
    ]

-- 1 if a step with `n` open inputs becomes ready when `c` of them are done, and 0 otherwise.
abbrev pub wakes : ℕ → ℕ → ℕ
wakes c n = if ltb 0 c && (c == n) then 1 else 0

pub record AllWoken (w w' : Wake) : Type 0 where
  pub closed : w'.plan.closed ≡ w.plan.closed
  pub ready : w'.plan.ready ≡ w.plan.ready
  pub targets : w'.plan.targets ≡ w.plan.targets
  pub balance :
      (w'.plan.npendings + all_found w') % int_mod ≡ (w.plan.npendings + all_found w) % int_mod

pub wake_all_lem :
    (prev : Bytes) (out : ℕ) (ss : List ℕ) (w : Wake)
    → out ≢ 0
    → AllWoken w (wake_all prev out ss w)
unfolding wake_all
wake_all_lem prev out [] w h = record {
  closed = refl;
  ready = refl;
  targets = refl;
  balance = refl;
}
wake_all_lem prev out (s ∷ ss) w h =
    let a = wake_step_lem prev out s w h in
    let b = wake_all_lem prev out ss (wake_step prev out s w) h in
    record {
      closed = b.closed ∙ a.closed;
      ready = b.ready ∙ a.ready;
      targets = b.targets ∙ a.targets;
      balance = b.balance ∙ a.balance;
    }

-- What happens to the step `t` when `c` of its inputs are done.
pub record WokenAt (t c : ℕ) (w w' : Wake) : Type 0 where
  pub nwaits : (w'.plan.steps t).nwaits ≡ (w.plan.steps t).nwaits - c
  pub found : found_ready t w' ≡ found_ready t w + wakes c (w.plan.steps t).nwaits

step_arith :
    (t s c n n1 n2 f1 f2 f3 : ℕ) (m : ℕ)
    → (if s == t then 1 else 0) + c ≤ n
    → n < int_mod
    → n1 ≡ (if t == s then decrement m else n)
    → (t ≡ s → m ≡ n)
    → f2 ≡ f1 + (if decrement m == 0 then count t (s ∷ []) else 0)
    → n2 ≡ n1 - c
    → f3 ≡ f2 + wakes c n1
    → (n2 ≡ n - ((if s == t then 1 else 0) + c))
      × (f3 ≡ f1 + wakes ((if s == t then 1 else 0) + c) n)
step_arith t s c n n1 n2 f1 f2 f3 m le lt e1 em e2 e3 e4 = ground arith

step_bound :
    (t s c n n1 m : ℕ)
    → (if s == t then 1 else 0) + c ≤ n
    → n < int_mod
    → n1 ≡ (if t == s then decrement m else n)
    → (t ≡ s → m ≡ n)
    → (c ≤ n1) × (n1 < int_mod)
step_bound t s c n n1 m le lt e em = ground arith

pub wake_all_at :
    (prev : Bytes) (out : ℕ) (ss : List ℕ) (w : Wake) (t : ℕ)
    → out ≢ 0
    → count t ss ≤ (w.plan.steps t).nwaits
    → (w.plan.steps t).nwaits < int_mod
    → WokenAt t (count t ss) w (wake_all prev out ss w)
unfolding wake_all
wake_all_at prev out [] w t h le lt = record { nwaits = omega arith; found = ground arith }
wake_all_at prev out (s ∷ ss) w t h le lt =
    let w1 = wake_step prev out s w in
    let a = wake_step_lem prev out s w h in
    let n = (w.plan.steps t).nwaits in
    let n1 = (w1.plan.steps t).nwaits in
    let fewer : (count t ss ≤ n1) × (n1 < int_mod) =
      step_bound t s (count t ss) n n1 (w.plan.steps s).nwaits le lt (a.nwaits t)
        (λ e. ap (λ x. (w.plan.steps x).nwaits) (sym e)) in
    let b = wake_all_at prev out ss w1 t h fewer.0 fewer.1 in
    let r =
      step_arith t s (count t ss) n n1 _ (found_ready t w) (found_ready t w1) _
        (w.plan.steps s).nwaits le lt (a.nwaits t) (λ e. ap (λ x. (w.plan.steps x).nwaits) (sym e))
        (a.found t) b.nwaits b.found in
    record { nwaits = r.0; found = r.1 }

waits_of-set_waits_ne :
    (a b : ℕ) (ws : List ℕ) (is : List TargetInfo)
    → a ≢ b
    → waits_of b (set_waits a ws is) ≡ waits_of b is
unfolding waits_of set_waits
waits_of-set_waits_ne a b ws [] h = refl
waits_of-set_waits_ne zero zero ws (i ∷ is) h = absurd (h refl)
waits_of-set_waits_ne zero (suc b) ws (i ∷ is) h = refl
waits_of-set_waits_ne (suc a) zero ws (i ∷ is) h = refl
waits_of-set_waits_ne (suc a) (suc b) ws (i ∷ is) h =
    waits_of-set_waits_ne a b ws is (λ e. h (ap suc e))

-- How often `t` waits for one of the outputs.
abbrev pub waiting : ℕ → List ℕ → List TargetInfo → ℕ
waiting t [] is = 0
waiting t (out ∷ outs) is = count t (waits_of out is) + waiting t outs is

-- Outputs are targets, and no output is listed twice.
abbrev pub IsOutputs : List ℕ → Type 0
IsOutputs [] = Unit
IsOutputs (out ∷ outs) = (out ≢ 0) × All (λ o. out ≢ o) outs × IsOutputs outs

pub waiting-set_waits :
    (t out : ℕ) (ws : List ℕ) (outs : List ℕ) (is : List TargetInfo)
    → All (λ o. out ≢ o) outs
    → waiting t outs (set_waits out ws is) ≡ waiting t outs is
waiting-set_waits t out ws [] is h = refl
waiting-set_waits t out ws (o ∷ outs) is h =
    rw (waits_of-set_waits_ne out o ws is h.0, waiting-set_waits t out ws outs is h.1) refl
