-- ===== src/Plan/Run.antt =====
-- A build's run over a plan: `done` calls, `pushReady` calls and receives of the builder, in any order.
-- The invariant accounts for each step's open inputs and for how often it was found ready.
use mathlib.Core.Bool.{false≢true}
use siso.Common.{
  ℕ, ◌+◌, ◌-◌, ◌≤◌, ◌<◌, ◌≡◌, refl, sym, ◌∙◌, Bool, true, false, ◌&&◌, List, [], ◌∷◌, ◌++◌, ◌==◌,
  if◌then◌else◌, Bool-cases, inl, inr, arith,
}
use siso.Plan.State.{Plan, TargetInfo, int_mod, done}
use siso.Plan.Count.{tally}
use siso.Plan.Steps.{waiting, IsOutputs, wakes}
use siso.Plan.Done.{done-wakes, waiting-done, IsOutputs-append_left}

-- `planned` are the steps that `add` has seen, and `rest` the targets whose steps are not done.
pub record IsAccounted (planned : ℕ → Bool) (rest : List ℕ) (p : Plan) : Type 0 where
  pub outputs : IsOutputs rest
  pub bounded : (t : ℕ) → (p.steps t).nwaits < int_mod
  pub covers : (t : ℕ) → waiting t rest p.targets ≤ (p.steps t).nwaits
  pub exact : p.closed ≡ false → (t : ℕ) → (p.steps t).nwaits ≡ waiting t rest p.targets
  pub queued : (t : ℕ) → tally t p ≡ (if planned t && ((p.steps t).nwaits == 0) then 1 else 0)

-- All steps that wait are planned: scheduling is over.
abbrev pub IsSettled : (ℕ → Bool) → Plan → Type 0
IsSettled planned p = (t : ℕ) → planned t ≡ false → (p.steps t).nwaits ≡ 0

pub waiting-append :
    (t : ℕ) (a b : List ℕ) (is : List TargetInfo)
    → waiting t (a ++ b) is ≡ waiting t a is + waiting t b is
waiting-append t [] b is = omega arith
waiting-append t (o ∷ a) b is = omega (arith, waiting-append t a b is)

IsOutputs-append_right : (a b : List ℕ) → IsOutputs (a ++ b) → IsOutputs b
IsOutputs-append_right [] b h = h
IsOutputs-append_right (o ∷ a) b h = IsOutputs-append_right a b h.2

queued_arith :
    (pl : Bool) (c n n' y y' : ℕ)
    → c ≤ n
    → (pl ≡ false → n ≡ 0)
    → n' ≡ n - c
    → y' ≡ y + wakes c n
    → y ≡ (if pl && (n == 0) then 1 else 0)
    → y' ≡ (if pl && (n' == 0) then 1 else 0)
queued_arith pl c n n' y y' le settled e f g = ground arith

-- What is true of `done` on a closed plan.
pub done-closed : (s : ℕ) (p : Plan) → p.closed ≡ true → done s p ≡ p
unfolding done
done-closed s p h = rw h refl

IsAccounted-done_open :
    (planned : ℕ → Bool) (s : ℕ) (rest : List ℕ) (p : Plan)
    → p.closed ≡ false
    → IsSettled planned p
    → IsAccounted planned ((p.steps s).outputs ++ rest) p
    → IsAccounted planned rest (done s p)
IsAccounted-done_open planned s rest p is_open settled h =
    let outs = (p.steps s).outputs in
    let io = IsOutputs-append_left outs rest h.outputs in
    let cov : (t : ℕ) → (p.steps t).nwaits ≡ waiting t outs p.targets + waiting t rest p.targets =
      λ t. h.exact is_open t ∙ waiting-append t outs rest p.targets in
    let wk = λ (t : ℕ). done-wakes s p is_open t io (omega (arith, cov t)) (h.bounded t) in
    let wr = λ (t : ℕ). waiting-done s p is_open t rest h.outputs in
    record {
      outputs = IsOutputs-append_right outs rest h.outputs;
      bounded = λ t. omega (arith, (wk t).0, h.bounded t);
      covers = λ t. omega (arith, (wk t).0, wr t, cov t);
      exact = λ e t. omega (arith, (wk t).0, wr t, cov t);
      queued = λ t.
          queued_arith (planned t) (waiting t outs p.targets) (p.steps t).nwaits _ (tally t p) _
            (omega (arith, cov t)) (settled t) (wk t).0 (wk t).1 (h.queued t);
    }

IsAccounted-done_closed :
    (planned : ℕ → Bool) (s : ℕ) (rest : List ℕ) (p : Plan)
    → p.closed ≡ true
    → IsAccounted planned ((p.steps s).outputs ++ rest) p
    → IsAccounted planned rest (done s p)
IsAccounted-done_closed planned s rest p shut h =
    let outs = (p.steps s).outputs in
    rw (done-closed s p shut) (record {
      outputs = IsOutputs-append_right outs rest h.outputs;
      bounded = h.bounded;
      covers = λ t. omega (arith, h.covers t, waiting-append t outs rest p.targets);
      exact = λ e. absurd (false≢true (sym e ∙ shut));
      queued = h.queued;
    })

-- `done` keeps the account: the outputs of the step are no longer among the open targets.
pub IsAccounted-done :
    (planned : ℕ → Bool) (s : ℕ) (rest : List ℕ) (p : Plan)
    → IsSettled planned p
    → IsAccounted planned ((p.steps s).outputs ++ rest) p
    → IsAccounted planned rest (done s p)
IsAccounted-done planned s rest p settled h = elim (Bool-cases p.closed) [
  | inl shut ↦ IsAccounted-done_closed planned s rest p shut h
  | inr is_open ↦ IsAccounted-done_open planned s rest p is_open settled h
]
