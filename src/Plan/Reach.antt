-- ===== src/Plan/Reach.antt =====
-- The runs of a build over a plan, as a step relation, and what holds in every plan that is reached.
use mathlib.Core.List.{Permᴰ}
use siso.Common.{
  ℕ, ◌≤◌, ◌<◌, ◌≡◌, ◌↔◌, ap, ◌∙◌, Bool, true, false, List, ◌++◌, Bool-cases, inl, inr, arith,
}
use siso.Plan.State.{Plan, receive, push_ready, done}
use siso.Plan.Count.{count, tally}
use siso.Plan.Steps.{waiting}
use siso.Plan.Done.{done-wakes, IsOutputs-append_left}
use siso.Plan.Run.{IsAccounted, IsSettled, IsAccounted-done, done-closed, waiting-append}
use siso.Plan.Safety.{Agree, IsAccounted-perm, IsAccounted-Agree, receive-Agree, push_ready-Agree}

-- From the plan `p0` with open targets `rest0`: the builder receives, pushes a spilled step, or finishes
-- a step that it has received, whose outputs are then no longer open.
pub data Reach (rest0 : List ℕ) (p0 : Plan) : List ℕ → Plan → Type 0 where
  start : Reach rest0 p0 rest0 p0
  receives : {rest : List ℕ} {p : Plan} → Reach rest0 p0 rest p → Reach rest0 p0 rest (receive p)
  pushes : {rest : List ℕ} {p : Plan} → Reach rest0 p0 rest p → Reach rest0 p0 rest (push_ready p)
  finishes :
      {rest : List ℕ} {p : Plan} (s : ℕ) (rest' : List ℕ)
      → Reach rest0 p0 rest p
      → 0 < count s p.taken
      → Permᴰ rest ((p.steps s).outputs ++ rest')
      → Reach rest0 p0 rest' (done s p)

IsSettled-done :
    (planned : ℕ → Bool) (s : ℕ) (rest : List ℕ) (p : Plan)
    → IsSettled planned p
    → IsAccounted planned ((p.steps s).outputs ++ rest) p
    → IsSettled planned (done s p)
IsSettled-done planned s rest p settled h t u = elim (Bool-cases p.closed) [
  | inl shut ↦ ap (λ d. (d.steps t).nwaits) (done-closed s p shut) ∙ settled t u
  | inr is_open ↦
      let outs = (p.steps s).outputs in
      let e = h.exact is_open t in
      let wk =
        done-wakes s p is_open t (IsOutputs-append_left outs rest h.outputs)
          (omega (arith, e, waiting-append t outs rest p.targets)) (h.bounded t) in
      omega (arith, wk.0, settled t u)
]

IsSettled-Agree :
    (planned : ℕ → Bool) (p p' : Plan) → Agree p p' → IsSettled planned p → IsSettled planned p'
IsSettled-Agree planned p p' a settled t u = ap (λ f. (f t).nwaits) a.steps ∙ settled t u

pub record Kept (planned : ℕ → Bool) (rest : List ℕ) (p : Plan) : Type 0 where
  pub account : IsAccounted planned rest p
  pub settled : IsSettled planned p

pub Reach-Kept :
    (planned : ℕ → Bool) {rest0 : List ℕ} {p0 : Plan} {rest : List ℕ} {p : Plan}
    → Kept planned rest0 p0
    → Reach rest0 p0 rest p
    → Kept planned rest p
Reach-Kept planned k start = k
Reach-Kept planned k (receives {rest = rest} {p = p} r) =
    let h = Reach-Kept planned k r in
    let a = receive-Agree p in
    record {
      account = IsAccounted-Agree planned rest p (receive p) a h.account;
      settled = IsSettled-Agree planned p (receive p) a h.settled;
    }
Reach-Kept planned k (pushes {rest = rest} {p = p} r) =
    let h = Reach-Kept planned k r in
    let a = push_ready-Agree p in
    record {
      account = IsAccounted-Agree planned rest p (push_ready p) a h.account;
      settled = IsSettled-Agree planned p (push_ready p) a h.settled;
    }
Reach-Kept planned k (finishes {rest = rest} {p = p} s rest' r taken e) =
    let h = Reach-Kept planned k r in
    let moved = IsAccounted-perm planned rest ((p.steps s).outputs ++ rest') p e h.account in
    record {
      account = IsAccounted-done planned s rest' p h.settled moved;
      settled = IsSettled-done planned s rest' p h.settled moved;
    }

-- In every plan that a run reaches from an accounted and settled one, each step was found ready at most
-- once, no step that was found ready has an input whose step is not done, and as long as the queue is
-- open a planned step was found ready exactly if none of its inputs is open.
pub Reach-ready :
    (planned : ℕ → Bool) (rest0 rest : List ℕ) (p0 p : Plan) (t : ℕ)
    → IsAccounted planned rest0 p0
    → IsSettled planned p0
    → Reach rest0 p0 rest p
    → (tally t p ≤ 1)
      × (0 < tally t p → waiting t rest p.targets ≡ 0)
      × (p.closed ≡ false → planned t ≡ true → (tally t p ≡ 1) ↔ (waiting t rest p.targets ≡ 0))
Reach-ready planned rest0 rest p0 p t acc settled r =
    let h = (Reach-Kept planned (record { account = acc; settled = settled }) r).account in
    let q = h.queued t in
    let c = h.covers t in
    (ground arith, λ pos. ground arith, λ is_open pl. let e = h.exact is_open t in ground arith)
