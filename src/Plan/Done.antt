-- ===== src/Plan/Done.antt =====
-- `done`: which steps become ready, how often they are queued, and when the queue is closed.
use mathlib.Core.Path.{ap₂}
use siso.Common.{
  ℕ, ◌+◌, ◌-◌, ◌%◌, ◌≤◌, ◌<◌, ◌≡◌, ◌≢◌, ◌↔◌, refl, ap, ◌∙◌, true, false, not, ◌&&◌, List, [], ◌∷◌,
  ◌++◌, ◌==◌, if◌then◌else◌, length, length-append, Bool-cases, inl, inr, arith, Bytes, All,
  All-append_left, All-append_right,
}
use siso.Plan.State.{
  Plan, Step, flush, Wake, wake_all, int_mod, waits_of, wake_output, wake_outputs, close_if_idle,
  done,
}
use siso.Plan.Count.{count, count-append, tally, tally_all}
use siso.Plan.Waking.{flush-count, length-flush, flush-SameCore}
use siso.Plan.Steps.{
  all_found, wakes, WokenAt, wake_all_lem, wake_all_at, waiting, IsOutputs, waiting-set_waits,
}

wakes-add : (c1 c2 n : ℕ) → c1 + c2 ≤ n → wakes c1 n + wakes c2 (n - c1) ≡ wakes (c1 + c2) n
wakes-add c1 c2 n h = ground arith

wake_output_at :
    (prev : Bytes) (out : ℕ) (w : Wake) (t : ℕ)
    → out ≢ 0
    → count t (waits_of out w.plan.targets) ≤ (w.plan.steps t).nwaits
    → (w.plan.steps t).nwaits < int_mod
    → WokenAt t (count t (waits_of out w.plan.targets)) w (wake_output prev out w)
unfolding wake_output
wake_output_at prev out w t h le lt =
    let a = wake_all_at prev out (waits_of out w.plan.targets) (record w { kept = [] }) t h le lt in
    record { nwaits = a.nwaits; found = a.found }

-- What stays while outputs are processed.
record OutputsWoken (w w' : Wake) : Type 0 where
  closed : w'.plan.closed ≡ w.plan.closed
  ready : w'.plan.ready ≡ w.plan.ready
  balance :
      (w'.plan.npendings + all_found w') % int_mod ≡ (w.plan.npendings + all_found w) % int_mod

wake_outputs_lem :
    (prev : Bytes) (outs : List ℕ) (w : Wake)
    → IsOutputs outs
    → OutputsWoken w (wake_outputs prev outs w)
unfolding wake_outputs wake_output
wake_outputs_lem prev [] w h = record { closed = refl; ready = refl; balance = refl }
wake_outputs_lem prev (out ∷ outs) w h =
    let a = wake_all_lem prev out (waits_of out w.plan.targets) (record w { kept = [] }) h.0 in
    let b = wake_outputs_lem prev outs (wake_output prev out w) h.2 in
    record {
      closed = b.closed ∙ a.closed;
      ready = b.ready ∙ a.ready;
      balance = b.balance ∙ a.balance;
    }

waiting-wake_output :
    (prev : Bytes) (out t : ℕ) (outs : List ℕ) (w : Wake)
    → out ≢ 0
    → All (λ o. out ≢ o) outs
    → waiting t outs (wake_output prev out w).plan.targets ≡ waiting t outs w.plan.targets
unfolding wake_output
waiting-wake_output prev out t outs w h apart =
    let w0 = record w { kept = [] } in
    let w1 = wake_all prev out (waits_of out w.plan.targets) w0 in
    let a = wake_all_lem prev out (waits_of out w.plan.targets) w0 h in
    waiting-set_waits t out w1.kept outs w1.plan.targets apart ∙ ap (waiting t outs) a.targets

wake_outputs_at :
    (prev : Bytes) (outs : List ℕ) (w : Wake) (t : ℕ)
    → IsOutputs outs
    → waiting t outs w.plan.targets ≤ (w.plan.steps t).nwaits
    → (w.plan.steps t).nwaits < int_mod
    → WokenAt t (waiting t outs w.plan.targets) w (wake_outputs prev outs w)
unfolding wake_outputs
wake_outputs_at prev [] w t h le lt = record { nwaits = omega arith; found = ground arith }
wake_outputs_at prev (out ∷ outs) w t h le lt =
    let c1 = count t (waits_of out w.plan.targets) in
    let c2 = waiting t outs w.plan.targets in
    let w1 = wake_output prev out w in
    let same : waiting t outs w1.plan.targets ≡ c2 =
      waiting-wake_output prev out t outs w h.0 h.1 in
    let a = wake_output_at prev out w t h.0 (omega arith) lt in
    let b =
      wake_outputs_at prev outs w1 t h.2 (omega (arith, a.nwaits, same))
        (omega (arith, a.nwaits)) in
    let n = (w.plan.steps t).nwaits in
    let later : wakes (waiting t outs w1.plan.targets) (w1.plan.steps t).nwaits
        ≡ wakes c2 (n - c1) =
      ap₂ wakes same a.nwaits in
    record {
      nwaits = omega (arith, b.nwaits, a.nwaits, same);
      found = omega (arith, b.found, a.found, later, wakes-add c1 c2 n le);
    }

waiting-wake_outputs :
    (prev : Bytes) (t : ℕ) (outs rest : List ℕ) (w : Wake)
    → IsOutputs (outs ++ rest)
    → waiting t rest (wake_outputs prev outs w).plan.targets ≡ waiting t rest w.plan.targets
unfolding wake_outputs
waiting-wake_outputs prev t [] rest w h = refl
waiting-wake_outputs prev t (out ∷ outs) rest w h =
    waiting-wake_outputs prev t outs rest (wake_output prev out w) h.2
    ∙ waiting-wake_output prev out t rest w h.0 (All-append_right _ outs rest h.1)

pub IsOutputs-append_left : (outs rest : List ℕ) → IsOutputs (outs ++ rest) → IsOutputs outs
IsOutputs-append_left [] rest h = tt
IsOutputs-append_left (o ∷ outs) rest h =
    (h.0, All-append_left _ outs rest h.1, IsOutputs-append_left outs rest h.2)

-- The loops of `done` on the plan whose spilled steps have been flushed.
abbrev prev_of : Step → Bytes
prev_of step = if step.is_phony then step.prev_step_id else step.name

abbrev woken : ℕ → Plan → Wake
woken s p =
    wake_outputs (prev_of (p.steps s)) (p.steps s).outputs
      (record { plan = flush p.ready [] p; spilled = []; kept = [] })

abbrev spilled_back : Wake → Plan
spilled_back w = record w.plan { ready = w.plan.ready ++ w.spilled }

done-open :
    (s : ℕ) (p : Plan) → p.closed ≡ false → done s p ≡ close_if_idle (spilled_back (woken s p))
unfolding done
done-open s p h = rw h refl

-- Closing changes nothing that is counted.
record SameCounts (p p' : Plan) : Type 0 where
  steps : p'.steps ≡ p.steps
  taken : p'.taken ≡ p.taken
  q : p'.q ≡ p.q
  ready : p'.ready ≡ p.ready
  npendings : p'.npendings ≡ p.npendings
  targets : p'.targets ≡ p.targets

close_if_idle_lem : (p : Plan) → SameCounts p (close_if_idle p)
unfolding close_if_idle
close_if_idle_lem p =
    elim (Bool-cases ((length p.ready == 0) && (p.npendings == 0) && not p.closed)) [
      | inl idle ↦ rw idle (record {
        steps = refl;
        taken = refl;
        q = refl;
        ready = refl;
        npendings = refl;
        targets = refl;
      })
      | inr busy ↦ rw busy (record {
        steps = refl;
        taken = refl;
        q = refl;
        ready = refl;
        npendings = refl;
        targets = refl;
      })
    ]

close_if_idle-closed :
    (p : Plan)
    → p.closed ≡ false
    → ((close_if_idle p).closed ≡ true)
      ↔ (((close_if_idle p).ready ≡ []) × ((close_if_idle p).npendings ≡ 0))
unfolding close_if_idle
close_if_idle-closed p h = ground arith

module _ (s : ℕ) (p : Plan) (is_open : p.closed ≡ false) where
  -- After `done` of the step `s` in an open plan: a step `t` that waits `c` times for the outputs has `c`
  -- fewer open inputs, and it is found ready (queued or spilled) once more exactly if `c` is positive
  -- and these were its last open inputs. The outputs are targets and none is listed twice, and `t` has at
  -- least `c` open inputs, fewer than 2^64.
  pub done-wakes :
      (t : ℕ)
      → IsOutputs (p.steps s).outputs
      → waiting t (p.steps s).outputs p.targets ≤ (p.steps t).nwaits
      → (p.steps t).nwaits < int_mod
      → (((done s p).steps t).nwaits ≡ (p.steps t).nwaits - waiting t (p.steps s).outputs p.targets)
        × (tally t (done s p)
            ≡ tally t p + wakes (waiting t (p.steps s).outputs p.targets) (p.steps t).nwaits)
  done-wakes t outs le lt =
      let f = flush p.ready [] p in
      let core = flush-SameCore p.ready [] p in
      let c = waiting t (p.steps s).outputs p.targets in
      let w0 : Wake = record { plan = f; spilled = []; kept = [] } in
      let ec : waiting t (p.steps s).outputs f.targets ≡ c =
        ap (waiting t (p.steps s).outputs) core.targets in
      let en : (f.steps t).nwaits ≡ (p.steps t).nwaits = ap (λ g. (g t).nwaits) core.steps in
      let a =
        wake_outputs_at (prev_of (p.steps s)) (p.steps s).outputs w0 t outs (omega (arith, ec, en))
          (omega (arith, en)) in
      let o = wake_outputs_lem (prev_of (p.steps s)) (p.steps s).outputs w0 outs in
      let w = woken s p in
      let same = close_if_idle_lem (spilled_back w) in
      let back : count t (w.plan.ready ++ w.spilled) ≡ count t f.ready + count t w.spilled =
        ap (λ r. count t (r ++ w.spilled)) o.ready ∙ count-append t f.ready w.spilled in
      let wk : wakes (waiting t (p.steps s).outputs f.targets) (f.steps t).nwaits
          ≡ wakes c (p.steps t).nwaits =
        ap₂ wakes ec en in
      rw (done-open s p is_open) (
        omega (arith, ap (λ g. (g t).nwaits) same.steps, a.nwaits, ec, en),
        omega (
          arith,
          ap (count t) same.taken,
          ap (count t) same.q,
          ap (count t) same.ready,
          back,
          a.found,
          wk,
          flush-count t p.ready [] p,
        ),
      )

  -- `done` moves steps from the pending ones to those found ready, one for one (modulo the width of an
  -- int): the pending count plus the number of steps found ready stays the same. The plan is open, and
  -- the outputs are targets of which none is listed twice.
  pub done_balance :
      IsOutputs (p.steps s).outputs
      → ((done s p).npendings + tally_all (done s p)) % int_mod
        ≡ (p.npendings + tally_all p) % int_mod
  done_balance outs =
      let f = flush p.ready [] p in
      let core = flush-SameCore p.ready [] p in
      let w0 : Wake = record { plan = f; spilled = []; kept = [] } in
      let o = wake_outputs_lem (prev_of (p.steps s)) (p.steps s).outputs w0 outs in
      let w = woken s p in
      let same = close_if_idle_lem (spilled_back w) in
      let back : length (w.plan.ready ++ w.spilled) ≡ length f.ready + length w.spilled =
        ap (λ r. length (r ++ w.spilled)) o.ready ∙ length-append f.ready w.spilled in
      rw (done-open s p is_open) (
        omega (
          arith,
          same.npendings,
          ap length same.taken,
          ap length same.q,
          ap length same.ready,
          back,
          o.balance,
          core.npendings,
          length-flush p.ready [] p,
        ))

  pub waiting-done :
      (t : ℕ) (rest : List ℕ)
      → IsOutputs ((p.steps s).outputs ++ rest)
      → waiting t rest (done s p).targets ≡ waiting t rest p.targets
  waiting-done t rest h =
      let f = flush p.ready [] p in
      let w0 : Wake = record { plan = f; spilled = []; kept = [] } in
      rw (done-open s p is_open) (
        ap (waiting t rest) (close_if_idle_lem (spilled_back (woken s p))).targets
        ∙ waiting-wake_outputs (prev_of (p.steps s)) t (p.steps s).outputs rest w0 h
        ∙ ap (waiting t rest) (flush-SameCore p.ready [] p).targets)

  -- `done` of a step closes an open queue exactly when no step is spilled and none is pending any more.
  -- The outputs are targets and none is listed twice.
  pub done_closes :
      IsOutputs (p.steps s).outputs
      → ((done s p).closed ≡ true) ↔ (((done s p).ready ≡ []) × ((done s p).npendings ≡ 0))
  done_closes outs =
      let w0 : Wake = record { plan = flush p.ready [] p; spilled = []; kept = [] } in
      let o = wake_outputs_lem (prev_of (p.steps s)) (p.steps s).outputs w0 outs in
      let core = flush-SameCore p.ready [] p in
      rw (done-open s p is_open)
        (close_if_idle-closed (spilled_back (woken s p)) (o.closed ∙ core.closed ∙ is_open))
