-- ===== src/Plan/Waking.antt =====
-- The loops of `done`: what they count, for each step.
use siso.Common.{
  ℕ, ◌+◌, ◌≡◌, refl, ◌∙◌, Bool, true, false, List, [], ◌∷◌, ◌++◌, if◌then◌else◌, length,
  length-append, Bool-cases, inl, inr, arith,
}
use siso.Plan.State.{Plan, send, flush, Wake, enqueue, decrement}
use siso.Plan.Count.{count, count-append, sent, sent-send, send-SameRest, length-send}

-- A step goes to the queue or stays in the list of those kept.
count-kept :
    (b : Bool) (t s : ℕ) (kept : List ℕ)
    → count t (if b then kept else kept ++ s ∷ []) + (if b then count t (s ∷ []) else 0)
      ≡ count t kept + count t (s ∷ [])
count-kept true t s kept = refl
count-kept false t s kept = omega (arith, count-append t kept (s ∷ []))

length-kept :
    (b : Bool) (s : ℕ) (kept : List ℕ)
    → length (if b then kept else kept ++ s ∷ []) + (if b then 1 else 0) ≡ length kept + 1
length-kept true s kept = refl
length-kept false s kept = omega (arith, length-append kept (s ∷ []))

pub flush-count :
    (t : ℕ) (ss kept : List ℕ) (p : Plan)
    → sent t (flush ss kept p) + count t (flush ss kept p).ready
      ≡ sent t p + count t kept + count t ss
unfolding flush
flush-count t [] kept p = omega arith
flush-count t (s ∷ ss) kept p =
    let b = (send s p).0 in
    omega (
      arith,
      flush-count t ss (if b then kept else kept ++ s ∷ []) (send s p).1,
      sent-send t s p,
      count-kept b t s kept,
    )

pub length-flush :
    (ss kept : List ℕ) (p : Plan)
    → length (flush ss kept p).taken + length (flush ss kept p).q + length (flush ss kept p).ready
      ≡ length p.taken + length p.q + length kept + length ss
unfolding flush
length-flush [] kept p = omega arith
length-flush (s ∷ ss) kept p =
    let b = (send s p).0 in
    omega (
      arith,
      length-flush ss (if b then kept else kept ++ s ∷ []) (send s p).1,
      length-send s p,
      length-kept b s kept,
    )

-- What flushing leaves alone.
pub record SameCore (p p' : Plan) : Type 0 where
  pub closed : p'.closed ≡ p.closed
  pub targets : p'.targets ≡ p.targets
  pub npendings : p'.npendings ≡ p.npendings
  pub steps : p'.steps ≡ p.steps

pub flush-SameCore : (ss kept : List ℕ) (p : Plan) → SameCore p (flush ss kept p)
unfolding flush
flush-SameCore [] kept p = record { closed = refl; targets = refl; npendings = refl; steps = refl }
flush-SameCore (s ∷ ss) kept p =
    let r = send-SameRest s p in
    let kept' = if (send s p).0 then kept else kept ++ s ∷ [] in
    let h = flush-SameCore ss kept' (send s p).1 in
    record {
      closed = h.closed ∙ r.closed;
      targets = h.targets ∙ r.targets;
      npendings = h.npendings ∙ r.npendings;
      steps = h.steps ∙ r.steps;
    }

-- How often a step was found ready, during the loops of `done`.
abbrev pub found_ready : ℕ → Wake → ℕ
found_ready t w = sent t w.plan + count t w.spilled

pub enqueue-found :
    (t s : ℕ) (w : Wake) → found_ready t (enqueue s w) ≡ found_ready t w + count t (s ∷ [])
unfolding enqueue
enqueue-found t s w =
    let p = record w.plan { npendings = decrement w.plan.npendings } in
    elim (Bool-cases (send s p).0) [
      | inl room ↦ rw room (omega (arith, rw room at (sent-send t s p)))
      | inr full ↦
          rw full (omega (arith, rw full at (sent-send t s p), count-append t w.spilled (s ∷ [])))
    ]

-- `enqueue` changes no step and no target, and takes one off the pending count.
pub record Enqueued (w w' : Wake) : Type 0 where
  pub closed : w'.plan.closed ≡ w.plan.closed
  pub ready : w'.plan.ready ≡ w.plan.ready
  pub targets : w'.plan.targets ≡ w.plan.targets
  pub steps : w'.plan.steps ≡ w.plan.steps
  pub npendings : w'.plan.npendings ≡ decrement w.plan.npendings
  pub all :
      length w'.plan.taken + length w'.plan.q + length w'.spilled
      ≡ length w.plan.taken + length w.plan.q + length w.spilled + 1

pub enqueue_lem : (s : ℕ) (w : Wake) → Enqueued w (enqueue s w)
unfolding enqueue
enqueue_lem s w =
    let p = record w.plan { npendings = decrement w.plan.npendings } in
    let r = send-SameRest s p in
    elim (Bool-cases (send s p).0) [
      | inl room ↦ rw room (record {
        closed = r.closed;
        ready = r.ready;
        targets = r.targets;
        steps = r.steps;
        npendings = r.npendings;
        all = omega (arith, rw room at (length-send s p));
      })
      | inr full ↦ rw full (record {
        closed = r.closed;
        ready = r.ready;
        targets = r.targets;
        steps = r.steps;
        npendings = r.npendings;
        all = omega (arith, rw full at (length-send s p), length-append w.spilled (s ∷ []));
      })
    ]
