-- ===== src/Plan/Safety.antt =====
-- Every run: a step is queued only when its inputs are done, at most once, and it is not forgotten.
use mathlib.Core.List.{Permᴰ}
use mathlib.Core.List.Permᴰ.{nil, cons, swap, trans}
use mathlib.Core.Path.{subst}
use siso.Common.{
  ℕ, ◌≡◌, ◌≢◌, refl, sym, ap, ◌∙◌, Bool, ◌&&◌, List, [], ◌∷◌, ◌==◌, if◌then◌else◌, Bool-cases, inl,
  inr, take, arith, All,
}
use siso.Plan.State.{waits_of, Plan, TargetInfo, send, receive, push_first, push_ready}
use siso.Plan.Count.{count, count-append, count-take-drop, tally, sent-send, send-SameRest}
use siso.Plan.Steps.{waiting, IsOutputs}
use siso.Plan.Run.{IsAccounted}

All-perm : (P : ℕ → Type 0) {xs ys : List ℕ} → Permᴰ xs ys → All P xs → All P ys
All-perm P nil h = h
All-perm P (cons e r) h = (subst P e h.0, All-perm P r h.1)
All-perm P (swap e f) h = (subst P f h.1.0, (subst P e h.0, h.1.1))
All-perm P (trans r r') h = All-perm P r' (All-perm P r h)

IsOutputs-perm : {xs ys : List ℕ} → Permᴰ xs ys → IsOutputs xs → IsOutputs ys
IsOutputs-perm nil h = h
IsOutputs-perm (cons {a} {b} {l₁} {l₂} e r) h =
    subst (λ x. IsOutputs (x ∷ l₂)) e (h.0, All-perm (λ o. a ≢ o) r h.1, IsOutputs-perm r h.2)
IsOutputs-perm (swap {a} {b} {a'} {b'} {l} e f) h =
    subst (λ x. IsOutputs (x ∷ b' ∷ l)) f
      (subst (λ y. IsOutputs (b ∷ y ∷ l)) e
        (h.2.0, ((λ q. h.1.0 (sym q)), h.2.1), (h.0, h.1.1, h.2.2)))
IsOutputs-perm (trans r r') h = IsOutputs-perm r' (IsOutputs-perm r h)

waiting-perm :
    (t : ℕ) (is : List TargetInfo) {xs ys : List ℕ}
    → Permᴰ xs ys
    → waiting t xs is ≡ waiting t ys is
waiting-perm t is nil = refl
waiting-perm t is (cons e r) =
    omega (arith, ap (λ o. count t (waits_of o is)) e, waiting-perm t is r)
waiting-perm t is (swap {a} {b} {a'} {b'} {l} e f) =
    omega (arith, ap (λ o. count t (waits_of o is)) e, ap (λ o. count t (waits_of o is)) f)
waiting-perm t is (trans r r') = waiting-perm t is r ∙ waiting-perm t is r'

-- The account does not depend on the order of the open targets.
pub IsAccounted-perm :
    (planned : ℕ → Bool) (rest rest' : List ℕ) (p : Plan)
    → Permᴰ rest rest'
    → IsAccounted planned rest p
    → IsAccounted planned rest' p
IsAccounted-perm planned rest rest' p r h = record {
  outputs = IsOutputs-perm r h.outputs;
  bounded = h.bounded;
  covers = λ t. omega (arith, h.covers t, waiting-perm t p.targets r);
  exact = λ e t. omega (arith, h.exact e t, waiting-perm t p.targets r);
  queued = h.queued;
}

-- Two plans that agree on all that the account is about.
pub record Agree (p p' : Plan) : Type 0 where
  pub closed : p'.closed ≡ p.closed
  pub targets : p'.targets ≡ p.targets
  pub steps : p'.steps ≡ p.steps
  pub tallies : (t : ℕ) → tally t p' ≡ tally t p

pub IsAccounted-Agree :
    (planned : ℕ → Bool) (rest : List ℕ) (p p' : Plan)
    → Agree p p'
    → IsAccounted planned rest p
    → IsAccounted planned rest p'
IsAccounted-Agree planned rest p p' a h =
    let n = λ (t : ℕ). ap (λ f. (f t).nwaits) a.steps in
    let w = λ (t : ℕ). ap (waiting t rest) a.targets in
    record {
      outputs = h.outputs;
      bounded = λ t. omega (arith, h.bounded t, n t);
      covers = λ t. omega (arith, h.covers t, n t, w t);
      exact = λ e t. omega (arith, h.exact (sym a.closed ∙ e) t, n t, w t);
      queued = λ t.
          a.tallies t ∙ h.queued t ∙ ap (λ k. if planned t && (k == 0) then 1 else 0) (sym (n t));
    }

pub receive-Agree : (p : Plan) → Agree p (receive p)
unfolding receive
receive-Agree p = record {
  closed = refl;
  targets = refl;
  steps = refl;
  tallies = λ t.
      let k = p.receives p.clock in
      omega (arith, count-append t p.taken (take k p.q), count-take-drop t k p.q);
}

push_first-Agree : (ss : List ℕ) (p : Plan) → p.ready ≡ ss → Agree p (push_first ss p)
unfolding push_first
push_first-Agree [] p e = record {
  closed = refl;
  targets = refl;
  steps = refl;
  tallies = λ t. refl;
}
push_first-Agree (s ∷ ss) p e =
    let r = send-SameRest s p in
    let c = λ (t : ℕ). ap (count t) e in
    let kept = λ (t : ℕ). ap (count t) r.ready in
    elim (Bool-cases (send s p).0) [
      | inl room ↦ rw room (record {
        closed = r.closed;
        targets = r.targets;
        steps = r.steps;
        tallies = λ t. omega (arith, rw room at (sent-send t s p), c t);
      })
      | inr full ↦ rw full (record {
        closed = r.closed;
        targets = r.targets;
        steps = r.steps;
        tallies = λ t. omega (arith, rw full at (sent-send t s p), c t, kept t);
      })
    ]

pub push_ready-Agree : (p : Plan) → Agree p (push_ready p)
unfolding push_ready
push_ready-Agree p = push_first-Agree p.ready p refl
