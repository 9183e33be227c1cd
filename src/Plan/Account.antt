-- ===== src/Plan/Account.antt =====
-- The account of a plan while it is filled: each step counts its entries in the waits of all targets, and
-- the steps that `add` has seen were found ready exactly if they wait for nothing.
use siso.Common.{
  ℕ, zero, suc, ◌+◌, ◌≤◌, ◌<◌, ◌≡◌, ◌≢◌, refl, sym, ap, ◌∙◌, Bool, true, false, ◌&&◌, List, [], ◌∷◌,
  ◌++◌, some, ◌==◌, if◌then◌else◌, Bool-cases, inl, inr, arith, get_elem?,
}
use siso.Plan.State.{Plan, Step, TargetInfo, int_mod, increment, set_step, send}
use siso.Plan.Count.{count, count-append, tally, sent-send, send-SameRest}
use siso.Plan.Schedule.{on_target, queue_step, enter}

-- The waits of all targets.
abbrev pub all_waits : List TargetInfo → List (List ℕ)
all_waits [] = []
all_waits (i ∷ is) = i.waits ∷ all_waits is

abbrev pub total : ℕ → List (List ℕ) → ℕ
total t [] = 0
total t (w ∷ ws) = count t w + total t ws

abbrev pub first_of : List (List ℕ) → List ℕ
first_of [] = []
first_of (w ∷ ws) = w

-- Target 0 has no waits, as it is no target; steps from number `n` on are not made yet.
pub record IsPlanned (p : Plan) (n : ℕ) (planned : ℕ → Bool) : Type 0 where
  pub waits : (t : ℕ) → (p.steps t).nwaits ≡ total t (all_waits p.targets)
  pub first : first_of (all_waits p.targets) ≡ []
  pub bounded : (t : ℕ) → (p.steps t).nwaits < int_mod
  pub fresh : (t : ℕ) → n ≤ t → (p.steps t).nwaits ≡ 0
  pub unseen : (t : ℕ) → n ≤ t → planned t ≡ false
  pub queued : (t : ℕ) → tally t p ≡ (if planned t && ((p.steps t).nwaits == 0) then 1 else 0)
  pub is_open : p.closed ≡ false

pub all_waits-on_target :
    (t : ℕ) (f : TargetInfo → TargetInfo) (is : List TargetInfo)
    → ((i : TargetInfo) → (f i).waits ≡ i.waits)
    → all_waits (on_target t f is) ≡ all_waits is
unfolding on_target
all_waits-on_target t f [] h = refl
all_waits-on_target zero f (i ∷ is) h = ap (λ w. w ∷ all_waits is) (h i)
all_waits-on_target (suc t) f (i ∷ is) h = ap (λ ws. i.waits ∷ ws) (all_waits-on_target t f is h)

-- Only what the account is about has to stay the same.
pub IsPlanned-same :
    (p p' : Plan) (n : ℕ) (planned : ℕ → Bool)
    → all_waits p'.targets ≡ all_waits p.targets
    → ((t : ℕ) → (p'.steps t).nwaits ≡ (p.steps t).nwaits)
    → ((t : ℕ) → tally t p' ≡ tally t p)
    → p'.closed ≡ p.closed
    → IsPlanned p n planned
    → IsPlanned p' n planned
IsPlanned-same p p' n planned w s q c h = record {
  waits = λ t. s t ∙ h.waits t ∙ ap (total t) (sym w);
  first = ap first_of w ∙ h.first;
  bounded = λ t. omega (arith, s t, h.bounded t);
  fresh = λ t le. s t ∙ h.fresh t le;
  unseen = h.unseen;
  queued = λ t. q t ∙ h.queued t ∙ ap (λ k. if planned t && (k == 0) then 1 else 0) (sym (s t));
  is_open = c ∙ h.is_open;
}

-- A change of one target's marks.
pub IsPlanned-on_target :
    (t : ℕ) (f : TargetInfo → TargetInfo) (p : Plan) (n : ℕ) (planned : ℕ → Bool)
    → ((i : TargetInfo) → (f i).waits ≡ i.waits)
    → IsPlanned p n planned
    → IsPlanned (record p { targets = on_target t f p.targets }) n planned
IsPlanned-on_target t f p n planned h k =
    IsPlanned-same p _ n planned (all_waits-on_target t f p.targets h) (λ x. refl) (λ x. refl) refl
      k

total-wait :
    (t sid x : ℕ) (is : List TargetInfo) (i : TargetInfo)
    → get_elem? is t ≡ some i
    → total x (all_waits (on_target t (λ j. record j { waits = j.waits ++ sid ∷ [] }) is))
      ≡ total x (all_waits is) + (if sid == x then 1 else 0)
unfolding on_target
total-wait t sid x [] i e = cc
total-wait zero sid x (j ∷ is) i e = omega (arith, count-append x j.waits (sid ∷ []))
total-wait (suc t) sid x (j ∷ is) i e = omega (arith, total-wait t sid x is i e)

first-wait :
    (t sid : ℕ) (is : List TargetInfo)
    → t ≢ 0
    → first_of (all_waits (on_target t (λ j. record j { waits = j.waits ++ sid ∷ [] }) is))
      ≡ first_of (all_waits is)
unfolding on_target
first-wait t sid [] h = refl
first-wait zero sid (j ∷ is) h = absurd (h refl)
first-wait (suc t) sid (j ∷ is) h = refl

nwaits-wait :
    (sid x : ℕ) (steps : ℕ → Step)
    → (steps sid).nwaits + 1 < int_mod
    → (set_step sid (record (steps sid) { nwaits = increment (steps sid).nwaits }) steps x).nwaits
      ≡ (steps x).nwaits + (if sid == x then 1 else 0)
nwaits-wait sid x steps room = elim (Bool-cases (x == sid)) [
  | inl same ↦
      let e : x ≡ sid = ground arith in
      rw same (ground (arith, room, ap (λ y. (steps y).nwaits) e, same))
  | inr other ↦ rw other (ground arith)
]

older : (sid x n : ℕ) → sid < n → n ≤ x → (if◌then◌else◌ {A = ℕ} (sid == x) 1 0) ≡ 0
older sid x n lt le = ground arith

-- A step that is not planned yet waits for one more target.
pub IsPlanned-wait :
    (sid t : ℕ) (p : Plan) (n : ℕ) (planned : ℕ → Bool) (i : TargetInfo)
    → get_elem? p.targets t ≡ some i
    → t ≢ 0
    → sid < n
    → planned sid ≡ false
    → (p.steps sid).nwaits + 1 < int_mod
    → IsPlanned p n planned
    → IsPlanned
        (record p {
          targets = on_target t (λ j. record j { waits = j.waits ++ sid ∷ [] }) p.targets;
          steps =
              set_step sid
                (record (p.steps sid) { nwaits = increment (p.steps sid).nwaits })
                p.steps;
        })
        n
        planned
IsPlanned-wait sid t p n planned i e nz lt off room h =
    let stays = λ (x : ℕ). nwaits-wait sid x p.steps room in
    record {
      waits = λ x. omega (arith, stays x, total-wait t sid x p.targets i e, h.waits x);
      first = first-wait t sid p.targets nz ∙ h.first;
      bounded = λ x. bounded_at x;
      fresh = λ x le. omega (arith, stays x, h.fresh x le, older sid x n lt le);
      unseen = h.unseen;
      queued = λ x. queued_at x;
      is_open = h.is_open;
    }
  where
    steps' : ℕ → Step
    steps' = set_step sid (record (p.steps sid) { nwaits = increment (p.steps sid).nwaits }) p.steps

    bounded_at : (x : ℕ) → (steps' x).nwaits < int_mod
    bounded_at x = elim (Bool-cases (x == sid)) [
      | inl same ↦ rw same (omega (arith, room))
      | inr other ↦ rw other (h.bounded x)
    ]

    queued_at : (x : ℕ) → tally x p ≡ (if planned x && ((steps' x).nwaits == 0) then 1 else 0)
    queued_at x = elim (Bool-cases (x == sid)) [
      | inl same ↦
          let e : x ≡ sid = ground arith in
          let f : planned x ≡ false = ap planned e ∙ off in h.queued x ∙ rw f refl
      | inr other ↦ rw other (h.queued x)
    ]

-- A new step, with no waits.
pub IsPlanned-new :
    (step : Step) (p : Plan) (n : ℕ) (planned : ℕ → Bool)
    → step.nwaits ≡ 0
    → IsPlanned p n planned
    → IsPlanned (record p { steps = set_step n step p.steps }) (n + 1) planned
IsPlanned-new step p n planned z h =
    let same : (t : ℕ) → (set_step n step p.steps t).nwaits ≡ (p.steps t).nwaits = λ t.
      elim (Bool-cases (t == n)) [
        | inl here ↦ let le : n ≤ t = ground arith in rw here (z ∙ sym (h.fresh t le))
        | inr other ↦ rw other refl
      ] in
    let k =
      IsPlanned-same p (record p { steps = set_step n step p.steps }) n planned refl same
        (λ t. refl) refl h in
    record {
      waits = k.waits;
      first = k.first;
      bounded = k.bounded;
      fresh = λ t le. k.fresh t (omega (arith, le));
      unseen = λ t le. k.unseen t (omega (arith, le));
      queued = k.queued;
      is_open = k.is_open;
    }

tally-queue_step :
    (t sid : ℕ) (p : Plan) → tally t (queue_step sid p) ≡ tally t p + count t (sid ∷ [])
unfolding queue_step
tally-queue_step t sid p =
    let q = sent-send t sid p in
    let r = ap (count t) (send-SameRest sid p).ready in
    elim (Bool-cases (send sid p).0) [
      | inl room ↦ rw room (omega (arith, rw room at q, r))
      | inr full ↦
          rw full (omega (arith, rw full at q, r, count-append t (send sid p).1.ready (sid ∷ [])))
    ]

pub record SameCore (p p' : Plan) : Type 0 where
  pub closed : p'.closed ≡ p.closed
  pub targets : p'.targets ≡ p.targets
  pub steps : p'.steps ≡ p.steps

pub enter-SameCore : (sid : ℕ) (ready : Bool) (p : Plan) → SameCore p (enter sid ready p)
unfolding enter queue_step
enter-SameCore sid false p = record { closed = refl; targets = refl; steps = refl }
enter-SameCore sid true p =
    let r = send-SameRest sid p in
    elim (Bool-cases (send sid p).0) [
      | inl room ↦ rw room (record { closed = r.closed; targets = r.targets; steps = r.steps })
      | inr full ↦ rw full (record { closed = r.closed; targets = r.targets; steps = r.steps })
    ]

tally-enter :
    (t sid : ℕ) (ready : Bool) (p : Plan)
    → tally t (enter sid ready p) ≡ tally t p + (if ready then count t (sid ∷ []) else 0)
unfolding enter
tally-enter t sid true p = tally-queue_step t sid p
tally-enter t sid false p = omega arith

entered :
    (sid t ns nt y y' : ℕ)
    → (t == sid) ≡ true
    → y ≡ 0
    → nt ≡ ns
    → y' ≡ y + (if ns == 0 then count t (sid ∷ []) else 0)
    → y' ≡ (if nt == 0 then 1 else 0)
entered sid t ns nt y y' h k m e = ground arith

passed :
    (sid t ns y y' : ℕ)
    → (t == sid) ≡ false
    → y' ≡ y + (if ns == 0 then count t (sid ∷ []) else 0)
    → y' ≡ y
passed sid t ns y y' h e = ground arith

abbrev pub plan_one : ℕ → (ℕ → Bool) → ℕ → Bool
plan_one sid planned t = if t == sid then true else planned t

-- The step enters the plan: it is queued exactly if it waits for nothing.
pub IsPlanned-enter :
    (sid : ℕ) (p : Plan) (n : ℕ) (planned : ℕ → Bool)
    → sid < n
    → planned sid ≡ false
    → IsPlanned p n planned
    → IsPlanned (enter sid ((p.steps sid).nwaits == 0) p) n (plan_one sid planned)
IsPlanned-enter sid p n planned lt off h =
    let ready = (p.steps sid).nwaits == 0 in
    let c = enter-SameCore sid ready p in
    let w = ap all_waits c.targets in
    let s = λ (t : ℕ). ap (λ f. (f t).nwaits) c.steps in
    record {
      waits = λ t. s t ∙ h.waits t ∙ ap (total t) (sym w);
      first = ap first_of w ∙ h.first;
      bounded = λ t. omega (arith, s t, h.bounded t);
      fresh = λ t le. s t ∙ h.fresh t le;
      unseen = λ t le. unseen_at t le;
      queued = λ t.
          queued_at t ∙ ap (λ k. if plan_one sid planned t && (k == 0) then 1 else 0) (sym (s t));
      is_open = c.closed ∙ h.is_open;
    }
  where
    unseen_at : (t : ℕ) → n ≤ t → plan_one sid planned t ≡ false
    unseen_at t le = let f : (t == sid) ≡ false = ground arith in rw f (h.unseen t le)

    queued_at :
        (t : ℕ)
        → tally t (enter sid ((p.steps sid).nwaits == 0) p)
          ≡ (if plan_one sid planned t && ((p.steps t).nwaits == 0) then 1 else 0)
    queued_at t = elim (Bool-cases (t == sid)) [
      | inl same ↦
          let e : t ≡ sid = ground arith in
          let f : planned t ≡ false = ap planned e ∙ off in
          let g : tally t p ≡ 0 = h.queued t ∙ rw f refl in
          let m : (p.steps t).nwaits ≡ (p.steps sid).nwaits = ap (λ y. (p.steps y).nwaits) e in
          rw same (
            entered sid t (p.steps sid).nwaits (p.steps t).nwaits (tally t p) _ same g m
              (tally-enter t sid ((p.steps sid).nwaits == 0) p))
      | inr other ↦ rw other (
          passed sid t (p.steps sid).nwaits (tally t p) _ other
            (tally-enter t sid ((p.steps sid).nwaits == 0) p)
          ∙ h.queued t)
    ]
