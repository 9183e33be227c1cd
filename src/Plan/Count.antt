-- ===== src/Plan/Count.antt =====
-- How often a step stands in a list of steps, and in the queues of a plan.
use siso.Common.{
  ℕ, zero, suc, ◌+◌, ◌≡◌, refl, List, [], ◌∷◌, ◌++◌, ltb, ◌==◌, if◌then◌else◌, length, take, drop,
  length-append, length-take, length-drop, Bool-cases, inl, inr, arith,
}
use siso.Plan.State.{Plan, receive, send}

abbrev pub count : ℕ → List ℕ → ℕ
count s [] = 0
count s (x ∷ xs) = (if x == s then 1 else 0) + count s xs

pub count-append : (s : ℕ) (xs ys : List ℕ) → count s (xs ++ ys) ≡ count s xs + count s ys
count-append s [] ys = omega arith
count-append s (x ∷ xs) ys = omega (arith, count-append s xs ys)

pub count-take-drop :
    (s k : ℕ) (xs : List ℕ) → count s (take k xs) + count s (drop k xs) ≡ count s xs
count-take-drop s zero xs = omega arith
count-take-drop s (suc k) [] = omega arith
count-take-drop s (suc k) (x ∷ xs) = omega (arith, count-take-drop s k xs)

-- How often `s` was queued, received ones included.
abbrev pub sent : ℕ → Plan → ℕ
sent s p = count s p.taken + count s p.q

-- How often `s` was found ready: it was queued or is spilled over.
abbrev pub tally : ℕ → Plan → ℕ
tally s p = sent s p + count s p.ready

-- How many steps were found ready.
abbrev pub tally_all : Plan → ℕ
tally_all p = length p.taken + length p.q + length p.ready

-- What a send leaves alone.
pub record SameRest (p p' : Plan) : Type 0 where
  pub closed : p'.closed ≡ p.closed
  pub ready : p'.ready ≡ p.ready
  pub targets : p'.targets ≡ p.targets
  pub npendings : p'.npendings ≡ p.npendings
  pub steps : p'.steps ≡ p.steps

pub send-SameRest : (s : ℕ) (p : Plan) → SameRest p (send s p).1
unfolding send receive
send-SameRest s p = elim (Bool-cases (ltb (length (receive p).q) (receive p).q_cap)) [
  | inl room ↦
      rw room
        (record { closed = refl; ready = refl; targets = refl; npendings = refl; steps = refl })
  | inr full ↦
      rw full
        (record { closed = refl; ready = refl; targets = refl; npendings = refl; steps = refl })
]

-- A send queues the step once if it succeeds, and no other step.
pub sent-send :
    (t s : ℕ) (p : Plan)
    → sent t (send s p).1 ≡ sent t p + (if (send s p).0 then count t (s ∷ []) else 0)
unfolding send receive
sent-send t s p =
    let k = p.receives p.clock in
    ground (
      arith,
      count-append t p.taken (take k p.q),
      count-append t (drop k p.q) (s ∷ []),
      count-take-drop t k p.q,
    )

pub length-send :
    (s : ℕ) (p : Plan)
    → length (send s p).1.taken + length (send s p).1.q
      ≡ length p.taken + length p.q + (if (send s p).0 then 1 else 0)
unfolding send receive
length-send s p =
    let k = p.receives p.clock in
    ground (
      arith,
      length-append p.taken (take k p.q),
      length-append (drop k p.q) (s ∷ []),
      length-take k p.q,
      length-drop k p.q,
    )
