-- ===== src/Plan/Needs.antt =====
-- From a build graph to the runs of the build: when a step is found ready, and what its inputs have to do with it.
use mathlib.Core.List.{Permᴰ}
use mathlib.Core.List.Permᴰ.{nil, cons, swap, trans}
use mathlib.Core.Path.{subst}
use siso.Common.{
  ℕ, zero, suc, ◌≤◌, ◌<◌, ◌≡◌, ◌≢◌, ◌↔◌, refl, ap, ◌∙◌, Bool, true, false, List, [], ◌∷◌, ◌++◌,
  ◌==◌, Bool-cases, inl, inr, All, arith,
}
use siso.Plan.State.{TargetInfo, Plan, waits_of}
use siso.Plan.Count.{count, count-append, tally}
use siso.Plan.Steps.{waiting, IsOutputs}
use siso.Plan.Done.{waiting-done}
use siso.Plan.Run.{done-closed}
use siso.Plan.Safety.{IsAccounted-perm, receive-Agree, push_ready-Agree}
use siso.Plan.Reach.{Reach, start, receives, pushes, finishes, Kept, Reach-Kept, Reach-ready}
use siso.Plan.Schedule.{StepDef, Graph, ok, Scheduler}
use siso.Plan.Targets.{schedule, new_scheduler}
use siso.Plan.Wiring.{source_of, inputs_of}
use siso.Plan.Scheduled.{IsDefOf, IsGraph}
use siso.Plan.Filled.{open_targets, IsSound-IsAccounted, schedule-IsSettled, schedule-Adds}
use siso.Plan.Tidy.{IsTidy}
use siso.Plan.Visits.{schedule-AreTidy}

-- The inputs of the step are done, as far as they are no sources: none of them is among the open targets.
abbrev pub AreDone : List TargetInfo → List ℕ → List ℕ → Type 0
AreDone is rest inputs = All (λ x. (source_of x is ≡ false) → count x rest ≡ 0) inputs

count-head : (x : ℕ) (xs : List ℕ) → 0 < count x (x ∷ xs)
count-head x xs = ground arith

waiting-member :
    (t x : ℕ) (rest : List ℕ) (is : List TargetInfo)
    → waiting t rest is ≡ 0
    → 0 < count t (waits_of x is)
    → count x rest ≡ 0
waiting-member t x [] is h k = refl
waiting-member t x (o ∷ rest) is h k = elim (Bool-cases (o == x)) [
  | inl same ↦
      let e : o ≡ x = ground arith in
      let f = ap (λ y. count t (waits_of y is)) e in absurd (omega arith)
  | inr other ↦ let q = waiting-member t x rest is (omega arith) k in rw other (omega arith)
]

count-perm : (t : ℕ) {xs ys : List ℕ} → Permᴰ xs ys → count t xs ≡ count t ys
count-perm t nil = refl
count-perm t (cons e r) = omega (arith, ap (λ o. count t (o ∷ [])) e, count-perm t r)
count-perm t (swap {a} {b} {a'} {b'} {l} e f) =
    omega (arith, ap (λ o. count t (o ∷ [])) e, ap (λ o. count t (o ∷ [])) f)
count-perm t (trans r r') = count-perm t r ∙ count-perm t r'

All-member : (P : ℕ → Type 0) (x : ℕ) (xs : List ℕ) → All P xs → 0 < count x xs → P x
All-member P x [] h k = absurd (omega arith)
All-member P x (y ∷ ys) h k = elim (Bool-cases (y == x)) [
  | inl same ↦ let e : y ≡ x = ground arith in subst P e h.0
  | inr other ↦ All-member P x ys h.1 (ground arith)
]

All-pick :
    (P : ℕ → Type 0) (x : ℕ) (xs ys : List ℕ)
    → All P (xs ++ ys)
    → 0 < count x ys
    → All P (xs ++ (x ∷ []))
All-pick P x [] ys h k = (All-member P x ys h k, tt)
All-pick P x (z ∷ xs) ys h k = (h.0, All-pick P x xs ys h.1 k)

IsOutputs-member : (x : ℕ) (ys : List ℕ) → IsOutputs ys → 0 < count x ys → x ≢ 0
IsOutputs-member x [] h k = absurd (omega arith)
IsOutputs-member x (y ∷ ys) h k = elim (Bool-cases (y == x)) [
  | inl same ↦ let e : y ≡ x = ground arith in subst (λ z. z ≢ 0) e h.0
  | inr other ↦ IsOutputs-member x ys h.2 (ground arith)
]

IsOutputs-pick :
    (x : ℕ) (xs ys : List ℕ) → IsOutputs (xs ++ ys) → 0 < count x ys → IsOutputs (xs ++ (x ∷ []))
IsOutputs-pick x [] ys h k = (IsOutputs-member x ys h k, tt, tt)
IsOutputs-pick x (z ∷ xs) ys h k =
    (h.0, All-pick (λ o. z ≢ o) x xs ys h.1 k, IsOutputs-pick x xs ys h.2 k)

-- The waits of open targets stay as scheduling made them.
Reach-waits :
    (planned : ℕ → Bool) {rest0 : List ℕ} {p0 : Plan} {rest : List ℕ} {p : Plan} (t x : ℕ)
    → Kept planned rest0 p0
    → Reach rest0 p0 rest p
    → 0 < count x rest
    → count t (waits_of x p.targets) ≡ count t (waits_of x p0.targets)
Reach-waits planned t x k start c = refl
Reach-waits planned t x k (receives {rest = rest} {p = p} r) c =
    ap (λ is. count t (waits_of x is)) (receive-Agree p).targets ∙ Reach-waits planned t x k r c
Reach-waits planned t x k (pushes {rest = rest} {p = p} r) c =
    ap (λ is. count t (waits_of x is)) (push_ready-Agree p).targets ∙ Reach-waits planned t x k r c
Reach-waits planned t x k (finishes {rest = rest} {p = p} s rest' r taken e) c =
    let h = (Reach-Kept planned k r).account in
    let outs = (p.steps s).outputs in
    let moved = (IsAccounted-perm planned rest (outs ++ rest') p e h).outputs in
    let before =
      Reach-waits planned t x k r (omega (arith, count-perm x e, count-append x outs rest', c)) in
    elim (Bool-cases p.closed) [
      | inl shut ↦ ap (λ q. count t (waits_of x q.targets)) (done-closed s p shut) ∙ before
      | inr is_open ↦
          let w = waiting-done s p is_open t (x ∷ []) (IsOutputs-pick x outs rest' moved c) in
          omega (arith, w, before)
    ]

All-each : (P : ℕ → Type 0) (xs : List ℕ) → ((x : ℕ) → 0 < count x xs → P x) → All P xs
All-each P [] f = tt
All-each P (y ∷ ys) f = (f y (count-head y ys), All-each P ys (λ x k. f x (omega arith)))

waiting-none :
    (t : ℕ) (rest : List ℕ) (is : List TargetInfo)
    → ((x : ℕ) → 0 < count x rest → count t (waits_of x is) ≡ 0)
    → waiting t rest is ≡ 0
waiting-none t [] is f = refl
waiting-none t (o ∷ rest) is f =
    let a = f o (count-head o rest) in
    let b = waiting-none t rest is (λ x k. f x (omega arith)) in omega arith

quiet_source :
    (t x : ℕ) (is : List TargetInfo)
    → All IsTidy is
    → source_of x is ≡ true
    → count t (waits_of x is) ≡ 0
unfolding source_of waits_of
quiet_source t x [] h e = refl
quiet_source t zero (i ∷ is) h e = ap (count t) (h.0.0 e)
quiet_source t (suc x) (i ∷ is) h e = quiet_source t x is h.1 e

-- A step that waits for its inputs, as long as they are open, waits for nothing exactly if they are done.
waiting-AreDone :
    (t : ℕ) (rest inputs : List ℕ) (is now : List TargetInfo)
    → ((x : ℕ) → 0 < count x rest → count t (waits_of x now) ≡ count t (waits_of x is))
    → All IsTidy is
    → ((x : ℕ) → count t (waits_of x is) ≤ count x inputs)
    → ((x : ℕ) → source_of x is ≡ false → count x inputs ≤ count t (waits_of x is))
    → (waiting t rest now ≡ 0) ↔ AreDone is rest inputs
waiting-AreDone t rest inputs is now same tidy most least = (
  (λ h.
      All-each (λ x. (source_of x is ≡ false) → count x rest ≡ 0) inputs
        (λ x k src. elim (Bool-cases (0 == count x rest)) [
          | inl none ↦ ground arith
          | inr some_left ↦
              let pos : 0 < count x rest = ground arith in
              let l = least x src in
              let q = same x pos in waiting-member t x rest now h (omega arith)
        ])),
  (λ d. waiting-none t rest now (λ x k.
      let q = same x k in
      elim (Bool-cases (source_of x is)) [
        | inl src ↦ let z = quiet_source t x is tidy src in omega arith
        | inr built ↦
            let m = most x in
            elim (Bool-cases (0 == count x inputs)) [
              | inl none ↦ ground arith
              | inr needed ↦
                  let z =
                    All-member (λ y. (source_of y is ≡ false) → count y rest ≡ 0) x inputs d
                      (ground arith) built in
                  absurd (omega arith)
            ]
      ])),
)

-- Scheduling any targets on a new scheduler, without an error, makes a plan whose runs follow the build graph.
-- A run is a sequence of receives, `pushReady` calls and `done` calls; at first all targets but 0 are open, and
-- each `done` call is of a received step whose outputs are open targets, no two of them the same, and are not
-- open any more after it. In every plan that a run leads to, a step is found ready at most once, and only if it
-- is planned. A planned step is made from a definition of the graph and has its outputs; if it was found ready,
-- no input of this definition, order-only ones included, is open, but for those marked as sources; and while
-- the queue is open, it was found ready exactly if that holds. The condition on the graph is that a step's
-- inputs are targets, fewer than 2^64.
pub schedule-Reach :
    (g : Graph) (ts : List ℕ) (n : ℕ) (receiving : ℕ → ℕ) (s : Scheduler) (rest : List ℕ) (p : Plan)
    (t : ℕ)
    → IsGraph g
    → schedule g ts (new_scheduler n receiving) ≡ (ok, s)
    → Reach (open_targets s.plan) s.plan rest p
    → (tally t p ≤ 1)
      × (s.planned t ≡ false → tally t p ≡ 0)
      × (s.planned t ≡ true
          → (def : StepDef) × IsDefOf g def
            × ((s.plan.steps t).outputs ≡ def.outputs)
            × (0 < tally t p → AreDone s.plan.targets rest (inputs_of def))
            × (p.closed ≡ false → (tally t p ≡ 1) ↔ AreDone s.plan.targets rest (inputs_of def)))
schedule-Reach g ts n receiving s rest p t d e r =
    let b = schedule-Adds g ts n receiving s d e in
    let acc = IsSound-IsAccounted s b.inv in
    let settled =
      schedule-IsSettled (new_scheduler n receiving) (ok, s) (unfold new_scheduler in refl) refl
        b in
    let k : Kept s.planned (open_targets s.plan) s.plan = record {
      account = acc;
      settled = settled;
    } in
    let q = (Reach-Kept s.planned k r).account.queued t in
    let (once, safe, live) =
      Reach-ready s.planned (open_targets s.plan) rest s.plan p t acc settled r in
    (
      once,
      (λ off. ground arith),
      (λ on.
          let (def, of_graph, w) = b.made t (unfold new_scheduler in omega arith) on in
          let (a, c) =
            waiting-AreDone t rest (inputs_of def) s.plan.targets p.targets
              (λ x l. Reach-waits s.planned t x k r l) (schedule-AreTidy g ts n receiving s e)
              w.most w.least in
          (
            def,
            of_graph,
            w.outputs,
            (λ pos. a (safe pos)),
            (λ is_open. let (x, y) = live is_open on in ((λ h. a (x h)), (λ h. y (c h)))),
          )),
    )
