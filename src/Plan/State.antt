-- ===== src/Plan/State.antt =====
-- The plan of build/plan.go and the step counters of build/step.go. Targets and steps are numbers, a
-- `*Step` is an index into `steps`, and target 0 is no target. Times and log output are left out.
-- An `int` is its 64-bit pattern, so that going below 0 wraps around as in Go.
use siso.Common.{
  ℕ, zero, suc, ◌+◌, ◌-◌, ◌%◌, ◌^◌, Bool, true, false, not, ◌&&◌, List, [], ◌∷◌, ◌++◌, Option,
  Bytes, ltb, ◌==◌, if◌then◌else◌, length, take, drop, get_elem?,
}

pub data ScanState : Type 0 where
  not_visited visiting ignored scanned : ScanState

pub record TargetInfo : Type 0 where
  pub scan : ScanState
  pub waits : List ℕ
  pub source : Bool
  pub output : Bool
  pub phony_output : Bool

pub record Step : Type 0 where
  pub name : Bytes
  pub is_phony : Bool
  pub nwaits : ℕ
  pub outputs : List ℕ
  pub prev_step_id : Bytes
  pub prev_step_out : ℕ

-- `q` is the channel's buffer and `taken` what the builder has received from it. The builder receives
-- while the plan's lock is held elsewhere: `receives n` is how many steps it takes before the n-th
-- attempt to send, and `clock` counts the attempts.
pub record Plan : Type 0 where
  pub closed : Bool
  pub taken : List ℕ
  pub q : List ℕ
  pub q_cap : ℕ
  pub ready : List ℕ
  pub targets : List TargetInfo
  pub npendings : ℕ
  pub steps : ℕ → Step
  pub receives : ℕ → ℕ
  pub clock : ℕ

abbrev pub int_mod : ℕ
int_mod = 2 ^ 64

abbrev pub decrement : ℕ → ℕ
decrement n = (n + (int_mod - 1)) % int_mod

abbrev pub increment : ℕ → ℕ
increment n = (n + 1) % int_mod

abbrev pub set_step : ℕ → Step → (ℕ → Step) → ℕ → Step
set_step s info steps t = if t == s then info else steps t

-- `ReadyToRun`
unfoldable pub ready_to_run : Bytes → ℕ → Step → Step × Bool
ready_to_run prev out s =
    let n = if out == 0 then s.nwaits else decrement s.nwaits in
    if n == 0
    then (record s { nwaits = n; prev_step_id = prev; prev_step_out = out }, true)
    else (record s { nwaits = n }, false)

unfoldable pub receive : Plan → Plan
receive p =
    let k = p.receives p.clock in
    record p { taken = p.taken ++ take k p.q; q = drop k p.q; clock = p.clock + 1 }

-- `select { case p.q <- s: … default: … }`
unfoldable pub send : ℕ → Plan → Bool × Plan
send s p =
    let p' = receive p in
    if ltb (length p'.q) p'.q_cap then (true, record p' { q = p'.q ++ s ∷ [] }) else (false, p')

unfoldable pub get_target : ℕ → Plan → Option TargetInfo
get_target t p = get_elem? p.targets t

-- `waits` of a target; an index out of range panics in Go, and callers stay in range.
unfoldable pub waits_of : ℕ → List TargetInfo → List ℕ
waits_of t [] = []
waits_of zero (i ∷ is) = i.waits
waits_of (suc t) (i ∷ is) = waits_of t is

unfoldable pub set_waits : ℕ → List ℕ → List TargetInfo → List TargetInfo
set_waits t ws [] = []
set_waits zero ws (i ∷ is) = record i { waits = ws } ∷ is
set_waits (suc t) ws (i ∷ is) = i ∷ set_waits t ws is

-- `pushReady`: the first spilled step goes to the queue if there is room.
unfoldable pub push_first : List ℕ → Plan → Plan
push_first [] p = p
push_first (s ∷ rest) p =
    let (sent, p') = send s p in if sent then record p' { ready = rest } else p'

unfoldable pub push_ready : Plan → Plan
push_ready p = push_first p.ready p

-- The first loop of `done`: the spilled steps that the queue does not take stay.
unfoldable pub flush : List ℕ → List ℕ → Plan → Plan
flush [] kept p = record p { ready = kept }
flush (s ∷ ss) kept p =
    let (sent, p') = send s p in flush ss (if sent then kept else kept ++ s ∷ []) p'

-- The state of the loops over outputs and waiting steps: the plan, the steps that became ready and
-- found no room, and the steps that go on waiting.
pub record Wake : Type 0 where
  pub plan : Plan
  pub spilled : List ℕ
  pub kept : List ℕ

-- A waiting step that became ready is queued, or spilled.
unfoldable pub enqueue : ℕ → Wake → Wake
enqueue s w =
    let (sent, p') = send s (record w.plan { npendings = decrement w.plan.npendings }) in
    if sent then record w { plan = p' } else record w { plan = p'; spilled = w.spilled ++ s ∷ [] }

unfoldable pub wake_step : Bytes → ℕ → ℕ → Wake → Wake
wake_step prev out s w =
    let (info, ready) = ready_to_run prev out (w.plan.steps s) in
    let w' = record w { plan = record w.plan { steps = set_step s info w.plan.steps } } in
    if ready then enqueue s w' else record w' { kept = w'.kept ++ s ∷ [] }

unfoldable pub wake_all : Bytes → ℕ → List ℕ → Wake → Wake
wake_all prev out [] w = w
wake_all prev out (s ∷ ss) w = wake_all prev out ss (wake_step prev out s w)

-- One output: its waiting steps are woken, and those that are not ready stay in its list.
unfoldable pub wake_output : Bytes → ℕ → Wake → Wake
wake_output prev out w =
    let w' = wake_all prev out (waits_of out w.plan.targets) (record w { kept = [] }) in
    record w' { plan = record w'.plan { targets = set_waits out w'.kept w'.plan.targets } }

unfoldable pub wake_outputs : Bytes → List ℕ → Wake → Wake
wake_outputs prev [] w = w
wake_outputs prev (out ∷ outs) w = wake_outputs prev outs (wake_output prev out w)

unfoldable pub close_if_idle : Plan → Plan
close_if_idle p =
    if (length p.ready == 0) && (p.npendings == 0) && not p.closed
    then record p { closed = true }
    else p

-- `done` of the step `s`
unfoldable pub done : ℕ → Plan → Plan
done s p =
    if p.closed
    then p
    else let step = p.steps s in
      let prev = if step.is_phony then step.prev_step_id else step.name in
      let w =
        wake_outputs prev step.outputs
          (record { plan = flush p.ready [] p; spilled = []; kept = [] }) in
      close_if_idle (record w.plan { ready = w.plan.ready ++ w.spilled })
