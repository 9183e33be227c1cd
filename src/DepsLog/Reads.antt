-- ===== src/DepsLog/Reads.antt =====
-- A stretch of the file that takes the reader from one state to another, whatever follows it.
use siso.Common.{
  ℕ, suc, ◌+◌, ◌-◌, ◌≤◌, ◌<◌, ◌≡◌, refl, ◌∙◌, Bool, false, [], ◌++◌, append_assoc, append-nil,
  Bytes, length, length-append, arith,
}
use siso.DepsLog.Reader.{
  ReadState, next, stop, read_step, finished, read_loop, start, finish_load, load_records, loaded,
}

pub record Reads (body : Bytes) (st st' : ReadState) : Type 0 where
  pub rounds : ℕ
  pub few : rounds ≤ length body
  pub runs :
      (fuel : ℕ) (rest : Bytes)
      → read_loop (rounds + fuel) (body ++ rest) st ≡ read_loop fuel rest st'

pub Reads-nil : (st : ReadState) → Reads [] st st
Reads-nil st = record {
  rounds = 0;
  few = omega arith;
  runs = λ fuel rest. let e : 0 + fuel ≡ fuel = omega arith in rw e refl;
}

pub Reads-step :
    (body : Bytes) (st st' : ReadState)
    → 0 < length body
    → ((rest : Bytes) → read_step (body ++ rest) st ≡ next rest st')
    → Reads body st st'
unfolding read_loop
Reads-step body st st' pos h = record {
  rounds = 1;
  few = omega arith;
  runs = λ fuel rest. let e : 1 + fuel ≡ suc fuel = omega arith in rw (e, read_loop, h rest) refl;
}

pub Reads-append :
    (a b : Bytes) (s t u : ReadState) → Reads a s t → Reads b t u → Reads (a ++ b) s u
Reads-append a b s t u p q = record {
  rounds = p.rounds + q.rounds;
  few = omega (arith, p.few, q.few, length-append a b);
  runs = λ fuel rest.
      let e : p.rounds + q.rounds + fuel ≡ p.rounds + (q.rounds + fuel) = omega arith in
      rw (e, append_assoc a b rest) (p.runs (q.rounds + fuel) (b ++ rest) ∙ q.runs fuel rest);
}

read_loop-stop :
    (fuel : ℕ) (tail : Bytes) (st : ReadState) (broken : Bool)
    → read_step tail st ≡ stop broken st
    → read_loop (suc fuel) tail st ≡ finished broken st
unfolding read_loop
read_loop-stop fuel tail st broken h = rw (read_loop, h) refl

-- The fuel that `load_records` gives is enough.
read_loop-Reads :
    (body tail : Bytes) (st : ReadState) (broken : Bool)
    → Reads body start st
    → read_step tail st ≡ stop broken st
    → read_loop (suc (length (body ++ tail))) (body ++ tail) start ≡ finished broken st
read_loop-Reads body tail st broken r h =
    let left = length (body ++ tail) - r.rounds in
    let e : suc (length (body ++ tail)) ≡ r.rounds + suc left =
      omega (arith, r.few, length-append body tail) in
    rw e (r.runs (suc left) tail ∙ read_loop-stop left tail st broken h)

-- The result where the reader gets through `body` and stops at `tail`.
pub load_records-stop :
    (file body tail : Bytes) (st : ReadState) (broken : Bool)
    → Reads body start st
    → read_step tail st ≡ stop broken st
    → load_records file (body ++ tail) ≡ loaded (finish_load file broken st)
unfolding load_records
load_records-stop file body tail st broken r h =
    rw (load_records, read_loop-Reads body tail st broken r h) refl

-- A body that the reader gets through is read to its end.
pub load_records-Reads :
    (file body : Bytes) (st : ReadState)
    → Reads body start st
    → load_records file body ≡ loaded (finish_load file false st)
load_records-Reads file body st r =
    rw append-nil at (load_records-stop file body [] st false r (unfold read_step in refl))
