-- ===== src/Ingress/Measure.antt =====
-- What is left to the workers once admission has stopped, for src/internal/mqttingress/ingress.go.
use project1_iot_server.Telemetry.Errors.{Error, Result, ok, err}
use project1_iot_server.Telemetry.Message.{Message}
use project1_iot_server.Store.Persist.{PersistResult}
use project1_iot_server.Ingress.{Item, Work, received, taken, persisted, ending, State, Services}
use project1_iot_server.Ingress.Process.{after_persist, publish, publish_wire}
use project1_iot_server.Ingress.Steps.{
  take, Step, takes, begins, ends, commits, acknowledges, leaves, Steps, here, next,
}
use project1_iot_server.Ingress.Tally.{tally}
use project1_iot_server.Prelude.{
  ℕ, suc, ◌+◌, ◌*◌, ◌≤◌, ◌≡◌, ap, true, Option, none, some, List, ◌∷◌, arith, length, Bytes,
}

-- The steps that an item in work still makes: received, it is begun, committed, acknowledged and ended.
abbrev pub cost : Work → ℕ
cost (received it) = 4
cost (taken it) = 3
cost (persisted m r) = 2
cost ending = 1

-- What is left to do: five steps for an item in the queue, the cost of those in work, and the return of
-- each worker.
unfoldable pub left_to_do : State → ℕ
unfolding tally
left_to_do s = 5 * length s.queue + tally cost s.working + s.running

-- Whether a step is one of a worker, and how many of a run are.
abbrev pub of_worker : {v : Services} {a b : State} → Step v a b → ℕ
of_worker (takes it q h k) = 1
of_worker (begins it xs ys h) = 1
of_worker (commits f it xs ys h) = 1
of_worker (acknowledges now answer m r xs ys h) = 1
of_worker (ends xs ys h) = 1
of_worker (leaves h k l) = 1
of_worker _ = 0

unfoldable pub worker_steps : {v : Services} {a b : State} → Steps v a b → ℕ
worker_steps here = 0
worker_steps (next run step) = of_worker step + worker_steps run

-- A running ingress that admits nothing more, with at most `n` to do.
abbrev pub Stopping : ℕ → State → Type 0
Stopping n s = (s.started ≡ true) × (s.stopping ≡ true) × (left_to_do s ≤ n)

pub fewer : {m n : ℕ} (s : State) → m ≤ n → Stopping m s → Stopping n s
fewer s h (b, c, d) = (b, c, omega arith)

pub after_persist-Stopping :
    (m : Message) (r : Result PersistResult) (n : ℕ) (s : State)
    → Stopping n s
    → Stopping (2 + n) (after_persist m r s)
unfolding left_to_do tally after_persist
after_persist-Stopping m (err e) n s h = ground arith
after_persist-Stopping m (ok r) n s h = ground arith

pub publish_wire-Stopping :
    (topic : Bytes) (wire : Option Bytes) (answer : Option Error) (n : ℕ) (s : State)
    → Stopping n s
    → Stopping (1 + n) (publish_wire topic wire answer s)
unfolding left_to_do publish_wire publish tally
publish_wire-Stopping topic none answer n s h = ground arith
publish_wire-Stopping topic (some wire) answer n s h = ground arith

pub take-Stopping :
    (n : ℕ) (a : State) (it : Item) (q : List Item)
    → a.queue ≡ it ∷ q
    → Stopping (suc n) a
    → Stopping n (take it q a)
unfolding left_to_do tally
take-Stopping n a it q h (b, c, d) =
    (b, c, (let k : length a.queue ≡ suc (length q) = ap length h in ground arith))
