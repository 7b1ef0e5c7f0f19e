-- ===== src/Ingress/Drained.antt =====
-- The end of the workers once admission has stopped, for src/internal/mqttingress/ingress.go.
use project1_iot_server.Clock.{Time}
use project1_iot_server.Telemetry.Errors.{Error, Result, ok, err}
use project1_iot_server.Telemetry.Ack.{CommitAck}
use project1_iot_server.Telemetry.Message.{Message}
use project1_iot_server.Store.{Faults}
use project1_iot_server.Store.Persist.{persist}
use project1_iot_server.Ingress.{
  received, ending, Admitting, count_accepted, read_depth, raise_mark, Item, Work, taken, persisted,
  State, Services, start, admit, stop_admission, begin_drain,
}
use project1_iot_server.Ingress.Process.{
  begin_item, end_item, send_ack, commit_valid, commit_item, acknowledge,
}
use project1_iot_server.Ingress.Steps.{
  leave, Step, starts, admits, counts, observes, raises, stops, drains, takes, begins, ends,
  commits, acknowledges, leaves, Steps, here, next,
}
use project1_iot_server.Prelude.{
  ℕ, suc, ◌+◌, ◌-◌, ◌≤◌, ◌<◌, ◌≡◌, ap, Bool, true, false, Option, some, List, ◌∷◌, ◌++◌, arith,
  length, Bytes,
}
use project1_iot_server.Ingress.Tally.{tally, tally-remove, tally-removed}
use project1_iot_server.Ingress.Measure.{
  cost, left_to_do, of_worker, worker_steps, Stopping, fewer, after_persist-Stopping,
  publish_wire-Stopping, take-Stopping,
}

module _ (v : Services) where
  commit_valid-Stopping :
      (f : Faults) (t : Result Message) (n : ℕ) (s : State)
      → Stopping n s
      → Stopping (2 + n) (commit_valid v f t s)
  unfolding left_to_do commit_valid tally
  commit_valid-Stopping f (err e) n s h = ground arith
  commit_valid-Stopping f (ok m) n s h =
      after_persist-Stopping m (persist v.format_time v.platform.uuid f s.db m).0 n
        (record s { db = (persist v.format_time v.platform.uuid f s.db m).1 }) h

  send_ack-Stopping :
      (t : Result (Bytes × CommitAck)) (answer : Option Error) (n : ℕ) (s : State)
      → Stopping n s
      → Stopping (1 + n) (send_ack v t answer s)
  unfolding left_to_do send_ack tally
  send_ack-Stopping (err e) answer n s h = ground arith
  send_ack-Stopping (ok (topic, ack)) answer n s h =
      publish_wire-Stopping topic (v.marshal ack) answer n s h

  admit-Stopping :
      (topic payload : Bytes) (at : Time) (retained : Bool) (n : ℕ) (a : State)
      → Stopping n a
      → Stopping n (admit topic payload at retained a).1
  unfolding left_to_do admit
  admit-Stopping topic payload at retained n a h = ground arith

  counts-Stopping :
      (n : ℕ) (a : State) (xs : List Admitting) → Stopping n a → Stopping n (count_accepted xs a)
  unfolding left_to_do count_accepted
  counts-Stopping n a xs h = h

  observes-Stopping :
      (n : ℕ) (a : State) (xs ys : List Admitting) → Stopping n a → Stopping n (read_depth xs ys a)
  unfolding left_to_do read_depth
  observes-Stopping n a xs ys h = h

  raises-Stopping :
      (n depth : ℕ) (a : State) (xs : List Admitting)
      → Stopping n a
      → Stopping n (raise_mark depth xs a)
  unfolding left_to_do raise_mark
  raises-Stopping n depth a xs h = h

  stop-Stopping : (n : ℕ) (a : State) → Stopping n a → Stopping n (stop_admission a)
  unfolding left_to_do stop_admission
  stop-Stopping n a h = ground arith

  drain-Stopping : (n : ℕ) (a : State) → Stopping n a → Stopping n (begin_drain a)
  unfolding left_to_do begin_drain stop_admission
  drain-Stopping n a h = ground arith

  start-Stopping : (a b : State) → start a ≡ some b → a.started ≡ false
  unfolding start
  start-Stopping a b h = ground arith

  leave-Stopping :
      (n : ℕ) (a : State) → length a.working < a.running → Stopping (suc n) a → Stopping n (leave a)
  unfolding left_to_do
  leave-Stopping n a h k = ground arith

  removed-Stopping :
      (n : ℕ) (a : State) (w : Work) (xs ys : List Work)
      → a.working ≡ xs ++ (w ∷ ys)
      → Stopping (1 + n) a
      → (k : ℕ) × (n + 1 ≡ cost w + k) × Stopping k (record a { working = xs ++ ys })
  unfolding left_to_do
  removed-Stopping n a w xs ys h (b, c, d) =
      let e = tally-removed cost w xs ys h in (1 + n - cost w, omega arith, (b, c, omega arith))

  begin-Stopping :
      (it : Item) (n : ℕ) (a : State) (xs ys : List Work)
      → a.working ≡ xs ++ (received it ∷ ys)
      → Stopping (1 + n) a
      → Stopping n (begin_item (xs ++ (taken it ∷ ys)) a)
  unfolding left_to_do begin_item
  begin-Stopping it n a xs ys h (b, c, d) = (
    b,
    c,
    omega (arith, tally-removed cost (received it) xs ys h, tally-remove cost (taken it) xs ys),
  )

  end-Stopping :
      (n : ℕ) (a : State) (xs ys : List Work)
      → a.working ≡ xs ++ (ending ∷ ys)
      → Stopping (1 + n) a
      → Stopping n (end_item (xs ++ ys) a)
  unfolding left_to_do end_item
  end-Stopping n a xs ys h (b, c, d) = (b, c, omega (arith, tally-removed cost ending xs ys h))

  pub Step-Stopping :
      (n : ℕ) {a b : State} (t : Step v a b) → Stopping (of_worker t + n) a → Stopping n b
  unfolding acknowledge commit_item
  Step-Stopping n {a} (starts b h) k = ground (arith, start-Stopping a b h)
  Step-Stopping n {a} (admits topic payload at retained) k =
      admit-Stopping topic payload at retained n a (fewer a (omega arith) k)
  Step-Stopping n {a} (counts xs ys h) k = counts-Stopping n a _ (fewer a (omega arith) k)
  Step-Stopping n {a} (observes xs ys h) k = observes-Stopping n a xs ys (fewer a (omega arith) k)
  Step-Stopping n {a} (raises depth xs ys h) k =
      raises-Stopping n depth a _ (fewer a (omega arith) k)
  Step-Stopping n {a} (stops h) k = stop-Stopping n a (fewer a (omega arith) k)
  Step-Stopping n {a} (drains h) k = drain-Stopping n a (fewer a (omega arith) k)
  Step-Stopping n {a} (begins it xs ys h) k = begin-Stopping it n a xs ys h k
  Step-Stopping n {a} (ends xs ys h) k = end-Stopping n a xs ys h k
  Step-Stopping n {a} (takes it q h l) k = take-Stopping n a it q h (fewer a (omega arith) k)
  Step-Stopping n {a} (commits f it xs ys h) k =
      let (j, e, left) = removed-Stopping n a (taken it) xs ys h k in
      fewer _ (omega arith) (commit_valid-Stopping f _ j _ left)
  Step-Stopping n {a} (acknowledges now answer m r xs ys h) k =
      let (j, e, left) = removed-Stopping n a (persisted m r) xs ys h k in
      fewer _ (omega arith) (send_ack-Stopping _ answer j _ left)
  Step-Stopping n {a} (leaves h q l) k = leave-Stopping n a l (fewer a (omega arith) k)

  worker-left : {a b : State} (t : Step v a b) → of_worker t ≤ left_to_do a
  unfolding left_to_do
  worker-left (starts b h) = omega arith
  worker-left (admits topic payload at retained) = omega arith
  worker-left (counts xs ys h) = omega arith
  worker-left (observes xs ys h) = omega arith
  worker-left (raises depth xs ys h) = omega arith
  worker-left (stops h) = omega arith
  worker-left (drains h) = omega arith
  worker-left {a} (takes it q h l) =
      let k : length a.queue ≡ suc (length q) = ap length h in omega arith
  worker-left (begins it xs ys h) = omega (arith, tally-removed cost (received it) xs ys h)
  worker-left (commits f it xs ys h) = omega (arith, tally-removed cost (taken it) xs ys h)
  worker-left (acknowledges now answer m r xs ys h) =
      omega (arith, tally-removed cost (persisted m r) xs ys h)
  worker-left (ends xs ys h) = omega (arith, tally-removed cost ending xs ys h)
  worker-left (leaves h q l) = omega arith

  run-Stopping :
      {a b : State} (run : Steps v a b)
      → Stopping (left_to_do a) a
      → (b.started ≡ true) × (b.stopping ≡ true) × (worker_steps run + left_to_do b ≤ left_to_do a)
  unfolding worker_steps
  run-Stopping here (b, c, d) = (b, c, omega arith)
  run-Stopping (next {b} run step) k =
      let (on, off, left) = run-Stopping run k in
      let (on', off', left') =
        Step-Stopping (left_to_do b - of_worker step) step
          (on, off, omega (arith, worker-left step)) in
      (on', off', omega (arith, worker-left step))

  -- A running ingress whose admission has stopped makes no more steps of workers than it has left to do,
  -- whatever is called in between: five for an item in the queue, four for one received, three for one
  -- begun, two for one that waits for its ACK, one for one with its outcome, and one for each worker.
  pub worker_steps_bounded :
      (a b : State) (run : Steps v a b)
      → a.started ≡ true
      → a.stopping ≡ true
      → worker_steps run + left_to_do b ≤ left_to_do a
  worker_steps_bounded a b run h k =
      let (on, off, left) = run-Stopping run (h, k, omega arith) in left
