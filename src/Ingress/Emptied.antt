-- ===== src/Ingress/Emptied.antt =====
-- The workers empty the ingress once admission has stopped, for src/internal/mqttingress/ingress.go.
use project1_iot_server.Clock.{Time}
use project1_iot_server.Telemetry.Errors.{Error}
use project1_iot_server.Store.{Db, Faults}
use project1_iot_server.Ingress.{
  Item, Work, received, taken, persisted, ending, Options, State, Services, new_ingress,
}
use project1_iot_server.Ingress.Steps.{
  Step, takes, begins, commits, acknowledges, ends, leaves, Steps, here, next,
}
use project1_iot_server.Ingress.Measure.{left_to_do, of_worker}
use project1_iot_server.Ingress.Drained.{Step-Stopping}
use project1_iot_server.Ingress.Counted.{outcomes, Counted}
use project1_iot_server.Ingress.Counted.Working.{
  Step-Counted, not_started, no_workers, ingress-Counted,
}
use project1_iot_server.Prelude.{
  ℕ, zero, suc, ◌≤◌, ◌<◌, ◌≡◌, refl, ap, ◌⊎◌, inl, inr, true, Option, some, List, [], ◌∷◌, arith,
  Bool-cases, length,
}

-- What the rest of the server does when a worker reaches it: the faults of the repository, the time, and
-- the answer of the publisher, which may differ from one state to the next.
pub record Surroundings : Type 0 where
  pub faults : State → Faults
  pub now : State → Time
  pub answer : State → Option Error

zero-cases : (n : ℕ) → (n ≡ 0) ⊎ (0 < n)
zero-cases zero = inl refl
zero-cases (suc n) = inr (omega arith)

module _ (v : Services) (w : Surroundings) where
  -- A step of a worker that meets these surroundings.
  abbrev pub Meets : {a b : State} → Step v a b → Type 0
  Meets (takes it q h l) = Unit {0}
  Meets (begins it xs ys h) = Unit {0}
  Meets {a} (commits f it xs ys h) = f ≡ w.faults a
  Meets {a} (acknowledges now answer m r xs ys h) = (now ≡ w.now a) × (answer ≡ w.answer a)
  Meets (ends xs ys h) = Unit {0}
  Meets (leaves h k l) = Unit {0}
  Meets _ = ⊥

  -- A run of workers alone.
  unfoldable pub AllMeet : {a b : State} → Steps v a b → Type 0
  AllMeet here = Unit {0}
  AllMeet (next run step) = AllMeet run × Meets step

  Meets-of_worker : {a b : State} (t : Step v a b) → Meets t → of_worker t ≡ 1
  Meets-of_worker (takes it q h l) m = refl
  Meets-of_worker (begins it xs ys h) m = refl
  Meets-of_worker (commits f it xs ys h) m = refl
  Meets-of_worker (acknowledges now answer n r xs ys h) m = refl
  Meets-of_worker (ends xs ys h) m = refl
  Meets-of_worker (leaves h k l) m = refl
  Meets-of_worker _ m = absurd m

  abbrev Progress : State → Type 0
  Progress a = (b : State) × (t : Step v a b) × Meets t

  -- The next step, by the work and the queue.
  next-Progress :
      (a : State) (ws : List Work) (q : List Item)
      → a.working ≡ ws
      → a.queue ≡ q
      → a.stopping ≡ true
      → 0 < a.running
      → Progress a
  next-Progress a (received it ∷ ys) q h e s k = (_, begins it [] ys h, tt)
  next-Progress a (taken it ∷ ys) q h e s k = (_, commits (w.faults a) it [] ys h, refl)
  next-Progress a (persisted m r ∷ ys) q h e s k =
      (_, acknowledges (w.now a) (w.answer a) m r [] ys h, (refl, refl))
  next-Progress a (ending ∷ ys) q h e s k = (_, ends [] ys h, tt)
  next-Progress a [] (it ∷ q) h e s k =
      let idle : length a.working ≡ 0 = ap length h in (_, takes it q e (omega arith), tt)
  next-Progress a [] [] h e s k =
      let idle : length a.working ≡ 0 = ap length h in (_, leaves s e (omega arith), tt)

  -- A run of workers from `a` to where no worker runs.
  abbrev pub Empties : State → Type 0
  Empties a =
      (b : State) × (run : Steps v a b) × AllMeet run
      × (b.running ≡ 0)
      × ((length b.queue ≡ 0)
          × (length b.working ≡ 0)
          × (b.counters.accepted ≡ outcomes b.counters))

  -- The run so far goes on while there is something left to do.
  empty-run :
      (n : ℕ) (a s : State) (run : Steps v a s)
      → AllMeet run
      → Counted s
      → s.started ≡ true
      → s.stopping ≡ true
      → left_to_do s ≤ n
      → Empties a
  unfolding AllMeet left_to_do
  empty-run zero a s run meets c on off left =
      (s, run, meets, omega arith, no_workers s c (omega arith))
  empty-run (suc n) a s run meets c on off left = elim (zero-cases s.running) [
    | inl none_left ↦ (s, run, meets, none_left, no_workers s c none_left)
    | inr some_left ↦
        let (b, t, m) = next-Progress s s.working s.queue refl refl off some_left in
        let (on', off', left') =
          Step-Stopping v n t (on, off, omega (arith, Meets-of_worker t m)) in
        empty-run n a b (next run t) (meets, m) (Step-Counted v s b t c) on' off' left'
  ]

  -- From every state that a new ingress reaches and in which admission has stopped, the workers alone can
  -- bring it to an end, whatever faults of the repository, times and answers of the publisher they meet
  -- at each of their steps: a run of steps of workers leads to a state where all of them have returned,
  -- the queue is empty, no item is in work, and as many items as were accepted have a final outcome.
  pub workers_empty :
      (o : Options) (db : Db) (a s : State)
      → new_ingress o db ≡ some a
      → Steps v a s
      → s.stopping ≡ true
      → Empties s
  unfolding AllMeet
  workers_empty o db a s h k off =
      let c = ingress-Counted v o db a s h k in
      elim (Bool-cases s.started) [
        | inl on ↦ empty-run (left_to_do s) s s here tt c on off (omega arith)
        | inr idle ↦ let gone = not_started s c idle in (s, here, tt, gone, no_workers s c gone)
      ]
