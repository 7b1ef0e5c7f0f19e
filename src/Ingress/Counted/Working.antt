-- ===== src/Ingress/Counted/Working.antt =====
-- The counters over the work of one item.
use project1_iot_server.Telemetry.Errors.{Error, Result, ok, err}
use project1_iot_server.Telemetry.Ack.{CommitAck}
use project1_iot_server.Telemetry.Message.{Message}
use project1_iot_server.Store.{Db, Faults}
use project1_iot_server.Store.Persist.{PersistResult, persist}
use project1_iot_server.Ingress.{
  received, ending, Options, Item, Work, taken, persisted, State, Services, new_ingress, drained,
}
use project1_iot_server.Ingress.Process.{
  begin_item, end_item, count_commit, after_persist, publish, publish_wire, send_ack, commit_valid,
  commit_item, acknowledge,
}
use project1_iot_server.Ingress.Steps.{
  take, leave, Step, starts, admits, counts, observes, raises, stops, drains, takes, begins, ends,
  commits, acknowledges, leaves, Steps, here, next,
}
use project1_iot_server.Ingress.Counted.{
  is_uncounted, is_unbegun, is_waiting, is_ending, counts-Counted, observes-Counted, raises-Counted,
  outcomes, Counted, Bounded, Balanced, admit-Counted, start-Counted, stop-Counted, drain-Counted,
  new-Counted,
}
use project1_iot_server.Ingress.Tally.{
  tally-none, tally, tally-remove, tally-removed, length-remove, length-removed,
}
use project1_iot_server.Prelude.{
  ℕ, suc, ◌+◌, ◌≤◌, ◌<◌, ◌≡◌, refl, ap, inl, inr, true, false, Option, none, some, List, [], ◌∷◌,
  ◌++◌, arith, Bool-cases, length, Bytes,
}

-- The state while a worker holds one more item, which waits for `held` ACKs.
record Holding (s : State) (held : ℕ) : Type 0 where
  bounded : Bounded s
  busy : suc (length s.working) ≤ s.running
  balanced :
      Balanced s.counters
        (length s.queue)
        (tally is_uncounted s.admitting)
        (suc (length s.working))
        (tally is_unbegun s.working)
        (held + tally is_waiting s.working)
        (tally is_ending s.working)

after_persist-Counted :
    (m : Message) (r : Result PersistResult) (s : State)
    → Holding s 0
    → Counted (after_persist m r s)
unfolding Counted after_persist count_commit tally
after_persist-Counted m (err e) s h = ground arith
after_persist-Counted m (ok r) s h = ground arith

publish-Counted :
    (topic wire : Bytes) (answer : Option Error) (s : State)
    → Holding s 1
    → Counted (publish topic wire answer s)
unfolding Counted publish tally
publish-Counted topic wire none s h = ground arith
publish-Counted topic wire (some e) s h = ground arith

publish_wire-Counted :
    (topic : Bytes) (wire : Option Bytes) (answer : Option Error) (s : State)
    → Holding s 1
    → Counted (publish_wire topic wire answer s)
unfolding Counted publish_wire tally
publish_wire-Counted topic none answer s h = ground arith
publish_wire-Counted topic (some wire) answer s h = publish-Counted topic wire answer s h

take-Counted :
    (a : State) (it : Item) (q : List Item)
    → a.queue ≡ it ∷ q
    → length a.working < a.running
    → Counted a
    → Counted (take it q a)
unfolding Counted tally
take-Counted a it q h k (b, c) =
    let n : length a.queue ≡ suc (length q) = ap length h in ground arith

leave-Counted :
    (a : State)
    → a.stopping ≡ true
    → a.queue ≡ []
    → length a.working < a.running
    → Counted a
    → Counted (leave a)
unfolding Counted
leave-Counted a h k l (b, c) = let n : length a.queue ≡ 0 = ap length k in ground arith

pub not_started : (s : State) → Counted s → s.started ≡ false → s.running ≡ 0
unfolding Counted
not_started s (b, c) off = (b.idle off).0

pub no_workers :
    (s : State)
    → Counted s
    → s.running ≡ 0
    → (length s.queue ≡ 0) × (length s.working ≡ 0) × (s.counters.accepted ≡ outcomes s.counters)
unfolding Counted
no_workers s (b, c) d =
    let empty : length s.working ≡ 0 = ground arith in
    let begun_all = tally-none is_unbegun s.working empty in
    let ended_all = tally-none is_ending s.working empty in
    elim (Bool-cases s.started) [ inl on ↦ ground arith | inr off ↦ ground arith ]

module _ (v : Services) where
  commit_valid-Counted :
      (f : Faults) (t : Result Message) (s : State) → Holding s 0 → Counted (commit_valid v f t s)
  unfolding Counted commit_valid tally
  commit_valid-Counted f (err e) s h = ground arith
  commit_valid-Counted f (ok m) s h =
      after_persist-Counted m (persist v.format_time v.platform.uuid f s.db m).0
        (record s { db = (persist v.format_time v.platform.uuid f s.db m).1 }) (ground arith)

  send_ack-Counted :
      (t : Result (Bytes × CommitAck)) (answer : Option Error) (s : State)
      → Holding s 1
      → Counted (send_ack v t answer s)
  unfolding Counted send_ack tally
  send_ack-Counted (err e) answer s h = ground arith
  send_ack-Counted (ok (topic, ack)) answer s h =
      publish_wire-Counted topic (v.marshal ack) answer s h

  removed-Holding :
      (a : State) (w : Work) (xs ys : List Work)
      → is_unbegun w ≡ 0
      → is_ending w ≡ 0
      → a.working ≡ xs ++ (w ∷ ys)
      → Counted a
      → Holding (record a { working = xs ++ ys }) (is_waiting w)
  unfolding Counted
  removed-Holding a w xs ys begun going h (b, c) = ground (
    arith,
    length-removed w xs ys h,
    tally-removed is_waiting w xs ys h,
    tally-removed is_unbegun w xs ys h,
    tally-removed is_ending w xs ys h,
    begun,
    going,
  )

  begin-Counted :
      (a : State) (it : Item) (xs ys : List Work)
      → a.working ≡ xs ++ (received it ∷ ys)
      → Counted a
      → Counted (begin_item (xs ++ (taken it ∷ ys)) a)
  unfolding Counted begin_item
  begin-Counted a it xs ys h (b, c) = ground (
    arith,
    length-removed (received it) xs ys h,
    tally-removed is_waiting (received it) xs ys h,
    tally-removed is_unbegun (received it) xs ys h,
    tally-removed is_ending (received it) xs ys h,
    length-remove (taken it) xs ys,
    tally-remove is_waiting (taken it) xs ys,
    tally-remove is_unbegun (taken it) xs ys,
    tally-remove is_ending (taken it) xs ys,
  )

  end-Counted :
      (a : State) (xs ys : List Work)
      → a.working ≡ xs ++ (ending ∷ ys)
      → Counted a
      → Counted (end_item (xs ++ ys) a)
  unfolding Counted end_item
  end-Counted a xs ys h (b, c) = ground (
    arith,
    length-removed ending xs ys h,
    tally-removed is_waiting ending xs ys h,
    tally-removed is_unbegun ending xs ys h,
    tally-removed is_ending ending xs ys h,
  )

  pub Step-Counted : (a b : State) → Step v a b → Counted a → Counted b
  unfolding commit_item acknowledge
  Step-Counted a b (starts t h) c = start-Counted a t c h
  Step-Counted a b (admits topic payload at retained) c =
      admit-Counted topic payload at retained a c
  Step-Counted a b (counts xs ys h) c = counts-Counted a xs ys h c
  Step-Counted a b (observes xs ys h) c = observes-Counted a xs ys h c
  Step-Counted a b (raises depth xs ys h) c = raises-Counted a xs ys depth h c
  Step-Counted a b (stops h) c = stop-Counted a h c
  Step-Counted a b (drains h) c = drain-Counted a h c
  Step-Counted a b (begins it xs ys h) c = begin-Counted a it xs ys h c
  Step-Counted a b (ends xs ys h) c = end-Counted a xs ys h c
  Step-Counted a b (takes it q h k) c = take-Counted a it q h k c
  Step-Counted a b (commits f it xs ys h) c =
      commit_valid-Counted f _ _ (removed-Holding a (taken it) xs ys refl refl h c)
  Step-Counted a b (acknowledges now answer m r xs ys h) c =
      send_ack-Counted _ answer _ (removed-Holding a (persisted m r) xs ys refl refl h c)
  Step-Counted a b (leaves h k l) c = leave-Counted a h k l c

  pub Steps-Counted : (a b : State) → Steps v a b → Counted a → Counted b
  Steps-Counted a b here c = c
  Steps-Counted a b (next s t) c = Step-Counted _ _ t (Steps-Counted a _ s c)

  -- In every state that a new ingress reaches, by its methods and its workers in any order and with any
  -- faults: the queue and its high-water mark stay within the capacity, at most as many items are in
  -- work as workers run, and the counters add up. What was accepted, with what a call of Admit has sent
  -- and not counted yet, is in the queue, was received or was begun; what was received or begun is in
  -- work or was ended; what has one of the outcomes was ended or is about to be; and every confirmed
  -- commit waits for its ACK, was published, or was counted as a failure of the ACK.
  pub ingress-Counted :
      (o : Options) (db : Db) (a s : State) → new_ingress o db ≡ some a → Steps v a s → Counted s
  ingress-Counted o db a s h k = Steps-Counted a s k (new-Counted o db a h)

  -- When Drain has waited for the workers, no accepted item is lost: the queue is empty, no item is in
  -- work, and as many items as were accepted have one of the final outcomes.
  pub drained_complete :
      (o : Options) (db : Db) (a s : State)
      → new_ingress o db ≡ some a
      → Steps v a s
      → drained s ≡ true
      → (length s.queue ≡ 0) × (length s.working ≡ 0) × (s.counters.accepted ≡ outcomes s.counters)
  unfolding drained
  drained_complete o db a s h k d =
      no_workers s (Steps-Counted a s k (new-Counted o db a h)) (ground arith)
