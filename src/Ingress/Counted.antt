-- ===== src/Ingress/Counted.antt =====
-- The counters, the queue and the workers of the ingress.
pub mod Working
use project1_iot_server.Clock.{Time}
use project1_iot_server.Telemetry.Errors.{Result, ok, err}
use project1_iot_server.Telemetry.Ack.{committed, duplicate_committed}
use project1_iot_server.Telemetry.Topic.{ParsedTopic, parse_topic}
use project1_iot_server.Store.{Db}
use project1_iot_server.Ingress.{
  received, ending, Admitting, item_sent, item_counted, depth_read, count_accepted, read_depth,
  raise_mark, AdmissionDecision, Options, Item, Work, persisted, Counters, State, new_ingress,
  start, admit, admit_topic, enqueue, record_high_water, stop_admission, begin_drain,
}
use project1_iot_server.Ingress.Tally.{tally, tally-remove, tally-removed}
use project1_iot_server.Prelude.{
  ℕ, ◌+◌, ◌-◌, ◌≤◌, ◌<◌, ◌≡◌, refl, ap, Bool, true, false, not, some, List, [], ◌∷◌, ◌++◌, arith,
  if◌then◌else◌, length, length-append, pos, ltb_ℤ, Bytes,
}

-- What an item in work counts for: not begun, waiting for its ACK, or not ended.
abbrev pub is_unbegun : Work → ℕ
is_unbegun (received it) = 1
is_unbegun _ = 0

abbrev pub is_waiting : Work → ℕ
is_waiting (persisted m r) = 1
is_waiting _ = 0

abbrev pub is_ending : Work → ℕ
is_ending ending = 1
is_ending _ = 0

-- A call of Admit that has not counted its item.
abbrev pub is_uncounted : Admitting → ℕ
is_uncounted item_sent = 1
is_uncounted _ = 0

-- The items that are done, by their last counter.
abbrev pub outcomes : Counters → ℕ
outcomes c =
    c.validation_rejected + c.persist_failures + c.commit_unconfirmed + c.identity_mismatch
    + c.ack_build_failures + c.ack_publish_failures + c.ack_published

-- The counters against `queued` items, `uncounted` of which are not counted yet, and `busy` items in
-- work: `unbegun` of them are not counted as begun, `acks` wait for an ACK, and `unended` have their
-- outcome and are not counted as ended.
pub record Balanced (c : Counters) (queued uncounted busy unbegun acks unended : ℕ) : Type 0 where
  pub admitted : c.accepted + uncounted ≡ queued + unbegun + c.processed
  pub begun : unbegun + c.processed ≡ busy + c.processing_count
  pub ended : outcomes c ≡ unended + c.processing_count
  pub confirmed :
      c.committed + c.duplicate_committed
      ≡ acks + (c.ack_build_failures + c.ack_publish_failures + c.ack_published)

pub record Bounded (s : State) : Type 0 where
  pub queue_le : length s.queue ≤ s.capacity
  pub high_water_le : s.counters.queue_high_water ≤ s.capacity
  pub busy_le : length s.working ≤ s.running
  pub running_le : s.running ≤ s.worker_count
  pub workers_pos : 0 < s.worker_count
  pub idle :
      s.started ≡ false
      → (s.running ≡ 0) × (length s.queue ≡ 0) × (tally is_uncounted s.admitting ≡ 0)
  pub barrier : s.stopping ≡ true → tally is_uncounted s.admitting ≡ 0
  pub left :
      s.started ≡ true → s.running < s.worker_count → (s.stopping ≡ true) × (length s.queue ≡ 0)

unfoldable pub Counted : State → Type 0
unfolding tally
Counted s =
    Bounded s
    × Balanced s.counters (length s.queue) (tally is_uncounted s.admitting) (length s.working)
        (tally is_unbegun s.working) (tally is_waiting s.working) (tally is_ending s.working)

enqueue-Counted :
    (it : Item) (s : State)
    → s.started ≡ true
    → s.stopping ≡ false
    → Counted s
    → Counted (enqueue it s).1
unfolding Counted enqueue tally
enqueue-Counted it s h h' (b, c) = ground (arith, length-append s.queue (it ∷ []))

if-Counted :
    (b : Bool) (x y : AdmissionDecision × State)
    → (b ≡ true → Counted x.1)
    → (b ≡ false → Counted y.1)
    → Counted (if b then x else y).1
if-Counted true x y h k = h refl
if-Counted false x y h k = k refl

admit_topic-Counted :
    (t : Result ParsedTopic) (it : Item) (s : State)
    → s.started ≡ true
    → s.stopping ≡ false
    → Counted s
    → Counted (admit_topic t it s).1
unfolding admit_topic Counted
admit_topic-Counted (err e) it s h h' (b, k) = ground arith
admit_topic-Counted (ok t) it s h h' c = enqueue-Counted it s h h' c

pub admit-Counted :
    (topic payload : Bytes) (at : Time) (retained : Bool) (s : State)
    → Counted s
    → Counted (admit topic payload at retained s).1
unfolding Counted admit
admit-Counted topic payload at retained s (b, k) =
    if-Counted (not s.started) _ _ (λ h. ground arith)
      λ on.
        if-Counted s.stopping _ _ (λ h. ground arith)
          λ going.
            if-Counted retained _ _ (λ h. ground arith)
              λ h.
                if-Counted (ltb_ℤ s.max_payload_bytes (pos (length payload))) _ _
                  (λ h. ground arith)
                  λ h. admit_topic-Counted (parse_topic topic) _ s (ground arith) going (b, k)

pub start-Counted : (s t : State) → Counted s → start s ≡ some t → Counted t
unfolding Counted start
start-Counted s t (b, k) h = ground arith

module _ (s : State) (xs ys : List Admitting) where
  pub counts-Counted :
      s.admitting ≡ xs ++ (item_sent ∷ ys)
      → Counted s
      → Counted (count_accepted (xs ++ (item_counted ∷ ys)) s)
  unfolding Counted count_accepted
  counts-Counted h (b, k) = ground (
    arith,
    tally-removed is_uncounted item_sent xs ys h,
    tally-remove is_uncounted item_counted xs ys,
  )

  pub observes-Counted :
      s.admitting ≡ xs ++ (item_counted ∷ ys) → Counted s → Counted (read_depth xs ys s)
  unfolding Counted read_depth
  observes-Counted h (b, k) = ground (
    arith,
    tally-removed is_uncounted item_counted xs ys h,
    tally-remove is_uncounted (depth_read (length s.queue)) xs ys,
  )

  pub raises-Counted :
      (depth : ℕ)
      → s.admitting ≡ xs ++ (depth_read depth ∷ ys)
      → Counted s
      → Counted (raise_mark depth (xs ++ ys) s)
  unfolding Counted raise_mark record_high_water
  raises-Counted depth h (b, k) =
      ground (arith, tally-removed is_uncounted (depth_read depth) xs ys h)

pub stop-Counted : (s : State) → s.admitting ≡ [] → Counted s → Counted (stop_admission s)
unfolding Counted stop_admission tally
stop-Counted s h (b, k) =
    let none_left : tally is_uncounted s.admitting ≡ 0 = ap (tally is_uncounted) h in ground arith

pub drain-Counted : (s : State) → s.admitting ≡ [] → Counted s → Counted (begin_drain s)
unfolding Counted begin_drain stop_admission tally
drain-Counted s h (b, k) =
    let none_left : tally is_uncounted s.admitting ≡ 0 = ap (tally is_uncounted) h in ground arith

pub new-Counted : (o : Options) (db : Db) (s : State) → new_ingress o db ≡ some s → Counted s
unfolding Counted new_ingress tally
new-Counted o db s h = ground arith
