-- ===== src/Ingress/Acks/Published.antt =====
-- The deliveries of the ingress.
use project1_iot_server.Clock.{Time}
use project1_iot_server.Uuid.{Uuid}
use project1_iot_server.Telemetry.Errors.{Error, Result, ok, err}
use project1_iot_server.Telemetry.Ack.{
  CommitOutcome, CommitAck, is_confirmed, ack_topic, new_commit_ack,
}
use project1_iot_server.Telemetry.Topic.{ParsedTopic, parse_topic}
use project1_iot_server.Telemetry.Message.{Message}
use project1_iot_server.Store.{Db, Faults}
use project1_iot_server.Store.Persist.{PersistResult, persist}
use project1_iot_server.Ingress.{
  AdmissionDecision, Item, Work, received, ending, taken, persisted, State, Delivery, Services,
  start, admit, admit_topic, enqueue, stop_admission, begin_drain,
}
use project1_iot_server.Ingress.Process.{
  count_commit, identity_matches, after_persist, publish, publish_wire, send_ack, commit_valid,
}
use project1_iot_server.Ingress.Acks.{Stored, persist-keeps, persist-Stored}
use project1_iot_server.Prelude.{
  ◌≡◌, refl, sym, ap, inl, inr, Bool, true, false, not, Option, none, some, List, [], ◌∷◌, ◌++◌,
  arith, if◌then◌else◌, Bool-cases, length, All, pos, ltb_ℤ, Bytes,
}

-- A delivery is the ACK of a message that the ledger has, on the topic of its Gateway, with QoS 1 and
-- not retained.
pub record Backed (v : Services) (db : Db) (d : Delivery) : Type 0 where
  pub gateway_id : Bytes
  pub message_id : Uuid
  pub committed_at : Time
  pub topic_eq : d.topic ≡ ack_topic v.platform.uuid gateway_id message_id
  pub payload_eq :
      v.marshal (record { message_id = message_id; committed_at = committed_at }) ≡ some d.payload
  pub qos_eq : d.qos ≡ 1
  pub retained_eq : d.retained ≡ false
  pub stored : Stored db gateway_id message_id

unfoldable pub Waiting : Db → Work → Type 0
Waiting db (persisted m r) = Stored db m.topic.gateway_id m.batch.message_id
Waiting db _ = Unit

pub record Safe (v : Services) (s : State) : Type 0 where
  pub sent : All (Backed v s.db) s.deliveries
  pub held : All (Waiting s.db) s.working

-- What no step but those of process changes.
pub record Unchanged (a b : State) : Type 0 where
  pub db : b.db ≡ a.db
  pub deliveries : b.deliveries ≡ a.deliveries
  pub working : b.working ≡ a.working

pub Unchanged-Safe : (v : Services) (a b : State) → Unchanged a b → Safe v a → Safe v b
Unchanged-Safe v a b u k = record {
  sent = rw (u.db, u.deliveries) k.sent;
  held = rw (u.db, u.working) k.held;
}

admit_topic-Unchanged :
    (t : Result ParsedTopic) (it : Item) (s : State) → Unchanged s (admit_topic t it s).1
unfolding admit_topic enqueue
admit_topic-Unchanged (err e) it s = ground arith
admit_topic-Unchanged (ok t) it s = ground arith

if-Unchanged :
    (b : Bool) (s : State) (x y : AdmissionDecision × State)
    → Unchanged s x.1
    → Unchanged s y.1
    → Unchanged s (if b then x else y).1
if-Unchanged true s x y h k = h
if-Unchanged false s x y h k = k

pub admit-Unchanged :
    (topic payload : Bytes) (at : Time) (retained : Bool) (s : State)
    → Unchanged s (admit topic payload at retained s).1
unfolding admit
admit-Unchanged topic payload at retained s = if-Unchanged (not s.started) s _ _ (ground arith) (
    if-Unchanged s.stopping s _ _ (ground arith) (
      if-Unchanged retained s _ _ (ground arith) (
        if-Unchanged (ltb_ℤ s.max_payload_bytes (pos (length payload))) s _ _ (ground arith)
          (admit_topic-Unchanged (parse_topic topic) _ s))))

pub start-Unchanged : (a b : State) → start a ≡ some b → Unchanged a b
unfolding start
start-Unchanged a b h = ground arith

pub drain-Unchanged : (a : State) → Unchanged a (begin_drain a)
unfolding begin_drain stop_admission
drain-Unchanged a = ground arith

All-weaken {ℓ κ} :
    {A : Type ℓ} (P Q : A → Type κ) (xs : List A) → ((a : A) → P a → Q a) → All P xs → All Q xs
All-weaken P Q [] f h = tt
All-weaken P Q (x ∷ xs) f h = (f x h.0, All-weaken P Q xs f h.1)

pub All-remove {ℓ κ} :
    {A : Type ℓ} (P : A → Type κ) (xs ys : List A) (a : A)
    → All P (xs ++ (a ∷ ys))
    → P a × All P (xs ++ ys)
All-remove P [] ys a h = h
All-remove P (x ∷ xs) ys a h = let (p, q) = All-remove P xs ys a h.1 in (p, (h.0, q))

pub All-insert {ℓ κ} :
    {A : Type ℓ} (P : A → Type κ) (xs ys : List A) (a : A)
    → P a
    → All P (xs ++ ys)
    → All P (xs ++ (a ∷ ys))
All-insert P [] ys a p h = (p, h)
All-insert P (x ∷ xs) ys a p h = (h.0, All-insert P xs ys a p h.1)

with_held :
    (v : Services) (m : Message) (p : PersistResult) (s : State)
    → Stored s.db m.topic.gateway_id m.batch.message_id
    → Safe v s
    → Safe v
        (record s { working = persisted m p ∷ s.working; counters = count_commit p s.counters })
unfolding Waiting
with_held v m p s b k = record { sent = k.sent; held = (b, k.held) }

after_persist-Safe :
    (v : Services) (m : Message) (r : Result PersistResult) (s : State)
    → ((p : PersistResult)
        → r ≡ ok p
        → identity_matches m p.identity ≡ true
        → Stored s.db m.topic.gateway_id m.batch.message_id)
    → Safe v s
    → Safe v (after_persist m r s)
unfolding Waiting after_persist
after_persist-Safe v m (err e) s f k = record { sent = k.sent; held = (tt, k.held) }
after_persist-Safe v m (ok p) s f k = elim (Bool-cases (is_confirmed p.outcome)) [
  | inr h ↦ rw h (record { sent = k.sent; held = (tt, k.held) })
  | inl h ↦ elim (Bool-cases (identity_matches m p.identity)) [
    | inr h' ↦ rw (h, h') (record { sent = k.sent; held = (tt, k.held) })
    | inl h' ↦ rw (h, h') (with_held v m p s (f p refl h') k)
  ]
]

module _ (v : Services) where
  keep-Waiting :
      (f : Faults) (m : Message) (a : Db) (w : Work)
      → Waiting a w
      → Waiting (persist v.format_time v.platform.uuid f a m).1 w
  unfolding Waiting
  keep-Waiting f m a (received it) k = k
  keep-Waiting f m a (taken it) k = k
  keep-Waiting f m a ending k = k
  keep-Waiting f m a (persisted n r) k =
      persist-keeps v f m a n.topic.gateway_id n.batch.message_id k

  keep-Backed :
      (f : Faults) (m : Message) (a : Db) (d : Delivery)
      → Backed v a d
      → Backed v (persist v.format_time v.platform.uuid f a m).1 d
  keep-Backed f m a d b = record {
    gateway_id = b.gateway_id;
    message_id = b.message_id;
    committed_at = b.committed_at;
    topic_eq = b.topic_eq;
    payload_eq = b.payload_eq;
    qos_eq = b.qos_eq;
    retained_eq = b.retained_eq;
    stored = persist-keeps v f m a b.gateway_id b.message_id b.stored;
  }

  persisted-Safe :
      (f : Faults) (m : Message) (s : State)
      → Safe v s
      → Safe v (record s { db = (persist v.format_time v.platform.uuid f s.db m).1 })
  unfolding Waiting
  persisted-Safe f m s k =
      let db = (persist v.format_time v.platform.uuid f s.db m).1 in
      record {
        sent = All-weaken (Backed v s.db) (Backed v db) s.deliveries (keep-Backed f m s.db) k.sent;
        held = All-weaken (Waiting s.db) (Waiting db) s.working (keep-Waiting f m s.db) k.held;
      }

  pub commit_valid-Safe :
      (f : Faults) (t : Result Message) (s : State) → Safe v s → Safe v (commit_valid v f t s)
  unfolding Waiting commit_valid
  commit_valid-Safe f (err e) s k = record { sent = k.sent; held = (tt, k.held) }
  commit_valid-Safe f (ok m) s k =
      after_persist-Safe v m _
        (record s { db = (persist v.format_time v.platform.uuid f s.db m).1 })
        (λ p. persist-Stored v f m s.db p) (persisted-Safe f m s k)

  new_commit_ack-parts :
      (g : Bytes) (id : Uuid) (o : CommitOutcome) (now : Time) (topic : Bytes) (ack : CommitAck)
      → new_commit_ack v.platform.uuid g id o now ≡ ok (topic, ack)
      → (topic ≡ ack_topic v.platform.uuid g id)
        × (ack ≡ record { message_id = id; committed_at = now })
  unfolding new_commit_ack
  new_commit_ack-parts g id o now topic ack h = ground arith

  publish_wire-Safe :
      (g : Bytes) (id : Uuid) (now : Time) (topic : Bytes) (wire : Option Bytes)
      (answer : Option Error) (s : State)
      → topic ≡ ack_topic v.platform.uuid g id
      → v.marshal (record { message_id = id; committed_at = now }) ≡ wire
      → Stored s.db g id
      → Safe v s
      → Safe v (publish_wire topic wire answer s)
  unfolding Waiting publish_wire publish
  publish_wire-Safe g id now topic none answer s ht hw b k = record {
    sent = k.sent;
    held = (tt, k.held);
  }
  publish_wire-Safe g id now topic (some wire) answer s ht hw b k = record {
    sent = (
      record {
        gateway_id = g;
        message_id = id;
        committed_at = now;
        topic_eq = ht;
        payload_eq = hw;
        qos_eq = refl;
        retained_eq = refl;
        stored = b;
      },
      k.sent,
    );
    held = (tt, k.held);
  }

  pub send_ack-Safe :
      (g : Bytes) (id : Uuid) (o : CommitOutcome) (now : Time) (t : Result (Bytes × CommitAck))
      (answer : Option Error) (s : State)
      → new_commit_ack v.platform.uuid g id o now ≡ t
      → Stored s.db g id
      → Safe v s
      → Safe v (send_ack v t answer s)
  unfolding Waiting send_ack
  send_ack-Safe g id o now (err e) answer s h b k = record { sent = k.sent; held = (tt, k.held) }
  send_ack-Safe g id o now (ok (topic, ack)) answer s h b k =
      let (ht, ha) = new_commit_ack-parts g id o now topic ack h in
      publish_wire-Safe g id now topic (v.marshal ack) answer s ht (ap v.marshal (sym ha)) b k
