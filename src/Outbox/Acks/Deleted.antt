-- ===== src/Outbox/Acks/Deleted.antt =====
-- The row that an ACK deletes, and the topics of ACKs on both sides.
use mathlib.Core.Path.{subst}
use project1_iot_server.Uuid.{Uuid, UuidLib}
use project1_iot_server.Json.{Fields, decode_object}
use project1_iot_server.Telemetry.Errors.{
  Error, Result, ok, err, ◌>>=◌, ◌>>◌, reject_if, or_error, >>=-eq-ok, reject_if-eq-ok,
}
use project1_iot_server.Telemetry.Ack.{CommitAck, ack_topic}
use project1_iot_server.Outbox.{
  commit_unknown, begin_tx, delete_row, outbox_identity, Outbox, Faults, statement, settle, matches,
  without, delete_pending,
}
use project1_iot_server.Outbox.Acks.{
  Parsers, ack_oversize, ack_malformed, ack_field_names, of_ack_segments, parse_own_ack_topic,
  check_ack, parse_commit_ack, Processor, after_delete, handle_parsed, handle_admission,
}
use project1_iot_server.Store.{Fate, confirmed, lost, applied}
use project1_iot_server.Prelude.{
  suc, ◌≡◌, refl, sym, ap, ◌∙◌, ◌⊎◌, inl, inr, Bool, true, false, not, List, [], ◌∷◌, arith, ltb,
  Option-cases, length, any, Bytes, codes, bytes_eq→eq, bytes_eq, join_with, join_with-split_on,
  split_on,
}

of_ack_segments_sound :
    (u : UuidLib) (g : Bytes) (ss : List Bytes) (id : Uuid)
    → of_ack_segments u g ss ≡ ok id
    → join_with b'/' ss ≡ ack_topic u g id
unfolding of_ack_segments
of_ack_segments_sound u g (a ∷ h ∷ b ∷ s ∷ []) id k = elim (Option-cases (u.parse s)) [
  | inl e ↦ absurd (ground arith)
  | inr (i, e) ↦ ground (
    arith,
    bytes_eq→eq a (codes "gateways"),
    bytes_eq→eq b (codes "acks"),
    bytes_eq→eq h g,
    bytes_eq→eq (u.format i) s,
  )
]
of_ack_segments_sound u g _ id k = cc

parse_own_ack_topic_sound :
    (u : UuidLib) (topic g : Bytes) (id : Uuid)
    → parse_own_ack_topic u topic g ≡ ok id
    → topic ≡ ack_topic u g id
unfolding parse_own_ack_topic
parse_own_ack_topic_sound u topic g id h =
    sym (join_with-split_on b'/' topic) ∙ of_ack_segments_sound u g (split_on b'/' topic) id h

check_ack-message_id :
    (p : Parsers) (id : Uuid) (fs : Fields) (ack : CommitAck)
    → check_ack p id fs ≡ ok ack
    → ack.message_id ≡ id
unfolding check_ack
check_ack-message_id p id fs ack h = bytes_eq→eq ack.message_id id (ground arith)

parse_commit_ack-topic :
    (p : Parsers) (topic payload g : Bytes) (ack : CommitAck)
    → parse_commit_ack p topic payload g ≡ ok ack
    → topic ≡ ack_topic p.uuid g ack.message_id
unfolding parse_commit_ack
parse_commit_ack-topic p topic payload g ack h =
    let rest : Uuid → Result CommitAck = λ id.
      or_error (decode_object ack_field_names (p.json.events payload)) ack_malformed
      >>= check_ack p id in
    let (_, k) =
      reject_if-eq-ok (ltb 1024 (length payload)) ack_oversize
        (parse_own_ack_topic p.uuid topic g >>= rest) h in
    let (id, hi, k') = >>=-eq-ok (parse_own_ack_topic p.uuid topic g) rest k in
    let (fs, _, k'') =
      >>=-eq-ok (or_error (decode_object ack_field_names (p.json.events payload)) ack_malformed)
        (check_ack p id) k' in
    parse_own_ack_topic_sound p.uuid topic g id hi
    ∙ ap (ack_topic p.uuid g) (sym (check_ack-message_id p id fs ack k''))

statement-cases :
    (f : Faults) (g : Bytes) (id : Uuid) (o : Outbox) (x : Bool × Outbox)
    → (reject_if (not (bytes_eq g o.gateway_id)) outbox_identity
        >> (statement f begin_tx
            >> (statement f delete_row
                >> ok (any (matches id) o.rows, record o { rows = without (matches id) o.rows }))))
      ≡ ok x
    → (any (matches id) o.rows, record o { rows = without (matches id) o.rows }) ≡ x
unfolding statement
statement-cases f g id o x h = ground arith

abbrev pub remove_pending : Uuid → Outbox → Outbox
remove_pending id o = record o { rows = without (matches id) o.rows }

-- What one admission does.
pub data Handled (l : Parsers) (topic payload : Bytes) (p q : Processor) : Type 0 where
  kept : q.outbox ≡ p.outbox → q.acknowledged ≡ p.acknowledged → Handled l topic payload p q
  removed :
      (ack : CommitAck)
      → parse_commit_ack l topic payload p.outbox.gateway_id ≡ ok ack
      → topic ≡ ack_topic l.uuid p.outbox.gateway_id ack.message_id
      → q.outbox ≡ remove_pending ack.message_id p.outbox
      → (q.acknowledged ≡ p.acknowledged)
        ⊎ ((q.acknowledged ≡ suc p.acknowledged)
            × (any (matches ack.message_id) p.outbox.rows ≡ true))
      → Handled l topic payload p q

after_delete_outbox : (r : Result Bool) (p : Processor) → (after_delete r p).outbox ≡ p.outbox
unfolding after_delete
after_delete_outbox (err e) p = refl
after_delete_outbox (ok true) p = refl
after_delete_outbox (ok false) p = refl

after_delete_count :
    (found : Bool) (p : Processor)
    → ((after_delete (ok found) p).acknowledged ≡ p.acknowledged)
      ⊎ (((after_delete (ok found) p).acknowledged ≡ suc p.acknowledged) × (found ≡ true))
unfolding after_delete
after_delete_count true p = inr (refl, refl)
after_delete_count false p = inl refl

after_delete_err :
    (e : Error) (p : Processor) → (after_delete (err e) p).acknowledged ≡ p.acknowledged
unfolding after_delete
after_delete_err e p = refl

settled-Handled :
    (l : Parsers) (topic payload : Bytes) (p : Processor) (ack : CommitAck) (fate : Fate)
    (t : Result (Bool × Outbox))
    → parse_commit_ack l topic payload p.outbox.gateway_id ≡ ok ack
    → ((x : Bool × Outbox)
        → t ≡ ok x
        → (any (matches ack.message_id) p.outbox.rows, remove_pending ack.message_id p.outbox) ≡ x)
    → Handled l topic payload p
        (after_delete (settle fate p.outbox t).0 (record p { outbox = (settle fate p.outbox t).1 }))
unfolding settle
settled-Handled l topic payload p ack fate (err e) hp h =
    kept (after_delete_outbox (err e) p) (after_delete_err e p)
settled-Handled l topic payload p ack (lost e) (ok x) hp h =
    kept (after_delete_outbox (err (commit_unknown e)) p) (after_delete_err (commit_unknown e) p)
settled-Handled l topic payload p ack (applied e) (ok x) hp h =
    removed ack hp (parse_commit_ack-topic l topic payload p.outbox.gateway_id ack hp)
      (after_delete_outbox (err (commit_unknown e)) (record p { outbox = x.1 })
        ∙ ap (λ y. y.1) (sym (h x refl)))
      (inl (after_delete_err (commit_unknown e) (record p { outbox = x.1 })))
settled-Handled l topic payload p ack confirmed (ok (found, o)) hp h =
    removed ack hp (parse_commit_ack-topic l topic payload p.outbox.gateway_id ack hp)
      (after_delete_outbox (ok found) (record p { outbox = o })
        ∙ ap (λ y. y.1) (sym (h (found, o) refl)))
      (subst
        (λ (b : Bool).
          ((after_delete (ok found) (record p { outbox = o })).acknowledged ≡ p.acknowledged)
          ⊎ (((after_delete (ok found) (record p { outbox = o })).acknowledged ≡ suc p.acknowledged)
              × (b ≡ true)))
        (ap (λ y. y.0) (sym (h (found, o) refl)))
        (after_delete_count found (record p { outbox = o })))

parsed-Handled :
    (l : Parsers) (f : Faults) (topic payload : Bytes) (p : Processor) (t : Result CommitAck)
    → parse_commit_ack l topic payload p.outbox.gateway_id ≡ t
    → Handled l topic payload p (handle_parsed f t p)
unfolding handle_parsed delete_pending
parsed-Handled l f topic payload p (err e) h = kept refl refl
parsed-Handled l f topic payload p (ok ack) h =
    settled-Handled l topic payload p ack f.fate _ h
      (statement-cases f p.outbox.gateway_id ack.message_id p.outbox)

-- An ACK deletes only what it acknowledges. One admission, with any faults, leaves the outbox and the
-- count of acknowledged rows as they are; or its topic is gateways/<gateway>/acks/<id> for the bound
-- Gateway and the identifier in the payload, the payload is a strict ACK, and exactly the pending row
-- of that identifier is gone. The count is raised, by one, only where such a row was there.
pub handle_admission-Handled :
    (l : Parsers) (f : Faults) (topic payload : Bytes) (p : Processor)
    → Handled l topic payload p (handle_admission l f topic payload p)
unfolding handle_admission
handle_admission-Handled l f topic payload p = parsed-Handled l f topic payload p _ refl
