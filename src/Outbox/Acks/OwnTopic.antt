-- ===== src/Outbox/Acks/OwnTopic.antt =====
-- The topic of an ACK on both sides.
use project1_iot_server.Clock.{Time}
use project1_iot_server.Identifier.{valid_gateway_id, valid_gateway_id-Lacks}
use project1_iot_server.Uuid.{Uuid, uuid_nil, UuidLib, valid_message_id}
use project1_iot_server.Telemetry.Errors.{ok}
use project1_iot_server.Telemetry.Ack.{CommitOutcome, CommitAck, ack_topic, new_commit_ack}
use project1_iot_server.Outbox.Acks.{of_ack_segments, parse_own_ack_topic}
use project1_iot_server.Prelude.{
  ◌≡◌, ap, ◌∙◌, true, false, some, [], ◌∷◌, ◌++◌, arith, Bytes, codes, bytes_eq_refl, bytes_eq,
  Lacks, split_on_single, split_on-append, split_on,
}

new_commit_ack_parts :
    (u : UuidLib) (g : Bytes) (id : Uuid) (outcome : CommitOutcome) (now : Time) (topic : Bytes)
    (ack : CommitAck)
    → new_commit_ack u g id outcome now ≡ ok (topic, ack)
    → (topic ≡ ack_topic u g id)
      × (ack.message_id ≡ id)
      × (valid_gateway_id g ≡ true)
      × (bytes_eq id uuid_nil ≡ false)
unfolding new_commit_ack valid_message_id
new_commit_ack_parts u g id outcome now topic ack h = ground arith

split-ack_topic :
    (u : UuidLib) (g : Bytes) (id : Uuid)
    → Lacks b'/' g
    → Lacks b'/' (u.format id)
    → split_on b'/' (ack_topic u g id) ≡ codes "gateways" ∷ g ∷ codes "acks" ∷ u.format id ∷ []
split-ack_topic u g id hg hs =
    split_on-append b'/' (codes "gateways") (g ++ (b'/' ∷ codes "acks" ++ (b'/' ∷ u.format id)))
      (ground arith)
    ∙ ap (λ r. codes "gateways" ∷ r)
        (split_on-append b'/' g (codes "acks" ++ (b'/' ∷ u.format id)) hg
          ∙ ap (λ r. g ∷ r)
              (split_on-append b'/' (codes "acks") (u.format id) (ground arith)
                ∙ ap (λ r. codes "acks" ∷ r) (split_on_single b'/' (u.format id) hs)))

-- The Gateway accepts the topic on which the server publishes an ACK: for an identifier that
-- UUID.String writes without a slash and uuid.Parse reads back, the topic of NewCommitACK is the own
-- ACK topic of the Gateway, with that identifier.
pub parse_own_ack_topic-new_commit_ack :
    (u : UuidLib) (g : Bytes) (id : Uuid) (outcome : CommitOutcome) (now : Time) (topic : Bytes)
    (ack : CommitAck)
    → u.parse (u.format id) ≡ some id
    → Lacks b'/' (u.format id)
    → new_commit_ack u g id outcome now ≡ ok (topic, ack)
    → parse_own_ack_topic u topic g ≡ ok ack.message_id
unfolding parse_own_ack_topic of_ack_segments
parse_own_ack_topic-new_commit_ack u g id outcome now topic ack hp hl h =
    let (ht, ha, hg, hn) = new_commit_ack_parts u g id outcome now topic ack h in
    rw (
      ht,
      ha,
      split-ack_topic u g id (valid_gateway_id-Lacks g hg) hl,
      hp,
      hn,
      bytes_eq_refl (codes "gateways"),
      bytes_eq_refl (codes "acks"),
      bytes_eq_refl g,
      bytes_eq_refl (u.format id),
    )
