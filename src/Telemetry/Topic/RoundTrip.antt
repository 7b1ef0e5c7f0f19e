-- ===== src/Telemetry/Topic/RoundTrip.antt =====
-- Which topics ParseTopic of src/internal/telemetry/topic.go accepts.
use project1_iot_server.Identifier.{
  valid_gateway_id, valid_sensor_id, valid_gateway_id-Lacks, valid_sensor_id-Lacks,
}
use project1_iot_server.Telemetry.Errors.{ok}
use project1_iot_server.Telemetry.Topic.{ParsedTopic, of_segments, parse_topic, telemetry_topic}
use project1_iot_server.Prelude.{
  ◌≡◌, sym, ap, ◌∙◌, ◌↔◌, true, List, [], ◌∷◌, ◌++◌, arith, Bytes, codes, bytes_eq_refl,
  bytes_eq→eq, join_with, join_with-split_on, Lacks, split_on_single, split_on-append, split_on,
}

of_segments_sound :
    (topic : Bytes) (ss : List Bytes) (p : ParsedTopic)
    → of_segments topic ss ≡ ok p
    → (p.source_topic ≡ topic)
      × (join_with b'/' ss ≡ telemetry_topic p.gateway_id p.sensor_id)
      × (valid_gateway_id p.gateway_id ≡ true)
      × (valid_sensor_id p.sensor_id ≡ true)
unfolding of_segments
of_segments_sound topic (a ∷ g ∷ b ∷ s ∷ []) p h =
    ground (arith, bytes_eq→eq a (codes "gateways"), bytes_eq→eq b (codes "telemetry"))
of_segments_sound topic _ p h = cc

pub parse_topic_sound :
    (topic : Bytes) (p : ParsedTopic)
    → parse_topic topic ≡ ok p
    → (p.source_topic ≡ topic)
      × (topic ≡ telemetry_topic p.gateway_id p.sensor_id)
      × (valid_gateway_id p.gateway_id ≡ true)
      × (valid_sensor_id p.sensor_id ≡ true)
unfolding parse_topic
parse_topic_sound topic p h =
    let (a, b, c, d) = of_segments_sound topic (split_on b'/' topic) p h in
    (a, sym (join_with-split_on b'/' topic) ∙ b, c, d)

split-telemetry_topic :
    (g s : Bytes)
    → Lacks b'/' g
    → Lacks b'/' s
    → split_on b'/' (telemetry_topic g s) ≡ codes "gateways" ∷ g ∷ codes "telemetry" ∷ s ∷ []
split-telemetry_topic g s hg hs =
    split_on-append b'/' (codes "gateways") (g ++ (b'/' ∷ codes "telemetry" ++ (b'/' ∷ s)))
      (ground arith)
    ∙ ap (λ r. codes "gateways" ∷ r)
        (split_on-append b'/' g (codes "telemetry" ++ (b'/' ∷ s)) hg
          ∙ ap (λ r. g ∷ r)
              (split_on-append b'/' (codes "telemetry") s (ground arith)
                ∙ ap (λ r. codes "telemetry" ∷ r) (split_on_single b'/' s hs)))

pub parse_topic-telemetry_topic :
    (g s : Bytes)
    → valid_gateway_id g ≡ true
    → valid_sensor_id s ≡ true
    → parse_topic (telemetry_topic g s)
      ≡ ok (record { source_topic = telemetry_topic g s; gateway_id = g; sensor_id = s })
unfolding parse_topic of_segments
parse_topic-telemetry_topic g s hg hs =
    rw
      (
        split-telemetry_topic g s (valid_gateway_id-Lacks g hg) (valid_sensor_id-Lacks s hs),
        of_segments,
      )
      (rw (hg, hs, bytes_eq_refl (codes "gateways"), bytes_eq_refl (codes "telemetry")))

-- ParseTopic accepts a topic with result p exactly when the topic is the text
-- gateways/<gateway>/telemetry/<sensor> of the two identifiers of p, both are valid, and the source
-- topic of p is the topic.
pub parse_topic_exact :
    (topic : Bytes) (p : ParsedTopic)
    → (parse_topic topic ≡ ok p) ↔ (
        (p.source_topic ≡ topic)
        × (topic ≡ telemetry_topic p.gateway_id p.sensor_id)
        × (valid_gateway_id p.gateway_id ≡ true)
        × (valid_sensor_id p.sensor_id ≡ true))
parse_topic_exact topic p = (
  parse_topic_sound topic p,
  λ (a, b, c, d). rw b (cc (parse_topic-telemetry_topic p.gateway_id p.sensor_id c d, a ∙ b)),
)
