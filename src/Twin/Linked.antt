-- ===== src/Twin/Linked.antt =====
-- The relationship cursors of src/internal/digitaltwin/cursor.go decode to what they were made of.
use mathlib.Core.Path.{subst}
use project1_iot_server.Outcome.{
  Outcome, fails, done, ◌>>◌, ◌>>=◌, fail_when, passes, yields, or_fail,
}
use project1_iot_server.Twin.{
  type_name, TwinError, invalid_cursor, EntityType, gateway, sensor, same_type, ParsedIdentity,
  parse_entity_urn,
}
use project1_iot_server.Twin.Plain.{Plain, parse_entity_urn-Accepted}
use project1_iot_server.Twin.Documented.{
  IsDocumented, quoted, Fit, value-Safe, object_text-Safe, length-object_text, encode_json-Fit,
  decode_cursor_bytes-Fit,
}
use project1_iot_server.Twin.Filters.{Plain-no_nul, value_length}
use project1_iot_server.Twin.Cursor.{decode_members}
use project1_iot_server.Twin.Cursor.Payload.{
  text, open_brace, close_brace, CursorLib, RelationshipCursor, has_sensor, cursor_version_prefix,
  object_text, encode_json, decode_cursor_bytes,
}
use project1_iot_server.Twin.Relationship.{
  encode_relationship_cursor, text_val, relationship_of, decode_relationship_cursor,
  validate_relationship_cursor, parse_relationship_cursor,
}
use project1_iot_server.Prelude.{
  ℕ, ◌+◌, ◌≤◌, ◌≡◌, refl, ap, ◌∙◌, Bool, true, false, not, some, [], ◌∷◌, ◌++◌, arith,
  if◌then◌else◌, some_inj, length, Bytes, codes, bytes_eq_refl, bytes_eq,
}

text_val-Plain : (s : Bytes) → Plain s → text_val (text s) ≡ some s
unfolding text_val
text_val-Plain s h = rw (Plain-no_nul s h) refl

-- Three members with the keys of a relationship cursor.
members :
    (x y z : Bytes)
    → Plain x
    → Plain y
    → Plain z
    → decode_members (codes "s" ∷ codes "r" ∷ codes "k" ∷ []) text_val (
        open_brace
        ∷ text (codes "s")
        ∷ text x
        ∷ text (codes "r")
        ∷ text y
        ∷ text (codes "k")
        ∷ text z
        ∷ close_brace
        ∷ [])
      ≡ done ((codes "k", z) ∷ (codes "r", y) ∷ (codes "s", x) ∷ [])
unfolding decode_members bytes_eq
members x y z hx hy hz =
    rw (text_val-Plain x hx) (rw (text_val-Plain y hy) (rw (text_val-Plain z hz) refl))

length-quoted : (s : Bytes) (n : ℕ) → 2 ≤ n → length s ≤ n → length (quoted s) ≤ n + 2
length-quoted s n m h =
    value_length (some s) n m (λ t e. subst (λ (x : Bytes). length x ≤ n) (some_inj e) h)

abbrev link_json : Bytes → Bytes → Bytes
link_json s k =
    object_text (codes "s") (quoted s) (codes "r") (quoted has_sensor) (codes "k") (quoted k)

link_json-Fit :
    (s k : Bytes) → Plain s → Plain k → length s ≤ 160 → length k ≤ 160 → Fit (link_json s k)
link_json-Fit s k hs hk ls lk =
    let size =
      length-object_text (codes "s") (quoted s) (codes "r") (quoted has_sensor) (codes "k")
        (quoted k) in
    let sq = length-quoted s 160 (omega arith) ls in
    let kq = length-quoted k 160 (omega arith) lk in
    (
      object_text-Safe (codes "s") (quoted s) (codes "r") (quoted has_sensor) (codes "k") (quoted k)
          refl (value-Safe (some s) hs) refl refl refl (value-Safe (some k) hk),
      omega arith,
      omega arith,
    )

-- A Gateway and one of its Sensors.
pub record Linked (s k : Bytes) : Type 0 where
  pub source : ParsedIdentity
  pub target : ParsedIdentity
  pub source_parsed : parse_entity_urn s ≡ done source
  pub target_parsed : parse_entity_urn k ≡ done target
  pub from_gateway : source.kind ≡ gateway
  pub to_sensor : target.kind ≡ sensor
  pub of_gateway : target.gateway_id ≡ source.gateway_id

abbrev pub link_of : Bytes → Bytes → RelationshipCursor
link_of s k = record { source_urn = s; rel_type = has_sensor; target_urn = k }

is_type : (t u : EntityType) → t ≡ u → not (same_type t u) ≡ false
unfolding same_type
is_type t u e =
    ap (λ x. not (bytes_eq (type_name x) (type_name u))) e ∙ ap not (bytes_eq_refl (type_name u))

is_id : (a b : Bytes) → a ≡ b → not (bytes_eq a b) ≡ false
is_id a b e = ap (λ x. not (bytes_eq x b)) e ∙ ap not (bytes_eq_refl b)

module _ {lib : CursorLib} (d : IsDocumented lib) (s k : Bytes) (l : Linked s k) where
  link-Fit : Fit (link_json s k)
  link-Fit =
      let a = parse_entity_urn-Accepted s l.source l.source_parsed in
      let b = parse_entity_urn-Accepted k l.target l.target_parsed in
      link_json-Fit s k a.plain b.plain a.short b.short

  encoded :
      encode_relationship_cursor lib s has_sensor k
      ≡ done (cursor_version_prefix ++ lib.encode_base64 (link_json s k))
  unfolding encode_relationship_cursor
  encoded =
      let a = parse_entity_urn-Accepted s l.source l.source_parsed in
      let b = parse_entity_urn-Accepted k l.target l.target_parsed in
      passes invalid_cursor (not (bytes_eq has_sensor has_sensor)) _
        (ap not (bytes_eq_refl has_sensor))
        (yields (or_fail invalid_cursor (parse_entity_urn s)) _ l.source
          (ap (or_fail invalid_cursor) l.source_parsed)
          (passes invalid_cursor (not (same_type l.source.kind gateway)) _
            (is_type l.source.kind gateway l.from_gateway)
            (yields (or_fail invalid_cursor (parse_entity_urn k)) _ l.target
              (ap (or_fail invalid_cursor) l.target_parsed)
              (passes invalid_cursor (not (same_type l.target.kind sensor)) _
                (is_type l.target.kind sensor l.to_sensor)
                (passes invalid_cursor (not (bytes_eq l.target.gateway_id l.source.gateway_id)) _
                  (is_id l.target.gateway_id l.source.gateway_id l.of_gateway)
                  (ap
                      (λ x. encode_json lib (
                        object_text (codes "s") x (codes "r") (lib.marshal has_sensor) (codes "k")
                          (lib.marshal k)))
                      (d.marshal_plain s a.plain)
                    ∙ ap
                        (λ x. encode_json lib (
                          object_text (codes "s") (quoted s) (codes "r") x (codes "k")
                            (lib.marshal k)))
                        (d.marshal_plain has_sensor refl)
                    ∙ ap
                        (λ x. encode_json lib (
                          object_text (codes "s") (quoted s) (codes "r") (quoted has_sensor)
                            (codes "k") x))
                        (d.marshal_plain k b.plain)
                    ∙ encode_json-Fit d (link_json s k) link-Fit))))))

  members_link : relationship_of s has_sensor k ≡ done (link_of s k)
  unfolding relationship_of
  members_link =
      let a = parse_entity_urn-Accepted s l.source l.source_parsed in
      let b = parse_entity_urn-Accepted k l.target l.target_parsed in
      yields (or_fail invalid_cursor (parse_entity_urn s)) _ l.source
        (ap (or_fail invalid_cursor) l.source_parsed)
        (passes invalid_cursor (not (same_type l.source.kind gateway)) _
          (is_type l.source.kind gateway l.from_gateway)
          (passes invalid_cursor (not (bytes_eq has_sensor has_sensor)) _
            (ap not (bytes_eq_refl has_sensor))
            (yields (or_fail invalid_cursor (parse_entity_urn k)) _ l.target
              (ap (or_fail invalid_cursor) l.target_parsed)
              (passes invalid_cursor (not (same_type l.target.kind sensor)) _
                (is_type l.target.kind sensor l.to_sensor)
                (passes invalid_cursor (not (bytes_eq l.target.gateway_id l.source.gateway_id)) _
                  (is_id l.target.gateway_id l.source.gateway_id l.of_gateway)
                  (ap
                      (λ x. done (record {
                        source_urn = x;
                        rel_type = has_sensor;
                        target_urn = l.target.urn;
                      }))
                      a.same
                    ∙ ap (λ x. done (link_of s x)) b.same))))))

  decoded :
      decode_relationship_cursor lib (cursor_version_prefix ++ lib.encode_base64 (link_json s k))
      ≡ done (link_of s k)
  unfolding decode_relationship_cursor bytes_eq
  decoded =
      let a = parse_entity_urn-Accepted s l.source l.source_parsed in
      let b = parse_entity_urn-Accepted k l.target l.target_parsed in
      yields (decode_cursor_bytes lib (cursor_version_prefix ++ lib.encode_base64 (link_json s k)))
        _ (link_json s k) (decode_cursor_bytes-Fit d (link_json s k) link-Fit)
        (yields
          (decode_members (codes "s" ∷ codes "r" ∷ codes "k" ∷ []) text_val
            (lib.tokens (link_json s k)))
          _ ((codes "k", k) ∷ (codes "r", has_sensor) ∷ (codes "s", s) ∷ [])
          (ap (decode_members (codes "s" ∷ codes "r" ∷ codes "k" ∷ []) text_val) (
              d.tokens_plain (codes "s") (codes "r") (codes "k") (some s) (some has_sensor) (some k)
                refl refl refl a.plain refl b.plain)
            ∙ members s has_sensor k a.plain refl b.plain)
          members_link)

  -- For the URN of a Gateway and of one of its Sensors, EncodeRelationshipCursor with the type hasSensor makes a cursor; ParseRelationshipCursor reads the three texts back where the expected source is that Gateway, and refuses the cursor as invalid for any other source, where the base64, JSON and UTF-8 packages do what their documentation says.
  pub relationship_cursor_round_trip :
      (x : Bytes)
      → (c : Bytes) × (encode_relationship_cursor lib s has_sensor k ≡ done c)
        × (parse_relationship_cursor lib c x
            ≡ (if bytes_eq s x then done (link_of s k) else fails invalid_cursor))
  unfolding parse_relationship_cursor validate_relationship_cursor
  relationship_cursor_round_trip x =
      let c = cursor_version_prefix ++ lib.encode_base64 (link_json s k) in
      (
        c,
        encoded,
        ap
              (λ (r : Outcome TwinError RelationshipCursor).
                r >>= λ v. validate_relationship_cursor v x >> done v)
              decoded
            ∙ chosen (bytes_eq s x) (link_of s k),
      )
    where
      chosen :
          (b : Bool) (v : RelationshipCursor)
          → (fail_when invalid_cursor (not b) >> done v)
            ≡ (if b then done v else fails invalid_cursor)
      chosen true v = refl
      chosen false v = refl
