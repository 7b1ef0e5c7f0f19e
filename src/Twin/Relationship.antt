-- ===== src/Twin/Relationship.antt =====
-- src/internal/digitaltwin/cursor.go: the cursor of the relationships of a Gateway.
use project1_iot_server.Outcome.{done, ◌>>◌, ◌>>=◌, fail_when, or_fail}
use project1_iot_server.Twin.{invalid_cursor, gateway, sensor, same_type, parse_entity_urn}
use project1_iot_server.Twin.Cursor.{decode_members, find_key}
use project1_iot_server.Twin.Cursor.Payload.{
  Token, text, CursorLib, RelationshipCursor, Decoded, has_sensor, object_text, encode_json,
  decode_cursor_bytes, has_byte,
}
use project1_iot_server.Prelude.{
  not, Option, none, some, [], ◌∷◌, if◌then◌else◌, Bytes, codes, bytes_eq,
}

-- EncodeRelationshipCursor
unfoldable pub encode_relationship_cursor : CursorLib → Bytes → Bytes → Bytes → Decoded Bytes
unfolding parse_entity_urn same_type object_text encode_json
encode_relationship_cursor lib source rel target = do
  fail_when invalid_cursor (not (bytes_eq rel has_sensor))
  s ← or_fail invalid_cursor (parse_entity_urn source)
  fail_when invalid_cursor (not (same_type s.kind gateway))
  t ← or_fail invalid_cursor (parse_entity_urn target)
  fail_when invalid_cursor (not (same_type t.kind sensor))
  fail_when invalid_cursor (not (bytes_eq t.gateway_id s.gateway_id))
  encode_json lib (
      object_text (codes "s") (lib.marshal source) (codes "r") (lib.marshal rel) (codes "k")
        (lib.marshal target))

-- A value of a relationship cursor: a string without NUL.
unfoldable pub text_val : Token → Option Bytes
unfolding has_byte
text_val (text s) = if has_byte 0 s then none else some s
text_val _ = none

-- rawMap[key], which is empty where the key is missing
abbrev pub value_or_empty : Option Bytes → Bytes
value_or_empty none = []
value_or_empty (some s) = s

unfoldable pub relationship_of : Bytes → Bytes → Bytes → Decoded RelationshipCursor
unfolding parse_entity_urn same_type
relationship_of source rel target = do
  s ← or_fail invalid_cursor (parse_entity_urn source)
  fail_when invalid_cursor (not (same_type s.kind gateway))
  fail_when invalid_cursor (not (bytes_eq rel has_sensor))
  k ← or_fail invalid_cursor (parse_entity_urn target)
  fail_when invalid_cursor (not (same_type k.kind sensor))
  fail_when invalid_cursor (not (bytes_eq k.gateway_id s.gateway_id))
  done record { source_urn = s.urn; rel_type = rel; target_urn = k.urn }

-- DecodeRelationshipCursor
unfoldable pub decode_relationship_cursor : CursorLib → Bytes → Decoded RelationshipCursor
unfolding decode_cursor_bytes decode_members text_val relationship_of
decode_relationship_cursor lib cursor = do
  decoded ← decode_cursor_bytes lib cursor
  fs ← decode_members (codes "s" ∷ codes "r" ∷ codes "k" ∷ []) text_val (lib.tokens decoded)
  relationship_of (value_or_empty (find_key (codes "s") fs))
      (value_or_empty (find_key (codes "r") fs)) (value_or_empty (find_key (codes "k") fs))

-- ValidateRelationshipCursor, of a cursor that is not nil
unfoldable pub validate_relationship_cursor : RelationshipCursor → Bytes → Decoded (Unit {0})
validate_relationship_cursor c expected =
    fail_when invalid_cursor (not (bytes_eq c.source_urn expected))

-- ParseRelationshipCursor
unfoldable pub parse_relationship_cursor : CursorLib → Bytes → Bytes → Decoded RelationshipCursor
unfolding decode_relationship_cursor validate_relationship_cursor
parse_relationship_cursor lib cursor expected = do
  c ← decode_relationship_cursor lib cursor
  validate_relationship_cursor c expected
  done c
