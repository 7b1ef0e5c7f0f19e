-- ===== src/Twin/Cursor/Payload.antt =====
-- src/internal/digitaltwin/cursor.go: the types, the encoder of a list cursor, and what surrounds the
-- payload of a cursor.
use project1_iot_server.Outcome.{Outcome, done, ◌>>◌, ◌>>=◌, fail_when, or_fail, from_option}
use project1_iot_server.Twin.{
  TwinError, invalid_cursor, EntityType, type_name, same_type, strip_prefix, parse_entity_urn,
}
use project1_iot_server.Prelude.{
  ℕ, Bool, false, not, ◌&&◌, ◌||◌, Option, none, some, List, [], ◌∷◌, ◌++◌, ltb, leb, ◌==◌, length,
  any, Bytes, codes, is_empty, bytes_eq,
}

-- One token of json.Decoder.Token. The list of the tokens ends at io.EOF.
pub data Token : Type 0 where
  open_brace close_brace other_delimiter null_value other_value failure : Token
  text : Bytes → Token

-- base64.RawURLEncoding, json.Marshal on a string, the tokens of a text, and utf8.Valid.
pub record CursorLib : Type 0 where
  pub encode_base64 : Bytes → Bytes
  pub decode_base64 : Bytes → Option Bytes
  pub marshal : Bytes → Bytes
  pub tokens : Bytes → List Token
  pub valid_utf8 : Bytes → Bool

-- ListCursor
pub record ListCursor : Type 0 where
  pub entity_id : Bytes
  pub gateway_id : Option Bytes
  pub entity_type : Option EntityType

-- RelationshipCursor
pub record RelationshipCursor : Type 0 where
  pub source_urn : Bytes
  pub rel_type : Bytes
  pub target_urn : Bytes

abbrev pub Decoded : Type 0 → Type 0
Decoded V = Outcome TwinError V

abbrev pub max_encoded_cursor_length : ℕ
max_encoded_cursor_length = 768

abbrev pub max_decoded_cursor_bytes : ℕ
max_decoded_cursor_bytes = 512

abbrev pub cursor_version_prefix : Bytes
cursor_version_prefix = codes "v1."

abbrev pub has_sensor : Bytes
has_sensor = codes "hasSensor"

-- A filter that is set and differs.
abbrev pub differs_id : Option Bytes → Bytes → Bool
differs_id none id = false
differs_id (some f) id = not (bytes_eq id f)

abbrev pub differs_type : Option EntityType → EntityType → Bool
differs_type none t = false
differs_type (some f) t = not (same_type t f)

abbrev pub json_or_null : (Bytes → Bytes) → Option Bytes → Bytes
json_or_null marshal none = codes "null"
json_or_null marshal (some s) = marshal s

abbrev pub name_of : Option EntityType → Option Bytes
name_of none = none
name_of (some t) = some (type_name t)

-- The three members of a cursor, in the words of fmt.Sprintf.
unfoldable pub object_text : Bytes → Bytes → Bytes → Bytes → Bytes → Bytes → Bytes
object_text a x b y c z =
    codes "{\""
    ++ (a
        ++ (codes "\":"
            ++ (x
                ++ (codes ",\""
                    ++ (b
                        ++ (codes "\":"
                            ++ (y
                                ++ (codes ",\"" ++ (c ++ (codes "\":" ++ (z ++ codes "}")))))))))))

-- The end of both encoders.
unfoldable pub encode_json : CursorLib → Bytes → Decoded Bytes
encode_json lib json = do
  fail_when invalid_cursor (ltb max_decoded_cursor_bytes (length json))
  let encoded = cursor_version_prefix ++ lib.encode_base64 json
  fail_when invalid_cursor (ltb max_encoded_cursor_length (length encoded))
  done encoded

-- EncodeListCursor
unfoldable pub encode_list_cursor :
    CursorLib → Bytes → Option Bytes → Option EntityType → Decoded Bytes
unfolding parse_entity_urn same_type object_text encode_json
encode_list_cursor lib k g t = do
  p ← or_fail invalid_cursor (parse_entity_urn k)
  fail_when invalid_cursor (differs_id g p.gateway_id)
  fail_when invalid_cursor (differs_type t p.kind)
  encode_json lib (
      object_text (codes "k") (lib.marshal k) (codes "g") (json_or_null lib.marshal g) (codes "t")
        (json_or_null lib.marshal (name_of t)))

-- hasForbiddenJSONEscapes, at the byte that the list starts with.
abbrev pub in_surrogates : ℕ → ℕ → Bool
in_surrogates c d =
    (c == b'd' || c == b'D')
    && (leb b'8' d && leb d b'9' || leb b'a' d && leb d b'f' || leb b'A' d && leb d b'F')

abbrev pub forbidden_here : Bytes → Bool
forbidden_here (s ∷ u ∷ c1 ∷ c2 ∷ c3 ∷ c4 ∷ rest) =
    s == b'\\'
    && (u == b'u' || u == b'U')
    && (bytes_eq (c1 ∷ c2 ∷ c3 ∷ c4 ∷ []) (codes "0000") || in_surrogates c1 c2)
forbidden_here _ = false

unfoldable pub has_forbidden_json_escapes : Bytes → Bool
has_forbidden_json_escapes [] = false
has_forbidden_json_escapes (c ∷ s) = forbidden_here (c ∷ s) || has_forbidden_json_escapes s

-- decodeCursorBytes
unfoldable pub has_byte : ℕ → Bytes → Bool
has_byte b s = any (λ c. c == b) s

unfoldable pub decode_payload : CursorLib → Bytes → Decoded Bytes
unfolding has_forbidden_json_escapes has_byte
decode_payload lib encoded = do
  fail_when invalid_cursor (is_empty encoded || has_byte b'=' encoded)
  decoded ← from_option invalid_cursor (lib.decode_base64 encoded)
  fail_when invalid_cursor (ltb max_decoded_cursor_bytes (length decoded))
  fail_when invalid_cursor (not (lib.valid_utf8 decoded))
  fail_when invalid_cursor (has_byte 0 decoded)
  fail_when invalid_cursor (has_forbidden_json_escapes decoded)
  done decoded

unfoldable pub decode_cursor_bytes : CursorLib → Bytes → Decoded Bytes
unfolding strip_prefix decode_payload
decode_cursor_bytes lib cursor = do
  fail_when invalid_cursor (ltb max_encoded_cursor_length (length cursor))
  encoded ← from_option invalid_cursor (strip_prefix cursor_version_prefix cursor)
  decode_payload lib encoded
