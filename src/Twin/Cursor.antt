-- ===== src/Twin/Cursor.antt =====
-- src/internal/digitaltwin/cursor.go: the cursors of the list of twins and of the relationships of a
-- Gateway. encoding/base64, encoding/json and unicode/utf8 are parameters.
pub mod Payload
use project1_iot_server.Outcome.{Outcome, fails, done, ◌>>◌, ◌>>=◌, fail_when, or_fail, from_option}
use project1_iot_server.Json.{mem}
use project1_iot_server.Twin.{
  TwinError, invalid_cursor, EntityType, valid_type, entity_type_of, same_type, ParsedIdentity,
  parse_entity_urn,
}
use project1_iot_server.Prelude.{
  Bool, true, false, not, ◌||◌, Option, none, some, List, [], ◌∷◌, ◌==◌, if◌then◌else◌, length,
  Bytes, codes, bytes_eq,
}
use project1_iot_server.Twin.Cursor.Payload.{
  Token, open_brace, close_brace, null_value, text, CursorLib, ListCursor, Decoded, has_byte,
  decode_cursor_bytes,
}

-- rawMap, with a value of type V for each key
abbrev pub find_key {ℓ} : {V : Type ℓ} → Bytes → List (Bytes × V) → Option V
find_key key [] = none
find_key key ((k, v) ∷ fs) = if bytes_eq key k then some v else find_key key fs

abbrev pub has_key {ℓ} : {V : Type ℓ} → Bytes → List (Bytes × V) → Bool
has_key key [] = false
has_key key ((k, v) ∷ fs) = bytes_eq key k || has_key key fs

-- The loop over dec.More(), up to the end of the text. `value_of` is the test of a value.
unfoldable pub read_pairs {ℓ} :
    {V : Type ℓ}
    → List Bytes
    → (Token → Option V)
    → List (Bytes × V)
    → List Token
    → Outcome TwinError (List (Bytes × V))
read_pairs known value_of fs (close_brace ∷ []) = done fs
read_pairs known value_of fs (text key ∷ token ∷ rest) = do
  fail_when invalid_cursor (has_key key fs)
  fail_when invalid_cursor (not (mem key known))
  v ← from_option invalid_cursor (value_of token)
  read_pairs known value_of ((key, v) ∷ fs) rest
read_pairs known value_of fs _ = fails invalid_cursor

unfoldable pub decode_members {ℓ} :
    {V : Type ℓ}
    → List Bytes
    → (Token → Option V)
    → List Token
    → Outcome TwinError (List (Bytes × V))
unfolding read_pairs
decode_members known value_of (open_brace ∷ rest) = do
  fs ← read_pairs known value_of [] rest
  fail_when invalid_cursor (not (length fs == 3))
  done fs
decode_members known value_of _ = fails invalid_cursor

-- rawVal
abbrev pub RawVal : Type 0
RawVal = Option Bytes

-- A value of a list cursor: a string or null; `none` is any other.
unfoldable pub raw_val : Token → Option RawVal
unfolding has_byte
raw_val (text s) = if has_byte 0 s then none else some (some s)
raw_val null_value = some none
raw_val _ = none

-- rawMap[key] of a string or null; a missing key is the zero rawVal, which is neither.
abbrev pub entity_id_of : Option RawVal → Decoded ParsedIdentity
entity_id_of none = fails invalid_cursor
entity_id_of (some none) = fails invalid_cursor
entity_id_of (some (some s)) = or_fail invalid_cursor (parse_entity_urn s)

abbrev pub checked_type : EntityType → Decoded (Option EntityType)
checked_type t = if valid_type t then done (some t) else fails invalid_cursor

abbrev pub entity_type_val : RawVal → Decoded (Option EntityType)
entity_type_val none = done none
entity_type_val (some s) = checked_type (entity_type_of s)

unfoldable pub list_cursor_of : List (Bytes × RawVal) → Decoded ListCursor
unfolding parse_entity_urn entity_type_of
list_cursor_of fs = do
  p ← entity_id_of (find_key (codes "k") fs)
  g ← from_option invalid_cursor (find_key (codes "g") fs)
  raw_t ← from_option invalid_cursor (find_key (codes "t") fs)
  t ← entity_type_val raw_t
  done record { entity_id = p.urn; gateway_id = g; entity_type = t }

-- DecodeListCursor
unfoldable pub decode_list_cursor : CursorLib → Bytes → Decoded ListCursor
unfolding decode_cursor_bytes decode_members raw_val list_cursor_of
decode_list_cursor lib cursor = do
  decoded ← decode_cursor_bytes lib cursor
  fs ← decode_members (codes "k" ∷ codes "g" ∷ codes "t" ∷ []) raw_val (lib.tokens decoded)
  list_cursor_of fs

-- The filter of a request against the one in the cursor, and against the URN.
abbrev pub unbound_id : Option Bytes → Option Bytes → Bytes → Bool
unbound_id none none id = false
unbound_id none (some c) id = true
unbound_id (some f) none id = true
unbound_id (some f) (some c) id = not (bytes_eq c f) || not (bytes_eq id f)

abbrev pub unbound_type : Option EntityType → Option EntityType → EntityType → Bool
unbound_type none none t = false
unbound_type none (some c) t = true
unbound_type (some f) none t = true
unbound_type (some f) (some c) t = not (same_type c f) || not (same_type t f)

-- ValidateListCursor, of a cursor that is not nil
unfoldable pub validate_list_cursor :
    ListCursor → Option Bytes → Option EntityType → Decoded (Unit {0})
unfolding parse_entity_urn same_type
validate_list_cursor c g t = do
  p ← or_fail invalid_cursor (parse_entity_urn c.entity_id)
  fail_when invalid_cursor (unbound_id g c.gateway_id p.gateway_id)
  fail_when invalid_cursor (unbound_type t c.entity_type p.kind)

-- ParseListCursor
unfoldable pub parse_list_cursor :
    CursorLib → Bytes → Option Bytes → Option EntityType → Decoded ListCursor
unfolding decode_list_cursor validate_list_cursor
parse_list_cursor lib cursor g t = do
  c ← decode_list_cursor lib cursor
  validate_list_cursor c g t
  done c
