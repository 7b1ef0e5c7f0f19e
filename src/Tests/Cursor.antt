-- ===== src/Tests/Cursor.antt =====
-- A concrete stand-in for the packages that the cursors need, and concrete cursors.
use mathlib.Core.List.{append-nil, append_assoc}
use project1_iot_server.Identifier.{valid_gateway_id, valid_sensor_id}
use project1_iot_server.Outcome.{fails, done}
use project1_iot_server.Twin.{invalid_cursor, gateway, sensor, ParsedIdentity, parse_entity_urn}
use project1_iot_server.Twin.Plain.{Plain, is_urn_char}
use project1_iot_server.Twin.Documented.{IsDocumented, quoted, PlainValue, value_token}
use project1_iot_server.Twin.Cursor.{parse_list_cursor}
use project1_iot_server.Twin.Cursor.Payload.{
  Token, text, null_value, failure, open_brace, close_brace, CursorLib, has_sensor, json_or_null,
  object_text, encode_list_cursor, has_byte,
}
use project1_iot_server.Twin.Relationship.{encode_relationship_cursor, parse_relationship_cursor}
use project1_iot_server.Twin.RoundTrip.{list_cursor_round_trip}
use project1_iot_server.Twin.Linked.{Linked, link_of, relationship_cursor_round_trip}
use project1_iot_server.Prelude.{
  ℕ, suc, ◌+◌, ◌-◌, ◌≡◌, refl, sym, ap, ◌∙◌, true, false, Option, none, some, List, [], ◌∷◌, ◌++◌,
  map, arith, ◌==◌, if◌then◌else◌, and_parts, length, all, Bytes, codes, bytes_eq,
}

-- A lexer for flat objects of plain strings and nulls; the state is the string that is being read.
abbrev state_after : Option Bytes → ℕ → Option Bytes
state_after none c = if c == b'"' then some [] else none
state_after (some acc) c = if c == b'"' then none else some (acc ++ c ∷ [])

abbrev token_at : Option Bytes → ℕ → Option Token
token_at none c =
    if c == b'{'
    then some open_brace
    else if c == b'}'
    then some close_brace
    else if c == b'u'
    then some null_value
    else none
token_at (some acc) c = if c == b'"' then some (text acc) else none

abbrev emit : Option Token → List Token → List Token
emit none ts = ts
emit (some t) ts = t ∷ ts

lex : Option Bytes → Bytes → List Token
lex none [] = []
lex (some acc) [] = failure ∷ []
lex s (c ∷ cs) = emit (token_at s c) (lex (state_after s c) cs)

-- Characters of the base64 alphabet are not needed: an encoding moves each byte up by 100.
abbrev shift_up : Bytes → Bytes
shift_up s = map (λ c. c + 100) s

abbrev shift_down : Bytes → Bytes
shift_down s = map (λ c. c - 100) s

abbrev plain_lib : CursorLib
plain_lib = record {
  encode_base64 = shift_up;
  decode_base64 = λ s. some (shift_down s);
  marshal = quoted;
  tokens = lex none;
  valid_utf8 = λ s. true;
}

shift_back : (s : Bytes) → shift_down (shift_up s) ≡ s
shift_back [] = refl
shift_back (c ∷ s) = ground (arith, shift_back s)

shift_length : (s : Bytes) → length (shift_up s) ≡ length s
shift_length [] = refl
shift_length (c ∷ s) = ap suc (shift_length s)

shift_no_padding : (s : Bytes) → has_byte b'=' (shift_up s) ≡ false
unfolding has_byte
shift_no_padding [] = refl
shift_no_padding (c ∷ s) = ground (arith, shift_no_padding s)

lex_text :
    (acc x r : Bytes) → Plain x → lex (some acc) (x ++ (b'"' ∷ r)) ≡ text (acc ++ x) ∷ lex none r
unfolding lex
lex_text acc [] r h = ap (λ y. text y ∷ lex none r) (sym (append-nil acc))
lex_text acc (c ∷ x) r h =
    let (first, rest) = and_parts (is_urn_char c) (all is_urn_char x) h in
    ap
      (λ b.
        emit (if b then some (text acc) else none)
          (lex (if b then none else some (acc ++ c ∷ [])) (x ++ (b'"' ∷ r))))
      (inside c first)
    ∙ lex_text (acc ++ c ∷ []) x r rest
    ∙ ap (λ y. text y ∷ lex none r) (append_assoc acc (c ∷ []) x)
  where
    inside : (c : ℕ) → is_urn_char c ≡ true → (c == b'"') ≡ false
    inside c h = ground arith

lex_value :
    (x : Option Bytes) (r : Bytes)
    → PlainValue x
    → lex none (json_or_null quoted x ++ r) ≡ value_token x ∷ lex none r
unfolding lex
lex_value none r h = refl
lex_value (some s) r h =
    ap (λ y. lex (some []) y) (append_assoc s (codes "\"") r) ∙ lex_text [] s r h

lex_object :
    (a b c : Bytes) (x y z : Option Bytes)
    → Plain a
    → Plain b
    → Plain c
    → PlainValue x
    → PlainValue y
    → PlainValue z
    → lex none
        (object_text a (json_or_null quoted x) b (json_or_null quoted y) c (json_or_null quoted z))
      ≡ open_brace
        ∷ text a
        ∷ value_token x
        ∷ text b
        ∷ value_token y
        ∷ text c
        ∷ value_token z
        ∷ close_brace
        ∷ []
unfolding lex object_text
lex_object a b c x y z ha hb hc hx hy hz =
    ap (λ ts. open_brace ∷ ts)
      (lex_text [] a _ ha
        ∙ ap (λ ts. text a ∷ ts)
            (lex_value x _ hx
              ∙ ap (λ ts. value_token x ∷ ts)
                  (lex_text [] b _ hb
                    ∙ ap (λ ts. text b ∷ ts)
                        (lex_value y _ hy
                          ∙ ap (λ ts. value_token y ∷ ts)
                              (lex_text [] c _ hc
                                ∙ ap (λ ts. text c ∷ ts) (lex_value z (codes "}") hz))))))

plain_lib-IsDocumented : IsDocumented plain_lib
plain_lib-IsDocumented = record {
  decode_encode = λ s. ap some (shift_back s);
  encode_length = λ s. (omega (arith, shift_length s), omega (arith, shift_length s));
  no_padding = shift_no_padding;
  marshal_plain = λ s h. refl;
  valid_ascii = λ s h. refl;
  tokens_plain = lex_object;
}

abbrev sensor_urn : Bytes
sensor_urn = codes "urn:ngsi-ld:Sensor:gw-1:s_1"

abbrev gateway_urn : Bytes
gateway_urn = codes "urn:ngsi-ld:Gateway:gw-1"

abbrev sensor_parts : ParsedIdentity
sensor_parts = record {
  kind = sensor;
  gateway_id = codes "gw-1";
  sensor_id = codes "s_1";
  urn = sensor_urn;
}

abbrev gateway_parts : ParsedIdentity
gateway_parts = record {
  kind = gateway;
  gateway_id = codes "gw-1";
  sensor_id = [];
  urn = gateway_urn;
}

sensor_parsed : parse_entity_urn sensor_urn ≡ done sensor_parts
unfolding parse_entity_urn valid_gateway_id valid_sensor_id bytes_eq
sensor_parsed = refl

gateway_parsed : parse_entity_urn gateway_urn ≡ done gateway_parts
unfolding parse_entity_urn valid_gateway_id bytes_eq
gateway_parsed = refl

-- The parts of the cursor, and a cursor for other filters.
cursor_run :
    (parse_list_cursor plain_lib
        (codes "v1."
          ++ shift_up (codes "{\"k\":\"urn:ngsi-ld:Gateway:gw-1\",\"g\":null,\"t\":null}"))
        none
        none
      ≡ done (record { entity_id = gateway_urn; gateway_id = none; entity_type = none }))
    × (parse_list_cursor plain_lib
          (codes "v1."
            ++ shift_up (codes "{\"k\":\"urn:ngsi-ld:Gateway:gw-1\",\"g\":null,\"t\":null}"))
          (some (codes "gw-1"))
          none
        ≡ fails invalid_cursor)
    × (parse_list_cursor plain_lib
          (codes "v1." ++ shift_up (codes "{\"k\":null,\"g\":null,\"t\":null}"))
          none
          none
        ≡ fails invalid_cursor)
unfolding parse_list_cursor parse_entity_urn valid_gateway_id bytes_eq lex
cursor_run = (refl, refl, refl)

list_cursor_round_trip_example :
    (c : Bytes) × (encode_list_cursor plain_lib sensor_urn (some (codes "gw-1")) (some sensor)
      ≡ done c)
    × (parse_list_cursor plain_lib c (some (codes "gw-1")) (some sensor)
        ≡ done (record {
          entity_id = sensor_urn;
          gateway_id = some (codes "gw-1");
          entity_type = some sensor;
        }))
list_cursor_round_trip_example =
    list_cursor_round_trip plain_lib-IsDocumented sensor_urn sensor_parts sensor_parsed true true

linked : Linked gateway_urn sensor_urn
linked = record {
  source = gateway_parts;
  target = sensor_parts;
  source_parsed = gateway_parsed;
  target_parsed = sensor_parsed;
  from_gateway = refl;
  to_sensor = refl;
  of_gateway = refl;
}

relationship_cursor_round_trip_example :
    (c : Bytes) × (encode_relationship_cursor plain_lib gateway_urn has_sensor sensor_urn ≡ done c)
    × (parse_relationship_cursor plain_lib c gateway_urn ≡ (
        if bytes_eq gateway_urn gateway_urn
        then done (link_of gateway_urn sensor_urn)
        else fails invalid_cursor))
relationship_cursor_round_trip_example =
    relationship_cursor_round_trip plain_lib-IsDocumented gateway_urn sensor_urn linked gateway_urn
