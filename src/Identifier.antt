-- ===== src/Identifier.antt =====
-- src/internal/gateway/identifier.go: the allowlist of Gateway and Sensor identifiers. The regular
-- expression ^[A-Za-z0-9][A-Za-z0-9_-]{0,63}$ is written out as a test on bytes.
use project1_iot_server.Prelude.{
  ℕ, ◌≤◌, ◌≡◌, refl, Bool, true, false, not, ◌&&◌, ◌||◌, [], ◌∷◌, arith, leb, ◌==◌, and_parts,
  length, all, Bytes, codes, is_digit, is_alpha, is_empty, bytes_eq, Lacks,
}

-- A character of an identifier.
abbrev pub is_id_char : ℕ → Bool
is_id_char c = is_alpha c || is_digit c || c == b'_' || c == b'-'

-- gatewayIDPattern
matches_pattern : Bytes → Bool
matches_pattern [] = false
matches_pattern (c ∷ cs) = (is_alpha c || is_digit c) && all is_id_char cs && leb (length cs) 63

unfoldable pub valid_sensor_id : Bytes → Bool
unfolding matches_pattern
valid_sensor_id id = matches_pattern id

unfoldable pub valid_gateway_id : Bytes → Bool
unfolding matches_pattern
valid_gateway_id id = not (bytes_eq id (codes "backend_service")) && matches_pattern id

id_chars-Lacks : (cs : Bytes) → all is_id_char cs ≡ true → Lacks b'/' cs
id_chars-Lacks [] h = tt
id_chars-Lacks (c ∷ cs) h = (ground arith, id_chars-Lacks cs (ground arith))

pattern-Lacks : (id : Bytes) → matches_pattern id ≡ true → Lacks b'/' id
unfolding matches_pattern
pattern-Lacks [] h = tt
pattern-Lacks (c ∷ cs) h = (ground arith, id_chars-Lacks cs (ground arith))

-- An accepted identifier has no slash, so it is one level of an MQTT topic.
pub valid_gateway_id-Lacks : (id : Bytes) → valid_gateway_id id ≡ true → Lacks b'/' id
unfolding valid_gateway_id
valid_gateway_id-Lacks id h = pattern-Lacks id (and_parts _ _ h).1

pub valid_sensor_id-Lacks : (id : Bytes) → valid_sensor_id id ≡ true → Lacks b'/' id
unfolding valid_sensor_id
valid_sensor_id-Lacks id h = pattern-Lacks id h

pub valid_gateway_id-ne-nil : (id : Bytes) → valid_gateway_id id ≡ true → is_empty id ≡ false
unfolding valid_gateway_id
valid_gateway_id-ne-nil [] h = ground arith
valid_gateway_id-ne-nil (c ∷ cs) h = refl

pub valid_sensor_id-ne-nil : (id : Bytes) → valid_sensor_id id ≡ true → is_empty id ≡ false
unfolding valid_sensor_id
valid_sensor_id-ne-nil [] h = cc
valid_sensor_id-ne-nil (c ∷ cs) h = refl

pattern_chars :
    (id : Bytes) → matches_pattern id ≡ true → (all is_id_char id ≡ true) × (length id ≤ 64)
unfolding matches_pattern
pattern_chars [] h = cc
pattern_chars (c ∷ cs) h = (ground arith, ground arith)

pub valid_gateway_id_chars :
    (id : Bytes) → valid_gateway_id id ≡ true → (all is_id_char id ≡ true) × (length id ≤ 64)
unfolding valid_gateway_id
valid_gateway_id_chars id h = pattern_chars id (and_parts _ _ h).1

pub valid_sensor_id_chars :
    (id : Bytes) → valid_sensor_id id ≡ true → (all is_id_char id ≡ true) × (length id ≤ 64)
unfolding valid_sensor_id
valid_sensor_id_chars id h = pattern_chars id h
