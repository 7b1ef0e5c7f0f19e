-- ===== src/Json.antt =====
-- What the program uses of encoding/json: the tokens that a decoder yields on a text, as a list of
-- events, and Unmarshal into a string and into a float64. They are a parameter. The decoder for
-- objects with an exact set of members is the one of src/internal/telemetry/decode.go, which
-- src/internal/gatewaysim/ack.go repeats.
pub mod Members
pub mod Numbers
use project1_iot_server.Prelude.{
  ℕ, zero, suc, ◌+◌, ◌-◌, ◌*◌, Bool, true, false, not, ◌&&◌, ◌||◌, Option, none, some, List, [],
  ◌∷◌, leb, ◌==◌, if◌then◌else◌, length, ℤ, pos, negsuc, max_int64, Bytes, codes, is_digit,
  is_empty, bytes_eq,
}

-- One token of json.Decoder, where `value raw` is a whole value read by Decode into a RawMessage,
-- `close` is the end of an object or array, `other` any other token, and `failure` an error of the
-- decoder. The end of the list is io.EOF.
pub data Event : Type 0 where
  open_brace open_bracket close other failure : Event
  key : Bytes → Event
  value : Bytes → Event

pub record JsonLib : Type 0 where
  pub events : Bytes → List Event
  pub unmarshal_string : Bytes → Option Bytes
  pub unmarshal_float64 : Bytes → Option ℕ

-- map[string]json.RawMessage
abbrev pub Fields : Type 0
Fields = List (Bytes × Bytes)

abbrev pub mem : Bytes → List Bytes → Bool
mem s [] = false
mem s (t ∷ ts) = bytes_eq s t || mem s ts

abbrev pub names : Fields → List Bytes
names [] = []
names ((n, raw) ∷ fs) = n ∷ names fs

-- fields[name], which is nil where the name is missing.
abbrev pub field : Bytes → Fields → Bytes
field n [] = []
field n ((m, raw) ∷ fs) = if bytes_eq n m then raw else field n fs

-- The loop over decoder.More(), and the token that ends the object.
read_members : List Bytes → List Event → Fields → Option (Fields × List Event)
read_members known (close ∷ rest) fs = some (fs, rest)
read_members known (key n ∷ value raw ∷ rest) fs =
    let more = read_members known rest ((n, raw) ∷ fs) in
    if not (mem n known) then none else if mem n (names fs) then none else more
read_members known _ fs = none

-- The number of members, and io.EOF behind the object.
check_members : List Bytes → Option (Fields × List Event) → Option Fields
check_members known none = none
check_members known (some (fs, [])) = if length fs == length known then some fs else none
check_members known (some (fs, e ∷ rest)) = none

-- decodeBatchObject, for the member names `known`.
unfoldable pub decode_object : List Bytes → List Event → Option Fields
unfolding read_members check_members
decode_object known (open_brace ∷ rest) = check_members known (read_members known rest [])
decode_object known _ = none

-- bytes.TrimSpace, of the white space in ASCII; no JSON value begins or ends with any other.
is_space : ℕ → Bool
is_space c = c == 32 || leb 9 c && leb c 13

trim_left : Bytes → Bytes
unfolding is_space
trim_left [] = []
trim_left (c ∷ s) = let rest = trim_left s in if is_space c then rest else c ∷ s

trim_right : Bytes → Bytes
unfolding is_space
trim_right [] = []
trim_right (c ∷ s) = let rest = trim_right s in if is_space c && is_empty rest then [] else c ∷ rest

-- isNull
unfoldable pub is_null : Bytes → Bool
unfolding trim_left trim_right
is_null raw = bytes_eq (trim_right (trim_left raw)) (codes "null")

-- strconv.ParseInt(s, 10, bits) for the greatest value `bound`.
digits_value : ℕ → Bytes → Option ℕ
digits_value n [] = some n
digits_value n (c ∷ s) =
    let rest = digits_value (n * 10 + (c - b'0')) s in if is_digit c then rest else none

parse_digits : Bytes → Option ℕ
unfolding digits_value
parse_digits [] = none
parse_digits (c ∷ s) = digits_value 0 (c ∷ s)

negate : ℕ → ℤ
negate zero = pos 0
negate (suc n) = negsuc n

in_bound : ℕ → Bool → Option ℕ → Option ℤ
in_bound bound minus none = none
in_bound bound true (some n) = if leb n (bound + 1) then some (negate n) else none
in_bound bound false (some n) = if leb n bound then some (pos n) else none

parse_int : ℕ → Bytes → Option ℤ
unfolding parse_digits in_bound negate
parse_int bound [] = none
parse_int bound (c ∷ s) =
    if c == b'-'
    then in_bound bound true (parse_digits s)
    else if c == b'+'
    then in_bound bound false (parse_digits s)
    else in_bound bound false (parse_digits (c ∷ s))

-- decodeInt64, decodeInt32
unfoldable pub decode_int64 : Bytes → Option ℤ
unfolding is_null parse_int
decode_int64 raw = if is_null raw then none else parse_int max_int64 raw

unfoldable pub decode_int32 : Bytes → Option ℤ
unfolding is_null parse_int
decode_int32 raw = if is_null raw then none else parse_int 2147483647 raw

-- decodeString
unfoldable pub decode_string : JsonLib → Bytes → Option Bytes
unfolding is_null
decode_string json raw = if is_null raw then none else json.unmarshal_string raw
