-- ===== src/Twin/Documented.antt =====
-- What src/internal/digitaltwin/cursor.go relies on in encoding/base64, encoding/json and unicode/utf8,
-- and what its own tests make of plain texts.
use project1_iot_server.Outcome.{done, passes}
use project1_iot_server.Twin.{invalid_cursor}
use project1_iot_server.Twin.Plain.{Plain, all-append}
use project1_iot_server.Twin.Cursor.Payload.{
  Token, text, null_value, open_brace, close_brace, CursorLib, cursor_version_prefix,
  max_decoded_cursor_bytes, max_encoded_cursor_length, json_or_null, object_text, encode_json,
  forbidden_here, has_forbidden_json_escapes, has_byte, decode_payload, decode_cursor_bytes,
}
use project1_iot_server.Prelude.{
  ℕ, ◌+◌, ◌*◌, ◌≤◌, ◌≡◌, refl, ap, Bool, true, false, not, ◌&&◌, ◌||◌, Option, none, some, [], ◌∷◌,
  ◌++◌, arith, ltb, ◌==◌, and_parts, length, all, length-append, Bytes, codes, is_empty,
}

abbrev pub quoted : Bytes → Bytes
quoted s = b'"' ∷ (s ++ b'"' ∷ [])

-- A string, or null.
abbrev pub PlainValue : Option Bytes → Type 0
PlainValue none = true ≡ true
PlainValue (some s) = Plain s

abbrev pub value_token : Option Bytes → Token
value_token none = null_value
value_token (some s) = text s

-- Base64 without padding gives at least one character for a byte and at most two, none of them `=`, and
-- can be decoded; json.Marshal puts quotes round a text of plain characters; the decoder reads an object
-- of three such members; a text in ASCII is valid UTF-8.
pub record IsDocumented (lib : CursorLib) : Type 0 where
  pub decode_encode : (s : Bytes) → lib.decode_base64 (lib.encode_base64 s) ≡ some s
  pub encode_length :
      (s : Bytes)
      → (length s ≤ length (lib.encode_base64 s)) × (length (lib.encode_base64 s) ≤ 2 * length s)
  pub no_padding : (s : Bytes) → has_byte b'=' (lib.encode_base64 s) ≡ false
  pub marshal_plain : (s : Bytes) → Plain s → lib.marshal s ≡ quoted s
  pub valid_ascii : (s : Bytes) → all (λ c. ltb c 128) s ≡ true → lib.valid_utf8 s ≡ true
  pub tokens_plain :
      (a b c : Bytes) (x y z : Option Bytes)
      → Plain a
      → Plain b
      → Plain c
      → PlainValue x
      → PlainValue y
      → PlainValue z
      → lib.tokens (
          object_text a (json_or_null quoted x) b (json_or_null quoted y) c (json_or_null quoted z))
        ≡ open_brace
          ∷ text a
          ∷ value_token x
          ∷ text b
          ∷ value_token y
          ∷ text c
          ∷ value_token z
          ∷ close_brace
          ∷ []

-- A character of the JSON of a cursor: printable ASCII but the backslash.
abbrev pub is_json_char : ℕ → Bool
is_json_char c = ltb 31 c && ltb c 127 && not (c == b'\\')

abbrev pub Safe : Bytes → Type 0
Safe s = all is_json_char s ≡ true

Plain-Safe : (s : Bytes) → Plain s → Safe s
Plain-Safe [] h = refl
Plain-Safe (c ∷ s) h = ground (arith, Plain-Safe s)

pub value-Safe : (x : Option Bytes) → PlainValue x → Safe (json_or_null quoted x)
value-Safe none h = refl
value-Safe (some s) h = all-append is_json_char s (codes "\"") (Plain-Safe s h) refl

pub object_text-Safe :
    (a x b y c z : Bytes)
    → Safe a
    → Safe x
    → Safe b
    → Safe y
    → Safe c
    → Safe z
    → Safe (object_text a x b y c z)
unfolding object_text
object_text-Safe a x b y c z ha hx hb hy hc hz =
    let j = λ (c : ℕ). is_json_char c in
    all-append j a _ ha (
      all-append j x _ hx (
        all-append j b _ hb
          (all-append j y _ hy (all-append j c _ hc (all-append j z (b'}' ∷ []) hz refl)))))

pub length-object_text :
    (a x b y c z : Bytes)
    → length (object_text a x b y c z)
      ≡ length a + length x + length b + length y + length c + length z + 13
unfolding object_text
length-object_text a x b y c z = omega (arith, length-append {0})

Safe-ascii : (s : Bytes) → Safe s → all (λ c. ltb c 128) s ≡ true
Safe-ascii [] h = refl
Safe-ascii (c ∷ s) h = ground (arith, Safe-ascii s)

Safe-no_nul : (s : Bytes) → Safe s → has_byte 0 s ≡ false
unfolding has_byte
Safe-no_nul [] h = refl
Safe-no_nul (c ∷ s) h = ground (arith, Safe-no_nul s)

not_forbidden_here : (c : ℕ) (s : Bytes) → is_json_char c ≡ true → forbidden_here (c ∷ s) ≡ false
not_forbidden_here c [] h = refl
not_forbidden_here c (a ∷ []) h = refl
not_forbidden_here c (a ∷ b ∷ []) h = refl
not_forbidden_here c (a ∷ b ∷ d ∷ []) h = refl
not_forbidden_here c (a ∷ b ∷ d ∷ e ∷ []) h = refl
not_forbidden_here c (a ∷ b ∷ d ∷ e ∷ f ∷ s) h = rw (no_backslash c h) refl
  where
    no_backslash : (c : ℕ) → is_json_char c ≡ true → (c == b'\\') ≡ false
    no_backslash c h = ground arith

or_both : (a b : Bool) → a ≡ false → b ≡ false → (a || b) ≡ false
or_both a b h k = ground arith

Safe-no_escapes : (s : Bytes) → Safe s → has_forbidden_json_escapes s ≡ false
unfolding has_forbidden_json_escapes
Safe-no_escapes [] h = refl
Safe-no_escapes (c ∷ s) h =
    let (first, rest) = and_parts (is_json_char c) (all is_json_char s) h in
    or_both (forbidden_here (c ∷ s)) (has_forbidden_json_escapes s) (not_forbidden_here c s first)
      (Safe-no_escapes s rest)

-- A JSON text of the size that a cursor has.
abbrev pub Fit : Bytes → Type 0
Fit json = Safe json × (1 ≤ length json) × (length json ≤ 352)

below : (n m : ℕ) → n ≤ m → ltb m n ≡ false
below n m h = ground arith

not_empty : (s : Bytes) → 1 ≤ length s → is_empty s ≡ false
not_empty [] h = absurd (omega arith)
not_empty (c ∷ s) h = refl

module _ {lib : CursorLib} (d : IsDocumented lib) (json : Bytes) (fit : Fit json) where
  encoded_short :
      length (cursor_version_prefix ++ lib.encode_base64 json) ≤ max_encoded_cursor_length
  encoded_short =
      let (safe, some_byte, short) = fit in let (low, high) = d.encode_length json in omega arith

  pub encode_json-Fit :
      encode_json lib json ≡ done (cursor_version_prefix ++ lib.encode_base64 json)
  unfolding encode_json
  encode_json-Fit =
      let (safe, some_byte, short) = fit in
      passes invalid_cursor (ltb max_decoded_cursor_bytes (length json)) _ (below _ _ (omega arith))
        (passes invalid_cursor
          (ltb max_encoded_cursor_length (length (cursor_version_prefix ++ lib.encode_base64 json)))
          _ (below _ _ encoded_short) refl)

  decode_payload-Fit : decode_payload lib (lib.encode_base64 json) ≡ done json
  unfolding decode_payload
  decode_payload-Fit =
      let (safe, some_byte, short) = fit in
      let (low, high) = d.encode_length json in
      passes invalid_cursor
        (is_empty (lib.encode_base64 json) || has_byte b'=' (lib.encode_base64 json)) _
        (or_both _ _ (not_empty (lib.encode_base64 json) (omega arith)) (d.no_padding json))
        (rw (d.decode_encode json) (
          passes invalid_cursor (ltb max_decoded_cursor_bytes (length json)) _
            (below _ _ (omega arith))
            (passes invalid_cursor (not (lib.valid_utf8 json)) _
              (ap not (d.valid_ascii json (Safe-ascii json safe)))
              (passes invalid_cursor (has_byte 0 json) _ (Safe-no_nul json safe) (
                passes invalid_cursor (has_forbidden_json_escapes json) _
                  (Safe-no_escapes json safe) refl)))))

  pub decode_cursor_bytes-Fit :
      decode_cursor_bytes lib (cursor_version_prefix ++ lib.encode_base64 json) ≡ done json
  unfolding decode_cursor_bytes
  decode_cursor_bytes-Fit =
      passes invalid_cursor
        (ltb max_encoded_cursor_length (length (cursor_version_prefix ++ lib.encode_base64 json))) _
        (below _ _ encoded_short) decode_payload-Fit
