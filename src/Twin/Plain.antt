-- ===== src/Twin/Plain.antt =====
-- The texts of src/internal/digitaltwin/identity.go: their characters and their lengths.
use project1_iot_server.Outcome.{Outcome, fails, done, fail_when-eq-done, done_inj}
use project1_iot_server.Identifier.{is_id_char, valid_gateway_id_chars, valid_sensor_id_chars}
use project1_iot_server.Twin.{
  TwinError, invalid_input, gateway, sensor, ParsedIdentity, gateway_urn_prefix, sensor_urn_prefix,
  max_decoded_urn_length, strip_prefix, gateway_identity, sensor_identity, identity_of,
  parse_entity_urn,
}
use mathlib.Core.Path.{subst}
use project1_iot_server.Prelude.{
  ℕ, ◌≤◌, ◌≡◌, refl, sym, ap, ◌∙◌, ◌⊎◌, inl, inr, Bool, true, false, not, ◌||◌, Option, none, some,
  List, [], ◌∷◌, ◌++◌, arith, ltb, ◌==◌, if◌then◌else◌, some_inj, length, all, Bytes, is_empty,
  join_with, join_with-split_on, split_on,
}

-- A character of a URN: json.Marshal leaves it as it is.
abbrev pub is_urn_char : ℕ → Bool
is_urn_char c = is_id_char c || c == b':'

abbrev pub Plain : Bytes → Type 0
Plain s = all is_urn_char s ≡ true

id_Plain : (s : Bytes) → all is_id_char s ≡ true → Plain s
id_Plain [] h = refl
id_Plain (c ∷ s) h = ground (arith, id_Plain s)

pub all-append :
    (p : ℕ → Bool) (s t : Bytes) → all p s ≡ true → all p t ≡ true → all p (s ++ t) ≡ true
all-append p [] t h k = k
all-append p (c ∷ s) t h k = ground (arith, all-append p s t)

pub append-strip_prefix : (pre s rest : Bytes) → strip_prefix pre s ≡ some rest → s ≡ pre ++ rest
unfolding strip_prefix
append-strip_prefix [] s rest h = some_inj h
append-strip_prefix (p ∷ ps) [] rest h = cc
append-strip_prefix (p ∷ ps) (c ∷ s) rest h = ground (arith, append-strip_prefix ps s rest)

-- An accepted URN: a Gateway or a Sensor, with characters and lengths that JSON keeps.
pub record Accepted (raw : Bytes) (p : ParsedIdentity) : Type 0 where
  pub same : p.urn ≡ raw
  pub plain : Plain raw
  pub short : length raw ≤ 160
  pub id_plain : Plain p.gateway_id
  pub id_short : length p.gateway_id ≤ 64
  pub known : (p.kind ≡ gateway) ⊎ (p.kind ≡ sensor)

pub test_passed : (b : Bool) → not b ≡ false → b ≡ true
test_passed b h = ground arith

gateway_identity-Accepted :
    (raw rem : Bytes) (p : ParsedIdentity)
    → raw ≡ gateway_urn_prefix ++ rem
    → length raw ≤ 160
    → gateway_identity raw rem ≡ done p
    → Accepted raw p
unfolding gateway_identity
gateway_identity-Accepted raw rem p e short h =
    let (h1, r1) = fail_when-eq-done invalid_input _ _ h in
    let (h2, r2) = fail_when-eq-done invalid_input _ _ r1 in
    let (chars, length_id) = valid_gateway_id_chars rem (test_passed _ h2) in
    let same = done_inj r2 in
    subst (Accepted raw) same record {
      same = refl;
      plain =
          subst Plain (sym e)
            (all-append is_urn_char gateway_urn_prefix rem refl (id_Plain rem chars));
      short = short;
      id_plain = id_Plain rem chars;
      id_short = length_id;
      known = inl refl;
    }

sensor_identity-Accepted :
    (raw : Bytes) (parts : List Bytes) (p : ParsedIdentity)
    → raw ≡ sensor_urn_prefix ++ join_with b':' parts
    → length raw ≤ 160
    → sensor_identity raw parts ≡ done p
    → Accepted raw p
unfolding sensor_identity
sensor_identity-Accepted raw [] p e short h = cc
sensor_identity-Accepted raw (g ∷ []) p e short h = cc
sensor_identity-Accepted raw (g ∷ s ∷ t ∷ ts) p e short h = cc
sensor_identity-Accepted raw (g ∷ s ∷ []) p e short h =
    let (h1, r1) = fail_when-eq-done invalid_input _ _ h in
    let (h2, r2) = fail_when-eq-done invalid_input _ _ r1 in
    let (h3, r3) = fail_when-eq-done invalid_input _ _ r2 in
    let (g_chars, g_length) = valid_gateway_id_chars g (test_passed _ h2) in
    let (s_chars, s_length) = valid_sensor_id_chars s (test_passed _ h3) in
    let same = done_inj r3 in
    subst (Accepted raw) same record {
      same = refl;
      plain = subst Plain (sym e) (
          all-append is_urn_char sensor_urn_prefix (g ++ (b':' ∷ s)) refl
            (all-append is_urn_char g (b':' ∷ s) (id_Plain g g_chars) (id_Plain s s_chars)));
      short = short;
      id_plain = id_Plain g g_chars;
      id_short = g_length;
      known = inr refl;
    }

identity_of-Accepted :
    (raw : Bytes) (as_gateway as_sensor : Option Bytes) (p : ParsedIdentity)
    → strip_prefix gateway_urn_prefix raw ≡ as_gateway
    → strip_prefix sensor_urn_prefix raw ≡ as_sensor
    → length raw ≤ 160
    → identity_of raw as_gateway as_sensor ≡ done p
    → Accepted raw p
unfolding identity_of
identity_of-Accepted raw (some rem) s p e f short h =
    gateway_identity-Accepted raw rem p (append-strip_prefix gateway_urn_prefix raw rem e) short h
identity_of-Accepted raw none (some rem) p e f short h =
    sensor_identity-Accepted raw (split_on b':' rem) p
      (append-strip_prefix sensor_urn_prefix raw rem f
        ∙ ap (λ t. sensor_urn_prefix ++ t) (sym (join_with-split_on b':' rem)))
      short h
identity_of-Accepted raw none none p e f short h = cc

pub parse_entity_urn-Accepted :
    (raw : Bytes) (p : ParsedIdentity) → parse_entity_urn raw ≡ done p → Accepted raw p
unfolding parse_entity_urn
parse_entity_urn-Accepted raw p h =
    let (h1, r1) = guarded (is_empty raw || ltb max_decoded_urn_length (length raw)) _ h in
    identity_of-Accepted raw _ _ p refl refl (within raw h1) r1
  where
    guarded :
        (b : Bool) (rest : Outcome TwinError ParsedIdentity) {p : ParsedIdentity}
        → (if b then fails invalid_input else rest) ≡ done p
        → (b ≡ false) × (rest ≡ done p)
    guarded true rest h = cc
    guarded false rest h = (refl, h)

    within :
        (raw : Bytes)
        → (is_empty raw || ltb max_decoded_urn_length (length raw)) ≡ false
        → length raw ≤ 160
    within raw h = ground arith
