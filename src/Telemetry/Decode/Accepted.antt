-- ===== src/Telemetry/Decode/Accepted.antt =====
-- What holds of a batch that decodeBatch returns.
use mathlib.Core.Path.{subst}
use project1_iot_server.Identifier.{valid_gateway_id, valid_sensor_id}
use project1_iot_server.Uuid.{uuid_nil, UuidLib, valid_message_id}
use project1_iot_server.Json.{
  decode_object, JsonLib, Fields, field, Event, close, value, open_bracket, is_null,
}
use project1_iot_server.Json.Numbers.{decode_int64-IsInt64, decode_int32-range}
use project1_iot_server.Telemetry.Errors.{
  ◌>>=◌, ◌>>◌, Error, Result, ok, reject_if, or_error, invalid_topic, invalid_payload_error,
  payload_too_large, reason, ok_inj, >>=-eq-ok, reject_if-eq-ok,
}
use project1_iot_server.Telemetry.Topic.{ParsedTopic}
use project1_iot_server.Telemetry.Model.{Float64, BatchDto, Limits}
use project1_iot_server.Telemetry.Decode.{
  Uuid, batch_field_names, decode_batch, decode_identity, decode_content, push_item, match_topic,
  batch_of, decode_samples, samples_of, read_samples, decode_item, is_nan_or_inf,
}
use project1_iot_server.Prelude.{
  ℕ, suc, ◌≤◌, ◌<◌, ◌≡◌, refl, inl, inr, Bool, true, false, ◌||◌, Option, none, some, List, [], ◌∷◌,
  arith, Bool-cases, some_inj, length, All, ℤ, pos, pos_part, ◌≤ℤ◌, ltb_ℤ, leb_ℤ, eqb_ℤ→eq, IsInt64,
  Bytes, codes, bytes_eq→eq, bytes_eq,
}

abbrev pub AllFinite : List Float64 → Type 0
AllFinite = All (λ v. is_nan_or_inf v ≡ false)

pub record Accepted (u : UuidLib) (topic : ParsedTopic) (l : Limits) (b : BatchDto) : Type 0 where
  pub message_id : valid_message_id u b.message_id ≡ true
  pub boot_id : bytes_eq b.boot_id uuid_nil ≡ false
  pub gateway_valid : valid_gateway_id b.gateway_id ≡ true
  pub sensor_valid : valid_sensor_id b.sensor_id ≡ true
  pub gateway_eq : b.gateway_id ≡ topic.gateway_id
  pub sensor_eq : b.sensor_id ≡ topic.sensor_id
  pub count_eq : b.sample_count ≡ pos (length b.samples)
  pub count_pos : 0 < length b.samples
  pub count_le : pos (length b.samples) ≤ℤ l.max_samples
  pub count_int32 : length b.samples ≤ 2147483647
  pub first_range : IsInt64 b.first_sequence
  pub finite : AllFinite b.samples

push_item-eq-some :
    (a : Option Float64) (b : Option (List Float64)) (vs : List Float64)
    → push_item a b ≡ some vs
    → (v : Float64) × (ws : List Float64) × (a ≡ some v) × (b ≡ some ws) × (v ∷ ws ≡ vs)
push_item-eq-some (some v) (some ws) vs h = (v, ws, refl, refl, some_inj h)
push_item-eq-some none b vs h = cc
push_item-eq-some (some v) none vs h = cc

-- The stages behind two guards, of a chain that succeeds.
stages_parts :
    {F I C B : Type 0} (t₁ t₂ : Bool) (e₁ e₂ e₃ : Error) (object : Option F)
    (identity : F → Result I) (content : F → Result C) (last : I → C → Result B) (b : B)
    → (do
      reject_if t₁ e₁
      reject_if t₂ e₂
      fs ← or_error object e₃
      ids ← identity fs
      c ← content fs
      last ids c)
      ≡ ok b
    → (fs : F) × (ids : I) × (c : C) × (object ≡ some fs)
      × (identity fs ≡ ok ids)
      × (content fs ≡ ok c)
      × (last ids c ≡ ok b)
stages_parts true t₂ e₁ e₂ e₃ object identity content last b h = cc
stages_parts false true e₁ e₂ e₃ object identity content last b h = cc
stages_parts false false e₁ e₂ e₃ none identity content last b h = cc
stages_parts false false e₁ e₂ e₃ (some fs) identity content last b h =
    let (ids, hi, h₁) = >>=-eq-ok (identity fs) (λ i. content fs >>= last i) h in
    let (c, hc, h₂) = >>=-eq-ok (content fs) (last ids) h₁ in (fs, ids, c, refl, hi, hc, h₂)

module _ (json : JsonLib) where
  decode_item_finite :
      (raw : Bytes) (v : Float64) → decode_item json raw ≡ some v → is_nan_or_inf v ≡ false
  unfolding decode_item
  decode_item_finite raw v h = ground arith

  read_samples-AllFinite :
      (room : ℕ) (es : List Event) (vs : List Float64)
      → read_samples json room es ≡ some vs
      → AllFinite vs
  unfolding read_samples
  read_samples-AllFinite room (close ∷ []) vs h = subst AllFinite (some_inj h) tt
  read_samples-AllFinite (suc room) (value raw ∷ rest) vs h =
      let (v, ws, hv, hw, e) =
        push_item-eq-some (decode_item json raw) (read_samples json room rest) vs h in
      rw (← e) (decode_item_finite raw v hv, read_samples-AllFinite room rest ws hw)
  read_samples-AllFinite room _ vs h = cc

  decode_samples-AllFinite :
      (raw : Bytes) (maximum : ℕ) (vs : List Float64)
      → decode_samples json raw maximum ≡ some vs
      → AllFinite vs
  unfolding decode_samples
  decode_samples-AllFinite raw maximum vs h = elim (Bool-cases (is_null raw)) [
    | inl e ↦ absurd (ground arith)
    | inr e ↦ go (json.events raw) (rw e at h)
  ]
    where
      go : (es : List Event) → samples_of json maximum es ≡ some vs → AllFinite vs
      go (open_bracket ∷ rest) k = read_samples-AllFinite maximum rest vs k
      go _ k = cc

  content_parts :
      (fs : Fields) (l : Limits) (first count interval : ℤ) (at : Bytes) (vs : List Float64)
      → decode_content json fs l ≡ ok (first, count, at, interval, vs)
      → IsInt64 first
        × (count ≡ pos (length vs))
        × (0 < length vs)
        × (pos (length vs) ≤ℤ l.max_samples)
        × (length vs ≤ 2147483647)
        × (decode_samples json (field (codes "samples") fs) (pos_part l.max_samples) ≡ some vs)
  unfolding decode_content
  content_parts fs l first count interval at vs h = ground (
    arith,
    decode_int64-IsInt64 (field (codes "first_sequence") fs) first,
    decode_int32-range (field (codes "sample_count") fs) count,
    eqb_ℤ→eq (pos (length vs)) count,
  )

  module _ (u : UuidLib) where
    identity_parts :
        (fs : Fields) (m g s boot : Bytes)
        → decode_identity json u fs ≡ ok (m, g, s, boot)
        → (valid_message_id u m ≡ true)
          × (valid_gateway_id g ≡ true)
          × (valid_sensor_id s ≡ true)
          × (bytes_eq boot uuid_nil ≡ false)
    unfolding decode_identity
    identity_parts fs m g s boot h = ground arith

    match_topic-Accepted :
        (topic : ParsedTopic) (l : Limits) (b : BatchDto) (m g s boot at : Bytes)
        (first count interval : ℤ) (vs : List Float64)
        → (valid_message_id u m ≡ true)
          × (valid_gateway_id g ≡ true)
          × (valid_sensor_id s ≡ true)
          × (bytes_eq boot uuid_nil ≡ false)
        → IsInt64 first
          × (count ≡ pos (length vs))
          × (0 < length vs)
          × (pos (length vs) ≤ℤ l.max_samples)
          × (length vs ≤ 2147483647)
        → AllFinite vs
        → match_topic topic (m, g, s, boot) (first, count, at, interval, vs) ≡ ok b
        → Accepted u topic l b
    unfolding match_topic
    match_topic-Accepted topic l b m g s boot at first count interval vs i c finite h =
        let (t, k) =
          reject_if-eq-ok _ (reason invalid_topic "topic")
            (ok (batch_of (m, g, s, boot) (first, count, at, interval, vs))) h in
        subst (Accepted u topic l) (ok_inj k) (record {
          message_id = i.0;
          boot_id = i.3;
          gateway_valid = i.1;
          sensor_valid = i.2;
          gateway_eq = bytes_eq→eq g topic.gateway_id (ground arith);
          sensor_eq = bytes_eq→eq s topic.sensor_id (ground arith);
          count_eq = c.1;
          count_pos = c.2;
          count_le = c.3;
          count_int32 = c.4;
          first_range = c.0;
          finite = finite;
        })

    decode_batch_parts :
        (payload : Bytes) (topic : ParsedTopic) (l : Limits) (b : BatchDto)
        → decode_batch json u payload topic l ≡ ok b
        → (fs : Fields) × (ids : Uuid × Bytes × Bytes × Uuid) × (content : ℤ
            × ℤ
            × Bytes
            × ℤ
            × List Float64)
          × (decode_object batch_field_names (json.events payload) ≡ some fs)
          × (decode_identity json u fs ≡ ok ids)
          × (decode_content json fs l ≡ ok content)
          × (match_topic topic ids content ≡ ok b)
    unfolding decode_batch
    decode_batch_parts payload topic l b h =
        stages_parts (ltb_ℤ l.max_payload_bytes (pos (length payload)))
          (leb_ℤ l.max_payload_bytes (pos 0) || leb_ℤ l.max_samples (pos 0))
          (reason payload_too_large "payload") (invalid_payload_error "limits")
          (invalid_payload_error "object") (decode_object batch_field_names (json.events payload))
          (decode_identity json u) (λ fs. decode_content json fs l) (match_topic topic) b h

    -- Every batch that decodeBatch returns has valid identifiers, those of its topic, a message identifier
    -- of version 4 or 7, and as many finite samples as it counts: at least one, and at most the limit.
    pub decode_batch-Accepted :
        (payload : Bytes) (topic : ParsedTopic) (l : Limits) (b : BatchDto)
        → decode_batch json u payload topic l ≡ ok b
        → Accepted u topic l b
    decode_batch-Accepted payload topic l b h =
        let (fs, (m, g, s, boot), (first, count, at, interval, vs), ho, hi, hc, hm) =
          decode_batch_parts payload topic l b h in
        let c = content_parts fs l first count interval at vs hc in
        match_topic-Accepted topic l b m g s boot at first count interval vs
          (identity_parts fs m g s boot hi) (c.0, c.1, c.2, c.3, c.4)
          (decode_samples-AllFinite _ _ vs c.5) hm
