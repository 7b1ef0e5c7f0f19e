-- ===== src/Twin/RoundTrip.antt =====
-- The cursors of src/internal/digitaltwin/cursor.go decode to what they were made of.
use mathlib.Core.Path.{subst}
use project1_iot_server.Outcome.{Outcome, passes, or_fail, yields, done, ◌>>◌, fail_when}
use project1_iot_server.Twin.{
  TwinError, parse_entity_urn, ParsedIdentity, invalid_cursor, EntityType, type_name,
}
use project1_iot_server.Twin.Plain.{parse_entity_urn-Accepted, Plain}
use project1_iot_server.Twin.Documented.{
  encode_json-Fit, decode_cursor_bytes-Fit, value-Safe, object_text-Safe, IsDocumented,
  length-object_text, Fit, quoted, PlainValue,
}
use project1_iot_server.Twin.Cursor.{
  list_cursor_of, validate_list_cursor, parse_list_cursor, decode_list_cursor, unbound_id,
  decode_members, raw_val, entity_type_val,
}
use project1_iot_server.Twin.Cursor.Payload.{
  encode_json, decode_cursor_bytes, cursor_version_prefix, encode_list_cursor, object_text,
  CursorLib, json_or_null, name_of, differs_id, differs_type,
}
use project1_iot_server.Prelude.{
  ◌≤◌, ◌≡◌, refl, sym, ap, ◌∙◌, Bool, Option, none, some, [], ◌∷◌, ◌++◌, arith, some_inj, length,
  Bytes, codes, bytes_eq,
}
use project1_iot_server.Twin.Filters.{
  own, list_members, own_id_agrees, own_type_agrees, own_id_agrees-Plain, own_type_val,
  value_length, type_short, own_short, name_own,
}

marshal_value :
    {lib : CursorLib}
    → IsDocumented lib
    → (x : Option Bytes) → PlainValue x
    → json_or_null lib.marshal x ≡ json_or_null quoted x
marshal_value d none h = refl
marshal_value d (some s) h = d.marshal_plain s h

abbrev list_json : Bytes → Option Bytes → Option Bytes → Bytes
list_json k g t =
    object_text (codes "k") (quoted k) (codes "g") (json_or_null quoted g) (codes "t")
      (json_or_null quoted t)

list_json-Fit :
    (k : Bytes) (g t : Option Bytes)
    → Plain k
    → PlainValue g
    → PlainValue t
    → length k ≤ 160
    → length (json_or_null quoted g) ≤ 66
    → length (json_or_null quoted t) ≤ 9
    → Fit (list_json k g t)
list_json-Fit k g t hk hg ht lk lg lt =
    let size =
      length-object_text (codes "k") (quoted k) (codes "g") (json_or_null quoted g) (codes "t")
        (json_or_null quoted t) in
    let kq =
      value_length (some k) 160 (omega arith)
        (λ s e. subst (λ (x : Bytes). length x ≤ 160) (some_inj e) lk) in
    (
      object_text-Safe (codes "k") (quoted k) (codes "g") _ (codes "t") _ refl
          (value-Safe (some k) hk) refl (value-Safe g hg) refl (value-Safe t ht),
      omega arith,
      omega arith,
    )

members_cursor :
    (k : Bytes) (g t : Option Bytes) (u : Option EntityType) (p : ParsedIdentity)
    → parse_entity_urn k ≡ done p
    → p.urn ≡ k
    → entity_type_val t ≡ done u
    → list_cursor_of ((codes "t", t) ∷ (codes "g", g) ∷ (codes "k", some k) ∷ [])
      ≡ done (record { entity_id = k; gateway_id = g; entity_type = u })
unfolding list_cursor_of bytes_eq
members_cursor k g t u p parsed same val =
    yields (or_fail invalid_cursor (parse_entity_urn k)) _ p (ap (or_fail invalid_cursor) parsed) (
      yields (entity_type_val t) _ u val
        (ap (λ x. done (record { entity_id = x; gateway_id = g; entity_type = u })) same))

module _ {lib : CursorLib} (d : IsDocumented lib) (k : Bytes) (p : ParsedIdentity)
    (parsed : parse_entity_urn k ≡ done p) (by_id by_type : Bool) where
  own-Fit : Fit (list_json k (own by_id p.gateway_id) (name_of (own by_type p.kind)))
  own-Fit =
      let a = parse_entity_urn-Accepted k p parsed in
      list_json-Fit k (own by_id p.gateway_id) (name_of (own by_type p.kind)) a.plain
        (own_id_agrees-Plain by_id p.gateway_id a.id_plain) (own_type_val by_type p.kind a.known).0
        a.short
        (value_length (own by_id p.gateway_id) 64 (omega arith)
          (own_short by_id p.gateway_id 64 a.id_short))
        (subst (λ (x : Option Bytes). length (json_or_null quoted x) ≤ 9)
          (sym (name_own by_type p.kind))
          (value_length (own by_type (type_name p.kind)) 7 (omega arith)
            (own_short by_type (type_name p.kind) 7 (type_short p.kind a.known))))

  encoded :
      encode_list_cursor lib k (own by_id p.gateway_id) (own by_type p.kind)
      ≡ done (
          cursor_version_prefix
          ++ lib.encode_base64
              (list_json k (own by_id p.gateway_id) (name_of (own by_type p.kind))))
  unfolding encode_list_cursor
  encoded =
      let a = parse_entity_urn-Accepted k p parsed in
      let g = own by_id p.gateway_id in
      let t = name_of (own by_type p.kind) in
      yields (or_fail invalid_cursor (parse_entity_urn k)) _ p (ap (or_fail invalid_cursor) parsed)
        (passes invalid_cursor (differs_id g p.gateway_id) _ (own_id_agrees by_id p.gateway_id).0 (
          passes invalid_cursor (differs_type (own by_type p.kind) p.kind) _
            (own_type_agrees by_type p.kind).0
            (ap
                (λ x. encode_json lib (
                  object_text (codes "k") x (codes "g") (json_or_null lib.marshal g) (codes "t")
                    (json_or_null lib.marshal t)))
                (d.marshal_plain k a.plain)
              ∙ ap
                  (λ x. encode_json lib (
                    object_text (codes "k") (quoted k) (codes "g") x (codes "t")
                      (json_or_null lib.marshal t)))
                  (marshal_value d g (own_id_agrees-Plain by_id p.gateway_id a.id_plain))
              ∙ ap
                  (λ x. encode_json lib (
                    object_text (codes "k") (quoted k) (codes "g") (json_or_null quoted g)
                      (codes "t") x))
                  (marshal_value d t (own_type_val by_type p.kind a.known).0)
              ∙ encode_json-Fit d _ own-Fit)))

  decoded :
      decode_list_cursor lib (
        cursor_version_prefix
        ++ lib.encode_base64 (list_json k (own by_id p.gateway_id) (name_of (own by_type p.kind))))
      ≡ done (record {
        entity_id = k;
        gateway_id = own by_id p.gateway_id;
        entity_type = own by_type p.kind;
      })
  unfolding decode_list_cursor
  decoded =
      let a = parse_entity_urn-Accepted k p parsed in
      let g = own by_id p.gateway_id in
      let t = name_of (own by_type p.kind) in
      let g_plain = own_id_agrees-Plain by_id p.gateway_id a.id_plain in
      let (t_plain, t_val) = own_type_val by_type p.kind a.known in
      yields
        (decode_cursor_bytes lib (cursor_version_prefix ++ lib.encode_base64 (list_json k g t))) _
        (list_json k g t) (decode_cursor_bytes-Fit d _ own-Fit)
        (yields
          (decode_members (codes "k" ∷ codes "g" ∷ codes "t" ∷ []) raw_val
            (lib.tokens (list_json k g t)))
          _ ((codes "t", t) ∷ (codes "g", g) ∷ (codes "k", some k) ∷ [])
          (ap (decode_members (codes "k" ∷ codes "g" ∷ codes "t" ∷ []) raw_val) (
              d.tokens_plain (codes "k") (codes "g") (codes "t") (some k) g t refl refl refl a.plain
                g_plain t_plain)
            ∙ list_members (some k) g t a.plain g_plain t_plain)
          (members_cursor k g t (own by_type p.kind) p parsed a.same t_val))

  bound :
      validate_list_cursor
        (record {
          entity_id = k;
          gateway_id = own by_id p.gateway_id;
          entity_type = own by_type p.kind;
        })
        (own by_id p.gateway_id)
        (own by_type p.kind)
      ≡ done tt
  unfolding validate_list_cursor
  bound =
      yields (or_fail invalid_cursor (parse_entity_urn k)) _ p (ap (or_fail invalid_cursor) parsed)
        (passes invalid_cursor
          (unbound_id (own by_id p.gateway_id) (own by_id p.gateway_id) p.gateway_id) _
          (own_id_agrees by_id p.gateway_id).1
          (ap (fail_when invalid_cursor) (own_type_agrees by_type p.kind).1))

  -- For an accepted URN, and filters that are each absent or the entity's own Gateway and type, EncodeListCursor makes a cursor, and ParseListCursor with the same filters reads the URN and the filters back, where the base64, JSON and UTF-8 packages do what their documentation says.
  pub list_cursor_round_trip :
      (c : Bytes) × (encode_list_cursor lib k (own by_id p.gateway_id) (own by_type p.kind)
        ≡ done c)
      × (parse_list_cursor lib c (own by_id p.gateway_id) (own by_type p.kind)
          ≡ done (record {
            entity_id = k;
            gateway_id = own by_id p.gateway_id;
            entity_type = own by_type p.kind;
          }))
  unfolding parse_list_cursor
  list_cursor_round_trip =
      let c =
        cursor_version_prefix
        ++ lib.encode_base64
            (list_json k (own by_id p.gateway_id) (name_of (own by_type p.kind))) in
      (
        c,
        encoded,
        yields (decode_list_cursor lib c) _ _ decoded (
            ap
              (λ (v : Outcome TwinError (Unit {0})).
                v
                >> done (record {
                  entity_id = k;
                  gateway_id = own by_id p.gateway_id;
                  entity_type = own by_type p.kind;
                }))
              bound),
      )
