-- ===== src/Query/Temporal/Prepared.antt =====
-- The queries that ParseTemporalHistoryQuery accepts, and PrepareHistory of
-- src/internal/digitaltwin/read_preparation.go.
use mathlib.Core.Path.{subst}
use project1_iot_server.Uuid.{Uuid, uuid_nil}
use project1_iot_server.ReadBounds.{
  TwinConfig, ConfigLib, load_history, to_read_preparation_config, HistoryConfig,
}
use project1_iot_server.ReadBounds.Loaded.{loaded_history}
use project1_iot_server.Outcome.{
  ◌>>=◌, done, fail_when-eq-done, >>=-eq-done, done_inj, or_fail, or_fail-eq-done,
}
use project1_iot_server.History.{Resolution}
use project1_iot_server.ReadBounds.Bounds.{HistoryBounds}
use project1_iot_server.Twin.{
  EntityType, gateway, sensor, other_type, same_type, ParsedIdentity, parse_entity_urn,
}
use project1_iot_server.Twin.Cursor.{find_key}
use project1_iot_server.Twin.Cursor.Payload.{has_byte}
use project1_iot_server.Twin.Plain.{parse_entity_urn-Accepted}
use project1_iot_server.Twin.Read.{
  validate_twin_history_query, TwinHistoryQuery, HistorySelector, valid_selector,
}
use project1_iot_server.Twin.Read.Prepared.{
  Ended, Resolver, resolve_entity, mapped_range, effective_window, prepare_history,
}
use project1_iot_server.Query.{Window, checked_window, twin_query}
use project1_iot_server.Query.Raw.{
  Params, QueryLib, bad_request, bad_entity, bad_property, parse_raw_query, required, points_of,
}
use project1_iot_server.Query.Passed.{Passing, checked_window-Passing, points_of-within}
use project1_iot_server.Query.Temporal.{
  Shape, temporal_attr, temporal_range, temporal_shape, temporal_answer,
  TemporalPresentationOptions, PublicAttr, allowed_keys, attr_of, parse_temporal_history_query,
}
use project1_iot_server.Query.Temporal.Methods.{shape-Presents, Presents, from_option-eq-done}
use project1_iot_server.Prelude.{
  ◌≡◌, refl, sym, ap, ◌∙◌, ◌⊎◌, inl, inr, true, false, some, arith, ℤ, pos, ltb_ℤ, leb_ℤ, Bytes,
  codes, bytes_eq_refl, bytes_eq,
}

attr_of-valid :
    (s : Bytes) (x : HistorySelector × PublicAttr) → attr_of s ≡ some x → valid_selector x.0 ≡ true
unfolding attr_of
attr_of-valid s (HistorySelector.by_value, a) h = refl
attr_of-valid s (HistorySelector.by_sample_interval_us, a) h = refl
attr_of-valid s (HistorySelector.other_selector t, a) h = ground arith

not_gateway :
    (k : EntityType) → (k ≡ gateway) ⊎ (k ≡ sensor) → same_type k gateway ≡ false → k ≡ sensor
unfolding same_type bytes_eq
not_gateway gateway known h = cc
not_gateway sensor known h = refl
not_gateway (other_type s) (inl e) h = cc
not_gateway (other_type s) (inr e) h = cc

is_sensor : (k : EntityType) → k ≡ sensor → same_type k sensor ≡ true
unfolding same_type
is_sensor k e = ap (λ x. same_type x sensor) e ∙ bytes_eq_refl (codes "Sensor")

-- What an accepted temporal query is made of.
pub record Accepts (c : HistoryConfig) (entity : Bytes)
    (x : TwinHistoryQuery × TemporalPresentationOptions) : Type 0 where
  pub identity : ParsedIdentity
  pub identity_parsed : parse_entity_urn entity ≡ done identity
  pub of_sensor : identity.kind ≡ sensor
  pub selector : HistorySelector
  pub selects : valid_selector selector ≡ true
  pub window : Window
  pub passing : Passing c window
  pub same_query : x.0 ≡ twin_query entity selector window
  pub presents : Presents window.resolution x.1.format x.1.aggr_methods

attr-valid :
    (params : Params) (x : HistorySelector × PublicAttr)
    → temporal_attr params ≡ done x
    → valid_selector x.0 ≡ true
unfolding temporal_attr
attr-valid params x h =
    let (attrs, e1, r1) = >>=-eq-done (required (find_key (codes "attrs") params)) _ h in
    let (h2, r2) = fail_when-eq-done bad_request (has_byte b',' attrs) _ r1 in
    attr_of-valid attrs x (from_option-eq-done bad_property (attr_of attrs) r2)

answer-Accepts :
    (c : HistoryConfig) (entity : Bytes) (p : ParsedIdentity)
    (chosen : HistorySelector × PublicAttr) (shape : Shape) (w : Window)
    → parse_entity_urn entity ≡ done p
    → same_type p.kind gateway ≡ false
    → valid_selector chosen.0 ≡ true
    → Presents shape.resolution shape.shape_format shape.methods
    → Passing c w × (w.resolution ≡ shape.resolution)
    → Accepts c entity (temporal_answer entity chosen shape w)
unfolding temporal_answer
answer-Accepts c entity p chosen shape w parsed other selects presents (passing, res) = record {
  identity = p;
  identity_parsed = parsed;
  of_sensor = not_gateway p.kind (parse_entity_urn-Accepted entity p parsed).known other;
  selector = chosen.0;
  selects = selects;
  window = w;
  passing = passing;
  same_query = refl;
  presents =
      subst (λ (y : Resolution). Presents y shape.shape_format shape.methods) (sym res) presents;
}

accepted :
    (lib : QueryLib) (c : HistoryConfig) (raw_query entity : Bytes)
    (x : TwinHistoryQuery × TemporalPresentationOptions)
    → HistoryBounds c
    → parse_temporal_history_query lib c raw_query entity ≡ done x
    → Accepts c entity x
unfolding parse_temporal_history_query
accepted lib c raw_query entity x b h =
    let (p, e1, r1) = >>=-eq-done (or_fail bad_entity (parse_entity_urn entity)) _ h in
    let (h2, r2) = fail_when-eq-done bad_property (same_type p.kind gateway) _ r1 in
    let (params, e3, r3) = >>=-eq-done (parse_raw_query lib raw_query allowed_keys) _ r2 in
    let (chosen, e4, r4) = >>=-eq-done (temporal_attr params) _ r3 in
    let (range, e5, r5) = >>=-eq-done (temporal_range lib params) _ r4 in
    let (shape, e6, r6) = >>=-eq-done (temporal_shape lib params) _ r5 in
    let (points, e7, r7) =
      >>=-eq-done (points_of lib c (find_key (codes "max_points") params)) _ r6 in
    let (w, e8, r8) = >>=-eq-done (checked_window c range.0 range.1 shape.resolution points) _ r7 in
    let parsed = or_fail-eq-done bad_entity (parse_entity_urn entity) e1 in
    let passing =
      checked_window-Passing c range.0 range.1 shape.resolution points w
        (points_of-within lib c (find_key (codes "max_points") params) points b e7) e8 in
    subst (Accepts c entity) (done_inj r8) (
      answer-Accepts c entity p chosen shape w parsed h2 (attr-valid params chosen e4)
        (shape-Presents lib params shape e6) passing)

window_kept : (c : HistoryConfig) → HistoryBounds c → effective_window c.raw_window ≡ c.raw_window
window_kept c b = kept c.raw_window b.window.0 b.window.1
  where
    kept :
        (w : ℤ)
        → leb_ℤ w (pos 0) ≡ false
        → ltb_ℤ (pos 10000000000) w ≡ false
        → effective_window w ≡ w
    kept w h k = ground arith

-- A query for a Sensor with a window that passes.
checks_pass :
    (t : TwinConfig) (c : HistoryConfig) (entity : Bytes) (selector : HistorySelector) (w : Window)
    (p : ParsedIdentity) (resolver : Resolver) (e : Ended) (actor : Uuid)
    → HistoryBounds c
    → parse_entity_urn entity ≡ done p
    → p.kind ≡ sensor
    → valid_selector selector ≡ true
    → Passing c w
    → bytes_eq actor uuid_nil ≡ false
    → prepare_history
        (to_read_preparation_config t c)
        resolver
        e
        actor
        (twin_query entity selector w)
      ≡ (resolve_entity resolver e actor p >>= λ found.
          done
            (found, record (twin_query entity selector w) { effective_raw_window = c.raw_window }))
unfolding prepare_history validate_twin_history_query twin_query mapped_range
checks_pass t c entity selector w p resolver e actor b parsed k selects passing known = rw known (
    rw parsed (
      rw (is_sensor p.kind k) (
        rw selects
          (rw passing.points_within (rw (window_kept c b) (rw passing.valid_range refl))))))

-- A temporal query that ParseTemporalHistoryQuery accepts, with settings that LoadHistory has loaded, is for the URN of a Sensor; its format is temporalValues with raw samples and no aggregation methods, or aggregatedValues with the resolution of one of the nine durations and with methods of the contract, each at most once; and it passes every check of PrepareHistory under the configuration made of these settings: for an actor that is not nil, what is left to decide is the resolution of the entity, after which the callback gets the query with the configured raw window.
pub temporal_query_prepares :
    (config_lib : ConfigLib) (c : HistoryConfig) (t : TwinConfig) (lib : QueryLib)
    (raw_query entity : Bytes) (q : TwinHistoryQuery) (o : TemporalPresentationOptions)
    (resolver : Resolver) (e : Ended) (actor : Uuid)
    → load_history config_lib ≡ done c
    → parse_temporal_history_query lib c raw_query entity ≡ done (q, o)
    → bytes_eq actor uuid_nil ≡ false
    → (p : ParsedIdentity) × (parse_entity_urn entity ≡ done p)
      × (p.kind ≡ sensor)
      × Presents q.resolution o.format o.aggr_methods
      × (prepare_history (to_read_preparation_config t c) resolver e actor q ≡ (
          resolve_entity resolver e actor p >>= λ found.
          done (found, record q { effective_raw_window = c.raw_window })))
unfolding twin_query
temporal_query_prepares config_lib c t lib raw_query entity q o resolver e actor loaded parsed
      known =
    let b = loaded_history config_lib c loaded in
    let a = accepted lib c raw_query entity (q, o) b parsed in
    let same = sym a.same_query in
    (
      a.identity,
      a.identity_parsed,
      a.of_sensor,
      subst (λ (x : TwinHistoryQuery). Presents x.resolution o.format o.aggr_methods) same
          a.presents,
      subst
          (λ (x : TwinHistoryQuery).
            prepare_history (to_read_preparation_config t c) resolver e actor x ≡ (
              resolve_entity resolver e actor a.identity >>= λ found.
              done (found, record x { effective_raw_window = c.raw_window })))
          same
          (checks_pass t c entity a.selector a.window a.identity resolver e actor b
            a.identity_parsed a.of_sensor a.selects a.passing known),
    )
