-- ===== src/ReadBounds/Loaded.antt =====
-- The loaded bounds of src/internal/config/read_bounds.go, and the validators of the services.
use mathlib.Core.Path.{subst}
use project1_iot_server.Outcome.{Outcome, done, ◌>>◌, >>-eq-done, >>=-eq-done, done_inj}
use project1_iot_server.History.{reply}
use project1_iot_server.History.Service.{validate_config}
use project1_iot_server.Twin.Read.{validate_read_preparation_config}
use project1_iot_server.ReadBounds.{
  HistoryConfig, TwinConfig, ConfigLib, validate_history_config, validate_twin_config,
  parse_read_duration, parse_positive_int, default_history_config, default_twin_config,
  load_history, load_twin, to_telemetry_preparation_config, to_read_preparation_config,
}
use project1_iot_server.Prelude.{◌≡◌, false, arith, ℤ, pos, ◌≤ℤ◌, ltb_ℤ, codes}
use project1_iot_server.ReadBounds.Bounds.{
  HistoryBounds, history_bounds, LimitBounds, twin_bounds, telemetry_passes, read_passes,
}

-- A check at the end of a loader.
checked :
    {E : Type 0} {C : Type 0} (check : C → Outcome E (Unit {0})) (c d : C)
    → (check c >> done c) ≡ done d
    → check d ≡ done tt
checked check c d h =
    let (h1, r1) = >>-eq-done (check c) (done c) h in
    subst (λ x. check x ≡ done tt) (done_inj r1) h1

pub loaded_history :
    (lib : ConfigLib) (c : HistoryConfig) → load_history lib ≡ done c → HistoryBounds c
unfolding load_history
loaded_history lib c h =
    let d = default_history_config in
    let (a1, e1, r1) =
      >>=-eq-done (parse_read_duration lib (codes "HISTORY_QUERY_TIMEOUT") d.query_timeout) _ h in
    let (a2, e2, r2) =
      >>=-eq-done (parse_read_duration lib (codes "HISTORY_MAX_RANGE") d.max_range) _ r1 in
    let (a3, e3, r3) =
      >>=-eq-done (parse_read_duration lib (codes "HISTORY_RAW_WINDOW") d.raw_window) _ r2 in
    let (a4, e4, r4) =
      >>=-eq-done (parse_positive_int lib (codes "HISTORY_DEFAULT_POINTS") d.default_points) _ r3 in
    let (a5, e5, r5) =
      >>=-eq-done (parse_positive_int lib (codes "HISTORY_MAX_POINTS") d.max_points) _ r4 in
    let (a6, e6, r6) =
      >>=-eq-done (parse_positive_int lib (codes "HISTORY_MIN_POINTS") d.min_points) _ r5 in
    history_bounds c (
      checked validate_history_config
        (record {
          query_timeout = a1;
          max_range = a2;
          raw_window = a3;
          default_points = a4;
          max_points = a5;
          min_points = a6;
        })
        c r6)

pub loaded_twin :
    (lib : ConfigLib) (c : TwinConfig)
    → load_twin lib ≡ done c
    → LimitBounds c.list_default_limit c.list_max_limit
      × LimitBounds c.relationship_default_limit c.relationship_max_limit
unfolding load_twin
loaded_twin lib c h =
    let d = default_twin_config in
    let (a1, e1, r1) =
      >>=-eq-done (parse_positive_int lib (codes "TWIN_LIST_DEFAULT_LIMIT") d.list_default_limit) _
        h in
    let (a2, e2, r2) =
      >>=-eq-done (parse_positive_int lib (codes "TWIN_LIST_MAX_LIMIT") d.list_max_limit) _ r1 in
    let (a3, e3, r3) =
      >>=-eq-done
        (parse_positive_int lib (codes "TWIN_RELATIONSHIP_DEFAULT_LIMIT")
          d.relationship_default_limit)
        _ r2 in
    let (a4, e4, r4) =
      >>=-eq-done
        (parse_positive_int lib (codes "TWIN_RELATIONSHIP_MAX_LIMIT") d.relationship_max_limit) _
        r3 in
    twin_bounds c (
      checked validate_twin_config
        (record {
          list_default_limit = a1;
          list_max_limit = a2;
          relationship_default_limit = a3;
          relationship_max_limit = a4;
        })
        c r4)

ordered : (a b : ℤ) → ltb_ℤ b a ≡ false → a ≤ℤ b
ordered a b h = ground arith

-- When the history and the twin settings load, whatever the environment holds, the configurations that they are mapped to pass ValidateHistoryPreparationConfig and ValidateReadPreparationConfig, and the default number of points and the two default limits lie between their bounds.
pub loaded_configs_pass :
    (lib : ConfigLib) (h : HistoryConfig) (t : TwinConfig)
    → load_history lib ≡ done h
    → load_twin lib ≡ done t
    → (validate_config (to_telemetry_preparation_config h) ≡ reply tt)
      × (validate_read_preparation_config (to_read_preparation_config t h) ≡ done tt)
      × (h.min_points ≤ℤ h.default_points)
      × (h.default_points ≤ℤ h.max_points)
      × (pos 1 ≤ℤ t.list_default_limit)
      × (t.list_default_limit ≤ℤ t.list_max_limit)
      × (pos 1 ≤ℤ t.relationship_default_limit)
      × (t.relationship_default_limit ≤ℤ t.relationship_max_limit)
loaded_configs_pass lib h t p q =
    let b = loaded_history lib h p in
    let (l, r) = loaded_twin lib t q in
    (
      telemetry_passes h b,
      read_passes t h l r b,
      ordered h.min_points h.default_points b.between,
      ordered h.default_points h.max_points b.most.1,
      ordered (pos 1) t.list_default_limit l.0,
      ordered t.list_default_limit t.list_max_limit l.2,
      ordered (pos 1) t.relationship_default_limit r.0,
      ordered t.relationship_default_limit t.relationship_max_limit r.2,
    )
