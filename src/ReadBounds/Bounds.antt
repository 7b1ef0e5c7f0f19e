-- ===== src/ReadBounds/Bounds.antt =====
-- What the validators of src/internal/config/read_bounds.go pass, and that the services then pass it.
use project1_iot_server.Twin.{TwinError}
use project1_iot_server.Outcome.{Outcome, done, fail_when, fail_when-eq-done, passes}
use project1_iot_server.History.{Reply, reply, foreign}
use project1_iot_server.History
use project1_iot_server.History.Service.{validate_config}
use project1_iot_server.Twin.Read.{validate_read_preparation_config}
use project1_iot_server.ReadBounds.{
  HistoryConfig, TwinConfig, validate_history_config, validate_twin_config,
  to_telemetry_preparation_config, to_read_preparation_config,
}
use project1_iot_server.Prelude.{
  ℕ, ◌≡◌, refl, ap, Bool, true, false, ◌||◌, arith, ℤ, pos, ltb_ℤ, leb_ℤ,
}

-- The bounds of a configuration that ValidateHistoryConfig accepts.
pub record HistoryBounds (c : HistoryConfig) : Type 0 where
  pub timeout :
      (leb_ℤ c.query_timeout (pos 0) ≡ false) × (ltb_ℤ (pos 5000000000) c.query_timeout ≡ false)
  pub range :
      (leb_ℤ c.max_range (pos 0) ≡ false) × (ltb_ℤ (pos 2678400000000000) c.max_range ≡ false)
  pub window : (leb_ℤ c.raw_window (pos 0) ≡ false) × (ltb_ℤ (pos 10000000000) c.raw_window ≡ false)
  pub nested : ltb_ℤ c.max_range c.raw_window ≡ false
  pub least : (ltb_ℤ c.min_points (pos 100) ≡ false) × (ltb_ℤ (pos 2000) c.min_points ≡ false)
  pub between : ltb_ℤ c.default_points c.min_points ≡ false
  pub most : (ltb_ℤ (pos 2000) c.max_points ≡ false) × (ltb_ℤ c.max_points c.default_points ≡ false)

last_test : {E : Type 0} (e : E) (b : Bool) → fail_when e b ≡ done tt → b ≡ false
last_test e false h = refl
last_test e true h = cc

pub history_bounds : (c : HistoryConfig) → validate_history_config c ≡ done tt → HistoryBounds c
unfolding validate_history_config
history_bounds c h =
    let (h1, r1) = fail_when-eq-done 1 _ _ h in
    let (h2, r2) = fail_when-eq-done 2 _ _ r1 in
    let (h3, r3) = fail_when-eq-done 3 _ _ r2 in
    let (h4, r4) = fail_when-eq-done 4 _ _ r3 in
    let (h5, r5) = fail_when-eq-done 5 _ _ r4 in
    let (h6, r6) = fail_when-eq-done 6 _ _ r5 in
    let (h7, r7) = fail_when-eq-done 7 _ _ r6 in
    let (h8, r8) = fail_when-eq-done 8 _ _ r7 in
    let (h9, r9) = fail_when-eq-done 9 _ _ r8 in
    let (h10, r10) = fail_when-eq-done 10 _ _ r9 in
    let (h11, r11) = fail_when-eq-done 11 _ _ r10 in
    record {
      timeout = (h1, h2);
      range = (h3, h4);
      window = (h5, h6);
      nested = h7;
      least = (h8, h9);
      between = h10;
      most = (h11, last_test 12 _ r11);
    }

-- The limits of a configuration that ValidateTwinConfig accepts.
abbrev pub LimitBounds : ℤ → ℤ → Type 0
LimitBounds usual most =
    (ltb_ℤ usual (pos 1) ≡ false) × (ltb_ℤ (pos 200) most ≡ false) × (ltb_ℤ most usual ≡ false)

pub twin_bounds :
    (c : TwinConfig)
    → validate_twin_config c ≡ done tt
    → LimitBounds c.list_default_limit c.list_max_limit
      × LimitBounds c.relationship_default_limit c.relationship_max_limit
unfolding validate_twin_config
twin_bounds c h =
    let (h1, r1) = fail_when-eq-done 21 _ _ h in
    let (h2, r2) = fail_when-eq-done 22 _ _ r1 in
    let (h3, r3) = fail_when-eq-done 23 _ _ r2 in
    let (h4, r4) = fail_when-eq-done 24 _ _ r3 in
    let (h5, r5) = fail_when-eq-done 25 _ _ r4 in ((h1, h2, h3), (h4, h5, last_test 26 _ r5))

limit_passes :
    (usual most : ℤ) → LimitBounds usual most → (leb_ℤ most (pos 0) || ltb_ℤ (pos 200) most) ≡ false
limit_passes usual most b = ground arith

points_ordered :
    (least usual most : ℤ)
    → ltb_ℤ usual least ≡ false
    → ltb_ℤ most usual ≡ false
    → ltb_ℤ most least ≡ false
points_ordered least usual most h k = ground arith

pub telemetry_passes :
    (c : HistoryConfig)
    → HistoryBounds c
    → validate_config (to_telemetry_preparation_config c) ≡ reply tt
unfolding validate_config
telemetry_passes c b =
    let test = λ (n : ℕ) (t : Bool) (rest : Reply (Unit {0})) (p : t ≡ false) (q : rest ≡ reply tt).
      History.passes t (foreign n) rest p q in
    test 11 (leb_ℤ c.query_timeout (pos 0)) _ b.timeout.0 (
      test 12 (ltb_ℤ (pos 5000000000) c.query_timeout) _ b.timeout.1 (
        test 13 (leb_ℤ c.max_range (pos 0)) _ b.range.0 (
          test 14 (ltb_ℤ (pos 2678400000000000) c.max_range) _ b.range.1 (
            test 15 (leb_ℤ c.raw_window (pos 0)) _ b.window.0 (
              test 16 (ltb_ℤ (pos 10000000000) c.raw_window) _ b.window.1 (
                test 17 (ltb_ℤ c.max_range c.raw_window) _ b.nested (
                  test 18 (ltb_ℤ c.min_points (pos 100)) _ b.least.0 (
                    test 19 (ltb_ℤ (pos 2000) c.min_points) _ b.least.1 (
                      test 20 (ltb_ℤ (pos 2000) c.max_points) _ b.most.0 (
                        ap (λ t. History.fail_if t (foreign 21))
                          (points_ordered c.min_points c.default_points c.max_points b.between
                            b.most.1)))))))))))

pub read_passes :
    (t : TwinConfig) (c : HistoryConfig)
    → LimitBounds t.list_default_limit t.list_max_limit
    → LimitBounds t.relationship_default_limit t.relationship_max_limit
    → HistoryBounds c
    → validate_read_preparation_config (to_read_preparation_config t c) ≡ done tt
unfolding validate_read_preparation_config
read_passes t c l r b =
    let test =
      λ (n : ℕ) (x : Bool) (rest : Outcome TwinError (Unit {0})) (p : x ≡ false)
          (q : rest ≡ done tt).
        passes (TwinError.foreign n) x rest p q in
    test 1 (leb_ℤ c.query_timeout (pos 0)) _ b.timeout.0 (
      test 2 (ltb_ℤ (pos 5000000000) c.query_timeout) _ b.timeout.1 (
        test 3 (leb_ℤ t.list_max_limit (pos 0) || ltb_ℤ (pos 200) t.list_max_limit) _
          (limit_passes t.list_default_limit t.list_max_limit l)
          (test 4
            (leb_ℤ t.relationship_max_limit (pos 0) || ltb_ℤ (pos 200) t.relationship_max_limit) _
            (limit_passes t.relationship_default_limit t.relationship_max_limit r)
            (test 5 (leb_ℤ c.max_range (pos 0)) _ b.range.0 (
              test 6 (ltb_ℤ (pos 2678400000000000) c.max_range) _ b.range.1 (
                test 7 (leb_ℤ c.raw_window (pos 0)) _ b.window.0 (
                  test 8 (ltb_ℤ (pos 10000000000) c.raw_window) _ b.window.1 (
                    test 9 (ltb_ℤ c.max_range c.raw_window) _ b.nested (
                      test 10 (ltb_ℤ c.min_points (pos 100)) _ b.least.0 (
                        test 11 (ltb_ℤ (pos 2000) c.min_points) _ b.least.1 (
                          test 12 (ltb_ℤ (pos 2000) c.max_points) _ b.most.0 (
                            ap (fail_when (TwinError.foreign 13)) (
                              points_ordered c.min_points c.default_points c.max_points b.between
                                b.most.1)))))))))))))
