-- ===== src/Query/Temporal/Methods.antt =====
-- The presentation that ParseTemporalHistoryQuery chooses.
use mathlib.Core.Path.{subst}
use project1_iot_server.History.{Resolution, raw}
use project1_iot_server.Json.{mem}
use project1_iot_server.Outcome.{done, fail_when-eq-done, >>=-eq-done, done_inj, from_option}
use project1_iot_server.Twin.Plain.{test_passed}
use project1_iot_server.Query.Raw.{QueryLib, Params, bad_request, bad_resolution}
use project1_iot_server.Twin.Cursor.{find_key}
use project1_iot_server.Query.Temporal.{
  Shape, temporal_shape, Format, temporal_values, aggregated_values, all_methods, set_value,
  canonical_resolution, period_of, read_methods, bucket_methods, methods_of, fits_format,
  format_for, format_named, format_of, is_set,
}
use project1_iot_server.Prelude.{
  ◌≡◌, refl, sym, ◌∙◌, Bool, true, false, not, ◌&&◌, ◌||◌, Option, none, some, List, [], ◌∷◌, arith,
  and_parts, all, any, Bytes, codes, is_empty, bytes_eq, split_on,
}

unfoldable pub no_repeats : List Bytes → Bool
no_repeats [] = true
no_repeats (m ∷ ms) = not (any (λ x. bytes_eq x m) ms) && no_repeats ms

-- Methods that the contract knows, each at most once.
abbrev pub Chosen : List Bytes → Type 0
Chosen ms = (all (λ m. mem m all_methods) ms ≡ true) × (no_repeats ms ≡ true)

abbrev fresh : List Bytes → List Bytes → Bool
fresh seen ms = all (λ m. not (mem m seen)) ms

-- What is fresh for one more method is fresh, and lacks that method.
fresh_parts :
    (t : Bytes) (seen ms : List Bytes)
    → fresh (t ∷ seen) ms ≡ true
    → (fresh seen ms ≡ true) × (any (λ x. bytes_eq x t) ms ≡ false)
fresh_parts t seen [] h = (refl, refl)
fresh_parts t seen (m ∷ ms) h =
    let (first, rest) = and_parts (not (mem m (t ∷ seen))) (fresh (t ∷ seen) ms) h in
    let (more, lacks) = fresh_parts t seen ms rest in
    joined (bytes_eq m t) (mem m seen) (fresh seen ms) (any (λ x. bytes_eq x t) ms) first more lacks
  where
    joined :
        (a b c d : Bool)
        → not (a || b) ≡ true
        → c ≡ true
        → d ≡ false
        → ((not b && c) ≡ true) × ((a || d) ≡ false)
    joined a b c d h k l = (ground arith, ground arith)

read_methods-Chosen :
    (trim : Bytes → Bytes) (seen tokens ms : List Bytes)
    → read_methods trim seen tokens ≡ done ms
    → (fresh seen ms ≡ true) × Chosen ms
unfolding read_methods no_repeats
read_methods-Chosen trim seen [] ms h =
    subst (λ x. (fresh seen x ≡ true) × Chosen x) (done_inj h) (refl, (refl, refl))
read_methods-Chosen trim seen (token ∷ tokens) ms h =
    let t = trim token in
    let (h1, r1) =
      fail_when-eq-done bad_request (is_empty t || mem t seen || not (mem t all_methods)) _ h in
    let (more, e2, r2) = >>=-eq-done (read_methods trim (t ∷ seen) tokens) _ r1 in
    let (apart, (known, single)) = read_methods-Chosen trim (t ∷ seen) tokens more e2 in
    let (rest, lacks) = fresh_parts t seen more apart in
    subst (λ x. (fresh seen x ≡ true) × Chosen x) (done_inj r2)
      (joined (is_empty t) (mem t seen) (mem t all_methods) (fresh seen more)
        (all (λ m. mem m all_methods) more) (any (λ x. bytes_eq x t) more) (no_repeats more) h1 rest
        known lacks single)
  where
    joined :
        (a b c d k l n : Bool)
        → (a || b || not c) ≡ false
        → d ≡ true
        → k ≡ true
        → l ≡ false
        → n ≡ true
        → ((not b && d) ≡ true) × (((c && k) ≡ true) × ((not l && n) ≡ true))
    joined a b c d k l n h1 h2 h3 h4 h5 = (ground arith, (ground arith, ground arith))

bucket_methods-Chosen :
    (trim : Bytes → Bytes) (s : Option Bytes) (ms : List Bytes)
    → bucket_methods trim s ≡ done ms
    → Chosen ms
unfolding no_repeats bytes_eq
bucket_methods-Chosen trim none ms h = subst Chosen (done_inj h) (refl, refl)
bucket_methods-Chosen trim (some s) ms h = (read_methods-Chosen trim [] (split_on b',' s) ms h).1

-- The presentation of a query: samples without methods, or buckets with methods that are chosen.
pub data Presents : Resolution → Format → List Bytes → Type 0 where
  samples : Presents raw temporal_values []
  buckets :
      {res : Resolution} {ms : List Bytes} (duration : Bytes)
      → canonical_resolution duration ≡ some res
      → Chosen ms
      → Presents res aggregated_values ms

format_fits : (b : Bool) (s : Option Bytes) (f : Format) → format_of b s ≡ done f → f ≡ format_for b
unfolding format_of
format_fits b none f h = sym (done_inj h)
format_fits b (some s) f h =
    let (g, e1, r1) = >>=-eq-done (from_option bad_request (format_named s)) _ h in
    let (h2, r2) = fail_when-eq-done bad_request (not (fits_format b g)) _ r1 in
    sym (done_inj r2) ∙ only b g (test_passed _ h2)
  where
    only : (b : Bool) (f : Format) → fits_format b f ≡ true → f ≡ format_for b
    only true aggregated_values h = refl
    only false temporal_values h = refl
    only true temporal_values h = cc
    only false aggregated_values h = cc

raw-Presents :
    (trim : Bytes → Bytes) (method_val format_val : Option Bytes) (ms : List Bytes) (f : Format)
    → methods_of trim false method_val ≡ done ms
    → format_of false format_val ≡ done f
    → Presents raw f ms
unfolding methods_of
raw-Presents trim method_val format_val ms f m k =
    let (h1, r1) = fail_when-eq-done bad_request (is_set method_val) _ m in
    subst (λ (g : Format). Presents raw g ms) (sym (format_fits false format_val f k))
      (subst (λ (x : List Bytes). Presents raw temporal_values x) (done_inj r1) samples)

bucket-Presents :
    (trim : Bytes → Bytes) (duration : Bytes) (method_val format_val : Option Bytes)
    (res : Resolution) (ms : List Bytes) (f : Format)
    → canonical_resolution duration ≡ some res
    → methods_of trim true method_val ≡ done ms
    → format_of true format_val ≡ done f
    → Presents res f ms
unfolding methods_of
bucket-Presents trim duration method_val format_val res ms f e m k =
    subst (λ (g : Format). Presents res g ms) (sym (format_fits true format_val f k))
      (buckets duration e (bucket_methods-Chosen trim (set_value method_val) ms m))

pub from_option-eq-done :
    {E : Type 0} {V : Type 0} (e : E) (o : Option V) {v : V} → from_option e o ≡ done v → o ≡ some v
from_option-eq-done e none h = cc
from_option-eq-done e (some w) h = cc

pub presentation :
    (trim : Bytes → Bytes) (period method_val format_val : Option Bytes) (res : Resolution)
    (b : Bool) (ms : List Bytes) (f : Format)
    → period_of period ≡ done (res, b)
    → methods_of trim b method_val ≡ done ms
    → format_of b format_val ≡ done f
    → Presents res f ms
unfolding period_of
presentation trim none method_val format_val res b ms f p m k =
    subst
      (λ (x : Resolution × Bool).
        methods_of trim x.1 method_val ≡ done ms
        → format_of x.1 format_val ≡ done f
        → Presents x.0 f ms)
      (done_inj p) (λ m' k'. raw-Presents trim method_val format_val ms f m' k') m k
presentation trim (some duration) method_val format_val res b ms f p m k =
    let (r, e, q) = >>=-eq-done (from_option bad_resolution (canonical_resolution duration)) _ p in
    subst
      (λ (x : Resolution × Bool).
        methods_of trim x.1 method_val ≡ done ms
        → format_of x.1 format_val ≡ done f
        → Presents x.0 f ms)
      (done_inj q)
      (λ m' k'.
        bucket-Presents trim duration method_val format_val r ms f
          (from_option-eq-done bad_resolution (canonical_resolution duration) e) m' k')
      m k

pub shape-Presents :
    (lib : QueryLib) (params : Params) (shape : Shape)
    → temporal_shape lib params ≡ done shape
    → Presents shape.resolution shape.shape_format shape.methods
unfolding temporal_shape
shape-Presents lib params shape h =
    let duration = set_value (find_key (codes "aggrPeriodDuration") params) in
    let (period, e1, r1) = >>=-eq-done (period_of duration) _ h in
    let (methods, e2, r2) =
      >>=-eq-done (methods_of lib.trim_space period.1 (find_key (codes "aggrMethods") params)) _
        r1 in
    let (format, e3, r3) =
      >>=-eq-done (format_of period.1 (set_value (find_key (codes "format") params))) _ r2 in
    subst (λ (x : Shape). Presents x.resolution x.shape_format x.methods) (done_inj r3)
      (presentation lib.trim_space duration (find_key (codes "aggrMethods") params)
        (set_value (find_key (codes "format") params)) period.0 period.1 methods format e1 e2 e3)
