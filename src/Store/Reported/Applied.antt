-- ===== src/Store/Reported/Applied.antt =====
-- What one message writes into twin_states and twin_temporal_values.
use mathlib.Core.Path.{subst}
use project1_iot_server.Clock.{Time, after}
use project1_iot_server.Uuid.{Uuid, UuidLib, uuid_nil}
use project1_iot_server.Telemetry.Errors.{
  Error, ok, ◌>>◌, ◌>>=◌, or_error, reject_if, >>=-eq-ok, reject_if-eq-ok, ok_inj, opaque,
  dependency_error, reason, invalid_payload,
}
use project1_iot_server.Telemetry.Range.{max_exact_float64_integer}
use project1_iot_server.Telemetry.Message.{Message, last_sample}
use project1_iot_server.Telemetry.Model.{SampleCandidate}
use project1_iot_server.Store.Ledger.Cases.{run-eq-ok}
use project1_iot_server.Store.{
  advance_state, append_temporal, float, int, Db, Faults, TwinState, run,
}
use project1_iot_server.Store.Resources.{Resource}
use project1_iot_server.Store.Reported.{
  Object, get_key, merge, new_candidate, update_state, Candidate, state_advances, advance,
  next_state, apply_reported_state, append_interval, put_state,
}
use project1_iot_server.Store.Reported.Frame.{apply_parts}
use project1_iot_server.Store.Reported.Forward.{not_before, advances_time}
use project1_iot_server.Prelude.{
  ◌≡◌, refl, sym, ap, ◌∙◌, inl, inr, true, false, ◌||◌, ◌∷◌, Option, none, some, arith, Bool-cases,
  ℤ, pos, ltb_ℤ, leb_ℤ, eqb_ℤ, max_int64, ◌+ℤ◌, Bytes, codes, bytes_eq_refl, bytes_eq,
}

-- The keys of a reported state that hold the values of a sample. A state that is no object stays so.
abbrev pub Shows : SampleCandidate → ℤ → Option Object → Option Object → Type 0
Shows s interval none b = b ≡ none
Shows s interval (some o) b =
    (p : Object) × (b ≡ some p)
    × (get_key (codes "value") p ≡ some (float s.value))
    × (get_key (codes "sequence_num") p ≡ some (int s.sequence_num))
    × (get_key (codes "sample_interval_us") p ≡ some (int interval))

-- The row of an entity before and after a report of the sample `s`.
pub data Reports (s : SampleCandidate) (interval : ℤ) (a b : Option TwinState) : Type 0 where
  keeps :
      (x : TwinState) (t : Time)
      → a ≡ some x
      → b ≡ some x
      → x.last_reported_at ≡ some t
      → after s.measured_at t ≡ false
      → Reports s interval a b
  replaces :
      (x y : TwinState)
      → a ≡ some x
      → b ≡ some y
      → y.reported_version ≡ x.reported_version +ℤ pos 1
      → y.last_reported_at ≡ some s.measured_at
      → not_before x.last_reported_at (some s.measured_at) ≡ true
      → Shows s interval x.reported_state y.reported_state
      → Reports s interval a b

-- Only the row of `id` is touched.
pub record Reported (s : SampleCandidate) (interval : ℤ) (id : Uuid) (a b : Uuid → Option TwinState)
    : Type 0 where
  pub others : (j : Uuid) → bytes_eq j id ≡ false → b j ≡ a j
  pub own_row : Reports s interval (a id) (b id)

-- A candidate made of a sample.
record Presents (s : SampleCandidate) (interval : ℤ) (c : Candidate) : Type 0 where
  has_value : c.value ≡ s.value
  has_time : c.observed_at ≡ s.measured_at
  has_number : c.sequence_num ≡ s.sequence_num
  has_interval : c.sample_interval_us ≡ interval

new_candidate-Presents :
    (r : Resource) (m : Message) (s : SampleCandidate) (c : Candidate)
    → last_sample m ≡ some s
    → new_candidate r m ≡ ok c
    → Presents s m.batch.sample_interval_us c
unfolding new_candidate
new_candidate-Presents r m s c hs h =
    let made : SampleCandidate → Candidate = λ last. record {
      value = last.value;
      observed_at = last.measured_at;
      boot_id = last.boot_id;
      sequence_num = last.sequence_num;
      sample_interval_us = m.batch.sample_interval_us;
      unit = r.unit;
    } in
    let checked = λ (last : SampleCandidate).
      reject_if (leb_ℤ m.batch.sample_interval_us (pos 0))
        (reason invalid_payload "sample_interval_us")
      >> ok (made last) in
    let k : checked s ≡ ok c =
      sym (ap (λ o. or_error o (reason invalid_payload "message_samples") >>= checked) hs) ∙ h in
    let (_, same) =
      reject_if-eq-ok (leb_ℤ m.batch.sample_interval_us (pos 0))
        (reason invalid_payload "sample_interval_us") (ok (made s)) k in
    subst (Presents s m.batch.sample_interval_us) (ok_inj same)
      (record { has_value = refl; has_time = refl; has_number = refl; has_interval = refl })

stale_time :
    (u : UuidLib) (o : Option Object) (t : Option Time) (c : Candidate)
    → state_advances u o t c ≡ false
    → (at : Time) × (t ≡ some at) × (after c.observed_at at ≡ false)
unfolding state_advances
stale_time u o none c h = cc
stale_time u o (some t) c h = (t, refl, ground arith)

module _ (format_time : Time → Bytes) (u : UuidLib) where
  next_state-Shows :
      (s : SampleCandidate) (interval : ℤ) (c : Candidate) (x : TwinState) (o : Option Object)
      → x.reported_state ≡ o
      → Presents s interval c
      → Shows s interval o (next_state format_time u x c).reported_state
  unfolding next_state merge bytes_eq
  next_state-Shows s interval c x none e p = rw e refl
  next_state-Shows s interval c x (some o) e p = rw e (
    _,
    refl,
    ap (λ v. some (float v)) p.has_value,
    ap (λ n. some (int n)) p.has_number,
    ap (λ n. some (int n)) p.has_interval,
  )

  put-Reported :
      (s : SampleCandidate) (interval : ℤ) (states : Uuid → Option TwinState) (id : Uuid)
      (x : TwinState) (c : Candidate)
      → Presents s interval c
      → states id ≡ some x
      → state_advances u x.reported_state x.last_reported_at c ≡ true
      → Reported s interval id states (put_state states id (next_state format_time u x c))
  unfolding next_state
  put-Reported s interval states id x c p hx new = record {
    others = λ j h. rw h refl;
    own_row =
        replaces x (next_state format_time u x c) hx (rw (bytes_eq_refl id) refl) refl
          (ap some p.has_time)
          (subst (λ t. not_before x.last_reported_at (some t) ≡ true) p.has_time
            (advances_time u x.reported_state x.last_reported_at c new))
          (next_state-Shows s interval c x x.reported_state refl p);
  }

  update-Reported :
      (f : Faults) (db : Db) (id : Uuid) (c : Candidate) (o : Option TwinState) (db' : Db)
      (s : SampleCandidate) (interval : ℤ)
      → Presents s interval c
      → db.twin_states id ≡ o
      → update_state format_time u f db id c o ≡ ok db'
      → Reported s interval id db.twin_states db'.twin_states
  unfolding update_state advance
  update-Reported f db id c none db' s interval p ho h = absurd (ground arith)
  update-Reported f db id c (some x) db' s interval p ho h =
      let States = λ (d : Db). Reported s interval id db.twin_states d.twin_states in
      elim (Bool-cases (state_advances u x.reported_state x.last_reported_at c)) [
        | inr old ↦
            let k : db ≡ db' = ok_inj (ground (arith, old, h)) in
            let (t, ht, late) = stale_time u x.reported_state x.last_reported_at c old in
            subst States k (record {
              others = λ j other. refl;
              own_row = keeps x t ho ho ht (subst (λ at. after at t ≡ false) p.has_time late);
            })
        | inl new ↦
            let k : (run f advance_state "advance telemetry Sensor reported state"
                  >> advance format_time u db id x c)
                ≡ ok db' =
              ground (arith, new, h) in
            let (_, same) =
              reject_if-eq-ok (eqb_ℤ x.reported_version (pos max_int64))
                (dependency_error "advance telemetry Sensor reported state"
                  (opaque "bigint out of range"))
                (ok (record db {
                  twin_states = put_state db.twin_states id (next_state format_time u x c);
                }))
                (run-eq-ok f advance_state "advance telemetry Sensor reported state"
                  (advance format_time u db id x c) db' k) in
            subst States (ok_inj same) (put-Reported s interval db.twin_states id x c p ho new)
      ]

  pub apply-Reported :
      (f : Faults) (db : Db) (r : Resource) (m : Message) (db' : Db) (s : SampleCandidate)
      → last_sample m ≡ some s
      → apply_reported_state format_time u f db r m ≡ ok db'
      → Reported s m.batch.sample_interval_us r.entity_id db.twin_states db'.twin_states
  apply-Reported f db r m db' s hs h =
      let (c, hc, k) = apply_parts format_time u f db r m db' h in
      update-Reported f db r.entity_id c (db.twin_states r.entity_id) db' s
        m.batch.sample_interval_us (new_candidate-Presents r m s c hs hc) refl k

or_error-some : {A : Type 0} (e : Error) (o : Option A) {s : A} → or_error o e ≡ ok s → o ≡ some s
or_error-some e none h = cc
or_error-some e (some x) h = ap some (ok_inj h)

-- The observation of a message.
pub append_row :
    (f : Faults) (db : Db) (r : Resource) (m : Message) (db' : Db)
    → append_interval f db r m ≡ ok db'
    → (s : SampleCandidate) × (last_sample m ≡ some s)
      × (db'.temporal
          ≡ record {
            observed_at = s.measured_at;
            entity_id = r.entity_id;
            value_number = m.batch.sample_interval_us;
            boot_id = s.boot_id;
            message_id = s.message_id;
          }
            ∷ db.temporal)
unfolding append_interval
append_row f db r m db' h =
    let row : SampleCandidate → Db = λ last. record db {
      temporal =
          record {
            observed_at = last.measured_at;
            entity_id = r.entity_id;
            value_number = m.batch.sample_interval_us;
            boot_id = last.boot_id;
            message_id = last.message_id;
          }
          ∷ db.temporal;
    } in
    let bad =
      leb_ℤ m.batch.sample_interval_us (pos 0)
      || ltb_ℤ (pos max_exact_float64_integer) m.batch.sample_interval_us in
    let inserted = λ (last : SampleCandidate).
      run f append_temporal "append telemetry Sensor temporal value" >> ok (row last) in
    let rest = λ (last : SampleCandidate).
      reject_if bad (reason invalid_payload "sample_interval_us") >> inserted last in
    let found = or_error (last_sample m) (reason invalid_payload "message_samples") in
    let (_, h1) =
      reject_if-eq-ok (bytes_eq r.entity_id uuid_nil) (reason invalid_payload "entity_id")
        (found >>= rest) h in
    let (s, hs, h2) = >>=-eq-ok found rest h1 in
    let (_, h3) =
      reject_if-eq-ok bad (reason invalid_payload "sample_interval_us") (inserted s) h2 in
    let same =
      ok_inj (
        run-eq-ok f append_temporal "append telemetry Sensor temporal value" (ok (row s)) db' h3) in
    (s, or_error-some _ (last_sample m) hs, sym (ap (λ (d : Db). d.temporal) same))
