-- ===== src/Scheduler/Thinned/Retried.antt =====
-- The entries that processDueRetries of src/internal/gatewaysim/scheduler.go leaves.
use project1_iot_server.Clock.{Time, Duration, before}
use project1_iot_server.Uuid.{Uuid}
use project1_iot_server.Telemetry.Errors.{Error, Result, ok, err}
use project1_iot_server.Scheduler.{
  Entry, Scheduler, id_of, due_entries, due_entry, due_state, Due, failed_read, gone, kept,
  publishing, await_ack, backoff, EntryState, is_publishing, schedule_backoff, take_due,
  after_timeout,
}
use project1_iot_server.Scheduler.Thinned.{Thinned, thin_end, thin_drop, thin_keep, thin_refl}
use project1_iot_server.Prelude.{
  ℕ, ◌≡◌, refl, Bool, true, false, ◌||◌, Option, List, [], ◌∷◌, if◌then◌else◌,
}

-- What is made of an entry keeps its id, or the entry has gone.
unfoldable Fits : (Uuid → Result Bool) → Entry → Due → Type 0
Fits still e (failed_read x) = true ≡ true
Fits still e gone = still (id_of e) ≡ ok false
Fits still e (kept f n) = id_of f ≡ id_of e

due_state-Fits :
    (jitter : Duration → Duration) (now : Time) (still : Uuid → Result Bool) (s : Scheduler)
    (e : Entry) (state : EntryState)
    → Fits still e (due_state jitter now still s e state)
unfolding Fits due_state schedule_backoff
due_state-Fits jitter now still s e publishing = refl
due_state-Fits jitter now still s e backoff = refl
due_state-Fits jitter now still s e await_ack =
    timeout_fits jitter now still s e (still (id_of e)) refl
  where
    timeout_fits :
        (jitter : Duration → Duration) (now : Time) (still : Uuid → Result Bool) (s : Scheduler)
        (e : Entry) (r : Result Bool)
        → still (id_of e) ≡ r
        → Fits still e (after_timeout jitter now s e r)
    timeout_fits jitter now still s e (err x) q = refl
    timeout_fits jitter now still s e (ok true) q = refl
    timeout_fits jitter now still s e (ok false) q = q

due_entry-Fits :
    (jitter : Duration → Duration) (now : Time) (still : Uuid → Result Bool) (s : Scheduler)
    (e : Entry)
    → Fits still e (due_entry jitter now still s e)
unfolding Fits due_entry
due_entry-Fits jitter now still s e =
    chosen still e (is_publishing e.state || before now e.next_at)
      (due_state jitter now still s e e.state) (due_state-Fits jitter now still s e e.state)
  where
    chosen :
        (still : Uuid → Result Bool) (e : Entry) (b : Bool) (d : Due)
        → Fits still e d
        → Fits still e (if b then kept e 0 else d)
    chosen still e true d h = refl
    chosen still e false d h = h

take_due-Thinned :
    (still : Uuid → Result Bool) (e : Entry) (es : List Entry) (d : Due)
    → Fits still e d
    → (failed : Option Error) (rest : List Entry) (m : ℕ)
    → Thinned (λ x. still x ≡ ok false) es rest
    → Thinned (λ x. still x ≡ ok false) (e ∷ es) (take_due d e es (failed, rest, m)).1
unfolding Fits
take_due-Thinned still e es (failed_read x) h failed rest m t = thin_refl (e ∷ es)
take_due-Thinned still e es gone h failed rest m t = thin_drop h t
take_due-Thinned still e es (kept f n) h failed rest m t = thin_keep h t

pub due_entries-Thinned :
    (jitter : Duration → Duration) (now : Time) (still : Uuid → Result Bool) (s : Scheduler)
    (es : List Entry)
    → Thinned (λ x. still x ≡ ok false) es (due_entries jitter now still s es).1
unfolding due_entries
due_entries-Thinned jitter now still s [] = thin_end
due_entries-Thinned jitter now still s (e ∷ es) =
    take_due-Thinned still e es (due_entry jitter now still s e)
      (due_entry-Fits jitter now still s e) (due_entries jitter now still s es).0
      (due_entries jitter now still s es).1 (due_entries jitter now still s es).2
      (due_entries-Thinned jitter now still s es)
