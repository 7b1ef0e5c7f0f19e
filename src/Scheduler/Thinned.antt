-- ===== src/Scheduler/Thinned.antt =====
-- Lists of entries in flight of src/internal/gatewaysim/scheduler.go that lose some entries and keep
-- the others in order.
pub mod Retried
use mathlib.Core.Path.{subst}
use project1_iot_server.Clock.{Time, Duration}
use project1_iot_server.Uuid.{Uuid}
use project1_iot_server.Telemetry.Errors.{Error, Result, ok, err}
use project1_iot_server.Scheduler.{
  Entry, Scheduler, id_of, has_id, drop_id, update_publishing, synced_entries, sync_entries,
  is_publishing, schedule_backoff, after_publish,
}
use project1_iot_server.Prelude.{
  ◌≤◌, ◌≡◌, refl, ap, ◌∙◌, ◌⊎◌, inl, inr, Bool, true, false, ◌&&◌, ◌||◌, Option, none, some, List,
  [], ◌∷◌, arith, if◌then◌else◌, length, bytes_eq→eq, bytes_eq,
}

-- The second list is the first without entries whose id fulfils `Gone`; an entry that stays keeps its id.
pub data Thinned (Gone : Uuid → Type 0) : List Entry → List Entry → Type 0 where
  thin_end : Thinned Gone [] []
  thin_drop :
      {e : Entry} {es fs : List Entry}
      → Gone (id_of e)
      → Thinned Gone es fs
      → Thinned Gone (e ∷ es) fs
  thin_keep :
      {e f : Entry} {es fs : List Entry}
      → id_of f ≡ id_of e
      → Thinned Gone es fs
      → Thinned Gone (e ∷ es) (f ∷ fs)

-- Each message has at most one entry.
unfoldable pub Distinct : List Entry → Type 0
Distinct [] = true ≡ true
Distinct (e ∷ es) = (has_id (id_of e) es ≡ false) × Distinct es

pub length-Thinned :
    {Gone : Uuid → Type 0} {es fs : List Entry} → Thinned Gone es fs → length fs ≤ length es
length-Thinned thin_end = omega arith
length-Thinned (thin_drop g t) = let i = length-Thinned t in omega arith
length-Thinned (thin_keep q t) = let i = length-Thinned t in omega arith

or_false : (a b : Bool) → (a || b) ≡ false → (a ≡ false) × (b ≡ false)
or_false a b h = ground arith

or_true : (a b : Bool) → (a || b) ≡ true → (a ≡ true) ⊎ (b ≡ true)
or_true a b h = ground arith

or_left : (a b : Bool) → a ≡ true → (a || b) ≡ true
or_left a b h = ground arith

or_right : (a b : Bool) → b ≡ true → (a || b) ≡ true
or_right a b h = ground arith

or_both : (a b : Bool) → a ≡ false → b ≡ false → (a || b) ≡ false
or_both a b h k = ground arith

pub absent-Thinned :
    {Gone : Uuid → Type 0} {es fs : List Entry} (id : Uuid)
    → Thinned Gone es fs
    → has_id id es ≡ false
    → has_id id fs ≡ false
unfolding has_id
absent-Thinned id thin_end h = h
absent-Thinned id (thin_drop {e = e} {es = es} g t) h =
    absent-Thinned id t (or_false (bytes_eq (id_of e) id) (has_id id es) h).1
absent-Thinned id (thin_keep {e = e} {f = f} {es = es} {fs = fs} q t) h =
    let (a, b) = or_false (bytes_eq (id_of e) id) (has_id id es) h in
    or_both (bytes_eq (id_of f) id) (has_id id fs) (ap (λ x. bytes_eq x id) q ∙ a)
      (absent-Thinned id t b)

pub Distinct-Thinned :
    {Gone : Uuid → Type 0} {es fs : List Entry} → Thinned Gone es fs → Distinct es → Distinct fs
unfolding Distinct
Distinct-Thinned thin_end d = d
Distinct-Thinned (thin_drop g t) (n, d) = Distinct-Thinned t d
Distinct-Thinned (thin_keep {es = es} {fs = fs} q t) (n, d) =
    (absent-Thinned _ t (ap (λ x. has_id x es) q ∙ n), Distinct-Thinned t d)

pub present-Thinned :
    {Gone : Uuid → Type 0} {es fs : List Entry} (id : Uuid)
    → Thinned Gone es fs
    → has_id id es ≡ true
    → (has_id id fs ≡ true) ⊎ Gone id
unfolding has_id
present-Thinned id thin_end h = inl h
present-Thinned {Gone = Gone} id (thin_drop {e = e} {es = es} {fs = fs} g t) h =
    elim (or_true (bytes_eq (id_of e) id) (has_id id es) h) [
      | inl q ↦ inr (subst Gone (bytes_eq→eq (id_of e) id q) g)
      | inr p ↦ present-Thinned id t p
    ]
present-Thinned id (thin_keep {e = e} {f = f} {es = es} {fs = fs} q t) h =
    elim (or_true (bytes_eq (id_of e) id) (has_id id es) h) [
      | inl p ↦ inl (or_left (bytes_eq (id_of f) id) (has_id id fs) (ap (λ x. bytes_eq x id) q ∙ p))
      | inr p ↦ elim (present-Thinned id t p) [
        | inl r ↦ inl (or_right (bytes_eq (id_of f) id) (has_id id fs) r)
        | inr g ↦ inr g
      ]
    ]

pub thin_refl : {Gone : Uuid → Type 0} (es : List Entry) → Thinned Gone es es
thin_refl [] = thin_end
thin_refl (e ∷ es) = thin_keep refl (thin_refl es)

pub drop_id-Thinned : (id : Uuid) (es : List Entry) → Thinned (λ x. x ≡ id) es (drop_id id es)
unfolding drop_id
drop_id-Thinned id [] = thin_end
drop_id-Thinned id (e ∷ es) = dropped id e es (bytes_eq (id_of e) id) refl (drop_id-Thinned id es)
  where
    dropped :
        (id : Uuid) (e : Entry) (es : List Entry) (b : Bool)
        → bytes_eq (id_of e) id ≡ b
        → Thinned (λ x. x ≡ id) es (drop_id id es)
        → Thinned (λ x. x ≡ id) (e ∷ es) (if b then drop_id id es else e ∷ drop_id id es)
    dropped id e es true q t = thin_drop (bytes_eq→eq (id_of e) id q) t
    dropped id e es false q t = thin_keep refl t

pub has_id-drop_id : (id : Uuid) (es : List Entry) → has_id id (drop_id id es) ≡ false
unfolding has_id drop_id
has_id-drop_id id [] = refl
has_id-drop_id id (e ∷ es) = absent id e es (bytes_eq (id_of e) id) refl (has_id-drop_id id es)
  where
    absent :
        (id : Uuid) (e : Entry) (es : List Entry) (b : Bool)
        → bytes_eq (id_of e) id ≡ b
        → has_id id (drop_id id es) ≡ false
        → has_id id (if b then drop_id id es else e ∷ drop_id id es) ≡ false
    absent id e es true q h = h
    absent id e es false q h = or_both (bytes_eq (id_of e) id) (has_id id (drop_id id es)) q h

pub update_publishing-Thinned :
    {Gone : Uuid → Type 0} (id : Uuid) (f : Entry → Entry)
    → ((e : Entry) → id_of (f e) ≡ id_of e)
    → (es : List Entry) → Thinned Gone es (update_publishing id f es)
unfolding update_publishing
update_publishing-Thinned id f q [] = thin_end
update_publishing-Thinned id f q (e ∷ es) =
    thin_keep (same (bytes_eq (id_of e) id && is_publishing e.state) f e (q e))
      (update_publishing-Thinned id f q es)
  where
    same :
        (b : Bool) (f : Entry → Entry) (e : Entry)
        → id_of (f e) ≡ id_of e
        → id_of (if b then f e else e) ≡ id_of e
    same true f e q = q
    same false f e q = refl

pub id_of-after_publish :
    (jitter : Duration → Duration) (now : Time) (s : Scheduler) (answer : Option Error) (e : Entry)
    → id_of (after_publish jitter now s answer e) ≡ id_of e
unfolding after_publish schedule_backoff
id_of-after_publish jitter now s none e = refl
id_of-after_publish jitter now s (some x) e = refl

pub sync_entries-Thinned :
    (still : Uuid → Result Bool) (es : List Entry)
    → Thinned (λ x. still x ≡ ok false) es (sync_entries still es).1
unfolding sync_entries
sync_entries-Thinned still [] = thin_end
sync_entries-Thinned still (e ∷ es) =
    synced still e es (still (id_of e)) refl (sync_entries still es).0 (sync_entries still es).1
      (sync_entries-Thinned still es)
  where
    synced :
        (still : Uuid → Result Bool) (e : Entry) (es : List Entry) (r : Result Bool)
        → still (id_of e) ≡ r
        → (failed : Option Error) (rest : List Entry) → Thinned (λ x. still x ≡ ok false) es rest
        → Thinned (λ x. still x ≡ ok false) (e ∷ es) (synced_entries failed rest e es r).1
    synced still e es (err x) q failed rest t = thin_refl (e ∷ es)
    synced still e es (ok true) q failed rest t = thin_keep refl t
    synced still e es (ok false) q failed rest t = thin_drop q t
