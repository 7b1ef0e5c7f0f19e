-- ===== src/Twin/Filters.antt =====
-- The filters that a list cursor of src/internal/digitaltwin/cursor.go carries, and the members of its
-- payload.
use mathlib.Core.Path.{subst}
use project1_iot_server.Outcome.{fails, done}
use project1_iot_server.Twin.{
  invalid_cursor, EntityType, gateway, sensor, other_type, valid_type, type_name, entity_type_of,
  same_type,
}
use project1_iot_server.Twin.Plain.{Plain}
use project1_iot_server.Twin.Documented.{quoted, PlainValue, value_token}
use project1_iot_server.Twin.Cursor.{
  unbound_id, unbound_type, decode_members, raw_val, entity_type_val, checked_type,
}
use project1_iot_server.Twin.Cursor.Payload.{
  text, open_brace, close_brace, json_or_null, name_of, differs_id, differs_type, has_byte,
}
use project1_iot_server.Prelude.{
  ℕ, ◌+◌, ◌≤◌, ◌≡◌, refl, ap, ◌∙◌, ◌⊎◌, inl, inr, Bool, true, false, not, ◌||◌, Option, none, some,
  [], ◌∷◌, arith, if◌then◌else◌, some_inj, length, length-append, Bytes, codes, bytes_eq_refl,
  bytes_eq,
}

-- A filter that is absent, or the entity's own value.
abbrev pub own {ℓ} : {A : Type ℓ} → Bool → A → Option A
own false a = none
own true a = some a

pub Plain-no_nul : (s : Bytes) → Plain s → has_byte 0 s ≡ false
unfolding has_byte
Plain-no_nul [] h = refl
Plain-no_nul (c ∷ s) h = ground (arith, Plain-no_nul s)

pub raw_val-plain : (x : Option Bytes) → PlainValue x → raw_val (value_token x) ≡ some x
unfolding raw_val
raw_val-plain none h = refl
raw_val-plain (some s) h = rw (Plain-no_nul s h) refl

-- Three members with the keys of a list cursor.
pub list_members :
    (x y z : Option Bytes)
    → PlainValue x
    → PlainValue y
    → PlainValue z
    → decode_members (codes "k" ∷ codes "g" ∷ codes "t" ∷ []) raw_val (
        open_brace
        ∷ text (codes "k")
        ∷ value_token x
        ∷ text (codes "g")
        ∷ value_token y
        ∷ text (codes "t")
        ∷ value_token z
        ∷ close_brace
        ∷ [])
      ≡ done ((codes "t", z) ∷ (codes "g", y) ∷ (codes "k", x) ∷ [])
unfolding decode_members bytes_eq
list_members x y z hx hy hz =
    rw (raw_val-plain x hx) (rw (raw_val-plain y hy) (rw (raw_val-plain z hz) refl))

pub type_kept :
    (t : EntityType)
    → (t ≡ gateway) ⊎ (t ≡ sensor)
    → (entity_type_of (type_name t) ≡ t) × (valid_type t ≡ true) × Plain (type_name t)
unfolding entity_type_of
type_kept gateway h = (refl, refl, refl)
type_kept sensor h = (refl, refl, refl)
type_kept (other_type s) (inl h) = cc
type_kept (other_type s) (inr h) = cc

pub same_type_refl : (t : EntityType) → same_type t t ≡ true
unfolding same_type
same_type_refl t = bytes_eq_refl (type_name t)

pub own_id_agrees :
    (b : Bool) (id : Bytes)
    → (differs_id (own b id) id ≡ false) × (unbound_id (own b id) (own b id) id ≡ false)
own_id_agrees false id = (refl, refl)
own_id_agrees true id = (ap not (bytes_eq_refl id), ap (λ c. not c || not c) (bytes_eq_refl id))

pub own_type_agrees :
    (b : Bool) (t : EntityType)
    → (differs_type (own b t) t ≡ false) × (unbound_type (own b t) (own b t) t ≡ false)
own_type_agrees false t = (refl, refl)
own_type_agrees true t = (ap not (same_type_refl t), ap (λ c. not c || not c) (same_type_refl t))

pub own_id_agrees-Plain : (b : Bool) (id : Bytes) → Plain id → PlainValue (own b id)
own_id_agrees-Plain false id h = refl
own_id_agrees-Plain true id h = h

pub own_type_val :
    (b : Bool) (t : EntityType)
    → (t ≡ gateway) ⊎ (t ≡ sensor)
    → (PlainValue (name_of (own b t)) × (entity_type_val (name_of (own b t)) ≡ done (own b t)))
own_type_val false t h = (refl, refl)
own_type_val true t h =
    let (kept, valid, plain) = type_kept t h in
    (
      plain,
      ap checked_type kept ∙ ap (λ v. if v then done (some t) else fails invalid_cursor) valid,
    )

-- The length of a value, with its quotes.
pub value_length :
    (x : Option Bytes) (n : ℕ)
    → 2 ≤ n
    → ((s : Bytes) → x ≡ some s → length s ≤ n)
    → length (json_or_null quoted x) ≤ n + 2
value_length none n m h = omega arith
value_length (some s) n m h = omega (arith, h s refl, length-append s (codes "\""))

pub type_short : (t : EntityType) → (t ≡ gateway) ⊎ (t ≡ sensor) → length (type_name t) ≤ 7
type_short gateway h = omega arith
type_short sensor h = omega arith
type_short (other_type s) (inl h) = cc
type_short (other_type s) (inr h) = cc

pub own_short :
    (b : Bool) (a : Bytes) (n : ℕ) → length a ≤ n → (s : Bytes) → own b a ≡ some s → length s ≤ n
own_short false a n h s e = cc
own_short true a n h s e = subst (λ (x : Bytes). length x ≤ n) (some_inj e) h

pub name_own : (b : Bool) (t : EntityType) → name_of (own b t) ≡ own b (type_name t)
name_own false t = refl
name_own true t = refl
