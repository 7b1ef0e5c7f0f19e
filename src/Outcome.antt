-- ===== src/Outcome.antt =====
-- A Go result of type (V, error) where one of the two is set, for the errors of type `E`.
use project1_iot_server.Prelude.{◌≡◌, refl, Bool, true, false, Option, none, some}

pub data Outcome {ℓ} (E : Type 0) (V : Type ℓ) : Type ℓ where
  fails : E → Outcome E V
  done : V → Outcome E V

infixl 5 ◌>>◌ ◌>>=◌
abbrev pub ◌>>=◌ {ℓ κ} :
    {E : Type 0} {V : Type ℓ} {W : Type κ} → Outcome E V → (V → Outcome E W) → Outcome E W
done v >>= use_it = use_it v
fails e >>= use_it = fails e

abbrev pub ◌>>◌ {κ} : {E : Type 0} {W : Type κ} → Outcome E (Unit {0}) → Outcome E W → Outcome E W
done v >> after_it = after_it
fails e >> after_it = fails e

-- An early return with the error `e`.
abbrev pub fail_when : {E : Type 0} → E → Bool → Outcome E (Unit {0})
fail_when e false = done tt
fail_when e true = fails e

-- The error that a caller returns in place of any error.
abbrev pub or_fail {ℓ} : {E F : Type 0} {V : Type ℓ} → F → Outcome E V → Outcome F V
or_fail f (fails e) = fails f
or_fail f (done v) = done v

abbrev pub from_option {ℓ} : {E : Type 0} {V : Type ℓ} → E → Option V → Outcome E V
from_option e none = fails e
from_option e (some v) = done v

pub fail_when-eq-done {κ} :
    {E : Type 0} {W : Type κ} (e : E) (b : Bool) (rest : Outcome E W) {w : W}
    → (fail_when e b >> rest) ≡ done w
    → (b ≡ false) × (rest ≡ done w)
fail_when-eq-done e false rest h = (refl, h)
fail_when-eq-done e true rest h = cc

pub >>-eq-done {κ} :
    {E : Type 0} {W : Type κ} (first : Outcome E (Unit {0})) (rest : Outcome E W) {w : W}
    → (first >> rest) ≡ done w
    → (first ≡ done tt) × (rest ≡ done w)
>>-eq-done (done v) rest h = (refl, h)
>>-eq-done (fails e) rest h = cc

pub >>=-eq-done {ℓ κ} :
    {E : Type 0} {V : Type ℓ} {W : Type κ} (first : Outcome E V) (use_it : V → Outcome E W) {w : W}
    → (first >>= use_it) ≡ done w
    → (v : V) × (first ≡ done v) × (use_it v ≡ done w)
>>=-eq-done (done v) use_it h = (v, refl, h)
>>=-eq-done (fails e) use_it h = cc

pub or_fail-eq-done {ℓ} :
    {E F : Type 0} {V : Type ℓ} (f : F) (r : Outcome E V) {v : V}
    → or_fail f r ≡ done v
    → r ≡ done v
or_fail-eq-done f (done v) h = cc
or_fail-eq-done f (fails e) h = cc

pub done_inj {ℓ} :
    {E : Type 0} {V : Type ℓ} {v w : V} → ◌≡◌ {A = Outcome E V} (done v) (done w) → v ≡ w
done_inj h = cc

pub passes {κ} :
    {E : Type 0} {W : Type κ} (e : E) (b : Bool) (rest : Outcome E W) {w : W}
    → b ≡ false
    → rest ≡ done w
    → (fail_when e b >> rest) ≡ done w
passes e b rest h k = rw h k

-- A step that gives `v`.
pub yields {ℓ κ} :
    {E : Type 0} {V : Type ℓ} {W : Type κ} (first : Outcome E V) (use_it : V → Outcome E W) (v : V)
    {w : W}
    → first ≡ done v
    → use_it v ≡ done w
    → (first >>= use_it) ≡ done w
yields first use_it v h k = rw h k
