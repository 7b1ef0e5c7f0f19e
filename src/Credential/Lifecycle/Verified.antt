-- ===== src/Credential/Lifecycle/Verified.antt =====
-- BrokerLifecycle keeps to the phases, for src/internal/mqttcredential/lifecycle.go.
use mathlib.Core.Path.{subst}
use project1_iot_server.Credential.Lifecycle.{
  describe, BrokerChild, BrokerLifecycle, VerificationReceipt, alive, fail_locked, exit_child,
  refuses, bind_gate, open_verified,
}
use project1_iot_server.Credential.Lifecycle.Phases.{
  challenged, opened, verifies, spends, Moves, stay, Step, starts_closed, opens, drains, restarts,
  shuts_down, exits, notices, Reached, live_phase, child_phase, phase_of,
}
use project1_iot_server.Credential.Lifecycle.Refined.{guarded, Reached-guarded}
use project1_iot_server.Credential.Lifecycle.Keeps.{
  exit_phase, notice-Moves, restart-Moves, shutdown-Moves,
}
use project1_iot_server.Credential.Lifecycle.Between.{
  one-Move, ends_dead, either_Moves, start-Moves, close-Moves,
}
use project1_iot_server.Prelude.{
  ◌≡◌, refl, sym, ap, ◌∙◌, Bool, true, false, not, Option, none, some, [], ◌∷◌, arith, and_parts,
  Bytes, bytes_eq→eq, is_empty,
}

-- OpenVerified.
passed_phase :
    (l : BrokerLifecycle) (r : VerificationReceipt)
    → refuses l r ≡ false
    → (l.terminal ≡ false)
      × (l.gate_open ≡ false)
      × (alive l.child ≡ true)
      × (is_empty r.receipt_nonce ≡ false)
      × (r.receipt_epoch ≡ l.epoch)
      × (r.receipt_nonce ≡ l.nonce)
unfolding refuses
passed_phase l r h = (
  ground arith,
  ground arith,
  ground arith,
  ground arith,
  bytes_eq→eq _ _ (ground arith),
  bytes_eq→eq _ _ (ground arith),
)

live_challenged : (e n : Bytes) → is_empty n ≡ false → live_phase false e n ≡ challenged e n
live_challenged e [] h = cc
live_challenged e (x ∷ n) h = refl

-- A live process behind a closed gate, by the gate and the nonce that it gets.
child_lem :
    (c : Option BrokerChild) (g : Bool) (e n : Bytes)
    → alive c ≡ true
    → child_phase c g e n ≡ live_phase g e n
unfolding alive
child_lem none g e n h = cc
child_lem (some c) g e n h = refl

live_lem :
    (l : BrokerLifecycle) (g : Bool) (n : Bytes)
    → l.terminal ≡ false
    → alive l.child ≡ true
    → phase_of (record l { gate_open = g; nonce = n }) ≡ live_phase g l.epoch n
unfolding phase_of
live_lem l g n t a = rw t (child_lem l.child g l.epoch n a)

bind-Moves :
    (binds exited : Bool) (l : BrokerLifecycle)
    → l.terminal ≡ false
    → l.gate_open ≡ false
    → alive l.child ≡ true
    → Moves
        (some (record { receipt_epoch = l.epoch; receipt_nonce = l.nonce }))
        (challenged l.epoch l.nonce)
        (phase_of (bind_gate binds exited l).1)
unfolding bind_gate
bind-Moves false exited l t g a =
    rw (live_lem l l.gate_open [] t a, g) (one-Move (spends l.epoch l.nonce))
bind-Moves true exited l t g a =
    let with_gate = record l { gate_open = true; nonce = [] } in
    let after_bind = exit_child exited with_gate in
    either_Moves (challenged l.epoch l.nonce) (not (alive after_bind.child))
      (false, fail_locked after_bind) (true, after_bind)
      (λ h. ends_dead (challenged l.epoch l.nonce) after_bind)
      (λ h.
        subst
          (λ p.
            Moves (some (record { receipt_epoch = l.epoch; receipt_nonce = l.nonce }))
              (challenged l.epoch l.nonce) p)
          (sym (exit_phase exited with_gate ∙ live_lem l true [] t a))
          (one-Move (verifies l.epoch l.nonce)))

-- The receipt that passes the guard.
same_receipt :
    (l : BrokerLifecycle) (r : VerificationReceipt)
    → r.receipt_epoch ≡ l.epoch
    → r.receipt_nonce ≡ l.nonce
    → record { receipt_epoch = l.epoch; receipt_nonce = l.nonce } ≡ r
same_receipt l r e n = rw (← e, ← n) refl

before_lem :
    (l : BrokerLifecycle) (r : VerificationReceipt)
    → l.terminal ≡ false
    → l.gate_open ≡ false
    → alive l.child ≡ true
    → is_empty r.receipt_nonce ≡ false
    → r.receipt_nonce ≡ l.nonce
    → phase_of l ≡ challenged l.epoch l.nonce
before_lem l r t g a full n =
    live_lem l l.gate_open l.nonce t a
    ∙ ap (λ o. live_phase o l.epoch l.nonce) g
    ∙ live_challenged l.epoch l.nonce (sym (ap is_empty n) ∙ full)

verified :
    (r : VerificationReceipt) (binds exited : Bool) (l : BrokerLifecycle)
    → refuses l r ≡ false
    → Moves (some r) (phase_of l) (phase_of (bind_gate binds exited l).1)
verified r binds exited l h =
    let (t, g, a, full, e, n) = passed_phase l r h in
    subst (λ s. Moves (some s) (phase_of l) (phase_of (bind_gate binds exited l).1))
      (same_receipt l r e n)
      (subst
        (λ p.
          Moves (some (record { receipt_epoch = l.epoch; receipt_nonce = l.nonce })) p
            (phase_of (bind_gate binds exited l).1))
        (sym (before_lem l r t g a full n)) (bind-Moves binds exited l t g a))

open-Moves :
    (r : VerificationReceipt) (binds exited : Bool) (l : BrokerLifecycle)
    → Moves (some r) (phase_of l) (phase_of (open_verified r binds exited l).1)
unfolding open_verified
open-Moves r binds exited l =
    either_Moves (phase_of l) (refuses l r) (false, l) (bind_gate binds exited l) (λ h. stay)
      (λ h. verified r binds exited l h)

-- Every call on a state that a new BrokerLifecycle reaches, whatever the system answers and whenever the
-- child exits, makes steps of the phases: the gate opens only for a receipt with the epoch that runs and
-- its open challenge, which that call uses up; a new challenge needs a new call; and nothing leaves the
-- end.
pub lifecycle_refines :
    (a b : BrokerLifecycle) (r : Option VerificationReceipt)
    → Reached a
    → Step a r b
    → Moves r (phase_of a) (phase_of b)
lifecycle_refines a b _ h (starts_closed w) = start-Moves w a (Reached-guarded h)
lifecycle_refines a b _ h (opens r binds exited) = open-Moves r binds exited a
lifecycle_refines a b _ h (drains fresh) = close-Moves fresh a
lifecycle_refines a b _ h (restarts exited fresh stopped w) = restart-Moves exited fresh stopped w a
lifecycle_refines a b _ h (shuts_down stopped) = shutdown-Moves stopped a
lifecycle_refines a b _ h exits =
    subst (λ p. Moves none (phase_of a) p) (sym (exit_phase true a)) stay
lifecycle_refines a b _ h notices = notice-Moves a

not_terminal : (l : BrokerLifecycle) → guarded l ≡ true → l.gate_open ≡ true → l.terminal ≡ false
unfolding guarded
not_terminal l h g = ground arith

-- In every reached state, Describe reports an open gate only in the phase of an open gate of the epoch
-- that it shows.
pub describe_open :
    (a : BrokerLifecycle)
    → Reached a
    → (describe a).is_open ≡ true
    → phase_of a ≡ opened (describe a).described_epoch
unfolding describe
describe_open a h o =
    let (al, g) = and_parts (alive a.child) a.gate_open o in
    live_lem a a.gate_open a.nonce (not_terminal a (Reached-guarded h) g) al
    ∙ ap (λ open_gate. live_phase open_gate a.epoch a.nonce) g
