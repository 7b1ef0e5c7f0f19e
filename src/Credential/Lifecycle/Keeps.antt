-- ===== src/Credential/Lifecycle/Keeps.antt =====
-- The methods without a receipt keep to the phases, for src/internal/mqttcredential/lifecycle.go.
use mathlib.Core.Path.{subst}
use project1_iot_server.Credential.Lifecycle.{
  BrokerChild, BrokerLifecycle, VerificationReceipt, Spawn, Outcome, alive, exited_child, noticed,
  exit_child, notice_exit, close_locked, stop_result, stop_child, stop_locked, restart_after_stop,
  restart_after_close, restart_closed, shutdown,
}
use project1_iot_server.Credential.Lifecycle.Phases.{Phase, dies, Moves, stay, phase_of}
use project1_iot_server.Credential.Lifecycle.Refined.{close-gate, close-ok}
use project1_iot_server.Prelude.{
  ◌≡◌, refl, Bool, true, false, not, ◌&&◌, ◌||◌, Option, none, some, if◌then◌else◌, Bytes,
}
use project1_iot_server.Credential.Lifecycle.Between.{
  one-Move, Moves-trans, stop_phase, ends_dead, either_Moves, shutdown_dead, close-Moves, Down,
  spawn-Moves,
}

exited_phase :
    (c : Option BrokerChild) (l : BrokerLifecycle)
    → l.child ≡ c
    → phase_of (exited_child c l) ≡ phase_of l
unfolding phase_of
exited_phase none l h = refl
exited_phase (some c) l h = rw h refl

pub exit_phase : (b : Bool) (l : BrokerLifecycle) → phase_of (exit_child b l) ≡ phase_of l
unfolding exit_child
exit_phase false l = refl
exit_phase true l = exited_phase l.child l refl

either_state :
    {r : Option VerificationReceipt} (p : Phase) (b : Bool) (x y : BrokerLifecycle)
    → Moves r p (phase_of x)
    → Moves r p (phase_of y)
    → Moves r p (phase_of (if b then x else y))
either_state p true x y h k = h
either_state p false x y h k = k

noticed-Moves :
    (c : Option BrokerChild) (l : BrokerLifecycle)
    → Moves none (phase_of l) (phase_of (noticed c l))
noticed-Moves none l = stay
noticed-Moves (some c) l =
    either_state (phase_of l) (c.exited && not c.expected) _ _ (ends_dead (phase_of l) l) stay

pub notice-Moves : (l : BrokerLifecycle) → Moves none (phase_of l) (phase_of (notice_exit l))
unfolding notice_exit
notice-Moves l = noticed-Moves l.child l

-- A process behind a closed gate, which stops.
stop_by :
    (b : Bool) (c : BrokerChild) (l : BrokerLifecycle)
    → l.child ≡ some c
    → l.terminal ≡ false
    → l.gate_open ≡ false
    → (stop_result b l).0 ≡ true
    → Moves none (phase_of l) (phase_of (stop_result b l).1) × Down (stop_result b l).1
unfolding phase_of
stop_by true c l h t g k = (rw (t, h, g) (stop_phase l.epoch l.nonce), (refl, t, g))
stop_by false c l h t g k = cc

stopped-Moves :
    (stopped : Bool) (c : Option BrokerChild) (l : BrokerLifecycle)
    → l.child ≡ c
    → l.terminal ≡ false
    → l.gate_open ≡ false
    → (stop_child stopped c l).0 ≡ true
    → Moves none (phase_of l) (phase_of (stop_child stopped c l).1)
      × Down (stop_child stopped c l).1
unfolding stop_child
stopped-Moves stopped none l h t g k = (stay, (h, t, g))
stopped-Moves stopped (some c) l h t g k = stop_by (c.exited || stopped) c l h t g k

after_stop-Moves :
    (w : Spawn) (p : Phase) (o : Outcome)
    → (o.0 ≡ true → Moves none p (phase_of o.1) × Down o.1)
    → Moves none p (phase_of (restart_after_stop w o).1)
unfolding restart_after_stop
after_stop-Moves w p (false, l) h = ends_dead p l
after_stop-Moves w p (true, l) h = let (m, d) = h refl in Moves-trans m (spawn-Moves w l d)

after_close-Moves :
    (stopped : Bool) (w : Spawn) (p : Phase) (o : Outcome)
    → Moves none p (phase_of o.1)
    → (o.0 ≡ true → (o.1.terminal ≡ false) × (alive o.1.child ≡ true))
    → o.1.gate_open ≡ false
    → Moves none p (phase_of (restart_after_close stopped w o).1)
unfolding restart_after_close stop_locked
after_close-Moves stopped w p (false, l) m ok g = m
after_close-Moves stopped w p (true, l) m ok g =
    let (t, a) = ok refl in
    after_stop-Moves w p (stop_locked stopped l)
      (λ k. (let (n, d) = stopped-Moves stopped l.child l refl t g k in (Moves-trans m n, d)))

pub restart-Moves :
    (exited : Bool) (fresh : Option Bytes) (stopped : Bool) (w : Spawn) (l : BrokerLifecycle)
    → Moves none (phase_of l) (phase_of (restart_closed exited fresh stopped w l).1)
unfolding restart_closed
restart-Moves exited fresh stopped w l =
    either_Moves (phase_of l) (l.terminal || not (alive l.child)) _ _ (λ h. stay)
      (λ h.
        after_close-Moves stopped w (phase_of l) (close_locked fresh (exit_child exited l))
          (subst (λ p. Moves none p (phase_of (close_locked fresh (exit_child exited l)).1))
            (exit_phase exited l) (close-Moves fresh (exit_child exited l)))
          (close-ok fresh (exit_child exited l)) (close-gate fresh (exit_child exited l)))

pub shutdown-Moves :
    (stopped : Bool) (l : BrokerLifecycle) → Moves none (phase_of l) (phase_of (shutdown stopped l))
shutdown-Moves stopped l = rw (shutdown_dead stopped l) (one-Move dies)
