-- ===== src/Credential/Lifecycle/Phases.antt =====
-- What BrokerLifecycle of src/internal/mqttcredential/lifecycle.go promises: the phases of the gate, and
-- the steps between them.
use project1_iot_server.Credential.Lifecycle.{
  BrokerChild, BrokerLifecycle, VerificationReceipt, Spawn, new_broker_lifecycle, exit_child,
  start_closed, notice_exit, open_verified, close_locked, restart_closed, shutdown,
}
use project1_iot_server.Prelude.{Bool, true, false, Option, none, some, [], ◌∷◌, Bytes}

-- No process; a process of an epoch with an open challenge, without one, or behind an open gate; the end.
pub data Phase : Type 0 where
  down : Phase
  challenged : Bytes → Bytes → Phase
  spent : Bytes → Phase
  opened : Bytes → Phase
  dead : Phase

-- The steps under a call with a receipt, or without one. Only a receipt for the current challenge opens the
-- gate; a challenge is issued for the epoch that runs; nothing leaves the end.
pub data Move : Option VerificationReceipt → Phase → Phase → Type 0 where
  begins : (e n : Bytes) → Move none down (challenged e n)
  verifies :
      (e n : Bytes)
      → Move (some (record { receipt_epoch = e; receipt_nonce = n })) (challenged e n) (opened e)
  spends : {r : Option VerificationReceipt} (e n : Bytes) → Move r (challenged e n) (spent e)
  closes : (e : Bytes) → Move none (opened e) (spent e)
  challenges : (e n : Bytes) → Move none (spent e) (challenged e n)
  stops : (e : Bytes) → Move none (spent e) down
  dies : {r : Option VerificationReceipt} {p : Phase} → Move r p dead

pub data Moves (r : Option VerificationReceipt) (p : Phase) : Phase → Type 0 where
  stay : Moves r p p
  then_move : {q t : Phase} → Moves r p q → Move r q t → Moves r p t

-- The calls of the methods, the exit of the child and its notice, with what the system answers.
pub data Step (l : BrokerLifecycle) : Option VerificationReceipt → BrokerLifecycle → Type 0 where
  starts_closed : (w : Spawn) → Step l none (start_closed w l).1
  opens :
      (r : VerificationReceipt) (binds exits : Bool)
      → Step l (some r) (open_verified r binds exits l).1
  drains : (fresh : Option Bytes) → Step l none (close_locked fresh l).1
  restarts :
      (exits : Bool) (fresh : Option Bytes) (stopped : Bool) (w : Spawn)
      → Step l none (restart_closed exits fresh stopped w l).1
  shuts_down : (stopped : Bool) → Step l none (shutdown stopped l)
  exits : Step l none (exit_child true l)
  notices : Step l none (notice_exit l)

pub data Reached : BrokerLifecycle → Type 0 where
  fresh_one : Reached new_broker_lifecycle
  after :
      {a b : BrokerLifecycle} {r : Option VerificationReceipt} → Reached a → Step a r b → Reached b

-- The phase of a state.
abbrev pub live_phase : Bool → Bytes → Bytes → Phase
live_phase true e n = opened e
live_phase false e [] = spent e
live_phase false e (c ∷ n) = challenged e (c ∷ n)

abbrev pub child_phase : Option BrokerChild → Bool → Bytes → Bytes → Phase
child_phase none open_gate e n = down
child_phase (some c) open_gate e n = live_phase open_gate e n

abbrev pub terminal_phase : Bool → Phase → Phase
terminal_phase true p = dead
terminal_phase false p = p

unfoldable pub phase_of : BrokerLifecycle → Phase
phase_of l = terminal_phase l.terminal (child_phase l.child l.gate_open l.epoch l.nonce)
