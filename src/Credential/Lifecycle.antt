-- ===== src/Credential/Lifecycle.antt =====
-- src/internal/mqttcredential/lifecycle.go: the broker process, its epoch and challenge, and the gate in
-- front of it. The methods hold one lock, so each is a function on the state; the child may exit at any
-- time, also inside a method, and what the system answers is an argument.
pub mod Between
pub mod Phases
pub mod Refined
pub mod Keeps
pub mod Verified
use project1_iot_server.Prelude.{
  Bool, true, false, not, ◌&&◌, ◌||◌, Option, none, some, [], if◌then◌else◌, Bytes, is_empty,
  bytes_eq,
}

-- brokerChild: whether it has exited, and whether that is expected.
pub record BrokerChild : Type 0 where
  pub exited : Bool
  pub expected : Bool

-- BrokerLifecycle, less its configuration. `failed` is the channel that Failed returns, when closed.
pub record BrokerLifecycle : Type 0 where
  pub child : Option BrokerChild
  pub gate_open : Bool
  pub epoch : Bytes
  pub nonce : Bytes
  pub terminal : Bool
  pub failed : Bool

-- VerificationReceipt, LifecycleDescription
pub record VerificationReceipt : Type 0 where
  pub receipt_epoch : Bytes
  pub receipt_nonce : Bytes

pub record LifecycleDescription : Type 0 where
  pub described_epoch : Bytes
  pub described_nonce : Bytes
  pub is_open : Bool
  pub is_alive : Bool

-- NewBrokerLifecycle, of a configuration that it accepts.
abbrev pub new_broker_lifecycle : BrokerLifecycle
new_broker_lifecycle = record {
  child = none;
  gate_open = false;
  epoch = [];
  nonce = [];
  terminal = false;
  failed = false;
}

-- aliveLocked
unfoldable pub alive : Option BrokerChild → Bool
alive none = false
alive (some c) = not c.exited

-- The child exits, when the flag says so.
abbrev pub exited_child : Option BrokerChild → BrokerLifecycle → BrokerLifecycle
exited_child none l = l
exited_child (some c) l = record l {
  child = some (record { exited = true; expected = c.expected });
}

unfoldable pub exit_child : Bool → BrokerLifecycle → BrokerLifecycle
exit_child false l = l
exit_child true l = exited_child l.child l

abbrev pub close_gate : BrokerLifecycle → BrokerLifecycle
close_gate l = record l { gate_open = false; nonce = [] }

-- failLocked
abbrev pub fail_locked : BrokerLifecycle → BrokerLifecycle
fail_locked l = record (close_gate l) { terminal = true; failed = true }

-- What spawnLocked gets: two random identities, and whether the process starts.
pub record Spawn : Type 0 where
  pub fresh_epoch : Option Bytes
  pub fresh_nonce : Option Bytes
  pub starts : Bool

-- An error, or none, and the state.
abbrev pub Outcome : Type 0
Outcome = Bool × BrokerLifecycle

-- spawnLocked
unfoldable pub spawn_ids : Option Bytes → Option Bytes → Bool → BrokerLifecycle → Outcome
spawn_ids none n started l = (false, l)
spawn_ids (some e) none started l = (false, l)
spawn_ids (some e) (some n) false l = (false, record l { epoch = []; nonce = [] })
spawn_ids (some e) (some n) true l = (
  true,
  record l { child = some (record { exited = false; expected = false }); epoch = e; nonce = n },
)

unfoldable pub spawn_locked : Spawn → BrokerLifecycle → Outcome
unfolding spawn_ids
spawn_locked w l = spawn_ids w.fresh_epoch w.fresh_nonce w.starts l

abbrev pub has_child : Option BrokerChild → Bool
has_child none = false
has_child (some c) = true

-- StartClosed
unfoldable pub start_closed : Spawn → BrokerLifecycle → Outcome
unfolding spawn_locked
start_closed w l = if has_child l.child || l.terminal then (false, l) else spawn_locked w l

-- The goroutine of a child after its exit; that of a child which is no longer the current one does
-- nothing.
abbrev pub noticed : Option BrokerChild → BrokerLifecycle → BrokerLifecycle
noticed none l = l
noticed (some c) l = if c.exited && not c.expected then fail_locked l else l

unfoldable pub notice_exit : BrokerLifecycle → BrokerLifecycle
notice_exit l = noticed l.child l

-- Describe
unfoldable pub describe : BrokerLifecycle → LifecycleDescription
unfolding alive
describe l = record {
  described_epoch = l.epoch;
  described_nonce = l.nonce;
  is_open = alive l.child && l.gate_open;
  is_alive = alive l.child;
}

-- The guard of OpenVerified.
unfoldable pub refuses : BrokerLifecycle → VerificationReceipt → Bool
unfolding alive bytes_eq
refuses l r =
    l.terminal
    || not (alive l.child)
    || l.gate_open
    || is_empty r.receipt_epoch
    || is_empty r.receipt_nonce
    || not (bytes_eq r.receipt_epoch l.epoch)
    || not (bytes_eq r.receipt_nonce l.nonce)

-- OpenVerified after its guard: the listeners may fail to bind, and the child may exit meanwhile.
unfoldable pub bind_gate : Bool → Bool → BrokerLifecycle → Outcome
unfolding alive exit_child
bind_gate false exits l = (false, record l { nonce = [] })
bind_gate true exits l =
    let opened = exit_child exits (record l { gate_open = true; nonce = [] }) in
    if not (alive opened.child) then (false, fail_locked opened) else (true, opened)

-- OpenVerified
unfoldable pub open_verified : VerificationReceipt → Bool → Bool → BrokerLifecycle → Outcome
unfolding refuses bind_gate
open_verified r binds exits l = if refuses l r then (false, l) else bind_gate binds exits l

-- closeLocked
unfoldable pub with_challenge : Option Bytes → BrokerLifecycle → Outcome
with_challenge none l = (false, l)
with_challenge (some n) l = (true, record l { nonce = n })

unfoldable pub close_locked : Option Bytes → BrokerLifecycle → Outcome
unfolding alive with_challenge
close_locked fresh l =
    if l.terminal || not (alive l.child)
    then (false, close_gate l)
    else with_challenge fresh (close_gate l)

-- stopLocked; the flag tells whether the child exits within the two timeouts.
abbrev pub stop_result : Bool → BrokerLifecycle → Outcome
stop_result true l = (true, record l { child = none })
stop_result false l =
    (false, record l { child = some (record { exited = false; expected = true }) })

unfoldable pub stop_child : Bool → Option BrokerChild → BrokerLifecycle → Outcome
stop_child exits none l = (true, l)
stop_child exits (some c) l = stop_result (c.exited || exits) l

unfoldable pub stop_locked : Bool → BrokerLifecycle → Outcome
unfolding stop_child
stop_locked exits l = stop_child exits l.child l

-- RestartClosed after its guard.
unfoldable pub restart_after_stop : Spawn → Outcome → Outcome
unfolding spawn_locked
restart_after_stop w (false, l) = (false, fail_locked l)
restart_after_stop w (true, l) = spawn_locked w l

unfoldable pub restart_after_close : Bool → Spawn → Outcome → Outcome
unfolding stop_locked restart_after_stop
restart_after_close stops w (false, l) = (false, l)
restart_after_close stops w (true, l) = restart_after_stop w (stop_locked stops l)

-- RestartClosed; the child may exit after the guard.
unfoldable pub restart_closed : Bool → Option Bytes → Bool → Spawn → BrokerLifecycle → Outcome
unfolding alive exit_child close_locked restart_after_close
restart_closed exits fresh stops w l =
    if l.terminal || not (alive l.child)
    then (false, l)
    else restart_after_close stops w (close_locked fresh (exit_child exits l))

-- Shutdown
unfoldable pub shutdown : Bool → BrokerLifecycle → BrokerLifecycle
unfolding stop_locked
shutdown stops l = (stop_locked stops (record (close_gate l) { terminal = true })).1
