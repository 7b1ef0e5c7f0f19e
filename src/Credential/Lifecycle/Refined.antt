-- ===== src/Credential/Lifecycle/Refined.antt =====
-- BrokerLifecycle keeps to the phases, for src/internal/mqttcredential/lifecycle.go.
use project1_iot_server.Credential.Lifecycle.{
  BrokerLifecycle, VerificationReceipt, Spawn, Outcome, alive, has_child, exit_child, spawn_ids,
  spawn_locked, start_closed, notice_exit, bind_gate, open_verified, with_challenge, close_locked,
  stop_child, stop_locked, restart_after_stop, restart_after_close, restart_closed, shutdown,
}
use project1_iot_server.Credential.Lifecycle.Phases.{
  Step, starts_closed, opens, drains, restarts, shuts_down, exits, notices, Reached, fresh_one,
  after,
}
use project1_iot_server.Prelude.{
  ◌≡◌, refl, ◌∙◌, Bool, true, false, not, ◌&&◌, ◌||◌, Option, arith, if◌then◌else◌, Bytes,
}

-- An open gate stands before a process, and not after the end.
unfoldable pub guarded : BrokerLifecycle → Bool
guarded l = not l.gate_open || has_child l.child && not l.terminal

start-guarded :
    (w : Spawn) (l : BrokerLifecycle) → guarded l ≡ true → guarded (start_closed w l).1 ≡ true
unfolding guarded start_closed spawn_locked spawn_ids
start-guarded w l h = ground arith

open-guarded :
    (r : VerificationReceipt) (binds exited : Bool) (l : BrokerLifecycle)
    → guarded l ≡ true
    → guarded (open_verified r binds exited l).1 ≡ true
unfolding guarded open_verified bind_gate alive exit_child
open-guarded r false exited l h = ground arith
open-guarded r true true l h = ground arith
open-guarded r true false l h = ground arith

close-guarded :
    (fresh : Option Bytes) (l : BrokerLifecycle) → guarded (close_locked fresh l).1 ≡ true
unfolding guarded close_locked with_challenge
close-guarded fresh l = ground arith

exit-guarded : (b : Bool) (l : BrokerLifecycle) → guarded l ≡ true → guarded (exit_child b l) ≡ true
unfolding guarded exit_child
exit-guarded false l h = h
exit-guarded true l h = ground arith

notice-guarded : (l : BrokerLifecycle) → guarded l ≡ true → guarded (notice_exit l) ≡ true
unfolding guarded notice_exit
notice-guarded l h = ground arith

shutdown-guarded : (stopped : Bool) (l : BrokerLifecycle) → guarded (shutdown stopped l) ≡ true
unfolding guarded shutdown stop_locked stop_child
shutdown-guarded stopped l = ground arith

pub close-gate :
    (fresh : Option Bytes) (l : BrokerLifecycle) → (close_locked fresh l).1.gate_open ≡ false
unfolding close_locked with_challenge
close-gate fresh l = ground arith

pub close-ok :
    (fresh : Option Bytes) (l : BrokerLifecycle)
    → (close_locked fresh l).0 ≡ true
    → ((close_locked fresh l).1.terminal ≡ false) × (alive (close_locked fresh l).1.child ≡ true)
unfolding close_locked with_challenge
close-ok fresh l h = (ground arith, ground arith)

gate-guarded : (l : BrokerLifecycle) → l.gate_open ≡ false → guarded l ≡ true
unfolding guarded
gate-guarded l h = ground arith

spawn-gate : (w : Spawn) (l : BrokerLifecycle) → (spawn_locked w l).1.gate_open ≡ l.gate_open
unfolding spawn_locked spawn_ids
spawn-gate w l = ground arith

stop-gate :
    (stopped : Bool) (l : BrokerLifecycle) → (stop_locked stopped l).1.gate_open ≡ l.gate_open
unfolding stop_locked stop_child
stop-gate stopped l = ground arith

after_stop-gate :
    (w : Spawn) (o : Outcome) → o.1.gate_open ≡ false → (restart_after_stop w o).1.gate_open ≡ false
unfolding restart_after_stop
after_stop-gate w (false, l) h = refl
after_stop-gate w (true, l) h = spawn-gate w l ∙ h

either_guarded :
    (b : Bool) (x y : Outcome)
    → guarded x.1 ≡ true
    → guarded y.1 ≡ true
    → guarded (if b then x else y).1 ≡ true
either_guarded true x y h k = h
either_guarded false x y h k = k

tail-gate :
    (stopped : Bool) (w : Spawn) (o : Outcome)
    → o.1.gate_open ≡ false
    → (restart_after_close stopped w o).1.gate_open ≡ false
unfolding restart_after_close
tail-gate stopped w (false, l) h = h
tail-gate stopped w (true, l) h =
    after_stop-gate w (stop_locked stopped l) (stop-gate stopped l ∙ h)

restart-guarded :
    (exited : Bool) (fresh : Option Bytes) (stopped : Bool) (w : Spawn) (l : BrokerLifecycle)
    → guarded l ≡ true
    → guarded (restart_closed exited fresh stopped w l).1 ≡ true
unfolding restart_closed
restart-guarded exited fresh stopped w l h =
    either_guarded (l.terminal || not (alive l.child)) (false, l) _ h
      (gate-guarded _ (
        tail-gate stopped w (close_locked fresh (exit_child exited l))
          (close-gate fresh (exit_child exited l))))

Step-guarded :
    {a b : BrokerLifecycle} {r : Option VerificationReceipt}
    → Step a r b
    → guarded a ≡ true
    → guarded b ≡ true
Step-guarded {a} (starts_closed w) h = start-guarded w a h
Step-guarded {a} (opens r binds exited) h = open-guarded r binds exited a h
Step-guarded {a} (drains fresh) h = close-guarded fresh a
Step-guarded {a} (restarts exited fresh stopped w) h = restart-guarded exited fresh stopped w a h
Step-guarded {a} (shuts_down stopped) h = shutdown-guarded stopped a
Step-guarded {a} exits h = exit-guarded true a h
Step-guarded {a} notices h = notice-guarded a h

pub Reached-guarded : {a : BrokerLifecycle} → Reached a → guarded a ≡ true
unfolding guarded
Reached-guarded fresh_one = refl
Reached-guarded (after r s) = Step-guarded s (Reached-guarded r)
