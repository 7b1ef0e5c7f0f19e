-- ===== src/Credential/Lifecycle/Between.antt =====
-- The phases between two states of one method, for src/internal/mqttcredential/lifecycle.go.
use project1_iot_server.Credential.Lifecycle.{
  BrokerChild, BrokerLifecycle, VerificationReceipt, Spawn, Outcome, alive, has_child, close_gate,
  fail_locked, spawn_ids, spawn_locked, start_closed, with_challenge, close_locked, stop_child,
  stop_locked, shutdown,
}
use project1_iot_server.Credential.Lifecycle.Phases.{
  Phase, down, dead, Move, begins, spends, closes, challenges, stops, dies, Moves, stay, then_move,
  live_phase, child_phase, terminal_phase, phase_of,
}
use project1_iot_server.Credential.Lifecycle.Refined.{guarded}
use project1_iot_server.Prelude.{
  ◌≡◌, refl, Bool, true, false, not, ◌||◌, Option, none, some, [], ◌∷◌, arith, if◌then◌else◌, Bytes,
}

pub one-Move : {r : Option VerificationReceipt} {p q : Phase} → Move r p q → Moves r p q
one-Move m = then_move stay m

pub Moves-trans :
    {r : Option VerificationReceipt} {p q t : Phase} → Moves r p q → Moves r q t → Moves r p t
Moves-trans m stay = m
Moves-trans m (then_move n step) = then_move (Moves-trans m n) step

-- The phases of closeLocked, by the fields.
close_phase :
    (t : Bool) (c : Option BrokerChild) (g : Bool) (e n : Bytes)
    → Moves none
        (terminal_phase t (child_phase c g e n))
        (terminal_phase t (child_phase c false e []))
close_phase true c g e n = stay
close_phase false none g e n = stay
close_phase false (some c) true e n = one-Move (closes e)
close_phase false (some c) false e [] = stay
close_phase false (some c) false e (x ∷ n) = one-Move (spends e (x ∷ n))

challenge_phase :
    (t : Bool) (c : Option BrokerChild) (e n : Bytes)
    → Moves none
        (terminal_phase t (child_phase c false e []))
        (terminal_phase t (child_phase c false e n))
challenge_phase true c e n = stay
challenge_phase false none e n = stay
challenge_phase false (some c) e [] = stay
challenge_phase false (some c) e (x ∷ n) = one-Move (challenges e (x ∷ n))

spawned_phase : (e n : Bytes) → Moves none down (live_phase false e n)
spawned_phase e [] = then_move (one-Move (begins e [])) (spends e [])
spawned_phase e (x ∷ n) = one-Move (begins e (x ∷ n))

pub stop_phase : (e n : Bytes) → Moves none (live_phase false e n) down
stop_phase e [] = one-Move (stops e)
stop_phase e (x ∷ n) = then_move (one-Move (spends e (x ∷ n))) (stops e)

pub ends_dead :
    {r : Option VerificationReceipt} (p : Phase) (l : BrokerLifecycle)
    → Moves r p (phase_of (fail_locked l))
unfolding phase_of
ends_dead p l = one-Move dies

pub either_Moves :
    {r : Option VerificationReceipt} (p : Phase) (b : Bool) (x y : Outcome)
    → (b ≡ true → Moves r p (phase_of x.1))
    → (b ≡ false → Moves r p (phase_of y.1))
    → Moves r p (phase_of (if b then x else y).1)
either_Moves p true x y h k = h refl
either_Moves p false x y h k = k refl

dead_lem : (l : BrokerLifecycle) → l.terminal ≡ true → phase_of l ≡ dead
unfolding phase_of
dead_lem l h = rw h refl

stop_terminal :
    (stopped : Bool) (l : BrokerLifecycle) → (stop_locked stopped l).1.terminal ≡ l.terminal
unfolding stop_locked stop_child
stop_terminal stopped l = ground arith

pub shutdown_dead : (stopped : Bool) (l : BrokerLifecycle) → phase_of (shutdown stopped l) ≡ dead
unfolding shutdown
shutdown_dead stopped l =
    dead_lem (stop_locked stopped (record (close_gate l) { terminal = true })).1
      (stop_terminal stopped (record (close_gate l) { terminal = true }))

closed-Moves : (l : BrokerLifecycle) → Moves none (phase_of l) (phase_of (close_gate l))
unfolding phase_of
closed-Moves l = close_phase l.terminal l.child l.gate_open l.epoch l.nonce

challenge-Moves :
    (fresh : Option Bytes) (l : BrokerLifecycle)
    → Moves none (phase_of (close_gate l)) (phase_of (with_challenge fresh (close_gate l)).1)
unfolding phase_of with_challenge
challenge-Moves none l = stay
challenge-Moves (some n) l = challenge_phase l.terminal l.child l.epoch n

pub close-Moves :
    (fresh : Option Bytes) (l : BrokerLifecycle)
    → Moves none (phase_of l) (phase_of (close_locked fresh l).1)
unfolding close_locked
close-Moves fresh l =
    either_Moves (phase_of l) (l.terminal || not (alive l.child)) _ _ (λ h. closed-Moves l)
      (λ h. Moves-trans (closed-Moves l) (challenge-Moves fresh l))

-- A state without a process, from which nothing has ended.
abbrev pub Down : BrokerLifecycle → Type 0
Down l = (l.child ≡ none) × (l.terminal ≡ false) × (l.gate_open ≡ false)

down_phase : (l : BrokerLifecycle) → Down l → phase_of l ≡ down
unfolding phase_of
down_phase l (c, t, g) = rw (t, c) refl

started_lem :
    (e n : Bytes) (l : BrokerLifecycle)
    → Down l
    → Moves none down (phase_of (spawn_ids (some e) (some n) true l).1)
unfolding phase_of spawn_ids
started_lem e n l (c, t, g) = rw (t, g) (spawned_phase e n)

start-Down :
    (l : BrokerLifecycle) → guarded l ≡ true → (has_child l.child || l.terminal) ≡ false → Down l
unfolding guarded
start-Down l g h = (ground arith, ground arith, ground arith)

spawn_ids-Moves :
    (e n : Option Bytes) (started : Bool) (l : BrokerLifecycle)
    → Down l
    → Moves none (phase_of l) (phase_of (spawn_ids e n started l).1)
unfolding spawn_ids
spawn_ids-Moves none n started l d = stay
spawn_ids-Moves (some e) none started l d = stay
spawn_ids-Moves (some e) (some n) false l d =
    rw (down_phase l d, down_phase (record l { epoch = []; nonce = [] }) d) stay
spawn_ids-Moves (some e) (some n) true l d = rw (down_phase l d) (started_lem e n l d)

pub spawn-Moves :
    (w : Spawn) (l : BrokerLifecycle)
    → Down l
    → Moves none (phase_of l) (phase_of (spawn_locked w l).1)
unfolding spawn_locked
spawn-Moves w l d = spawn_ids-Moves w.fresh_epoch w.fresh_nonce w.starts l d

pub start-Moves :
    (w : Spawn) (l : BrokerLifecycle)
    → guarded l ≡ true
    → Moves none (phase_of l) (phase_of (start_closed w l).1)
unfolding start_closed
start-Moves w l g =
    either_Moves (phase_of l) (has_child l.child || l.terminal) _ _ (λ h. stay)
      (λ h. spawn-Moves w l (start-Down l g h))
