-- ===== src/Ingress/Steps.antt =====
-- The steps of the ingress: the calls of its methods, and what the workers do, in any order.
use project1_iot_server.Clock.{Time}
use project1_iot_server.Telemetry.Errors.{Error}
use project1_iot_server.Telemetry.Message.{Message}
use project1_iot_server.Store.{Faults}
use project1_iot_server.Store.Persist.{PersistResult}
use project1_iot_server.Ingress.{
  Item, Work, received, taken, persisted, ending, Admitting, item_sent, item_counted, depth_read,
  count_accepted, read_depth, raise_mark, State, Services, start, admit, stop_admission,
  begin_drain,
}
use project1_iot_server.Ingress.Process.{begin_item, end_item, commit_item, acknowledge}
use project1_iot_server.Prelude.{
  ℕ, ◌-◌, ◌<◌, ◌≡◌, Bool, true, Option, some, List, [], ◌∷◌, ◌++◌, length, Bytes,
}

-- A worker that receives the item `it`, with `q` left in the queue.
abbrev pub take : Item → List Item → State → State
take it q s = record s { queue = q; working = received it ∷ s.working }

-- A worker that returns.
abbrev pub leave : State → State
leave s = record s { running = s.running - 1 }

pub data Step (v : Services) (a : State) : State → Type 0 where
  starts : (b : State) → start a ≡ some b → Step v a b
  admits :
      (topic payload : Bytes) (at : Time) (retained : Bool)
      → Step v a (admit topic payload at retained a).1
  counts :
      (xs ys : List Admitting)
      → a.admitting ≡ xs ++ (item_sent ∷ ys)
      → Step v a (count_accepted (xs ++ (item_counted ∷ ys)) a)
  observes :
      (xs ys : List Admitting)
      → a.admitting ≡ xs ++ (item_counted ∷ ys)
      → Step v a (read_depth xs ys a)
  raises :
      (depth : ℕ) (xs ys : List Admitting)
      → a.admitting ≡ xs ++ (depth_read depth ∷ ys)
      → Step v a (raise_mark depth (xs ++ ys) a)
  -- StopAdmission waits for the calls of Admit that hold the read lock.
  stops : a.admitting ≡ [] → Step v a (stop_admission a)
  drains : a.admitting ≡ [] → Step v a (begin_drain a)
  takes :
      (it : Item) (q : List Item)
      → a.queue ≡ it ∷ q
      → length a.working < a.running
      → Step v a (take it q a)
  begins :
      (it : Item) (xs ys : List Work)
      → a.working ≡ xs ++ (received it ∷ ys)
      → Step v a (begin_item (xs ++ (taken it ∷ ys)) a)
  commits :
      (f : Faults) (it : Item) (xs ys : List Work)
      → a.working ≡ xs ++ (taken it ∷ ys)
      → Step v a (commit_item v f it (record a { working = xs ++ ys }))
  acknowledges :
      (now : Time) (answer : Option Error) (m : Message) (r : PersistResult) (xs ys : List Work)
      → a.working ≡ xs ++ (persisted m r ∷ ys)
      → Step v a (acknowledge v now answer m r (record a { working = xs ++ ys }))
  ends : (xs ys : List Work) → a.working ≡ xs ++ (ending ∷ ys) → Step v a (end_item (xs ++ ys) a)
  leaves : a.stopping ≡ true → a.queue ≡ [] → length a.working < a.running → Step v a (leave a)

pub data Steps (v : Services) (a : State) : State → Type 0 where
  here : Steps v a a
  next : {b c : State} → Steps v a b → Step v b c → Steps v a c
