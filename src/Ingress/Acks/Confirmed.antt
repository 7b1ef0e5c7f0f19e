-- ===== src/Ingress/Acks/Confirmed.antt =====
-- The deliveries over all steps of the ingress.
use mathlib.Core.Path.{subst}
use project1_iot_server.Store.{Db}
use project1_iot_server.Ingress.{
  count_accepted, read_depth, raise_mark, Options, Work, received, ending, taken, persisted, State,
  Services, new_ingress, stop_admission,
}
use project1_iot_server.Ingress.Process.{begin_item, end_item, commit_item, acknowledge}
use project1_iot_server.Ingress.Steps.{
  Step, starts, admits, counts, observes, raises, stops, drains, begins, ends, takes, commits,
  acknowledges, leaves, Steps, here, next,
}
use project1_iot_server.Ingress.Acks.Published.{
  Safe, Backed, Waiting, Unchanged-Safe, admit-Unchanged, start-Unchanged, drain-Unchanged,
  All-remove, All-insert, commit_valid-Safe, send_ack-Safe,
}
use project1_iot_server.Prelude.{◌≡◌, refl, sym, some, List, [], ◌∷◌, ◌++◌, arith, All}

module _ (v : Services) where
  removed-Safe :
      (a : State) (w : Work) (xs ys : List Work)
      → a.working ≡ xs ++ (w ∷ ys)
      → Safe v a
      → Waiting a.db w × Safe v (record a { working = xs ++ ys })
  removed-Safe a w xs ys h k =
      let (p, q) = All-remove (Waiting a.db) xs ys w (subst (All (Waiting a.db)) h k.held) in
      (p, record { sent = k.sent; held = q })

  Step-Safe : (a b : State) → Step v a b → Safe v a → Safe v b
  unfolding stop_admission count_accepted read_depth raise_mark begin_item end_item commit_item
      acknowledge Waiting
  Step-Safe a b (starts t h) k = Unchanged-Safe v a t (start-Unchanged a t h) k
  Step-Safe a b (admits topic payload at retained) k =
      Unchanged-Safe v a _ (admit-Unchanged topic payload at retained a) k
  Step-Safe a b (counts xs ys h) k = record { sent = k.sent; held = k.held }
  Step-Safe a b (observes xs ys h) k = record { sent = k.sent; held = k.held }
  Step-Safe a b (raises depth xs ys h) k = record { sent = k.sent; held = k.held }
  Step-Safe a b (stops h) k = record { sent = k.sent; held = k.held }
  Step-Safe a b (drains h) k = Unchanged-Safe v a _ (drain-Unchanged a) k
  Step-Safe a b (begins it xs ys h) k =
      let (w, s) = removed-Safe a (received it) xs ys h k in
      record { sent = k.sent; held = All-insert (Waiting a.db) xs ys (taken it) tt s.held }
  Step-Safe a b (ends xs ys h) k =
      let (w, s) = removed-Safe a ending xs ys h k in record { sent = k.sent; held = s.held }
  Step-Safe a b (takes it q h l) k = record { sent = k.sent; held = (tt, k.held) }
  Step-Safe a b (commits f it xs ys h) k =
      commit_valid-Safe v f _ _ (removed-Safe a (taken it) xs ys h k).1
  Step-Safe a b (acknowledges now answer m r xs ys h) k =
      let (w, s) = removed-Safe a (persisted m r) xs ys h k in
      send_ack-Safe v m.topic.gateway_id m.batch.message_id r.outcome now _ answer _ refl w s
  Step-Safe a b (leaves h l n) k = record { sent = k.sent; held = k.held }

  Steps-Safe : (a b : State) → Steps v a b → Safe v a → Safe v b
  Steps-Safe a b here k = k
  Steps-Safe a b (next s t) k = Step-Safe _ _ t (Steps-Safe a _ s k)

  new_nothing :
      (o : Options) (db : Db) (s : State)
      → new_ingress o db ≡ some s
      → (s.deliveries ≡ []) × (s.working ≡ [])
  unfolding new_ingress
  new_nothing o db s h = ground arith

  new-Safe : (o : Options) (db : Db) (s : State) → new_ingress o db ≡ some s → Safe v s
  new-Safe o db s h =
      let (d, w) = new_nothing o db s h in
      record {
        sent = subst (All (Backed v s.db)) (sym d) tt;
        held = subst (All (Waiting s.db)) (sym w) tt;
      }

  -- An ACK is handed to the publisher only behind a commit. In every state that a new ingress reaches,
  -- by its methods and its workers in any order, with any driver errors, lost answers of COMMIT and
  -- failures of the publisher, each delivery is the ACK of one message on the topic of its Gateway,
  -- with QoS 1 and not retained, and the ledger has a row for that message and Gateway.
  pub ack_after_commit :
      (o : Options) (db : Db) (a s : State)
      → new_ingress o db ≡ some a
      → Steps v a s
      → All (Backed v s.db) s.deliveries
  ack_after_commit o db a s h k = (Steps-Safe a s k (new-Safe o db a h)).sent
