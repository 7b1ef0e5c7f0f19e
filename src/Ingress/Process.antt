-- ===== src/Ingress/Process.antt =====
-- process of src/internal/mqttingress/ingress.go, cut at Persist, which is one transaction: the part up
-- to its result, and the part for the ACK.
use project1_iot_server.Clock.{Time}
use project1_iot_server.Telemetry.Errors.{Error, Result, ok, err}
use project1_iot_server.Telemetry.Ack.{
  CommitAck, outcome_unconfirmed, committed, duplicate_committed, is_confirmed, new_commit_ack,
}
use project1_iot_server.Telemetry.Message.{Message, validate}
use project1_iot_server.Store.{Faults}
use project1_iot_server.Store.Persist.{MessageIdentity, PersistResult, persist}
use project1_iot_server.Ingress.{ending, Work, Item, persisted, Counters, State, Services}
use project1_iot_server.Prelude.{
  List, suc, ◌+◌, Bool, false, not, ◌&&◌, Option, none, some, ◌∷◌, if◌then◌else◌, Bytes, bytes_eq,
}

-- An item whose outcome is counted, before the deferred part of process.
abbrev pub finished : State → State
finished s = record s { working = ending ∷ s.working }

-- The start of process, with the work `rest` of the workers then.
unfoldable pub begin_item : List Work → State → State
begin_item rest s = record s {
  working = rest;
  counters = record s.counters { processed = suc s.counters.processed };
}

-- The deferred part of process.
unfoldable pub end_item : List Work → State → State
end_item rest s = record s {
  working = rest;
  counters = record s.counters { processing_count = suc s.counters.processing_count };
}

-- identityMatches
unfoldable pub identity_matches : Message → MessageIdentity → Bool
identity_matches m id =
    bytes_eq id.gateway_id m.topic.gateway_id
    && bytes_eq id.sensor_id m.topic.sensor_id
    && bytes_eq id.message_id m.batch.message_id

-- The counters of a confirmed commit.
unfoldable pub count_commit : PersistResult → Counters → Counters
count_commit r c = elim r.outcome [
  | committed ↦ record c {
    committed = suc c.committed;
    samples_new = c.samples_new + r.samples_saved;
  }
  | duplicate_committed ↦ record c { duplicate_committed = suc c.duplicate_committed }
  | outcome_unconfirmed ↦ c
]

-- The tests on the result of Persist. The item then waits for its ACK.
unfoldable pub after_persist : Message → Result PersistResult → State → State
after_persist m (err e) s = finished (record s {
  counters = record s.counters { persist_failures = suc s.counters.persist_failures };
})
after_persist m (ok r) s =
    if not (is_confirmed r.outcome)
    then finished (record s {
      counters = record s.counters { commit_unconfirmed = suc s.counters.commit_unconfirmed };
    })
    else if not (identity_matches m r.identity)
    then finished (record s {
      counters = record s.counters { identity_mismatch = suc s.counters.identity_mismatch };
    })
    else record s { working = persisted m r ∷ s.working; counters = count_commit r s.counters }

abbrev pub build_failure : State → State
build_failure s = finished (record s {
  counters = record s.counters { ack_build_failures = suc s.counters.ack_build_failures };
})

-- The publication of an ACK, by the answer of the publisher.
unfoldable pub publish : Bytes → Bytes → Option Error → State → State
publish topic wire answer s =
    let c = s.counters in
    finished (record s {
      deliveries =
          record { topic = topic; payload = wire; qos = 1; retained = false } ∷ s.deliveries;
      counters = elim answer [
        | none ↦ record c { ack_published = suc c.ack_published }
        | some e ↦ record c { ack_publish_failures = suc c.ack_publish_failures }
      ];
    })

unfoldable pub publish_wire : Bytes → Option Bytes → Option Error → State → State
publish_wire topic none answer s = build_failure s
publish_wire topic (some wire) answer s = publish topic wire answer s

module _ (v : Services) where
  -- The repository on a message that is valid.
  unfoldable pub commit_valid : Faults → Result Message → State → State
  commit_valid f (err e) s = finished (record s {
    counters = record s.counters { validation_rejected = suc s.counters.validation_rejected };
  })
  commit_valid f (ok m) s =
      let (result, db) = persist v.format_time v.platform.uuid f s.db m in
      after_persist m result (record s { db = db })

  -- process up to the result of Persist, for an item that has left `working`.
  unfoldable pub commit_item : Faults → Item → State → State
  commit_item f it s =
      commit_valid f (validate v.platform (some v.limits) it.topic it.payload it.received_at) s

  unfoldable pub send_ack : Result (Bytes × CommitAck) → Option Error → State → State
  send_ack (err e) answer s = build_failure s
  send_ack (ok (topic, ack)) answer s = publish_wire topic (v.marshal ack) answer s

  -- process from the result of Persist on, at the time `now`.
  unfoldable pub acknowledge : Time → Option Error → Message → PersistResult → State → State
  acknowledge now answer m r s =
      send_ack (new_commit_ack v.platform.uuid m.topic.gateway_id m.batch.message_id r.outcome now)
        answer s
