-- ===== src/Tests/Lifecycle.antt =====
-- Concrete calls on a broker.
use project1_iot_server.Credential.Lifecycle.{
  BrokerLifecycle, VerificationReceipt, Spawn, new_broker_lifecycle, start_closed, describe,
  open_verified,
}
use project1_iot_server.Credential.Lifecycle.Phases.{
  challenged, opened, Moves, starts_closed, opens, Reached, fresh_one, after, phase_of,
}
use project1_iot_server.Credential.Lifecycle.Verified.{lifecycle_refines, describe_open}
use project1_iot_server.Prelude.{◌≡◌, refl, true, false, some, codes}

abbrev process : Spawn
process = record { fresh_epoch = some (codes "e1"); fresh_nonce = some (codes "n1"); starts = true }

abbrev receipt : VerificationReceipt
receipt = record { receipt_epoch = codes "e1"; receipt_nonce = codes "n1" }

abbrev started : BrokerLifecycle
started = (start_closed process new_broker_lifecycle).1

abbrev open_broker : BrokerLifecycle
open_broker = (open_verified receipt true false started).1

started_reached : Reached started
started_reached = after fresh_one (starts_closed process)

open_reached : Reached open_broker
open_reached = after started_reached (opens receipt true false)

phases_run :
    (phase_of started ≡ challenged (codes "e1") (codes "n1"))
    × (phase_of open_broker ≡ opened (codes "e1"))
    × ((open_verified receipt true false open_broker).0 ≡ false)
unfolding phase_of start_closed open_verified
phases_run = (refl, refl, refl)

lifecycle_refines_example : Moves (some receipt) (phase_of started) (phase_of open_broker)
lifecycle_refines_example =
    lifecycle_refines started open_broker (some receipt) started_reached (opens receipt true false)

described_run : (describe open_broker).is_open ≡ true
unfolding describe open_verified start_closed
described_run = refl

describe_open_example : phase_of open_broker ≡ opened (describe open_broker).described_epoch
describe_open_example = describe_open open_broker open_reached described_run
