-- ===== src/Tests/Service.antt =====
-- The batch handler and the routes on the concrete services.
use account_lookup_bc.Prelude.{String, none, some, Bool, List, [], ◌∷◌, ℕ, suc, ◌==◌, ◌≡◌, ◌≢◌}
use account_lookup_bc.Effect.{ok, pure}
use account_lookup_bc.Messages.{Message, DomainEventMsg}
use account_lookup_bc.Types.{ParticipantLookup}
use account_lookup_bc.Aggregate.Admin.{State}
use account_lookup_bc.Service.EventHandler.{Messaging, batch_msg_handler}
use account_lookup_bc.Service.EventHandler.Batches.{Answers, batch_msg_handler-send}
use account_lookup_bc.Tests.World.{services, registered, payload, message}

abbrev messaging : Messaging ℕ
messaging = record {
  connect_producer = pure tt;
  connect_consumer = pure tt;
  start_and_wait_for_rebalance = pure tt;
  stop_consumer = pure tt;
  send = λ outs w. (ok tt, suc w);
}

abbrev batch : List Message
batch =
    message "PartyQueryReceivedEvt" (payload "payer" none)
    ∷ message "Unheard" (payload "payer" none)
    ∷ []

batch_msg_handler-send_example :
    (outs : List DomainEventMsg) × (w' : ℕ) × Answers services registered batch 0 outs w'
    × (batch ≡ [] → batch_msg_handler services messaging registered batch 0 ≡ (ok tt, 0))
    × (batch ≢ []
        → batch_msg_handler services messaging registered batch 0 ≡ messaging.send outs w')
batch_msg_handler-send_example = batch_msg_handler-send services registered messaging batch 0

abbrev initial : State ℕ
initial = record { adapters = registered; world = 0 }

abbrev admins_only : String → String → Bool
admins_only role privilege = role == "admin"

abbrev asked : ParticipantLookup
asked = record {
  party_id = some "999";
  party_type = some "MSISDN";
  party_sub_type = none;
  currency = none;
}
