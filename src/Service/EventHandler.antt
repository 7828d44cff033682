-- ===== src/Service/EventHandler.antt =====
-- `AccountLookupEventHandler` of packages/account-lookup-svc/src/handler.ts. Metrics and tracing
-- have no effect on what is sent, and are left out.
pub mod Batches
mod Durations
use account_lookup_bc.Prelude.{List, [], ◌∷◌, ◌++◌}
use account_lookup_bc.Effect.{Result, ok, err, Action, pure, attempt, ◌>>=◌, ◌>>◌}
use account_lookup_bc.Messages.{Message, DomainEventMsg}
use account_lookup_bc.Services.{OracleAdapter, Services}
use account_lookup_bc.Aggregate.HandleEvent.{handle_event}
use account_lookup_bc.Aggregate.Admin.{State, on_world, init, destroy}

-- The consumer and the producer of messages, as calls on the state of the world. `set_topics` and
-- `setBatchCallbackFn` only set fields of the consumer, and `send` takes the whole list.
pub record Messaging (W : Type 0) : Type 0 where
  pub connect_producer : Action W (Unit {0})
  pub connect_consumer : Action W (Unit {0})
  pub start_and_wait_for_rebalance : Action W (Unit {0})
  pub stop_consumer : Action W (Unit {0})
  pub send : List DomainEventMsg → Action W (Unit {0})

-- An event with the protocol fields of the message that it answers.
abbrev pub with_protocol : Message → DomainEventMsg → DomainEventMsg
with_protocol m out = record out {
  inbound_protocol_type = m.inbound_protocol_type;
  inbound_protocol_opaque_state = m.inbound_protocol_opaque_state;
}

-- The events are sent together, if there are any.
abbrev pub send_outputs : {W : Type 0} → Messaging W → List DomainEventMsg → Action W (Unit {0})
send_outputs messaging [] = pure tt
send_outputs messaging (out ∷ rest) = messaging.send (out ∷ rest)

module _ {W : Type 0} (env : Services W) (messaging : Messaging W) where
  -- `start`
  unfoldable pub start : Action (State W) (Unit {0})
  start = do
    init env
    on_world messaging.connect_producer
    on_world messaging.connect_consumer
    on_world messaging.start_and_wait_for_rebalance

  -- `destroy`
  unfoldable pub stop : Action (State W) (Unit {0})
  stop = do on_world messaging.stop_consumer; destroy env

  -- The loop of `_batchMsgHandler`: the events that were pushed, and how the loop ended.
  unfoldable pub handle_messages :
      List (OracleAdapter W) → List Message → W → (List DomainEventMsg × Result (Unit {0})) × W
  handle_messages adapters [] w = (([], ok tt), w)
  handle_messages adapters (m ∷ rest) w =
      let (r, w₁) = handle_event env adapters m w in
      let ((outputs, ended), w₂) = handle_messages adapters rest w₁ in
      elim r [ ok out ↦ ((with_protocol m out ∷ outputs, ended), w₂) | err e ↦ (([], err e), w₁) ]

  -- `_batchMsgHandler`: the `finally` part runs however the loop ended.
  unfoldable pub batch_msg_handler : List (OracleAdapter W) → List Message → Action W (Unit {0})
  batch_msg_handler adapters messages w =
      let ((outputs, ended), w₁) = handle_messages adapters messages w in
      let (sent, w₂) = send_outputs messaging outputs w₁ in
      elim sent [ ok _ ↦ (ended, w₂) | err e ↦ (err e, w₂) ]
