-- ===== src/Service/EventHandler/Batches.antt =====
-- What a batch of messages sends.
use account_lookup_bc.Prelude.{List, [], ◌∷◌, subst, ◌≡◌, ◌≢◌, refl, subst, inl, inr, arith}
use account_lookup_bc.Effect.{ok, err, Result-cases}
use account_lookup_bc.Messages.{Message, DomainEventMsg}
use account_lookup_bc.Services.{OracleAdapter, Services}
use account_lookup_bc.Aggregate.HandleEvent.{handle_event}
use account_lookup_bc.Aggregate.Events.{IsResolved, handle_event-IsResolved}
use account_lookup_bc.Service.EventHandler.{
  Messaging, with_protocol, handle_messages, batch_msg_handler,
}

module _ {W : Type 0} (env : Services W) (adapters : List (OracleAdapter W)) where
  -- Handling the messages one after the other, from `w` to `w'`, gives these events: what the
  -- aggregate answers each message with, under the protocol fields of that message.
  pub data Answers : List Message → W → List DomainEventMsg → W → Type 0 where
    done : (w : W) → Answers [] w [] w
    step :
        (m : Message) (ms : List Message) (out sent : DomainEventMsg) (outs : List DomainEventMsg)
        (w w₁ w₂ : W)
        → handle_event env adapters m w ≡ (ok out, w₁)
        → sent.event ≡ out.event
        → sent.inbound_protocol_type ≡ m.inbound_protocol_type
        → sent.inbound_protocol_opaque_state ≡ m.inbound_protocol_opaque_state
        → Answers ms w₁ outs w₂
        → Answers (m ∷ ms) w (sent ∷ outs) w₂

  event_of :
      (m : Message) (w : W) → (out : DomainEventMsg) × ((handle_event env adapters m w).0 ≡ ok out)
  event_of m w = elim (Result-cases (handle_event env adapters m w).0) [
    | inl (out, is) ↦ (out, is)
    | inr (e, is) ↦ absurd (subst IsResolved is (handle_event-IsResolved env adapters m w))
  ]

  module _ (messaging : Messaging W) where
    -- The loop over the messages of a batch always ends normally, with one event for each message
    -- in their order, each with the protocol fields of its message.
    pub handle_messages-Answers :
        (ms : List Message) (w : W)
        → (outs : List DomainEventMsg) × (w' : W) × (handle_messages env messaging adapters ms w
            ≡ ((outs, ok tt), w'))
          × Answers ms w outs w'
    unfolding handle_messages
    handle_messages-Answers [] w = ([], w, refl, done w)
    handle_messages-Answers (m ∷ ms) w =
        let (out, is) = event_of m w in
        let w₁ = (handle_event env adapters m w).1 in
        let (outs, w₂, rest, answers) = handle_messages-Answers ms w₁ in
        (
          with_protocol m out ∷ outs,
          w₂,
          ground (arith, is, rest),
          step m ms out (with_protocol m out) outs w w₁ w₂ (ground arith) refl refl refl answers,
        )

    send_ended :
        (outs : List DomainEventMsg) (w : W)
        → (elim (messaging.send outs w).0 [
          | ok _ ↦ (ok tt, (messaging.send outs w).1)
          | err e ↦ (err e, (messaging.send outs w).1)
        ])
          ≡ messaging.send outs w
    send_ended outs w = elim (Result-cases (messaging.send outs w).0) [
      | inl (u, is) ↦ ground (arith, is)
      | inr (e, is) ↦ ground (arith, is)
    ]

    -- A batch that is not empty hands the producer, in one `send`, one event for each message, in
    -- the order of the messages, which is what the aggregate answers the message with under the
    -- message's protocol fields; and the batch ends the way that `send` ends. An empty batch does
    -- nothing.
    pub batch_msg_handler-send :
        (ms : List Message) (w : W)
        → (outs : List DomainEventMsg) × (w' : W) × Answers ms w outs w'
          × (ms ≡ [] → batch_msg_handler env messaging adapters ms w ≡ (ok tt, w))
          × (ms ≢ [] → batch_msg_handler env messaging adapters ms w ≡ messaging.send outs w')
    unfolding batch_msg_handler handle_messages
    batch_msg_handler-send [] w = ([], w, done w, λ e. refl, λ filled. absurd (filled refl))
    batch_msg_handler-send (m ∷ ms) w =
        let (out, is) = event_of m w in
        let w₁ = (handle_event env adapters m w).1 in
        let (outs, w₂, rest, answers) = handle_messages-Answers ms w₁ in
        let sent = with_protocol m out in
        (
          sent ∷ outs,
          w₂,
          step m ms out sent outs w w₁ w₂ (ground arith) refl refl refl answers,
          λ e. cc,
          λ filled. ground (arith, is, rest, send_ended (sent ∷ outs) w₂),
        )
