-- ===== src/Aggregate/Events.antt =====
-- `handleEvent` of packages/domain-lib/src/aggregate.ts as a whole: it answers every message, and
-- reports a success only for a participant that is cleared.
use account_lookup_bc.Prelude.{
  Option, none, some, true, List, ◌≡◌, sym, subst, ◌≢◌, arith, eq_iff, Bool-cases, Option-cases,
  ◌==◌, inl, inr, ◌∙◌,
}
use account_lookup_bc.Effect.{Result, ok, err, Result-cases}
use account_lookup_bc.Types.{Nullable, invalid_message_payload, invalid_message_type}
use account_lookup_bc.Messages.{
  Payload, Message, Event, DomainEventMsg, event_msg, invalid_message_payload_error,
  invalid_message_type_error, party_query_response, party_rejected_response,
  participant_rejected_response,
}
use account_lookup_bc.Services.{OracleAdapter, Services}
use account_lookup_bc.Aggregate.Validate.{message_error}
use account_lookup_bc.Aggregate.Handlers.{
  party_of, handle_party_query_received, handle_party_info_available,
  handle_participant_query_received, get_party_rejected, get_participant_rejected,
  handle_association_request, handle_disassociate_request,
}
use account_lookup_bc.Aggregate.HandleEvent.{
  Request, party_info_available, association_request_received, disassociate_request_received,
  party_rejected, participant_rejected, unknown_request, request_of, dispatch, or_unknown_error,
  pass_protocol, handle_event,
}
use account_lookup_bc.Aggregate.Clearance.{IsCleared}
use account_lookup_bc.Aggregate.Gate.{success, unforeseen, kind, requester-IsCleared}
use account_lookup_bc.Aggregate.Foresight.{IsForeseen, is_foreseen, dispatch-Foresees}

-- The participant whose request it is: the owner for an association, or else the requester.
abbrev pub subject : Request → Payload → Nullable
subject association_request_received p = p.owner_fsp_id
subject disassociate_request_received p = p.owner_fsp_id
subject _ p = p.requester_fsp_id

-- The requests that are only validated and passed on, with the event that passes them on.
abbrev pub relayed : Request → Payload → Option Event
relayed party_info_available p = some (
    party_query_response (record {
      requester_fsp_id = p.requester_fsp_id;
      destination_fsp_id = p.destination_fsp_id;
      party_dob = p.party_dob;
      merchant_classification_code = p.merchant_classification_code;
      name = p.name;
      first_name = p.first_name;
      middle_name = p.middle_name;
      last_name = p.last_name;
      owner_fsp_id = p.owner_fsp_id;
      party_type = p.party_type;
      party_id = p.party_id;
      party_sub_type = p.party_sub_type;
      currency = p.currency;
      kyc_info = p.kyc_info;
      supported_currencies = p.supported_currencies;
      extensions = p.extensions;
    }))
relayed party_rejected p = some (
    party_rejected_response (record {
      party_id = p.party_id;
      party_type = p.party_type;
      party_sub_type = p.party_sub_type;
      currency = p.currency;
      error_information = p.error_information;
    }))
relayed participant_rejected p = some (
    participant_rejected_response (record {
      party_id = p.party_id;
      party_type = p.party_type;
      party_sub_type = p.party_sub_type;
      currency = p.currency;
      error_information = p.error_information;
    }))
relayed _ p = none

-- The call has resolved, and not to the event of the catch-all.
abbrev pub IsResolved : Result DomainEventMsg → Type 0
IsResolved (ok out) = kind out.event ≢ unforeseen
IsResolved (err _) = ⊥

module _ {W : Type 0} (env : Services W) (adapters : List (OracleAdapter W)) where
  foreseen_event :
      (m : Message) (outcome : Result Event)
      → IsForeseen outcome
      → is_foreseen (kind (or_unknown_error m outcome)) ≡ true
  foreseen_event m (ok e) h = h
  foreseen_event m (err x) h = absurd h

  module _ (m : Message) (w : W) where
    handle_event_missing :
        m.payload ≡ none
        → handle_event env adapters m w ≡ (
          ok (
              pass_protocol env adapters m
                (invalid_message_payload_error (message_error m invalid_message_payload))),
          w,
        )
    unfolding handle_event
    handle_event_missing missing = ground (arith, missing)

    handle_event_other :
        (p : Payload)
        → m.payload ≡ some p
        → m.msg_type ≢ env.domain_event
        → handle_event env adapters m w ≡ (
          ok (
              pass_protocol env adapters m
                (invalid_message_type_error (message_error m invalid_message_type))),
          w,
        )
    unfolding handle_event
    handle_event_other p given other = ground (arith, eq_iff m.msg_type env.domain_event)

    handle_event_valid :
        (p : Payload)
        → m.payload ≡ some p
        → m.msg_type ≡ env.domain_event
        → handle_event env adapters m w ≡ (
          ok (event_msg (or_unknown_error m (dispatch env adapters (request_of m.msg_name) p w).0)),
          (dispatch env adapters (request_of m.msg_name) p w).1,
        )
    unfolding handle_event
    handle_event_valid p given event = ground (arith, eq_iff m.msg_type env.domain_event)

  -- Whatever the services and the adapters do, rejections included, `handleEvent` resolves for
  -- every message, and never to the event of its catch-all.
  pub handle_event-IsResolved : (m : Message) (w : W) → IsResolved (handle_event env adapters m w).0
  handle_event-IsResolved m w = elim (Option-cases m.payload) [
    | inl missing ↦ subst (λ r. IsResolved r.0) (sym (handle_event_missing m w missing)) (λ e. cc)
    | inr (p, given) ↦ elim (Bool-cases (m.msg_type == env.domain_event)) [
      | inl event ↦
          let out = dispatch env adapters (request_of m.msg_name) p w in
          let foreseen =
            foreseen_event m out.0
              ((dispatch-Foresees env adapters (request_of m.msg_name) p).at w) in
          subst (λ r. IsResolved r.0) (sym (handle_event_valid m w p given ((eq_iff _ _).0 event)))
            (λ e. ground (arith, e, foreseen))
      | inr other ↦
          subst (λ r. IsResolved r.0)
            (sym (
              handle_event_other m w p given
                (λ e. ground (arith, eq_iff m.msg_type env.domain_event))))
            (λ e. cc)
    ]
  ]

  dispatch-IsCleared :
      (r : Request) (p : Payload) (w w' : W) (e : Event)
      → kind e ≡ success
      → dispatch env adapters r p w ≡ (ok e, w')
      → (w₁ : W) × IsCleared env (subject r p) w w₁
  unfolding dispatch handle_party_query_received handle_party_info_available
      handle_participant_query_received get_party_rejected get_participant_rejected
      handle_association_request handle_disassociate_request
  dispatch-IsCleared unknown_request p w w' e s h = ground arith
  dispatch-IsCleared association_request_received p w w' e s h =
      let (w₁, cleared, later) = requester-IsCleared env (party_of p) _ w _ e w' h s in
      (w₁, cleared)
  dispatch-IsCleared disassociate_request_received p w w' e s h =
      let (w₁, cleared, later) = requester-IsCleared env (party_of p) _ w _ e w' h s in
      (w₁, cleared)
  dispatch-IsCleared _ p w w' e s h =
      let (w₁, cleared, later) = requester-IsCleared env (party_of p) _ w _ e w' h s in
      (w₁, cleared)

  -- If `handleEvent` reports a success, then the message is a domain event with a payload, and the
  -- participant whose request it is (the owner for an association or disassociation, else the
  -- requester) was cleared by the participant service before anything else was called.
  pub handle_event-IsCleared :
      (m : Message) (w w' : W) (out : DomainEventMsg)
      → handle_event env adapters m w ≡ (ok out, w')
      → kind out.event ≡ success
      → (p : Payload) × (w₁ : W) × (m.payload ≡ some p)
        × (m.msg_type ≡ env.domain_event)
        × IsCleared env (subject (request_of m.msg_name) p) w w₁
  handle_event-IsCleared m w w' out h s = elim (Option-cases m.payload) [
    | inl missing ↦ ground (arith, handle_event_missing m w missing)
    | inr (p, given) ↦ elim (Bool-cases (m.msg_type == env.domain_event)) [
      | inl event ↦
          let is_event : m.msg_type ≡ env.domain_event = (eq_iff _ _).0 event in
          let (w₁, cleared) =
            dispatch-IsCleared (request_of m.msg_name) p w w' out.event s
              (ground (arith, handle_event_valid m w p given is_event)) in
          (p, w₁, given, is_event, cleared)
      | inr other ↦
          ground (arith, handle_event_other m w p given, eq_iff m.msg_type env.domain_event)
    ]
  ]

  -- A success that `handleEvent` reports is what the handler of the request resolved to.
  pub handle_event-dispatch :
      (m : Message) (w w' : W) (out : DomainEventMsg)
      → handle_event env adapters m w ≡ (ok out, w')
      → kind out.event ≡ success
      → (p : Payload) × (m.payload ≡ some p)
        × (dispatch env adapters (request_of m.msg_name) p w ≡ (ok out.event, w'))
  handle_event-dispatch m w w' out h s =
      let (p, w₁, given, is_event, cleared) = handle_event-IsCleared m w w' out h s in
      let valid = sym (handle_event_valid m w p given is_event) ∙ h in
      let outcome = dispatch env adapters (request_of m.msg_name) p w in
      elim (Result-cases outcome.0) [
        | inl (e, done) ↦ (p, given, ground (arith, valid, done))
        | inr (x, failed) ↦ ground (arith, valid, failed, s)
      ]
