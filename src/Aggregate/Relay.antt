-- ===== src/Aggregate/Relay.antt =====
-- The requests that `handleEvent` of packages/domain-lib/src/aggregate.ts validates and passes on,
-- and what every handler does when the validation of its subject objects.
use account_lookup_bc.Prelude.{some, List, ◌≡◌, ◌≢◌, refl, ◌↔◌, arith}
use account_lookup_bc.Effect.{ok}
use account_lookup_bc.Messages.{Payload, Event}
use account_lookup_bc.Services.{OracleAdapter, Services}
use account_lookup_bc.Aggregate.Validate.{validate_requester}
use account_lookup_bc.Aggregate.Handlers.{
  party_of, both_validated, handle_party_query_received, handle_party_info_available,
  handle_participant_query_received, get_party_rejected, get_participant_rejected,
  handle_association_request, handle_disassociate_request,
}
use account_lookup_bc.Aggregate.HandleEvent.{
  Request, party_info_available, party_rejected, participant_rejected, unknown_request, dispatch,
}
use account_lookup_bc.Aggregate.Gate.{success, kind}
use account_lookup_bc.Aggregate.Outcomes.{
  BothCleared, both_validated_sound, both_validated_complete,
}
use account_lookup_bc.Aggregate.Events.{subject, relayed}

module _ {W : Type 0} (env : Services W) (adapters : List (OracleAdapter W)) (p : Payload)
    (w w' : W) where
  both_validated_iff :
      (e₀ e e' : Event)
      → some e₀ ≡ some e
      → kind e' ≡ success
      → (both_validated env adapters p e₀ w ≡ (ok e', w'))
        ↔ (BothCleared env adapters p w w' × (e' ≡ e))
  both_validated_iff e₀ e e' same s = (
    (λ h. let (cleared, is) = both_validated_sound env adapters p w w' e₀ e' s h in (cleared, cc)),
    λ (cleared, is). cc (both_validated_complete env adapters p w w' e₀ cleared),
  )

  -- The three requests that are only passed on (PartyInfoAvailableEvt and the two rejections)
  -- report a success exactly when the requester and then the destination of the payload are
  -- cleared, and it is the event that copies the payload's fields.
  pub relay_iff :
      (r : Request) (e e' : Event)
      → relayed r p ≡ some e
      → kind e' ≡ success
      → (dispatch env adapters r p w ≡ (ok e', w')) ↔ (BothCleared env adapters p w w' × (e' ≡ e))
  unfolding dispatch handle_party_info_available get_party_rejected get_participant_rejected
  relay_iff party_info_available e e' same s = both_validated_iff _ e e' same s
  relay_iff party_rejected e e' same s = both_validated_iff _ e e' same s
  relay_iff participant_rejected e e' same s = both_validated_iff _ e e' same s
  relay_iff _ e e' same s = cc

  -- For every request but an unknown one: where the validation of the subject objects, that
  -- objection is the answer, and the state is the one that the validation left, so that no oracle
  -- and no second participant has been asked.
  pub refused_subject :
      (r : Request) (objection : Event)
      → r ≢ unknown_request
      → validate_requester env (party_of p) (subject r p) w ≡ (ok (some objection), w')
      → dispatch env adapters r p w ≡ (ok objection, w')
  unfolding dispatch handle_party_query_received handle_party_info_available
      handle_participant_query_received get_party_rejected get_participant_rejected
      handle_association_request handle_disassociate_request
  refused_subject unknown_request objection known refused = absurd (known refl)
  refused_subject _ objection known refused = ground arith
