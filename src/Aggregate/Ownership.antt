-- ===== src/Aggregate/Ownership.antt =====
-- When the association and disassociation handlers of packages/domain-lib/src/aggregate.ts report
-- that an owner has been written to the oracle, or removed from it.
use account_lookup_bc.Prelude.{List, ◌≡◌, refl, ◌↔◌, inl, inr, arith}
use account_lookup_bc.Effect.{ok, Action, pure, attempt, ◌>>=◌, Result-cases}
use account_lookup_bc.Messages.{
  Payload, Event, participant_association_created, AssociationCreatedPayload,
  participant_association_removed, AssociationRemovedPayload,
}
use account_lookup_bc.Services.{OracleAdapter, Services}
use account_lookup_bc.Aggregate.Validate.{validate_requester}
use account_lookup_bc.Aggregate.Oracles.{get_oracle_adapter}
use account_lookup_bc.Aggregate.Handlers.{
  party_of, unless, or_return, handle_association_request, handle_disassociate_request,
}
use account_lookup_bc.Aggregate.Clearance.{IsCleared, validate_requester-IsCleared_iff}
use account_lookup_bc.Aggregate.Gate.{success, failure, kind, requester-IsCleared}
use account_lookup_bc.Aggregate.Answer.{IsAdapterFor, get_oracle_adapter-IsAdapterFor_iff}

module _ {W : Type 0} (env : Services W) (adapters : List (OracleAdapter W)) (p : Payload)
    (w w' : W) where
  -- The owner is cleared, the adapter for the party type and the currency is found, and its `call`
  -- has resolved, in this order.
  abbrev pub OwnerHandled : (OracleAdapter W → Action W (Unit {0})) → Type 0
  OwnerHandled call =
      (a : OracleAdapter W) × (w₁ : W) × (w₂ : W) × IsCleared env p.owner_fsp_id w w₁
      × IsAdapterFor env adapters p.party_type p.currency w₁ a w₂
      × (call a w₂ ≡ (ok tt, w'))

  -- The common shape of the two handlers.
  module _ (call : OracleAdapter W → Action W (Unit {0}))
      (no_adapter failed done_event : Event) where
    abbrev owner_handler : Action W Event
    owner_handler = do
      objection ← validate_requester env (party_of p) p.owner_fsp_id
      unless objection (do
        found ← attempt (get_oracle_adapter env adapters p.party_type p.currency)
        or_return found no_adapter
            λ a. (do done ← attempt (call a); or_return done failed λ _. pure done_event))

    owner_handler_sound :
        (e : Event)
        → kind e ≡ success
        → kind no_adapter ≡ failure
        → kind failed ≡ failure
        → owner_handler w ≡ (ok e, w')
        → OwnerHandled call × (e ≡ done_event)
    owner_handler_sound e s n f h =
        let (w₁, owner, later) = requester-IsCleared env (party_of p) _ w _ e w' h s in
        let out = get_oracle_adapter env adapters p.party_type p.currency w₁ in
        let found = λ (a : OracleAdapter W).
          get_oracle_adapter-IsAdapterFor_iff env adapters p.party_type p.currency w₁ out.1 a in
        elim (Result-cases out.0) [
          | inl (a, chosen) ↦ elim (Result-cases (call a out.1).0) [
            | inl (_, done) ↦
                ((a, w₁, out.1, owner, (found a).0 (ground arith), ground arith), ground arith)
            | inr (x, rejected) ↦ ground arith
          ]
          | inr (x, missing) ↦ ground arith
        ]

    owner_handler_complete : OwnerHandled call → owner_handler w ≡ (ok done_event, w')
    owner_handler_complete (a, w₁, w₂, owner, found, done) = ground (
      arith,
      (validate_requester-IsCleared_iff env (party_of p) p.owner_fsp_id w w₁).1 owner,
      (get_oracle_adapter-IsAdapterFor_iff env adapters p.party_type p.currency w₁ w₂ a).1 found,
      done,
    )

  -- ParticipantAssociationCreatedEvt is published exactly when the owner is cleared, the adapter
  -- for the party type and the currency is found, and the call of its `associateParticipant` for
  -- the owner has resolved; the event then carries the owner and the party of the request.
  pub association_created_iff :
      (q : AssociationCreatedPayload)
      → (handle_association_request env adapters p w ≡ (ok (participant_association_created q), w'))
        ↔ (OwnerHandled (λ a.
              a.associate_participant p.owner_fsp_id p.party_type p.party_id p.party_sub_type
                p.currency)
            × (q ≡ record {
              party_id = p.party_id;
              owner_fsp_id = p.owner_fsp_id;
              party_type = p.party_type;
              party_sub_type = p.party_sub_type;
              extensions = p.extensions;
            }))
  unfolding handle_association_request
  association_created_iff q = (
    (λ h.
        let (handled, same) = owner_handler_sound _ _ _ _ _ refl refl refl h in
        (handled, ground arith)),
    λ (handled, same). rw same (owner_handler_complete _ _ _ _ handled),
  )

  -- ParticipantAssociationRemovedEvt is published exactly when the owner is cleared, the adapter
  -- for the party type and the currency is found, and the call of its `disassociateParticipant` for
  -- the owner has resolved; the event then carries the owner and the party of the request.
  pub association_removed_iff :
      (q : AssociationRemovedPayload)
      → (handle_disassociate_request env adapters p w
          ≡ (ok (participant_association_removed q), w'))
        ↔ (OwnerHandled (λ a.
              a.disassociate_participant p.owner_fsp_id p.party_type p.party_id p.party_sub_type
                p.currency)
            × (q ≡ record {
              party_id = p.party_id;
              owner_fsp_id = p.owner_fsp_id;
              party_type = p.party_type;
              party_sub_type = p.party_sub_type;
            }))
  unfolding handle_disassociate_request
  association_removed_iff q = (
    (λ h.
        let (handled, same) = owner_handler_sound _ _ _ _ _ refl refl refl h in
        (handled, ground arith)),
    λ (handled, same). rw same (owner_handler_complete _ _ _ _ handled),
  )
