-- ===== src/Aggregate/Outcomes.antt =====
-- What the handlers of packages/domain-lib/src/aggregate.ts have done when they report a success.
use account_lookup_bc.Prelude.{
  true, false, List, ◌≡◌, refl, ◌↔◌, ◌⊎◌, inl, inr, arith, is_truthy, Bool-cases,
}
use account_lookup_bc.Effect.{ok, err, pure, ◌>>=◌, Result-cases}
use account_lookup_bc.Types.{Nullable}
use account_lookup_bc.Messages.{
  Payload, Event, party_info_requested, PartyInfoRequestedPayload, participant_query_response,
  ParticipantQueryResponsePayload,
}
use account_lookup_bc.Services.{OracleAdapter, Services}
use account_lookup_bc.Aggregate.Validate.{validate_destination}
use account_lookup_bc.Aggregate.Handlers.{
  party_of, unless, both_validated, fsp_id_from_oracle, resolve_destination, info_requested,
  participant_response, handle_party_query_received, handle_participant_query_received,
}
use account_lookup_bc.Aggregate.Clearance.{
  IsCleared, validate_requester-IsCleared_iff, validate_destination-IsCleared_iff,
}
use account_lookup_bc.Aggregate.Gate.{success, kind, requester-IsCleared, destination-IsCleared}

module _ {W : Type 0} (env : Services W) (adapters : List (OracleAdapter W)) (p : Payload) where
  -- The destination is the one that the payload names, or else the one that the oracle gives.
  abbrev pub IsDestination : W → Nullable → W → Type 0
  IsDestination w destination w' =
      (is_truthy p.destination_fsp_id ≡ true) × (destination ≡ p.destination_fsp_id) × (w ≡ w')
      ⊎ (is_truthy p.destination_fsp_id ≡ false)
        × (fsp_id_from_oracle env adapters p w ≡ (ok destination, w'))

  -- The requester is cleared in `w`, and in the state that this leaves the destination is.
  abbrev pub BothCleared : W → W → Type 0
  BothCleared w w' =
      (w₁ : W) × IsCleared env p.requester_fsp_id w w₁ × IsCleared env p.destination_fsp_id w₁ w'

  module _ (w w' : W) where
    pub both_validated_sound :
        (e e' : Event)
        → kind e' ≡ success
        → both_validated env adapters p e w ≡ (ok e', w')
        → BothCleared w w' × (e' ≡ e)
    both_validated_sound e e' s h =
        let (w₁, requester, later) = requester-IsCleared env (party_of p) _ w _ e' w' h s in
        let (w₂, destination, last) = destination-IsCleared env (party_of p) _ w₁ _ e' w' later s in
        ((w₁, requester, ground arith), ground arith)

    pub both_validated_complete :
        (e : Event) → BothCleared w w' → both_validated env adapters p e w ≡ (ok e, w')
    both_validated_complete e (w₁, requester, destination) = ground (
      arith,
      (validate_requester-IsCleared_iff env (party_of p) p.requester_fsp_id w w₁).1 requester,
      (validate_destination-IsCleared_iff env (party_of p) p.destination_fsp_id w₁ w').1
          destination,
    )

    resolve_destination_sound :
        (destination : Nullable)
        → resolve_destination env adapters p w ≡ (ok (ok destination), w')
        → IsDestination w destination w'
    unfolding resolve_destination
    resolve_destination_sound destination h = elim (Bool-cases (is_truthy p.destination_fsp_id)) [
      | inl named ↦ inl (named, ground arith, ground arith)
      | inr unnamed ↦ inr (unnamed, ground arith)
    ]

    resolve_destination_complete :
        (destination : Nullable)
        → IsDestination w destination w'
        → resolve_destination env adapters p w ≡ (ok (ok destination), w')
    unfolding resolve_destination
    resolve_destination_complete destination (inl (named, same, still)) = rw named (cc)
    resolve_destination_complete destination (inr (unnamed, found)) = rw unnamed ground arith

  module _ (w w' : W) where
    -- The rest of a handler that reports `event d` once the destination `d` is cleared.
    reported_destination :
        (event : Nullable → Event) (d : Nullable) (e : Event) (s : W)
        → kind e ≡ success
        → (validate_destination env (party_of p) d >>= λ objection.
              unless objection (pure (event d)))
            s
          ≡ (ok e, w')
        → IsCleared env d s w' × (e ≡ event d)
    reported_destination event d e s reported h =
        let (w₁, destination, last) =
          destination-IsCleared env (party_of p) _ s _ e w' h reported in
        (ground arith, ground arith)

    party_query_sound :
        (q : PartyInfoRequestedPayload)
        → handle_party_query_received env adapters p w ≡ (ok (party_info_requested q), w')
        → (destination : Nullable) × (w₁ : W) × (w₂ : W) × IsCleared env p.requester_fsp_id w w₁
          × IsDestination w₁ destination w₂
          × IsCleared env destination w₂ w'
          × (q ≡ info_requested p destination)
    unfolding handle_party_query_received
    party_query_sound q h =
        let (w₁, requester, later) = requester-IsCleared env (party_of p) _ w _ _ w' h refl in
        let out = resolve_destination env adapters p w₁ in
        elim (Result-cases out.0) [
          | inl (ok d, e) ↦
              let (destination, same) =
                reported_destination (λ d'. party_info_requested (info_requested p d')) d
                  (party_info_requested q) out.1 refl (ground arith) in
              (
                d,
                w₁,
                out.1,
                requester,
                resolve_destination_sound w₁ out.1 d (ground arith),
                destination,
                ground arith,
              )
          | inl (err x, e) ↦ ground arith
          | inr (x, e) ↦ ground arith
        ]

    party_query_complete :
        (q : PartyInfoRequestedPayload)
        → (destination : Nullable) × (w₁ : W) × (w₂ : W) × IsCleared env p.requester_fsp_id w w₁
          × IsDestination w₁ destination w₂
          × IsCleared env destination w₂ w'
          × (q ≡ info_requested p destination)
        → handle_party_query_received env adapters p w ≡ (ok (party_info_requested q), w')
    unfolding handle_party_query_received
    party_query_complete q (d, w₁, w₂, requester, resolved, destination, same) = ground (
      arith,
      (validate_requester-IsCleared_iff env (party_of p) p.requester_fsp_id w w₁).1 requester,
      resolve_destination_complete w₁ w₂ d resolved,
      (validate_destination-IsCleared_iff env (party_of p) d w₂ w').1 destination,
    )

    -- A party query is answered with PartyInfoRequestedEvt exactly when, in this order, the
    -- requester is cleared, a destination is known (the one of the payload, or else the one that
    -- the oracle gives), and that destination is cleared; the event then carries the fields of the
    -- query with that destination.
    pub party_query_iff :
        (q : PartyInfoRequestedPayload)
        → (handle_party_query_received env adapters p w ≡ (ok (party_info_requested q), w')) ↔ (
            (destination : Nullable) × (w₁ : W) × (w₂ : W) × IsCleared env p.requester_fsp_id w w₁
            × IsDestination w₁ destination w₂
            × IsCleared env destination w₂ w'
            × (q ≡ record {
              requester_fsp_id = p.requester_fsp_id;
              destination_fsp_id = destination;
              party_type = p.party_type;
              party_id = p.party_id;
              party_sub_type = p.party_sub_type;
              currency = p.currency;
            }))
    party_query_iff q = (party_query_sound q, party_query_complete q)

    participant_query_sound :
        (q : ParticipantQueryResponsePayload)
        → handle_participant_query_received env adapters p w
          ≡ (ok (participant_query_response q), w')
        → (owner : Nullable) × (w₁ : W) × (w₂ : W) × IsCleared env p.requester_fsp_id w w₁
          × (fsp_id_from_oracle env adapters p w₁ ≡ (ok owner, w₂))
          × IsCleared env owner w₂ w'
          × (q ≡ participant_response p owner)
    unfolding handle_participant_query_received
    participant_query_sound q h =
        let (w₁, requester, later) = requester-IsCleared env (party_of p) _ w _ _ w' h refl in
        let out = fsp_id_from_oracle env adapters p w₁ in
        elim (Result-cases out.0) [
          | inl (d, e) ↦
              let (owner, same) =
                reported_destination (λ d'. participant_query_response (participant_response p d'))
                  d (participant_query_response q) out.1 refl (ground arith) in
              (d, w₁, out.1, requester, ground arith, owner, ground arith)
          | inr (x, e) ↦ ground arith
        ]

    -- A participant query is answered with ParticipantQueryResponseEvt exactly when the requester
    -- is cleared, the oracle gives an owner, and that owner is cleared, in this order; the event
    -- then carries the fields of the query with that owner.
    pub participant_query_iff :
        (q : ParticipantQueryResponsePayload)
        → (handle_participant_query_received env adapters p w
            ≡ (ok (participant_query_response q), w'))
          ↔ ((owner : Nullable) × (w₁ : W) × (w₂ : W) × IsCleared env p.requester_fsp_id w w₁
              × (fsp_id_from_oracle env adapters p w₁ ≡ (ok owner, w₂))
              × IsCleared env owner w₂ w'
              × (q ≡ record {
                requester_fsp_id = p.requester_fsp_id;
                owner_fsp_id = owner;
                party_type = p.party_type;
                party_id = p.party_id;
                party_sub_type = p.party_sub_type;
                currency = p.currency;
              }))
    unfolding handle_participant_query_received
    participant_query_iff q = (
      participant_query_sound q,
      λ (d, w₁, w₂, requester, found, owner, same). ground (
        arith,
        (validate_requester-IsCleared_iff env (party_of p) p.requester_fsp_id w w₁).1 requester,
        found,
        (validate_destination-IsCleared_iff env (party_of p) d w₂ w').1 owner,
      ),
    )
