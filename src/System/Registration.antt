-- ===== src/System/Registration.antt =====
-- Messages to an aggregate whose adapters are all built in, one after the other: what an association
-- event promises, the next participant query finds.
use account_lookup_bc.Prelude.{none, some, List, ℕ, find, ◌≡◌, sym, subst, ap, ◌∙◌, arith}
use account_lookup_bc.Effect.{ok}
use account_lookup_bc.Messages.{
  Payload, Message, DomainEventMsg, participant_association_created, AssociationCreatedPayload,
  participant_query_response, ParticipantQueryResponsePayload,
}
use account_lookup_bc.Services.{OracleAdapter, Services}
use account_lookup_bc.Implementations.Store.{matches, Store, StoreLaws}
use account_lookup_bc.Implementations.Builtin.{participant_query}
use account_lookup_bc.Implementations.Builtin.Search.{SearchStore}
use account_lookup_bc.Implementations.Builtin.Quiet.{IsQuiet, IsQuiet-trans, lookup-associate_quiet}
use account_lookup_bc.Aggregate.Gate.{kind}
use account_lookup_bc.Aggregate.Handlers.{
  handle_association_request, handle_participant_query_received,
}
use account_lookup_bc.Aggregate.HandleEvent.{request_of, dispatch, handle_event}
use account_lookup_bc.Aggregate.Events.{handle_event-dispatch}
use account_lookup_bc.System.Builtin.{IsBuiltinSystem, association_step, query_step}

module _ {W : Type 0} (env : Services W) (adapters : List (OracleAdapter W)) (st : Store W)
    (search : SearchStore W) (secs : ℕ) (laws : StoreLaws st) where
  open laws use {docs}

  pub record IsSameParty (p p' : Payload) : Type 0 where
    pub same_type : p'.party_type ≡ p.party_type
    pub same_id : p'.party_id ≡ p.party_id
    pub same_sub_type : p'.party_sub_type ≡ p.party_sub_type
    pub same_currency : p'.currency ≡ p.currency

  module _ (m : Message) (p : Payload) (out : DomainEventMsg) (w w' : W)
      (given : m.payload ≡ some p) (h : handle_event env adapters m w ≡ (ok out, w')) where
    same_payload : (p' : Payload) → m.payload ≡ some p' → p' ≡ p
    same_payload p' given' = ground (arith, given, given')

    pub association_handled :
        (q : AssociationCreatedPayload)
        → m.msg_name ≡ "ParticipantAssociationRequestReceivedEvt"
        → out.event ≡ participant_association_created q
        → handle_association_request env adapters p w ≡ (ok (participant_association_created q), w')
    unfolding dispatch request_of
    association_handled q named e =
        let (p', given', done) = handle_event-dispatch env adapters m w w' out h (ap kind e) in
        subst (λ x. handle_association_request env adapters x w ≡ (ok out.event, w'))
          (same_payload p' given')
          (subst (λ n. dispatch env adapters (request_of n) p' w ≡ (ok out.event, w')) named done)
        ∙ ap (λ v. (ok v, w')) e

    query_handled :
        (q : ParticipantQueryResponsePayload)
        → m.msg_name ≡ "ParticipantQueryReceivedEvt"
        → out.event ≡ participant_query_response q
        → handle_participant_query_received env adapters p w
          ≡ (ok (participant_query_response q), w')
    unfolding dispatch request_of
    query_handled q named e =
        let (p', given', done) = handle_event-dispatch env adapters m w w' out h (ap kind e) in
        subst (λ x. handle_participant_query_received env adapters x w ≡ (ok out.event, w'))
          (same_payload p' given')
          (subst (λ n. dispatch env adapters (request_of n) p' w ≡ (ok out.event, w')) named done)
        ∙ ap (λ v. (ok v, w')) e

  -- Where all adapters are built in and the servers behave as documented: once an association is
  -- reported as created for a party without a document in the collection, the next answer to a
  -- participant query for that party, whatever cache entries have expired in between, names the
  -- owner of the association.
  pub query-association :
      IsBuiltinSystem env adapters st search secs laws
      → (m m' : Message) (p p' : Payload) (out out' : DomainEventMsg)
        (q : AssociationCreatedPayload) (q' : ParticipantQueryResponsePayload) (w w₁ w₂ w₃ : W)
      → m.msg_name ≡ "ParticipantAssociationRequestReceivedEvt"
      → m'.msg_name ≡ "ParticipantQueryReceivedEvt"
      → m.payload ≡ some p
      → m'.payload ≡ some p'
      → IsSameParty p p'
      → find
          (matches (participant_query p.party_type p.party_id p.party_sub_type p.currency))
          (docs w)
        ≡ none
      → handle_event env adapters m w ≡ (ok out, w₁)
      → out.event ≡ participant_association_created q
      → IsQuiet st laws w₁ w₂
      → handle_event env adapters m' w₂ ≡ (ok out', w₃)
      → out'.event ≡ participant_query_response q'
      → q'.owner_fsp_id ≡ q.owner_fsp_id
  query-association system m m' p p' out out' q q' w w₁ w₂ w₃ named named' given given' same unknown
        h e quiet h' e' =
      let (s, before, associated, owner, _) =
        association_step env adapters st search secs laws system p q w w₁
          (association_handled m p out w w₁ given h q named e) in
      let (s', s'', after, looked_up) =
        query_step env adapters st search secs laws system p' q' w₂ w₃
          (query_handled m' p' out' w₂ w₃ given' h' q' named' e') in
      lookup-associate_quiet st laws secs p.party_type p.party_id p.party_sub_type p.currency
        p.owner_fsp_id q'.owner_fsp_id s w₁ s' s'' associated
        (IsQuiet-trans st laws w₁ w₂ s' quiet after)
        (ground
          (arith, looked_up, same.same_type, same.same_id, same.same_sub_type, same.same_currency))
        (ap (find (matches (participant_query p.party_type p.party_id p.party_sub_type p.currency)))
            before.same_docs
          ∙ unknown)
      ∙ sym owner
