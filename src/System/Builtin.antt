-- ===== src/System/Builtin.antt =====
-- The aggregate of packages/domain-lib/src/aggregate.ts on built-in adapters only: what its events
-- and answers do to the collection and the cache.
use account_lookup_bc.Prelude.{
  String, Option, some, List, ℕ, ◌≡◌, subst, true, is_truthy, eq_iff, ap, ◌∙◌, arith, inl, inr,
}
use account_lookup_bc.Effect.{Result, ok, Result-cases}
use account_lookup_bc.Types.{Nullable, Oracle}
use account_lookup_bc.Messages.{
  Payload, participant_association_created, AssociationCreatedPayload, participant_query_response,
  ParticipantQueryResponsePayload,
}
use account_lookup_bc.Services.{Participant, OracleAdapter, Services}
use account_lookup_bc.Implementations.Store.{Store, StoreLaws}
use account_lookup_bc.Implementations.Builtin.{associate_participant, get_participant_fsp_id}
use account_lookup_bc.Implementations.Builtin.Search.{SearchStore}
use account_lookup_bc.Implementations.Builtin.Provider.{builtin_provider}
use account_lookup_bc.Implementations.Builtin.Quiet.{IsQuiet, IsQuiet-trans}
use account_lookup_bc.Aggregate.Oracles.{find_adapter, get_participant_id_from_oracle}
use account_lookup_bc.Aggregate.Handlers.{
  handle_association_request, handle_participant_query_received,
}
use account_lookup_bc.Aggregate.Clearance.{IsCleared}
use account_lookup_bc.Aggregate.Answer.{IsReply, IsAdapterFor, id_from_oracle_iff}
use account_lookup_bc.Aggregate.Ownership.{association_created_iff}
use account_lookup_bc.Aggregate.Outcomes.{participant_query_iff}

module _ {W : Type 0} (env : Services W) (adapters : List (OracleAdapter W)) (st : Store W)
    (search : SearchStore W) (secs : ℕ) (laws : StoreLaws st) where
  open laws use {docs}

  -- Every registered adapter is the built-in one, and neither the participant service nor the
  -- finder touches the collection or writes to the cache.
  pub record IsBuiltinSystem : Type 0 where
    pub all_builtin :
        (id : String) (a : OracleAdapter W)
        → find_adapter id adapters ≡ some a
        → (o : Oracle) × (a ≡ builtin_provider st search secs o)
    pub participants_quiet :
        (id : String) (r : Result (Option Participant)) (w w' : W)
        → env.get_participant_info id w ≡ (r, w')
        → IsQuiet st laws w w'
    pub finder_quiet :
        (party_type currency : Nullable) (r : Result (Option Oracle)) (w w' : W)
        → env.finder.get_oracle party_type currency w ≡ (r, w')
        → IsQuiet st laws w w'

  module _ (system : IsBuiltinSystem) where
    IsCleared-IsQuiet : (id : Nullable) (w w' : W) → IsCleared env id w w' → IsQuiet st laws w w'
    IsCleared-IsQuiet id w w' c = system.participants_quiet c.name _ w w' c.found

    pub IsAdapterFor-IsQuiet :
        (t c : Nullable) (a : OracleAdapter W) (w w' : W)
        → IsAdapterFor env adapters t c w a w'
        → IsQuiet st laws w w'
    IsAdapterFor-IsQuiet t c a w w' h = system.finder_quiet t c _ w w' h.chosen

    -- The event of an association comes from an association in the collection, after quiet steps.
    pub association_step :
        (p : Payload) (q : AssociationCreatedPayload) (w w' : W)
        → handle_association_request env adapters p w ≡ (ok (participant_association_created q), w')
        → (s : W) × IsQuiet st laws w s
          × (associate_participant st secs p.owner_fsp_id p.party_type p.party_id p.party_sub_type
                p.currency s
              ≡ (ok tt, w'))
          × (q.owner_fsp_id ≡ p.owner_fsp_id)
          × (is_truthy p.owner_fsp_id ≡ true)
    unfolding builtin_provider
    association_step p q w w' h =
        let ((a, w₁, s, cleared, found, called), same) =
          (association_created_iff env adapters p w w' q).0 h in
        let (o, is) = system.all_builtin found.oracle.id a found.registered in
        (
          s,
          IsQuiet-trans st laws w w₁ s (IsCleared-IsQuiet _ w w₁ cleared)
              (IsAdapterFor-IsQuiet _ _ a w₁ s found),
          subst
              (λ (x : OracleAdapter W).
                x.associate_participant p.owner_fsp_id p.party_type p.party_id p.party_sub_type
                  p.currency s
                ≡ (ok tt, w'))
              is called,
          ap (λ x. x.owner_fsp_id) same,
          ground (arith, cleared.given, cleared.nonempty, eq_iff cleared.name ""),
        )

    -- The answer of the adapter for a party comes from a lookup in the collection and the cache,
    -- after quiet steps.
    pub reply_step :
        (party_id party_type party_sub_type currency answer : Nullable) (w w' : W)
        → IsReply env adapters party_id party_type party_sub_type currency w answer w'
        → (s : W) × IsQuiet st laws w s
          × (get_participant_fsp_id st secs party_type party_id party_sub_type currency s
              ≡ (ok answer, w'))
    unfolding builtin_provider
    reply_step party_id party_type party_sub_type currency answer w w' reply =
        let found = reply.adapter_for in
        let (o, is) = system.all_builtin found.oracle.id reply.adapter found.registered in
        (
          reply.between,
          IsAdapterFor-IsQuiet _ _ reply.adapter w reply.between found,
          subst
              (λ (x : OracleAdapter W).
                x.get_participant_fsp_id party_type party_id party_sub_type currency reply.between
                ≡ (ok answer, w'))
              is reply.replied,
        )

    -- The answer to a participant query comes from a lookup, after quiet steps.
    pub query_step :
        (p : Payload) (q : ParticipantQueryResponsePayload) (w w' : W)
        → handle_participant_query_received env adapters p w
          ≡ (ok (participant_query_response q), w')
        → (s : W) × (s' : W) × IsQuiet st laws w s
          × (get_participant_fsp_id st secs p.party_type p.party_id p.party_sub_type p.currency s
              ≡ (ok q.owner_fsp_id, s'))
    query_step p q w w' h =
        let (owner, w₁, w₂, cleared, looked_up, later, same) =
          (participant_query_iff env adapters p w w' q).0 h in
        let looked =
          get_participant_id_from_oracle env adapters p.party_id p.party_type p.party_sub_type
            p.currency w₁ in
        elim (Result-cases looked.0) [
          | inl (id, answered) ↦
              let (reply, nonempty) =
                (id_from_oracle_iff env adapters p.party_id p.party_type p.party_sub_type p.currency
                    w₁ looked.1 id).0
                  (ground (arith, answered)) in
              let (s, quiet, found) =
                reply_step p.party_id p.party_type p.party_sub_type p.currency (some id) w₁ looked.1
                  reply in
              let named : some id ≡ q.owner_fsp_id = ground (arith, looked_up, answered, same) in
              (
                s,
                looked.1,
                IsQuiet-trans st laws w w₁ s (IsCleared-IsQuiet _ w w₁ cleared) quiet,
                found ∙ ap (λ v. (ok v, looked.1)) named,
              )
          | inr (x, failed) ↦ ground (arith, looked_up, failed)
        ]
