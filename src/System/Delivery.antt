-- ===== src/System/Delivery.antt =====
-- From an association event of packages/domain-lib to the client of packages/client-lib: what the
-- one has reported, the other's lookup returns.
use account_lookup_bc.Prelude.{String, none, some, List, ℕ, find, if_truthy, ◌≡◌}
use account_lookup_bc.Effect.{ok}
use account_lookup_bc.Types.{Nullable}
use account_lookup_bc.Messages.{
  Payload, Message, DomainEventMsg, participant_association_created, AssociationCreatedPayload,
}
use account_lookup_bc.Services.{OracleAdapter, Services}
use account_lookup_bc.Implementations.Store.{matches, Store, StoreLaws}
use account_lookup_bc.Implementations.Builtin.{participant_query}
use account_lookup_bc.Implementations.Builtin.Search.{SearchStore}
use account_lookup_bc.Implementations.Builtin.Quiet.{IsQuiet}
use account_lookup_bc.Aggregate.HandleEvent.{handle_event}

module _ {W : Type 0} (env : Services W) (adapters : List (OracleAdapter W)) (st : Store W)
    (search : SearchStore W) (secs : ℕ) (laws : StoreLaws st) where
  open laws use {docs}

  -- The party of a payload is the one that the client asks for, which has no sub type.
  pub record IsPartyOf (p : Payload) (t i : String) (c : Nullable) : Type 0 where
    pub party_type : p.party_type ≡ some t
    pub party_id : p.party_id ≡ some i
    pub no_sub_type : p.party_sub_type ≡ none
    pub currency : p.currency ≡ if_truthy c

  -- An association has been reported for a party without a document, and what has happened since
  -- is quiet.
  pub record IsAssociated (t i : String) (c : Nullable) (owner : Nullable) (w' : W) : Type 0 where
    pub message : Message
    pub payload : Payload
    pub out : DomainEventMsg
    pub created : AssociationCreatedPayload
    pub before : W
    pub after : W
    pub named : message.msg_name ≡ "ParticipantAssociationRequestReceivedEvt"
    pub given : message.payload ≡ some payload
    pub party : IsPartyOf payload t i c
    pub unknown :
        find (matches (participant_query (some t) (some i) none (if_truthy c))) (docs before) ≡ none
    pub handled : handle_event env adapters message before ≡ (ok out, after)
    pub reported : out.event ≡ participant_association_created created
    pub is_owner : created.owner_fsp_id ≡ owner
    pub quiet : IsQuiet st laws after w'
