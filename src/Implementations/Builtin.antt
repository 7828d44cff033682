-- ===== src/Implementations/Builtin.antt =====
-- The built-in oracle: the class `MongoOracleProviderRepo` of
-- packages/implementations-lib/src/oracles/adapters/builtin/mongo_oracleprovider.ts, over its
-- collection of associations and its cache.
pub mod Effects
pub mod Lookup
pub mod Keys
pub mod Search
pub mod Paging
pub mod Pages
pub mod Keywords
pub mod Quiet
pub mod Provider
pub mod Concurrent
use account_lookup_bc.Prelude.{
  String, Option, none, some, List, ℕ, map, is_some, not, is_truthy, ◌==◌, if◌then◌else◌, if_truthy,
  shown, ◌<>◌,
}
use account_lookup_bc.Effect.{
  Action, pure, or_throw, guard, ◌>>=◌, ◌>>◌, unable_to_get_participant,
  participant_association_already_exists, unable_to_associate_participant,
  unable_to_disassociate_participant, unable_to_get_association,
}
use account_lookup_bc.Types.{Nullable, Association}
use account_lookup_bc.Implementations.Store.{Filter, Store}

-- `_getKeyWithPrefix`, for parts that are texts or null, as its types say: `undefined` has a text of
-- its own there, and is taken for null here.
unfoldable pub get_key_with_prefix : Nullable → Nullable → Nullable → Nullable → String
get_key_with_prefix party_type party_id party_sub_type currency =
    "mongoOracleProviderRepo"
    <> "_"
    <> shown party_type
    <> "_"
    <> shown party_id
    <> "_"
    <> shown party_sub_type
    <> "_"
    <> shown currency

-- `_buildLookupQuery`, as a filter and as the document that `insertOne` stores
abbrev pub build_lookup_query : Nullable → Nullable → Nullable → Nullable → Nullable → Filter
build_lookup_query party_id fsp_id party_type party_sub_type currency = record {
  party_id = party_id;
  party_type = party_type;
  fsp_id = some fsp_id;
  party_sub_type = if_truthy party_sub_type;
  currency = if_truthy currency;
}

abbrev pub lookup_document : Nullable → Nullable → Nullable → Nullable → Nullable → Association
lookup_document party_id fsp_id party_type party_sub_type currency = record {
  fsp_id = fsp_id;
  party_type = party_type;
  party_id = party_id;
  party_sub_type = if_truthy party_sub_type;
  currency = if_truthy currency;
}

-- The query of `getParticipantFspId`
abbrev pub participant_query : Nullable → Nullable → Nullable → Nullable → Filter
participant_query party_type party_id party_sub_type currency = record {
  party_id = party_id;
  party_type = party_type;
  fsp_id = none;
  party_sub_type = if_truthy party_sub_type;
  currency = if_truthy currency;
}

abbrev pub key_of : Association → String
key_of r = get_key_with_prefix r.party_type r.party_id r.party_sub_type r.currency

-- `redisCacheDurationSecs` is a parameter of the constructor.
module _ {W : Type 0} (st : Store W) (cache_secs : ℕ) where
  abbrev pub parse_entry : Option String → Option Nullable
  parse_entry none = none
  parse_entry (some text) = if text == "" then none else st.fsp_id_of text

  -- `_getFromCache`, of which only the FSP id is used
  unfoldable pub get_from_cache :
      Nullable → Nullable → Nullable → Nullable → Action W (Option Nullable)
  get_from_cache party_type party_id party_sub_type currency = do
    text ← st.redis_get (get_key_with_prefix party_type party_id party_sub_type currency)
    pure (parse_entry text)

  -- `_setToCache`
  unfoldable pub set_to_cache : Association → Action W (Unit {0})
  set_to_cache r = st.redis_setex (key_of r) cache_secs (st.stringify r)

  -- `_delFromCache`
  unfoldable pub del_from_cache : Association → Action W (Unit {0})
  del_from_cache r = st.redis_del (key_of r)

  -- The rest of `getParticipantFspId` once the database has answered.
  abbrev remember : (Nullable → Association) → Option Association → Action W Nullable
  remember entry none = pure none
  remember entry (some d) = set_to_cache (entry d.fsp_id) >> pure d.fsp_id

  abbrev pub cache_entry : Nullable → Nullable → Nullable → Nullable → Nullable → Association
  cache_entry party_type party_id party_sub_type currency fsp_id = record {
    fsp_id = fsp_id;
    party_type = party_type;
    party_id = party_id;
    party_sub_type = party_sub_type;
    currency = currency;
  }

  abbrev pub get_from_database : Nullable → Nullable → Nullable → Nullable → Action W Nullable
  get_from_database party_type party_id party_sub_type currency = do
    found ←
        or_throw (st.find_one (participant_query party_type party_id party_sub_type currency))
          unable_to_get_participant
    remember (cache_entry party_type party_id party_sub_type currency) found

  abbrev or_else : Option Nullable → Action W Nullable → Action W Nullable
  or_else none m = m
  or_else (some fsp_id) m = pure fsp_id

  -- `getParticipantFspId`
  unfoldable pub get_participant_fsp_id :
      Nullable → Nullable → Nullable → Nullable → Action W Nullable
  get_participant_fsp_id party_type party_id party_sub_type currency = do
    hit ← get_from_cache party_type party_id party_sub_type currency
    or_else hit (get_from_database party_type party_id party_sub_type currency)

  -- `associateParticipant`
  unfoldable pub associate_participant :
      Nullable → Nullable → Nullable → Nullable → Nullable → Action W (Unit {0})
  associate_participant fsp_id party_type party_id party_sub_type currency = do
    association ←
        st.find_one (build_lookup_query party_id fsp_id party_type party_sub_type currency)
    guard (not (is_some association)) participant_association_already_exists
    or_throw (st.insert_one (lookup_document party_id fsp_id party_type party_sub_type currency))
        unable_to_associate_participant
    set_to_cache (cache_entry party_type party_id party_sub_type currency fsp_id)

  -- `disassociateParticipant`
  unfoldable pub disassociate_participant :
      Nullable → Nullable → Nullable → Nullable → Nullable → Action W (Unit {0})
  disassociate_participant fsp_id party_type party_id party_sub_type currency = do
    or_throw (st.delete_one (build_lookup_query party_id fsp_id party_type party_sub_type currency))
        unable_to_disassociate_participant
    del_from_cache (cache_entry party_type party_id party_sub_type currency fsp_id)

  -- `getAllAssociations`, whose records leave the sub type out
  unfoldable pub get_all_associations : Action W (List Association)
  get_all_associations = do
    found ← or_throw st.find_all unable_to_get_association
    pure (map (λ (a : Association). record a { party_sub_type = none }) found)
