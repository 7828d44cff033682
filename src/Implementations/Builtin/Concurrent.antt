-- ===== src/Implementations/Builtin/Concurrent.antt =====
-- Calls of the built-in oracle that are in flight together:
-- packages/implementations-lib/src/oracles/adapters/builtin/mongo_oracleprovider.ts, cut at each
-- `await`. Between two awaited answers of one call, any other call may go on, of this process or of
-- another one on the same database and cache.
pub mod Alone
pub mod Backing
pub mod Coverage
mod Servers
pub mod Safety
pub mod Races
pub mod Progress
use account_lookup_bc.Prelude.{String, Option, none, some, List, [], ◌∷◌, ℕ, eqb, if◌then◌else◌}
use account_lookup_bc.Effect.{
  Error, Result, ok, err, Action, or_throw, unable_to_get_participant,
  participant_association_already_exists, unable_to_associate_participant,
  unable_to_disassociate_participant,
}
use account_lookup_bc.Types.{Nullable, Association}
use account_lookup_bc.Implementations.Store.{Filter, Store}
use account_lookup_bc.Implementations.Builtin.{
  get_key_with_prefix, build_lookup_query, lookup_document, participant_query, cache_entry,
  get_from_cache, set_to_cache, del_from_cache,
}

-- What the methods are asked about.
pub record Party : Type 0 where
  pub party_type : Nullable
  pub party_id : Nullable
  pub party_sub_type : Nullable
  pub currency : Nullable

-- A call, by what it awaits next. `getParticipantFspId` reads the cache, queries the collection and
-- saves what it found; `associateParticipant` looks for a document, inserts one and caches it;
-- `disassociateParticipant` deletes one and takes it out of the cache. The last three have settled.
pub data Call : Type 0 where
  reading querying : Party → Call
  saving : Party → Nullable → Call
  looking inserting caching : Party → Nullable → Call
  deleting uncaching : Party → Nullable → Call
  found : Party → Nullable → Call
  done : Call
  failed : Error → Call

abbrev pub party_key : Party → String
party_key p = get_key_with_prefix p.party_type p.party_id p.party_sub_type p.currency

abbrev pub query_of : Party → Filter
query_of p = participant_query p.party_type p.party_id p.party_sub_type p.currency

abbrev pub lookup_of : Party → Nullable → Filter
lookup_of p fsp_id = build_lookup_query p.party_id fsp_id p.party_type p.party_sub_type p.currency

abbrev pub document_of : Party → Nullable → Association
document_of p fsp_id = lookup_document p.party_id fsp_id p.party_type p.party_sub_type p.currency

-- Where a call goes on with an answer, and settles with an error.
abbrev pub continue : {W A : Type 0} → (A → Call) → Result A × W → Call × W
continue f (r, w) = (elim r [ ok a ↦ f a | err e ↦ failed e ], w)

abbrev pub after_cache : Party → Option Nullable → Call
after_cache p none = querying p
after_cache p (some fsp_id) = found p fsp_id

abbrev pub after_query : Party → Option Association → Call
after_query p none = found p none
after_query p (some d) = saving p d.fsp_id

abbrev pub after_look : Party → Nullable → Option Association → Call
after_look p fsp_id none = inserting p fsp_id
after_look p fsp_id (some d) = failed participant_association_already_exists

module _ {W : Type 0} (st : Store W) (cache_secs : ℕ) where
  abbrev pub entry_of : Party → Nullable → Association
  entry_of p fsp_id =
      cache_entry st cache_secs p.party_type p.party_id p.party_sub_type p.currency fsp_id

  -- The next answer of the database or of the cache, and what the method does with it.
  unfoldable pub advance : Call → W → Call × W
  advance (reading p) w =
      continue (after_cache p)
        (get_from_cache st cache_secs p.party_type p.party_id p.party_sub_type p.currency w)
  advance (querying p) w =
      continue (after_query p) (or_throw (st.find_one (query_of p)) unable_to_get_participant w)
  advance (saving p fsp_id) w =
      continue (λ _. found p fsp_id) (set_to_cache st cache_secs (entry_of p fsp_id) w)
  advance (looking p fsp_id) w = continue (after_look p fsp_id) (st.find_one (lookup_of p fsp_id) w)
  advance (inserting p fsp_id) w =
      continue (λ _. caching p fsp_id)
        (or_throw (st.insert_one (document_of p fsp_id)) unable_to_associate_participant w)
  advance (caching p fsp_id) w =
      continue (λ _. done) (set_to_cache st cache_secs (entry_of p fsp_id) w)
  advance (deleting p fsp_id) w =
      continue (λ _. uncaching p fsp_id)
        (or_throw (st.delete_one (lookup_of p fsp_id)) unable_to_disassociate_participant w)
  advance (uncaching p fsp_id) w =
      continue (λ _. done) (del_from_cache st cache_secs (entry_of p fsp_id) w)
  advance (found p fsp_id) w = (found p fsp_id, w)
  advance done w = (done, w)
  advance (failed e) w = (failed e, w)

  -- The servers, the calls by number, and the documents that associations have asked to store.
  pub record System : Type 0 where
    pub world : W
    pub calls : ℕ → Call
    pub requested : List Association

  abbrev pub update : (ℕ → Call) → ℕ → Call → ℕ → Call
  update calls i c j = if eqb i j then c else calls j

  -- A call is made in a new place, or a call that is there goes on.
  pub data Step : System → System → Type 0 where
    look_up :
        (s : System) (i : ℕ) (p : Party)
        → Step s (record s { calls = update s.calls i (reading p) })
    associate :
        (s : System) (i : ℕ) (p : Party) (fsp_id : Nullable)
        → Step s (record s {
          calls = update s.calls i (looking p fsp_id);
          requested = document_of p fsp_id ∷ s.requested;
        })
    disassociate :
        (s : System) (i : ℕ) (p : Party) (fsp_id : Nullable)
        → Step s (record s { calls = update s.calls i (deleting p fsp_id) })
    go_on :
        (s : System) (i : ℕ)
        → Step s (record s {
          world = (advance (s.calls i) s.world).1;
          calls = update s.calls i (advance (s.calls i) s.world).0;
        })

  pub data Reach (s : System) : System → Type 0 where
    here : Reach s s
    next : {t u : System} → Reach s t → Step t u → Reach s u
