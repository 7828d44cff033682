-- ===== src/Service/Server/Paths.antt =====
-- Under which URL each handler of the service is reached.
use account_lookup_bc.Prelude.{
  String, alike, Option, none, some, Bool, false, List, [], ◌∷◌, ◌==◌, if◌then◌else◌, ◌≡◌, ◌≢◌,
  refl, sym, subst, arith, eq_iff,
}
use mathlib.Core.Path.{fun_ext}
use account_lookup_bc.Effect.{Action, pure, ◌>>=◌}
use account_lookup_bc.Express.{Method, get, post, delete}
use account_lookup_bc.Types.{Nullable, AddOracleDto, ParticipantLookup}
use account_lookup_bc.Services.{Services}
use account_lookup_bc.Aggregate.Admin.{State}
use account_lookup_bc.Service.Routes.{
  SearchQuery, Request, list_oracles, list_builtin_associations, list_search_keywords, find_oracle,
  delete_oracle, check_health, create_oracle, search_associations, look_up,
}
use account_lookup_bc.Service.Authentication.{answer}
use account_lookup_bc.Service.Server.{HttpRequest, Reply, routed, route, serve_http}

abbrev query_of : SearchQuery → String → Nullable
query_of q name =
    if name == "fspId"
    then q.fsp_id
    else if name == "partyId"
    then q.party_id
    else if name == "partyType"
    then q.party_type
    else if name == "partySubType"
    then q.party_sub_type
    else if name == "currency"
    then q.currency
    else if name == "pageIndex"
    then q.page_index
    else if name == "pageindex"
    then q.pageindex
    else if name == "pageSize"
    then q.page_size
    else if name == "pagesize"
    then q.pagesize
    else none

abbrev party_query_of : ParticipantLookup → String → Nullable
party_query_of p name =
    if name == "partySubType"
    then p.party_sub_type
    else if name == "currency"
    then p.currency
    else none

abbrev text_of : Nullable → String
text_of none = ""
text_of (some s) = s

-- The request for a handler, with a header and, where the handler reads no body, any body.
module _ (authorization : Nullable) (body : AddOracleDto) where
  abbrev request_at : Method → List String → HttpRequest
  request_at method path = record {
    method = method;
    path = path;
    authorization = authorization;
    query = λ _. none;
    body = body;
  }

  abbrev pub request_for : Request → HttpRequest
  request_for list_oracles = request_at get ("admin" ∷ "oracles" ∷ [])
  request_for list_builtin_associations =
      request_at get ("admin" ∷ "oracles" ∷ "builtin-associations" ∷ [])
  request_for list_search_keywords =
      request_at get ("admin" ∷ "oracles" ∷ "builtin-associations" ∷ "searchKeywords" ∷ [])
  request_for (find_oracle id) = request_at get ("admin" ∷ "oracles" ∷ id ∷ [])
  request_for (delete_oracle id) = request_at delete ("admin" ∷ "oracles" ∷ id ∷ [])
  request_for (check_health id) = request_at get ("admin" ∷ "oracles" ∷ "health" ∷ id ∷ [])
  request_for (create_oracle dto) = record (request_at post ("admin" ∷ "oracles" ∷ [])) {
    body = dto;
  }
  request_for (search_associations q) =
      record (request_at get ("admin" ∷ "oracles" ∷ "associations" ∷ [])) { query = query_of q }
  request_for (look_up p) =
      record (request_at get ("account-lookup" ∷ text_of p.party_type ∷ text_of p.party_id ∷ [])) {
        query = party_query_of p;
      }

  -- A part of a path is not empty, and an oracle whose id is the word of another route is not found
  -- under it.
  abbrev pub IsAddressable : Request → Type 0
  IsAddressable (find_oracle id) =
      (id ≢ "") × (alike "builtin-associations" id ≡ false) × (alike "associations" id ≡ false)
  IsAddressable (delete_oracle id) = id ≢ ""
  IsAddressable (check_health id) = id ≢ ""
  IsAddressable (look_up p) =
      (t : String) × (i : String) × (p.party_type ≡ some t)
      × (p.party_id ≡ some i)
      × (t ≢ "")
      × (i ≢ "")
  IsAddressable _ = Unit {0}

  module _ {W : Type 0} (env : Services W) (role_has_privilege : String → String → Bool)
      (context_of : String → Action (State W) (Option (List String)))
      (valid : HttpRequest → Bool) where
    abbrev served : (String → String → Bool) → Request → Action (State W) Reply
    served same r = serve_http same env role_has_privilege context_of valid (request_for r)

    abbrev answered : Request → Action (State W) Reply
    answered r = do
      a ← answer env role_has_privilege context_of (valid (request_for r)) authorization r
      pure (routed a)

    served-alike : (r : Request) (s : State W) → IsAddressable r → served alike r s ≡ answered r s
    unfolding serve_http route
    served-alike list_oracles s h = refl
    served-alike list_builtin_associations s h = refl
    served-alike list_search_keywords s h = refl
    served-alike (find_oracle id) s (filled, other, another) =
        ground (arith, other, another, eq_iff id "")
    served-alike (delete_oracle id) s filled = ground (arith, eq_iff id "")
    served-alike (check_health id) s filled = ground (arith, eq_iff id "")
    served-alike (create_oracle dto) s h = refl
    served-alike (search_associations q) s h = refl
    served-alike (look_up p) s (t, i, typed, identified, filled, filled') =
        ground (arith, eq_iff t "", eq_iff i "", typed, identified)

    -- Every handler has its URL, for every request that it may get: where Express compares the words
    -- of a path without regard to case, the server takes that request to that handler, behind the
    -- authentication. An id or a party must not be empty, and `GET /admin/oracles/:id` cannot name
    -- an oracle whose id is "associations" or "builtin-associations".
    pub serve_http-request_for :
        (same : String → String → Bool)
        → ((a b : String) → same a b ≡ alike a b)
        → (r : Request) (s : State W) → IsAddressable r
        → serve_http same env role_has_privilege context_of valid (request_for r) s ≡ answered r s
    serve_http-request_for same compares r s h =
        subst (λ f. served f r s ≡ answered r s) (sym (fun_ext (λ a. fun_ext (λ b. compares a b))))
          (served-alike r s h)
