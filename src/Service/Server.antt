-- ===== src/Service/Server.antt =====
-- The HTTP server of packages/account-lookup-svc/src/service.ts: `setupAndStartExpress`, the route
-- tables that the constructors of routes/oracle_admin_routes.ts and routes/account_lookup_routes.ts
-- make, and the choice of a handler. HEAD and OPTIONS requests are left out.
pub mod Paths
pub mod Guarded
pub mod Served
use account_lookup_bc.Prelude.{
  String, Option, none, some, Bool, true, false, List, [], ◌∷◌, ◌&&◌, ◌==◌, if◌then◌else◌,
}
use account_lookup_bc.Effect.{ok, Action, pure, ◌>>=◌}
use account_lookup_bc.Express.{
  Method, get, post, delete, same_method, Route, fixed, with_id, with_party, after_words,
  first_route,
}
use account_lookup_bc.Types.{Nullable, AddOracleDto}
use account_lookup_bc.Services.{Services}
use account_lookup_bc.Aggregate.Admin.{State}
use account_lookup_bc.Service.Routes.{
  Request, list_oracles, list_builtin_associations, list_search_keywords, find_oracle,
  delete_oracle, check_health, create_oracle, search_associations, look_up,
}
use account_lookup_bc.Service.Authentication.{Answer, unauthenticated, authenticate, answer}

-- A request: the path is cut at its slashes, without one at the end, and decoded.
pub record HttpRequest : Type 0 where
  pub method : Method
  pub path : List String
  pub authorization : Nullable
  pub query : String → Nullable
  pub body : AddOracleDto

abbrev search_of : HttpRequest → Request
search_of q = search_associations (record {
  fsp_id = q.query "fspId";
  party_id = q.query "partyId";
  party_type = q.query "partyType";
  party_sub_type = q.query "partySubType";
  currency = q.query "currency";
  page_index = q.query "pageIndex";
  pageindex = q.query "pageindex";
  page_size = q.query "pageSize";
  pagesize = q.query "pagesize";
})

abbrev look_up_of : String → String → HttpRequest → Request
look_up_of party_type party_id q = look_up (record {
  currency = q.query "currency";
  party_id = some party_id;
  party_type = some party_type;
  party_sub_type = q.query "partySubType";
})

-- `OracleAdminExpressRoutes`, in the order of its constructor
unfoldable pub admin_routes : List (Route HttpRequest Request)
admin_routes =
    fixed get ("oracles" ∷ []) (λ _. list_oracles)
    ∷ fixed get ("oracles" ∷ "builtin-associations" ∷ []) (λ _. list_builtin_associations)
    ∷ fixed get ("oracles" ∷ "associations" ∷ []) search_of
    ∷ with_id get ("oracles" ∷ []) find_oracle
    ∷ with_id delete ("oracles" ∷ []) delete_oracle
    ∷ fixed post ("oracles" ∷ []) (λ q. create_oracle q.body)
    ∷ with_id get ("oracles" ∷ "health" ∷ []) check_health
    ∷ with_id get ("oracles" ∷ "health" ∷ []) check_health
    ∷ fixed get ("oracles" ∷ "builtin-associations" ∷ "searchKeywords" ∷ [])
        (λ _. list_search_keywords)
    ∷ []

-- `AccountLookupExpressRoutes`
unfoldable pub lookup_routes : List (Route HttpRequest Request)
lookup_routes = with_party get [] look_up_of ∷ []

-- What the server answers with: the health check, the metrics, the last handler, or a router.
pub data Reply : Type 0 where
  alive metrics not_found : Reply
  routed : Answer → Reply

-- `same` is how Express compares a word of a route with a part of a request's path.
module _ (same : String → String → Bool) where
  abbrev pub is_at : Method → String → HttpRequest → Bool
  is_at method word q =
      same_method method q.method
      && elim (after_words same (word ∷ []) q.path) [ some [] ↦ true | _ ↦ false ]

  -- `valid` is the verdict of express-validator on a request.
  module _ {W : Type 0} (env : Services W) (role_has_privilege : String → String → Bool)
      (context_of : String → Action (State W) (Option (List String)))
      (valid : HttpRequest → Bool) where
    -- A router: the authentication, and then the route, if there is one.
    unfoldable pub route :
        List (Route HttpRequest Request) → HttpRequest → List String → Action (State W) Reply
    unfolding first_route
    route routes q path = elim (first_route same routes q.method q path) [
      | some r ↦ (do
        a ← answer env role_has_privilege context_of (valid q) q.authorization r
        pure (routed a))
      | none ↦ (do
        roles ← authenticate context_of q.authorization
        pure (elim roles [ none ↦ routed unauthenticated | some _ ↦ not_found ]))
    ]

    abbrev route_below :
        Option (List String)
        → List (Route HttpRequest Request)
        → HttpRequest
        → Action (State W) Reply
        → Action (State W) Reply
    route_below none routes q otherwise = otherwise
    route_below (some path) routes q otherwise = route routes q path

    -- `setupAndStartExpress`
    unfoldable pub serve_http : HttpRequest → Action (State W) Reply
    unfolding after_words admin_routes lookup_routes
    serve_http q =
        if is_at get "health" q
        then pure alive
        else if is_at get "metrics" q
        then pure metrics
        else route_below (after_words same ("admin" ∷ []) q.path) admin_routes q (
            route_below (after_words same ("account-lookup" ∷ []) q.path) lookup_routes q
              (pure not_found))
