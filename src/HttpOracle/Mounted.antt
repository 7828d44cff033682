-- ===== src/HttpOracle/Mounted.antt =====
-- The HTTP server of the oracle: the routes that the constructor of
-- packages/http-oracle-svc/src/server/remote_oracle_routes.ts makes, mounted at the root by
-- packages/http-oracle-svc/src/service.ts, and under which URL each handler is reached. HEAD and
-- OPTIONS requests are left out.
use account_lookup_bc.Prelude.{
  String, alike, none, some, Bool, List, [], ◌∷◌, ◌==◌, if◌then◌else◌, ◌≡◌, ◌≢◌, refl, sym, subst,
  arith, eq_iff,
}
use mathlib.Core.Path.{fun_ext}
use account_lookup_bc.Types.{Nullable}
use account_lookup_bc.Express.{Method, get, post, delete, Route, fixed, with_party, first_route}
use account_lookup_bc.HttpOracle.{Files, OracleState}
use account_lookup_bc.HttpOracle.Server.{
  Params, OracleRequest, get_request, delete_request, post_request, health_request, Reply,
  status_only, serve,
}

-- A request: its method and path, its query, and the `fspId` of its body.
pub record OracleHttpRequest : Type 0 where
  pub method : Method
  pub path : List String
  pub query : String → Nullable
  pub fsp_id : Nullable

-- `extractRequestParams`
abbrev pub extract_request_params : String → String → OracleHttpRequest → Params
extract_request_params party_type party_id q = record {
  party_type = party_type;
  party_id = party_id;
  party_sub_type = q.query "partySubType";
  currency = q.query "currency";
  fsp_id = q.fsp_id;
}

-- `RemoteOracleExpressRoutes`, in the order of its constructor
unfoldable pub oracle_routes : List (Route OracleHttpRequest OracleRequest)
oracle_routes =
    fixed get ("health" ∷ []) (λ _. health_request)
    ∷ with_party get ("participants" ∷ []) (λ t i q. get_request (extract_request_params t i q))
    ∷ with_party delete ("participants" ∷ [])
        (λ t i q. delete_request (extract_request_params t i q))
    ∷ with_party post ("participants" ∷ []) (λ t i q. post_request (extract_request_params t i q))
    ∷ []

-- `same` is how Express compares words of paths, and `valid` the verdict of express-validator. The
-- last handler answers what no route takes.
module _ (same : String → String → Bool) (valid : OracleHttpRequest → Bool) {W : Type 0}
    (fs : Files W) where
  unfoldable pub serve_oracle : OracleHttpRequest → OracleState W → Reply × OracleState W
  unfolding oracle_routes first_route
  serve_oracle q s = elim (first_route same oracle_routes q.method q q.path) [
    | none ↦ (status_only 404, s)
    | some r ↦ serve fs (valid q) r s
  ]

abbrev party_query : Params → String → Nullable
party_query p name =
    if name == "partySubType"
    then p.party_sub_type
    else if name == "currency"
    then p.currency
    else none

abbrev party_request : Method → Params → OracleHttpRequest
party_request method p = record {
  method = method;
  path = "participants" ∷ p.party_type ∷ p.party_id ∷ [];
  query = party_query p;
  fsp_id = p.fsp_id;
}

-- The HTTP request for each handler.
abbrev pub oracle_request_for : OracleRequest → OracleHttpRequest
oracle_request_for (get_request p) = party_request get p
oracle_request_for (delete_request p) = party_request delete p
oracle_request_for (post_request p) = party_request post p
oracle_request_for health_request = record {
  method = get;
  path = "health" ∷ [];
  query = λ _. none;
  fsp_id = none;
}

abbrev IsPart : Params → Type 0
IsPart p = (p.party_type ≢ "") × (p.party_id ≢ "")

-- A part of a path is not empty.
abbrev pub IsReachable : OracleRequest → Type 0
IsReachable (get_request p) = IsPart p
IsReachable (delete_request p) = IsPart p
IsReachable (post_request p) = IsPart p
IsReachable health_request = Unit {0}

module _ (valid : OracleHttpRequest → Bool) {W : Type 0} (fs : Files W) where
  serve_oracle-alike :
      (r : OracleRequest) (s : OracleState W)
      → IsReachable r
      → serve_oracle alike valid fs (oracle_request_for r) s
        ≡ serve fs (valid (oracle_request_for r)) r s
  unfolding serve_oracle
  serve_oracle-alike (get_request p) s (typed, identified) =
      ground (arith, eq_iff p.party_type "", eq_iff p.party_id "", typed, identified)
  serve_oracle-alike (delete_request p) s (typed, identified) =
      ground (arith, eq_iff p.party_type "", eq_iff p.party_id "", typed, identified)
  serve_oracle-alike (post_request p) s (typed, identified) =
      ground (arith, eq_iff p.party_type "", eq_iff p.party_id "", typed, identified)
  serve_oracle-alike health_request s h = refl

  module _ (same : String → String → Bool) (compares : (a b : String) → same a b ≡ alike a b) where
    same_alike : alike ≡ same
    same_alike = sym (fun_ext (λ a. fun_ext (λ b. compares a b)))

    -- Every handler of the oracle has its URL: where Express compares the words of a path without
    -- regard to case, the server takes the request for it to that handler with all its parameters,
    -- for every party whose type and id are not empty.
    pub serve_oracle-request_for :
        (r : OracleRequest) (s : OracleState W)
        → IsReachable r
        → serve_oracle same valid fs (oracle_request_for r) s
          ≡ serve fs (valid (oracle_request_for r)) r s
    serve_oracle-request_for r s h =
        subst
          (λ f.
            serve_oracle f valid fs (oracle_request_for r) s
            ≡ serve fs (valid (oracle_request_for r)) r s)
          same_alike (serve_oracle-alike r s h)

    -- The list of associations that the HTTP adapter asks for is under no route of the oracle.
    pub no_associations :
        (q : OracleHttpRequest) (s : OracleState W)
        → q.path ≡ "participants" ∷ "associations" ∷ []
        → serve_oracle same valid fs q s ≡ (status_only 404, s)
    unfolding serve_oracle
    no_associations q s at =
        subst (λ f. serve_oracle f valid fs q s ≡ (status_only 404, s)) same_alike
          (ground (arith, at))
