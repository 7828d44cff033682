-- ===== src/Service/Server/Served.antt =====
-- What the HTTP server of the service does for a caller with all privileges.
use account_lookup_bc.Prelude.{
  String, alike, Option, some, Bool, true, List, is_solid, ◌<>◌, ◌≡◌, ◌≢◌, arith,
}
use account_lookup_bc.Effect.{ok, Action}
use account_lookup_bc.Types.{AddOracleDto}
use account_lookup_bc.Privileges.{account_lookup_privileges_definition}
use account_lookup_bc.Services.{Services}
use account_lookup_bc.Aggregate.Admin.{State}
use account_lookup_bc.Service.Routes.{Request}
use account_lookup_bc.Service.Routes.Access.{is_accepted}
use account_lookup_bc.Service.Routes.Privileged.{HasAll, outcome_of, handle_privileged}
use account_lookup_bc.Service.Authentication.{handled, answer_bearer}
use account_lookup_bc.Service.Server.{HttpRequest, routed, serve_http}
use account_lookup_bc.Service.Server.Paths.{request_for, IsAddressable, serve_http-request_for}

module _ {W : Type 0} (env : Services W) (role_has_privilege : String → String → Bool)
    (context_of : String → Action (State W) (Option (List String))) (valid : HttpRequest → Bool)
    (same : String → String → Bool) (body : AddOracleDto) (scheme token : String)
    (roles : List String) where
  abbrev request : Request → HttpRequest
  request r = request_for (some (scheme <> " " <> token)) body r

  -- No handler is out of reach: where Express compares the words of a path without regard to case,
  -- and the header is a scheme and a token, two texts without white space with one space between
  -- them, of which the token helper knows the token's roles, and these have every privilege that the
  -- service defines, the server answers every addressable request that passes the validation with
  -- the outcome of the aggregate's call behind the route.
  pub serve_http_privileged :
      ((a b : String) → same a b ≡ alike a b)
      → is_solid scheme ≡ true
      → scheme ≢ ""
      → is_solid token ≡ true
      → token ≢ ""
      → HasAll role_has_privilege roles account_lookup_privileges_definition
      → (r : Request) (s s₁ : State W) → context_of token s ≡ (ok (some roles), s₁)
      → IsAddressable (some (scheme <> " " <> token)) body r
      → is_accepted env role_has_privilege roles (valid (request r)) s₁ r ≡ true
      → serve_http same env role_has_privilege context_of valid (request r) s ≡ (
        ok (routed (handled (outcome_of role_has_privilege roles env (valid (request r)) r s₁).0)),
        (outcome_of role_has_privilege roles env (valid (request r)) r s₁).1,
      )
  serve_http_privileged compares solid ne solid' ne' all r s s₁ known addressable accepted =
      ground (
        arith,
        serve_http-request_for (some (scheme <> " " <> token)) body env role_has_privilege
            context_of valid same compares r s addressable,
        answer_bearer env role_has_privilege context_of (valid (request r)) scheme token roles r s
            s₁ solid ne solid' ne' known,
        handle_privileged role_has_privilege roles env (valid (request r)) s₁ r all accepted,
      )
