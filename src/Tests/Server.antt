-- ===== src/Tests/Server.antt =====
-- The HTTP server of the service on the concrete services.
use account_lookup_bc.Prelude.{
  none, some, Bool, true, [], ◌∷◌, alike, ◌≡◌, refl, trim_start, trim_end, split_spaces,
}
use account_lookup_bc.Effect.{ok, pure, ◌>>=◌}
use account_lookup_bc.Express.{get, first_route}
use account_lookup_bc.Service.Routes.{
  SearchQuery, Request, list_oracles, find_oracle, search_associations, oracles, handle,
  has_privilege,
}
use account_lookup_bc.Service.Authentication.{
  bearer_token, authenticate, unauthenticated, handled, answer,
}
use account_lookup_bc.Service.Server.{
  HttpRequest, not_found, routed, admin_routes, route, serve_http,
}
use account_lookup_bc.Service.Server.Paths.{request_for, serve_http-request_for}
use account_lookup_bc.Service.Server.Served.{serve_http_privileged}
use account_lookup_bc.Service.Routes.Privileged.{outcome_of}
use account_lookup_bc.Privileges.{account_lookup_privileges_definition}
use account_lookup_bc.Service.Server.Guarded.{IsRouted, IsGuarded, serve_http_sent}
use account_lookup_bc.Tests.World.{builtin_oracle, services}
use account_lookup_bc.Tests.Lookups.{admins_only, initial, no_body, context_of}

abbrev all_valid : HttpRequest → Bool
all_valid q = true

abbrev listing : HttpRequest
listing = request_for (some "Bearer t0k") no_body list_oracles

serve_http_sent_example :
    (r : Request) × IsRouted alike services admins_only context_of all_valid listing
      (oracles (builtin_oracle ∷ []))
      initial
      (record initial { world = 1 })
      r
    × IsGuarded alike services admins_only context_of all_valid listing
        (oracles (builtin_oracle ∷ []))
        initial
        (record initial { world = 1 })
        r
unfolding serve_http route answer authenticate bearer_token trim_start trim_end split_spaces handle
    has_privilege
serve_http_sent_example =
    serve_http_sent alike services admins_only context_of all_valid listing
      (oracles (builtin_oracle ∷ [])) initial (record initial { world = 1 }) refl

-- A health check without an id is taken for an oracle of the id "health".
serve_http-request_for_example :
    serve_http alike services admins_only context_of all_valid
      (request_for none no_body (find_oracle "health"))
      initial
    ≡ (do
      a ← answer services admins_only context_of true none (find_oracle "health")
      pure (routed a))
        initial
serve_http-request_for_example =
    serve_http-request_for none no_body services admins_only context_of all_valid alike
      (λ a b. refl) (find_oracle "health") initial (λ e. cc, refl, refl)

serve_http_privileged_example :
    serve_http alike services admins_only context_of all_valid listing initial ≡ (
      ok (
          routed (
            handled
              (outcome_of admins_only
                ("guest" ∷ "admin" ∷ [])
                services
                true
                list_oracles
                initial).0)),
      (outcome_of admins_only ("guest" ∷ "admin" ∷ []) services true list_oracles initial).1,
    )
unfolding has_privilege account_lookup_privileges_definition
serve_http_privileged_example =
    serve_http_privileged services admins_only context_of all_valid alike no_body "Bearer" "t0k"
      ("guest" ∷ "admin" ∷ []) (λ a b. refl) refl (λ e. cc) refl (λ e. cc)
      (refl, (refl, (refl, (refl, tt)))) list_oracles initial initial refl tt refl

abbrev no_query : SearchQuery
no_query = record {
  fsp_id = none;
  party_id = none;
  party_type = none;
  party_sub_type = none;
  currency = none;
  page_index = none;
  pageindex = none;
  page_size = none;
  pagesize = none;
}

-- An oracle with the id of another route is not found under it.
reserved_id_run :
    first_route alike admin_routes get
      (request_for none no_body (find_oracle "associations"))
      ("oracles" ∷ "associations" ∷ [])
    ≡ some (search_associations no_query)
unfolding first_route admin_routes
reserved_id_run = refl

-- No route, and no token.
unknown_run :
    serve_http alike services admins_only context_of all_valid
      (record listing { path = "admin" ∷ "users" ∷ []; authorization = none })
      initial
    ≡ (ok (routed unauthenticated), initial)
unfolding serve_http route authenticate bearer_token
unknown_run = refl

elsewhere_run :
    serve_http alike services admins_only context_of all_valid
      (record listing { path = "users" ∷ [] })
      initial
    ≡ (ok not_found, initial)
unfolding serve_http
elsewhere_run = refl
