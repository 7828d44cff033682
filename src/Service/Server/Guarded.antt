-- ===== src/Service/Server/Guarded.antt =====
-- What the HTTP server of the service gives to whom.
use account_lookup_bc.Prelude.{
  String, Option, none, some, Bool, true, List, [], ◌∷◌, ◌≡◌, ◌⊎◌, arith, inl, inr, Bool-cases,
  Option-cases,
}
use account_lookup_bc.Effect.{ok, Action, Result-cases}
use account_lookup_bc.Express.{get, Route, after_words, first_route}
use account_lookup_bc.Services.{Services}
use account_lookup_bc.Aggregate.Admin.{State}
use account_lookup_bc.Service.Routes.{Request, Body, sent}
use account_lookup_bc.Service.Routes.Access.{is_allowed, is_accepted, operation}
use account_lookup_bc.Service.Authentication.{
  handled, bearer_token, authenticate, answer, answer_sent,
}
use account_lookup_bc.Service.Server.{
  HttpRequest, routed, is_at, route, admin_routes, lookup_routes, serve_http,
}

module _ (same : String → String → Bool) {W : Type 0} (env : Services W)
    (role_has_privilege : String → String → Bool)
    (context_of : String → Action (State W) (Option (List String))) (valid : HttpRequest → Bool)
    (q : HttpRequest) (b : Body) (s s' : State W) where
  -- The caller has authenticated itself and may do what the body answers.
  abbrev pub IsGuarded : Request → Type 0
  IsGuarded r =
      (token : String) × (roles : List String) × (s₁ : State W) × (bearer_token q.authorization
        ≡ some token)
      × (context_of token s ≡ (ok (some roles), s₁))
      × (is_allowed role_has_privilege roles r ≡ true)
      × (is_accepted env role_has_privilege roles (valid q) s₁ r ≡ true)
      × (operation env role_has_privilege roles (valid q) s₁ r s₁ ≡ (ok (sent b), s'))

  -- The path leads to the route through one of the two routers.
  abbrev pub IsRouted : Request → Type 0
  IsRouted r =
      (path : List String) × (((after_words same ("admin" ∷ []) q.path ≡ some path)
          × (first_route same admin_routes q.method q path ≡ some r))
        ⊎ ((after_words same ("account-lookup" ∷ []) q.path ≡ some path)
            × (first_route same lookup_routes q.method q path ≡ some r)))

  route_sent :
      (routes : List (Route HttpRequest Request)) (path : List String)
      → route same env role_has_privilege context_of valid routes q path s
        ≡ (ok (routed (handled (sent b))), s')
      → (r : Request) × (first_route same routes q.method q path ≡ some r) × IsGuarded r
  unfolding route
  route_sent routes path h = elim (Option-cases (first_route same routes q.method q path)) [
    | inl missing ↦ elim (Result-cases (authenticate context_of q.authorization s).0) [
      | inl (none, e) ↦ ground (arith, missing, e, h)
      | inl (some roles, e) ↦ ground (arith, missing, e, h)
      | inr (x, e) ↦ ground (arith, missing, e, h)
    ]
    | inr (r, chosen) ↦
        let out = answer env role_has_privilege context_of (valid q) q.authorization r s in
        elim (Result-cases out.0) [
          | inl (a, e) ↦ (
            r,
            chosen,
            answer_sent env role_has_privilege context_of (valid q) q.authorization r b s s'
                (ground (arith, chosen, e, h)),
          )
          | inr (x, e) ↦ ground (arith, chosen, e, h)
        ]
  ]

  -- A body is sent, other than the health check and the metrics, only for a route of one of the two
  -- routers: to a request whose authorization header has exactly two words, the second of which is
  -- a token that the token helper has roles for, only if those roles have the privilege that the
  -- route asks for, and only if the request is valid where the route looks at that; and it is what
  -- the aggregate's call behind the route resolves to.
  pub serve_http_sent :
      serve_http same env role_has_privilege context_of valid q s
        ≡ (ok (routed (handled (sent b))), s')
      → (r : Request) × IsRouted r × IsGuarded r
  unfolding serve_http
  serve_http_sent h = elim (Bool-cases (is_at same get "health" q)) [
    | inl up ↦ ground (arith, up, h)
    | inr not_up ↦ elim (Bool-cases (is_at same get "metrics" q)) [
      | inl scraped ↦ ground (arith, not_up, scraped, h)
      | inr not_scraped ↦ elim (Option-cases (after_words same ("admin" ∷ []) q.path)) [
        | inr (path, admin) ↦
            let (r, chosen, guarded) =
              route_sent admin_routes path (ground (arith, not_up, not_scraped, admin, h)) in
            (r, (path, inl (admin, chosen)), guarded)
        | inl not_admin ↦ elim (Option-cases (after_words same ("account-lookup" ∷ []) q.path)) [
          | inr (path, lookup) ↦
              let (r, chosen, guarded) =
                route_sent lookup_routes path
                  (ground (arith, not_up, not_scraped, not_admin, lookup, h)) in
              (r, (path, inr (lookup, chosen)), guarded)
          | inl neither ↦ ground (arith, not_up, not_scraped, not_admin, neither, h)
        ]
      ]
    ]
  ]
