-- ===== src/Service/Authentication.antt =====
-- The authentication that all routes of packages/account-lookup-svc/src/routes pass first:
-- `_authenticationMiddleware` of base/base_routes.ts.
use account_lookup_bc.Prelude.{
  String, Option, none, some, Bool, true, false, List, [], ◌∷◌, ◌==◌, if◌then◌else◌, ◌<>◌, is_solid,
  split_spaces, trim, words_of_pair, append-nonempty, ◌≡◌, ◌≢◌, arith, eq_iff, Option-cases, inl,
  inr,
}
use account_lookup_bc.Effect.{ok, Action, pure, ◌>>=◌, Result-cases}
use account_lookup_bc.Types.{Nullable}
use account_lookup_bc.Services.{Services}
use account_lookup_bc.Aggregate.Admin.{State}
use account_lookup_bc.Service.Routes.{Request, Response, Body, sent, handle}
use account_lookup_bc.Service.Routes.Access.{is_allowed, is_accepted, operation, handle_sent}

-- The second of exactly two words of the header.
abbrev pub second_of_two : List String → Option String
second_of_two (_ ∷ (token ∷ [])) = some token
second_of_two _ = none

unfoldable pub bearer_token : Nullable → Option String
bearer_token none = none
bearer_token (some header) =
    if header == "" then none else second_of_two (split_spaces (trim header))

-- `context_of` is the token helper's `getCallSecurityContextFromAccessToken`, of whose contexts
-- only the roles are used. `none` says that `sendStatus(401)` has answered.
unfoldable pub authenticate :
    {S : Type 0}
    → (String → Action S (Option (List String)))
    → Nullable
    → Action S (Option (List String))
authenticate context_of authorization = elim (bearer_token authorization) [
  | none ↦ pure none
  | some token ↦ context_of token
]

bearer_token_pair :
    (scheme token : String)
    → is_solid scheme ≡ true
    → scheme ≢ ""
    → is_solid token ≡ true
    → token ≢ ""
    → bearer_token (some (scheme <> " " <> token)) ≡ some token
unfolding bearer_token
bearer_token_pair scheme token solid ne solid' ne' =
    let filled : (scheme <> " " <> token == "") ≡ false =
      append-nonempty scheme (" " <> token)
        (λ e. ground (arith, append-nonempty " " token ne', eq_iff (" " <> token) "", e)) in
    ground (arith, filled, words_of_pair scheme token solid ne solid' ne')

-- The answer of the middleware, a text, or that of the handler.
pub data Answer : Type 0 where
  unauthenticated : Answer
  handled : Response → Answer

module _ {W : Type 0} (env : Services W) (role_has_privilege : String → String → Bool)
    (context_of : String → Action (State W) (Option (List String))) (valid : Bool) where
  -- The middleware and, after `next()`, the handler.
  unfoldable pub answer : Nullable → Request → Action (State W) Answer
  answer authorization r = do
    roles ← authenticate context_of authorization
    elim roles [
      | none ↦ pure unauthenticated
      | some roles' ↦ λ s.
          let (response, s') = handle env role_has_privilege roles' valid r s in
          (ok (handled response), s')
    ]

  -- A body is sent only to a request whose authorization header has exactly two words, the second
  -- of which is a token that the token helper has roles for, only if those roles have the privilege
  -- that the route asks for, and only if the request is valid where the route looks at that.
  pub answer_sent :
      (authorization : Nullable) (r : Request) (b : Body) (s s' : State W)
      → answer authorization r s ≡ (ok (handled (sent b)), s')
      → (token : String) × (roles : List String) × (s₁ : State W) × (bearer_token authorization
          ≡ some token)
        × (context_of token s ≡ (ok (some roles), s₁))
        × (is_allowed role_has_privilege roles r ≡ true)
        × (is_accepted env role_has_privilege roles valid s₁ r ≡ true)
        × (operation env role_has_privilege roles valid s₁ r s₁ ≡ (ok (sent b), s'))
  unfolding answer authenticate
  answer_sent authorization r b s s' h = elim (Option-cases (bearer_token authorization)) [
    | inl missing ↦ ground (arith, missing)
    | inr (token, given) ↦ elim (Result-cases (context_of token s).0) [
      | inl (none, unknown) ↦ ground (arith, given, unknown)
      | inl (some roles, known) ↦
          let (allowed, accepted, done) =
            handle_sent env role_has_privilege roles valid (context_of token s).1 r b s'
              (ground (arith, given, known)) in
          (
            token,
            roles,
            (context_of token s).1,
            given,
            ground (arith, known),
            allowed,
            accepted,
            done,
          )
      | inr (e, failed) ↦ ground (arith, given, failed)
    ]
  ]

  -- A header of a scheme and a token, two texts without white space with one space between them,
  -- reaches the handler with the roles that the token helper has for that token.
  pub answer_bearer :
      (scheme token : String) (roles : List String) (r : Request) (s s₁ : State W)
      → is_solid scheme ≡ true
      → scheme ≢ ""
      → is_solid token ≡ true
      → token ≢ ""
      → context_of token s ≡ (ok (some roles), s₁)
      → answer (some (scheme <> " " <> token)) r s ≡ (
        ok (handled (handle env role_has_privilege roles valid r s₁).0),
        (handle env role_has_privilege roles valid r s₁).1,
      )
  unfolding answer authenticate bearer_token
  answer_bearer scheme token roles r s s₁ solid ne solid' ne' known =
      ground (arith, bearer_token_pair scheme token solid ne solid' ne', known)
