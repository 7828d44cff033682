-- ===== src/System/Lookups.antt =====
-- The client library of packages/client-lib on the HTTP server of packages/account-lookup-svc, from
-- its call to the lookup route and back, over an HTTP connection.
use account_lookup_bc.Prelude.{
  String, alike, Option, none, some, Bool, true, List, if_truthy, ◌⊎◌, ◌≡◌, ◌≢◌, refl, sym, subst,
  ◌∙◌, arith, eq_iff, inl, inr,
}
use account_lookup_bc.Effect.{
  Error, Result, ok, err, Action, Result-cases, participant_not_found,
  unable_to_get_participant_fsp_id, unable_to_get_fsp_id,
}
use account_lookup_bc.Types.{Nullable, AddOracleDto, ParticipantLookup}
use account_lookup_bc.Services.{Services}
use account_lookup_bc.Aggregate.Oracles.{get_participant_id_from_oracle}
use account_lookup_bc.Aggregate.Admin.{State, lookup_error, get_account_lookup}
use account_lookup_bc.Service.Routes.{sent, failed, fsp, look_up}
use account_lookup_bc.Service.Authentication.{
  Answer, unauthenticated, handled, authenticate, answer,
}
use account_lookup_bc.Service.Server.{
  HttpRequest, Reply, alive, metrics, not_found, routed, serve_http,
}
use account_lookup_bc.Service.Server.Paths.{request_for, serve_http-request_for}
use account_lookup_bc.Client.{
  FetchResponse, LookupHttp, lookup_path, read_response, participant_look_up,
}

-- How a reply arrives: that of the middleware has a text for a body, and the errors of a handler
-- are objects without an `fspId`. The last handler sends the status 404 with a text.
abbrev pub ArrivesAs : Reply → FetchResponse → Type 0
ArrivesAs alive resp = (resp.status ≡ 200) × (resp.json ≡ ok none)
ArrivesAs metrics resp = resp.status ≡ 200
ArrivesAs not_found resp = (resp.status ≡ 404) × (e : Error) × (resp.json ≡ err e)
ArrivesAs (routed unauthenticated) resp = (resp.status ≡ 401) × (e : Error) × (resp.json ≡ err e)
ArrivesAs (routed (handled (sent (fsp id)))) resp = (resp.status ≡ 200) × (resp.json ≡ ok (some id))
ArrivesAs (routed (handled (sent _))) resp = resp.status ≡ 200
ArrivesAs (routed (handled (failed code))) resp = (resp.status ≡ code) × (resp.json ≡ ok none)

-- What the route reads from the client's request.
abbrev pub lookup_of : String → String → Nullable → ParticipantLookup
lookup_of party_type party_id currency = record {
  party_id = some party_id;
  party_type = some party_type;
  party_sub_type = none;
  currency = if_truthy currency;
}

-- What the client makes of the aggregate's lookup.
abbrev pub expected : Result String → Result Nullable
expected (ok id) = ok (some id)
expected (err participant_not_found) = ok none
expected (err _) = err unable_to_get_fsp_id

lookup_error_cases :
    (e : Error)
    → (lookup_error e ≡ participant_not_found) ⊎ (lookup_error e ≡ unable_to_get_participant_fsp_id)
lookup_error_cases participant_not_found = inl refl
lookup_error_cases _ = inr refl

pub lookup_errors :
    {W : Type 0} (env : Services W) (p : ParticipantLookup) (s : State W) (e : Error)
    → (get_account_lookup env p s).0 ≡ err e
    → (e ≡ participant_not_found) ⊎ (e ≡ unable_to_get_participant_fsp_id)
unfolding get_account_lookup
lookup_errors env p s e h =
    elim (Result-cases
      (get_participant_id_from_oracle env s.adapters p.party_id p.party_type p.party_sub_type
        p.currency s.world).0) [
          | inl (id, found) ↦ ground (arith, found, h)
          | inr (x, failing) ↦
              let is : lookup_error x ≡ e = ground (arith, failing, h) in
              elim (lookup_error_cases x) [
                | inl missing ↦ inl (sym is ∙ missing)
                | inr unable ↦ inr (sym is ∙ unable)
              ]
        ]

module _ {W V : Type 0} (env : Services W) (role_has_privilege : String → String → Bool)
    (context_of : String → Action (State W) (Option (List String))) (http : LookupHttp V)
    (authorization : Nullable) (state_of : V → State W) where
  -- The documented behaviour of `fetch` and of Express, where `authorization` is the header that the
  -- authenticated requester adds, `state_of` is the service's part of the state, and the party's
  -- type and id stand in a URL as they are: a response that is there is the server's reply to the
  -- request of the client's URL, which express-validator finds valid, and the words of a path are
  -- compared without regard to case.
  pub record Delivers (party_type party_id : String) (currency : Nullable) (v : V) : Type 0 where
    pub url : String
    pub resolved :
        http.resolve_url (lookup_path (some party_type) (some party_id) currency) ≡ ok url
    pub response : FetchResponse
    pub after : V
    pub fetched : http.fetch url v ≡ (ok response, after)
    pub same : String → String → Bool
    pub compares : (a b : String) → same a b ≡ alike a b
    pub valid : HttpRequest → Bool
    pub body : AddOracleDto
    pub accepted :
        valid (request_for authorization body (look_up (lookup_of party_type party_id currency)))
        ≡ true
    pub reply : Reply
    pub replied :
        serve_http same env role_has_privilege context_of valid
          (request_for authorization body (look_up (lookup_of party_type party_id currency)))
          (state_of v)
        ≡ (ok reply, state_of after)
    pub arrives : ArrivesAs reply response

  module _ (t i : String) (c : Nullable) (v : V) (delivers : Delivers t i c v) (typed : t ≢ "")
      (identified : i ≢ "") where
    abbrev outcome : Result Nullable
    outcome = (participant_look_up http (some t) (some i) c v).0

    outcome_read : outcome ≡ (read_response delivers.response delivers.after).0
    unfolding participant_look_up
    outcome_read = ground (arith, eq_iff t "", eq_iff i "", delivers.resolved, delivers.fetched)

    -- The server takes the client's request to the lookup route.
    answer_replied :
        (a : Answer)
        → (answer env role_has_privilege context_of true authorization
            (look_up (lookup_of t i c))
            (state_of v)).0
          ≡ ok a
        → delivers.reply ≡ routed a
    answer_replied a answered =
        let served =
          serve_http-request_for authorization delivers.body env role_has_privilege context_of
            delivers.valid delivers.same delivers.compares (look_up (lookup_of t i c)) (state_of v)
            (t, i, refl, refl, typed, identified) in
        ground (arith, served, delivers.replied, delivers.accepted, answered)

    arrival : (a : Answer) → delivers.reply ≡ routed a → ArrivesAs (routed a) delivers.response
    arrival a is = subst (λ x. ArrivesAs x delivers.response) is delivers.arrives

    read_unauthenticated :
        delivers.reply ≡ routed unauthenticated → outcome ≡ err unable_to_get_fsp_id
    read_unauthenticated is =
        let (status, e, text) = arrival unauthenticated is in
        outcome_read ∙ ground (arith, status, text)

    -- Over the whole HTTP server, where the connection and Express behave as documented and the
    -- party's type and id are not empty: where a request without a token that the token helper knows
    -- is answered 401, the client throws UnableToGetFspIdError, not UnauthorizedError: the
    -- middleware's body is a text, not an object.
    pub look_up_unauthenticated :
        (authenticate context_of authorization (state_of v)).0 ≡ ok none
        → (participant_look_up http (some t) (some i) c v).0 ≡ err unable_to_get_fsp_id
    unfolding answer
    look_up_unauthenticated unknown =
        read_unauthenticated (answer_replied unauthenticated (ground (arith, unknown)))
