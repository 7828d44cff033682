-- ===== src/System/Remote.antt =====
-- The adapter of packages/implementations-lib/src/oracles/adapters/remote/http_oracleprovider.ts on
-- the server of packages/http-oracle-svc, over an HTTP connection.
pub mod Unknown
use account_lookup_bc.Prelude.{
  String, alike, none, some, Bool, true, List, [], ◌∷◌, if_truthy, ◌≡◌, ◌≢◌, refl, sym, subst, ap,
  ◌∙◌, arith, eq_iff, inl, inr, Option-cases,
}
use account_lookup_bc.Effect.{
  Error, ok, err, unable_to_get_participant_fsp_id, unable_to_get_association,
}
use account_lookup_bc.Types.{Nullable, Oracle, ParticipantLookup}
use account_lookup_bc.Services.{OracleAdapter, Services}
use account_lookup_bc.Express.{get}
use account_lookup_bc.HttpOracle.{Files, OracleState, map_get}
use account_lookup_bc.HttpOracle.Server.{
  Params, get_request, post_request, Reply, fsp_sent, status_of, serve,
}
use account_lookup_bc.HttpOracle.Mounted.{
  OracleHttpRequest, oracle_request_for, serve_oracle, serve_oracle-request_for, no_associations,
}
use account_lookup_bc.HttpOracle.Replies.{key_of_params, serve_post_status, serve_get-post}
use account_lookup_bc.Aggregate.Oracles.{get_participant_id_from_oracle}
use account_lookup_bc.Aggregate.Admin.{State, get_account_lookup}
use account_lookup_bc.Aggregate.Answer.{IsAdapterFor, get_oracle_adapter-IsAdapterFor_iff}
use account_lookup_bc.Service.Routes.{look_up, failed, has_privilege, handle}
use account_lookup_bc.Service.Routes.Access.{handle_allowed}
use account_lookup_bc.Implementations.Remote.{HttpClient, participant_url, http_oracle_provider}

abbrev pub fsp_of_reply : Reply → Nullable
fsp_of_reply (fsp_sent fsp_id) = some fsp_id
fsp_of_reply _ = none

-- What the server reads from a request to the URL of a party without a sub type.
abbrev pub params_of : String → String → Nullable → Nullable → Params
params_of party_type party_id currency fsp_id = record {
  party_type = party_type;
  party_id = party_id;
  party_sub_type = none;
  currency = if_truthy currency;
  fsp_id = fsp_id;
}

-- A request for all associations of the oracle.
abbrev pub associations_url : OracleHttpRequest
associations_url = record {
  method = get;
  path = "participants" ∷ "associations" ∷ [];
  query = λ _. none;
  fsp_id = none;
}

-- The reply to a GET after a POST that was answered 200, for the same party.
posted_reply :
    {W : Type 0} (fs : Files W) (s s₁ s₂ : OracleState W) (p p' : Params) (f : String)
    (made reply : Reply)
    → key_of_params p ≡ key_of_params p'
    → p.fsp_id ≡ some f
    → f ≢ ""
    → serve fs true (post_request p) s ≡ (made, s₁)
    → status_of made ≡ 200
    → serve fs true (get_request p') s₁ ≡ (reply, s₂)
    → reply ≡ fsp_sent f
posted_reply fs s s₁ s₂ p p' f made reply same given nonempty post_done is_200 get_done =
    elim (Option-cases (map_get (key_of_params p) s.associations)) [
      | inl new ↦
          let after = serve_get-post fs s p p' new in
          ground (
            arith,
            after,
            same,
            given,
            post_done,
            get_done,
            eq_iff (key_of_params p) (key_of_params p'),
            eq_iff f "",
          )
      | inr (a, known) ↦ ground (arith, serve_post_status fs s p, known, post_done, is_200)
    ]

module _ {W V : Type 0} (fs : Files W) (client : HttpClient V) (t i : String) (c : Nullable) where
  abbrev pub get_url : OracleHttpRequest
  get_url = oracle_request_for (get_request (params_of t i c none))

  abbrev pub post_url : String → OracleHttpRequest
  post_url fsp_id = oracle_request_for (post_request (params_of t i c (some fsp_id)))

  -- The documented behaviour of axios, of Express and of express-validator, for a party whose type,
  -- id and currency stand in a URL as they are: a call to the server's `endpoint` resolves only if
  -- the server has replied 200, with the data of the reply; it rejects where the server replies 404;
  -- an FSP id that is not empty passes the validation; and the words of a path are compared without
  -- regard to case. `oracle_of` is the server's part of the state.
  pub record TransportLaws : Type 0 where
    pub endpoint : String
    pub oracle_of : V → OracleState W
    pub same : String → String → Bool
    pub compares : (a b : String) → same a b ≡ alike a b
    pub valid : OracleHttpRequest → Bool
    pub get_valid : valid get_url ≡ true
    pub post_valid : (fsp_id : String) → fsp_id ≢ "" → valid (post_url fsp_id) ≡ true
    pub typed : t ≢ ""
    pub identified : i ≢ ""
    pub get_law :
        (r : Nullable) (v v' : V)
        → client.get_fsp_id (some endpoint) (participant_url (some t) (some i) none c) v
          ≡ (ok r, v')
        → (reply : Reply) × (serve_oracle same valid fs get_url (oracle_of v)
            ≡ (reply, oracle_of v'))
          × (status_of reply ≡ 200)
          × (r ≡ fsp_of_reply reply)
    pub missing_law :
        (v : V)
        → status_of (serve_oracle same valid fs get_url (oracle_of v)).0 ≡ 404
        → (e : Error) × ((client.get_fsp_id
              (some endpoint)
              (participant_url (some t) (some i) none c)
              v).0
            ≡ err e)
    pub list_law :
        (v : V)
        → status_of (serve_oracle same valid fs associations_url (oracle_of v)).0 ≡ 404
        → (e : Error) × ((client.get_associations (some endpoint) "/participants/associations" v).0
            ≡ err e)
    pub post_law :
        (fsp_id : String) (v v' : V)
        → fsp_id ≢ ""
        → client.post_fsp_id
            (some endpoint)
            (participant_url (some t) (some i) none c)
            (some fsp_id)
            v
          ≡ (ok tt, v')
        → (reply : Reply) × (serve_oracle same valid fs (post_url fsp_id) (oracle_of v)
            ≡ (reply, oracle_of v'))
          × (status_of reply ≡ 200)

  module _ (laws : TransportLaws) (o : Oracle) (given : o.endpoint ≡ some (laws.endpoint)) where
    open laws use {
      endpoint, oracle_of, same, compares, valid, get_valid, post_valid, typed, identified, get_law,
      missing_law, list_law, post_law,
    }

    -- The server takes the adapter's requests to their handlers.
    pub got_handled :
        (s : OracleState W)
        → serve_oracle same valid fs get_url s
          ≡ serve fs true (get_request (params_of t i c none)) s
    got_handled s =
        let r = get_request (params_of t i c none) in
        serve_oracle-request_for valid fs same compares r s (typed, identified)
        ∙ ap (λ b. serve fs b r s) get_valid

    post_handled :
        (f : String) (s : OracleState W)
        → f ≢ ""
        → serve_oracle same valid fs (post_url f) s
          ≡ serve fs true (post_request (params_of t i c (some f))) s
    post_handled f s nonempty =
        let r = post_request (params_of t i c (some f)) in
        serve_oracle-request_for valid fs same compares r s (typed, identified)
        ∙ ap (λ b. serve fs b r s) (post_valid f nonempty)

    abbrev adapter : OracleAdapter V
    adapter = http_oracle_provider client o

    adapter_get :
        (r : Nullable) (v v' : V)
        → adapter.get_participant_fsp_id (some t) (some i) none c v ≡ (ok r, v')
        → client.get_fsp_id (some endpoint) (participant_url (some t) (some i) none c) v
          ≡ (ok r, v')
    unfolding http_oracle_provider
    adapter_get r v v' h =
        subst (λ e. client.get_fsp_id e (participant_url (some t) (some i) none c) v ≡ (ok r, v'))
          given (ground arith)

    adapter_post :
        (f : String) (v v' : V)
        → adapter.associate_participant (some f) (some t) (some i) none c v ≡ (ok tt, v')
        → client.post_fsp_id (some endpoint) (participant_url (some t) (some i) none c) (some f) v
          ≡ (ok tt, v')
    unfolding http_oracle_provider
    adapter_post f v v' h =
        subst
          (λ e.
            client.post_fsp_id e (participant_url (some t) (some i) none c) (some f) v
            ≡ (ok tt, v'))
          given (ground arith)

    -- Where the connection behaves as documented, an association through the HTTP adapter that
    -- resolves, for a party without a sub type and an FSP id that is not empty, is what the next
    -- lookup through the adapter that resolves answers with.
    pub remote_lookup-associate :
        (f : String) (r : Nullable) (v v₁ v₂ : V)
        → f ≢ ""
        → (http_oracle_provider client o).associate_participant (some f) (some t) (some i) none c v
          ≡ (ok tt, v₁)
        → (http_oracle_provider client o).get_participant_fsp_id (some t) (some i) none c v₁
          ≡ (ok r, v₂)
        → r ≡ some f
    remote_lookup-associate f r v v₁ v₂ nonempty associated looked_up =
        let p = params_of t i c (some f) in
        let (made, post_done, is_200) = post_law f v v₁ nonempty (adapter_post f v v₁ associated) in
        let (reply, get_done, is_200', is) = get_law r v₁ v₂ (adapter_get r v₁ v₂ looked_up) in
        let sent =
          posted_reply fs (oracle_of v) (oracle_of v₁) (oracle_of v₂) (params_of t i c (some f))
            (params_of t i c none) f made reply refl refl nonempty
            (sym (post_handled f (oracle_of v) nonempty) ∙ post_done) is_200
            (sym (got_handled (oracle_of v₁)) ∙ get_done) in
        is ∙ ap fsp_of_reply sent
