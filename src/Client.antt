-- ===== src/Client.antt =====
-- The client library: the class `AccountLookupHttpClient` of
-- packages/client-lib/src/account_lookup_http_client.ts.
use account_lookup_bc.Prelude.{
  String, none, Bool, ℕ, eqb, ◌&&◌, ◌||◌, if◌then◌else◌, is_truthy, shown, ◌<>◌,
}
use account_lookup_bc.Effect.{
  Result, Action, pure, throw, or_throw, guard, ◌>>=◌, ◌>>◌, unable_to_get_fsp_id, unauthorized,
  forbidden,
}
use account_lookup_bc.Types.{Nullable}

-- A response: its status, and what `resp.json()` gives, as the `fspId` of the object in the body.
pub record FetchResponse : Type 0 where
  pub status : ℕ
  pub json : Result Nullable

-- `new URL(path, base).toString()`, and the authenticated requester's `fetch`.
pub record LookupHttp (W : Type 0) : Type 0 where
  pub resolve_url : String → Result String
  pub fetch : String → Action W FetchResponse

-- `urlBuilder`
unfoldable pub lookup_path : Nullable → Nullable → Nullable → String
lookup_path party_type party_id currency =
    let path = "/account-lookup" <> "/" <> shown party_type <> "/" <> shown party_id in
    if is_truthy currency then path <> "?currency=" <> shown currency else path

abbrev has_object : ℕ → Bool
has_object status = eqb status 200 || (eqb status 401 || eqb status 403)

-- The rest, once the response is there.
abbrev pub read_response : {W : Type 0} → FetchResponse → Action W Nullable
read_response resp =
    if has_object resp.status
    then (or_throw (λ w. (resp.json, w)) unable_to_get_fsp_id >>= λ fsp_id.
        if eqb resp.status 200
        then pure fsp_id
        else if eqb resp.status 401
        then throw unauthorized
        else throw forbidden)
    else if eqb resp.status 404
    then pure none
    else throw unable_to_get_fsp_id

-- `participantLookUp`
unfoldable pub participant_look_up :
    {W : Type 0} → LookupHttp W → Nullable → Nullable → Nullable → Action W Nullable
participant_look_up http party_type party_id currency = do
  guard (is_truthy party_type && is_truthy party_id) unable_to_get_fsp_id
  url ← λ w. (http.resolve_url (lookup_path party_type party_id currency), w)
  resp ← or_throw (http.fetch url) unable_to_get_fsp_id
  read_response resp
