-- ===== src/Tests/Lookups.antt =====
-- The authenticated routes, and the client library on the lookup route, on the concrete services.
use account_lookup_bc.Prelude.{
  String, alike, Option, none, some, Bool, true, List, [], ◌∷◌, ℕ, ◌==◌, if◌then◌else◌, ◌≡◌, refl,
  trim_start, trim_end, split_spaces,
}
use account_lookup_bc.Effect.{ok, err, other, Action, unable_to_get_fsp_id}
use account_lookup_bc.Types.{AddOracleDto}
use account_lookup_bc.Aggregate.Admin.{State}
use account_lookup_bc.Service.Authentication.{bearer_token, authenticate, unauthenticated, answer}
use account_lookup_bc.Service.Server.{routed, route, serve_http}
use account_lookup_bc.Client.{FetchResponse, LookupHttp, lookup_path, participant_look_up}
use account_lookup_bc.System.Lookups.{Delivers, look_up_unauthenticated}
use account_lookup_bc.Tests.World.{services, registered}

abbrev pub admins_only : String → String → Bool
admins_only role privilege = role == "admin"

abbrev pub initial : State ℕ
initial = record { adapters = registered; world = 0 }

abbrev pub no_body : AddOracleDto
no_body = record {
  id = none;
  name = "";
  oracle_type = "";
  party_type = none;
  currency = none;
  endpoint = none;
}

-- One token is known.
abbrev pub context_of : String → Action (State ℕ) (Option (List String))
context_of token s = (ok (if token == "t0k" then some ("guest" ∷ "admin" ∷ []) else none), s)

-- The network, for the lookup of the party that the adapter knows.
abbrev found_response : FetchResponse
found_response = record { status = 200; json = ok (some "payee") }

abbrev unauthorized_response : FetchResponse
unauthorized_response = record { status = 401; json = err (other "SyntaxError") }

abbrev after : State ℕ
after = record { adapters = registered; world = 2 }

abbrev network : FetchResponse → State ℕ → LookupHttp (State ℕ)
network response s = record { resolve_url = λ path. ok path; fetch = λ url _. (ok response, s) }

Delivers-unauthorized :
    Delivers services admins_only context_of
      (network unauthorized_response initial)
      (some "Bearer other")
      (λ s. s)
      "MSISDN"
      "123"
      none
      initial
unfolding serve_http route answer authenticate bearer_token trim_start trim_end split_spaces
Delivers-unauthorized = record {
  url = lookup_path (some "MSISDN") (some "123") none;
  resolved = refl;
  response = unauthorized_response;
  after = initial;
  fetched = refl;
  same = alike;
  compares = λ a b. refl;
  valid = λ q. true;
  body = no_body;
  accepted = refl;
  reply = routed unauthenticated;
  replied = refl;
  arrives = (refl, other "SyntaxError", refl);
}

look_up_unauthenticated_example :
    (participant_look_up
      (network unauthorized_response initial)
      (some "MSISDN")
      (some "123")
      none
      initial).0
    ≡ err unable_to_get_fsp_id
unfolding authenticate bearer_token trim_start trim_end split_spaces
look_up_unauthenticated_example =
    look_up_unauthenticated services admins_only context_of (network unauthorized_response initial)
      (some "Bearer other") (λ s. s) "MSISDN" "123" none initial Delivers-unauthorized (λ e. cc)
      (λ e. cc) refl
