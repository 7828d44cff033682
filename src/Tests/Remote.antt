-- ===== src/Tests/Remote.antt =====
-- The oracle's server on a file in memory, and the HTTP adapter on that server.
use account_lookup_bc.Prelude.{
  String, alike, Option, none, some, Bool, true, List, [], ◌∷◌, eqb, ◌==◌, if◌then◌else◌, ◌≡◌, ◌≢◌,
  refl, arith,
}
use account_lookup_bc.Effect.{Action, Error, Result, ok, err, other}
use account_lookup_bc.Types.{Nullable}
use account_lookup_bc.HttpOracle.{
  Files, OracleState, create_key, save_to_file, get_participant_fsp_id, associate_participant,
}
use account_lookup_bc.HttpOracle.Directory.{
  Account, Call, look_up, associate, disassociate, Directory, specified, replay, AreServed,
  Represents, perform,
}
use account_lookup_bc.HttpOracle.Directory.Refinement.{replay-Represents}
use account_lookup_bc.HttpOracle.Server.{
  Params, OracleRequest, get_request, post_request, delete_request, Reply, status_of, fsp_sent,
  status_only, health_sent, error_sent, serve,
}
use account_lookup_bc.HttpOracle.Mounted.{oracle_request_for, serve_oracle}
use account_lookup_bc.HttpOracle.Replies.{serve_get-post}
use account_lookup_bc.Implementations.Remote.{HttpClient, http_oracle_provider}
use account_lookup_bc.Services.{Services}
use account_lookup_bc.Aggregate.Admin.{State}
use account_lookup_bc.Service.Routes.{look_up as route_look_up}
use account_lookup_bc.System.Remote.{
  fsp_of_reply, params_of, TransportLaws, remote_lookup-associate,
}
use account_lookup_bc.Tests.Factory.{remote_oracle}
use account_lookup_bc.Tests.HttpOracle.{disk, empty}

abbrev account : Account
account = record {
  party_type = some "MSISDN";
  party_id = some "123";
  party_sub_type = none;
  currency = none;
}

abbrev calls : List Call
calls =
    look_up account
    ∷ associate (some "payee") account
    ∷ associate (some "other") account
    ∷ look_up account
    ∷ disassociate (some "payee") account
    ∷ look_up account
    ∷ []

abbrev none_listed : Directory
none_listed k = none

replay-Represents_example :
    AreServed disk calls empty none_listed
    × Represents disk (replay (perform disk) calls empty).1 (replay specified calls none_listed).1
replay-Represents_example =
    replay-Represents disk calls empty none_listed (record { keyed = tt; lists = λ k. refl })

abbrev params : Params
params = record {
  party_type = "MSISDN";
  party_id = "123";
  party_sub_type = none;
  currency = none;
  fsp_id = some "payee";
}

-- A disk that is full.
abbrev full_disk : Files (Option String)
full_disk = record disk { write_file = λ text w. (err (other "ENOSPC"), w) }

-- The POST is answered 500, and its FSP is found.
serve_get-post_example :
    (serve full_disk true
      (get_request params)
      (serve full_disk true (post_request params) empty).1).0
    ≡ fsp_sent "payee"
unfolding create_key
serve_get-post_example = serve_get-post full_disk empty params params refl

-- A connection on which every URL is that of the party of the type "IBAN" and the id "7", without a
-- currency.
abbrev one_party : Nullable → Params
one_party fsp_id = params_of "IBAN" "7" none fsp_id

abbrev got : Reply × OracleState (Option String) → Result Nullable × OracleState (Option String)
got (fsp_sent fsp_id, s) = (ok (some fsp_id), s)
got (_, s) = (err (other "Request failed"), s)

abbrev posted :
    Reply × OracleState (Option String) → Result (Unit {0}) × OracleState (Option String)
posted (reply, s) = (if eqb (status_of reply) 200 then ok tt else err (other "Request failed"), s)

abbrev served : OracleRequest → OracleState (Option String) → Reply × OracleState (Option String)
served r = serve_oracle alike (λ q. true) disk (oracle_request_for r)

abbrev connection : HttpClient (OracleState (Option String))
connection = record {
  get_status = λ _ _ s. (ok 200, s);
  get_fsp_id = λ _ _ s. got (served (get_request (one_party none)) s);
  get_associations = λ _ _ s. (err (other "Request failed"), s);
  post_fsp_id = λ _ _ fsp_id s. posted (served (post_request (one_party fsp_id)) s);
  delete_fsp_id = λ _ _ fsp_id s. posted (served (delete_request (one_party fsp_id)) s);
}

got_law :
    (o : Reply × OracleState (Option String)) (r : Nullable) (s' : OracleState (Option String))
    → got o ≡ (ok r, s')
    → (reply : Reply) × (o ≡ (reply, s')) × (status_of reply ≡ 200) × (r ≡ fsp_of_reply reply)
got_law (fsp_sent fsp_id, s) r s' h = (fsp_sent fsp_id, ground arith, refl, ground arith)
got_law (status_only _, s) r s' h = ground arith
got_law (health_sent _, s) r s' h = ground arith
got_law (error_sent _, s) r s' h = ground arith

missing_law :
    (o : Reply × OracleState (Option String))
    → status_of o.0 ≡ 404
    → (e : Error) × ((got o).0 ≡ err e)
missing_law (fsp_sent fsp_id, s) h = absurd (omega (arith, h))
missing_law (_, s) h = (other "Request failed", refl)

posted_law :
    (o : Reply × OracleState (Option String)) (s' : OracleState (Option String))
    → posted o ≡ (ok tt, s')
    → (reply : Reply) × (o ≡ (reply, s')) × (status_of reply ≡ 200)
posted_law (reply, s) s' h = (reply, ground (arith, h), ground (arith, h))

iban_nonempty : ◌≢◌ {A = String} "IBAN" ""
iban_nonempty e = cc

seven_nonempty : ◌≢◌ {A = String} "7" ""
seven_nonempty e = cc

abbrev connection_laws : TransportLaws disk connection "IBAN" "7" none
connection_laws = record {
  endpoint = "http://localhost:3031";
  oracle_of = λ s. s;
  same = alike;
  compares = λ a b. refl;
  valid = λ q. true;
  get_valid = refl;
  post_valid = λ fsp_id ne. refl;
  typed = iban_nonempty;
  identified = seven_nonempty;
  get_law = λ r v v' h. got_law (served (get_request (one_party none)) v) r v' h;
  missing_law = λ v h. missing_law (served (get_request (one_party none)) v) h;
  list_law = λ v h. (other "Request failed", refl);
  post_law =
      λ fsp_id v v' ne h. posted_law (served (post_request (one_party (some fsp_id))) v) v' h;
}

abbrev remote_associated : OracleState (Option String)
remote_associated =
    ((http_oracle_provider connection remote_oracle).associate_participant (some "payee")
      (some "IBAN") (some "7") none none empty).1

remote_lookup-associate_example : ◌≡◌ {A = Nullable} (some "payee") (some "payee")
unfolding http_oracle_provider serve_oracle serve associate_participant get_participant_fsp_id
    create_key save_to_file
remote_lookup-associate_example =
    remote_lookup-associate disk connection "IBAN" "7" none connection_laws remote_oracle refl
      "payee" (some "payee") empty remote_associated remote_associated (λ e. cc) refl refl

abbrev still : {A : Type 0} → A → Action (OracleState (Option String)) A
still a s = (ok a, s)

abbrev remote_services : Services (OracleState (Option String))
remote_services = record {
  finder = record {
    init = still tt;
    destroy = still tt;
    add_oracle = λ _. still tt;
    remove_oracle = λ _. still tt;
    get_all_oracles = still (remote_oracle ∷ []);
    get_oracle_by_id = λ _. still none;
    get_oracle_by_name = λ _. still none;
    get_oracle = λ _ _. still (some remote_oracle);
  };
  create = λ o. ok (http_oracle_provider connection o);
  get_participant_info = λ id. still none;
  random_uuid = still "fresh";
  domain_event = "DomainEvent";
}

abbrev remote_state : State (OracleState (Option String))
remote_state = record {
  adapters = http_oracle_provider connection remote_oracle ∷ [];
  world = empty;
}

abbrev admins_only : String → String → Bool
admins_only role privilege = role == "admin"
