-- ===== src/Tests/Start.antt =====
-- The starts of the two processes on concrete platforms.
use account_lookup_bc.Prelude.{
  String, Option, none, some, true, false, List, [], ◌∷◌, ◌++◌, map, ℕ, suc, ◌≡◌, refl, ◌⊎◌, arith,
}
use account_lookup_bc.Effect.{ok, other, pure, throw}
use account_lookup_bc.Types.{Oracle}
use account_lookup_bc.Services.{OracleAdapter, Services}
use account_lookup_bc.Aggregate.Admin.{State}
use account_lookup_bc.Aggregate.Admin as Admin
use account_lookup_bc.Service.EventHandler.{Messaging}
use account_lookup_bc.Service.EventHandler as EventHandler
use account_lookup_bc.Service.Startup.{Platform, Process, connect_platform, serve_requests, start}
use account_lookup_bc.Service.Startup.Order.{IsUnheard, start_failed, start_resolved}
use account_lookup_bc.Implementations.Builtin.Provider.{builtin_provider}
use account_lookup_bc.Implementations.Builtin.Search as Search
use account_lookup_bc.Implementations.Remote.{HttpClient}
use account_lookup_bc.Implementations.Factory.{create}
use account_lookup_bc.System.Start.{AreStarted, init-AreStarted}
use account_lookup_bc.HttpOracle.{
  create_key, associate_participant, load_from_file, read_records, load_records, save_to_file,
  get_participant_fsp_id,
}
use account_lookup_bc.HttpOracle as HttpOracle
use account_lookup_bc.HttpOracle.Server.{Params, get_request, fetched_reply, serve}
use account_lookup_bc.HttpOracle.Replies.{key_of_params}
use account_lookup_bc.HttpOracle.Process as OracleProcess
use account_lookup_bc.HttpOracle.Process.{serve_get-start}
use account_lookup_bc.Tests.World.{builtin_oracle, two_oracles, adapter_with_id}
use account_lookup_bc.Tests.Servers.{Servers, memory}
use account_lookup_bc.Tests.Search.{memory_search}
use account_lookup_bc.Tests.System.{builtin_services, empty}
use account_lookup_bc.Tests.HttpOracle.{disk, disk_laws}
use account_lookup_bc.Tests.HttpOracle as Disk

abbrev messaging : Messaging ℕ
messaging = record {
  connect_producer = pure tt;
  connect_consumer = pure tt;
  start_and_wait_for_rebalance = pure tt;
  stop_consumer = pure tt;
  send = λ outs w. (ok tt, suc w);
}

abbrev platform : Platform ℕ
platform = record {
  init_logger = pure tt;
  start_tracing = pure tt;
  bootstrap_privileges = pure tt;
  fetch_privileges = pure tt;
  init_authorization = pure tt;
  init_token_helper = pure tt;
  listen = pure tt;
  destroy_consumer = pure tt;
  destroy_producer = pure tt;
  destroy_token_helper = pure tt;
  close_server = pure tt;
}

abbrev off : Process ℕ
off = record {
  timer_runs = false;
  has_messaging = false;
  has_token_helper = false;
  has_handler = false;
  has_server = false;
  aggregate = record { adapters = []; world = 0 };
}

-- The privileges cannot be fetched.
abbrev without_privileges : Platform ℕ
without_privileges = record platform { fetch_privileges = throw (other "ECONNREFUSED") }

abbrev half_started : Process ℕ
half_started = record off { timer_runs = true; has_messaging = true }

start_failed_example :
    (true ≡ true)
    × ((false ≡ false)
        ⊎ IsUnheard two_oracles messaging without_privileges true true off (other "ECONNREFUSED"))
unfolding start connect_platform
start_failed_example =
    start_failed two_oracles messaging without_privileges true true off (other "ECONNREFUSED")
      half_started refl

create_id : (o : Oracle) (a : OracleAdapter ℕ) → two_oracles.create o ≡ ok a → a.oracle_id ≡ o.id
create_id o a h = ground arith

abbrev up : Process ℕ
up = record {
  timer_runs = false;
  has_messaging = true;
  has_token_helper = true;
  has_handler = true;
  has_server = true;
  aggregate = record { adapters = adapter_with_id "o1" ∷ adapter_with_id "o2" ∷ []; world = 4 };
}

start_resolved_example :
    (oracles : List Oracle) × (v : Process ℕ) × (w₁ : ℕ) × (w₂ : ℕ) × (connect_platform two_oracles
        messaging platform true true
        (record off { timer_runs = true })
      ≡ (ok tt, v))
    × (two_oracles.finder.init v.aggregate.world ≡ (ok tt, w₁))
    × (two_oracles.finder.get_all_oracles w₁ ≡ (ok oracles, w₂))
    × (map (λ a. a.oracle_id) up.aggregate.adapters ≡ map (λ o. o.id) oracles)
    × (false ≡ false)
    × (true ≡ true)
unfolding start connect_platform serve_requests EventHandler.start Admin.init Admin.init_adapters
start_resolved_example =
    start_resolved two_oracles messaging platform true true off create_id up refl

-- A signal once a request has made the world 9.
abbrev asked : State ℕ
asked = record { adapters = up.aggregate.adapters; world = 9 }

-- The aggregate with the factory, and a client that never answers.
abbrev unreachable : HttpClient Servers
unreachable = record {
  get_status = λ _ _. throw (other "timeout");
  get_fsp_id = λ _ _. throw (other "timeout");
  get_associations = λ _ _. throw (other "timeout");
  post_fsp_id = λ _ _ _. throw (other "timeout");
  delete_fsp_id = λ _ _ _. throw (other "timeout");
}

abbrev factory_services : Services Servers
factory_services = record builtin_services {
  create = create (builtin_provider memory memory_search 30) unreachable;
}

abbrev initialised : State Servers
initialised = record {
  adapters = builtin_provider memory memory_search 30 builtin_oracle ∷ [];
  world = empty;
}

init-AreStarted_example :
    (oracles : List Oracle) × (adapters : List (OracleAdapter Servers)) × (w₁ : Servers)
    × (w₂ : Servers) × (factory_services.finder.init empty ≡ (ok tt, w₁))
    × (factory_services.finder.get_all_oracles w₁ ≡ (ok oracles, w₂))
    × AreStarted factory_services memory memory_search 30 unreachable
        (λ o. refl)
        oracles
        w₂
        adapters
        empty
    × (initialised.adapters ≡ [] ++ adapters)
unfolding Admin.init Admin.init_adapters create builtin_provider Search.init
init-AreStarted_example =
    init-AreStarted factory_services memory memory_search 30 unreachable (λ o. refl)
      (record { adapters = []; world = empty }) initialised refl

abbrev params : Params
params = record {
  party_type = "MSISDN";
  party_id = "123";
  party_sub_type = none;
  currency = none;
  fsp_id = some "payee";
}

abbrev restarted : HttpOracle.OracleState (Option String)
restarted = (OracleProcess.start disk (pure tt) (pure tt) Disk.after.files).1

serve_get-start_example :
    ((serve disk true (get_request params) restarted).0
      ≡ (serve disk true (get_request params) Disk.after).0)
    × (key_of_params params ≡ key_of_params params
        → (serve disk true (get_request params) restarted).0 ≡ fetched_reply (some "payee"))
unfolding OracleProcess.start HttpOracle.init load_from_file read_records load_records
    associate_participant create_key save_to_file serve
serve_get-start_example =
    serve_get-start disk (pure tt) (pure tt) disk_laws params params Disk.empty Disk.after restarted
      tt refl refl refl
