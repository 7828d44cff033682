-- ===== src/Tests/Delivery.antt =====
-- The client's lookup after an association, on the store in memory.
use account_lookup_bc.Prelude.{
  String, Option, none, some, List, [], ◌∷◌, ◌==◌, if◌then◌else◌, ◌≡◌, refl,
}
use account_lookup_bc.Effect.{ok, Action}
use account_lookup_bc.Implementations.Builtin.{
  set_to_cache, associate_participant, get_all_associations,
}
use account_lookup_bc.Implementations.Builtin.Provider.{builtin_provider}
use account_lookup_bc.Aggregate.Oracles.{get_oracle_adapter}
use account_lookup_bc.Aggregate.Admin.{ask_oracles, get_builtin_oracle_associations, State}
use account_lookup_bc.Client.{FetchResponse, LookupHttp}
use account_lookup_bc.System.Listing.{shown_documents, builtin_associations_lem}
use account_lookup_bc.Tests.World.{builtin_oracle}
use account_lookup_bc.Tests.Servers.{Servers, memory, memory_laws}
use account_lookup_bc.Tests.Search.{memory_search}
use account_lookup_bc.Tests.System.{builtin_services, builtin_adapters, builtin_system, associated}

abbrev running : State Servers
running = record { adapters = builtin_adapters; world = associated }

abbrev context_of : String → Action (State Servers) (Option (List String))
context_of token s = (ok (if token == "t0k" then some ("admin" ∷ []) else none), s)

abbrev response : FetchResponse
response = record { status = 200; json = ok (some "payee") }

abbrev network : LookupHttp (State Servers)
network = record { resolve_url = λ path. ok path; fetch = λ url s. (ok response, s) }

builtin_associations_lem_example : associated.stored ≡ shown_documents associated.stored
unfolding get_builtin_oracle_associations ask_oracles get_oracle_adapter builtin_provider
    get_all_associations associate_participant set_to_cache
builtin_associations_lem_example =
    builtin_associations_lem builtin_services builtin_adapters memory memory_search 30 memory_laws
      builtin_system running running (builtin_oracle ∷ []) associated associated.stored refl refl
      (λ e. cc) refl
