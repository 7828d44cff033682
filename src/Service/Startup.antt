-- ===== src/Service/Startup.antt =====
-- The life cycle of the service: the class `Service` of packages/account-lookup-svc/src/service.ts.
-- Its constructor calls have no effect but that the static field is set, to the argument if there
-- is one and else to the default.
pub mod Order
pub mod Shutdown
use account_lookup_bc.Prelude.{
  Bool, true, false, [], if◌then◌else◌, ◌≡◌, refl, ap, ◌∙◌, arith, inl, inr,
}
use account_lookup_bc.Effect.{Error, Result, ok, err, Action, pure, ◌>>=◌, ◌>>◌, Result-cases}
use account_lookup_bc.Services.{OracleAdapter, Services}
use account_lookup_bc.Aggregate.Admin.{State}
use account_lookup_bc.Service.EventHandler.{Messaging}
use account_lookup_bc.Service.EventHandler as EventHandler

-- The calls of the platform's libraries. A port that cannot be listened on counts as a rejection.
pub record Platform (W : Type 0) : Type 0 where
  pub init_logger : Action W (Unit {0})
  pub start_tracing : Action W (Unit {0})
  pub bootstrap_privileges : Action W (Unit {0})
  pub fetch_privileges : Action W (Unit {0})
  pub init_authorization : Action W (Unit {0})
  pub init_token_helper : Action W (Unit {0})
  pub listen : Action W (Unit {0})
  pub destroy_consumer : Action W (Unit {0})
  pub destroy_producer : Action W (Unit {0})
  pub destroy_token_helper : Action W (Unit {0})
  pub close_server : Action W (Unit {0})

-- Which static fields are set, whether the startup timer runs, and the aggregate.
pub record Process (W : Type 0) : Type 0 where
  pub timer_runs : Bool
  pub has_messaging : Bool
  pub has_token_helper : Bool
  pub has_handler : Bool
  pub has_server : Bool
  pub aggregate : State W

module _ {W : Type 0} where
  abbrev pub on_platform : Action W (Unit {0}) → Action (Process W) (Unit {0})
  on_platform m s =
      let (r, w) = m s.aggregate.world in
      (r, record s { aggregate = record { adapters = s.aggregate.adapters; world = w } })

  abbrev pub on_aggregate : Action (State W) (Unit {0}) → Action (Process W) (Unit {0})
  on_aggregate m s = let (r, a) = m s.aggregate in (r, record s { aggregate = a })

  abbrev pub update : (Process W → Process W) → Action (Process W) (Unit {0})
  update f s = (ok tt, f s)

  -- `if (test) { await m }`
  abbrev pub when : Bool → Action (Process W) (Unit {0}) → Action (Process W) (Unit {0})
  when test m s = if test then m s else (ok tt, s)

module _ {W : Type 0} (env : Services W) (messaging : Messaging W) (platform : Platform W) where
  -- The part of `start` up to the token helper, where the flags say which of the logger and the
  -- authorization client are made by default.
  unfoldable pub connect_platform : Bool → Bool → Action (Process W) (Unit {0})
  connect_platform default_logger default_authorization = do
    when default_logger (on_platform platform.init_logger)
    update (λ s. record s { has_messaging = true })
    on_platform platform.start_tracing
    when default_authorization (do
      on_platform platform.bootstrap_privileges
      on_platform platform.fetch_privileges
      on_platform platform.init_authorization)
    update (λ s. record s { has_token_helper = true })
    on_platform platform.init_token_helper

  -- The rest: a new aggregate, its event handler, and the HTTP server.
  unfoldable pub serve_requests : Action (Process W) (Unit {0})
  serve_requests = do
    update (λ s. record s {
      has_handler = true;
      aggregate = record { adapters = []; world = s.aggregate.world };
    })
    on_aggregate (EventHandler.start env messaging)
    update (λ s. record s { has_server = true })
    on_platform platform.listen

  -- `start`
  unfoldable pub start : Bool → Bool → Action (Process W) (Unit {0})
  start default_logger default_authorization = do
    update (λ s. record s { timer_runs = true })
    connect_platform default_logger default_authorization
    serve_requests
    update (λ s. record s { timer_runs = false })

  -- `stop`
  unfoldable pub stop : Action (Process W) (Unit {0})
  stop s =
      (do
        when s.has_handler (on_aggregate (EventHandler.stop env messaging))
        when s.has_messaging (on_platform platform.destroy_consumer)
        when s.has_messaging (on_platform platform.destroy_producer)
        when s.has_token_helper (on_platform platform.destroy_token_helper)
        when s.has_server (on_platform platform.close_server))
        s
