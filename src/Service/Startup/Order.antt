-- ===== src/Service/Startup/Order.antt =====
-- In which order packages/account-lookup-svc/src/service.ts brings the service up, and what a start
-- that fails leaves behind.
use account_lookup_bc.Prelude.{Bool, true, false, List, [], map, ◌≡◌, ap, ◌∙◌, ◌⊎◌, arith, inl, inr}
use account_lookup_bc.Effect.{Error, Result, ok, err, Result-cases}
use account_lookup_bc.Types.{Oracle}
use account_lookup_bc.Services.{OracleAdapter, Services}
use account_lookup_bc.Aggregate.Admin.{State}
use account_lookup_bc.Aggregate.Admin as Admin
use account_lookup_bc.Aggregate.Registry.{init_resolved}
use account_lookup_bc.Service.EventHandler.{Messaging}
use account_lookup_bc.Service.EventHandler as EventHandler
use account_lookup_bc.Service.Startup.{Platform, Process, connect_platform, serve_requests, start}

module _ {W : Type 0} (env : Services W) (messaging : Messaging W) where
  -- The event handler starts only after the aggregate has been initialised, and keeps its adapters.
  handler_started :
      (s s' : State W)
      → EventHandler.start env messaging s ≡ (ok tt, s')
      → (s₁ : State W) × (Admin.init env s ≡ (ok tt, s₁)) × (s'.adapters ≡ s₁.adapters)
  unfolding EventHandler.start
  handler_started s s' h =
      let out = Admin.init env s in
      elim (Result-cases out.0) [
        | inl (_, done) ↦ elim (Result-cases (messaging.connect_producer out.1.world).0) [
          | inl (_, produces) ↦
              let w₁ = (messaging.connect_producer out.1.world).1 in
              elim (Result-cases (messaging.connect_consumer w₁).0) [
                | inl (_, consumes) ↦
                    let w₂ = (messaging.connect_consumer w₁).1 in
                    elim (Result-cases (messaging.start_and_wait_for_rebalance w₂).0) [
                      | inl (_, runs) ↦ (
                        out.1,
                        ground (arith, done),
                        ground (arith, done, produces, consumes, runs),
                      )
                      | inr (e, failed) ↦ ground (arith, done, produces, consumes, failed)
                    ]
                | inr (e, failed) ↦ ground (arith, done, produces, failed)
              ]
          | inr (e, failed) ↦ ground (arith, done, failed)
        ]
        | inr (e, failed) ↦ ground (arith, failed)
      ]

  -- What the first part of a start leaves as it was, however it ends.
  abbrev Keeps : Process W → Process W → Type 0
  Keeps s s' = (s'.has_server ≡ s.has_server) × (s'.timer_runs ≡ s.timer_runs)

  module _ (platform : Platform W) where
    connect_platform-Keeps :
        (default_logger default_authorization : Bool) (s : Process W)
        → Keeps s (connect_platform env messaging platform default_logger default_authorization s).1
    unfolding connect_platform
    connect_platform-Keeps true true s = (ground arith, ground arith)
    connect_platform-Keeps true false s = (ground arith, ground arith)
    connect_platform-Keeps false true s = (ground arith, ground arith)
    connect_platform-Keeps false false s = (ground arith, ground arith)

    -- The aggregate that a start makes.
    abbrev fresh : Process W → State W
    fresh s = record { adapters = []; world = s.aggregate.world }

    serve_failed :
        (s : Process W) (e : Error)
        → (EventHandler.start env messaging (fresh s)).0 ≡ err e
        → ((serve_requests env messaging platform s).0 ≡ err e)
          × ((serve_requests env messaging platform s).1.has_server ≡ s.has_server)
    unfolding serve_requests
    serve_failed s e failed = (ground (arith, failed), ground (arith, failed))

    -- Where the event handler has started, only `listen` can reject.
    listen_failed :
        (s : Process W) (a : State W) (e : Error)
        → EventHandler.start env messaging (fresh s) ≡ (ok tt, a)
        → (serve_requests env messaging platform s).0 ≡ err e
        → (platform.listen a.world).0 ≡ err e
    unfolding serve_requests
    listen_failed s a e started failed = elim (Result-cases (platform.listen a.world).0) [
      | inl (_, fine) ↦ ground (arith, started, failed, fine)
      | inr (x, refused) ↦ ground (arith, started, failed, refused)
    ]

    serve_keeps :
        (s : Process W) → (serve_requests env messaging platform s).1.timer_runs ≡ s.timer_runs
    unfolding serve_requests
    serve_keeps s = ground arith

    serve_resolved :
        (s s' : Process W)
        → serve_requests env messaging platform s ≡ (ok tt, s')
        → (a : State W) × (EventHandler.start env messaging (fresh s) ≡ (ok tt, a))
          × (s'.has_server ≡ true)
          × (s'.aggregate.adapters ≡ a.adapters)
    unfolding serve_requests
    serve_resolved s s' h = elim (Result-cases (EventHandler.start env messaging (fresh s)).0) [
      | inl (_, started) ↦ (
        (EventHandler.start env messaging (fresh s)).1,
        ground (arith, started),
        ground (arith, started),
        ground (arith, started),
      )
      | inr (e, failed) ↦ ground (arith, failed)
    ]

    module _ (default_logger default_authorization : Bool) (s : Process W) where
      -- The state after the first part, and the outcome of the whole start.
      abbrev connected : Result (Unit {0}) × Process W
      connected =
          connect_platform env messaging platform default_logger default_authorization
            (record s { timer_runs = true })

      abbrev outcome : Result (Unit {0}) × Process W
      outcome = start env messaging platform default_logger default_authorization s

      start_unconnected : (e : Error) → connected.0 ≡ err e → outcome ≡ (err e, connected.1)
      unfolding start
      start_unconnected e failed = ground (arith, failed)

      start_unserved :
          (e : Error)
          → connected.0 ≡ ok tt
          → (serve_requests env messaging platform connected.1).0 ≡ err e
          → outcome ≡ (err e, (serve_requests env messaging platform connected.1).1)
      unfolding start
      start_unserved e done failed = ground (arith, done, failed)

      start_served :
          connected.0 ≡ ok tt
          → (serve_requests env messaging platform connected.1).0 ≡ ok tt
          → outcome ≡ (
            ok tt,
            record (serve_requests env messaging platform connected.1).1 { timer_runs = false },
          )
      unfolding start
      start_served done served = ground (arith, done, served)

      -- The first part of this start has resolved, and then its event handler has started, on an
      -- aggregate without adapters; it is the HTTP server's `listen` that has rejected.
      abbrev pub IsUnheard : Error → Type 0
      IsUnheard e =
          (v : Process W) × (a : State W) × (connected ≡ (ok tt, v))
          × (EventHandler.start env messaging (record { adapters = []; world = v.aggregate.world })
              ≡ (ok tt, a))
          × ((platform.listen a.world).0 ≡ err e)

      -- A start that rejects leaves the startup timer running; and it has set up no HTTP server,
      -- unless its event handler has started, on a new aggregate, and the error is that of the
      -- server's `listen`.
      pub start_failed :
          (e : Error) (s' : Process W)
          → start env messaging platform default_logger default_authorization s ≡ (err e, s')
          → (s'.timer_runs ≡ true) × ((s'.has_server ≡ s.has_server) ⊎ IsUnheard e)
      start_failed e s' h =
          let (server, timer) =
            connect_platform-Keeps default_logger default_authorization
              (record s { timer_runs = true }) in
          elim (Result-cases connected.0) [
            | inr (x, failed) ↦
                let is = start_unconnected x failed in
                (ground (arith, is, h, timer), inl (ground (arith, is, h, server)))
            | inl (_, done) ↦
                let served = serve_requests env messaging platform connected.1 in
                elim (Result-cases served.0) [
                  | inl (_, fine) ↦ ground (arith, start_served done fine, h)
                  | inr (x, failed) ↦
                      let is = start_unserved x done failed in
                      let kept = serve_keeps connected.1 in
                      (
                        ground (arith, is, h, timer, kept),
                        elim (Result-cases
                            (EventHandler.start env messaging (fresh connected.1)).0) [
                              | inl (_, started) ↦
                                  let a =
                                    (EventHandler.start env messaging (fresh connected.1)).1 in
                                  let same : x ≡ e = ground (arith, is, h) in
                                  inr (
                                    connected.1,
                                    a,
                                    ground (arith, done),
                                    ground (arith, started),
                                    listen_failed connected.1 a x (ground (arith, started)) failed
                                        ∙ ap err same,
                                  )
                              | inr (y, unstarted) ↦
                                  let (_, same) = serve_failed connected.1 y unstarted in
                                  inl (ground (arith, is, h, same, server))
                            ],
                      )
                ]
          ]

      -- Where the factory gives every adapter the id of its oracle, a start that resolves has
      -- stopped the startup timer and set up the HTTP server, and its aggregate has one adapter for
      -- each oracle that the finder has listed in this start, in that order: when it was asked
      -- after its `init`, in the world that the first part of the start has left.
      pub start_resolved :
          ((o : Oracle) (a : OracleAdapter W) → env.create o ≡ ok a → a.oracle_id ≡ o.id)
          → (s' : Process W)
          → start env messaging platform default_logger default_authorization s ≡ (ok tt, s')
          → (oracles : List Oracle) × (v : Process W) × (w₁ : W) × (w₂ : W) × (connect_platform env
                messaging platform default_logger default_authorization
                (record s { timer_runs = true })
              ≡ (ok tt, v))
            × (env.finder.init v.aggregate.world ≡ (ok tt, w₁))
            × (env.finder.get_all_oracles w₁ ≡ (ok oracles, w₂))
            × (map (λ a. a.oracle_id) s'.aggregate.adapters ≡ map (λ o. o.id) oracles)
            × (s'.timer_runs ≡ false)
            × (s'.has_server ≡ true)
      start_resolved create_id s' h = elim (Result-cases connected.0) [
        | inr (x, failed) ↦ ground (arith, start_unconnected x failed, h)
        | inl (_, done) ↦
            let served = serve_requests env messaging platform connected.1 in
            elim (Result-cases served.0) [
              | inr (x, failed) ↦ ground (arith, start_unserved x done failed, h)
              | inl (_, fine) ↦
                  let is = start_served done fine in
                  let (a, started, server, same) =
                    serve_resolved connected.1 served.1 (ground (arith, fine)) in
                  let (s₁, initialised, kept) = handler_started (fresh connected.1) a started in
                  let (oracles, w₁, w₂, prepared, listed, ids) =
                    init_resolved env create_id (fresh connected.1) s₁ initialised in
                  let adapters : s'.aggregate.adapters ≡ s₁.adapters =
                    ground (arith, is, h, same, kept) in
                  (
                    oracles,
                    connected.1,
                    w₁,
                    w₂,
                    ground (arith, done),
                    prepared,
                    listed,
                    ap (map (λ x. x.oracle_id)) adapters ∙ ids,
                    ground (arith, is, h),
                    ground (arith, is, h, server),
                  )
            ]
      ]
