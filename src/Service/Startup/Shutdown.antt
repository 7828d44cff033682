-- ===== src/Service/Startup/Shutdown.antt =====
-- What a signal does to the process of the service: `_handle_int_and_term_signals` of
-- packages/account-lookup-svc/src/service.ts, and what a clean end of the process says.
use account_lookup_bc.Prelude.{
  Bool, true, false, if◌then◌else◌, ◌≡◌, ap, ◌∙◌, arith, inl, inr, Bool-cases,
}
use account_lookup_bc.Effect.{ok, Action, ◌>>◌, Result-cases}
use account_lookup_bc.Node.{Ending, exited, aborted, ending_of}
use account_lookup_bc.Services.{Services}
use account_lookup_bc.Aggregate.Admin.{State}
use account_lookup_bc.Service.EventHandler.{Messaging}
use account_lookup_bc.Service.EventHandler as EventHandler
use account_lookup_bc.Service.Startup.{
  Platform, Process, on_platform, on_aggregate, when, connect_platform, serve_requests, start, stop,
}

then_resolved :
    {S : Type 0} (m k : Action S (Unit {0})) (s s' : S)
    → (m >> k) s ≡ (ok tt, s')
    → (s₁ : S) × (m s ≡ (ok tt, s₁)) × (k s₁ ≡ (ok tt, s'))
then_resolved m k s s' h = elim (Result-cases (m s).0) [
  | inl (_, done) ↦ ((m s).1, ground (arith, done), ground (arith, done, h))
  | inr (e, failed) ↦ ground (arith, failed, h)
]

module _ {W : Type 0} where
  -- A call of the platform, made because its field is set.
  called :
      (test : Bool) (m : Action W (Unit {0})) (s s' : Process W)
      → test ≡ true
      → when test (on_platform m) s ≡ (ok tt, s')
      → m s.aggregate.world ≡ (ok tt, s'.aggregate.world)
  called test m s s' set h = elim (Result-cases (m s.aggregate.world).0) [
    | inl (_, done) ↦ ground (arith, done, set, h)
    | inr (e, failed) ↦ ground (arith, failed, set, h)
  ]

  torn_down :
      (test : Bool) (m : Action (State W) (Unit {0})) (s s' : Process W)
      → test ≡ true
      → when test (on_aggregate m) s ≡ (ok tt, s')
      → m s.aggregate ≡ (ok tt, s'.aggregate)
  torn_down test m s s' set h = elim (Result-cases (m s.aggregate).0) [
    | inl (_, done) ↦ ground (arith, done, set, h)
    | inr (e, failed) ↦ ground (arith, failed, set, h)
  ]

module _ {W : Type 0} (env : Services W) (messaging : Messaging W) (platform : Platform W) where
  -- `in_time` says that `stop` settles within the five seconds of the timer.
  unfoldable pub on_signal : Bool → Process W → Ending
  on_signal in_time s = if in_time then ending_of (stop env messaging platform s).0 else aborted

  -- All parts of a process are set.
  pub record IsUp (s : Process W) : Type 0 where
    pub handler : s.has_handler ≡ true
    pub queues : s.has_messaging ≡ true
    pub token_helper : s.has_token_helper ≡ true
    pub server : s.has_server ≡ true

  -- The event handler, the consumer, the producer, the token helper and the server have been torn
  -- down, each in the world that the one before has left.
  abbrev pub IsTornDown : Process W → Process W → Type 0
  IsTornDown s s' =
      (a : State W) × (w₁ : W) × (w₂ : W) × (w₃ : W) × (EventHandler.stop env messaging s.aggregate
        ≡ (ok tt, a))
      × (platform.destroy_consumer a.world ≡ (ok tt, w₁))
      × (platform.destroy_producer w₁ ≡ (ok tt, w₂))
      × (platform.destroy_token_helper w₂ ≡ (ok tt, w₃))
      × (platform.close_server w₃ ≡ (ok tt, s'.aggregate.world))

  stop_resolved :
      (s s' : Process W) → IsUp s → stop env messaging platform s ≡ (ok tt, s') → IsTornDown s s'
  unfolding stop
  stop_resolved s s' up h =
      let no_handler = when s.has_handler (on_aggregate (EventHandler.stop env messaging)) in
      let no_consumer = when s.has_messaging (on_platform platform.destroy_consumer) in
      let no_producer = when s.has_messaging (on_platform platform.destroy_producer) in
      let no_helper = when s.has_token_helper (on_platform platform.destroy_token_helper) in
      let no_server = when s.has_server (on_platform platform.close_server) in
      let (s₁, handler, h₁) =
        then_resolved no_handler (no_consumer >> (no_producer >> (no_helper >> no_server))) s s'
          h in
      let (s₂, consumer, h₂) =
        then_resolved no_consumer (no_producer >> (no_helper >> no_server)) s₁ s' h₁ in
      let (s₃, producer, h₃) = then_resolved no_producer (no_helper >> no_server) s₂ s' h₂ in
      let (s₄, helper, server) = then_resolved no_helper no_server s₃ s' h₃ in
      (
        s₁.aggregate,
        s₂.aggregate.world,
        s₃.aggregate.world,
        s₄.aggregate.world,
        torn_down s.has_handler (EventHandler.stop env messaging) s s₁ up.handler handler,
        called s.has_messaging platform.destroy_consumer s₁ s₂ up.queues consumer,
        called s.has_messaging platform.destroy_producer s₂ s₃ up.queues producer,
        called s.has_token_helper platform.destroy_token_helper s₃ s₄ up.token_helper helper,
        called s.has_server platform.close_server s₄ s' up.server server,
      )

  -- A process whose parts are all set ends with the code 0 on a signal only if every part has been
  -- torn down within the time, in the order of `stop`.
  pub on_signal-IsTornDown :
      (in_time : Bool) (s : Process W)
      → IsUp s
      → on_signal in_time s ≡ exited 0
      → (in_time ≡ true) × (s' : Process W) × IsTornDown s s'
  unfolding on_signal
  on_signal-IsTornDown in_time s up h = elim (Bool-cases in_time) [
    | inr late ↦ ground (arith, late, h)
    | inl early ↦ elim (Result-cases (stop env messaging platform s).0) [
      | inl (_, done) ↦ (
        early,
        (stop env messaging platform s).1,
        stop_resolved s (stop env messaging platform s).1 up (ground (arith, done)),
      )
      | inr (e, failed) ↦ ground (arith, early, failed, h)
    ]
  ]

  connected :
      (default_logger default_authorization : Bool) (s s' : Process W)
      → connect_platform env messaging platform default_logger default_authorization s ≡ (ok tt, s')
      → (s'.has_messaging ≡ true) × (s'.has_token_helper ≡ true)
  unfolding connect_platform
  connected true true s s' h = (ground (arith, h), ground (arith, h))
  connected true false s s' h = (ground (arith, h), ground (arith, h))
  connected false true s s' h = (ground (arith, h), ground (arith, h))
  connected false false s s' h = (ground (arith, h), ground (arith, h))

  serving :
      (s s' : Process W)
      → serve_requests env messaging platform s ≡ (ok tt, s')
      → (s'.has_handler ≡ true)
        × (s'.has_server ≡ true)
        × (s'.has_messaging ≡ s.has_messaging)
        × (s'.has_token_helper ≡ s.has_token_helper)
  unfolding serve_requests
  serving s s' h = (ground (arith, h), ground (arith, h), ground (arith, h), ground (arith, h))

  -- A start that resolves has set all parts.
  pub start-IsUp :
      (default_logger default_authorization : Bool) (s s' : Process W)
      → start env messaging platform default_logger default_authorization s ≡ (ok tt, s')
      → IsUp s'
  unfolding start
  start-IsUp default_logger default_authorization s s' h =
      let running : Process W = record s { timer_runs = true } in
      let first =
        connect_platform env messaging platform default_logger default_authorization running in
      elim (Result-cases first.0) [
        | inr (e, failed) ↦ ground (arith, failed, h)
        | inl (_, done) ↦
            let last = serve_requests env messaging platform first.1 in
            elim (Result-cases last.0) [
              | inr (e, failed) ↦ ground (arith, done, failed, h)
              | inl (_, fine) ↦
                  let (queues, helper) =
                    connected default_logger default_authorization running first.1
                      (ground (arith, done)) in
                  let (handler, server, queues', helper') =
                    serving first.1 last.1 (ground (arith, fine)) in
                  let is : s' ≡ record last.1 { timer_runs = false } =
                    ground (arith, done, fine, h) in
                  record {
                    handler = ap (λ x. x.has_handler) is ∙ handler;
                    queues = ap (λ x. x.has_messaging) is ∙ queues' ∙ queues;
                    token_helper = ap (λ x. x.has_token_helper) is ∙ helper' ∙ helper;
                    server = ap (λ x. x.has_server) is ∙ server;
                  }
            ]
      ]
