-- ===== src/System/Start.antt =====
-- The start of the aggregate with the factory of packages/implementations-lib/src/oracles: which
-- adapters it registers.
use account_lookup_bc.Prelude.{
  List, [], ◌∷◌, ◌++◌, ℕ, ◌==◌, ◌≡◌, ◌⊎◌, sym, subst, ap, ◌∙◌, arith, inl, inr, Bool-cases, eq_iff,
}
use mathlib.Core.List.{append-nil, append_assoc}
use account_lookup_bc.Effect.{ok, Result-cases}
use account_lookup_bc.Types.{Oracle}
use account_lookup_bc.Services.{OracleAdapter, Services}
use account_lookup_bc.Implementations.Store.{Store}
use account_lookup_bc.Implementations.Builtin.Search.{SearchStore}
use account_lookup_bc.Implementations.Builtin.Provider.{builtin_provider}
use account_lookup_bc.Implementations.Remote.{HttpClient, http_oracle_provider}
use account_lookup_bc.Implementations.Factory.{create}
use account_lookup_bc.Aggregate.Admin.{State, init_adapters, init}

module _ {W : Type 0} (env : Services W) (st : Store W) (search : SearchStore W) (secs : ℕ)
    (client : HttpClient W)
    (factory : (o : Oracle)
      → env.create o ≡ create (builtin_provider st search secs) client o) where
  -- The adapter that an oracle of each type has.
  abbrev pub IsProvider : Oracle → OracleAdapter W → Type 0
  IsProvider o a =
      ((o.oracle_type ≡ "builtin") × (a ≡ builtin_provider st search secs o))
      ⊎ ((o.oracle_type ≡ "remote-http") × (a ≡ http_oracle_provider client o))

  -- The adapters of a list of oracles, each initialised in the world that the one before has left.
  pub data AreStarted : List Oracle → W → List (OracleAdapter W) → W → Type 0 where
    done : (w : W) → AreStarted [] w [] w
    step :
        (o : Oracle) (os : List Oracle) (a : OracleAdapter W) (adapters : List (OracleAdapter W))
        (w w₁ w₂ : W)
        → IsProvider o a
        → a.init w ≡ (ok tt, w₁)
        → AreStarted os w₁ adapters w₂
        → AreStarted (o ∷ os) w (a ∷ adapters) w₂

  created-IsProvider : (o : Oracle) (a : OracleAdapter W) → env.create o ≡ ok a → IsProvider o a
  unfolding create
  created-IsProvider o a h = elim (Bool-cases (o.oracle_type == "builtin")) [
    | inl builtin ↦ inl (
      ground (arith, builtin, eq_iff o.oracle_type "builtin"),
      ground (arith, factory o, builtin, h),
    )
    | inr other ↦ elim (Bool-cases (o.oracle_type == "remote-http")) [
      | inl remote ↦ inr (
        ground (arith, remote, eq_iff o.oracle_type "remote-http"),
        ground (arith, factory o, other, remote, h),
      )
      | inr neither ↦ ground (arith, factory o, other, neither, h)
    ]
  ]

  init_adapters-AreStarted :
      (oracles : List Oracle) (s s' : State W)
      → init_adapters env oracles s ≡ (ok tt, s')
      → (adapters : List (OracleAdapter W)) × AreStarted oracles s.world adapters s'.world
        × (s'.adapters ≡ s.adapters ++ adapters)
  unfolding init_adapters
  init_adapters-AreStarted [] s s' h =
      let same : s ≡ s' = ground (arith, h) in
      (
        [],
        subst (λ x. AreStarted [] s.world [] x.world) same (done s.world),
        ap (λ x. x.adapters) (sym same) ∙ sym (append-nil s.adapters),
      )
  init_adapters-AreStarted (o ∷ rest) s s' h = elim (Result-cases (env.create o)) [
    | inr (e, refused) ↦ ground (arith, refused, h)
    | inl (a, created) ↦ elim (Result-cases (a.init s.world).0) [
      | inr (e, failed) ↦ ground (arith, created, failed, h)
      | inl (_, started) ↦
          let w₁ = (a.init s.world).1 in
          let (adapters, run, registered) =
            init_adapters-AreStarted rest (record { adapters = s.adapters ++ a ∷ []; world = w₁ })
              s' (ground (arith, created, started, h)) in
          (
            a ∷ adapters,
            step o rest a adapters s.world w₁ s'.world (created-IsProvider o a created)
                (ground (arith, started)) run,
            registered ∙ append_assoc s.adapters (a ∷ []) adapters,
          )
    ]
  ]

  -- Where the aggregate has the factory of this library, a start that resolves registers, behind the
  -- adapters that are there, one adapter for each oracle that the finder has listed in this start,
  -- in that order: the built-in one for the type "builtin" and the HTTP adapter for "remote-http",
  -- for no oracle has another type; and their `init`s have resolved, one after the other.
  pub init-AreStarted :
      (s s' : State W)
      → init env s ≡ (ok tt, s')
      → (oracles : List Oracle) × (adapters : List (OracleAdapter W)) × (w₁ : W) × (w₂ : W)
        × (env.finder.init s.world ≡ (ok tt, w₁))
        × (env.finder.get_all_oracles w₁ ≡ (ok oracles, w₂))
        × AreStarted oracles w₂ adapters s'.world
        × (s'.adapters ≡ s.adapters ++ adapters)
  unfolding init
  init-AreStarted s s' h = elim (Result-cases (env.finder.init s.world).0) [
    | inr (e, failed) ↦ ground (arith, failed, h)
    | inl (_, started) ↦
        let w₁ = (env.finder.init s.world).1 in
        let out = env.finder.get_all_oracles w₁ in
        elim (Result-cases out.0) [
          | inr (e, failed) ↦ ground (arith, started, failed, h)
          | inl (oracles, got) ↦
              let (adapters, run, registered) =
                init_adapters-AreStarted oracles (record s { world = out.1 }) s'
                  (ground (arith, started, got, h)) in
              (
                oracles,
                adapters,
                w₁,
                out.1,
                ground (arith, started),
                ground (arith, got),
                run,
                registered,
              )
        ]
  ]
