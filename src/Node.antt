-- ===== src/Node.antt =====
-- What packages/account-lookup-svc/src/service.ts and packages/http-oracle-svc/src/service.ts use of
-- their process: how they read its environment, and how it ends.
use account_lookup_bc.Prelude.{
  String, Option, none, some, Bool, false, ◌==◌, if◌then◌else◌, alike, ℕ, zero, ℤ, pos, Number,
  whole, not_a_number, parse_int,
}
use account_lookup_bc.Effect.{Result, ok, err}

-- `process.env`
abbrev pub Environment : Type 0
Environment = String → Option String

module _ (env : Environment) where
  -- `process.env[name] || value`
  abbrev pub text_or : String → String → String
  text_or name value = elim (env name) [ none ↦ value | some t ↦ if t == "" then value else t ]

  -- `process.env[name] ?? value`
  abbrev pub given_or : String → String → String
  given_or name value = elim (env name) [ none ↦ value | some t ↦ t ]

  abbrev nonzero_or : ℤ → Number → ℤ
  nonzero_or value not_a_number = value
  nonzero_or value (whole (pos zero)) = value
  nonzero_or value (whole n) = n

  -- `(process.env[name] && parseInt(process.env[name])) || value`
  unfoldable pub number_or : String → ℤ → ℤ
  unfolding parse_int
  number_or name value = elim (env name) [
    | none ↦ value
    | some t ↦ if t == "" then value else nonzero_or value (parse_int t)
  ]

  -- `process.env[name] && process.env[name].toUpperCase() === "TRUE" || false`
  abbrev pub flag : String → Bool
  flag name = elim (env name) [ none ↦ false | some t ↦ alike t "TRUE" ]

-- How the process ends: with a code, or by `process.abort()`.
pub data Ending : Type 0 where
  exited : ℕ → Ending
  aborted : Ending

-- A rejection that nothing handles goes to the handler of `uncaughtException`.
abbrev pub ending_of : Result (Unit {0}) → Ending
ending_of (ok _) = exited 0
ending_of (err _) = exited 999
