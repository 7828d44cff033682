-- ===== src/Tests/Mocks.antt =====
-- The finder in memory with its predefined oracles, and the adapter with its associations.
use account_lookup_bc.Prelude.{[], ◌∷◌, some, none, ℕ, ◌≡◌, refl}
use account_lookup_bc.Effect.{ok, err, other}
use account_lookup_bc.Mocks.{
  mocked_oracle_adapters, remove_last, memory_oracle_finder, memory_oracle_provider_adapter,
  memory_create, memory_participant_info, memory_participants_info,
}
use account_lookup_bc.Tests.World.{builtin_oracle}

-- An id that no oracle has.
remove_unknown_run :
    memory_oracle_finder.remove_oracle "9" mocked_oracle_adapters
    ≡ (ok tt, remove_last mocked_oracle_adapters)
unfolding memory_oracle_finder
remove_unknown_run = refl

lookup_run :
    (memory_oracle_provider_adapter {W = ℕ} builtin_oracle).get_participant_fsp_id
      (some "bank")
      (some "party")
      none
      (some "USD")
      0
    ≡ (ok (some "fspId"), 0)
unfolding memory_oracle_provider_adapter
lookup_run = refl

error_run :
    (memory_oracle_provider_adapter {W = ℕ} builtin_oracle).get_participant_fsp_id
      (some "lender")
      (some "party3")
      (some "loan")
      none
      0
    ≡ (err (other "Error"), 0)
unfolding memory_oracle_provider_adapter
error_run = refl

-- An adapter type that no class has, and a participant that is not known.
create_run :
    memory_create {W = ℕ} (record builtin_oracle { oracle_type = "soap" })
    ≡ err (other "Oracle type not supported")
unfolding memory_create
create_run = refl

participant_run : memory_participant_info {W = ℕ} "fspId" 0 ≡ (ok none, 0)
unfolding memory_participant_info
participant_run = refl

participants_run : memory_participants_info {W = ℕ} ("fspId" ∷ []) 0 ≡ (ok (some []), 0)
unfolding memory_participants_info
participants_run = refl
