-- ===== src/Tests/Factory.antt =====
-- The factory with the concrete built-in adapter and an HTTP client that never answers.
use account_lookup_bc.Prelude.{some, none, [], ◌∷◌, ℕ, ◌≡◌, refl}
use account_lookup_bc.Effect.{ok, other, throw}
use account_lookup_bc.Types.{Oracle}
use account_lookup_bc.Implementations.Factory.{get_participants_info}
use account_lookup_bc.Implementations.Remote.{HttpClient}
use account_lookup_bc.Tests.World.{builtin_oracle}

abbrev pub silent : HttpClient ℕ
silent = record {
  get_status = λ _ _. throw (other "timeout");
  get_fsp_id = λ _ _. throw (other "timeout");
  get_associations = λ _ _. throw (other "timeout");
  post_fsp_id = λ _ _ _. throw (other "timeout");
  delete_fsp_id = λ _ _ _. throw (other "timeout");
}

abbrev pub remote_oracle : Oracle
remote_oracle = record builtin_oracle {
  oracle_type = "remote-http";
  endpoint = some "http://localhost:3031";
}

-- A failed call for several participants gives null.
participants_run :
    get_participants_info {W = ℕ} (λ _. throw (other "timeout")) ("a" ∷ "b" ∷ []) 0 ≡ (ok none, 0)
unfolding get_participants_info
participants_run = refl
