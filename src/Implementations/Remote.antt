-- ===== src/Implementations/Remote.antt =====
-- The adapter of remote oracles: the class `HttpOracleProvider` of
-- packages/implementations-lib/src/oracles/adapters/remote/http_oracleprovider.ts, as it is after
-- `init`. A method that throws before it returns a promise counts as one that rejects.
use account_lookup_bc.Prelude.{
  String, none, some, Bool, false, List, ℕ, eqb, is_truthy, if◌then◌else◌, shown, ◌<>◌,
}
use account_lookup_bc.Effect.{
  Result, ok, err, Action, pure, throw, or_throw, other, unable_to_get_participant,
  unable_to_associate_participant, unable_to_disassociate_participant, unable_to_get_association,
  unable_to_init_remote_oracle_provider,
}
use account_lookup_bc.Types.{Nullable, Oracle, Association}
use account_lookup_bc.Services.{OracleAdapter}

-- The HTTP client with its base URL, on the calls that the adapter makes: the status of a response,
-- the `fspId` of its data, and its data as a list of associations. A call rejects where axios does.
-- `fspId` is null where the data lack it.
pub record HttpClient (W : Type 0) : Type 0 where
  pub get_status : Nullable → String → Action W ℕ
  pub get_fsp_id : Nullable → String → Action W Nullable
  pub get_associations : Nullable → String → Action W (List Association)
  pub post_fsp_id : Nullable → String → Nullable → Action W (Unit {0})
  pub delete_fsp_id : Nullable → String → Nullable → Action W (Unit {0})

abbrev added : String → Nullable → String
added name none = ""
added name (some v) = if is_truthy (some v) then name <> v else ""

-- The URL that three of the methods build.
unfoldable pub participant_url : Nullable → Nullable → Nullable → Nullable → String
participant_url party_type party_id party_sub_type currency =
    "/participants/"
    <> shown party_type
    <> "/"
    <> shown party_id
    <> added "?partySubType=/" party_sub_type
    <> added "?currency=" currency

-- `healthCheck`: a failed call counts as an unhealthy oracle
abbrev pub is_healthy : Result ℕ → Bool
is_healthy (ok status) = eqb status 200
is_healthy (err _) = false

module _ {W : Type 0} (client : HttpClient W) where
  -- `init`, which makes the client
  unfoldable pub init_provider : Oracle → Action W (Unit {0})
  init_provider oracle =
      if is_truthy oracle.endpoint then pure tt else throw unable_to_init_remote_oracle_provider

  unfoldable pub check_provider : Oracle → Action W Bool
  check_provider oracle w =
      let (r, w') = client.get_status oracle.endpoint "/health" w in (ok (is_healthy r), w')

  -- The adapter that the constructor makes
  unfoldable pub http_oracle_provider : Oracle → OracleAdapter W
  http_oracle_provider oracle = record {
    oracle_id = oracle.id;
    oracle_type = "remote-http";
    init = init_provider oracle;
    destroy = pure tt;
    health_check = check_provider oracle;
    get_participant_fsp_id = λ party_type party_id party_sub_type currency.
        or_throw
          (client.get_fsp_id oracle.endpoint
            (participant_url party_type party_id party_sub_type currency))
          unable_to_get_participant;
    associate_participant = λ fsp_id party_type party_id party_sub_type currency.
        or_throw
          (client.post_fsp_id oracle.endpoint
            (participant_url party_type party_id party_sub_type currency) fsp_id)
          unable_to_associate_participant;
    disassociate_participant = λ fsp_id party_type party_id party_sub_type currency.
        or_throw
          (client.delete_fsp_id oracle.endpoint
            (participant_url party_type party_id party_sub_type currency) fsp_id)
          unable_to_disassociate_participant;
    get_all_associations =
        or_throw (client.get_associations oracle.endpoint "/participants/associations")
          unable_to_get_association;
    search_associations = λ _ _ _ _ _ _ _. throw (other "Method not implemented.");
    get_search_keywords = throw (other "Method not implemented.");
  }
