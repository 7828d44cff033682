-- ===== src/Implementations/Builtin/Provider.antt =====
-- The adapter that the constructor of `MongoOracleProviderRepo` makes of an oracle: its methods
-- behind the interface of the domain. All adapters share the collection and the cache.
use account_lookup_bc.Prelude.{ℕ}
use account_lookup_bc.Types.{Oracle}
use account_lookup_bc.Services.{OracleAdapter}
use account_lookup_bc.Implementations.Store.{Store}
use account_lookup_bc.Implementations.Builtin.{
  get_participant_fsp_id, associate_participant, disassociate_participant, get_all_associations,
}
use account_lookup_bc.Implementations.Builtin.Search.{
  SearchStore, init, destroy, health_check, search_associations, get_search_keywords,
}

unfoldable pub builtin_provider :
    {W : Type 0} → Store W → SearchStore W → ℕ → Oracle → OracleAdapter W
builtin_provider st search secs oracle = record {
  oracle_id = oracle.id;
  oracle_type = "builtin";
  init = init search;
  destroy = destroy search;
  health_check = health_check search;
  get_participant_fsp_id = get_participant_fsp_id st secs;
  associate_participant = associate_participant st secs;
  disassociate_participant = disassociate_participant st secs;
  get_all_associations = get_all_associations st secs;
  search_associations = search_associations search;
  get_search_keywords = get_search_keywords search;
}
