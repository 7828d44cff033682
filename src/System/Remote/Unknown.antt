-- ===== src/System/Remote/Unknown.antt =====
-- What the HTTP adapter of packages/implementations-lib/src/oracles/adapters/remote makes of the replies
-- 404 of the server of packages/http-oracle-svc.
use account_lookup_bc.Prelude.{String, some, ◌≡◌, refl, sym, subst, ap, arith}
use account_lookup_bc.Effect.{err, unable_to_get_association}
use account_lookup_bc.Types.{Nullable, Oracle}
use account_lookup_bc.Services.{Services}
use account_lookup_bc.HttpOracle.{Files}
use account_lookup_bc.HttpOracle.Server.{status_of}
use account_lookup_bc.HttpOracle.Mounted.{no_associations}
use account_lookup_bc.Implementations.Remote.{HttpClient, http_oracle_provider}
use account_lookup_bc.System.Remote.{associations_url, TransportLaws}

module _ {W V : Type 0} (fs : Files W) (client : HttpClient V) (t i : String) (c : Nullable) where
  module _ (laws : TransportLaws fs client t i c) (o : Oracle)
      (given : o.endpoint ≡ some (laws.endpoint)) where
    open laws use {endpoint, oracle_of, same, compares, valid, missing_law, list_law}

    -- The HTTP adapter never lists the associations of this oracle: it asks for them under a URL
    -- that the oracle has no route for.
    pub associations_unlisted :
        (v : V)
        → ((http_oracle_provider client o).get_all_associations v).0 ≡ err unable_to_get_association
    unfolding http_oracle_provider
    associations_unlisted v =
        let (e, rejects) = list_law v (
          ap (λ x. status_of x.0)
            (no_associations valid fs same compares associations_url (oracle_of v) refl)) in
        let failing : (client.get_associations o.endpoint "/participants/associations" v).0
            ≡ err e =
          subst (λ x. (client.get_associations x "/participants/associations" v).0 ≡ err e)
            (sym given) rejects in
        ground (arith, failing)
