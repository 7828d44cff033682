-- ===== src/System.antt =====
-- The parts put together: the aggregate of packages/domain-lib/src/aggregate.ts on the adapters of
-- packages/implementations-lib/src/oracles.
pub mod Builtin
pub mod Registration
pub mod Delivery
pub mod Listing
pub mod Searches
pub mod Start
pub mod Remote
pub mod Lookups
