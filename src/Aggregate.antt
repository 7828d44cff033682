-- ===== src/Aggregate.antt =====
-- packages/domain-lib/src/aggregate.ts, the class `AccountLookupAggregate`.
pub mod Validate
pub mod Oracles
pub mod Admin
pub mod Registry
pub mod Queries
pub mod Clearance
pub mod Gate
pub mod Answer
pub mod Outcomes
pub mod Ownership
pub mod Foresight
pub mod Events
pub mod Relay
pub mod Handlers
pub mod HandleEvent
