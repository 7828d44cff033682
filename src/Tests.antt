-- ===== src/Tests.antt =====
-- Runs of the models on concrete services and a concrete store, and the theorems at such inputs.
pub mod World
mod Handlers
mod Admin
pub mod Json
pub mod Servers
mod Builtin
mod Concurrent
pub mod Search
mod System
mod Remote
pub mod Lookups
mod Server
mod Overlap
mod Start
mod Delivery
mod Mocks
pub mod Marks
pub mod JsonList
mod HttpOracle
mod Factory
mod Finder
mod Service
