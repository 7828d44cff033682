-- ===== src/Implementations.antt =====
-- packages/implementations-lib: the oracles and the registry of oracles.
pub mod Store
pub mod Builtin
pub mod Finder
pub mod Remote
pub mod Factory
