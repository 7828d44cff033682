-- ===== src/Service.antt =====
-- packages/account-lookup-svc/src: the handler of message batches and the HTTP routes.
pub mod EventHandler
pub mod Routes
pub mod Authentication
pub mod Config
pub mod Startup
pub mod Server
