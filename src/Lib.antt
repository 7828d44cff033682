-- ===== src/Lib.antt =====
-- Account lookup: the service that answers which financial service provider (FSP) holds an
-- account. Requests arrive as domain events; the aggregate checks the participants, chooses the
-- oracle for the party type and the currency, asks it or has it changed, and answers with
-- another domain event.
--
-- Which file models which part:
--
-- - Effect, Types, Messages, Services, Privileges: the error classes, the data of
--   packages/public-types-lib/src, the event payloads, the privileges of
--   packages/domain-lib/src/privileges.ts, and the interfaces of
--   packages/domain-lib/src/interfaces/infrastructure.ts. An asynchronous method is a function
--   of the state of the world that resolves or rejects and hands the state back in either case.
--
-- - Aggregate and below: the class AccountLookupAggregate of
--   packages/domain-lib/src/aggregate.ts. Aggregate/Validate, Aggregate/Oracles,
--   Aggregate/Handlers and Aggregate/HandleEvent hold the handlers, under the names of the
--   methods, and Aggregate/Admin the operations on oracles and the queries; the other files are
--   proofs. `find_adapter`, `unless` and `or_return` are pieces of the methods' bodies.
--
-- - Implementations and below: packages/implementations-lib/src, and Implementations/Store
--   states the collection and the cache of associations as parameters with their documented
--   behaviour; Implementations/Builtin is the class MongoOracleProviderRepo on top of them, with
--   its search in Implementations/Builtin/Search and its adapter record in
--   Implementations/Builtin/Provider; Implementations/Builtin/Concurrent cuts its methods at
--   each `await`, into calls that go on in any order.
--
-- - Implementations/Finder: the class MongoOracleFinderRepo, over the collection of oracles;
--   Implementations/Remote: the class HttpOracleProvider, over an HTTP client;
--   Implementations/Factory: OracleAdapterFactory.create, and ParticipantAdapter.
--
-- - HttpOracle and below: the class RemoteOracle of
--   packages/http-oracle-svc/src/remote_oracle.ts, an oracle with a map in memory and a file;
--   HttpOracle/Server is its routes,
--   packages/http-oracle-svc/src/server/remote_oracle_routes.ts, HttpOracle/Mounted the table of
--   them in the HTTP server, and HttpOracle/Directory the specification that the map is compared
--   with; HttpOracle/Process is the start and stop of packages/http-oracle-svc/src/service.ts,
--   and HttpOracle/Overlap saves that are in flight together.
--
-- - Service and below: packages/account-lookup-svc/src. Service/EventHandler is the class
--   AccountLookupEventHandler, which hands each batch of messages to the aggregate and sends its
--   events, and Service/Routes the handlers of the HTTP routes, as one function on a type of
--   requests; Service/Authentication is the middleware before them, Service/Startup the order of
--   packages/account-lookup-svc/src/service.ts and its end on a signal, Service/Config its
--   constants, and Service/Server its HTTP server with the route tables.
--
-- - Client: the class AccountLookupHttpClient of
--   packages/client-lib/src/account_lookup_http_client.ts.
--
-- - Mocks and below: the finder, the adapter, the factory and the participant service in
--   memory, packages/shared-mocks-lib/src.
--
-- - System and below: the parts put together, with the HTTP connections between them as
--   parameters: the aggregate on built-in adapters, the HTTP adapter on the server of the HTTP
--   oracle, the client on the HTTP server of the service. Express is what both HTTP servers
--   leave to the library of that name, the reading of a route table, and Node what both services
--   use of their process.
--
-- - Tests and below: concrete services and a concrete store, and the theorems at concrete
--   inputs.
--
-- Parameters: the participant service, the finder, the factory and the adapters are arguments of
-- the aggregate's model, so its theorems hold for every behaviour of theirs, failures included.
-- The collections, the cache and the file are arguments of the oracles' models, with laws on the
-- calls that resolve; a cache entry may expire at any call. Where several documents match,
-- `findOne` is taken to give the one inserted first; the pages of a search are in no promised
-- order.
--
-- No fuel is used: every loop is a recursion on a list. Not modelled: the difference between
-- null and undefined, which both are the absent value here though the template of the built-in
-- oracle's cache key prints them differently, so that what is proved of the cache is of parts
-- that are texts or null; saves of the HTTP oracle that overlap, outside HttpOracle/Overlap; the
-- rounding of integers of 2^53 and more, logging, metrics and tracing, the texts of errors, and
-- the stand-ins of packages/shared-mocks-lib/src for messages and security, which do nothing or
-- answer a constant.
mod Prelude
pub mod Effect
pub mod Express
pub mod Node
pub mod Types
pub mod Messages
pub mod Services
pub mod Privileges
pub mod Aggregate
pub mod Implementations
pub mod Service
pub mod HttpOracle
pub mod Client
pub mod Mocks
pub mod System
pub mod Tests
