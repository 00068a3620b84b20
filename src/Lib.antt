-- ===== src/Lib.antt =====
-- The vinyl store API: users, records, inventory and orders behind an HTTP server, with a
-- document database. The parts of the program and the files that model them:
--
-- * models/*.go, the documents and their constructors: Models, Models/New. `touch` is the
--   setting of `UpdatedAt`. models/record.go's named strings (Format, Genre, Condition) are
--   strings, with their constants in Models/Catalog.
-- * handlers/*.go, the HTTP handlers: Handlers/Auth (Login, generateSessionID),
--   Handlers/Middleware (RequireAdmin, RequireOwner, GetUserID, GetRole), Handlers/User,
--   Handlers/Record, Handlers/Inventory and Handlers/Order, one definition for each handler in
--   the handler's name; the requests and responses are in Api. The child modules of each hold
--   what is shown of it.
-- * store/store.go, the storage interface: Store has one constructor of `Call` for each method,
--   with the type of its reply; Store/Spec says on an abstract database, three tables by id,
--   which reply and which next database each call may have. A method that returns an error may
--   have made its write or not. DecrementStock is atomic, the other methods read or write one
--   document.
-- * store/mongo.go, the storage in MongoDB: Mongo has the methods of `MongoStore` over the
--   driver's collections, which are a parameter, Mongo/Queries the filters and sort orders that
--   they send, and Mongo/Driver what is assumed of the driver: its documented behaviour, with a
--   unique index on the ids. Store/Keyed has the well-formedness of the tables. Mongo/Seed has
--   SeedData with its rows, one child module for each genre; a price is written in hundredths.
--   Mongo/Serve runs a handler on `MongoStore`, Mongo/Serve/Whole the handlers of all routes,
--   Mongo/Serve/Search the list of records. Mongo/Connect has NewMongoStore, createIndexes, Ping
--   and Close over the driver's client, which is a parameter; Mongo/Filter says what a filter of
--   records wants.
-- * config/config.go, the configuration: Config has the types and the defaults, Config/Flags the
--   command line's flags, Config/Load the order in which `Load` applies its sources.
-- * app/app.go and app/server.go: App/Start (what Start does with the store), App/Admin
--   (createDefaultAdmin), App/Limits (setupAuthenticatedRateLimit, setupTieredRateLimit and
--   their part of config/config.go) and App/Routes (setupRoutes; its child modules have what
--   stands before the routes for admins and for owners), App/Version (apiVersionFunc), App/Setup
--   (the setup functions and settings), App/Launch (New, and main of cmd/server/main.go),
--   App/Launch/Stop (the rest of Start: the listener, signals and the shutdown, as events on a
--   state machine), App/Launch/Hooks (the hooks and the health checks). The middleware and
--   handlers of zerohttp are the parameter `Zerohttp`, the binding of requests is `Binding`.
-- * app/keys.go, the signing keys: App/Keys, over the system's files and the libraries for keys,
--   which are parameters.
--
-- How a handler is modelled: Prog has programs that call the store and the environment one call
-- at a time, with `stop` for an early return; a handler is such a program from the request to an
-- `Outcome` (Http): an error, a problem document, a rendered body, or a panic. Loops over items
-- are structural recursion on the list, so there is no fuel. `Always` and `Ensures`
-- (Prog/Always) say what holds at the end of every run, whatever the interface replies;
-- `Succeeds` (Prog/Succeeds) what holds at the end of every run on which no call fails; `run`
-- (Prog/Run) lets one server answer the calls; `Sometimes` (Prog/Sometimes) says what holds at
-- the end of some run. Concurrent has requests served at the same time: a pool of handlers whose
-- calls interleave. Concurrent/Schedule lets one server run a pool, one call of one handler at a
-- time. Concurrent/Regime has rules on what handlers save and take, and that rules which all
-- handlers of a pool keep uphold what they are for; Concurrent/Spares, Concurrent/Obeys and
-- Concurrent/Served go through the handlers and the routes. Concurrent/Lifecycle,
-- Concurrent/Sound, Concurrent/Logins and Concurrent/Catalog are the rules on orders, accounts
-- and records; Concurrent/Twice and Concurrent/Stale have interleavings in which a write is
-- lost.
--
-- Numbers: Go's `int` is the integers of Base/Int, with the wrap-around of 64-bit addition in
-- `add_int`. Prices are abstract numbers: the floating point operations are parameters, in
-- `Platform` (Models/Platform), as are time formatting, base64, argon2's verification, and the
-- pagination of zerohttp. The clock, xid, random bytes, argon2's hash and the tokens of jwtauth
-- are calls. Request binding and validation come from zerohttp: a handler takes their result.
--
-- Not modelled: the generated mocks (mocks); the accessors of app/app.go for tests. Log lines
-- are left out, but for those of the rate limits and those with which the process ends.
pub mod Base
pub mod Models
pub mod Api
pub mod Http
pub mod Store
pub mod Prog
pub mod Handlers
pub mod Tests
pub mod Concurrent
pub mod App
pub mod Config
pub mod Mongo
