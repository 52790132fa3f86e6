-- ===== src/Lib.antt =====
-- The services of Micro Market: two services in Go, each with its own SQLite database, that call
-- one another over gRPC.
--
-- The inventory service (inventory-service/) keeps the products with their stock, and every
-- order that takes of it. The checkout service (checkout-service/) keeps users, a copy of the
-- products and the orders that users place. A product is created, changed and deleted at the
-- inventory service, which tells the checkout service within its own transaction. An order is
-- placed at the checkout service, which asks the inventory service whether it can be had,
-- records it, registers it with the inventory service within its transaction, and publishes its
-- invoice on Redis.
--
-- Base holds integers, text and lists that the rest stands on. An `int` of Go is a ℤ, with
-- `int32`, `int64` and `uint64` where the code converts or computes; a `uint` is an ℕ; a string
-- is a String, a pointer an Option, a time a number of nanoseconds.
--
-- Common is common/: AppError (app_error.go), Chaos (chaos.go, over a generator that is a
-- parameter), Http (utils.go and json_middleware.go, with Http/Middlewares for
-- otel/otel_middlewares.go), Process (what a `main` opens, defers and starts, with
-- otel/otel_telemetry.go), Grpc (`handleGRPCError`, which both services declare), Wire (the
-- messages of proto/ and the generated clients), Action (a function that changes a state and
-- returns a value or an error) and Query (what a database answers).
--
-- Inventory is inventory-service/: Model (product_model.go, order_model.go), Products
-- (products_controller.go), Orders (orders_controller.go), Grpc (grpc_server.go) and Environment
-- (what the service calls), Routes (api_routes.go), Seed (seed.go) and Setup (main.go, db.go and
-- the connection of checkout_client.go). Checkout is checkout-service/, laid out alike, with
-- users_controller.go in Products and redis_db.go in Setup. The files named Effects, below Orders
-- and Products, say field by field which row, message and answer an operation is to make, apart
-- from the definitions that model the code. A function of Go in CamelCase is a
-- definition in snake_case: `PlaceNewOrder` is `place_new_order`. Where a function has a part
-- that is a definition of its own, as the argument of a transaction or a row that it builds, the
-- part stands above it.
--
-- Market puts the two together: Links says what a client is whose calls are answered by the
-- other service's handlers or lost on the way, before the handler or after it; Orders is about
-- an order that is accepted, Refusals about one that is refused, Products about a product in
-- both services, Mirror about all products of both, and Wire and Overflow about the numbers in
-- the messages.
--
-- LoadGenerator is cmd/load-generator/main.go, which sends requests to both: its operations,
-- with the settings in Settings, the loop and its goroutines as steps in Pool, `ensureProducts`
-- in Seeding and `placeOrder` in Orders. Collector is the processor in
-- custom-collector/cprocessor/ that the logs of the services pass. What they take from strconv,
-- strings and fmt is in Base/Strconv.
--
-- Parameters. Each service takes an `Environment`: gorm, transactions, `ulid.Make`, math/rand,
-- the gRPC client and, in the checkout service, Redis and `status.FromError`. A record
-- `Contract` says what is relied on of them: which rows a query gives, that a statement changes
-- what it says or fails and changes nothing, that the keys are unique, and that a transaction
-- commits the whole of what its argument did or restores the database. It does not say that a
-- statement succeeds. A row that is deleted is not shown by a query, so `Contract` speaks of the
-- rows shown. The tests build both databases in memory and prove the contracts of them.
--
-- An HTTP handler is a function of a response writer and the state. The writer is an interface,
-- so that a middleware can wrap it as the code does; `server` is the one of net/http, of which
-- the first status counts. The decoder of JSON, the validator, the formatted time and the
-- tracing middleware are parameters.
--
-- Bounds. `decimal` in Base/Text takes fuel for twenty digits, enough for every 64-bit integer.
-- The seeds draw ten products and twenty users, as the code does, and the loop of
-- `ensureProducts` has one round for each product that is missing. No other function counts
-- down.
--
-- Not modelled: the telemetry's providers and its spans, and the deadlines of contexts, which
-- give the functions nothing but errors that the parameters may return as well; the parsing of
-- flags; what the libraries do when they open databases and connections, and what happens to the
-- servers once they are started; the registration of the collector's factory, and the generated
-- code of its distribution. Each call of the services is one sequence of steps; two calls that
-- interleave are treated in Inventory/Orders/Race.
pub mod Base
pub mod Common
pub mod Inventory
pub mod Checkout
pub mod Market
pub mod LoadGenerator
pub mod Collector
mod Tests
