-- ===== src/Lib.antt =====
-- A verification library of the shop's services: products with their stock, orders, the saga
-- between them, and the users who log in. An order reserves stock by calls to the product service; a
-- payment that completes or fails comes back as an event, and the order service then asks by events
-- that the reserved stock be confirmed (sold) or released. Each delivery may fail, come twice or stop
-- half-way. Users get access and refresh tokens from the user service; the interceptors of each
-- service turn an access token into the claims that its calls check.
--
-- The files, and the code that they are about:
--   Prelude        tests, lists and integers over the native numbers, and 64-bit wrap-around
--   Errors         pkg/errors/errors.go: kinds, `New`, `Wrap`, `GetKind`; results in place of
--                  (value, error)
--   Errors/Grpc    pkg/grpcerrors: `FromAppError`, `ToAppError`
--   Errors/Http    api/internal/httperrors/httperrors.go: `Respond`
--   Errors/Boundary  an error on its way through both
--   Db             statements on a table that is a list of rows, and `WithTx` of
--                  pkg/postgres/postgres.go; Db/Laws is their theory
--   Product        services/product-service/internal/model/product.go and repository/product.go,
--                  with the constraints of migrations/000001_create_product_table.up.sql
--   Product/Stock, Product/Inventory, Product/Simulation  the stock statements, and the map that
--                  they stand for
--   Product/Ledger, Product/Entries, Product/Books  sequences of writes, and their sums
--   Product/Consumer  messaging/stock_confirm_consumer.go, messaging/stock_release_consumer.go,
--                  repository/event.go, and the invalidation of cache/store.go
--   Product/Delivery, Product/Once    sequences of deliveries
--   Product/Search `Search` of repository/product.go
--   Product/Cached services/product-service/internal/cache: the cache store and the repository over it
--   Product/Fresh, Product/Changes, Product/Traffic, Product/Coherence, Product/Reads,
--   Product/Collisions  the theory of the cache
--   Product/Service   internal/service of the product service; Product/Admin is its theory
--   Cache          pkg/cache: `Get`, `Set`, `Delete`, `Build`; Cache/Laws
--   Broker         pkg/rabbitmq/consumer.go: `Consume`, on a list of what it receives; Broker/Laws
--   Broker/Amqp    the AMQP library and the server as an interface, with what they promise
--   Broker/Script, Broker/Channels  sequences of fallible steps; connection.go, publisher.go,
--                  module.go and `BindQueue` of pkg/rabbitmq
--   Messaging      pkg/events and internal/messaging/module.go of the services: what they declare,
--                  bind and publish
--   Messaging/Routes, Messaging/Outcomes, Messaging/Starts, Messaging/Arrivals, Messaging/Strays,
--   Messaging/Delivery  what reaches which queue
--   Order          services/order-service/internal/model/order.go
--   Order/Table    repository/order.go, with the constraints of the migrations
--   Order/Saga     service/helper.go and messaging/publisher.go: building, reserving, compensating
--   Order/Service  service/order.go and service/mapper.go: `CreateOrder`, `GetOrder`,
--                  `ListMyOrders`
--   Order/Compensation, Order/Acceptance, Order/Items, Order/Totals  the theory of `CreateOrder`
--   Order/Consumer    messaging/consumer.go: the two payment handlers
--   Order/Status, Order/Settlement, Order/Redelivery  the theory of the status and the handlers
--   Payment        services/payment-service/internal/model/payment.go
--   Payment/Table  repository/payment.go, with migrations/000001_create_payments_table.up.sql
--   Payment/Service   service/payment.go, messaging/order_created_consumer.go,
--                  messaging/publisher.go, repository/event.go
--   Payment/Zarinpal  client/zarinpal.go and client/gateway.go: the answers of the gateway;
--                  Payment/Verdicts is about the callbacks that they are given to
--   Payment/Marks, Payment/Unlinked, Payment/Intake, Payment/Callback  the theory of the status,
--                  and of the service's calls
--   Auth           pkg/auth: access tokens, passwords, refresh tokens, codes; Auth/Laws is the way
--                  of an access token from its signature to its claims
--   Middleware     pkg/grpcmiddleware: the interceptors for tokens and rate limits; Middleware/Laws
--   User           services/user-service/internal/model
--   User/Table, User/Tokens, User/Challenges  repository/user.go, refresh_token.go and otp.go, with
--                  the constraints of the migrations
--   User/Service   service/helper.go and service/mapper.go: the tokens that a login issues
--   User/Login     service/user.go: `Register`, `PasswordLogin`
--   User/Otp       `OTPLogin`, `VerifyOTP`
--   User/Session   `RefreshToken`, `Logout`, `GetUser`
--   User/Calls     sequences of calls of the user service
--   User/Rotation, User/Replay, User/Logins, User/Accounts, User/Gone, User/Codes  its theory
--   User/Server    internal/handler/user.go and routes.go: the calls behind the interceptors
--   Product/Server, Order/Server  internal/handler of the product and the order service; Product/Gate
--                  is about who may change products
--   Payment/Server internal/handler of the payment service, its read for admins, and service/mapper.go
--   Order/Client   services/order-service/internal/client/product.go; Order/Bookings,
--                  Order/Checkout and Order/Lost are about the stock after `CreateOrder`
--   Config         pkg/config: the shared parts and their addresses; Config/Env is pkg/env
--   Config/Services   config/config.go of the services and of the gateway; Config/Secrets
--   Rpc            a gRPC call from its client to the handler and back (internal/server/grpc.go);
--                  Rpc/Laws
--   Gateway/Auth   api/internal/handler/auth, client/forward.go and middleware/ratelimit.go
--   Gateway/Calls, Gateway/Visits, Gateway/Sessions, Gateway/Answers  calls and requests in
--                  sequence, sessions, and the form of the answers
--   Tests          the theorems at concrete data
--
-- How the code is modelled. A UUID is a number, its nil is 0. An `int32` or `int64` is an integer;
-- where the code adds or multiplies in Go, the result is wrapped to 64 bits, and where PostgreSQL
-- computes, leaving the range of the column is a violated constraint. Times are left out. A table
-- is the list of its rows. A statement takes a fault: none, or the error that comes instead of its
-- effect. A transaction ends by a commit that succeeds, fails, or succeeds with its answer lost.
-- Rows are changed by one statement at a time, as the row locks of PostgreSQL have it, so that
-- sequences of statements are all the interleavings there are. The product service, the broker, the
-- event ids and the texts of UUIDs are parameters of the order service. Reservations and
-- publications go into a trace, the latest first. Logs are left out. Every loop is structural
-- recursion over a list, so no fuel is needed.
-- In the user service a time is a number of nanoseconds and is an argument wherever the code reads
-- the clock. Its calls are functions of the users, the refresh tokens, the codes in Redis and the
-- codes that were sent out; the JWT library, bcrypt, SHA-256, the texts of UUIDs, the random texts
-- and the equality of CITEXT are parameters. A query that returns one of many rows takes the choice.
--
-- Redis is a list of entries, each with a text and a deadline. What PostgreSQL does with texts in a
-- search, and JSON, are parameters. The calls of the cached repository do not overlap.
--
-- A request to the gateway comes with what its limiter, the network and the service meet. The broker
-- is a state with the calls of the AMQP library on it, of which Broker/Amqp states what is relied on.
-- The services start and publish in any order; a service that cannot start has no publisher.
--
-- In Order/Client the surroundings of the order service are the network, the interceptors and the
-- handlers of the product service; only what the reads of products return is any function there.
--
-- A violated constraint of a statement with RETURNING is reported by the query or with its rows,
-- as the driver does; which of them is a parameter.
--
-- Not modelled: confirmations of the broker that calls of Publish which overlap on one channel take
-- from each other, the limiter of redis_rate, logging and recovery from panics, the connections to
-- PostgreSQL and Redis, the listeners of the servers, the gateway but for its endpoints for users and
-- its errors, set-up, and generated code.
pub mod Prelude
pub mod Errors
pub mod Db
pub mod Product
pub mod Order
pub mod Payment
pub mod Auth
pub mod User
pub mod Cache
pub mod Broker
pub mod Middleware
pub mod Messaging
pub mod Config
pub mod Rpc
pub mod Gateway
pub mod Tests
