-- ===== src/Lib.antt =====
-- gframework: a library of building blocks for Go services. Each part is a package that wraps one
-- third-party client (pgx, go-redis, Watermill, net/http, Echo) and adds its own control flow: attempts
-- and waits, transactions, acknowledgements, a task queue, requests and responses, middleware. This
-- library models that control flow and treats the clients as parameters.
--
-- The parts, and the file of each:
-- - Base: lists, texts, Go maps (association lists with one entry for a key) and Go's integers over the
--   native numbers. Durations are whole nanoseconds.
-- - Errors: Go errors as values: sentinel variables by name, PostgreSQL errors by code, fmt.Errorf
--   with one or two %w, and what errors.Is and errors.As find in them.
-- - Postgres.Retry: postgres/retry.go, WithRetry. A round of its loop is `proceed`, what it makes of one
--   call's result is `judge`. The loop runs for `rounds` rounds, which is MaxRetries + 1, or 0 for a
--   negative MaxRetries: exactly the attempts that the loop's header allows.
-- - Postgres.Transaction: postgres/transaction.go, and WithRetryTx of postgres/retry.go, which composes
--   the two. A panic of the body is an outcome; each call of pgx leaves an event in a log.
-- - Postgres.Migration: postgres/migration.go: the connection, the driver and the migrator of a migration,
--   with a log of what is opened, used and closed; golang-migrate and database/sql are parameters.
-- - Postgres.Pool: postgres/postgres.go and batch.go: the settings of a pool, its life, bulk inserts.
-- - Postgres.Health: postgres/health.go, HealthCheck with its options.
-- - Redissub.Subscriber: redissub/subscriber.go, from its options to the handling of one message
--   (handleMessage, processWithRetry, executeWithTimeout, sendToDLQ, Ack) with a log of effects.
--   Redissub.Subscriber.Lifecycle: Start and Stop as a step relation, with the two channels that they
--   close and any number of concurrent callers.
-- - Redissub.MultiSubscriber: redissub/multi_subscriber.go: Subscribe, IsHealthy and SubscriberCount on
--   the list of subscribers. Redissub.MultiSubscriber.Lifecycle: one call of Start and one of Stop as a
--   step relation on counts of subscribers; Stop's messages about single subscribers are left out, since
--   Subscriber.Stop always returns nil.
-- - Runner: runner/runner.go, from its options to the exit of Run. An event stands for a group of
--   goroutines, one for each service of the group.
-- - Taskqueue: taskqueue/taskqueue.go: options, Push, the fetcher, the workers and RecoverStale, each
--   with a log of events. The fetcher and the worker are services; they are run for a number of rounds,
--   which is arbitrary: each of them is a moment in the life of the service. Taskqueue.Lifecycle: Start,
--   Stop and the goroutines as a step relation, with counts of the tasks between them.
-- - Workerpool: workerpool/workerpool.go: options and one execution. Workerpool.Lifecycle: Start, Stop,
--   the dispatcher and the workers as a step relation on counts of goroutines. Here and in
--   Taskqueue.Lifecycle a Start and a Stop that overlap mark the state, which is left open from
--   there on.
-- - Cache: cache/cache.go: Get, Set, Delete and Invalidate over Redis's commands and encoding/json.
--   Cache.Keys: cache/key.go and key_encoder.go.
-- - Valkey: valkey/valkey.go: the configuration, its checks and defaults, the options of the client with
--   TLS, and Start, Stop and HealthCheck.
-- - Distlock: distlock/distlock.go: a handler under a lock of redislock.
-- - Httpclient.Client, Registry, Request, Response: httpclient/client.go, options.go, registry.go and
--   errors.go: construction, the registry of clients, building a request, sending and reading. An
--   http.Client that WithHTTPClient is given is a pointer; writes through it are listed.
--   Httpclient.Response.Head: httpclient/generic.go. Httpclient.Registry.Abstract: registries up to the
--   order of their map, as a quotient.
-- - Authtoken: authtoken/client.go: the cached access token and its double check under the lock.
-- - Httpserver.Pagination: httpserver/pagination.go, with the wrap-around of 64-bit integers.
-- - Httpserver.Handling: httpserver/error.go, response.go, wrapper.go and call.go: binding, validation,
--   the handler and its answer. Httpserver.Server: what a server is made of, the limit of a body and the
--   life of the server; Echo itself is not modelled.
-- - Validator: validator/validator.go: the messages for failed rules; the rules are go-playground's.
-- - Keycloak.Admin: keycloak/admin.go, every operation on users and roles, with a log of gocloak's calls.
--   Keycloak.Options: its construction with a token provider of Authtoken.
--   Keycloak.Uma: keycloak/uma.go, the decision on a permission, and RoleNames of keycloak/helpers.go.
-- - Redispub: redispub/publisher.go. Util.Date: util/date.go, with 64-bit durations; calendar and parsing
--   are parameters. Logutil: logutil/loglevel.go.
-- - Spaces: spaces/spaces.go, over the SDK of S3. Metricserver: metricserver/server.go. Jwks:
--   jwks/keyfunc.go and options.go, the settings of keyfunc.
-- - Middleware.Claims, RequestId, ErrorHandler, RequestLogger: middleware/jwt.go, role.go,
--   middleware.go, request_id.go, error_handler.go and request_logger.go.
-- - Middleware.Jwt: middleware/jwt.go: the configuration and the handlers that it gives to echo-jwt. The
--   record EchoJwt is what that library's documentation says of its middleware.
-- - Demo: examples/demo-api, a service built from the packages. Demo.Users: internal/repo/user.go, a
--   constructor for each statement. Demo.Service, Api, Readiness: internal/service, over what Users, Cache,
--   Httpserver, Postgres.Health and Valkey give; Demo.Service.Table is the table of users as the service
--   relies on it, a function from identifiers to rows. Demo.Work: internal/publisher,
--   internal/executor and internal/handler, over Redispub and Taskqueue. Demo.Config, Migrate: the settings and cmd/migrate, over
--   Postgres.Migration. Demo.Clients, Parts: main.go, what the servers and clients are given, and the
--   pools, services and routes, over Workerpool and Runner. Demo.Wiring: main.go, its start, over Taskqueue,
--   Redispub and Redissub.
-- - Testutil: testutil/helpers.go, postgres.go and echo.go, as far as they compute something. A polling
--   test runs for a number of rounds; those up to the first that begins after the deadline are enough.
--
-- Conventions: code that acts on the outside takes a record of functions on a state `W` (Env, Driver):
-- they stand for Redis, pgx, the network, clocks, contexts and callbacks, which may answer anything and
-- keep any state, so a theorem holds for every behaviour of theirs and for every interleaving that
-- shows in their answers. A `select` between a context and something else is such an answer. Log lines
-- are not modelled. A log keeps the newest event first, a trace (of WithRetry and of Run)
-- the oldest.
--
-- Not modelled: options that only set an HTTP client or a logger of a library, the set-up of Echo and of
-- the SDK of S3, the logger of httpserver/wrapper.go, the generated documentation of
-- examples/demo-api, and what testutil only asks of the testing libraries.
pub mod Base
pub mod Authtoken
pub mod Cache
pub mod Demo
pub mod Distlock
pub mod Errors
pub mod Httpclient
pub mod Httpserver
pub mod Jwks
pub mod Keycloak
pub mod Logutil
pub mod Metricserver
pub mod Middleware
pub mod Postgres
pub mod Redispub
pub mod Redissub
pub mod Runner
pub mod Spaces
pub mod Taskqueue
pub mod Testutil
pub mod Util
pub mod Validator
pub mod Valkey
pub mod Workerpool
