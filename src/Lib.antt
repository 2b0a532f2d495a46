-- ===== src/Lib.antt =====
-- Subber: subscriptions to the releases of GitHub repositories, by email. Three services and their
-- relays talk over Kafka. The subscription-api keeps subscriptions and, once the first one of a
-- repository is confirmed, asks its saga orchestrator to have the repository watched; the scanner
-- watches repositories, and reports each new release once; the subscription-api expands a release
-- into a notification for each subscriber; the notification service mails it. Every service writes
-- its messages to an outbox table in the transaction of the change that they report, and a relay
-- publishes them.
--
-- How the files correspond to the code:
--   Base       lists, keys of tables, texts, instants and integers, for all other files
--   Errors     Go's error values, errors.Is, and pkg/kafka/errors.go
--   Json       JSON values and the rules by which encoding/json reads a struct's fields
--   Contracts  pkg/contracts/events.go: topics, event types, payloads; Contracts/Codec has their JSON
--   Db         transactions as pgx offers them, and what follows of an action from how it is built
--   Outbox     pkg/outbox/outbox.go (Store), pkg/outbox/relay.go (Relay) and pkg/outbox/metrics.go
--              (Metrics)
--   Uuid       the parameter for github.com/google/uuid
--   ApiTables  the tables of services/subscription-api/internal/dbmigrations
--   Watchsaga  services/subscription-api/internal/watchsaga/orchestrator.go: Rules has the constants
--              and the statements, Orchestrator has HandleRequest, HandleAck and RetryDue
--   Subscription  services/subscription-api/internal/subscription: repository.go (Rows, Repository),
--              service.go (Service), notification_publisher.go, release_expander.go (Publisher)
--   Text       regular expressions as the package regexp matches them (Regex), and a matcher
--              (Derivative)
--   Http       services/subscription-api/internal/httpapi/router.go and pkg/requestid/requestid.go:
--              Patterns has the checks of input, Router the handlers and the middleware; access.go (Access)
--   Github     the clients of GitHub: services/subscription-api/internal/subscription/github.go (Client)
--              and services/scanner-service/internal/github/provider.go (Provider)
--   Notification  the way of a confirmation to the notification service: its gRPC publisher and
--              server (Grpc), its HTTP publisher and handler (Web), and email/smtp.go (Email)
--   Migrations pkg/migrations/migrations.go: Names and Load have Load, Run has apply and Run
--   Scanner    services/scanner-service/internal/scanner: repository.go and service.go
--   Delivery   services/notification-service/internal/delivery: repository.go (Repository), and
--              service.go, retry_publisher.go and retry_scheduler.go (Service)
--   Consumer   pkg/kafka/consumer.go, with the counters of pkg/kafka/metrics.go
--   Config     pkg/env/env.go (Env), pkg/config/config.go and pkg/postgres/connect.go's DSN (Shared),
--              and services/*/internal/config/config.go (Services)
--   Logging    pkg/logger/setup.go: the hook that passes entries on and its goroutine (Hook), the
--              set-up (Setup)
--   Workers    the handlers that the processes' main.go files give to their consumers, and the settings
--              that they give to the services (Handlers); what each process starts (Processes)
--   Examples   concrete inputs
--
-- An operation is an action: a function from a world to a result and a world. The world has the
-- committed database, the view of the open transaction, the messages that Kafka and the mails that the
-- SMTP server have accepted, the clock, the number of UUIDs that were generated, the rows that other
-- transactions hold, the orders that PostgreSQL gives to rows, and a schedule of faults. Each call of the database, of Kafka or of SMTP takes the
-- next entry of the schedule: an error there is what the call returns, and the call then does nothing.
-- Past the end of the schedule no call fails. The first error in a transaction aborts it, as in
-- PostgreSQL, so that its later calls fail too; an action that ends without a commit leaves the
-- committed database as it was. A statement is a function of the tables, written from its SQL; rows
-- keep the order of their insertion. `FOR UPDATE SKIP LOCKED` passes over the rows that the world says
-- are held.
--
-- Instants are natural numbers of nanoseconds, and zero is Go's zero time; the clock stands still
-- within an operation, and `now()` of the database is the same clock. Subtraction does not occur but
-- where it stays above zero. Only the goroutine of the logs' hook has fuel, and two moves for each
-- body and two more are enough for it; each other loop goes through a list, of rows, of ticks or of
-- what each round of a consumer meets. The goroutine, the loggers and `Close` interleave as the steps
-- of a relation. An identity of a new event that is not in use is a hypothesis where a theorem needs
-- it, since generated UUIDs could meet ids of other processes. The order in which `UPDATE …
-- RETURNING` gives the relay's batch, and the order of a `SELECT DISTINCT`, are any permutations, given
-- with the world. A UUID is its text: the package's `Parse` and `Validate` are two parameters, and where
-- a column of UUIDs decides whether a saga is known, the id of a request is taken to be canonical.
--
-- What PostgreSQL makes of the text of a migration, and the digests, are parameters too. The texts of
-- errors leave out, in the migrations, the names and the numbers that the source formats into them, and
-- for a message that cannot be decoded the text of encoding/json.
--
-- What GitHub answers to a request, what a gRPC or HTTP call between the services returns and what the
-- cache does are parameters as well. Where two services meet over HTTP, the theorem speaks of what the
-- other one's handler does with the request that is sent; over gRPC, that handler is taken for the call.
-- A request that the hook of the logs makes is
-- answered by its body and by whether its context is cancelled.
--
-- Not modelled: the transports themselves and gin's routing, the calls of Redis, what is logged beside
-- the entry of a request, the metrics page, signals and the shutdown of a process. What an error of
-- `rows.Scan` or of `json.Marshal` on these structs does is part of the call that it belongs to.
-- Integers of Go's `int` stand for counts that stay far below its bound.
pub mod Base
pub mod Errors
pub mod Json
pub mod Contracts
pub mod Outbox
pub mod Db
pub mod Text
pub mod Uuid
pub mod ApiTables
pub mod Watchsaga
pub mod Subscription
pub mod Http
pub mod Github
pub mod Notification
pub mod Migrations
pub mod Scanner
pub mod Delivery
pub mod Consumer
pub mod Config
pub mod Logging
pub mod Workers
pub mod Examples
