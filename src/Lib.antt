-- ===== src/Lib.antt =====
-- gokit-services: a Go library of managed services (pkg/) and an orders service built on it
-- (example/orders-service/).
--
-- The parts and how they interact. `Entrypoint` starts a set of services, waits for a trigger and
-- stops them. The services that connect to the outside (PostgreSQL, Redis, Kafka) connect through the
-- retry loop; a periodic service runs a callback on every tick.
-- The Kafka consumer hands its messages to a worker pool, and so do the APIs of the orders service
-- with new orders. The HTTP and the gRPC server drain their requests before they stop; the health
-- server is an HTTP server whose readiness is that of a set of probers. The orders service has a store
-- behind an interface; decorators add events and a cache; two background jobs confirm and cancel
-- orders; HTTP and gRPC handlers sit on top, and a dashboard reads through both. The program composes
-- them from its environment.
--
-- Which file models which part:
--   Common        shared names, lists and tests on native numbers, Go errors (Errors), signed
--                 integers (Int), maps with string keys (Assoc)
--   Retry         pkg/internal/retry/retry.go: `do_retry` is Do, `loop` its loop by attempt
--   Workerpool    pkg/workerpool/pool.go: `Step` has a constructor for each thing that the goroutines
--                 of a pool do, `submit` and `stop` return what Submit and Stop do
--   Entrypoint    pkg/core/entrypoint/entrypoint.go and pkg/core/service/service.go: `run` is Run and
--                 returns the error and the list of events
--   Periodic      pkg/periodic/service.go: `Step` has a constructor for each thing that the loop, the
--                 ticker and the callbacks do
--   Http          Http.Server pkg/http/server/server.go: options, the response writer and the
--                 middleware; Http.Client pkg/http/client/client.go
--   Graceful      `Start`, its watcher and `Stop` of pkg/http/server/server.go, as steps that the
--                 server of pkg/grpc/server/server.go shares; a `Flavor` holds what differs
--   Grpc          Grpc.Server pkg/grpc/server/server.go; Grpc.Client pkg/grpc/client/client.go
--   Health        pkg/healthserver/server.go: `Step` is one prober that ends
--   Metrics       pkg/internal/prom/register.go, and the loops that report statistics in
--                 pkg/dbservice, pkg/redisservice and pkg/kafka/consumer; Metrics.Registration the
--                 initMetrics of these, pkg/http/server and pkg/kafka/producer
--   Backends      Backends.Db pkg/dbservice/service.go; Backends.Redis pkg/redisservice/service.go
--   Kafka         pkg/kafka/kafkanet.go and consts.go; Kafka.Producer pkg/kafka/producer/producer.go,
--                 with Produce and ProduceBatch in Kafka.Producer.Sending; Kafka.Consumer
--                 pkg/kafka/consumer/consumer.go, with the rounds of its loop and the tasks of the
--                 pool in Kafka.Consumer.Working, which are steps in Kafka.Consumer.Intake;
--                 Kafka.RoundTrip a message from the one to the other
--   Orders        example/orders-service/order.go: `Store` is the Store interface as a record of
--                 operations on a state; Orders.Validation ValidateNewOrder; Orders.Memory
--                 store_memory.go; Orders.Publishing events.go and store/publisher.go; Orders.Caching
--                 store/caching.go; Orders.Postgres store/postgres.go, with one parameter for each SQL
--                 statement; Orders.Asking a client of the Store interface, to compare two stores by
--                 their answers; Orders.Jobs cleanup.go and worker.go; Orders.Api httpapi.go and
--                 grpcapi.go, with the routes and the writing of replies in Orders.Api.Serving
--   Dashboard     example/orders-service/dashboard.go: the partials as the values that their templates
--                 render; Dashboard.Forms the form and the health partial; Dashboard.Pages the
--                 routes, the requests to the REST API and the writing of the pages; Dashboard.Reading
--                 and Dashboard.Ordering the page, the API and the store together, with
--                 Dashboard.Rows for the rows of the page
--   Wiring        example/orders-service/serverkit/backends.go; Wiring.Program httpwiring.go beside it
--                 and cmd/orders-service/main.go; Wiring.Stack the composed store, Wiring.Journey an
--                 order's way through it, Wiring.EventStream an event's way from its publisher
--                 through Kafka to the handler of events, Wiring.Hosting the servers and clients of main
-- In each part the definitions stand in the files named above and the theorems in their child modules;
-- the files whose names end in Tests apply the theorems to concrete inputs; Orders.Shop, Orders.Slot and
-- Orders.Postgres.Listed hold a store, a cache and a database for them.
--
-- State and effects. An operation takes the state and returns it changed beside its result, or its
-- error as a `Result`, or `none` for a nil error. What code outside the repository answers (brokers,
-- Redis, the clock, contexts, hooks and services of the caller) is a parameter or a field of a
-- `World`. A run of goroutines is a sequence of steps in any order; a critical section under a mutex
-- is one step. Loggers, registries and functions that are only passed on are numbers.
--
-- Bounds. The retry loop recurs on the attempts that are left, of which `attempts` allows as many as
-- the code does; no other loop needs fuel. The order counter is a uint64 and wraps at 2 ^ 64; the
-- theorems on names of orders bound the number of calls below that. The sequence in PostgreSQL is a
-- bigint and ends at 2 ^ 63. Durations are nanoseconds that are not negative; the float64 product of
-- the backoff is a parameter, exact below 2 ^ 53.
--
-- Simplified: CancelStalePending of the in-memory store takes one time for all the orders of a call,
-- where the code asks the clock for each; its Create takes the number and inserts the order in one
-- step, where another call may take the next number and insert first. The goroutines that call Stop in
-- Run log their errors in one of the orders in which they may. The calls of Stop of a server come one
-- after another; a connection that a handler has hijacked is not the server's any more. The
-- writer of net/http does not panic on a status code outside 100-999 and sends the body of an answer
-- to HEAD; theorems for which this matters exclude both.
--
-- Not modelled: templates, the matching of net/http's mux and static files, log lines other than those
-- of Run and of the handler of events, and generated code. A loop of a server that waits is a step relation, so that a theorem that
-- something returns gives a run that gets there.
pub mod Common
pub mod Backends
pub mod Dashboard
pub mod Entrypoint
pub mod Graceful
pub mod Grpc
pub mod Health
pub mod Http
pub mod Kafka
pub mod Metrics
pub mod Orders
pub mod Periodic
pub mod Retry
pub mod Wiring
pub mod Workerpool
