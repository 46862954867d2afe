-- ===== src/Lib.antt =====
-- A model of mini-lambda, a function-as-a-service platform in Go, with the theorems that hold of
-- it. Requests reach the gateway (services/gateway), which limits their rate, guards each service
-- behind it with a circuit breaker and passes the requests on. The build service
-- (services/build-service) admits uploads by the depth of its queue, puts their packages into a
-- bucket and their jobs into the queue; its workers unpack the packages, put the functions' files
-- into the bucket and publish an event. The lambda service (services/lambda-service) registers the
-- functions of these events, keeps functions and their code, runs them in pooled containers and
-- takes events from webhooks and a broker. The services share shared/.
--
-- Where the parts meet: Registration.Pipeline takes the worker's upload, the event of
-- Shared/BuildEvent that carries its key, and the registration's answer to the function that the
-- service gives out. Gateway.Router.Logs reads the stream of log lines that BuildService.Worker
-- appends to; Router.Shielding puts the router behind the breakers and the build limiter.
-- Shared.Functions.Service states what it asks of a code storage, and LambdaService.CodeStore
-- shows that the one on S3 gives it. PoolRegistry.Code joins the registry, the Docker pools and
-- the functions whose code they are seeded with.
--
-- Files and the code that they are about:
--   Common: lists, Boolean tests on the native numbers, signed 64-bit integers with their
--     wrap-around, Go maps as association lists, counting, texts made from a prefix and a name, and
--     the functions of Go's package strings that the source calls (Strings).
--   Gateway/Router: services/gateway/internal/router. Router and Handlers are gateway.go, Routes is
--     routes.go, Logs is the loop of stream.go that sends a build's log to the client.
--   Gateway/CircuitBreaker: services/gateway/internal/circuitbreaker/circuit_breaker.go and
--     registry.go. `call` is `Call`; Interleaving has calls that overlap as a step relation, since
--     the mutex is not held while the protected function runs.
--   Gateway/RateLimit: services/gateway/internal/ratelimit. TokenBucket is token_bucket.go, with
--     the Lua script as `script`; Build is bucket_ratelimit.go, Strategy is strategy.go. Redis is a
--     record of its commands with the laws of its documentation, which the clients take as a
--     parameter.
--   Shared/Bucket: the bucket of an object store, which the build service and CodeStore write to.
--   Shared/BuildEvent: the event of a built function, as the worker sends it and the lambda service
--     reads it.
--   Shared/Backoff: shared/queue/backoff.go, the sleeps between attempts to reconnect.
--   Shared/Functions: shared/domain/function.go, execution.go and repository.go. The service takes
--     the repository and the code storage as records of operations and laws.
--   LambdaService/Pool: services/lambda-service/internal/pool/pool.go and shared/domain/pool.go.
--   LambdaService/DockerPool: services/lambda-service/internal/pool/docker_pool.go. The channel of
--     idle containers is a list, what the source starts with `go` is a task that runs later in any
--     order, and the daemon's answers are arguments. The proofs are split by what they keep track
--     of: Invariant and History the bounds, Held, Balance, Books and Conservation the containers
--     that the daemon runs against those that someone holds, Filling the loop of `Start`.
--   LambdaService/KubernetesPool: services/lambda-service/internal/pool/kubernetes_pool.go, the
--     cluster's answers as arguments.
--   LambdaService/Events: shared/domain/event.go. Processor is
--     services/lambda-service/internal/events/processor.go with `handleMessage` of rabbitmq.go
--     beside it; Webhooks is webhook.go beside it.
--     Cron is cron.go and cron_helpers.go beside it; its Repository is the table of cron triggers
--     in services/lambda-service/internal/storage/event_repo.go.
--   LambdaService/Cache: services/lambda-service/internal/cache/cached_repository.go over the
--     repository of Shared/Functions, with its goroutines as tasks.
--   LambdaService/CodeStore: services/lambda-service/internal/storage/s3.go.
--   LambdaService/Registration: services/lambda-service/internal/registration/consumer.go.
--   LambdaService/Invoke: services/lambda-service/internal/invoke/handler.go.
--   LambdaService/Postgres: services/lambda-service/internal/storage/postgres.go, the table of
--     functions; Postgres.Repository shows that it keeps the laws that the function service takes.
--   LambdaService/PoolRegistry: services/lambda-service/internal/executor/pool_registry.go.
--   BuildService/Master: services/build-service/cmd/master/main.go. From internal beside cmd, Jobs
--     is builder/types.go, the job that is queued, Artifacts storage/s3.go, the packages and built
--     files in the bucket, Notifier builder/webhook.go, the callbacks.
--   BuildService/Worker: services/build-service/cmd/worker/main.go, with the log of a build.
--   BuildService/Backpressure: services/build-service/internal/queue/backpressure.go.
--   BuildService/ZipProcessor: services/build-service/internal/builder/zip_processor.go.
--
-- Numbers are natural or signed integers without a bound, except in the backoff, whose durations
-- wrap at 64 bits. Times are nanoseconds, or seconds where the code takes them. An operation that
-- changes state takes the state and returns it. Every loop of the source is a recursion on a list:
-- of what it ranges over, or, for the loop that streams a log, of what its turns are answered. The
-- loop of `DockerPool.Start` alone has fuel, the number of its rounds: the theorems on it say which
-- fuel is enough and when none is. Errors are values; what a third party answers at run time, its
-- errors included, is an argument of the operation or a law of a record.
--
-- Not modelled: the SQL statements but those on functions and cron triggers, the container engines
-- and what a runtime does inside a container, the builders' steps, the connections to the broker,
-- the formatting of log lines and metrics, and the start of the processes.
pub mod Common
pub mod Shared
pub mod Gateway
pub mod LambdaService
pub mod BuildService
