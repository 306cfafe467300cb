-- ===== src/Lib.antt =====
-- The core of the content automation platform: its background jobs, and the pure rules of its
-- analytics, its Instagram integration, chat, uploads and dashboard. The jobs are enqueued once,
-- dispatched to a queue, claimed under a lease, retried, cancelled, repaired and recovered, over the
-- shared tables background_jobs, job_attempts, job_outbox and audit_events.
--
-- Parts of the program, and the files that model them:
--   packages/domain/src/job-lifecycle.ts       Domain/Lifecycle: states and transitions
--   packages/domain/src/job-retry.ts           Domain/Retry: decideJobRetry; Domain/Number: the
--                                              numbers that reach it
--   packages/domain/src/background-jobs.ts     Jobs/Envelope: parseQueueJobEnvelope
--   packages/observability/src/correlation.ts  Correlation: parseCorrelationId
--   packages/observability/src/errors.ts       Errors: errors as values, results of code that throws
--   packages/db/prisma                         Jobs/Store: the tables; Jobs/Constraints/Checks: the
--                                              CHECK constraints of the migrations
--   packages/db/src/job-execution.ts           Jobs/Claim, Jobs/Lease, Jobs/Recovery, Jobs/Commit: its
--                                              transactions; Jobs/Handler: runIdempotentJobHandler
--   packages/db/src/job-operations.ts          Jobs/Guard, Jobs/Operations, Jobs/Operations/Retry
--   packages/db/src/job-reconciliation.ts      Jobs/Reconciliation, Jobs/CommittedResult: its repairs;
--                                              Jobs/Sweep: the sweep
--   packages/db/src/background-jobs.ts         Jobs/Enqueue, Jobs/Dispatch
--   packages/queue/src/concurrency.ts          Queue/Gate: the provider concurrency gate
--   packages/domain/src/analytics-cohorts.ts   Analytics/Ages, Analytics/Windows, Analytics/Snapshots,
--                                              Analytics/Spread
--   packages/domain/src/analytics-statistics.ts
--                                              Analytics/Statistics: effects, bootstrap, classes
--   packages/domain/src/analytics-metrics.ts   Analytics/Quantities, Analytics/Metrics: derived metrics
--   packages/domain/src/instagram-insights.ts  Instagram/Catalogue, Instagram/Insights;
--                                              Analytics/Ages: the storage buckets
--   packages/domain/src/instagram-scheduling.ts
--                                              Instagram/Scheduling
--   packages/domain/src/instagram-media.ts     Instagram/Media: kinds, pages, classes of responses
--   packages/domain/src/instagram-token.ts     Instagram/Token: the health of a credential
--   packages/domain/src/chat-context.ts        Chat/Context
--   packages/domain/src/video-upload.ts        Domain/Upload
--   packages/domain/src/dashboard.ts           Domain/Dashboard
--   packages/domain/src/strategy-request.ts    Strategy/Manifest, Strategy/Evidence: what a strategy may
--                                              argue from
--
-- The parts of the jobs meet in the database alone; the gate holds a state of its own, and is not
-- called by the model of a handler run. Jobs/History has all their transactions as one step relation,
-- those of a dispatcher pass one by one (Jobs/History/Passes), and their interleavings as `Later`.
-- Jobs/Constraints and Jobs/Steps hold what each transaction does to the constraints and to the rows,
-- and Examples applies the results to concrete data.
--
-- How the state and the operations correspond:
--   - a table is a list of rows, and a database a record of tables. findFirst, updateMany, count,
--     create and upsert are functions on lists (Base/Rows, Jobs/Store);
--   - a transaction is a function of the database, with a Result: an error rolls it back. It reads
--     first and writes later, so where it does both it takes two databases: `seen`, which it reads,
--     and `db`, which its writes meet. In a history `seen` is any earlier database;
--   - fresh identifiers, the time and the random number are arguments. Times are whole milliseconds,
--     and numbers that the database holds are not negative. A JavaScript number that reaches the retry
--     policy from outside is an exact fraction, a negative one, infinite, or not a number;
--   - a worker's handler, its commit callback, the publisher of the queue and the caller's checks
--     before a manual retry are functions that the operations take. `is_uuid_v7` stands for isUuidV7,
--     which rests on the package uuid.
--
-- A response of the provider is a JSON value (Base/Json). Numbers of metrics are exact fractions with
-- the infinities and NaN of a JavaScript number (Domain/Number/Arithmetic); its rounding is not modelled.
-- localeCompare is an argument, an order that ties no two texts of printable ASCII (Base/Text).
-- The number of resamples of the bootstrap, 2000 in the program, and its seed are arguments.
--
-- Two loops run on a count of rounds: apply_token_budget, with as many as there are candidates, each
-- round of which takes one away; and decimal, with 16, enough for the digits of a safe integer. Every
-- other loop goes over a list or counts down a number that it is given.
--
-- Not modelled: logging, telemetry and error reports; faults of the database other than a violated
-- unique key; crash injection in runIdempotentJobHandler, and its wait for a permit of the gate; the
-- cleanup hooks of the sweep reconcileBackgroundJobs, and other writers between its transactions; and
-- the rest of the platform (the answers of strategies, trends, the web application and the queries behind it).
pub mod Base
pub mod Domain
pub mod Errors
pub mod Correlation
pub mod Jobs
pub mod Queue
pub mod Analytics
pub mod Instagram
pub mod Chat
pub mod Strategy
pub mod Examples
