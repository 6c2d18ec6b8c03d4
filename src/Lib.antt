-- ===== src/Lib.antt =====
-- The verification of content-sources-backend, a service that keeps repositories of packages and works
-- on them in background tasks.
--
-- The core is the queue of tasks (pkg/tasks/queue). Its state is in PostgreSQL; clients enqueue and
-- cancel tasks (pkg/tasks/client), workers dequeue and finish them (pkg/tasks/worker), and a pool of
-- workers requeues what has stopped. Around it stand the parts that decide who may see what
-- (pkg/middleware, pkg/rbac), that answer with errors (pkg/errors), that compare manifests with a
-- catalog (pkg/coverage), and the checks of a repository's URL and labels (pkg/models, pkg/config).
--
-- - Common: names of the libraries and helpers; Common/Texts is what Go's strings package does to texts.
-- - Table: UPDATE, DELETE and SELECT on a list of rows.
-- - Queue/Types: rows, requests and errors (pkg/models/task_info.go, pkg/tasks/queue/queue.go,
--   db/migrations/20230410105610_add_jobqueue.up.sql). Queue/Statements: the SQL texts of
--   pkg/tasks/queue/pgqueue.go. Queue/Transaction: transactions over a connection that may fail at any
--   statement. Queue/Enqueue, Dequeue, Finish, Heartbeats: the methods of PgQueue, under their names in
--   snake case. Queue/Invariant: what holds of the tables between calls. Queue/Lifecycle: an abstract
--   machine for one task, which the queue refines.
-- - ConcurrentMap, Slices: pkg/utils/concurrent_map.go and utils.go.
-- - Worker: pkg/tasks/worker/worker.go as steps; Pool: worker_pool.go; Client: pkg/tasks/client/client.go.
-- - Errors: pkg/errors. Paths: pkg/handler/utils/path.go. Permissions: pkg/rbac/permission_map.go, over
--   the maps of TextMap. Middleware: enforce_identity.go, rbac.go and enforce_consistent_org_id.go of
--   pkg/middleware.
-- - Coverage/Matcher and Coverage/Parser: pkg/coverage. Repository: pkg/models/repository.go.
--   RepositoryConfiguration: what pkg/models/repository_configuration.go does before a row is created.
--   Distributions: pkg/config/value_constraints.go.
-- - Tasks: what the tasks do. Tasks/Effects: actions on a world that keeps what they changed when a later
--   one fails. Tasks/Pulp, PollTask: pkg/clients/pulp_client/task.go and the interface of Pulp.
--   Tasks/DistributionHelper: pkg/tasks/helpers/pulp_distribution_helper.go, with what Pulp promises in
--   Tasks/DistributionHelper/Contract. Tasks/SnapshotHelper, SnapshotRepository, SnapshotPublished:
--   snapshot_helper.go, repository_snapshot.go and update_snapshot_published.go of pkg/tasks.
--   Tasks/TemplateContent, TemplateUpdate, Candlepin: pkg/tasks/update_template_content.go;
--   Tasks/Overrides: pkg/tasks/candlepin_helpers.go. Tasks/Features: pkg/utils/feature_names.go.
-- - Examples: the concrete runs.
--
-- How the code is read. An identifier is a number with 0 for uuid.Nil, a time a number of nanoseconds,
-- a text the list of its code points. A transaction runs at one instant and transactions are serial;
-- rows that others hold locked are a test that dequeueMaybe gets. The database, the clock, uuid.New and
-- uuid.Parse, json.Unmarshal, net/url, lib/pq's scan of an array, the clients of RBAC, Pulp and Candlepin, the reads of the DAOs and
-- the next handler are arguments, as are strings.ToLower and strings.TrimSpace in Coverage and
-- Repository. A connection serves a number of statements and then fails; where a theorem says
-- that a call succeeds, the number is the count of statements that the call sends. The loop of Dequeue
-- runs over the list of what wakes it. Only the loop of PollTask uses fuel, one unit for each call of
-- GetTask, and as many units as there are calls up to the end of the task are enough. PollTask gives a
-- canceled task back as a success, so what is said of distributions supposes that no task was canceled. The priority of a task is a natural
-- number, as the callers give 0 and 1. Text that Finish stores is taken after strings.ToValidUTF8.
--
-- Not modelled: the DAOs, the HTTP handlers and the clients of other services, which are SQL and I/O;
-- the tasks that delete snapshots, repositories and templates, that upload, and that introspect;
-- the listeners on PostgreSQL's channels; logs and metrics.
pub mod Common
pub mod Table
pub mod Queue
pub mod ConcurrentMap
pub mod Worker
pub mod Slices
pub mod Tasks
pub mod Errors
pub mod TextMap
pub mod Paths
pub mod Permissions
pub mod Middleware
pub mod Coverage
pub mod Pool
pub mod Client
pub mod Repository
pub mod RepositoryConfiguration
pub mod Distributions
pub mod Examples
