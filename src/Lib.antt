-- ===== src/Lib.antt =====
-- The snippet service, its search, the background jobs, the rate limiter, the probes and the middleware
-- of swiftpaste, and what they do to their stores.
--
-- The program is a FastAPI application. A route calls a function of app/services/snippet_service.py,
-- which works on PostgreSQL through a SQLAlchemy session, on a cache in Redis, and on a queue of jobs in
-- Redis that app/jobs/queue.py fills. A scheduler and a worker (app/jobs/scheduler.py,
-- app/jobs/worker.py) move the jobs between lists of Redis and run them. Routes stand behind a token
-- bucket for each caller (app/rate_limiter/), which a Lua script keeps in Redis.
--
-- Files:
-- - Prelude, with Prelude/Int, Prelude/Text, Prelude/Split and Prelude/Lists: Boolean tests on native
--   numbers, integers over them, decimal numerals, the search for a text in a text, str.split on a colon,
--   and the ends of a list.
-- - Core/Config and Core/Origins: the Settings of app/core/config.py, and parse_allowed_origins.
--   Core/Errors: AppError, the classes of exceptions, a Result that is a value or an exception, and the
--   handlers of app/core/exception_handlers.py.
-- - RateLimit: token_bucket.lua as a function of the stored hash. RateLimit/Access: rate_limiter and
--   rate_limit, over the interface Hashes. RateLimit/Bound and RateLimit/Shared: one bucket, and many
--   callers on one store. RateLimit/Model: hashes in memory.
-- - Jobs/Store: a job, and the interface JobStore, the lists and the sorted set of Redis that the jobs
--   are in. Jobs/Queue: enqueue, dispatch_scheduled_jobs, enqueue_initial_job. Jobs/Worker: the worker.
--   Jobs/Recover: recover_stuck_jobs of app/jobs/tasks.py. Jobs/Dispatch, Jobs/Initial, Jobs/Retry,
--   Jobs/Running and Jobs/Stuck: their proofs. Jobs/Keeps and Jobs/Backlog: what the worker keeps if its
--   tasks do, and the order in which it takes jobs. Jobs/Interleaved: any number of workers, recoveries
--   and schedulers, one command at a time; Jobs/Places, Jobs/Kept and Jobs/Conserved: the proofs about
--   it. Jobs/Model: a JobStore in memory.
-- - Tasks: TASKS of app/jobs/tasks.py, the five tasks over one world. Tasks/Pushes and Tasks/Hidden: what
--   they do to the queue and to deleted snippets. Tasks/Created, Tasks/Found and Tasks/Deleted: from a
--   creation or a deletion to the end of its job, and to a search.
-- - Search: tokenize, index_snippet and remove_index, over the interface IndexStore. Search/Index: their
--   proofs. Search/Results: search_snippets, over PageStore, the kept pages, and Finder, the set
--   intersection of Redis and the text search of PostgreSQL. Search/Pages, Search/Finds, Search/Counts
--   and Search/Repeats: its proofs. Search/Model: an IndexStore in memory.
-- - Expiry: cleanup_expired and _resolve_legacy_short_ids of app/jobs/tasks.py, over the interface
--   ExpiryStore. Expiry/Keys and Expiry/Cleanup: their proofs. Expiry/Model: an ExpiryStore in memory.
-- - Views: increment_snippet_views and flush_views_to_db, over the interface ViewStore. Views/Gains,
--   Views/Flush and Views/Arrivals: their proofs. Views/Model: a ViewStore in memory.
-- - Health: app/services/health_service.py and the probes of app/api/v1/routes/health.py. Health/Probes:
--   their proofs.
-- - Middleware: app/core/middleware, with app/metrics/request_metrics.py. Middleware/RequestIds and
--   Middleware/Uncounted: their proofs.
-- - Queries: the two listeners of app/metrics/db_metrics.py. Queries/Observed: their proof.
-- - Logs: JsonFormatter of app/core/logging.py. Logs/Fields: its proof.
-- - Models: the rows of app/models, the bodies of app/schemas and the soft delete of
--   app/db/soft_delete.py.
-- - Snippets/Backend: the interface of the session, the cache and the sorted set of expiries.
--   Snippets/Common: the world of the service and its selects. Snippets/View: snippet_out_view and
--   get_snippet_cached. Snippets/Update: create_new_version and update_snippet. Snippets/Create:
--   create_snippet. Snippets/Delete: delete_snippet and snippet_out_url. Snippets/Listing:
--   get_all_snippet, over the interface Listing; Snippets/Listed: its proof. Snippets/ShortId:
--   generate_short_id of app/utils/dep.py. Snippets/Access, Snippets/Retries, Snippets/Caching,
--   Snippets/Versions, Snippets/Updates, Snippets/Leaks, Snippets/Creates and Snippets/Shares: their
--   proofs. Snippets/Consistent, Snippets/Grown, Snippets/Keeps and Snippets/Steps: what it is for the
--   two tables to agree, and the operations as sequences of writes. Snippets/Documents: what the service
--   promises, as edits of a document; Snippets/Refines, Snippets/Edits, Snippets/Amends and
--   Snippets/Replays: the proofs about it. Snippets/Model: a Backend in memory.
-- - Routes: the routes of app/api/v1/routes/snippet.py that create, update, delete, share, view and, in
--   Routes/Searching and Routes/Listing, search and list, each behind the limiter, for requests that
--   FastAPI and fastapi-users let through to them. Routes/Limited and Routes/Updating: their proofs.
--   Routes/Statuses: what it is to answer with one of some statuses.
-- - Bodies: the bodies of app/schemas/snippet.py with the bounds of their fields, the CHECK constraints
--   of app/models/snippet.py, and the routes behind the check of their bodies. Bodies/Bounds,
--   Bodies/Checks and Bodies/Windows: their proofs.
-- The files named Tests and Examples, and Snippets/Pages, hold runs at concrete inputs.
--
-- Conventions. A function that awaits is a function on the state that it reads and writes; what it writes
-- before it raises stays in the state beside the exception. The clock, UUIDs and short ids are arguments.
-- A time is a number of milliseconds, and of whole seconds where the code takes int(time.time()); the
-- clock of the rate limiter is an integer, for it may go back, and stands beside that of Redis, by which
-- hashes expire. PostgreSQL and Redis are interfaces whose laws say what a command does to what can be
-- read afterwards. In Backend a command of the cache may raise, and so may the LPUSH of the job after a
-- creation (`raises` of JobStore); a commit, or any other command on the jobs, the sets, the kept pages,
-- the counters and the buckets, answers. A version in a path is a number from 0, and one that
-- PostgreSQL's Integer does not hold ends in DBAPIError; a negative one, for which there is no row, is
-- left out. Each operation of the service runs in its own session without another one between its steps;
-- the commands on the jobs interleave in Jobs/Interleaved; a task gets its clock, its UUIDs and the views
-- of other clients by the number of its run; a flush of the views takes the views that other clients
-- count before its last command. A call of a probe is its answer and the milliseconds that it takes. What
-- str.strip takes away, str.lstrip, str.lower, str.upper, re.findall and int are parameters where the
-- code calls them, as are the allocation of UUIDs and the parsing of them.
--
-- Bounds. create_snippet has the two rounds of its loop. The worker and the scheduler run for ever: a
-- round is a function, and the worker runs for a given number of rounds, one for each job that it takes.
-- Waiting times have no effect on the state and are left out.
--
-- In TaskWorld each task has a store of its own: the cached strings that cleanup_expired deletes are
-- those of its store. In Listing the rows of the table are a list, which PostgreSQL sorts at each query.
--
-- Not modelled: the types of the JSON values in a request body, which FastAPI checks; authentication and
-- the schemas of users, which are the code of fastapi-users; setup_logging, one call of logging.config;
-- the construction of clients and of the application; the migrations.
pub mod Prelude
pub mod Core
pub mod RateLimit
pub mod Jobs
pub mod Models
pub mod Snippets
pub mod Search
pub mod Expiry
pub mod Views
pub mod Health
pub mod Middleware
pub mod Queries
pub mod Logs
pub mod Bodies
pub mod Tasks
pub mod Routes
