-- ===== src/Lib.antt =====
-- arrower: a Go framework for web applications, and the parts of it whose behaviour is decided by its
-- own code.
--
-- Parts.
--   * arepo/: a generic repository. `MemoryRepository` (arepo/inmemory.repository.go) keeps entities in
--     a map by ID and writes the whole map to a `Store` after each change; when the store fails it
--     rolls the map back. Arepo/Errors.antt has the errors of arepo/repository.go, Arepo/Query.antt the
--     conditions of arepo/q/query.go and `fieldName`, and Arepo/Memory/ the repository: State (the
--     struct, `getID` as `Schema`, the store as `Store`), Reads (All, Exist, ExistAll, FindByID,
--     AllByIDs, Count), Writes (Create, Update, Delete, Save), Batch (SaveAll, UpdateAll, AddAll,
--     DeleteByIDs, DeleteAll), Filter (AllBy, FindBy) and NextId (NextID). The proofs stand in Valid
--     and Invariant (the invariant and its lemmas), Preserve, Single, Many, Lookups, FilterLaws and
--     Refinement. Arepo/Builder.antt builds queries (arepo/q/query.go) over the arrays behind their
--     slices, and Arepo/Aliasing.antt proves which conditions they have.
--     The tenant repository (arepo/inmemory-tenant.repository.go), which keeps such a map for each
--     tenant, is in Arepo/Tenant/: State (the struct, ensureTenantInitialised), Methods (one function
--     for each method, NextID in NextId), and Commands (the calls that write, and what one tenant sees
--     of them); the proofs are in Refinement, Isolation and Drawn.
--   * setting/: typed settings. Setting/Strconv.antt is what is used of Go's strconv, by its documented
--     behaviour on base 10; Setting/Value.antt is `Value` and `NewValue`, Setting/Convert.antt the
--     methods that convert a `Value` (setting/settings.go); Setting/Memory.antt is `InMemorySettings`
--     (setting/inmemory.settings.go), which is built on the repository of arepo/. Setting/RoundTrip.antt
--     and Setting/Texts.antt prove what a value becomes on its way through a setting.
--   * contexts/auth/: users. Auth/User.antt and Auth/Name.antt are internal/domain/user.business.go;
--     Auth/Services.antt the services that authenticate, register and verify users
--     (internal/domain/*-user.business.go), which read settings; Auth/Repository.antt and
--     Auth/Pages.antt the user repository (internal/interfaces/repository/
--     user.inmemory.repository.go), which embeds that of arepo/; Auth/UseCases.antt the handlers of
--     internal/application/. Auth/Access.antt, Auth/Flows.antt and Auth/Listing.antt prove what they
--     guarantee. Auth/Middleware.antt has the middlewares (contexts/auth/auth.mw.go), whose context
--     the logger and the queue read; Auth/Guards.antt proves who gets past them.
--     Auth/Controllers.antt and Auth/Impersonation.antt are the controllers that write the session
--     (internal/interfaces/web/), Auth/SignedIn.antt what the next request may do with it.
--     Auth/SessionStore.antt keeps the session in Postgres (contexts/auth/pg.session.store.go);
--     Auth/Stored.antt proves what a later request finds of it.
--   * jobs/: the queue of background jobs. Jobs/Memory.antt is `MemoryQueue` (jobs/inmemory.go), one
--     function for each stretch of code under its lock; Jobs/System.antt has the steps of all who use
--     it at once, in any order, with the calls of job functions between two steps and a history of the
--     jobs. Jobs/Conservation.antt and Jobs/Order.antt prove what becomes of the jobs.
--     Jobs/Postgres/ is `PostgresJobsHandler` (jobs/postgres.go): Lifecycle has the registrations, the
--     timer and the start and stop of the workers, as steps in any order; Payload has Enqueue and what
--     a job is in the database, Worker what is done with it when it is locked (gueWorkerAdapter), History
--     the history of jobs with the statements of jobs/query.sql. The proofs are in Running, Starting,
--     Enqueued, Carried and Recorded.
--   * alog/: Alog/Logger.antt is the logger that decides whether a record is logged and gives it to all
--     handlers (alog/arrower-logger.go), Alog/Batches.antt the batches of the Postgres handler
--     (alog/postgres-handler.go); the proofs are in Alog/Delivery.antt and Alog/Saved.antt.
--     Alog/Records.antt is how that handler renders a record (`Handle`, `render`), Alog/Stuck.antt what
--     its buffer does to the records.
--   * renderer/: pages from layouts, pages and components. Renderer/Name.antt has the names of templates
--     and the key of the cache, Renderer/Views.antt the state, `New` and `AddContext`,
--     Renderer/Data.antt the data of a page, Renderer/Render.antt `Render` (renderer/renderer.go);
--     Renderer/Echo.antt is the context of a path (renderer/echo-renderer.go). Keys, Plain, Cached and
--     Added have the lemmas, Transparent, Confused, Merged and Parsing the proofs.
--   * arrower/: the command line tool. Tool/Files.antt and Tool/Watch.antt are the files that are
--     watched (arrower/internal/detect-file-changes.business.go, pathinfo.go), Tool/Generate.antt the
--     generator of use cases (arrower/internal/generate/generate-usecases.go), Tool/Build.antt and
--     Tool/Cycle.antt the loop that builds, runs and stops the app
--     (arrower/internal/build-run-app.business.go, detect-build-run-app.business.go); Tool/Bursts.antt,
--     Tool/Naming.antt and Tool/Apps.antt prove what they do.
--   * contexts/admin/: Admin/History.antt is how an administrator prunes the history of jobs by age
--     (internal/application/prune-job-history.usecase.go, internal/interfaces/web/jobs.controller.go and
--     the statements of internal/interfaces/repository/query.sql), with strconv.Atoi in
--     Admin/Atoi.antt; Admin/Truncate.antt is how it is pruned in the background
--     (internal/application/prune-job-history-cron.usecase.go). Admin/Pruned.antt and Admin/Newest.antt
--     prove which rows are left.
--   * app/: use cases are handlers with decorators around them. App/Handler.antt has the interface and
--     `commandName` (app/handlers.go), App/Instrumented.antt the decorators that log, measure and trace
--     (app/logger.decorator.go, metric.decorator.go, tracer.decorator.go), App/Guarded.antt validation
--     and the transaction (validation.decorator.go, tx.decorator.go). The proofs are in App/Nesting.antt
--     and App/Guarantees.antt.
--   * Base/ has what the parts share, and Tests/ runs the definitions and the theorems on small inputs.
--
-- Conventions. A Go map is an association list without an order that the code could rely on: where the
-- code ranges over a map, the model takes one order, and no theorem depends on which one it is, but
-- through the entity that a lookup by another field meets first. A method is a function of the state
-- before it that gives its result and the state after it; each holds the lock from beginning to end, so
-- that calls by several goroutines are sequences of such steps (AddAll is the exception: it takes the
-- lock again for every entity, and is modelled as if nobody came in between). An error is a value, and
-- a panic is `none` or `panic`. Texts are lists of bytes, or of runes in Auth/Name.antt, Renderer/ and
-- Tool/; integers have the width of the source, `int` and `uint` 64 bits, with the wrap written
-- out. A method of the renderer is likewise one step, over the cache that the requests share.
--
-- Fuel. Only `format_digits`, which writes a number's digits from the last to the first, has any: it is
-- given one more than the number, which has fewer digits than that; the round trips prove that it is
-- enough.
--
-- Parameters: the libraries gue and gueron, database transactions, the validator, the tracer and
-- the pool of connections of a decorator, time, location and floating-point parsing and formatting,
-- JSON, bcrypt, mail addresses, new UUIDs, html/template, the codecs of session cookies, the
-- encoding of log records, the commands that the tool runs, the sizes of tables, the splitting of
-- camel case and the title case of words, the file system as the generator sees it, the IP
-- resolver, the queue as the use cases see it, cron and the names of job types, `reflect` on the
-- fields of an entity, the case mapping of runes, and the store of a repository. What a theorem
-- needs of one is among its hypotheses.
--
-- Not modelled: what is done by SQL (the postgres repositories) but the statements on the history
-- of jobs and on sessions, the other HTTP handlers, the texts of templates, the handlers behind
-- logging, tracing and metrics but the Postgres one, the command line tool but watching, building
-- and generating, the admin's pages but the pruning, and the wiring of the parts; AllIter and the
-- options of the repository; birthdays and devices; the durations that are measured, and a handler
-- that panics.
pub mod Base
pub mod Admin
pub mod Arepo
pub mod Setting
pub mod Auth
pub mod Jobs
pub mod App
pub mod Alog
pub mod Renderer
pub mod Tool
pub mod Tests
