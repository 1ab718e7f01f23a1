-- ===== src/Lib.antt =====
-- The crawler's queues, lease tokens and chunker.
--
-- The registry keeps its state in a relational database and hands work to workers under leases. A
-- crawl worker reserves URLs, heartbeats, and reports a result or a failure; external task workers do
-- the same with processing tasks, and embedding workers with the chunks of a document. A token that
-- the registry signs names the lease; the raw token stands in the row, and every later call matches
-- it. A sweep takes expired leases back. Documents are cut into chunks in token space.
--
-- Files, and the code that they model (paths from the repository's root):
--   Prelude: shared names, Boolean tests, lists and byte strings.
--   Store: the database. Store/Sql.antt has SELECT, UPDATE, DELETE, COUNT and ORDER BY over lists of
--     rows, Store/Rows.antt the rows of internal/infra/db/gormrepo/models.go and models2.go,
--     Store/World.antt the statements and WriteTX of internal/infra/db/rwdb/rwdb.go, Store/Laws.antt
--     the rules by which a property of the tables passes through statements and transactions.
--   FrontierRepo: internal/infra/db/gormrepo/frontier_repo.go and internal/domain/frontier. Queue has
--     Enqueue, EnqueueMany, Heartbeat, Complete, Fail, RequeueByFilter, SweepExpired and the reads;
--     Pick the SELECT of Reserve, with politenessSQL; Reserve its transaction; Domains the DomainRepo
--     operations; Calls all calls as data, Lifecycle the abstract queue that they refine. The other
--     modules hold the proofs.
--   ProcessingRepo: internal/infra/db/gormrepo/processing_repo.go. Queue has the intake and the
--     in-process worker's calls (ClaimNext, MarkDone, MarkFailed, MarkSkipped), Leases the external
--     workers' (ReserveBatch, Heartbeat, Complete, Fail) and the operator's.
--   ChunkRepo: internal/infra/db/gormrepo/chunk_repo.go. Rows has InsertMany and ReplaceByDocument,
--     Leases the embedding queue, Reads the queries.
--   LeaseSigner: internal/infra/lease. Token has Sign, Verify, Raw and their variants for chunks and
--     tasks; Service the Heartbeat and AcceptFailure of internal/app/service.go.
--   Dispatcher: internal/app/dispatcher.go: the cached triggers, and the tasks that they enqueue.
--   Workers: Can of internal/domain/workerid/worker.go, CountHeldLeases of
--     internal/infra/db/gormrepo/worker_repo.go, and internal/infra/http/policy.go.
--   Http: internal/infra/http. Hex has the encoding of hashes, Auth the authentication, Replies the
--     statuses of errors, Jobs, Tasks and Embed the workers' handlers, Reads those of reads.go and
--     blobs.go. Admitted holds a proof about Auth.
--   Repos: the other repositories of internal/infra/db/gormrepo: lake_repo.go (Lake),
--     extraction_repo.go (Extraction), collection_config_repo.go with the resolver of
--     internal/app/collection_config.go (CollectionConfig), capability_repo.go (Capabilities),
--     triggers_repo.go (Triggers) and worker_repo.go (Workers).
--   Urls: internal/infra/urls/canonical.go.
--   Services: internal/app. Collections has collection.go; Pipeline the executors and the drain of
--     pipeline.go; Firing the Fire of dispatcher.go with its reading of the table; Storage storageKey
--     and extFor, Crawl the other operations of service.go; Tasks tasksvc.go; Embed embed.go; Rechunk
--     rechunk.go; Mover migrator.go; Fts fts.go. Drain, Rechunk, Scope and Again hold proofs.
--   Chunker: Split of internal/infra/pipeline/chunker/chunker.go, over any tokenizer.
--   Examples: runs of the model at concrete inputs.
--
-- How the code is modelled. An operation is a function from a world to a result and a world: the
-- tables, and a list of faults that says which of the coming statements the driver refuses (a lost
-- connection, a busy lock, a failed commit). A theorem over all worlds covers every place where a
-- statement can fail. Transactions run one after another, and a history is a sequence of calls: this
-- is what the write pool of SQLite, which has one connection, does. The write pools of Postgres and
-- MySQL have several connections, and what interleaved transactions do there is not modelled. The reading of the clock is an argument of each call, and the reading of the database's own
-- clock another; an operation that reads the clock twice is given one reading. Instants are whole
-- microseconds. Priorities, delays, limits and batch sizes are natural numbers, 0 standing for any
-- number that is not positive.
--
-- What is assumed of the code that is not here: an UPDATE reports the rows that its WHERE clause
-- matched (the MySQL driver does so with clientFoundRows, and without it reports the rows that
-- change); a comparison of a BOOLEAN with a number is an error on Postgres; the ORM refuses an UPDATE without a WHERE clause, and inserts a batched list of rows in one
-- transaction; ids are given by counters that only grow. Foreign keys are not modelled: an insert
-- that they refuse is a fault. What the queries leave open is a parameter: the order of equal rows
-- (Engine, any permutation), LIKE, and the signing function of the repositories. The cryptographic
-- and encoding packages are a parameter of LeaseSigner with the laws of IsCrypto: digests of 32
-- bytes, and an encoding that decodes.
--
-- Fuel: the loop of Split runs on one more unit than the text has tokens; each round moves the start
-- by at least one token, since the core size is positive after the defaults, and the results for
-- every index show that the fuel is enough. The drain of the in-process worker runs on any fuel: it is
-- enough if it is above the attempts that the queued tasks have left. So does Rechunk, for which the
-- number of the collection's documents is enough. The mover takes pages while it has fuel, and
-- answers `none` when that is used up. All other loops are structural.
--
-- Parameters of the services: what a task or a call reads from outside the tables is one record (Run,
-- Reads): the clock, random bytes, the blob under a key, the HTML library. The blob store (Blobs), the
-- vector store (Qdrant), net/url with sort and strings (Net), JSON (Codec, CapsCodec) and ORDER BY on
-- a text column are parameters too, with no law assumed; what they fail with is `external`. A panic
-- is the error `panic`.
--
-- Simplified: EnqueueMany's count beside an error is dropped, and so is the id that AcceptBlob returns
-- beside an error. The optional full-text mirror of the pipeline and the task service is not set: it
-- writes to another service and answers nothing. A hash that has not 32 bytes makes ReserveJobs panic
-- in the signer; the model signs it with an empty token. A handler's body, form and query come
-- parsed, and the message beside a status's code is dropped. Not modelled: the commands, the routes,
-- the clients of other services and the blob stores, which are I/O; vector search; the ticker of
-- Pipeline.Run. JSON decoding and lower-casing are parameters of
-- Dispatcher, whose locks are not modelled: its calls come one at a time.
pub mod Prelude
pub mod Store
pub mod FrontierRepo
pub mod ProcessingRepo
pub mod ChunkRepo
pub mod Chunker
pub mod LeaseSigner
pub mod Http
pub mod Workers
pub mod Repos
pub mod Urls
pub mod Services
pub mod Dispatcher
pub mod Examples
