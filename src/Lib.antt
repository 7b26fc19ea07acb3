-- ===== src/Lib.antt =====
-- Verification of reproit-cloud, the service that collects evidence of bugs from running
-- applications, decides what the evidence proves, and follows each bug until its fix holds.
--
-- Parts and files:
--
--   Prelude          results and early returns, lists, orders and sorted sets, integers
--   Text             strings as lists of bytes: equality, order, splitting, decimal numbers
--   Protocol         protocol/src: what applications send
--     Errors         reason codes, scopes, errors and defects (lib.rs)
--     Validators     tokens, texts, hashes, bounded prefixes (lib.rs)
--     Scope          the scope of evidence and its header fields (lib.rs: EvidenceScope)
--     Event          events and their bounds (lib.rs: Event)
--     Frame          a frame's line and the decoder (lib.rs: EventFrame, decode_frame_line)
--     Ledger         the proof ledger and its promotion (lib.rs: ProofLedger)
--     Causal         the causal graph (causal.rs)
--     Environment    the environment's minimization (environment.rs)
--     Artifact       artifact nodes and the evidence graph (lib.rs: ArtifactNode, EvidenceGraph)
--     Batch          deployments and batches (lib.rs: EventBatch)
--   Triage           src/triage: Resolution is resolution.rs, Status the pure part of mod.rs and
--                    `transition` of src/sweep.rs, Regression its latest_post_fix_build, Sweep its
--                    pass over a bucket with the statements of src/db/tenant/triage.rs
--   Tenancy          src/tenancy: Pool is the cache of connection pools (pool.rs), Blob the keys
--                    of stored objects (blob.rs)
--   Ingest           src/ingest: Aggregation is what is stored of a batch (aggregation.rs),
--                    Cohorts the discriminators (cohorts.rs), Replay the steps of a replay
--                    package and Timeline the occurrences of each window (buckets.rs)
--   Captures         src/captures.rs: manifests, and the checks of an upload
--   Security         src/http_security.rs: Origin is the check of origins, Host that of hosts and
--                    the comparison of secrets
--   Jobs             src/jobs: fuzz jobs and their shards
--     Spec           specifications, jobs and shards (mod.rs)
--     Queue          the statements on the tables (src/db/tenant/jobs.rs, src/db/schema.rs)
--     Worker         shard ids, heartbeats, results (worker.rs)
--     Gather         claims across tenants (worker.rs: gather_candidates, claim_across_tenants)
--     Hint           the routing hint among concurrent requests (src/db/control/tenant_registry.rs,
--                    src/lib.rs: submit_job and the sweep, src/operations.rs: run_requeue)
--     Scheduler      the order in which workers claim shards (scheduler.rs)
--
-- A batch holds frames and evidence graphs; a graph's nodes carry ledgers, causal graphs and
-- environment proofs as payloads, and each validator calls those of its parts. A validator is a
-- function into `Result` whose `do` block has the early returns of the source in their order. The
-- modules named Laws, Order, Promotion, Canonical, RoundTrip, Defects, Root, Verdict, Invariant,
-- Interleaving, Recency, Closure, Least, Keys, Validity, Lifecycle, Completion, Finishing, Free,
-- Kept, Claim, Urgency, Log, ShardId, Reply, Cleared, Aligned, Marks, Isolation, Upload, Decision,
-- Equal, Anonymity, Classes and Totals hold the proofs, and the modules named Tests the runs on
-- concrete inputs.
--
-- Numbers: a length is a natural number; a `u64` is one below 2 ^ 64 where a theorem needs it. The
-- sums of the timeline and the times that the scheduler subtracts wrap, as in a release build. The
-- scheduler's scores are `f64` sums of whole numbers and stand as integers, which an argument
-- rounds; epochs are integers.
--
-- A statement of SQL is one function on the tables, since PostgreSQL runs it atomically; a handler
-- that runs several is several steps, and other requests run between them. A row that another
-- transaction holds is a predicate, and a statement that may fail has a fault in its arguments.
--
-- Loops are structural, but for three that run on fuel. `evict` gets the number of entries, which
-- is enough since each round removes one, and stops where the source stops. `visit` gets the number
-- of nodes, each of which is queued once at most; `close` gets the number of requested ids and
-- edges, since an edge queues an id once at most. Spent fuel yields `none`.
--
-- Parameters: `Serde` and `Codec` stand for serde_json, sha2 and hex, `Clock` for chrono, `Json`
-- for what the aggregation makes of values, `Floats` for the `f64` of the cohorts, and arguments
-- for `str::trim` and the parsing of a start time. A pool of sqlx is a type. The settings of the
-- environment are arguments, as is the time.
--
-- Not modelled: the rest of the database, HTTP handlers, mail, integrations, blob storage and the
-- child processes of the embedded workers, which are input and output around the parts above; the
-- rest of ingestion, and the rows and pages of captures.
pub mod Prelude
pub mod Text
pub mod Protocol
pub mod Triage
pub mod Tenancy
pub mod Jobs
pub mod Captures
pub mod Ingest
pub mod Security
