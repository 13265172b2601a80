-- ===== src/Lib.antt =====
-- Verification of Hookfly, a relay that turns webhooks of source hosts into deployments.
--
-- The program. A webhook is authenticated, normalized to a canonical event and ingested into a SQLite
-- store; the current configuration generation routes it to targets, one delivery each, and while a
-- reload is under way the event waits in a routing queue that the drainer empties in order. The
-- dispatcher claims one pending attempt at a time, sends it to Dokploy, to an HTTP target or to a
-- forward target, and persists the outcome; the poller follows the deployment that Dokploy reports
-- until it ends or a deadline is reached; operators retry or redeploy through the management API.
-- The manager owns the generation and the reload state machine; its gate orders all of these.
--
-- The model.
-- Base: Booleans, lists, ordering by keys, UPDATE and JOIN on lists of rows, distinct keys.
-- Domain: internal/domain, statuses as constructors in place of their texts.
-- Matcher: internal/matcher (FirstCanonical, Overlaps); Matcher.Overlap its proofs.
-- Store: internal/store over a record of tables, migrations/001_initial.sql. Tables has the rows,
-- the join of deliveries with their current attempts, transactions as results and the audit log.
-- Work is store/work.go up to transitionAttempt, Poll its polls, Recovery the rest of it and
-- store/recovery.go, Attempts store/attempts.go, Routing store/ingest.go, routing.go and
-- history.go, Headers the filter of header credentials in ingest.go, Retention
-- store/retention.go. Recovery.Whole carries the proof about the whole recovery, Retention.Kept
-- the one about what pruning leaves, Routing.Credentials the one about stored headers, and the
-- two modules Once those about what happens once. Invariant says what holds between transactions:
-- keys are distinct, deliveries repeat the statuses of their current attempts, a waiting attempt
-- has recorded nothing of a send, and two deliveries that conflict (same dispatch key, or same
-- target where a key is missing) are never both unbound and under way. Rows, Update, Insert and
-- Touch carry the proofs about changes of the tables.
-- Runtime: internal/runtimecfg. Manager is the reload state machine of manager.go, one function
-- per gate section, their orders in Manager.Steps, with what holds in the reachable states in
-- Manager.Lifecycle and the replacement of the generation in Manager.Swaps; Target what the
-- workers read of a target and a binding. Urls are the canonical URLs of dokploy and httptarget,
-- Snapshot and Resolve binding.go with the fingerprints, Compile the targets of compileBundle,
-- and Compatibility the proof about both; Generation is compileBundle over these, with the digest
-- in Digest, and Totality the proof that it routes.
-- Dokploy: FindDeployment, FindDeploymentAfter and LatestDeploymentID of internal/dokploy/client.go.
-- Worker: internal/worker, the rounds of Dispatcher, Poller and Drainer (with Generation.Route).
-- Service: Execute of internal/service/attempts.go.
-- Redact: internal/redact/json.go.
-- Config: internal/config. Bundle is types.go; Checks, Values and Http the checks of single values,
-- Sources, Targets, Routes and Tunnels those of the documents, and Validate the whole of
-- ValidateAndCanonicalize in validate.go, with ssh.go. Priority, References and Exposure carry the
-- proofs about a validated configuration.
-- Webhook: internal/publichook/handler.go (Handler, Identity, Framing), the payloads and adapters of
-- internal/provider, github, gitlab and harbor (Provider, Github, Gitlab, Harbor), and the source of
-- internal/runtimecfg/generation.go (Source); Answers, Acceptance and Authentic carry the proofs.
-- Examples: databases, a configuration, webhooks, targets and routes, and the theorems at these.
--
-- How it corresponds. A transaction is a function from tables to a result; a failed one leaves the
-- tables to the caller as they were. Times are milliseconds and identifiers are numbers; the
-- identifiers still to be drawn are a stream of the database, and a drawn one that is taken fails
-- as the primary key does. Each model function is structural on a list or a value; the rounds of the
-- drainer count a number, and one more than the queued events are enough. An `int` of the
-- configuration is its offset from the least one, which keeps order and equality.
-- Parameters stand for what the Go library or a remote side does: splitting a description into
-- fields, URLs, addresses, regular expressions, hashes and signatures, building the token of an
-- attempt, the deployment history, the outcome of a send, clock readings, the decoding and encoding of
-- JSON, key normalization, and, for the workers, the binding of a historical snapshot to a target.
--
-- Not modelled: failures of the SQL driver, the table of pipeline observations, collisions of audit
-- identifiers, cancellation, terminal hooks, loops that only wait on timers and channels, the handlers
-- and sessions of the management API, the discovery and the YAML decoding of configuration files, the
-- construction of clients, network clients and SSH tunnels, and read-only queries.
pub mod Base
pub mod Config
pub mod Domain
pub mod Matcher
pub mod Store
pub mod Runtime
pub mod Dokploy
pub mod Worker
pub mod Service
pub mod Redact
pub mod Webhook
pub mod Examples
