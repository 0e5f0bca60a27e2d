-- ===== src/Lib.antt =====
-- Watchkeeper: a service that records the intent of an external effect before it is sent, lets out at
-- most one send for an attempt, and recovers the operations whose outcome is not known.
--
-- The parts of the program and their models:
-- * internal/domain (Domain): the states of an operation and `allowedTransitions` (State), the
--   records that the parts exchange and the errors (Types), and the fingerprints of JSON texts
--   (Fingerprint).
-- * internal/store (Store): the tables of PostgreSQL as lists of records (Rows, Tables), a transaction
--   as a function of the world and the tables (Tx), the statements that the methods share (Queries),
--   and one module for each method: Prepare, Confirm, Dispatch (AuthorizeDispatch), Retry (BeginRetry
--   and RequestReconciliation), Manual (ManualResolve), Results (SubmitRecoveryResult), Claims
--   (ClaimRecovery, RenewClaim), Pages (GetOperation, ListEvents), Listing (ListOperations) and
--   Schema (the checks of readiness). A Go method with an error result is a function to `Result` and
--   the new tables. Calls has one constructor for each method that writes, and `serve`, which runs a
--   list of calls, each in a world of its own.
-- * internal/api/server.go (Api): the server. Http has the statuses and bodies of answers, Payloads the
--   requests as they are decoded, Operations and Recovery one function for each handler, and Server the
--   routes, the tokens and `handle`, a request from end to end over the tables. Every handler calls the
--   method of the store that the code calls, so a list of requests is a list of calls (Calls); Asked
--   says for each endpoint which call a request asks for, and Follows goes through the requests.
-- * pkg/client/client.go (Client): one function for each method of the client, over a `Transport`,
--   which carries a request and its answer, at most 1 MiB of it. Wire joins a client to the server of
--   Api; that the fields of a payload have one name on both sides is a hypothesis there.
-- * internal/config/config.go (Config): Load and Validate, over the environment, the flags and the files.
-- * internal/workflow (Workflow): the worker. It calls the store through the client, sends to the
--   email service and waits, all of it fields of `Service` over a state of the outside (Worker).
-- * internal/recovery (Recovery): the verifier, which reads the replies of the email service (Verify),
--   and the coordinator, which claims operations from the store, verifies each and submits what it
--   saw (Coordinator).
-- * internal/simulator (Simulator): the email service, with its tables: the commit of an effect and
--   the idempotency keys (Email), what is counted (Status), the handler of a send (Server), and the
--   routes of a profile with their tokens and the other handlers (Handlers).
-- * internal/benchmark (Benchmark): the score of a trial (Score), the assertions on a run and the
--   supported cells (Assertions), the checks of a configuration (Config), and the faults of a trial:
--   what a barrier injects, with kills, outages and delays (Fault), the simulator's hook and handler
--   and the supervision of the processes (Fault/Steps). A trial is changed under its lock, so what
--   happens to it is a list of steps.
--
-- The proofs: Store/Ensures has one rule for each way to build a transaction; Store/Changes has the
-- writes that a call may make, as a relation, and one child for each method; Store/Audit has an
-- auditor who reads only the events of an operation, the attempts that they tell of (Attempts), and the
-- lifecycle; Store/Progress has rules for
-- calls that succeed, and what follows of a grant and a confirmation; Store/Refusals and Store/Sizes
-- have the calls that change nothing and the sizes of what is answered, which Api/Refusals and Api/Sizes
-- carry to requests; Store/Pages/Walk follows the cursors of a listing. The modules Tests have runs at
-- concrete inputs.
--
-- Time is a number of microseconds and `now()` is one time for a transaction, as in PostgreSQL. The
-- world of a call says which of its database calls fail and whether COMMIT is done, refused or done
-- with its answer lost. Row locks make the transactions on one row run one after the other, so a list
-- of calls is a list of transactions in the order of their commits; SKIP LOCKED is a field of the
-- world. A transaction that is rolled back gives its event identifiers back, where the sequence of
-- PostgreSQL leaves a gap. Versions and attempt counts are natural numbers with the range of the column as a check,
-- past which a write fails. The one loop that need not end is that of `Execute`: it runs on fuel, a
-- number of rounds, and its theorem is for any number, so also for a run that has not ended; five is
-- the number of rounds in the source of `confirm`. The reader of
-- the pages of events runs on fuel too, a page each: the number of the events and one more is enough.
-- Every other loop is over a list.
--
-- Not modelled: the matching of paths by the router, HTTP, JSON, UUIDs and times as texts, which are
-- parameters where the code depends on them (a path has its identifier parsed, so a text that
-- uuid.Parse takes and PostgreSQL refuses is left out); metrics, access logs and timeouts of the
-- server; the floating-point statistics of the benchmark; the set-up of its runs, its children's code,
-- proxies, files and reports; the programs of cmd; the migrations, and the foreign keys, whose
-- violation is one of the failures of the world.
pub mod Prelude
pub mod Domain
pub mod Store
pub mod Simulator
pub mod Workflow
pub mod Recovery
pub mod Benchmark
pub mod Api
pub mod Client
pub mod Config
