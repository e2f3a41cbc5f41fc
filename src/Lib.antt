-- ===== src/Lib.antt =====
-- A model of Maiden Lane's core in Go, and what is proved of it.
--
-- Maiden Lane runs customers' rules over logistics state and publishes what it produced only through
-- a gate. A request to run is an execution: it is queued, a worker claims it under a lease, runs it,
-- and reports one outcome. What a run sealed is a checkpoint, an assessment says whether it is ready
-- under a profile, and the promotion gate decides from both, and from a comparison with what is
-- published now, whether a target may get it. A publication is then the next version of its target.
-- Every one of these things is named by a hash of its canonical bytes, which the gate verifies again.
--
-- The parts of the program and the files that model them:
--
-- - Ports: the records of internal/ports/storage.go, policies.go and publications.go. A context is the
--   error that it reports at the moment of the call, if any.
-- - Memory.Entries and Memory.Queue: the state and the methods of the execution store of
--   internal/adapters/memory/store.go. `Enqueue`, `Claim`, `Complete`, `Fail`, `Reattempt` and `Get` are
--   functions from the state to the state and the answer; `Memory.Queue.Histories` runs any sequence of
--   them. The method's lock makes a call one step, and concurrent callers are an arbitrary order of
--   steps. `time.Now` is a number that the step is given, a lease is a length of time from it, and the
--   attempt token is a uint64 with its wrap. The three loops are recursions over the order of
--   insertion. `cloneExecutionResult` is the value itself.
-- - Memory.Versions: internal/adapters/memory/policies.go and publications.go. Both append versions
--   to a target in the same way, and `Memory.Versions` does it for any record with a target, a version
--   and a validation: `policy_kind` and `publication_kind` are the two.
-- - Memory.Plans: the write-once plans of internal/adapters/memory/store.go; what a record holds of
--   the kernel is a parameter. Memory.Artifacts: the stores of corpora and comparisons, corpora.go and
--   comparisons.go beside it, in the same way.
-- - Canonical: the encoder of internal/semantic/canonical.go, the identities that the gate verifies, and
--   the verifiers of binding.go, checkpoint.go and corpus.go beside it. Strings and buffers are lists of
--   bytes, an encoder with an error is `none`, and SHA-256 is the parameter `hash`, of which nothing
--   is assumed, except where a theorem says so; none says that it has no collision.
-- - Promotion: internal/promotion. `Gate` has the verdicts and the decision, `Evidence` the candidate,
--   `Clauses` and `Regression` the nine clauses (evaluate.go, backend_certification.go, comparability.go,
--   metric_regression.go), and `Evaluate` the whole gate. A Go map of clause results is a function.
-- - Decimal: internal/semantic/decimal.go. `Digits` has the routines on digit strings, `Number` the type
--   `decimal` and its operations. A loop from the last digit to the first is a recursion that does the
--   tail first. `Parse` reads a decimal. Printing and division are not modelled.
-- - Temporal: internal/semantic/temporal.go, and `addInt64` of evaluate_expr.go. `Parse` reads dates and
--   timestamps with Go's `ParseInt` and `TrimSpace` written out in Base.Scan, `Civil` is the calendar, and
--   `Arithmetic` has sums and differences. An `int64` is an exact integer with its range, and `wrap` of
--   `Int64` is what it keeps of a sum or a product. `Sums`, `Differences` and `Calendar` prove what they do.
-- - Semantic: the state of the kernel. `Value` is internal/semantic/value.go, `Graph`, `Schema` and `State`
--   are state.go, `Patch`, `Apply` and `Undo` are patch.go; the encodings are those of canonical.go. A Go
--   map of fields is a list in the order of the names, and a sorted slice is the result of an insertion
--   sort by the same comparison. `NewState`, `NewPatch`, `ApplyPatch` and `UndoPatch` are functions with
--   the checks in the source's order; an error is a constructor, without its text.
-- - Worker: internal/worker/worker.go on the queue of Memory.Queue: `RunOnce`, `attempt` and the functions
--   it calls. What the plan store, the binding of a run and the runner answer is an environment, of which
--   nothing is assumed; each of these calls may panic, which `attempt` recovers.
-- - App: `Project` of internal/app/project.go, which the worker applies to the result of a run. What the
--   accessors of the result answer is a record.
-- - Base: what the parts share; byte strings, association lists for Go maps, results and
--   tests, integers, orders and sorting by a key.
--
-- Every loop is structural recursion on a list or a scale, so no model needs fuel. Integers that
-- count list entries are unbounded; the attempt token and the version numbers are taken modulo 2 ^ 64,
-- and a theorem that needs them not to wrap says so.
--
-- Not modelled: the rule language, the compiler and the executor of rules (internal/dsl, most of
-- internal/semantic: expressions, groups, compilation, journals and profiles), the transpiler, the
-- worker's polling loop, its logs and spans, the application services, the PostgreSQL adapter, HTTP,
-- metrics and the commands.
pub mod Base
pub mod Ports
pub mod Memory
pub mod Canonical
pub mod Promotion
pub mod Decimal
pub mod Temporal
pub mod Semantic
pub mod App
pub mod Worker
