-- ===== src/Ports.antt =====
-- The storage contract of internal/ports: the records that a store keeps and the errors it reports.
-- An identity or a digest is a string, as in Go. A kernel value that a store only keeps (a state, a
-- world) is the identity that the store reads of it. A time is a number of nanoseconds since Go's
-- zero time, so `time.Time{}` is 0; a context is the error that `ctx.Err()` reports, if any.
pub mod Executions
pub mod Targets
