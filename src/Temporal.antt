-- ===== src/Temporal.antt =====
-- internal/semantic/temporal.go: dates and timestamps without Go's `time`.
pub mod Int64
pub mod Civil
pub mod Parse
pub mod Arithmetic
pub mod Sums
pub mod Differences
pub mod Eras
pub mod Days
pub mod Calendar
pub mod Tests
