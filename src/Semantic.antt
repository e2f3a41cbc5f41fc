-- ===== src/Semantic.antt =====
-- internal/semantic: the scalars, schemas, states and patches of the semantic kernel.
pub mod Value
pub mod Graph
pub mod Schema
pub mod State
pub mod Patch
pub mod Apply
pub mod Undo
pub mod Fields
pub mod Equality
pub mod Images
pub mod Steps
pub mod Proper
pub mod Observed
pub mod Reversal
pub mod WellFormed
pub mod Consistent
pub mod Ready
pub mod Runs
pub mod Acceptance
pub mod RoundTrip
pub mod Tests
