-- ===== src/Promotion.antt =====
-- internal/promotion: the gate that decides whether a sealed checkpoint may publish to a target.
pub mod Gate
pub mod Evidence
pub mod Clauses
pub mod Regression
pub mod Evaluate
pub mod Decisions
pub mod Coverage
pub mod Cases
pub mod Readiness
pub mod Authorization
pub mod Corpora
pub mod Tests
