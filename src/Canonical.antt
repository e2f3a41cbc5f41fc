-- ===== src/Canonical.antt =====
-- internal/semantic/canonical.go: the canonical encoder and the identities that are hashes of what it
-- writes. Strings and buffers are lists of bytes; an encoder whose error is set is `none`.
pub mod Strings
pub mod Encoder
pub mod Identities
pub mod Prefix
pub mod Unique
pub mod Tests
