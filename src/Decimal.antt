-- ===== src/Decimal.antt =====
-- internal/semantic/decimal.go: exact decimal numbers, the source's scalar type `decimal`.
pub mod Digits
pub mod Number
pub mod Value
pub mod Parse
pub mod Carries
pub mod Products
pub mod Normal
pub mod Orders
pub mod Scales
pub mod Signed
pub mod Addition
pub mod Multiplication
pub mod Tests
