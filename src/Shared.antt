-- ===== src/Shared.antt =====
-- core/shared: errors, time, texts, `Duration` and `DomainName`.
pub mod Text
pub mod Sorting
pub mod Decimal
pub mod Duration
pub mod DomainName
pub mod Errors
pub mod Gives
pub mod Exec
pub mod Time
