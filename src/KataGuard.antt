-- ===== src/KataGuard.antt =====
-- internal/kataguard: the guard of the VM launches.
pub mod Launch
pub mod Profiles
pub mod Ledger
pub mod Samples
pub mod Records
