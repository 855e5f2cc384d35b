-- ===== src/Jobs.antt =====
-- The jobs package: the table of queued jobs and the runner that works it off.
pub mod Store
pub mod Runner
pub mod Claim
pub mod Periodic
pub mod Unknown
