-- ===== src/Files.antt =====
-- The files package: paths, the lock table, WebDAV locks and WOPI locks.
pub mod Path
pub mod LockStore
pub mod Lock
pub mod LockCheck
pub mod WopiLock
