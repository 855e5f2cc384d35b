-- ===== src/Webdav.antt =====
-- The webdav package: lock tokens and timeouts of the LOCK headers, conditional requests.
pub mod LockToken
pub mod Timeout
pub mod Cond
pub mod Memory
