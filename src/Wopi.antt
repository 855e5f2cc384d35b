-- ===== src/Wopi.antt =====
-- internal/wopi: the protocol of the office servers on top of the locks.
pub mod Names
pub mod Tokens
pub mod Handler
pub mod Serve
