-- ===== src/Tests.antt =====
-- The theorems at concrete inputs, and the definitions run on small ones.
mod Locks
mod Jobs
mod Webdav
mod Memory
mod Plugins
mod Sharing
mod Login
mod Wopi
mod Calendar
