-- ===== src/Sharing.antt =====
-- internal/sharing: public links and shares with users, groups and remote servers.
pub mod ExpireDate
pub mod Store
pub mod Service
pub mod Access
pub mod Public
pub mod Live
pub mod Invariant
pub mod Contract
pub mod Ownership
pub mod Subtree
