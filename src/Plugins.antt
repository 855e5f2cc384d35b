-- ===== src/Plugins.antt =====
-- The budgets that the plugin host of internal/plugins keeps.
pub mod Handles
pub mod Fuel
pub mod Statements
