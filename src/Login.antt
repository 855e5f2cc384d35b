-- ===== src/Login.antt =====
-- internal/login: the login flow of the clients, version 2.
pub mod Flow
pub mod Service
pub mod Sql
