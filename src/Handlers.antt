-- ===== src/Handlers.antt =====
-- The HTTP handlers (the Go package handlers).
pub mod Middleware
pub mod Auth
pub mod User
pub mod Record
pub mod Inventory
pub mod Order
