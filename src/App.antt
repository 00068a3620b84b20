-- ===== src/App.antt =====
-- The application around the handlers (app/app.go, app/server.go).
pub mod Admin
pub mod Limits
pub mod Routes
pub mod Start
pub mod Keys
pub mod Version
pub mod Setup
pub mod Launch
