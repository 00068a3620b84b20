-- ===== src/Tests.antt =====
-- Concrete inputs, and each theorem with hypotheses applied at one of them.
mod Fixtures
mod Orders
mod Accounts
mod Records
mod Stock
mod Together
mod Lost
mod Mongo
mod World
mod Serve
mod Whole
mod Shelf
mod Owners
mod Application
mod Startup
mod Setup
mod Launch
