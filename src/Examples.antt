-- ===== src/Examples.antt =====
-- Concrete runs of the modelled code.
pub mod Stores
pub mod Catalogs
pub mod Handles
pub mod Requests
pub mod Names
pub mod Accounts
pub mod Rows
pub mod Jobs
pub mod Schemas
pub mod Writes
pub mod Answers
