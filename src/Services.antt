-- ===== src/Services.antt =====
-- The services that the routes call.
pub mod Vector
pub mod Imports
pub mod Coordination
pub mod Collections
pub mod Users
pub mod Aliases
pub mod Roles
