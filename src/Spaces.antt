-- ===== src/Spaces.antt =====
-- backend/src/handlers/space_handler.cpp and the tables it changes.
pub mod Tables
pub mod Requests
pub mod Handlers
pub mod Owners
pub mod Removal
pub mod Ranks
pub mod Examples
