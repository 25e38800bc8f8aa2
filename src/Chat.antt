-- ===== src/Chat.antt =====
-- Messages in channels: the handlers of backend/src/ws/ws_handler.cpp that write to the database, and
-- the part of backend/src/db/database.cpp that they call.
pub mod Store
pub mod Mentions
pub mod Events
pub mod Post
pub mod Moderate
pub mod Examples
