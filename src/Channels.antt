-- ===== src/Channels.antt =====
-- backend/src/handlers/channel_handler.cpp and the tables it changes.
pub mod Tables
pub mod Requests
pub mod Handlers
pub mod Lifecycle
pub mod Routes
pub mod Rows
pub mod Steps
pub mod Roles
pub mod Holders
pub mod Admins
pub mod Direct
pub mod Sockets
pub mod Examples
