-- ===== src/Uploads.antt =====
-- Chunked uploads: backend/src/upload_manager.cpp over backend/src/storage.
pub mod Storage
pub mod LocalFs
pub mod Bytes
pub mod Manager
pub mod Examples
