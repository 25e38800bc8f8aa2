-- ===== src/Web.antt =====
-- What stands before the REST handlers: backend/src/handlers/handler_utils.h and
-- backend/src/handlers/file_access_utils.cpp.
pub mod Cookies
pub mod Guards
pub mod Bodies
pub mod Files
pub mod Examples
