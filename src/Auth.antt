-- ===== src/Auth.antt =====
-- Credentials: backend/src/auth.
pub mod Base32
pub mod Totp
pub mod Base64url
pub mod Cbor
pub mod WebAuthn
pub mod Examples
