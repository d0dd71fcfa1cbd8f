-- ===== src/Auth.antt =====
-- Authentication, src/specmcp/auth.
pub mod TokenCache
pub mod ClientCredentials
pub mod Injector
pub mod State
pub mod Tokens
pub mod Encryption
pub mod TokenStore
pub mod TtlCache
pub mod LoginNonce
pub mod AuthCode
