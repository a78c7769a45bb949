-- ===== src/Auth.antt =====
-- src/auth: sign-on for the web UI over OpenID Connect.
pub mod Config
pub mod Session
pub mod Provider
pub mod Middleware
pub mod ReturnPath
