-- ===== src/Auth.antt =====
-- app/auth.py: who may call what.
pub mod RateLimit
pub mod InternalKey
pub mod DeviceAuth
pub mod Admin
