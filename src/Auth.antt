-- ===== src/Auth.antt =====
-- app/core/oauth2.py and app/routers/auth/auth.py.
pub mod Visit
pub mod Tokens
pub mod Sessions
pub mod Login
pub mod Refresh
pub mod Logout
pub mod Revocation
pub mod Rotation
pub mod Guards
pub mod Slots
pub mod Lockout
pub mod Revoked
