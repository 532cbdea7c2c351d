-- ===== src/Accounts.antt =====
-- app/routers/auth/users.py.
pub mod Otp
pub mod Password
pub mod Profile
pub mod Closing
pub mod Revocation
pub mod Reset
pub mod Codes
pub mod Unlocking
