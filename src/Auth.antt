-- ===== src/Auth.antt =====
-- Authentication: packages/vais-web/packages/auth/src.
pub mod Session
pub mod Security
mod Tests
