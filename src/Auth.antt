-- ===== src/Auth.antt =====
-- apps/web-auth/src: the sign-in, registration and password pages.
pub mod Validation
pub mod Api
pub mod Login
pub mod Reset
pub mod Forgot
pub mod Register
mod Tests
