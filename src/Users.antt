-- ===== src/Users.antt =====
-- apps/web-admin-users/src/UsersPage.tsx: the directory of users.
pub mod Csv
pub mod Directory
pub mod Deletion
pub mod Import
pub mod Realtime
pub mod Query
pub mod Passwords
pub mod Labels
mod Tests
