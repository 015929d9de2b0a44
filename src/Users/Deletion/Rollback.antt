-- ===== src/Users/Deletion/Rollback.antt =====
-- A failed deletion leaves the cache as it was, and what else it forgets.
use go_platform_starter.Prelude.{ℕ_key}
use go_platform_starter.QueryClient.{QueryClient}
