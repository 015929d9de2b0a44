-- ===== src/Checks/Retention.antt =====
-- scripts/registry-retention.mjs: which versions of a container are deleted. Times are in milliseconds.
pub mod Sparing
use go_platform_starter.Prelude.{
  ℕ, ◌-◌, ◌*◌, Bool, true, false, ◌&&◌, ◌||◌, Option, List, [], map, filter, all, drop, ltb, leb,
  if◌then◌else◌, get_or_else, Text, codes, starts_with, sort_by,
}

-- A version: its id, `updated_at`, and the tags of its container, where it has any meta data.
pub record Version : Type 0 where
  pub id : ℕ
  pub updated_at : ℕ
  pub tags : Option (List Text)

-- `(a, b) => new Date(b.updated_at) - new Date(a.updated_at)` is not positive.
abbrev pub newest_first : Version → Version → Bool
newest_first a b = leb b.updated_at a.updated_at

-- `/^(?:sha-|pr-)/.test(tag)`
abbrev pub is_ephemeral : Text → Bool
is_ephemeral tag = starts_with (codes "sha-") tag || starts_with (codes "pr-") tag

unfoldable pub cutoff : ℕ → ℕ
cutoff now = now - 30 * 24 * 60 * 60 * 1000

-- The test of `filter`.
abbrev pub is_expired : ℕ → Version → Bool
is_expired now v = ltb v.updated_at (cutoff now) && all is_ephemeral (get_or_else v.tags [])

unfoldable pub candidates : ℕ → List Version → List Version
candidates now versions = filter (is_expired now) (drop 20 (sort_by newest_first versions))

-- The ids of the requests of the loop, with `--apply` or without.
unfoldable pub deletions : Bool → ℕ → List Version → List ℕ
unfolding candidates
deletions apply now versions = if apply then map (λ v. v.id) (candidates now versions) else []
