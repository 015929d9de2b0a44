-- ===== src/Users/Query/Keyed.antt =====
-- The key of a page of users tells its request.
use go_platform_starter.Prelude.{true, false, none, some, ◌≡◌, ap, Text, if◌then◌else◌, ◌==◌}
use go_platform_starter.Users.Directory.{Directory}
use go_platform_starter.Users.Query.{
  UsersKey, UsersQuery, users_key, users_query, filled, chosen_presence, date_boundary,
}

module _ (to_iso : Text → Text) where
  -- The request that belongs to a key.
  abbrev requested : UsersKey → UsersQuery
  requested k = record {
    limit = k.limit;
    offset = k.offset;
    q = filled k.q;
    presence = chosen_presence k.presence;
    role_id = if k.role_id == 0 then none else some k.role_id;
    registered_from = date_boundary to_iso k.registered_from false;
    registered_to = date_boundary to_iso k.registered_to true;
    sort = k.sort;
    order = k.order;
  }

  -- Two states of the page under the same key send the same request: an answer in the cache is never shown
  -- for filters, a sorting or a page that it was not asked for.
  users_query-users_key :
      (q q' : Text) (d d' : Directory)
      → users_key q d ≡ users_key q' d'
      → users_query to_iso q d ≡ users_query to_iso q' d'
  unfolding users_query
  users_query-users_key q q' d d' same = ap requested same
