-- ===== src/Users/Query.antt =====
-- apps/web-admin-users/src/UsersPage.tsx: the request for a page of users, and the key under which the query
-- cache keeps its answer. `to_iso` is `new Date(...).toISOString()`.
pub mod Keyed
use go_platform_starter.Prelude.{
  ℕ, Bool, true, false, Option, none, some, List, [], ◌∷◌, ◌++◌, if◌then◌else◌, Text, codes,
  is_empty, ◌==◌,
}
use go_platform_starter.Users.Directory.{
  SortField, SortDirection, Presence, all, online, offline, UserFilters, Directory,
}

-- The object in the query's key.
pub record UsersKey : Type 0 where
  pub limit : ℕ
  pub offset : ℕ
  pub q : Text
  pub presence : Presence
  pub role_id : ℕ
  pub registered_from : Text
  pub registered_to : Text
  pub sort : SortField
  pub order : SortDirection

-- The query of the request, where `none` is `undefined`; its offset is in parts, as that of the directory.
pub record UsersQuery : Type 0 where
  pub limit : ℕ
  pub offset : ℕ
  pub q : Option Text
  pub presence : Option Presence
  pub role_id : Option ℕ
  pub registered_from : Option Text
  pub registered_to : Option Text
  pub sort : SortField
  pub order : SortDirection

-- `query` is the debounced text of the search, which lags behind the filters.
abbrev pub users_key : Text → Directory → UsersKey
users_key query d = record {
  limit = d.page_size;
  offset = d.offset;
  q = query;
  presence = d.filters.status;
  role_id = d.filters.role_id;
  registered_from = d.filters.registered_from;
  registered_to = d.filters.registered_to;
  sort = d.sort_field;
  order = d.sort_direction;
}

abbrev pub filled : Text → Option Text
filled t = if is_empty t then none else some t

abbrev pub chosen_presence : Presence → Option Presence
chosen_presence all = none
chosen_presence online = some online
chosen_presence offline = some offline

module _ (to_iso : Text → Text) where
  -- `dateBoundary`
  abbrev pub date_boundary : Text → Bool → Option Text
  date_boundary value end =
      if is_empty value
      then none
      else some (to_iso (value ++ (if end then codes "T23:59:59.999" else codes "T00:00:00.000")))

  unfoldable pub users_query : Text → Directory → UsersQuery
  users_query query d = record {
    limit = d.page_size;
    offset = d.offset;
    q = filled query;
    presence = chosen_presence d.filters.status;
    role_id = if d.filters.role_id == 0 then none else some d.filters.role_id;
    registered_from = date_boundary d.filters.registered_from false;
    registered_to = date_boundary d.filters.registered_to true;
    sort = d.sort_field;
    order = d.sort_direction;
  }
