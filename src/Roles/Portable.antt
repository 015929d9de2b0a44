-- ===== src/Roles/Portable.antt =====
-- apps/web-admin-roles/src/RolesPage.tsx: what the page makes of the roles that it loads, and the files of
-- `exportJson` and `importJson`. `print` is `JSON.stringify` and `parse` is `JSON.parse`, `none` where it
-- throws.
pub mod RoundTrip
use go_platform_starter.Prelude.{
  ℕ, Bool, true, false, Option, none, some, List, [], ◌∷◌, ◌++◌, map, if◌then◌else◌, get_or_else,
  Text, codes, text_same, is_empty, join, ◌==◌, includes, Text_key,
}
use go_platform_starter.Roles.{Role}

-- A role as the server sends it.
pub record SentRole : Type 0 where
  pub id : ℕ
  pub name : Text
  pub description : Text
  pub color : Option Text
  pub icon : Option Text
  pub archived : Option Bool
  pub permissions : List Text
  pub created_at : Option Text
  pub user_count : Option ℕ
  pub system : Option Bool

abbrev default_color : Text
default_color = codes "#6366f1"

abbrev default_icon : Text
default_icon = codes "shield"

-- The fields that the query fills in.
abbrev pub loaded_role : SentRole → Role
loaded_role r = record {
  id = r.id;
  name = r.name;
  description = r.description;
  color = get_or_else r.color default_color;
  icon = get_or_else r.icon default_icon;
  archived = get_or_else r.archived false;
  permissions = r.permissions;
  created_at = get_or_else r.created_at [];
  user_count = get_or_else r.user_count 0;
  system = get_or_else r.system (text_same r.name (codes "admin"));
}

-- `Partial<Role>` as far as it is read; `permissions` is `none` where it is no array.
pub record PartialRole : Type 0 where
  pub name : Option Text
  pub description : Option Text
  pub color : Option Text
  pub icon : Option Text
  pub archived : Option Bool
  pub permissions : Option (List Text)

-- `portable`
abbrev pub portable : Role → PartialRole
portable role = record {
  name = some role.name;
  description = some role.description;
  color = some role.color;
  icon = some role.icon;
  archived = some role.archived;
  permissions = some role.permissions;
}

-- `exportJson`: the name of the file and its text.
abbrev pub export_json : (PartialRole → Text) → Role → Text × Text
export_json print role = (role.name ++ codes ".role.json", print (portable role) ++ 10 ∷ [])

abbrev pub seed : Text → List Text → PartialRole → Role
seed name permissions parsed = record {
  id = 0;
  name = name;
  description = get_or_else parsed.description [];
  color = get_or_else parsed.color default_color;
  icon = get_or_else parsed.icon default_icon;
  archived = get_or_else parsed.archived false;
  permissions = permissions;
  created_at = [];
  user_count = 0;
  system = false;
}

abbrev checked : Option Text → Option (List Text) → PartialRole → Option Role
checked none permissions parsed = none
checked (some name) none parsed = none
checked (some name) (some permissions) parsed =
    if is_empty name then none else some (seed name permissions parsed)

-- The part of `importJson` that makes the new role of the file's text; `none` is an error that is shown.
unfoldable pub import_json : (Text → Option PartialRole) → Text → Option Role
import_json parse text = elim (parse text) [
  | none ↦ none
  | some parsed ↦ checked parsed.name parsed.permissions parsed
]
