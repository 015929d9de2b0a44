-- ===== src/Roles/Portable/RoundTrip.antt =====
-- What comes back of a role that is exported.
use go_platform_starter.Prelude.{false, Option, some, [], ◌≡◌, refl, Text, is_empty}
use go_platform_starter.Roles.{Role}
use go_platform_starter.Roles.Portable.{PartialRole, portable, export_json, import_json}

import_json-portable :
    (parse : Text → Option PartialRole) (text : Text) (role : Role)
    → is_empty role.name ≡ false
    → parse text ≡ some (portable role)
    → import_json parse text
      ≡ some (record role { id = 0; created_at = []; user_count = 0; system = false })
unfolding import_json
import_json-portable parse text role named read = rw (read, import_json, named) refl

-- A role with a name that is exported and imported again, where the parser reads what was printed, comes back
-- as a new role: the same but for its id, its date and its users, and no system role.
import_json-export_json :
    (print : PartialRole → Text) (parse : Text → Option PartialRole) (role : Role)
    → is_empty role.name ≡ false
    → parse (export_json print role).1 ≡ some (portable role)
    → import_json parse (export_json print role).1
      ≡ some (record role { id = 0; created_at = []; user_count = 0; system = false })
import_json-export_json print parse role =
    import_json-portable parse (export_json print role).1 role
