-- ===== src/Users/Directory.antt =====
-- apps/web-admin-users/src/UsersPage.tsx: the state of the directory page that paging, sorting,
-- selecting and filtering change. Fields of the page that only change the look are left out. The page that is
-- typed may be a fraction: offsets and typed pages are counted in parts, of which `parts` make a row or a page.
pub mod Paging
pub mod Selection
use go_platform_starter.Prelude.{
  ℕ, suc, ◌+◌, ◌-◌, ◌*◌, ◌/◌, min, max, Bool, true, false, not, ◌&&◌, ◌||◌, Option, none, some,
  List, [], ◌∷◌, ◌++◌, map, leb, ltb, ◌==◌, if◌then◌else◌, filter, Text, Text_key, ℕ_key, is,
  is_empty, trim, has_text, includes, toggle, unique, get_or_else,
}

-- The fields of a user that the modelled operations read.
pub record Profile : Type 0 where
  pub id : ℕ
  pub email : Text
  pub display_name : Text
  pub role_ids : List ℕ

pub data SortField : Type 0 where
  created_at display_name email last_login_at : SortField

pub data SortDirection : Type 0 where
  asc desc : SortDirection

pub data Presence : Type 0 where
  all online offline : Presence

pub record UserFilters : Type 0 where
  pub query : Text
  pub status : Presence
  pub role_id : ℕ
  pub registered_from : Text
  pub registered_to : Text

pub record FilterPreset : Type 0 where
  pub name : Text
  pub filters : UserFilters

pub record Directory : Type 0 where
  -- in parts
  pub offset : ℕ
  pub page_size : ℕ
  pub sort_field : SortField
  pub sort_direction : SortDirection
  pub filters : UserFilters
  pub presets : List FilterPreset
  pub selected_ids : List ℕ
  -- the active row, `none` for -1
  pub active_row : Option ℕ

-- `applyFilters`
unfoldable pub apply_filters : UserFilters → Directory → Directory
apply_filters next d = record d { offset = 0; filters = next }

abbrev pub same_field : SortField → SortField → Bool
same_field created_at created_at = true
same_field display_name display_name = true
same_field email email = true
same_field last_login_at last_login_at = true
same_field _ _ = false

abbrev pub reversed : SortDirection → SortDirection
reversed asc = desc
reversed desc = asc

-- `toggleSort`
unfoldable pub toggle_sort : SortField → Directory → Directory
toggle_sort field d =
    if same_field d.sort_field field
    then record d { offset = 0; sort_direction = reversed d.sort_direction }
    else record d { offset = 0; sort_field = field; sort_direction = asc }

-- `toggleSelected`
unfoldable pub toggle_selected : ℕ → Directory → Directory
toggle_selected id d = record d { selected_ids = toggle id d.selected_ids }

-- The box in the head of the table, for the users that are shown.
unfoldable pub select_all : Bool → List Profile → Directory → Directory
select_all checked items d = record d {
  selected_ids = if checked then unique (map (λ u. u.id) items) else [];
}

-- `items`: the users of the page that are neither queued for deletion nor filtered out. `lower` is
-- `toLowerCase`.
unfoldable pub visible_items : (Text → Text) → Text → List ℕ → List Profile → List Profile
visible_items lower query pending =
    let needle = lower (trim query) in
    filter (λ u.
      not (includes u.id pending)
      && (is_empty needle || has_text needle (lower (u.display_name ++ (b' ' ∷ u.email)))))

-- `pageCount`, of the total and the page size: `Math.max(1, Math.ceil(total / pageSize))`.
unfoldable pub page_count : ℕ → ℕ → ℕ
page_count total size = max 1 ((total + size - 1) / size)

-- `currentPage`, with the offset and the page size in parts
unfoldable pub current_page : ℕ → ℕ → ℕ
current_page offset size = offset / size + 1

-- The controls of the pager. The page that is typed, in parts, is 0 for what is no number or below 1.
pub data Control : Type 0 where
  first prev next last : Control
  jump rows : ℕ → Control

-- A control, with the condition under which it is disabled.
unfoldable pub turn : ℕ → ℕ → Control → Directory → Directory
unfolding page_count current_page
turn parts total first d = if d.offset == 0 then d else record d { offset = 0 }
turn parts total prev d =
    if d.offset == 0 then d else record d { offset = d.offset - d.page_size * parts }
turn parts total next d =
    if leb (total * parts) (d.offset + d.page_size * parts)
    then d
    else record d { offset = d.offset + d.page_size * parts }
turn parts total last d =
    if leb (page_count total d.page_size) (current_page d.offset (d.page_size * parts))
    then d
    else record d { offset = (page_count total d.page_size - 1) * (d.page_size * parts) }
turn parts total (jump page) d =
    let target = min (page_count total d.page_size * parts) (max parts page) in
    record d { offset = (target - parts) * d.page_size }
turn parts total (rows size) d = record d { offset = 0; page_size = size }

-- The keys `j` and `k`, over `count` rows.
abbrev after_row : Option ℕ → ℕ
after_row none = 0
after_row (some i) = suc i

unfoldable pub move_down : ℕ → Directory → Directory
move_down count d = record d {
  active_row = if count == 0 then none else some (min (after_row d.active_row) (count - 1));
}

unfoldable pub move_up : Directory → Directory
move_up d = record d { active_row = some (get_or_else d.active_row 0 - 1) }

-- "Save preset", which is disabled for an empty name.
unfoldable pub save_preset : Text → Directory → Directory
save_preset name d = if is_empty (trim name) then d else record d {
  presets =
      filter (λ p. not (is p.name (trim name))) d.presets
      ++ record { name = trim name; filters = d.filters } ∷ [];
}

-- The width of a column while it is dragged: `Math.max(72, startWidth + clientX - startX)`.
unfoldable pub dragged_width : ℕ → ℕ → ℕ → ℕ
dragged_width start_width client_x start_x = max 72 (start_width + client_x - start_x)

-- The role ids that the bulk assignment sends for a user.
unfoldable pub bulk_role_ids : ℕ → Profile → List ℕ
bulk_role_ids role u = unique (u.role_ids ++ role ∷ [])
