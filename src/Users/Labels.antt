-- ===== src/Users/Labels.antt =====
-- apps/web-admin-users/src/UsersPage.tsx: what the table says of a device and of an address.
pub mod Addresses
use go_platform_starter.Prelude.{
  ℕ, Bool, true, false, ◌&&◌, ◌||◌, Option, none, some, List, [], ◌∷◌, ◌++◌, map, drop, ◌==◌, leb,
  if◌then◌else◌, get_or_else, Text, codes, is_empty, text_same, starts_with, has_text, fold_case,
}

abbrev browser : Text → Text
browser ua =
    if has_text (codes "Edg/") ua
    then codes "Edge"
    else if has_text (codes "OPR/") ua
    then codes "Opera"
    else if has_text (codes "Chrome/") ua
    then codes "Chrome"
    else if has_text (codes "Firefox/") ua
    then codes "Firefox"
    else if has_text (codes "Safari/") ua
    then codes "Safari"
    else if has_text (codes "curl") ua
    then codes "curl"
    else codes "Unknown"

-- `/iPhone|iPad|iOS/`
abbrev is_apple_phone : Text → Bool
is_apple_phone ua =
    has_text (codes "iPhone") ua || has_text (codes "iPad") ua || has_text (codes "iOS") ua

abbrev os : Text → Text
os ua =
    if has_text (codes "Windows") ua
    then codes "Windows"
    else if has_text (codes "Android") ua
    then codes "Android"
    else if is_apple_phone ua
    then codes "iOS"
    else if has_text (codes "Mac OS") ua
    then codes "macOS"
    else if has_text (codes "Linux") ua
    then codes "Linux"
    else []

-- `[browser, os].filter(Boolean).join(" · ")`, where the browser is never empty
abbrev with_os : Text → Text → Text
with_os browser os = if is_empty os then browser else browser ++ (codes " · " ++ os)

-- `deviceLabel`
unfoldable device_label : Option Text → Text
unfolding has_text
device_label none = codes "—"
device_label (some ua) = if is_empty ua then codes "—" else with_os (browser ua) (os ua)

-- `deviceIcon`
unfoldable device_icon : Option Text → Text
unfolding has_text
device_icon given =
    let ua = get_or_else given [] in
    if has_text (codes "Android") ua || is_apple_phone ua
    then codes "▯"
    else if has_text (codes "Windows") ua
        || has_text (codes "Mac OS") ua
        || has_text (codes "Linux") ua
    then codes "▣"
    else codes "◇"

-- `1[6-9]|2\d|3[01]`
abbrev in_range : ℕ → ℕ → Bool
in_range x y =
    (x == b'1' && (leb b'6' y && leb y b'9'))
    || (x == b'2' && (leb b'0' y && leb y b'9'))
    || (x == b'3' && (y == b'0' || y == b'1'))

-- `(1[6-9]|2\d|3[01])\.`
abbrev pub starts_in_range : Text → Bool
starts_in_range [] = false
starts_in_range (x ∷ []) = false
starts_in_range (x ∷ y ∷ s) = in_range x y && starts_with (codes ".") s

-- The expression of `ipDescription`, on a text in lower case.
abbrev pub is_private : Text → Bool
is_private s =
    starts_with (codes "127.") s
    || starts_with (codes "10.") s
    || starts_with (codes "192.168.") s
    || (starts_with (codes "172.") s && starts_in_range (drop 4 s))
    || text_same s (codes "::1")
    || starts_with (codes "fc") s
    || starts_with (codes "fd") s

-- `ipDescription`
unfoldable pub ip_description : Option Text → Text
unfolding starts_with
ip_description none = codes "No IP recorded"
ip_description (some ip) =
    if is_empty ip
    then codes "No IP recorded"
    else if is_private (map fold_case ip)
    then codes "Private or loopback network address"
    else codes "Public network address"
