-- ===== src/Users/Passwords.antt =====
-- apps/web-admin-users/src/UsersPage.tsx: `randomPassword`. The sixteen random bytes are an argument.
pub mod Accepted
use go_platform_starter.Prelude.{
  ℕ, ◌%◌, ◌+◌, List, [], ◌∷◌, ◌++◌, map, length, get_elem?, get_or_else, Text, codes,
}

abbrev pub alphabet : Text
alphabet = codes "ABCDEFGHJKLMNPQRSTUVWXYZabcdefghijkmnopqrstuvwxyz23456789!@#$%"

-- `alphabet[byte % alphabet.length]`, which is never out of range
abbrev pub letter : ℕ → ℕ
letter byte = get_or_else (get_elem? alphabet (byte % length alphabet)) 0

unfoldable pub random_password : List ℕ → Text
random_password bytes = codes "Aa1!" ++ map letter bytes
