-- ===== src/Auth/Api/Messages.antt =====
-- What the pages may show of an error.
use go_platform_starter.Prelude.{false, ◌≡◌, arith, is_empty}
use go_platform_starter.Auth.Api.{ErrorBody, read_message}

-- The message of an error is never empty.
read_message-ne-nil : (e : ErrorBody) → is_empty (read_message e) ≡ false
unfolding read_message
read_message-ne-nil e = ground arith
