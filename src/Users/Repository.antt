-- ===== src/Users/Repository.antt =====
-- internal/platform/postgresql/user_repository.go
use gopher_agent_platform.Prelude.{ℕ, Bool, false, ◌==◌, ◌||◌, if◌then◌else◌}
use gopher_agent_platform.Errors.{
  Err, sentinel, opaque, wrap, context, join, email_already_exists, user_not_found,
}
use gopher_agent_platform.Exec.{Result, ok, err, Exec, ◌>>=◌, lift, attempt}
use gopher_agent_platform.Text.{Text}
use gopher_agent_platform.Database.Rows.{User}
use gopher_agent_platform.Database.{World, query_row}
use gopher_agent_platform.Messages.Repository.{scan_row}
use gopher_agent_platform.Users.Sql.{
  insert_user, query_user_by_email, query_user_by_id, email_taken,
}

-- `errors.As` for a PgError of users_email_unique.
unfoldable pub is_email_taken : Err → Bool
is_email_taken (sentinel s) = false
is_email_taken (opaque n) = n == email_taken
is_email_taken (wrap s e) = is_email_taken e
is_email_taken (context e) = is_email_taken e
is_email_taken (join e f) = is_email_taken e || is_email_taken f

abbrev inserted : Result User → Result User
inserted (ok u) = ok u
inserted (err e) = if is_email_taken e then err (sentinel email_already_exists) else err (context e)

unfoldable pub create : Text → Text → Exec World User
create email password_hash = do
  r ← attempt (query_row (insert_user email password_hash))
  lift (inserted r)

unfoldable pub get_by_email : Text → Exec World User
get_by_email email = scan_row (query_user_by_email email) user_not_found

unfoldable pub get_by_id : ℕ → Exec World User
get_by_id user_id = scan_row (query_user_by_id user_id) user_not_found
