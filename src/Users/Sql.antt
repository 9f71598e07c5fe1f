-- ===== src/Users/Sql.antt =====
-- internal/platform/postgresql/users_sql.go, over users_email_unique of the migrations.
use gopher_agent_platform.Prelude.{
  ℕ, suc, Option, none, some, List, [], ◌∷◌, ◌++◌, leb, length, if◌then◌else◌, is_some, ◌&&◌,
}
use gopher_agent_platform.Errors.{opaque}
use gopher_agent_platform.Exec.{ok, err}
use gopher_agent_platform.Text.{Text, text_eq}
use gopher_agent_platform.Database.Rows.{User}
use gopher_agent_platform.Database.Table.{user_key, find}
use gopher_agent_platform.Database.{Db, Statement}

-- The SQLSTATE of users_email_unique, the only unique constraint of the table.
abbrev pub email_taken : ℕ
email_taken = 23505

abbrev too_long : ℕ
too_long = 22001

unfoldable pub find_email : Text → List User → Option User
find_email email [] = none
find_email email (u ∷ us) = if text_eq u.email email then some u else find_email email us

abbrev pub new_user : Text → Text → Db → User
new_user email password_hash db = record {
  id = db.next_user;
  email = email;
  password_hash = password_hash;
  created_at = db.now;
  updated_at = db.now;
}

-- InsertUser
unfoldable pub insert_user : Text → Text → Statement User
insert_user email password_hash db =
    let row = new_user email password_hash db in
    if leb (length email) 254 && leb (length password_hash) 255
    then if is_some (find_email email db.users)
      then (err (opaque email_taken), db)
      else (ok (some row), record db { users = db.users ++ row ∷ []; next_user = suc db.next_user })
    else (err (opaque too_long), db)

-- QueryUserByEmail
unfoldable pub query_user_by_email : Text → Statement User
query_user_by_email email db = (ok (find_email email db.users), db)

-- QueryUserByID
unfoldable pub query_user_by_id : ℕ → Statement User
query_user_by_id id db = (ok (find id db.users), db)
