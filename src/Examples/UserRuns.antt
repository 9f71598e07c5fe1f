-- ===== src/Examples/UserRuns.antt =====
-- The theorems about accounts at a small database.
use gopher_agent_platform.Prelude.{◌≡◌, refl, none, some, [], ◌∷◌, arith, if◌then◌else◌}
use gopher_agent_platform.Errors.{sentinel, invalid_credentials, mismatched_password}
use gopher_agent_platform.Exec.{ok, err}
use gopher_agent_platform.Text.{Text, text, text_eq, trim_space, byte_len}
use gopher_agent_platform.Database.{World}
use gopher_agent_platform.Database.Rows.{User}
use gopher_agent_platform.Users.Sql.{new_user, find_email}
use gopher_agent_platform.Users.Service.{Accounts, valid_password, valid, register, login}
use gopher_agent_platform.Users.Login.{IsTaken, login-register, login_uniform}
use gopher_agent_platform.Examples.JobRuns.{sample, calm}

-- A hash that is the password itself, which stands for bcrypt here.
abbrev plain_accounts : Accounts
plain_accounts = record {
  hash = λ t. ok t;
  compare = λ h t. if text_eq h t then ok tt else err (sentinel mismatched_password);
  to_lower = λ t. t;
  parse_address = λ t. some t;
  verifier = none;
}

abbrev address : Text
address = text "a@b.c"

abbrev secret : Text
secret = text "gopher-secret"

plain-IsTaken : IsTaken plain_accounts address secret
unfolding valid_password valid trim_space byte_len
plain-IsTaken = record {
  some_email = refl;
  password_fits = refl;
  address = refl;
  email_fits = omega arith;
}

nobody : find_email address calm.db.users ≡ none
unfolding find_email
nobody = refl

login-register_example :
    let r = register plain_accounts address secret [] calm in
    (r.0 ≡ ok (new_user address secret calm.db))
    × ((login plain_accounts address secret r.1).0 ≡ ok (new_user address secret calm.db))
unfolding trim_space
login-register_example =
    login-register plain_accounts address secret plain-IsTaken [] secret calm refl nobody refl
      (omega arith) refl refl

abbrev other_user : User
other_user = new_user address (text "another-secret") sample

abbrev inhabited : World
inhabited = record calm { db = record sample { users = other_user ∷ [] } }

somebody : find_email address inhabited.db.users ≡ some other_user
unfolding find_email
somebody = refl

login_uniform_example :
    let wrong = login plain_accounts address secret inhabited in
    let absent = login plain_accounts address secret calm in
    (wrong.0 ≡ absent.0)
    × (wrong.0 ≡ err (sentinel invalid_credentials))
    × (wrong.1.db ≡ inhabited.db)
    × (absent.1.db ≡ calm.db)
unfolding trim_space
login_uniform_example =
    login_uniform plain_accounts address secret plain-IsTaken other_user inhabited calm refl refl
      somebody refl nobody
