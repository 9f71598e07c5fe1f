-- ===== src/Users/Login.antt =====
-- Who has registered can log in, and who cannot learns no more than that.
use gopher_agent_platform.Prelude.{
  ◌≤◌, ◌≡◌, refl, ◌∙◌, sym, true, false, none, some, List, [], ◌∷◌, ◌++◌, leb, length, arith,
  Bool-cases, inl, inr,
}
use gopher_agent_platform.Errors.{
  sentinel, is, user_not_found, invalid_credentials, mismatched_password,
}
use gopher_agent_platform.Exec.{ok, err}
use gopher_agent_platform.Text.{Text, is_empty, text_eq}
use gopher_agent_platform.Text.Laws.{text_eq_refl}
use gopher_agent_platform.Database.Rows.{User}
use gopher_agent_platform.Database.{World}
use gopher_agent_platform.Database.Laws.{query_row_healthy}
use gopher_agent_platform.Messages.Pages.{scan_row_healthy}
use gopher_agent_platform.Users.Sql.{find_email, new_user, insert_user, query_user_by_email}
use gopher_agent_platform.Users.Repository
use gopher_agent_platform.Users.Service.{
  Accounts, valid_password, valid, normalized, register, login, compared, verified,
}

-- An address that both requests take, of 254 runes at most, and a password of 8 to 72 bytes.
pub record IsTaken (a : Accounts) (email password : Text) : Type 0 where
  pub some_email : is_empty email ≡ false
  pub password_fits : valid_password password ≡ true
  pub address : valid a (normalized a email) ≡ true
  pub email_fits : length (normalized a email) ≤ 254

find_email-append :
    (email : Text) (us : List User) (u : User)
    → find_email email us ≡ none
    → u.email ≡ email
    → find_email email (us ++ u ∷ []) ≡ some u
unfolding find_email
find_email-append email [] u h e = rw (e, text_eq_refl email) refl
find_email-append email (x ∷ us) u h e = elim (Bool-cases (text_eq x.email email)) [
  | inl p ↦ let q = rw p at h in cc
  | inr p ↦ rw p (find_email-append email us u (rw p at h) e)
]

module _ (a : Accounts) (email password : Text) (taken : IsTaken a email password) where
  login_known :
      (u : User) (w : World)
      → w.faults ≡ []
      → find_email (normalized a email) w.db.users ≡ some u
      → ((login a email password w).0 ≡ compared u (a.compare u.password_hash password))
        × ((login a email password w).1.db ≡ w.db)
  unfolding login Repository.get_by_email query_user_by_email
  login_known u w q f =
      let s = scan_row_healthy (query_user_by_email (normalized a email)) user_not_found w q in
      rw (taken.some_email, taken.password_fits, taken.address) (ground (arith, s, f))

  login_unknown :
      (w : World)
      → w.faults ≡ []
      → find_email (normalized a email) w.db.users ≡ none
      → ((login a email password w).0 ≡ err (sentinel invalid_credentials))
        × ((login a email password w).1.db ≡ w.db)
  unfolding login Repository.get_by_email query_user_by_email is
  login_unknown w q f =
      let s = scan_row_healthy (query_user_by_email (normalized a email)) user_not_found w q in
      rw (taken.some_email, taken.password_fits, taken.address) (ground (arith, s, f))

  -- Over a connection that works, with an address that is accepted and has at most 254 runes and a
  -- password of 8 to 72 bytes, an address that nobody has registered and a wrong password are answered
  -- alike, with the error of invalid credentials, and neither login changes the database.
  pub login_uniform :
      (u : User) (known unknown : World)
      → known.faults ≡ []
      → unknown.faults ≡ []
      → find_email (normalized a email) known.db.users ≡ some u
      → a.compare u.password_hash password ≡ err (sentinel mismatched_password)
      → find_email (normalized a email) unknown.db.users ≡ none
      → let wrong = login a email password known in
        let absent = login a email password unknown in
        (wrong.0 ≡ absent.0)
        × (wrong.0 ≡ err (sentinel invalid_credentials))
        × (wrong.1.db ≡ known.db)
        × (absent.1.db ≡ unknown.db)
  unfolding is
  login_uniform u known unknown p q f c g =
      let (d, e) = login_known u known p f in
      let (x, y) = login_unknown unknown q g in
      let mismatch : (login a email password known).0 ≡ err (sentinel invalid_credentials) =
        d ∙ rw c refl in
      (mismatch ∙ sym x, mismatch, e, y)

  registered :
      (code h : Text) (w : World)
      → w.faults ≡ []
      → find_email (normalized a email) w.db.users ≡ none
      → a.hash password ≡ ok h
      → length h ≤ 255
      → verified a.verifier (normalized a email) code ≡ ok tt
      → let r = register a email password code w in
        (r.0 ≡ ok (new_user (normalized a email) h w.db))
        × (r.1.db.users ≡ w.db.users ++ new_user (normalized a email) h w.db ∷ [])
        × (r.1.faults ≡ [])
  unfolding register Repository.create insert_user
  registered code h w q f k l v =
      let s = query_row_healthy (insert_user (normalized a email) h) w q in
      let long : leb (length (normalized a email)) 254 ≡ true = ground (arith, taken.email_fits) in
      let hash_fits : leb (length h) 255 ≡ true = ground arith in
      rw (taken.some_email, taken.password_fits, taken.address, k, v)
        (ground (arith, s, f, long, hash_fits))

  -- Over a connection that works, with an address that is accepted, free and has at most 254 runes, a
  -- password of 8 to 72 bytes that bcrypt hashes and a code that is good: the registration makes the
  -- user, and a login with the same address and password gives that user, where bcrypt accepts the
  -- password for the hash it made, which has at most 255 runes.
  pub login-register :
      (code h : Text) (w : World)
      → w.faults ≡ []
      → find_email (normalized a email) w.db.users ≡ none
      → a.hash password ≡ ok h
      → length h ≤ 255
      → verified a.verifier (normalized a email) code ≡ ok tt
      → a.compare h password ≡ ok tt
      → let r = register a email password code w in
        (r.0 ≡ ok (new_user (normalized a email) h w.db))
        × ((login a email password r.1).0 ≡ ok (new_user (normalized a email) h w.db))
  login-register code h w q f k l v c =
      let (d, e, x) = registered code h w q f k l v in
      let u = new_user (normalized a email) h w.db in
      let there : find_email (normalized a email) (register a email password code w).1.db.users
          ≡ some u =
        rw e (find_email-append (normalized a email) w.db.users u f refl) in
      (d, (login_known u _ x there).0 ∙ rw c refl)
