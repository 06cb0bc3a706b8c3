-- ===== src/MessageBus/Auth/Users.antt =====
-- Registration and login of the class `AuthService` (message_bus/src/auth/auth-service.ts).
use Prim.Native.Char.{Char, code}
use Prim.Native.String
use kpm_cursor.Base.{
  ℕ, suc, ◌-◌, String, true, ◌&&◌, Option, none, some, [], ◌∷◌, ◌++◌, map, leb, ◌==◌, if◌then◌else◌,
  get_or, find, any,
}
use kpm_cursor.Base.Text.{is_empty, text_take, text_drop}
use kpm_cursor.MessageBus.Auth.{
  User, Database, Outcome, thrown, AuthToken, LoginCredentials, RegisterData, Crypto, Env,
}
use kpm_cursor.MessageBus.Auth.Tokens.{has_email, has_user_id, has_company_id, generate_auth_token}

-- `text.toLowerCase()`; a character beyond ASCII keeps its case
abbrev lower_char : Char → String → String
lower_char c rest =
    if leb 65 (code c) && leb (code c) 90
    then String.◌++◌ (text_take 1 (text_drop (code c - 65) "abcdefghijklmnopqrstuvwxyz")) rest
    else String.◌∷◌ c rest

abbrev pub to_lower_case : String → String
to_lower_case String.[] = ""
to_lower_case (String.◌∷◌ c s) = lower_char c (to_lower_case s)

-- `role || fallback`: an empty text counts as missing.
abbrev pub role_or : Option String → String → String
role_or none fallback = fallback
role_or (some role) fallback = if is_empty role then fallback else role

abbrev pub insert_company_user : ℕ → ℕ → String → Database → Database
insert_company_user company_id user_id role db = record db {
  company_users =
      db.company_users ++ record { company_id = company_id; user_id = user_id; role = role } ∷ [];
}

abbrev pub record_login : ℕ → ℕ → Database → Database
record_login now user_id db = record db {
  users =
      map (λ u. if has_user_id user_id u then record u { last_login_at = some now } else u)
        db.users;
}

module _ (c : Crypto) where
  abbrev pub new_user : Env → RegisterData → Database → User
  new_user env details db = record {
    id = db.next_user;
    email = to_lower_case details.email;
    password_hash = c.hash_password env.salt details.password;
    first_name = details.first_name;
    last_name = details.last_name;
    role = role_or details.role "user";
    is_active = true;
    last_login_at = none;
  }

  abbrev pub insert_user : Env → RegisterData → Database → Database
  insert_user env details db = record db {
    users = db.users ++ new_user env details db ∷ [];
    next_user = suc db.next_user;
  }

  -- The rest of the registration, once the user's row is there. 0 counts as no company.
  unfoldable pub join_company : Env → ℕ → RegisterData → Database → Database × Outcome AuthToken
  unfolding generate_auth_token
  join_company env user_id details db =
      let company_id = get_or details.company_id 0 in
      if company_id == 0
      then generate_auth_token c env user_id db
      else if any (has_company_id company_id) db.companies
      then generate_auth_token c env user_id
          (insert_company_user company_id user_id (role_or details.role "member") db)
      else (db, thrown "insert violates foreign key constraint")

  unfoldable pub register_user : Env → RegisterData → Database → Database × Outcome AuthToken
  unfolding join_company
  register_user env details db =
      if any (has_email (to_lower_case details.email)) db.users
      then (db, thrown "User with this email already exists")
      else join_company env db.next_user details (insert_user env details db)

  unfoldable pub check_password :
      Env → LoginCredentials → Option User → Database → Database × Outcome AuthToken
  unfolding generate_auth_token
  check_password env credentials none db = (db, thrown "Invalid email or password")
  check_password env credentials (some u) db =
      if c.compare_password credentials.password u.password_hash
      then generate_auth_token c env u.id (record_login env.now u.id db)
      else (db, thrown "Invalid email or password")

  unfoldable pub login_user : Env → LoginCredentials → Database → Database × Outcome AuthToken
  unfolding check_password
  login_user env credentials db =
      check_password env credentials
        (find (λ u. has_email (to_lower_case credentials.email) u && u.is_active) db.users) db
