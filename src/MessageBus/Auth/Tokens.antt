-- ===== src/MessageBus/Auth/Tokens.antt =====
-- Sessions of the class `AuthService` (message_bus/src/auth/auth-service.ts): the token of a user, its
-- validation and its revocation. A call passes the database on; an error keeps what was written before
-- it, since no call runs in a transaction. An insertion is refused where a unique or a foreign key of
-- the schema refuses it.
use mathlib.Core.Option
use kpm_cursor.Base.{
  ℕ, suc, ◌+◌, ◌*◌, ◌/◌, String, Bool, true, false, ◌&&◌, Option, none, some, List, [], ◌∷◌, ◌++◌,
  map, str_eq, ltb, ◌==◌, if◌then◌else◌, find, any,
}
use kpm_cursor.MessageBus.Auth.{
  Company, User, CompanyUser, ApiKey, UserSession, Database, Outcome, ok, thrown, Membership,
  AuthUser, Payload, AuthToken, Crypto, Env,
}

-- Tests on the rows of the tables.
abbrev pub has_email : String → User → Bool
has_email email u = str_eq u.email email

abbrev pub has_user_id : ℕ → User → Bool
has_user_id id u = u.id == id

abbrev pub has_company_id : ℕ → Company → Bool
has_company_id id company = company.id == id

abbrev pub has_token_hash : String → UserSession → Bool
has_token_hash hash s = str_eq s.token_hash hash

abbrev pub has_key_hash : String → ApiKey → Bool
has_key_hash hash k = str_eq k.key_hash hash

abbrev pub is_live_session : String → UserSession → Bool
is_live_session hash s = has_token_hash hash s && s.is_active

-- The inner join of a user's rows of `company_users` with `companies`. The query has no ORDER BY; the rows
-- are taken in the order in which they were inserted.
abbrev membership : Option Company → String → List Membership → List Membership
membership none role rest = rest
membership (some company) role rest =
    record { id = company.id; name = company.name; role = role } ∷ rest

abbrev pub memberships : List Company → ℕ → List CompanyUser → List Membership
memberships companies user_id [] = []
memberships companies user_id (row ∷ rows) =
    if row.user_id == user_id
    then membership (find (has_company_id row.company_id) companies) row.role
        (memberships companies user_id rows)
    else memberships companies user_id rows

abbrev pub with_companies : Database → User → AuthUser
with_companies db u = record {
  id = u.id;
  email = u.email;
  first_name = u.first_name;
  last_name = u.last_name;
  role = u.role;
  companies = memberships db.companies u.id db.company_users;
}

unfoldable pub get_user_with_companies : ℕ → Database → Option AuthUser
get_user_with_companies user_id db =
    Option.map (with_companies db) (find (λ u. has_user_id user_id u && u.is_active) db.users)

abbrev pub payload_of : AuthUser → Payload
payload_of u = record { user_id = u.id; email = u.email; role = u.role; companies = u.companies }

-- 24 hours
abbrev pub session_time : ℕ
session_time = 24 * 60 * 60 * 1000

-- The insertion into `user_sessions`, whose `token_hash` is unique.
unfoldable pub insert_session : ℕ → String → ℕ → AuthToken → Database → Database × Outcome AuthToken
insert_session user_id hash expires_at result db =
    if any (has_token_hash hash) db.user_sessions
    then (db, thrown "duplicate key value violates unique constraint")
    else (
      record db {
        user_sessions =
            db.user_sessions
            ++ record {
              id = db.next_session;
              user_id = user_id;
              token_hash = hash;
              is_active = true;
              expires_at = expires_at;
              revoked_at = none;
            }
              ∷ [];
        next_session = suc db.next_session;
      },
      ok result,
    )

abbrev pub revoke_session : ℕ → UserSession → UserSession
revoke_session now s = record s { is_active = false; revoked_at = some now }

unfoldable pub check_session :
    Env → Payload → Option UserSession → Database → Database × Outcome Payload
check_session env payload none db =
    (db, thrown "Token validation failed: Session not found or expired")
check_session env payload (some s) db =
    if ltb s.expires_at env.now
    then (
      record db {
        user_sessions =
            map (λ r. if r.id == s.id then revoke_session env.now r else r) db.user_sessions;
      },
      thrown "Token validation failed: Session expired",
    )
    else (db, ok payload)

module _ (c : Crypto) where
  unfoldable pub issue : Env → Option AuthUser → Database → Database × Outcome AuthToken
  unfolding insert_session
  issue env none db = (db, thrown "User not found")
  issue env (some u) db =
      let token = c.sign (payload_of u) (env.now / 1000) in
      let expires_at = env.now + session_time in
      insert_session u.id (c.sha256 token) expires_at
        (record { token = token; expires_at = expires_at; user = u }) db

  unfoldable pub generate_auth_token : Env → ℕ → Database → Database × Outcome AuthToken
  unfolding issue get_user_with_companies
  generate_auth_token env user_id db = issue env (get_user_with_companies user_id db) db

  unfoldable pub check_payload :
      Env → String → Option Payload → Database → Database × Outcome Payload
  unfolding check_session
  check_payload env token none db = (db, thrown "Token validation failed: Invalid or expired token")
  check_payload env token (some payload) db =
      check_session env payload (find (is_live_session (c.sha256 token)) db.user_sessions) db

  unfoldable pub validate_token : Env → String → Database → Database × Outcome Payload
  unfolding check_payload
  validate_token env token db = check_payload env token (c.verify token (env.now / 1000)) db

  unfoldable pub logout : Env → String → Database → Database
  logout env token db = record db {
    user_sessions =
        map (λ s. if has_token_hash (c.sha256 token) s then revoke_session env.now s else s)
          db.user_sessions;
  }
