-- ===== src/MessageBus/Auth/Steps.antt =====
-- Each call of `AuthService` (message_bus/src/auth/auth-service.ts) as the writes that it makes.
use kpm_cursor.Base.{
  ℕ, String, ◌≡◌, refl, inl, inr, true, Option, none, some, List, [], ◌∷◌, arith, ltb, ◌==◌,
  Bool-cases, Option-cases, get_or, find, any, ltb→lt,
}
use kpm_cursor.MessageBus.Auth.Writes.{
  Write, Writes, Writes-keeps, user_added, member_added, login_recorded, session_added,
  session_expired, sessions_ended, key_added, key_used, key_revoked, stop, next_write,
}
use kpm_cursor.MessageBus.Auth.Calls.{
  Operation, Call, perform, run, registering, logging_in, validating, logging_out, creating_key,
  validating_key, revoking_key,
}
use kpm_cursor.MessageBus.Auth.Keys.{
  is_past, check_key, insert_key, create_api_key, validate_api_key,
}
use kpm_cursor.MessageBus.Auth.Users.{
  role_or, to_lower_case, insert_company_user, record_login, new_user, insert_user, join_company,
  register_user, check_password, login_user,
}
use kpm_cursor.MessageBus.Auth.Tokens.{
  has_email, has_user_id, has_company_id, has_token_hash, has_key_hash, is_live_session,
  get_user_with_companies, insert_session, check_session, issue, generate_auth_token, check_payload,
  validate_token,
}
use kpm_cursor.MessageBus.Auth.Rows.{any-append}
use kpm_cursor.MessageBus.Auth.{
  User, ApiKey, UserSession, Database, Payload, AuthToken, LoginCredentials, RegisterData, KeyData,
  Crypto, Env,
}

module _ (c : Crypto) (env : Env) (operation : Operation) where
  one : (db later : Database) → Write c env operation db later → Writes c env operation db later
  one db later w = next_write db later later w (stop later)

  insert_session-Writes :
      (user_id : ℕ) (hash : String) (expires_at : ℕ) (result : AuthToken) (db : Database)
      → Writes c env operation db (insert_session user_id hash expires_at result db).0
  unfolding insert_session
  insert_session-Writes user_id hash expires_at result db =
      elim (Bool-cases (any (has_token_hash hash) db.user_sessions)) [
        | inl e ↦ rw e (stop db)
        | inr e ↦ rw e (one db _ (session_added db _ refl e))
      ]

  generate_auth_token-Writes :
      (user_id : ℕ) (db : Database)
      → Writes c env operation db (generate_auth_token c env user_id db).0
  unfolding generate_auth_token issue
  generate_auth_token-Writes user_id db = elim (Option-cases (get_user_with_companies user_id db)) [
    | inl e ↦ rw e (stop db)
    | inr (u, e) ↦ rw e (insert_session-Writes _ _ _ _ db)
  ]

  check_session-Writes :
      (payload : Payload) (hash : String) (found : Option UserSession) (db : Database)
      → find (is_live_session hash) db.user_sessions ≡ found
      → Writes c env operation db (check_session env payload found db).0
  unfolding check_session
  check_session-Writes payload hash none db h = stop db
  check_session-Writes payload hash (some s) db h = elim (Bool-cases (ltb s.expires_at env.now)) [
    | inl e ↦ rw e (one db _ (session_expired db hash s h (ltb→lt s.expires_at env.now e)))
    | inr e ↦ rw e (stop db)
  ]

  check_payload-Writes :
      (token : String) (found : Option Payload) (db : Database)
      → Writes c env operation db (check_payload c env token found db).0
  unfolding check_payload
  check_payload-Writes token none db = stop db
  check_payload-Writes token (some payload) db =
      check_session-Writes payload (c.sha256 token) _ db refl

  join_company-Writes :
      (user_id : ℕ) (details : RegisterData) (db : Database)
      → any (has_user_id user_id) db.users ≡ true
      → Writes c env operation db (join_company c env user_id details db).0
  unfolding join_company
  join_company-Writes user_id details db user =
      let company_id = get_or details.company_id 0 in
      let role = role_or details.role "member" in
      elim (Bool-cases (company_id == 0)) [
        | inl e ↦ rw e (generate_auth_token-Writes user_id db)
        | inr e ↦ elim (Bool-cases (any (has_company_id company_id) db.companies)) [
          | inl f ↦
              rw (e, f)
                (next_write db (insert_company_user company_id user_id role db) _
                  (member_added db company_id user_id role f user)
                  (generate_auth_token-Writes user_id _))
          | inr f ↦ rw (e, f) (stop db)
        ]
      ]

  register_user-Writes :
      (details : RegisterData) (db : Database)
      → Writes c env operation db (register_user c env details db).0
  unfolding register_user
  register_user-Writes details db =
      elim (Bool-cases (any (has_email (to_lower_case details.email)) db.users)) [
        | inl e ↦ rw e (stop db)
        | inr e ↦
            let there : any (has_user_id db.next_user) (insert_user c env details db).users ≡ true =
              rw (any-append (has_user_id db.next_user) (new_user c env details db) db.users)
                (ground arith) in
            rw e (
              next_write db (insert_user c env details db) _
                (user_added db (new_user c env details db) refl e)
                (join_company-Writes db.next_user details _ there))
      ]

  check_password-Writes :
      (credentials : LoginCredentials) (found : Option User) (db : Database)
      → Writes c env operation db (check_password c env credentials found db).0
  unfolding check_password
  check_password-Writes credentials none db = stop db
  check_password-Writes credentials (some u) db =
      elim (Bool-cases (c.compare_password credentials.password u.password_hash)) [
        | inl e ↦ rw e (
            next_write db (record_login env.now u.id db) _ (login_recorded db u.id)
              (generate_auth_token-Writes u.id _))
        | inr e ↦ rw e (stop db)
      ]

  insert_key-Writes :
      (key : String) (k : ApiKey) (db : Database)
      → k.id ≡ db.next_key
      → Writes c env operation db (insert_key key k db).0
  unfolding insert_key
  insert_key-Writes key k db at_next =
      elim (Bool-cases (any (has_key_hash k.key_hash) db.api_keys)) [
        | inl e ↦ rw e (stop db)
        | inr e ↦ elim (Bool-cases (any (has_company_id k.company_id) db.companies)) [
          | inl f ↦ elim (Bool-cases (any (has_user_id k.user_id) db.users)) [
            | inl g ↦ rw (e, f, g) (one db _ (key_added db k at_next e f g))
            | inr g ↦ rw (e, f, g) (stop db)
          ]
          | inr f ↦ rw (e, f) (stop db)
        ]
      ]

  check_key-Writes :
      (found : Option (ApiKey × KeyData)) (db : Database)
      → Writes c env operation db (check_key env.now found db).0
  check_key-Writes none db = stop db
  check_key-Writes (some (k, details)) db = elim (Bool-cases (is_past env.now k.expires_at)) [
    | inl e ↦ rw e (stop db)
    | inr e ↦ rw e (one db _ (key_used db k.id))
  ]

pub perform-Writes :
    (c : Crypto) (env : Env) (operation : Operation) (db : Database)
    → Writes c env operation db (perform c env operation db)
unfolding perform login_user validate_token create_api_key validate_api_key
perform-Writes c env (registering details) db = register_user-Writes c env _ details db
perform-Writes c env (logging_in credentials) db = check_password-Writes c env _ credentials _ db
perform-Writes c env (validating token) db = check_payload-Writes c env _ token _ db
perform-Writes c env (logging_out token) db = one c env _ db _ (sessions_ended db token refl)
perform-Writes c env (creating_key user_id company_id details) db =
    insert_key-Writes c env _ _ _ db refl
perform-Writes c env (validating_key key) db = check_key-Writes c env _ _ db
perform-Writes c env (revoking_key key_id user_id) db =
    one c env _ db _ (key_revoked db key_id user_id)

-- What every write of every call keeps, every sequence of calls keeps.
pub run-keeps {κ} :
    (c : Crypto) (P : Database → Type κ)
    → ((env : Env) (operation : Operation) (db later : Database)
        → Write c env operation db later
        → P db
        → P later)
    → (calls : List Call) (db : Database) → P db
    → P (run c calls db)
unfolding run
run-keeps c P keeps [] db h = h
run-keeps c P keeps (call ∷ calls) db h =
    run-keeps c P keeps calls (perform c call.env call.operation db) (
      Writes-keeps c call.env call.operation P (keeps call.env call.operation) db _
        (perform-Writes c call.env call.operation db) h)
