-- ===== src/MessageBus/Middleware.antt =====
-- Authentication in message_bus/src/auth/auth-middleware.ts: who a request is from. A handler passes the request and the database on, or answers with a status. The `catch` blocks
-- around the handlers' bodies, status 500, answer to failures of the database that the model has not.
pub mod Scopes
pub mod Access
pub mod Entry
pub mod Agreement
pub mod KeyRoute
mod Tests
use Prim.Native.String
use kpm_cursor.Base.{
  ℕ, String, Bool, true, false, ◌&&◌, Option, none, some, List, [], ◌∷◌, str_eq, if◌then◌else◌,
  get_or,
}
use kpm_cursor.MessageBus.Auth.Keys.{
  key_data, is_live_key, find_key, is_past, record_use, check_key, api_key_row, key_result,
  insert_key, create_api_key, validate_api_key, KeyListing, list_keys, get_user_api_keys,
  revoke_key, revoke_api_key, role_rank, is_member, meets_role, has_company_access,
}
use kpm_cursor.MessageBus.Auth.Users.{
  to_lower_case, insert_company_user, record_login, insert_user, join_company, register_user,
  check_password, login_user,
}
use kpm_cursor.MessageBus.Auth.Tokens.{
  has_email, has_user_id, has_company_id, has_token_hash, has_key_hash, is_live_session,
  memberships, get_user_with_companies, payload_of, session_time, insert_session, revoke_session,
  check_session, issue, generate_auth_token, check_payload, validate_token, logout,
}
use kpm_cursor.MessageBus.Auth.{
  Company, User, CompanyUser, ApiKey, UserSession, Database, Outcome, is_ok, Membership, AuthUser,
  Payload, AuthToken, LoginCredentials, RegisterData, ApiKeyData, ApiKeyResult, KeyData, Crypto,
  IsCrypto, Env, ok, thrown,
}
use kpm_cursor.Base.Integers.{ℤ, pos, negsuc, parse_int}
use kpm_cursor.Base.Text.{is_empty, has_prefix, text_drop}

pub record RequestUser : Type 0 where
  pub id : ℕ
  pub email : String
  pub role : String
  pub companies : List Membership

-- What the middleware reads of a request: two headers, the parameter of the route, and what earlier
-- middleware has put there.
pub record Request : Type 0 where
  pub authorization : Option String
  pub x_api_key : Option String
  pub company_param : String
  pub user : Option RequestUser
  pub api_key : Option KeyData

-- `next()`, or the status of the answer
pub data Reply : Type 0 where
  next : Request → Reply
  status : ℕ → Reply

abbrev pub passes : Reply → Bool
passes (next req) = true
passes (status code) = false

-- `headers.authorization?.startsWith('Bearer ')`
abbrev pub has_bearer : Request → Bool
has_bearer req = elim req.authorization [ none ↦ false | some text ↦ has_prefix "Bearer " text ]

-- `headers.authorization.substring(7)`
abbrev pub bearer_token : Request → String
bearer_token req = text_drop 7 (get_or req.authorization "")

abbrev pub key_header : Request → String
key_header req = get_or req.x_api_key ""

abbrev pub user_of_payload : Payload → RequestUser
user_of_payload p = record {
  id = p.user_id;
  email = p.email;
  role = p.role;
  companies = p.companies;
}

abbrev pub user_of_key : KeyData → RequestUser
user_of_key k = record {
  id = k.user_id;
  email = k.user_email;
  role = "api";
  companies = record { id = k.company_id; name = k.company_name; role = "api_access" } ∷ [];
}

abbrev pub with_payload : Request → Payload → Request
with_payload req p = record req { user = some (user_of_payload p) }

abbrev pub with_key : Request → KeyData → Request
with_key req k = record req { user = some (user_of_key k); api_key = some k }

abbrev pub token_reply : Request → Outcome Payload → Reply
token_reply req (ok p) = next (with_payload req p)
token_reply req (thrown message) = status 401

abbrev pub key_reply : Request → Outcome KeyData → Reply
key_reply req (ok k) = next (with_key req k)
key_reply req (thrown message) = status 401

abbrev pub payload_or_none : Request → Outcome Payload → Request
payload_or_none req (ok p) = with_payload req p
payload_or_none req (thrown message) = req

abbrev pub key_or_none : Request → Outcome KeyData → Request
key_or_none req (ok k) = with_key req k
key_or_none req (thrown message) = req

-- The user that stands in while the two environment variables turn authentication off.
abbrev pub dev_user : RequestUser
dev_user = record {
  id = 1;
  email = "dev@example.com";
  role = "admin";
  companies = record { id = 1; name = "Test Company"; role = "owner" } ∷ [];
}

module _ (c : Crypto) where
  unfoldable pub authenticate_jwt : Env → Request → Database → Database × Reply
  authenticate_jwt env req db =
      if has_bearer req
      then (let result : Database × Outcome Payload = validate_token c env (bearer_token req) db in
          (result.0, token_reply req result.1))
      else (db, status 401)

  -- An empty header counts as none.
  unfoldable pub authenticate_api_key : Env → Request → Database → Database × Reply
  authenticate_api_key env req db =
      if is_empty (key_header req)
      then (db, status 401)
      else let result : Database × Outcome KeyData = validate_api_key c env (key_header req) db in
        (result.0, key_reply req result.1)

  unfoldable pub authenticate : Env → Request → Database → Database × Reply
  unfolding authenticate_jwt authenticate_api_key
  authenticate env req db =
      if has_bearer req
      then authenticate_jwt env req db
      else if is_empty (key_header req)
      then (db, status 401)
      else authenticate_api_key env req db

  unfoldable pub optional_auth : Env → Request → Database → Database × Reply
  optional_auth env req db =
      if has_bearer req
      then (let result : Database × Outcome Payload = validate_token c env (bearer_token req) db in
          (result.0, next (payload_or_none req result.1)))
      else if is_empty (key_header req)
      then (db, next req)
      else let result : Database × Outcome KeyData = validate_api_key c env (key_header req) db in
        (result.0, next (key_or_none req result.1))

  unfoldable pub dev_bypass :
      Option String → Option String → Env → Request → Database → Database × Reply
  unfolding authenticate
  dev_bypass node_env dev_bypass_auth env req db =
      if str_eq (get_or node_env "") "development" && str_eq (get_or dev_bypass_auth "") "true"
      then (db, next (record req { user = some dev_user }))
      else authenticate env req db
