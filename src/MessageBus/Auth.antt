-- ===== src/MessageBus/Auth.antt =====
-- The tables that authentication reads and writes (message_bus/src/database/schema.ts) and the types
-- of message_bus/src/auth. A column that no operation here writes or reads is left out. bcrypt, the
-- JWT library and SHA-256 are the parameter `Crypto`; times are milliseconds.
pub mod Rows
pub mod Tokens
pub mod Users
pub mod Keys
pub mod Calls
pub mod Writes
pub mod Steps
pub mod Revocation
pub mod KeyRevocation
pub mod Lasting
pub mod Logins
pub mod Tables
pub mod WellFormed
pub mod Registered
mod Tests
use kpm_cursor.Base.{ℕ, ◌+◌, ◌<◌, String, ◌≡◌, Bool, true, false, Option, some, List}

pub record Company : Type 0 where
  pub id : ℕ
  pub name : String

pub record User : Type 0 where
  pub id : ℕ
  pub email : String
  pub password_hash : String
  pub first_name : String
  pub last_name : String
  pub role : String
  pub is_active : Bool
  pub last_login_at : Option ℕ

pub record CompanyUser : Type 0 where
  pub company_id : ℕ
  pub user_id : ℕ
  pub role : String

pub record ApiKey : Type 0 where
  pub id : ℕ
  pub name : String
  pub key_hash : String
  pub key_prefix : String
  pub company_id : ℕ
  pub user_id : ℕ
  pub scopes : List String
  pub is_active : Bool
  pub last_used_at : Option ℕ
  pub expires_at : Option ℕ
  pub created_at : ℕ
  pub updated_at : ℕ

pub record UserSession : Type 0 where
  pub id : ℕ
  pub user_id : ℕ
  pub token_hash : String
  pub is_active : Bool
  pub expires_at : ℕ
  pub revoked_at : Option ℕ

-- The rows of each table in the order of insertion, and the next number of each `serial` column.
pub record Database : Type 0 where
  pub companies : List Company
  pub users : List User
  pub company_users : List CompanyUser
  pub api_keys : List ApiKey
  pub user_sessions : List UserSession
  pub next_user : ℕ
  pub next_key : ℕ
  pub next_session : ℕ

-- A value, or the message of the error that was thrown.
pub data Outcome {ℓ} (A : Type ℓ) : Type ℓ where
  ok : A → Outcome A
  thrown : String → Outcome A

abbrev pub is_ok {ℓ} : {A : Type ℓ} → Outcome A → Bool
is_ok (ok a) = true
is_ok (thrown message) = false

-- An element of `companies` in a token, and of a request's user.
pub record Membership : Type 0 where
  pub id : ℕ
  pub name : String
  pub role : String

-- What `getUserWithCompanies` returns.
pub record AuthUser : Type 0 where
  pub id : ℕ
  pub email : String
  pub first_name : String
  pub last_name : String
  pub role : String
  pub companies : List Membership

-- The payload of a token, as its readers use it.
pub record Payload : Type 0 where
  pub user_id : ℕ
  pub email : String
  pub role : String
  pub companies : List Membership

pub record AuthToken : Type 0 where
  pub token : String
  pub expires_at : ℕ
  pub user : AuthUser

pub record LoginCredentials : Type 0 where
  pub email : String
  pub password : String

pub record RegisterData : Type 0 where
  pub email : String
  pub password : String
  pub first_name : String
  pub last_name : String
  pub company_id : Option ℕ
  pub role : Option String

pub record ApiKeyData : Type 0 where
  pub name : String
  pub scopes : List String
  pub expires_at : Option ℕ

pub record ApiKeyResult : Type 0 where
  pub id : ℕ
  pub key : String
  pub key_prefix : String
  pub name : String
  pub scopes : List String
  pub expires_at : Option ℕ
  pub created_at : ℕ

-- What `validateApiKey` returns; its `company` and `user` are flat here.
pub record KeyData : Type 0 where
  pub api_key_id : ℕ
  pub user_id : ℕ
  pub company_id : ℕ
  pub scopes : List String
  pub company_name : String
  pub user_email : String
  pub user_first_name : String
  pub user_last_name : String

-- bcrypt's `hash` (with its salt) and `compare`, the JWT library's `sign` and `verify` under the
-- service's secret (with the clock in seconds that it reads), and SHA-256 in hexadecimal.
pub record Crypto : Type 0 where
  pub hash_password : String → String → String
  pub compare_password : String → String → Bool
  pub sign : Payload → ℕ → String
  pub verify : String → ℕ → Option Payload
  pub lifetime : ℕ
  pub sha256 : String → String

-- What is documented of them: a password matches its own hash, and a signed token is accepted until
-- its lifetime is over.
pub record IsCrypto (c : Crypto) : Type 0 where
  pub compare-hash :
      (salt password : String) → c.compare_password password (c.hash_password salt password) ≡ true
  pub verify-sign :
      (p : Payload) (signed_at now : ℕ)
      → now < signed_at + c.lifetime
      → c.verify (c.sign p signed_at) now ≡ some p

-- What the outside supplies to one call: the clock, a salt and the hexadecimal random bytes.
pub record Env : Type 0 where
  pub now : ℕ
  pub salt : String
  pub random_hex : String
