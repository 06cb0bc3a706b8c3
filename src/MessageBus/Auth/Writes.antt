-- ===== src/MessageBus/Auth/Writes.antt =====
-- The writes that calls of `AuthService` (message_bus/src/auth/auth-service.ts) make to the tables, as
-- a step relation.
use kpm_cursor.Base.{
  ℕ, suc, ◌<◌, String, ◌≡◌, true, false, some, [], ◌∷◌, ◌++◌, map, ◌==◌, if◌then◌else◌, find, any,
}
use kpm_cursor.MessageBus.Auth.Calls.{Operation, logging_out}
use kpm_cursor.MessageBus.Auth.Keys.{record_use, revoke_api_key}
use kpm_cursor.MessageBus.Auth.Users.{insert_company_user, record_login}
use kpm_cursor.MessageBus.Auth.Tokens.{
  has_email, has_user_id, has_company_id, has_token_hash, has_key_hash, is_live_session,
  revoke_session, logout,
}
use kpm_cursor.MessageBus.Auth.{User, ApiKey, UserSession, Database, Crypto, Env}

abbrev pub expire : ℕ → ℕ → UserSession → UserSession
expire now id s = if s.id == id then revoke_session now s else s

abbrev pub end_session : ℕ → String → UserSession → UserSession
end_session now hash s = if has_token_hash hash s then revoke_session now s else s

-- One write, with what the call has checked before it.
pub data Write (c : Crypto) (env : Env) (operation : Operation) : Database → Database → Type 0 where
  user_added :
      (db : Database) (u : User)
      → u.id ≡ db.next_user
      → any (has_email u.email) db.users ≡ false
      → Write c env operation db
          (record db { users = db.users ++ u ∷ []; next_user = suc db.next_user })
  member_added :
      (db : Database) (company_id user_id : ℕ) (role : String)
      → any (has_company_id company_id) db.companies ≡ true
      → any (has_user_id user_id) db.users ≡ true
      → Write c env operation db (insert_company_user company_id user_id role db)
  login_recorded :
      (db : Database) (user_id : ℕ) → Write c env operation db (record_login env.now user_id db)
  session_added :
      (db : Database) (s : UserSession)
      → s.id ≡ db.next_session
      → any (has_token_hash s.token_hash) db.user_sessions ≡ false
      → Write c env operation db (record db {
        user_sessions = db.user_sessions ++ s ∷ [];
        next_session = suc db.next_session;
      })
  session_expired :
      (db : Database) (hash : String) (s : UserSession)
      → find (is_live_session hash) db.user_sessions ≡ some s
      → s.expires_at < env.now
      → Write c env operation db
          (record db { user_sessions = map (expire env.now s.id) db.user_sessions })
  sessions_ended :
      (db : Database) (token : String)
      → operation ≡ logging_out token
      → Write c env operation db (logout c env token db)
  key_added :
      (db : Database) (k : ApiKey)
      → k.id ≡ db.next_key
      → any (has_key_hash k.key_hash) db.api_keys ≡ false
      → any (has_company_id k.company_id) db.companies ≡ true
      → any (has_user_id k.user_id) db.users ≡ true
      → Write c env operation db
          (record db { api_keys = db.api_keys ++ k ∷ []; next_key = suc db.next_key })
  key_used : (db : Database) (id : ℕ) → Write c env operation db (record_use env.now id db)
  key_revoked :
      (db : Database) (key_id user_id : ℕ)
      → Write c env operation db (revoke_api_key env key_id user_id db)

pub data Writes (c : Crypto) (env : Env) (operation : Operation)
    : Database → Database → Type 0 where
  stop : (db : Database) → Writes c env operation db db
  next_write :
      (db middle later : Database)
      → Write c env operation db middle
      → Writes c env operation middle later
      → Writes c env operation db later

module _ (c : Crypto) (env : Env) (operation : Operation) where
  -- What every write keeps, all of them keep.
  pub Writes-keeps {κ} :
      (P : Database → Type κ)
      → ((db later : Database) → Write c env operation db later → P db → P later)
      → (db later : Database) → Writes c env operation db later
      → P db
      → P later
  Writes-keeps P keeps db later (stop _) h = h
  Writes-keeps P keeps db later (next_write _ middle _ w ws) h =
      Writes-keeps P keeps middle later ws (keeps db middle w h)
