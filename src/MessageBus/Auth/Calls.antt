-- ===== src/MessageBus/Auth/Calls.antt =====
-- Sequences of calls of `AuthService` (message_bus/src/auth/auth-service.ts), in the order in which
-- the database takes them.
use kpm_cursor.Base.{ℕ, String, List, [], ◌∷◌}
use kpm_cursor.MessageBus.Auth.{Database, RegisterData, LoginCredentials, ApiKeyData, Crypto, Env}
use kpm_cursor.MessageBus.Auth.Tokens.{validate_token, logout}
use kpm_cursor.MessageBus.Auth.Users.{register_user, login_user}
use kpm_cursor.MessageBus.Auth.Keys.{create_api_key, validate_api_key, revoke_api_key}

pub data Operation : Type 0 where
  registering : RegisterData → Operation
  logging_in : LoginCredentials → Operation
  validating logging_out : String → Operation
  creating_key : ℕ → ℕ → ApiKeyData → Operation
  validating_key : String → Operation
  revoking_key : ℕ → ℕ → Operation

pub record Call : Type 0 where
  pub env : Env
  pub operation : Operation

module _ (c : Crypto) where
  unfoldable pub perform : Env → Operation → Database → Database
  perform env (registering details) db = (register_user c env details db).0
  perform env (logging_in credentials) db = (login_user c env credentials db).0
  perform env (validating token) db = (validate_token c env token db).0
  perform env (logging_out token) db = logout c env token db
  perform env (creating_key user_id company_id details) db =
      (create_api_key c env user_id company_id details db).0
  perform env (validating_key key) db = (validate_api_key c env key db).0
  perform env (revoking_key key_id user_id) db = revoke_api_key env key_id user_id db

  unfoldable pub run : List Call → Database → Database
  unfolding perform
  run [] db = db
  run (call ∷ calls) db = run calls (perform call.env call.operation db)
