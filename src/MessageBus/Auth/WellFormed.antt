-- ===== src/MessageBus/Auth/WellFormed.antt =====
-- Well-formed tables stay well formed in every sequence of calls of `AuthService`
-- (message_bus/src/auth/auth-service.ts).
use kpm_cursor.Base.{◌≡◌, List, map, All-append}
use kpm_cursor.MessageBus.Auth.Tables.{
  user_number, user_email, key_number, session_text, IsWellFormed, All-mono, All-image, known_still,
  login_row, login_row-id, login_row-email, known_after_login, expire-hash, end_session-hash,
  used_row, used_row-same, revoke_key-same,
}
use kpm_cursor.MessageBus.Auth.KeyRevocation.{api_key_hash}
use kpm_cursor.MessageBus.Auth.Lasting.{session_id, expire-id, end_session-id}
use kpm_cursor.MessageBus.Auth.Steps.{run-keeps}
use kpm_cursor.MessageBus.Auth.Writes.{
  expire, end_session, Write, user_added, member_added, login_recorded, session_added,
  session_expired, sessions_ended, key_added, key_used, key_revoked,
}
use kpm_cursor.MessageBus.Auth.Calls.{Operation, Call, run}
use kpm_cursor.MessageBus.Auth.Keys.{revoke_key, revoke_api_key}
use kpm_cursor.MessageBus.Auth.Tokens.{logout}
use kpm_cursor.MessageBus.Auth.Rows.{
  IsUnique-append, IsUnique-map, IsNumbered-append, IsNumbered-map,
}
use kpm_cursor.MessageBus.Auth.{ApiKey, UserSession, Database, Crypto, Env}

-- The keys after a rewriting that keeps ids, hashes and foreign keys.
module _ (f : ApiKey → ApiKey)
    (same : (k : ApiKey)
      → ((f k).id ≡ k.id)
        × ((f k).key_hash ≡ k.key_hash)
        × ((f k).company_id ≡ k.company_id)
        × ((f k).user_id ≡ k.user_id))
    (db : Database) (h : IsWellFormed db) where
  rewritten_keys-IsWellFormed : IsWellFormed (record db { api_keys = map f db.api_keys })
  rewritten_keys-IsWellFormed = record {
    users = record { ids = h.users.ids; emails = h.users.emails };
    sessions = record { ids = h.sessions.ids; hashes = h.sessions.hashes };
    keys = record {
      ids = IsNumbered-map key_number f 0 db.next_key db.api_keys (λ k. (same k).0) h.keys.ids;
      hashes = IsUnique-map api_key_hash f db.api_keys (λ k. (same k).1) h.keys.hashes;
    };
    member_rows = h.member_rows;
    key_rows = All-image f db.api_keys (λ k r. rw ((same k).2, (same k).3) r) h.key_rows;
  }

-- The sessions after a rewriting that keeps ids and hashes.
module _ (f : UserSession → UserSession) (ids_same : (s : UserSession) → (f s).id ≡ s.id)
    (hashes_same : (s : UserSession) → (f s).token_hash ≡ s.token_hash) (db : Database)
    (h : IsWellFormed db) where
  rewritten_sessions-IsWellFormed :
      IsWellFormed (record db { user_sessions = map f db.user_sessions })
  rewritten_sessions-IsWellFormed = record {
    users = record { ids = h.users.ids; emails = h.users.emails };
    sessions = record {
      ids = IsNumbered-map session_id f 0 db.next_session db.user_sessions ids_same h.sessions.ids;
      hashes = IsUnique-map session_text f db.user_sessions hashes_same h.sessions.hashes;
    };
    keys = record { ids = h.keys.ids; hashes = h.keys.hashes };
    member_rows = h.member_rows;
    key_rows = h.key_rows;
  }

Write-IsWellFormed :
    (c : Crypto) (env : Env) (operation : Operation) (db later : Database)
    → Write c env operation db later
    → IsWellFormed db
    → IsWellFormed later
unfolding logout revoke_api_key
Write-IsWellFormed c env operation db _ (user_added _ u at_next new) h = record {
  users = record {
    ids = IsNumbered-append user_number 0 db.next_user u db.users at_next h.users.ids;
    emails = IsUnique-append user_email u db.users new h.users.emails;
  };
  sessions = record { ids = h.sessions.ids; hashes = h.sessions.hashes };
  keys = record { ids = h.keys.ids; hashes = h.keys.hashes };
  member_rows =
      All-mono db.company_users (λ m r. (r.0, known_still m.user_id u db.users r.1)) h.member_rows;
  key_rows = All-mono db.api_keys (λ k r. (r.0, known_still k.user_id u db.users r.1)) h.key_rows;
}
Write-IsWellFormed c env operation db _ (member_added _ company user role there known) h = record {
  users = record { ids = h.users.ids; emails = h.users.emails };
  sessions = record { ids = h.sessions.ids; hashes = h.sessions.hashes };
  keys = record { ids = h.keys.ids; hashes = h.keys.hashes };
  member_rows = All-append _ db.company_users _ h.member_rows ((there, known), tt);
  key_rows = h.key_rows;
}
Write-IsWellFormed c env operation db _ (login_recorded _ user) h = record {
  users = record {
    ids =
        IsNumbered-map user_number (login_row env.now user) 0 db.next_user db.users
          (login_row-id env.now user) h.users.ids;
    emails =
        IsUnique-map user_email (login_row env.now user) db.users (login_row-email env.now user)
          h.users.emails;
  };
  sessions = record { ids = h.sessions.ids; hashes = h.sessions.hashes };
  keys = record { ids = h.keys.ids; hashes = h.keys.hashes };
  member_rows =
      All-mono db.company_users
        (λ m r. (r.0, known_after_login m.user_id env.now user db.users r.1)) h.member_rows;
  key_rows =
      All-mono db.api_keys (λ k r. (r.0, known_after_login k.user_id env.now user db.users r.1))
        h.key_rows;
}
Write-IsWellFormed c env operation db _ (session_added _ s at_next new) h = record {
  users = record { ids = h.users.ids; emails = h.users.emails };
  sessions = record {
    ids = IsNumbered-append session_id 0 db.next_session s db.user_sessions at_next h.sessions.ids;
    hashes = IsUnique-append session_text s db.user_sessions new h.sessions.hashes;
  };
  keys = record { ids = h.keys.ids; hashes = h.keys.hashes };
  member_rows = h.member_rows;
  key_rows = h.key_rows;
}
Write-IsWellFormed c env operation db _ (session_expired _ other s found past) h =
    rewritten_sessions-IsWellFormed (expire env.now s.id) (expire-id env.now s.id)
      (expire-hash env.now s.id) db h
Write-IsWellFormed c env operation db _ (sessions_ended _ token e) h =
    rewritten_sessions-IsWellFormed (end_session env.now (c.sha256 token))
      (end_session-id env.now (c.sha256 token)) (end_session-hash env.now (c.sha256 token)) db h
Write-IsWellFormed c env operation db _ (key_added _ k at_next new company user) h = record {
  users = record { ids = h.users.ids; emails = h.users.emails };
  sessions = record { ids = h.sessions.ids; hashes = h.sessions.hashes };
  keys = record {
    ids = IsNumbered-append key_number 0 db.next_key k db.api_keys at_next h.keys.ids;
    hashes = IsUnique-append api_key_hash k db.api_keys new h.keys.hashes;
  };
  member_rows = h.member_rows;
  key_rows = All-append _ db.api_keys _ h.key_rows ((company, user), tt);
}
Write-IsWellFormed c env operation db _ (key_used _ id) h =
    rewritten_keys-IsWellFormed (used_row env.now id) (used_row-same env.now id) db h
Write-IsWellFormed c env operation db _ (key_revoked _ id user) h =
    rewritten_keys-IsWellFormed (revoke_key env.now id user) (revoke_key-same env.now id user) db h

-- Every sequence of calls keeps the tables well formed: serial ids ascend and stay below the next one,
-- no two users share an e-mail, no two sessions or keys a hash, and the rows of memberships and of
-- keys refer to companies and users that are there.
pub run-IsWellFormed :
    (c : Crypto) (calls : List Call) (db : Database)
    → IsWellFormed db
    → IsWellFormed (run c calls db)
run-IsWellFormed c calls db h = run-keeps c IsWellFormed (Write-IsWellFormed c) calls db h
