-- ===== src/MessageBus/Auth/Revocation.antt =====
-- Revoked sessions stay revoked, in every sequence of calls of `AuthService`
-- (message_bus/src/auth/auth-service.ts).
use kpm_cursor.Base.{
  ℕ, String, ◌≡◌, refl, Bool, true, false, Option, none, some, List, [], ◌∷◌, map, arith, any,
}
use kpm_cursor.MessageBus.Auth.Steps.{run-keeps}
use kpm_cursor.MessageBus.Auth.Writes.{
  expire, end_session, Write, user_added, member_added, login_recorded, session_added,
  session_expired, sessions_ended, key_added, key_used, key_revoked,
}
use kpm_cursor.MessageBus.Auth.Calls.{Operation, Call, run}
use kpm_cursor.MessageBus.Auth.Keys.{revoke_api_key}
use kpm_cursor.MessageBus.Auth.Tokens.{
  has_token_hash, is_live_session, check_session, check_payload, validate_token, logout,
}
use kpm_cursor.MessageBus.Auth.Rows.{
  any-map, IsRetired, Weakens, IsRetired-map, IsRetired-append, find-dead,
}
use kpm_cursor.MessageBus.Auth.{UserSession, Database, is_ok, Payload, Crypto, Env}

abbrev session_hash : UserSession → String
session_hash s = s.token_hash

abbrev session_active : UserSession → Bool
session_active s = s.is_active

-- The token was given out, and no session of it is active.
abbrev pub IsRevoked : String → Database → Type 0
IsRevoked hash db = IsRetired session_hash session_active hash db.user_sessions

expire-Weakens : (now id : ℕ) → Weakens session_hash session_active (expire now id)
expire-Weakens now id s = ground arith

end_session-Weakens :
    (now : ℕ) (hash : String) → Weakens session_hash session_active (end_session now hash)
end_session-Weakens now hash s = ground arith

Write-IsRevoked :
    (c : Crypto) (env : Env) (operation : Operation) (hash : String) (db later : Database)
    → Write c env operation db later
    → IsRevoked hash db
    → IsRevoked hash later
unfolding logout revoke_api_key
Write-IsRevoked c env operation hash db _ (user_added _ u at_next new) h = h
Write-IsRevoked c env operation hash db _ (member_added _ company user role there known) h = h
Write-IsRevoked c env operation hash db _ (login_recorded _ user) h = h
Write-IsRevoked c env operation hash db _ (session_added _ s at_next new) h =
    IsRetired-append session_hash session_active hash s db.user_sessions new h
Write-IsRevoked c env operation hash db _ (session_expired _ other s found past) h =
    IsRetired-map session_hash session_active hash _ db.user_sessions (expire-Weakens env.now s.id)
      h
Write-IsRevoked c env operation hash db _ (sessions_ended _ token e) h =
    IsRetired-map session_hash session_active hash _ db.user_sessions
      (end_session-Weakens env.now (c.sha256 token)) h
Write-IsRevoked c env operation hash db _ (key_added _ k at_next new company user) h = h
Write-IsRevoked c env operation hash db _ (key_used _ id) h = h
Write-IsRevoked c env operation hash db _ (key_revoked _ id user) h = h

rejected :
    (c : Crypto) (env : Env) (token : String) (found : Option Payload) (db : Database)
    → IsRevoked (c.sha256 token) db
    → is_ok (check_payload c env token found db).1 ≡ false
unfolding check_payload check_session
rejected c env token none db h = refl
rejected c env token (some payload) db h =
    rw (find-dead session_hash session_active (c.sha256 token) db.user_sessions h.1)

dead-end_session :
    (now : ℕ) (hash : String) (rows : List UserSession)
    → any (is_live_session hash) (map (end_session now hash) rows) ≡ false
dead-end_session now hash [] = refl
dead-end_session now hash (s ∷ rows) = ground (arith, dead-end_session now hash rows)

logout-IsRevoked :
    (c : Crypto) (env : Env) (token : String) (db : Database)
    → any (has_token_hash (c.sha256 token)) db.user_sessions ≡ true
    → IsRevoked (c.sha256 token) (logout c env token db)
unfolding logout
logout-IsRevoked c env token db issued = (
  rw
      (any-map (has_token_hash (c.sha256 token)) (end_session env.now (c.sha256 token))
        db.user_sessions (λ s. rw ((end_session-Weakens env.now (c.sha256 token) s).0)))
      issued,
  dead-end_session env.now (c.sha256 token) db.user_sessions,
)

-- After the logout of a token that was given out, no sequence of calls (registrations and logins of
-- any user included) makes the token valid again, at any time.
pub logout-for_good :
    (c : Crypto) (env later : Env) (token : String) (calls : List Call) (db : Database)
    → any (has_token_hash (c.sha256 token)) db.user_sessions ≡ true
    → is_ok (validate_token c later token (run c calls (logout c env token db))).1 ≡ false
unfolding validate_token
logout-for_good c env later token calls db issued =
    rejected c later token _ (run c calls (logout c env token db)) (
      run-keeps c (IsRevoked (c.sha256 token))
        (λ e operation d w write h. Write-IsRevoked c e operation (c.sha256 token) d w write h)
        calls (logout c env token db) (logout-IsRevoked c env token db issued))
