-- ===== src/MessageBus/Auth/Lasting.antt =====
-- Sessions that stand until they end, in every sequence of calls of `AuthService`
-- (message_bus/src/auth/auth-service.ts).
use kpm_cursor.Base.{
  ℕ, ◌≤◌, String, ◌≡◌, sym, ap, ◌∙◌, ◌≢◌, Bool, false, Option, some, List, [], ◌∷◌, ◌++◌, map,
  arith, eq_iff, str_eq, find, All,
}
use kpm_cursor.MessageBus.Auth.Steps.{perform-Writes}
use kpm_cursor.MessageBus.Auth.Writes.{
  expire, end_session, Write, Writes-keeps, user_added, member_added, login_recorded, session_added,
  session_expired, sessions_ended, key_added, key_used, key_revoked,
}
use kpm_cursor.MessageBus.Auth.Keys.{revoke_api_key}
use kpm_cursor.MessageBus.Auth.Rows.{apart, IsNumbered, IsNumbered-append, IsNumbered-map, same_id}
use kpm_cursor.MessageBus.Auth.Tokens.{is_live_session, logout}
use kpm_cursor.MessageBus.Auth.{UserSession, Database, Crypto, Env}
use kpm_cursor.MessageBus.Auth.Calls.{Operation, Call, perform, run, logging_out}

abbrev pub session_id : UserSession → ℕ
session_id s = s.id

pub expire-id : (now id : ℕ) (s : UserSession) → (expire now id s).id ≡ s.id
expire-id now id s = ground arith

pub end_session-id :
    (now : ℕ) (hash : String) (s : UserSession) → (end_session now hash s).id ≡ s.id
end_session-id now hash s = ground arith

pub Write-IsNumbered :
    (c : Crypto) (env : Env) (operation : Operation) (db later : Database)
    → Write c env operation db later
    → IsNumbered session_id 0 db.next_session db.user_sessions
    → IsNumbered session_id 0 later.next_session later.user_sessions
unfolding logout revoke_api_key
Write-IsNumbered c env operation db _ (user_added _ u at_next new) h = h
Write-IsNumbered c env operation db _ (member_added _ company user role there known) h = h
Write-IsNumbered c env operation db _ (login_recorded _ user) h = h
Write-IsNumbered c env operation db _ (session_added _ s at_next new) h =
    IsNumbered-append session_id 0 db.next_session s db.user_sessions at_next h
Write-IsNumbered c env operation db _ (session_expired _ other s found past) h =
    IsNumbered-map session_id (expire env.now s.id) 0 _ _ (expire-id env.now s.id) h
Write-IsNumbered c env operation db _ (sessions_ended _ token e) h =
    IsNumbered-map session_id _ 0 _ _ (end_session-id env.now (c.sha256 token)) h
Write-IsNumbered c env operation db _ (key_added _ k at_next new company user) h = h
Write-IsNumbered c env operation db _ (key_used _ id) h = h
Write-IsNumbered c env operation db _ (key_revoked _ id user) h = h

-- The first active row with the hash.
abbrev live : String → List UserSession → Option UserSession
live hash rows = find (is_live_session hash) rows

live-append :
    (hash : String) (x : UserSession) (rows : List UserSession) {s : UserSession}
    → live hash rows ≡ some s
    → live hash (rows ++ x ∷ []) ≡ some s
live-append hash x [] e = ground arith
live-append hash x (r ∷ rows) {s} e = ground (arith, live-append hash x rows {s = s})

live-expire :
    (hash : String) (now id : ℕ) (rows : List UserSession) {s : UserSession}
    → s.id ≢ id
    → live hash rows ≡ some s
    → live hash (map (expire now id) rows) ≡ some s
live-expire hash now id [] apart e = ground arith
live-expire hash now id (r ∷ rows) {s} apart e =
    ground (arith, apart, live-expire hash now id rows {s = s} apart)

live-end_session :
    (hash other : String) (now : ℕ) (rows : List UserSession) {s : UserSession}
    → str_eq other hash ≡ false
    → live hash rows ≡ some s
    → live hash (map (end_session now other) rows) ≡ some s
live-end_session hash other now [] apart e = ground arith
live-end_session hash other now (r ∷ rows) {s} apart e = ground (
  arith,
  apart,
  eq_iff r.token_hash hash,
  eq_iff r.token_hash other,
  eq_iff other hash,
  live-end_session hash other now rows {s = s} apart,
)

-- A call before the time, which is not a logout of a token with the hash.
abbrev logs_out : Crypto → String → Operation → Bool
logs_out c hash (logging_out token) = str_eq (c.sha256 token) hash
logs_out c hash _ = false

abbrev pub IsHarmless : Crypto → String → ℕ → Call → Type 0
IsHarmless c hash expires_at call =
    (call.env.now ≤ expires_at) × (logs_out c hash call.operation ≡ false)

-- The session of a token: its row is the first active one with the hash, and ends at the time.
pub record IsStanding (hash : String) (expires_at : ℕ) (db : Database) : Type 0 where
  pub session : UserSession
  pub numbered : IsNumbered session_id 0 db.next_session db.user_sessions
  pub live_there : find (is_live_session hash) db.user_sessions ≡ some session
  pub ends : session.expires_at ≡ expires_at

Write-live :
    (c : Crypto) (env : Env) (operation : Operation) (hash : String) (s : UserSession)
    (db later : Database)
    → Write c env operation db later
    → env.now ≤ s.expires_at
    → logs_out c hash operation ≡ false
    → IsNumbered session_id 0 db.next_session db.user_sessions
    → live hash db.user_sessions ≡ some s
    → live hash later.user_sessions ≡ some s
unfolding logout revoke_api_key
Write-live c env operation hash s db _ (user_added _ u at_next new) early other h e = e
Write-live c env operation hash s db _ (member_added _ company user role there known) early other h
      e =
    e
Write-live c env operation hash s db _ (login_recorded _ user) early other h e = e
Write-live c env operation hash s db _ (session_added _ x at_next new) early other h e =
    live-append hash x _ e
Write-live c env operation hash s db _ (session_expired _ other_hash x found past) early other h e =
    live-expire hash env.now x.id db.user_sessions
      (λ same.
        let one_row : s ≡ x =
          same_id session_id (is_live_session hash) (is_live_session other_hash) 0 _ _ h e found
            same in
        let due : s.expires_at ≡ x.expires_at = ap (λ r. r.expires_at) one_row in
        ground (arith, due, early, past))
      e
Write-live c env operation hash s db _ (sessions_ended _ token o) early other h e =
    live-end_session hash (c.sha256 token) env.now db.user_sessions
      (ap (logs_out c hash) (sym o) ∙ other) e
Write-live c env operation hash s db _ (key_added _ k at_next new company user) early other h e = e
Write-live c env operation hash s db _ (key_used _ id) early other h e = e
Write-live c env operation hash s db _ (key_revoked _ id user) early other h e = e

perform-IsStanding :
    (c : Crypto) (hash : String) (expires_at : ℕ) (call : Call) (db : Database)
    → IsHarmless c hash expires_at call
    → IsStanding hash expires_at db
    → IsStanding hash expires_at (perform c call.env call.operation db)
perform-IsStanding c hash expires_at call db harmless st =
    Writes-keeps c call.env call.operation (IsStanding hash expires_at)
      (λ d later w h. record {
        session = h.session;
        numbered = Write-IsNumbered c call.env call.operation d later w h.numbered;
        live_there =
            Write-live c call.env call.operation hash h.session d later w
              (omega (arith, harmless.0, h.ends)) harmless.1 h.numbered h.live_there;
        ends = h.ends;
      })
      db _ (perform-Writes c call.env call.operation db) st

pub run-IsStanding :
    (c : Crypto) (hash : String) (expires_at : ℕ) (calls : List Call) (db : Database)
    → All (IsHarmless c hash expires_at) calls
    → IsStanding hash expires_at db
    → IsStanding hash expires_at (run c calls db)
unfolding run
run-IsStanding c hash expires_at [] db h st = st
run-IsStanding c hash expires_at (call ∷ calls) db h st =
    run-IsStanding c hash expires_at calls (perform c call.env call.operation db) h.1
      (perform-IsStanding c hash expires_at call db h.0 st)
