-- ===== src/MessageBus/Middleware/Entry.antt =====
-- Which requests `authenticate` and `optionalAuth` (message_bus/src/auth/auth-middleware.ts) let pass,
-- and with which user.
use kpm_cursor.Base.{
  ◌/◌, ◌≤◌, ◌≡◌, refl, subst, ◌↔◌, inl, inr, true, false, Option, none, some, List, arith, ltb,
  Bool-cases, find, any,
}
use kpm_cursor.MessageBus.Middleware.{
  Request, Reply, has_bearer, bearer_token, key_header, with_payload, with_key, token_reply,
  key_reply, payload_or_none, key_or_none, authenticate_jwt, authenticate_api_key, authenticate,
  optional_auth, next, status,
}
use kpm_cursor.MessageBus.Auth.Revocation.{logout-for_good}
use kpm_cursor.MessageBus.Auth.Calls.{Call, run}
use kpm_cursor.MessageBus.Auth.Keys.{find_key, is_past, check_key, validate_api_key}
use kpm_cursor.MessageBus.Auth.Tokens.{
  has_token_hash, is_live_session, check_session, check_payload, validate_token, logout,
}
use kpm_cursor.MessageBus.Auth.{
  ApiKey, UserSession, Database, Outcome, is_ok, Payload, KeyData, Crypto, Env, ok, thrown,
}
use kpm_cursor.Base.Text.{is_empty}

-- Whom a request is from, read off its headers and the tables: the holder of a signed token whose
-- first active session has not ended, or, without such a header, the holder of an active key that has
-- not expired.
pub data IsIdentified (c : Crypto) (env : Env) (db : Database) (req : Request)
    : Request → Type 0 where
  by_token :
      (p : Payload) (s : UserSession)
      → has_bearer req ≡ true
      → c.verify (bearer_token req) (env.now / 1000) ≡ some p
      → find (is_live_session (c.sha256 (bearer_token req))) db.user_sessions ≡ some s
      → env.now ≤ s.expires_at
      → IsIdentified c env db req (with_payload req p)
  by_key :
      (k : ApiKey) (details : KeyData)
      → has_bearer req ≡ false
      → is_empty (key_header req) ≡ false
      → find_key (c.sha256 (key_header req)) db db.api_keys ≡ some (k, details)
      → is_past env.now k.expires_at ≡ false
      → IsIdentified c env db req (with_key req details)

-- What a reply must come with.
abbrev IfNext : Crypto → Env → Database → Request → Reply → Type 0
IfNext c env db req (next r) = IsIdentified c env db req r
IfNext c env db req (status code) = Unit

module _ (c : Crypto) (env : Env) (db : Database) (req : Request) where
  session_reply :
      (p : Payload) (found : Option UserSession)
      → has_bearer req ≡ true
      → c.verify (bearer_token req) (env.now / 1000) ≡ some p
      → find (is_live_session (c.sha256 (bearer_token req))) db.user_sessions ≡ found
      → IfNext c env db req (token_reply req (check_session env p found db).1)
  unfolding check_session
  session_reply p none bearer verified e = tt
  session_reply p (some s) bearer verified e = elim (Bool-cases (ltb s.expires_at env.now)) [
    | inl past ↦ rw past tt
    | inr early ↦ rw early (by_token p s bearer verified e (ground (arith, early)))
  ]

  payload_reply :
      (found : Option Payload)
      → has_bearer req ≡ true
      → c.verify (bearer_token req) (env.now / 1000) ≡ found
      → IfNext c env db req (token_reply req (check_payload c env (bearer_token req) found db).1)
  unfolding check_payload
  payload_reply none bearer verified = tt
  payload_reply (some p) bearer verified = session_reply p _ bearer verified refl

  found_reply :
      (found : Option (ApiKey × KeyData))
      → has_bearer req ≡ false
      → is_empty (key_header req) ≡ false
      → find_key (c.sha256 (key_header req)) db db.api_keys ≡ found
      → IfNext c env db req (key_reply req (check_key env.now found db).1)
  found_reply none bearer header e = tt
  found_reply (some (k, details)) bearer header e =
      elim (Bool-cases (is_past env.now k.expires_at)) [
        | inl past ↦ rw past tt
        | inr early ↦ rw early (by_key k details bearer header e early)
      ]

  authenticate-IfNext : IfNext c env db req (authenticate c env req db).1
  unfolding authenticate authenticate_jwt authenticate_api_key validate_token validate_api_key
  authenticate-IfNext = elim (Bool-cases (has_bearer req)) [
    | inl bearer ↦ rw bearer (payload_reply _ bearer refl)
    | inr plain ↦ elim (Bool-cases (is_empty (key_header req))) [
      | inl empty ↦ rw (plain, empty) tt
      | inr header ↦ rw (plain, header) (found_reply _ plain header refl)
    ]
  ]

  identified-authenticate :
      (r : Request) → IsIdentified c env db req r → (authenticate c env req db).1 ≡ next r
  unfolding authenticate authenticate_jwt authenticate_api_key validate_token validate_api_key
      check_payload check_session
  identified-authenticate _ (by_token p s bearer verified found early) =
      let open_still : ltb s.expires_at env.now ≡ false = ground (arith, early) in
      rw (bearer, verified, found, open_still)
  identified-authenticate _ (by_key k details plain header found early) =
      rw (plain, header, found, early)

-- A request passes `authenticate` as another one exactly when that one carries the user (and the key)
-- that its headers and the tables identify.
pub authenticate_iff :
    (c : Crypto) (env : Env) (db : Database) (req r : Request)
    → ((authenticate c env req db).1 ≡ next r) ↔ IsIdentified c env db req r
authenticate_iff c env db req r = (
  λ e. subst (IfNext c env db req) e (authenticate-IfNext c env db req),
  identified-authenticate c env db req r,
)

-- Once a token that was given out has been logged out, no request with it passes `authenticate`, after
-- any sequence of calls.
pub authenticate-logout :
    (c : Crypto) (env later : Env) (req : Request) (calls : List Call) (db : Database)
    → has_bearer req ≡ true
    → any (has_token_hash (c.sha256 (bearer_token req))) db.user_sessions ≡ true
    → (authenticate c later req (run c calls (logout c env (bearer_token req) db))).1 ≡ status 401
unfolding authenticate authenticate_jwt
authenticate-logout c env later req calls db bearer issued = rw bearer (
    refused
      (validate_token c later (bearer_token req)
        (run c calls (logout c env (bearer_token req) db))).1
      (logout-for_good c env later (bearer_token req) calls db issued))
  where
    refused :
        (result : Outcome Payload) → is_ok result ≡ false → token_reply req result ≡ status 401
    refused (ok p) e = ground (arith, e)
    refused (thrown message) e = refl

abbrev pub softened : Request → Reply → Reply
softened req (next r) = next r
softened req (status code) = next req

softened_token :
    (req : Request) (db : Database) (result : Outcome Payload)
    → ◌≡◌ {A = Database × Reply}
        (db, next (payload_or_none req result))
        (db, softened req (token_reply req result))
softened_token req db (ok p) = refl
softened_token req db (thrown message) = refl

softened_key :
    (req : Request) (db : Database) (result : Outcome KeyData)
    → ◌≡◌ {A = Database × Reply}
        (db, next (key_or_none req result))
        (db, softened req (key_reply req result))
softened_key req db (ok k) = refl
softened_key req db (thrown message) = refl

-- `optionalAuth` does to the database what `authenticate` does, and goes on with the same request, or
-- with the unchanged one where `authenticate` refuses.
pub optional_auth-authenticate :
    (c : Crypto) (env : Env) (req : Request) (db : Database)
    → optional_auth c env req db
      ≡ ((authenticate c env req db).0, softened req (authenticate c env req db).1)
unfolding optional_auth authenticate authenticate_jwt authenticate_api_key
optional_auth-authenticate c env req db = elim (Bool-cases (has_bearer req)) [
  | inl bearer ↦ rw bearer (softened_token req _ (validate_token c env (bearer_token req) db).1)
  | inr plain ↦ elim (Bool-cases (is_empty (key_header req))) [
    | inl empty ↦ rw (plain, empty)
    | inr header ↦
        rw (plain, header) (softened_key req _ (validate_api_key c env (key_header req) db).1)
  ]
]
