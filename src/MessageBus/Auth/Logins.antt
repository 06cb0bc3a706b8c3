-- ===== src/MessageBus/Auth/Logins.antt =====
-- What a registration and a login of `AuthService` (message_bus/src/auth/auth-service.ts) give: a token
-- that is valid afterwards.
use kpm_cursor.Base.{
  ℕ, ◌+◌, ◌/◌, ◌≤◌, ◌<◌, String, ◌≡◌, refl, subst, ◌⊎◌, inl, inr, true, false, Option, none, some,
  List, [], ◌∷◌, ◌++◌, arith, eq_iff, ltb, ◌==◌, Bool-cases, get_or, find, any, All,
}
use kpm_cursor.MessageBus.Auth.Lasting.{session_id, IsHarmless, IsStanding, run-IsStanding}
use kpm_cursor.MessageBus.Auth.Rows.{any-append, IsNumbered, IsNumbered-append}
use kpm_cursor.MessageBus.Auth.Calls.{Call, run}
use kpm_cursor.MessageBus.Auth.Users.{
  role_or, to_lower_case, insert_company_user, record_login, insert_user, join_company,
  register_user, check_password, login_user,
}
use kpm_cursor.MessageBus.Auth.Tokens.{
  has_email, has_company_id, has_token_hash, is_live_session, get_user_with_companies, payload_of,
  session_time, insert_session, check_session, issue, generate_auth_token, check_payload,
  validate_token,
}
use kpm_cursor.MessageBus.Auth.{
  User, UserSession, Database, Outcome, is_ok, AuthUser, Payload, AuthToken, LoginCredentials,
  RegisterData, Crypto, IsCrypto, Env, ok, thrown,
}

-- A token that was given out: signed from its user, for a day, and its session stands.
pub record IsGranted (c : Crypto) (env : Env) (t : AuthToken) (db : Database) : Type 0 where
  pub signed : t.token ≡ c.sign (payload_of t.user) (env.now / 1000)
  pub a_day : t.expires_at ≡ env.now + session_time
  pub standing : IsStanding (c.sha256 t.token) t.expires_at db

abbrev IfGranted : Crypto → Env → Database × Outcome AuthToken → Type 0
IfGranted c env (db, ok t) = IsGranted c env t db
IfGranted c env (db, thrown message) = Unit

live-new :
    (hash : String) (s : UserSession) (rows : List UserSession)
    → any (has_token_hash hash) rows ≡ false
    → is_live_session hash s ≡ true
    → find (is_live_session hash) (rows ++ s ∷ []) ≡ some s
live-new hash s [] new e = rw e
live-new hash s (r ∷ rows) new e = ground (arith, e, live-new hash s rows)

module _ (c : Crypto) (env : Env) where
  issue-IfGranted :
      (found : Option AuthUser) (db : Database)
      → IsNumbered session_id 0 db.next_session db.user_sessions
      → IfGranted c env (issue c env found db)
  unfolding issue insert_session
  issue-IfGranted none db numbered = tt
  issue-IfGranted (some u) db numbered =
      let hash = c.sha256 (c.sign (payload_of u) (env.now / 1000)) in
      elim (Bool-cases (any (has_token_hash hash) db.user_sessions)) [
        | inl e ↦ rw e tt
        | inr e ↦ rw e (record {
          signed = refl;
          a_day = refl;
          standing = record {
            session = _;
            numbered =
                IsNumbered-append session_id 0 db.next_session _ db.user_sessions refl numbered;
            live_there = live-new hash _ db.user_sessions e (ground (arith, eq_iff hash hash));
            ends = refl;
          };
        })
      ]

  join_company-IfGranted :
      (user_id : ℕ) (details : RegisterData) (db : Database)
      → IsNumbered session_id 0 db.next_session db.user_sessions
      → IfGranted c env (join_company c env user_id details db)
  unfolding join_company generate_auth_token
  join_company-IfGranted user_id details db numbered =
      let company_id = get_or details.company_id 0 in
      elim (Bool-cases (company_id == 0)) [
        | inl e ↦ rw e (issue-IfGranted _ db numbered)
        | inr e ↦ elim (Bool-cases (any (has_company_id company_id) db.companies)) [
          | inl f ↦
              rw (e, f)
                (issue-IfGranted _
                  (insert_company_user company_id user_id (role_or details.role "member") db)
                  numbered)
          | inr f ↦ rw (e, f) tt
        ]
      ]

  register_user-IfGranted :
      (details : RegisterData) (db : Database)
      → IsNumbered session_id 0 db.next_session db.user_sessions
      → IfGranted c env (register_user c env details db)
  unfolding register_user
  register_user-IfGranted details db numbered =
      elim (Bool-cases (any (has_email (to_lower_case details.email)) db.users)) [
        | inl e ↦ rw e tt
        | inr e ↦ rw e (join_company-IfGranted _ details (insert_user c env details db) numbered)
      ]

  check_password-IfGranted :
      (credentials : LoginCredentials) (found : Option User) (db : Database)
      → IsNumbered session_id 0 db.next_session db.user_sessions
      → IfGranted c env (check_password c env credentials found db)
  unfolding check_password generate_auth_token
  check_password-IfGranted credentials none db numbered = tt
  check_password-IfGranted credentials (some u) db numbered =
      elim (Bool-cases (c.compare_password credentials.password u.password_hash)) [
        | inl e ↦ rw e (issue-IfGranted _ (record_login env.now u.id db) numbered)
        | inr e ↦ rw e tt
      ]

validate_token-standing :
    (c : Crypto) (later : Env) (token : String) (payload : Payload) (expires_at : ℕ) (db : Database)
    → c.verify token (later.now / 1000) ≡ some payload
    → later.now ≤ expires_at
    → IsStanding (c.sha256 token) expires_at db
    → (validate_token c later token db).1 ≡ ok payload
unfolding validate_token check_payload check_session
validate_token-standing c later token payload expires_at db verified early st =
    let open_still : ltb st.session.expires_at later.now ≡ false = ground (arith, early, st.ends) in
    rw (verified, st.live_there, open_still)

-- A token that was given out is valid.
granted-valid :
    (c : Crypto) (env later : Env) (calls : List Call) (db : Database) (t : AuthToken)
    → IsCrypto c
    → IsGranted c env t db
    → All (IsHarmless c (c.sha256 t.token) t.expires_at) calls
    → later.now ≤ t.expires_at
    → later.now / 1000 < env.now / 1000 + c.lifetime
    → (validate_token c later t.token (run c calls db)).1 ≡ ok (payload_of t.user)
granted-valid c env later calls db t laws granted harmless early fresh =
    validate_token-standing c later t.token (payload_of t.user) t.expires_at (run c calls db)
      (rw granted.signed
        (laws.verify-sign (payload_of t.user) (env.now / 1000) (later.now / 1000) fresh))
      early (run-IsStanding c (c.sha256 t.token) t.expires_at calls db harmless granted.standing)

-- The token that a login or a registration gives stays valid, with the user's payload, through every
-- sequence of calls before its end that does not log it out.
pub validate_token-run :
    (c : Crypto) (env later : Env) (credentials : LoginCredentials) (details : RegisterData)
    (calls : List Call) (db after : Database) (t : AuthToken)
    → IsCrypto c
    → IsNumbered session_id 0 db.next_session db.user_sessions
    → (login_user c env credentials db ≡ (after, ok t))
      ⊎ (register_user c env details db ≡ (after, ok t))
    → All (IsHarmless c (c.sha256 t.token) t.expires_at) calls
    → later.now ≤ t.expires_at
    → later.now / 1000 < env.now / 1000 + c.lifetime
    → (validate_token c later t.token (run c calls after)).1 ≡ ok (payload_of t.user)
unfolding login_user
validate_token-run c env later credentials details calls db after t laws numbered (inl e) harmless
      early fresh =
    granted-valid c env later calls after t laws
      (subst (IfGranted c env) e (check_password-IfGranted c env credentials _ db numbered))
      harmless early fresh
validate_token-run c env later credentials details calls db after t laws numbered (inr e) harmless
      early fresh =
    granted-valid c env later calls after t laws
      (subst (IfGranted c env) e (register_user-IfGranted c env details db numbered)) harmless early
      fresh

-- The token is refused to the same user when the clock shows the same second again.
abbrev IfRefusedAgain : Crypto → Env → ℕ → Database × Outcome AuthToken → Type 0
IfRefusedAgain c env user_id (db, ok t) =
    (later : Env)
    → later.now / 1000 ≡ env.now / 1000
    → is_ok (generate_auth_token c later user_id db).1 ≡ false
IfRefusedAgain c env user_id (db, thrown message) = Unit

issue-IfRefusedAgain :
    (c : Crypto) (env : Env) (user_id : ℕ) (found : Option AuthUser) (db : Database)
    → get_user_with_companies user_id db ≡ found
    → IfRefusedAgain c env user_id (issue c env found db)
unfolding issue insert_session generate_auth_token get_user_with_companies
issue-IfRefusedAgain c env user_id none db e = tt
issue-IfRefusedAgain c env user_id (some u) db e =
    let hash = c.sha256 (c.sign (payload_of u) (env.now / 1000)) in
    elim (Bool-cases (any (has_token_hash hash) db.user_sessions)) [
      | inl there ↦ rw there tt
      | inr new ↦ rw new (λ later same.
          rw (e, same, any-append (has_token_hash hash) _ db.user_sessions, new)
            (ground (arith, eq_iff hash hash)))
    ]

-- A user who has just been given a token is refused another one in the same second of the clock.
pub generate_auth_token-again :
    (c : Crypto) (env later : Env) (user_id : ℕ) (db granted : Database) (t : AuthToken)
    → generate_auth_token c env user_id db ≡ (granted, ok t)
    → later.now / 1000 ≡ env.now / 1000
    → is_ok (generate_auth_token c later user_id granted).1 ≡ false
unfolding generate_auth_token
generate_auth_token-again c env later user_id db granted t e same =
    let again : IfRefusedAgain c env user_id (granted, ok t) =
      subst (IfRefusedAgain c env user_id) e (issue-IfRefusedAgain c env user_id _ db refl) in
    again later same
