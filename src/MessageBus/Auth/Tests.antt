-- ===== src/MessageBus/Auth/Tests.antt =====
-- Concrete users and calls (message_bus/src/auth): the theorems at inputs that meet their hypotheses.
mod Signing
use kpm_cursor.Base.{
  ℕ, ◌/◌, String, ◌≡◌, refl, inr, true, false, none, some, List, [], ◌∷◌, arith, find, any,
}
use kpm_cursor.MessageBus.Auth.Registered.{login_user-register_user}
use kpm_cursor.MessageBus.Auth.WellFormed.{run-IsWellFormed}
use kpm_cursor.MessageBus.Auth.Tables.{
  user_number, user_email, key_number, session_text, RefersTo, IsUsers, IsSessions, IsKeys,
  IsWellFormed, All-mono, All-image, known_still, login_row, login_row-id, login_row-email,
  known_after_login, expire-hash, end_session-hash, used_row, used_row-same, revoke_key-same,
}
use kpm_cursor.MessageBus.Auth.KeyRevocation.{api_key_hash, IsRevokedKey, revoke_api_key-for_good}
use kpm_cursor.MessageBus.Auth.Revocation.{IsRevoked, logout-for_good}
use kpm_cursor.MessageBus.Auth.Logins.{IsGranted, validate_token-run, generate_auth_token-again}
use kpm_cursor.MessageBus.Auth.Steps.{perform-Writes, run-keeps}
use kpm_cursor.MessageBus.Auth.Writes.{
  expire, end_session, Write, Writes, Writes-keeps, user_added, member_added, login_recorded,
  session_added, session_expired, sessions_ended, key_added, key_used, key_revoked, stop,
  next_write,
}
use kpm_cursor.MessageBus.Auth.Calls.{
  Operation, Call, perform, run, registering, logging_in, validating, logging_out, creating_key,
  validating_key, revoking_key,
}
use kpm_cursor.MessageBus.Auth.Keys.{
  key_data, is_live_key, find_key, is_past, record_use, check_key, api_key_row, key_result,
  insert_key, create_api_key, validate_api_key, KeyListing, list_keys, get_user_api_keys,
  revoke_key, revoke_api_key, role_rank, is_member, meets_role, access_of, has_company_access,
}
use kpm_cursor.MessageBus.Auth.Users.{
  to_lower_case, insert_company_user, record_login, new_user, insert_user, join_company,
  register_user, check_password, login_user,
}
use kpm_cursor.MessageBus.Auth.Tokens.{
  has_email, has_user_id, has_company_id, has_token_hash, has_key_hash, is_live_session,
  memberships, with_companies, get_user_with_companies, payload_of, session_time, insert_session,
  revoke_session, check_session, issue, generate_auth_token, check_payload, validate_token, logout,
}
use kpm_cursor.MessageBus.Auth.Rows.{
  any-append, any-map, any-find, IsUnique, IsUnique-append, IsUnique-map, apart, IsNumbered,
  IsNumbered-append, IsNumbered-map, same_id, bears, is_live, IsRetired, Weakens, dead-map,
  IsRetired-map, IsRetired-append, find-dead,
}
use kpm_cursor.MessageBus.Auth.{
  Company, User, CompanyUser, ApiKey, UserSession, Database, Outcome, is_ok, Membership, AuthUser,
  Payload, AuthToken, LoginCredentials, RegisterData, ApiKeyData, ApiKeyResult, KeyData, Crypto,
  IsCrypto, Env, ok, thrown,
}
use kpm_cursor.MessageBus.Auth.Tests.Signing.{toy, toy-IsCrypto}

abbrev details : RegisterData
details = record {
  email = "Al@x.io";
  password = "pw";
  first_name = "Al";
  last_name = "Ng";
  company_id = some 7;
  role = some "admin";
}

abbrev empty : Database
empty = record {
  companies = record { id = 7; name = "Acme" } ∷ [];
  users = [];
  company_users = [];
  api_keys = [];
  user_sessions = [];
  next_user = 1;
  next_key = 1;
  next_session = 1;
}

abbrev at : ℕ → Env
at now = record { now = now; salt = "s"; random_hex = "00ff" }

abbrev al : AuthUser
al = record {
  id = 1;
  email = "al@x.io";
  first_name = "Al";
  last_name = "Ng";
  role = "admin";
  companies = record { id = 7; name = "Acme"; role = "admin" } ∷ [];
}

token : String
unfolding toy
token = toy.sign (payload_of al) 1

given : AuthToken
unfolding token
given = record { token = token; expires_at = 86401000; user = al }

-- The tables after the registration.
registered : Database
unfolding register_user toy
registered = (register_user toy (at 1000) details empty).0

registered_once : register_user toy (at 1000) details empty ≡ (registered, ok given)
unfolding given registered register_user toy
registered_once = refl

-- The registered user before the first token.
abbrev member : Database
member = record empty {
  users =
      record {
        id = 1;
        email = "al@x.io";
        password_hash = "pw";
        first_name = "Al";
        last_name = "Ng";
        role = "admin";
        is_active = true;
        last_login_at = none;
      }
      ∷ [];
  company_users = record { company_id = 7; user_id = 1; role = "admin" } ∷ [];
}

member_once :
    generate_auth_token toy (at 1000) 1 member
    ≡ ((generate_auth_token toy (at 1000) 1 member).0, ok given)
unfolding given token generate_auth_token toy
member_once = refl

-- The same data once more are refused, and a login within the same second too.
registered_twice : is_ok (register_user toy (at 9000) details registered).1 ≡ false
unfolding given registered register_user toy
registered_twice = refl

logged_in_at_once :
    is_ok (login_user toy (at 1999) (record { email = "AL@x.io"; password = "pw" }) registered).1
    ≡ false
unfolding given registered login_user toy
logged_in_at_once = refl

logged_in_later :
    is_ok (login_user toy (at 2000) (record { email = "AL@x.io"; password = "pw" }) registered).1
    ≡ true
unfolding given registered login_user toy
logged_in_later = refl

-- Somebody else's token is checked and logged out meanwhile.
abbrev meanwhile : List Call
meanwhile =
    record { env = at 2000; operation = validating token }
    ∷ record { env = at 3000; operation = logging_out "other" }
    ∷ []

validate_token-run_example :
    (validate_token toy (at 5000) given.token (run toy meanwhile registered)).1
    ≡ ok (payload_of given.user)
unfolding given token toy
validate_token-run_example =
    validate_token-run toy (at 1000) (at 5000) (record { email = "AL@x.io"; password = "pw" })
      details meanwhile empty registered given toy-IsCrypto (omega arith) (inr registered_once)
      ((omega arith, refl), ((omega arith, refl), tt)) (omega arith) (omega arith)

unfolding_hash : any (has_token_hash (toy.sha256 given.token)) registered.user_sessions ≡ true
unfolding given registered register_user toy
unfolding_hash = refl

generate_auth_token-again_example :
    is_ok (generate_auth_token toy (at 1999) 1 (generate_auth_token toy (at 1000) 1 member).0).1
    ≡ false
generate_auth_token-again_example =
    generate_auth_token-again toy (at 1000) (at 1999) 1 member
      (generate_auth_token toy (at 1000) 1 member).0 given member_once refl

abbrev key_text : String
key_text = "kmp_00ff"

-- The tables with a key of the registered user.
with_key : Database
unfolding registered create_api_key
with_key =
    (create_api_key toy (at 1500) 1 7
      (record { name = "k"; scopes = "read" ∷ []; expires_at = some 9000 }) registered).0

abbrev key_row : ApiKey
key_row = record {
  id = 1;
  name = "k";
  key_hash = "kmp_00ff";
  key_prefix = "kmp_00ff";
  company_id = 7;
  user_id = 1;
  scopes = "read" ∷ [];
  is_active = true;
  last_used_at = none;
  expires_at = some 9000;
  created_at = 1500;
  updated_at = 1500;
}

key_there : find (has_key_hash (toy.sha256 key_text)) with_key.api_keys ≡ some key_row
unfolding with_key given registered register_user toy
key_there = refl

key_accepted : is_ok (validate_api_key toy (at 9000) key_text with_key).1 ≡ true
unfolding with_key given registered register_user validate_api_key toy
key_accepted = refl

key_expired : is_ok (validate_api_key toy (at 9001) key_text with_key).1 ≡ false
unfolding with_key given registered register_user validate_api_key toy
key_expired = refl

with_key-IsUnique : IsUnique api_key_hash with_key.api_keys
unfolding with_key given registered register_user toy
with_key-IsUnique = (refl, tt)

revoke_api_key-for_good_example :
    is_ok
      (validate_api_key toy
        (at 5000)
        key_text
        (run toy meanwhile (revoke_api_key (at 4000) 1 1 with_key))).1
    ≡ false
revoke_api_key-for_good_example =
    revoke_api_key-for_good toy (at 4000) (at 5000) key_text key_row meanwhile with_key
      with_key-IsUnique key_there

empty-IsWellFormed : IsWellFormed empty
empty-IsWellFormed = record {
  users = record { ids = omega arith; emails = tt };
  sessions = record { ids = omega arith; hashes = tt };
  keys = record { ids = omega arith; hashes = tt };
  member_rows = tt;
  key_rows = tt;
}

abbrev signing_up : List Call
signing_up = record { env = at 1000; operation = registering details } ∷ meanwhile

run-IsWellFormed_example : IsWellFormed (run toy signing_up empty)
run-IsWellFormed_example = run-IsWellFormed toy signing_up empty empty-IsWellFormed

second_token_new :
    any
      (has_token_hash (toy.sha256 (toy.sign (payload_of given.user) ((at 9000).now / 1000))))
      registered.user_sessions
    ≡ false
unfolding given registered register_user toy
second_token_new = refl

login_user-register_user_example :
    is_ok
      (login_user toy
        (at 9000)
        (record { email = "AL@X.io"; password = details.password })
        registered).1
    ≡ true
login_user-register_user_example =
    login_user-register_user toy (at 1000) (at 9000) details "AL@X.io" empty registered given
      toy-IsCrypto (omega arith) registered_once refl second_token_new
