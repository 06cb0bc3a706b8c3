-- ===== src/MessageBus/Middleware/Tests.antt =====
-- Concrete requests (message_bus/src/auth/auth-middleware.ts): runs of the middleware, and the theorems
-- at inputs that meet their hypotheses.
use kpm_cursor.Base.{ℕ, ◌≡◌, refl, ◌↔◌, Bool, true, false, none, some, [], ◌∷◌, map, str_eq}
use kpm_cursor.MessageBus.Middleware.KeyRoute.{
  create_key_route, request_with, then_admin, key_text, create_key_route-opens,
}
use kpm_cursor.MessageBus.Middleware.Entry.{IsIdentified, authenticate_iff, authenticate-logout}
use kpm_cursor.MessageBus.Middleware.Access.{require_company_access, require_scope, require_admin}
use kpm_cursor.MessageBus.Middleware.{
  RequestUser, Request, passes, bearer_token, user_of_payload, dev_user, authenticate, dev_bypass,
  next, status,
}
use kpm_cursor.MessageBus.Auth.Calls.{run}
use kpm_cursor.MessageBus.Auth.Keys.{validate_api_key, get_user_api_keys}
use kpm_cursor.MessageBus.Auth.Tokens.{payload_of, validate_token, logout}
use kpm_cursor.MessageBus.Auth.{ApiKey, UserSession, Database, AuthUser, Crypto, Env}
use kpm_cursor.Base.Integers.{parse_int}
use kpm_cursor.Base.Text.{trim_start}

abbrev al : AuthUser
al = record {
  id = 1;
  email = "al@x.io";
  first_name = "Al";
  last_name = "Ng";
  role = "user";
  companies = record { id = 7; name = "Acme"; role = "admin" } ∷ [];
}

-- Every token is Al's.
abbrev toy : Crypto
toy = record {
  hash_password = λ salt password. password;
  compare_password = λ password hash. str_eq password hash;
  sign = λ p now. "t";
  verify = λ token now. some (payload_of al);
  lifetime = 86400;
  sha256 = λ text. text;
}

abbrev at : ℕ → Env
at now = record { now = now; salt = "s"; random_hex = "00ff" }

abbrev session : UserSession
session = record {
  id = 1;
  user_id = 1;
  token_hash = "t";
  is_active = true;
  expires_at = 9000;
  revoked_at = none;
}

abbrev read_key : ApiKey
read_key = record {
  id = 1;
  name = "k";
  key_hash = "kmp_1";
  key_prefix = "kmp_1";
  company_id = 7;
  user_id = 1;
  scopes = "admin" ∷ [];
  is_active = true;
  last_used_at = none;
  expires_at = none;
  created_at = 0;
  updated_at = 0;
}

-- Al has been deactivated; the session and the key have not.
abbrev tables : Bool → Database
tables active = record {
  companies = record { id = 7; name = "Acme" } ∷ [];
  users =
      record {
        id = 1;
        email = "al@x.io";
        password_hash = "pw";
        first_name = "Al";
        last_name = "Ng";
        role = "user";
        is_active = active;
        last_login_at = none;
      }
      ∷ [];
  company_users = record { company_id = 7; user_id = 1; role = "admin" } ∷ [];
  api_keys = read_key ∷ [];
  user_sessions = session ∷ [];
  next_user = 2;
  next_key = 2;
  next_session = 2;
}

abbrev bare : Request
bare = record {
  authorization = none;
  x_api_key = none;
  company_param = "7";
  user = none;
  api_key = none;
}

abbrev by_header : Request
by_header = record bare { authorization = some "Bearer t" }

abbrev by_key_header : Request
by_key_header = record bare { x_api_key = some "kmp_1" }

abbrev known : Request
known = record by_header { user = some (user_of_payload (payload_of al)) }

abbrev keyed : Request
keyed = record by_key_header {
  user = some (record {
    id = 1;
    email = "al@x.io";
    role = "api";
    companies = record { id = 7; name = "Acme"; role = "api_access" } ∷ [];
  });
  api_key = some (record {
    api_key_id = 1;
    user_id = 1;
    company_id = 7;
    scopes = "admin" ∷ [];
    company_name = "Acme";
    user_email = "al@x.io";
    user_first_name = "Al";
    user_last_name = "Ng";
  });
}

-- A deactivated user's token and key go on working.
deactivated_token : (authenticate toy (at 5000) by_header (tables false)).1 ≡ next known
unfolding authenticate validate_token
deactivated_token = refl

deactivated_key : (authenticate toy (at 5000) by_key_header (tables false)).1 ≡ next keyed
unfolding authenticate validate_api_key
deactivated_key = refl

-- A key with the scope `admin` opens neither a company nor the administration.
admin_key : require_company_access (some "viewer") keyed ≡ status 403
unfolding require_company_access parse_int trim_start
admin_key = refl

admin_key_no_admin : require_admin keyed ≡ status 403
unfolding require_admin
admin_key_no_admin = refl

-- The administrator of one company passes as an administrator.
company_admin : require_admin known ≡ next known
unfolding require_admin
company_admin = refl

scope_of_key : require_scope ("read" ∷ "admin" ∷ []) keyed ≡ next keyed
unfolding require_scope
scope_of_key = refl

development :
    (dev_bypass toy (some "development") (some "true") (at 0) bare (tables true)).1
    ≡ next (record bare { user = some dev_user })
unfolding dev_bypass
development = refl

keys_listed : map (λ k. k.key_prefix) (get_user_api_keys 1 none (tables true)) ≡ "kmp_1" ∷ []
unfolding get_user_api_keys
keys_listed = refl

authenticate_iff_example :
    ((authenticate toy (at 5000) by_header (tables true)).1 ≡ next known)
    ↔ IsIdentified toy (at 5000) (tables true) by_header known
authenticate_iff_example = authenticate_iff toy (at 5000) (tables true) by_header known

authenticate-logout_example :
    (authenticate toy
      (at 5000)
      by_header
      (run toy [] (logout toy (at 4000) (bearer_token by_header) (tables true)))).1
    ≡ status 401
authenticate-logout_example =
    authenticate-logout toy (at 4000) (at 5000) by_header [] (tables true) refl refl

-- A viewer of the company.
abbrev viewer : RequestUser
viewer = record {
  id = 1;
  email = "al@x.io";
  role = "user";
  companies = record { id = 7; name = "Acme"; role = "viewer" } ∷ [];
}

create_key_route-opens_example :
    passes (
      then_admin
        (authenticate toy
          (at 5000)
          (request_with (key_text (at 1000)))
          (create_key_route toy
            (at 1000)
            viewer
            (record { name = "k"; scopes = "admin:all" ∷ []; company_id = 7; expires_at = none })
            (tables true)).0).1)
    ≡ true
create_key_route-opens_example =
    create_key_route-opens toy (at 1000) (at 5000) viewer
      (record { name = "k"; scopes = "admin:all" ∷ []; company_id = 7; expires_at = none })
      (tables true) refl refl refl refl refl refl refl
