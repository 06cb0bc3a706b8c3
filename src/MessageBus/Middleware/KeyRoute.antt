-- ===== src/MessageBus/Middleware/KeyRoute.antt =====
-- The route that creates API keys, `POST /api-keys` of message_bus/src/auth/auth-routes.ts, and what the
-- key then opens.
use Prim.Native.String
use kpm_cursor.Base.{
  ℕ, suc, String, ◌≡◌, refl, ◌∙◌, Bool, true, false, ◌||◌, Option, none, some, List, [], ◌∷◌, ◌++◌,
  arith, eq_iff, ◌==◌, if◌then◌else◌, length, find, any,
}
use kpm_cursor.MessageBus.Auth.Rows.{any-find}
use kpm_cursor.MessageBus.Middleware.Access.{has_scope, require_admin}
use kpm_cursor.MessageBus.Middleware.{
  RequestUser, Request, Reply, passes, authenticate_api_key, authenticate, next, status,
}
use kpm_cursor.MessageBus.Auth.Keys.{
  key_data, find_key, api_key_row, insert_key, create_api_key, validate_api_key,
}
use kpm_cursor.MessageBus.Auth.Tokens.{has_user_id, has_company_id, has_key_hash}
use kpm_cursor.MessageBus.Auth.{
  Company, User, ApiKey, Database, Outcome, ApiKeyResult, KeyData, Crypto, Env, ok, thrown,
}
use kpm_cursor.Base.Text.{is_empty}
use kpm_cursor.Base.Text.Laws.{is_empty-append_first}

-- The body of the request; `scopes` is an array.
pub record KeyBody : Type 0 where
  pub name : String
  pub scopes : List String
  pub company_id : ℕ
  pub expires_at : Option ℕ

-- 201 with the key, or the status of a refusal
pub data KeyReply : Type 0 where
  created : ApiKeyResult → KeyReply
  refused : ℕ → KeyReply

abbrev created_reply : Outcome ApiKeyResult → KeyReply
created_reply (ok r) = created r
created_reply (thrown message) = refused 500

-- `if (!name || !scopes || !companyId)` and the test of the array
abbrev is_incomplete : KeyBody → Bool
is_incomplete b = is_empty b.name || b.company_id == 0 || length b.scopes == 0

module _ (c : Crypto) where
  -- The handler behind `authenticate`, whose user is `u`.
  unfoldable pub create_key_route : Env → RequestUser → KeyBody → Database → Database × KeyReply
  create_key_route env u b db =
      if is_incomplete b
      then (db, refused 400)
      else if any (λ m. m.id == b.company_id) u.companies
      then (let result : Database × Outcome ApiKeyResult =
            create_api_key c env u.id b.company_id
              (record { name = b.name; scopes = b.scopes; expires_at = b.expires_at }) db in
          (result.0, created_reply result.1))
      else (db, refused 403)

-- A request with nothing but the key.
abbrev pub request_with : String → Request
request_with key = record {
  authorization = none;
  x_api_key = some key;
  company_param = "";
  user = none;
  api_key = none;
}

abbrev pub then_admin : Reply → Reply
then_admin (next req) = require_admin req
then_admin (status code) = status code

-- The text of a new key.
abbrev pub key_text : Env → String
key_text env = String.◌++◌ "kmp_" env.random_hex

find_key-append :
    (hash : String) (db : Database) (k : ApiKey) (keys : List ApiKey)
    → any (has_key_hash hash) keys ≡ false
    → find_key hash db (keys ++ k ∷ []) ≡ find_key hash db (k ∷ [])
unfolding find_key
find_key-append hash db k [] new = refl
find_key-append hash db k (r ∷ keys) new =
    let here : has_key_hash hash r ≡ false = ground (arith, new) in
    rw here (find_key-append hash db k keys (ground (arith, new)))

-- The row of the new key is what its text finds.
find_key-new :
    (db : Database) (k : ApiKey) (keys : List ApiKey) (company : Company) (u : User)
    → any (has_key_hash k.key_hash) keys ≡ false
    → k.is_active ≡ true
    → find (has_company_id k.company_id) db.companies ≡ some company
    → find (has_user_id k.user_id) db.users ≡ some u
    → find_key k.key_hash db (keys ++ k ∷ []) ≡ some (k, key_data k company u)
unfolding find_key
find_key-new db k keys company u new active at_company at_user =
    let same : has_key_hash k.key_hash k ≡ true = ground (arith, eq_iff k.key_hash k.key_hash) in
    find_key-append k.key_hash db k keys new ∙ rw (same, active, at_company, at_user)

abbrev new_key : Crypto → Env → RequestUser → KeyBody → Database → ApiKey
new_key c env u b db =
    api_key_row env (key_text env) (c.sha256 (key_text env)) u.id b.company_id
      (record { name = b.name; scopes = b.scopes; expires_at = b.expires_at }) db

create_key_route-stored :
    (c : Crypto) (env : Env) (u : RequestUser) (b : KeyBody) (db : Database)
    → is_incomplete b ≡ false
    → any (λ m. m.id == b.company_id) u.companies ≡ true
    → any (has_key_hash (c.sha256 (key_text env))) db.api_keys ≡ false
    → any (has_company_id b.company_id) db.companies ≡ true
    → any (has_user_id u.id) db.users ≡ true
    → (create_key_route c env u b db).0 ≡ record db {
      api_keys = db.api_keys ++ new_key c env u b db ∷ [];
      next_key = suc db.next_key;
    }
unfolding create_key_route create_api_key insert_key
create_key_route-stored c env u b db complete member new company user =
    rw (complete, member, new, company, user)

found_key_passes :
    (c : Crypto) (later : Env) (key : String) (db : Database) (k : ApiKey) (details : KeyData)
    → is_empty key ≡ false
    → find_key (c.sha256 key) db db.api_keys ≡ some (k, details)
    → k.expires_at ≡ none
    → has_scope "admin:all" details.scopes ≡ true
    → passes (then_admin (authenticate c later (request_with key) db).1) ≡ true
unfolding authenticate authenticate_api_key validate_api_key require_admin
found_key_passes c later key db k details full found lasting wide = rw (full, found, lasting, wide)

-- Whatever role a member has, the route gives the member's company a key with the scope `admin:all`,
-- and the request that brings the key passes `authenticate` and then `requireAdmin`, if the hash of
-- the key is new, the key has no end, and the company and the user are in the tables.
pub create_key_route-opens :
    (c : Crypto) (env later : Env) (u : RequestUser) (b : KeyBody) (db : Database)
    → is_incomplete b ≡ false
    → any (λ m. m.id == b.company_id) u.companies ≡ true
    → has_scope "admin:all" b.scopes ≡ true
    → b.expires_at ≡ none
    → any (has_key_hash (c.sha256 (key_text env))) db.api_keys ≡ false
    → any (has_company_id b.company_id) db.companies ≡ true
    → any (has_user_id u.id) db.users ≡ true
    → passes (
        then_admin
          (authenticate c later (request_with (key_text env)) (create_key_route c env u b db).0).1)
      ≡ true
create_key_route-opens c env later u b db complete member wide lasting new company user =
    let (co, at_company) = any-find (has_company_id b.company_id) db.companies company in
    let (owner, at_user) = any-find (has_user_id u.id) db.users user in
    let k = new_key c env u b db in
    let stored = record db { api_keys = db.api_keys ++ k ∷ []; next_key = suc db.next_key } in
    rw (create_key_route-stored c env u b db complete member new company user) (
      found_key_passes c later (key_text env) stored k (key_data k co owner)
        (is_empty-append_first "kmp_" env.random_hex refl)
        (find_key-new stored k db.api_keys co owner new refl at_company at_user) lasting wide)
