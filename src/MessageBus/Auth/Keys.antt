-- ===== src/MessageBus/Auth/Keys.antt =====
-- API keys and company access of the class `AuthService` (message_bus/src/auth/auth-service.ts).
use Prim.Native.String
use kpm_cursor.Base.{
  ℕ, suc, String, Bool, true, false, ◌&&◌, ◌||◌, Option, none, some, List, [], ◌∷◌, ◌++◌, map,
  str_eq, ltb, leb, ◌==◌, if◌then◌else◌, get_or, find, any,
}
use kpm_cursor.Base.Text.{text_take}
use kpm_cursor.MessageBus.Auth.{
  Company, User, CompanyUser, ApiKey, Database, Outcome, ok, thrown, ApiKeyData, ApiKeyResult,
  KeyData, Crypto, Env,
}
use kpm_cursor.MessageBus.Auth.Tokens.{has_user_id, has_company_id, has_key_hash}

-- The row of a key joined with its company and its user: what `validateApiKey` selects.
abbrev pub key_data : ApiKey → Company → User → KeyData
key_data k company u = record {
  api_key_id = k.id;
  user_id = k.user_id;
  company_id = k.company_id;
  scopes = k.scopes;
  company_name = company.name;
  user_email = u.email;
  user_first_name = u.first_name;
  user_last_name = u.last_name;
}

abbrev join_user : ApiKey → Company → Option User → Option (ApiKey × KeyData)
join_user k company none = none
join_user k company (some u) = some (k, key_data k company u)

abbrev join_key : Database → ApiKey → Option Company → Option (ApiKey × KeyData)
join_key db k none = none
join_key db k (some company) = join_user k company (find (has_user_id k.user_id) db.users)

abbrev or_else {ℓ} : {A : Type ℓ} → Option A → Option A → Option A
or_else none later = later
or_else (some a) later = some a

abbrev pub is_live_key : String → ApiKey → Bool
is_live_key hash k = has_key_hash hash k && k.is_active

-- The first active row with the hash whose company and user exist.
unfoldable pub find_key : String → Database → List ApiKey → Option (ApiKey × KeyData)
find_key hash db [] = none
find_key hash db (k ∷ keys) =
    let later = find_key hash db keys in
    if is_live_key hash k
    then or_else (join_key db k (find (has_company_id k.company_id) db.companies)) later
    else later

abbrev pub is_past : ℕ → Option ℕ → Bool
is_past now none = false
is_past now (some expires_at) = ltb expires_at now

abbrev pub record_use : ℕ → ℕ → Database → Database
record_use now id db = record db {
  api_keys = map (λ k. if k.id == id then record k { last_used_at = some now } else k) db.api_keys;
}

abbrev pub check_key : ℕ → Option (ApiKey × KeyData) → Database → Database × Outcome KeyData
check_key now none db = (db, thrown "Invalid API key")
check_key now (some (k, details)) db =
    if is_past now k.expires_at
    then (db, thrown "API key expired")
    else (record_use now k.id db, ok details)

abbrev pub api_key_row : Env → String → String → ℕ → ℕ → ApiKeyData → Database → ApiKey
api_key_row env key hash user_id company_id details db = record {
  id = db.next_key;
  name = details.name;
  key_hash = hash;
  key_prefix = text_take 12 key;
  company_id = company_id;
  user_id = user_id;
  scopes = details.scopes;
  is_active = true;
  last_used_at = none;
  expires_at = details.expires_at;
  created_at = env.now;
  updated_at = env.now;
}

abbrev pub key_result : String → ApiKey → ApiKeyResult
key_result key k = record {
  id = k.id;
  key = key;
  key_prefix = k.key_prefix;
  name = k.name;
  scopes = k.scopes;
  expires_at = k.expires_at;
  created_at = k.created_at;
}

-- The insertion into `api_keys`: its company and its user must exist, and the hash must be new.
unfoldable pub insert_key : String → ApiKey → Database → Database × Outcome ApiKeyResult
insert_key key k db =
    if any (has_key_hash k.key_hash) db.api_keys
    then (db, thrown "duplicate key value violates unique constraint")
    else if any (has_company_id k.company_id) db.companies && any (has_user_id k.user_id) db.users
    then (
      record db { api_keys = db.api_keys ++ k ∷ []; next_key = suc db.next_key },
      ok (key_result key k),
    )
    else (db, thrown "insert violates foreign key constraint")

module _ (c : Crypto) where
  unfoldable pub create_api_key :
      Env → ℕ → ℕ → ApiKeyData → Database → Database × Outcome ApiKeyResult
  unfolding insert_key
  create_api_key env user_id company_id details db =
      let key = String.◌++◌ "kmp_" env.random_hex in
      insert_key key (api_key_row env key (c.sha256 key) user_id company_id details db) db

  unfoldable pub validate_api_key : Env → String → Database → Database × Outcome KeyData
  unfolding find_key
  validate_api_key env key db = check_key env.now (find_key (c.sha256 key) db db.api_keys) db

-- The row of the list of keys.
pub record KeyListing : Type 0 where
  pub id : ℕ
  pub name : String
  pub key_prefix : String
  pub scopes : List String
  pub company_id : ℕ
  pub company_name : String
  pub last_used_at : Option ℕ
  pub expires_at : Option ℕ
  pub created_at : ℕ

abbrev listing : ApiKey → Company → KeyListing
listing k company = record {
  id = k.id;
  name = k.name;
  key_prefix = k.key_prefix;
  scopes = k.scopes;
  company_id = k.company_id;
  company_name = company.name;
  last_used_at = k.last_used_at;
  expires_at = k.expires_at;
  created_at = k.created_at;
}

-- `orderBy(createdAt)`: rows of one time keep their order
insert_by_time : KeyListing → List KeyListing → List KeyListing
insert_by_time k [] = k ∷ []
insert_by_time k (l ∷ ls) =
    let later = insert_by_time k ls in
    if leb k.created_at l.created_at then k ∷ (l ∷ ls) else l ∷ later

join_listing : ApiKey → Option Company → List KeyListing → List KeyListing
unfolding insert_by_time
join_listing k none ls = ls
join_listing k (some company) ls = insert_by_time (listing k company) ls

-- `whereConditions`; company 0 counts as none.
abbrev is_listed : ℕ → Option ℕ → ApiKey → Bool
is_listed user_id company_id k =
    k.user_id == user_id
    && k.is_active
    && (get_or company_id 0 == 0 || k.company_id == get_or company_id 0)

unfoldable pub list_keys : ℕ → Option ℕ → List Company → List ApiKey → List KeyListing
unfolding join_listing
list_keys user_id company_id companies [] = []
list_keys user_id company_id companies (k ∷ keys) =
    let later = list_keys user_id company_id companies keys in
    if is_listed user_id company_id k
    then join_listing k (find (has_company_id k.company_id) companies) later
    else later

unfoldable pub get_user_api_keys : ℕ → Option ℕ → Database → List KeyListing
unfolding list_keys
get_user_api_keys user_id company_id db = list_keys user_id company_id db.companies db.api_keys

abbrev pub revoke_key : ℕ → ℕ → ℕ → ApiKey → ApiKey
revoke_key now key_id user_id k =
    if k.id == key_id && k.user_id == user_id
    then record k { is_active = false; updated_at = now }
    else k

unfoldable pub revoke_api_key : Env → ℕ → ℕ → Database → Database
revoke_api_key env key_id user_id db = record db {
  api_keys = map (revoke_key env.now key_id user_id) db.api_keys;
}

-- `roleHierarchy[role] || 0`. Names that every object inherits, such as "constructor", are left aside.
abbrev pub role_rank : String → ℕ
role_rank role =
    if str_eq role "owner"
    then 4
    else if str_eq role "admin"
    then 3
    else if str_eq role "member"
    then 2
    else if str_eq role "viewer"
    then 1
    else 0

abbrev pub is_member : ℕ → ℕ → CompanyUser → Bool
is_member user_id company_id row = row.user_id == user_id && row.company_id == company_id

abbrev pub meets_role : Option String → String → Bool
meets_role none role = true
meets_role (some required) role = leb (role_rank required) (role_rank role)

abbrev pub access_of : Option String → Option CompanyUser → Bool
access_of required none = false
access_of required (some row) = meets_role required row.role

unfoldable pub has_company_access : ℕ → ℕ → Option String → Database → Bool
has_company_access user_id company_id required db =
    access_of required (find (is_member user_id company_id) db.company_users)
