-- ===== src/MessageBus/Auth/Tables.antt =====
-- What holds of the tables (message_bus/src/database/schema.ts) in every sequence of calls of
-- `AuthService` (message_bus/src/auth/auth-service.ts).
use kpm_cursor.Base.{
  ℕ, String, ◌≡◌, true, some, List, [], ◌∷◌, ◌++◌, map, arith, ◌==◌, if◌then◌else◌, any, All,
}
use kpm_cursor.MessageBus.Auth.Keys.{revoke_key}
use kpm_cursor.MessageBus.Auth.KeyRevocation.{api_key_hash}
use kpm_cursor.MessageBus.Auth.Lasting.{session_id}
use kpm_cursor.MessageBus.Auth.Writes.{expire, end_session}
use kpm_cursor.MessageBus.Auth.Tokens.{has_user_id, has_company_id}
use kpm_cursor.MessageBus.Auth.Rows.{any-append, any-map, IsUnique, IsNumbered}
use kpm_cursor.MessageBus.Auth.{User, ApiKey, UserSession, Database}

abbrev pub user_number : User → ℕ
user_number u = u.id

abbrev pub user_email : User → String
user_email u = u.email

abbrev pub key_number : ApiKey → ℕ
key_number k = k.id

abbrev pub session_text : UserSession → String
session_text s = s.token_hash

-- A foreign key to `companies`, and one to `users`.
abbrev pub RefersTo : Database → ℕ → ℕ → Type 0
RefersTo db company_id user_id =
    (any (has_company_id company_id) db.companies ≡ true)
    × (any (has_user_id user_id) db.users ≡ true)

pub record IsUsers (db : Database) : Type 0 where
  pub ids : IsNumbered user_number 0 db.next_user db.users
  pub emails : IsUnique user_email db.users

pub record IsSessions (db : Database) : Type 0 where
  pub ids : IsNumbered session_id 0 db.next_session db.user_sessions
  pub hashes : IsUnique session_text db.user_sessions

pub record IsKeys (db : Database) : Type 0 where
  pub ids : IsNumbered key_number 0 db.next_key db.api_keys
  pub hashes : IsUnique api_key_hash db.api_keys

-- Ids ascend and stay below the next, unique columns are unique, and foreign keys refer to rows.
pub record IsWellFormed (db : Database) : Type 0 where
  pub users : IsUsers db
  pub sessions : IsSessions db
  pub keys : IsKeys db
  pub member_rows : All (λ m. RefersTo db m.company_id m.user_id) db.company_users
  pub key_rows : All (λ k. RefersTo db k.company_id k.user_id) db.api_keys

pub All-mono {ℓ κ} :
    {A : Type ℓ} {P Q : A → Type κ} (xs : List A) → ((x : A) → P x → Q x) → All P xs → All Q xs
All-mono [] step h = tt
All-mono (x ∷ xs) step h = (step x h.0, All-mono xs step h.1)

pub All-image {ℓ κ} :
    {A : Type ℓ} {P : A → Type κ} (f : A → A) (xs : List A)
    → ((x : A) → P x → P (f x))
    → All P xs
    → All P (map f xs)
All-image f [] step h = tt
All-image f (x ∷ xs) step h = (step x h.0, All-image f xs step h.1)

-- A user who is there stays there when a row is added.
pub known_still :
    (id : ℕ) (u : User) (users : List User)
    → any (has_user_id id) users ≡ true
    → any (has_user_id id) (users ++ u ∷ []) ≡ true
known_still id u users known = rw (any-append (has_user_id id) u users, known)

abbrev pub login_row : ℕ → ℕ → User → User
login_row now user_id u = if has_user_id user_id u then record u { last_login_at = some now } else u

pub login_row-id : (now user_id : ℕ) (u : User) → (login_row now user_id u).id ≡ u.id
login_row-id now user_id u = ground arith

pub login_row-email : (now user_id : ℕ) (u : User) → (login_row now user_id u).email ≡ u.email
login_row-email now user_id u = ground arith

pub known_after_login :
    (id now user_id : ℕ) (users : List User)
    → any (has_user_id id) users ≡ true
    → any (has_user_id id) (map (login_row now user_id) users) ≡ true
known_after_login id now user_id users known =
    rw
      (any-map (has_user_id id) (login_row now user_id) users
        (λ u. rw (login_row-id now user_id u)))
      known

pub expire-hash : (now id : ℕ) (s : UserSession) → (expire now id s).token_hash ≡ s.token_hash
expire-hash now id s = ground arith

pub end_session-hash :
    (now : ℕ) (hash : String) (s : UserSession) → (end_session now hash s).token_hash ≡ s.token_hash
end_session-hash now hash s = ground arith

abbrev pub used_row : ℕ → ℕ → ApiKey → ApiKey
used_row now id k = if k.id == id then record k { last_used_at = some now } else k

pub used_row-same :
    (now id : ℕ) (k : ApiKey)
    → ((used_row now id k).id ≡ k.id)
      × ((used_row now id k).key_hash ≡ k.key_hash)
      × ((used_row now id k).company_id ≡ k.company_id)
      × ((used_row now id k).user_id ≡ k.user_id)
used_row-same now id k = (ground arith, ground arith, ground arith, ground arith)

pub revoke_key-same :
    (now key_id user_id : ℕ) (k : ApiKey)
    → ((revoke_key now key_id user_id k).id ≡ k.id)
      × ((revoke_key now key_id user_id k).key_hash ≡ k.key_hash)
      × ((revoke_key now key_id user_id k).company_id ≡ k.company_id)
      × ((revoke_key now key_id user_id k).user_id ≡ k.user_id)
revoke_key-same now key_id user_id k = (ground arith, ground arith, ground arith, ground arith)
