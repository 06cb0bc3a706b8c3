-- ===== src/MessageBus/Auth/KeyRevocation.antt =====
-- Revoked keys stay revoked, in every sequence of calls of `AuthService`
-- (message_bus/src/auth/auth-service.ts).
use kpm_cursor.Base.{
  ℕ, String, ◌≡◌, refl, inl, inr, Bool, true, false, none, some, List, [], ◌∷◌, map, arith, eq_iff,
  ◌==◌, if◌then◌else◌, Bool-cases, find, any,
}
use kpm_cursor.MessageBus.Auth.Steps.{run-keeps}
use kpm_cursor.MessageBus.Auth.Writes.{
  Write, user_added, member_added, login_recorded, session_added, session_expired, sessions_ended,
  key_added, key_used, key_revoked,
}
use kpm_cursor.MessageBus.Auth.Calls.{Operation, Call, run}
use kpm_cursor.MessageBus.Auth.Keys.{
  is_live_key, find_key, validate_api_key, revoke_key, revoke_api_key,
}
use kpm_cursor.MessageBus.Auth.Tokens.{has_key_hash, logout}
use kpm_cursor.MessageBus.Auth.Rows.{
  any-map, IsUnique, IsRetired, Weakens, dead-map, IsRetired-map, IsRetired-append,
}
use kpm_cursor.MessageBus.Auth.{ApiKey, Database, is_ok, Crypto, Env}

abbrev pub api_key_hash : ApiKey → String
api_key_hash k = k.key_hash

abbrev api_key_active : ApiKey → Bool
api_key_active k = k.is_active

-- The key was given out, and it is not active.
abbrev pub IsRevokedKey : String → Database → Type 0
IsRevokedKey hash db = IsRetired api_key_hash api_key_active hash db.api_keys

use_key-Weakens :
    (now id : ℕ)
    → Weakens api_key_hash api_key_active
        (λ k. if k.id == id then record k { last_used_at = some now } else k)
use_key-Weakens now id k = ground arith

revoke_key-Weakens :
    (now key_id user_id : ℕ) → Weakens api_key_hash api_key_active (revoke_key now key_id user_id)
revoke_key-Weakens now key_id user_id k = ground arith

Write-IsRevokedKey :
    (c : Crypto) (env : Env) (operation : Operation) (hash : String) (db later : Database)
    → Write c env operation db later
    → IsRevokedKey hash db
    → IsRevokedKey hash later
unfolding logout revoke_api_key
Write-IsRevokedKey c env operation hash db _ (user_added _ u at_next new) h = h
Write-IsRevokedKey c env operation hash db _ (member_added _ company user role there known) h = h
Write-IsRevokedKey c env operation hash db _ (login_recorded _ user) h = h
Write-IsRevokedKey c env operation hash db _ (session_added _ s at_next new) h = h
Write-IsRevokedKey c env operation hash db _ (session_expired _ other s found past) h = h
Write-IsRevokedKey c env operation hash db _ (sessions_ended _ token e) h = h
Write-IsRevokedKey c env operation hash db _ (key_added _ k at_next new company user) h =
    IsRetired-append api_key_hash api_key_active hash k db.api_keys new h
Write-IsRevokedKey c env operation hash db _ (key_used _ id) h =
    IsRetired-map api_key_hash api_key_active hash _ db.api_keys (use_key-Weakens env.now id) h
Write-IsRevokedKey c env operation hash db _ (key_revoked _ id user) h =
    IsRetired-map api_key_hash api_key_active hash _ db.api_keys
      (revoke_key-Weakens env.now id user) h

find_key-dead :
    (hash : String) (db : Database) (keys : List ApiKey)
    → any (is_live_key hash) keys ≡ false
    → find_key hash db keys ≡ none
unfolding find_key
find_key-dead hash db [] dead = refl
find_key-dead hash db (k ∷ keys) dead = elim (Bool-cases (is_live_key hash k)) [
  | inl live ↦ ground (arith, live, dead)
  | inr still ↦ rw still (find_key-dead hash db keys (ground (arith, dead)))
]

none-live :
    (hash : String) (rows : List ApiKey)
    → any (has_key_hash hash) rows ≡ false
    → any (is_live_key hash) rows ≡ false
none-live hash [] e = refl
none-live hash (k ∷ keys) e = ground (arith, e, none-live hash keys)

-- With the hashes unique, revoking a key by its id and its owner leaves no active row with its hash.
dead-revoke_key :
    (now : ℕ) (hash : String) (k : ApiKey) (rows : List ApiKey)
    → IsUnique api_key_hash rows
    → find (has_key_hash hash) rows ≡ some k
    → any (is_live_key hash) (map (revoke_key now k.id k.user_id) rows) ≡ false
dead-revoke_key now hash k [] unique e = ground (arith, e)
dead-revoke_key now hash k (r ∷ rows) unique e = ground (
  arith,
  e,
  unique.0,
  eq_iff r.key_hash hash,
  dead-revoke_key now hash k rows unique.1,
  dead-map api_key_hash api_key_active hash (revoke_key now k.id k.user_id) rows
      (revoke_key-Weakens now k.id k.user_id),
  none-live hash rows,
)

find-any :
    (hash : String) (k : ApiKey) (rows : List ApiKey)
    → find (has_key_hash hash) rows ≡ some k
    → any (has_key_hash hash) rows ≡ true
find-any hash k [] e = ground (arith, e)
find-any hash k (r ∷ rows) e = ground (arith, e, find-any hash k rows)

revoke_api_key-IsRevokedKey :
    (env : Env) (hash : String) (k : ApiKey) (db : Database)
    → IsUnique api_key_hash db.api_keys
    → find (has_key_hash hash) db.api_keys ≡ some k
    → IsRevokedKey hash (revoke_api_key env k.id k.user_id db)
unfolding revoke_api_key
revoke_api_key-IsRevokedKey env hash k db unique e = (
  rw
      (any-map (has_key_hash hash) (revoke_key env.now k.id k.user_id) db.api_keys
        (λ r. rw ((revoke_key-Weakens env.now k.id k.user_id r).0)))
      (find-any hash k db.api_keys e),
  dead-revoke_key env.now hash k db.api_keys unique e,
)

-- A key that is revoked by its id and its owner is refused for good, after any sequence of calls and
-- at any time.
pub revoke_api_key-for_good :
    (c : Crypto) (env later : Env) (key : String) (k : ApiKey) (calls : List Call) (db : Database)
    → IsUnique api_key_hash db.api_keys
    → find (has_key_hash (c.sha256 key)) db.api_keys ≡ some k
    → is_ok (validate_api_key c later key (run c calls (revoke_api_key env k.id k.user_id db))).1
      ≡ false
unfolding validate_api_key
revoke_api_key-for_good c env later key k calls db unique e =
    let there : IsRevokedKey (c.sha256 key) (run c calls (revoke_api_key env k.id k.user_id db)) =
      run-keeps c (IsRevokedKey (c.sha256 key))
        (λ e2 operation d w write h. Write-IsRevokedKey c e2 operation (c.sha256 key) d w write h)
        calls (revoke_api_key env k.id k.user_id db)
        (revoke_api_key-IsRevokedKey env (c.sha256 key) k db unique e) in
    rw (find_key-dead (c.sha256 key) _ _ there.1)
