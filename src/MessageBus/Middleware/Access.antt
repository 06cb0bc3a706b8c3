-- ===== src/MessageBus/Middleware/Access.antt =====
-- Authorisation in message_bus/src/auth/auth-middleware.ts: what a request may do. The replies that
-- differ only in their text are one status.
use Prim.Native.String
use kpm_cursor.Base.{
  ℕ, zero, suc, String, ◌≡◌, refl, ◌⊎◌, Bool, true, false, not, ◌&&◌, ◌||◌, Option, none, some,
  List, arith, str_eq, ltb, leb, ◌==◌, if◌then◌else◌, find, any,
}
use kpm_cursor.MessageBus.Middleware.Scopes.{Lists}
use kpm_cursor.MessageBus.Middleware.{RequestUser, Request, Reply, next, status}
use kpm_cursor.MessageBus.Auth.Keys.{meets_role}
use kpm_cursor.MessageBus.Auth.{Membership, KeyData}
use kpm_cursor.Base.Integers.{ℤ, pos, negsuc, parse_int}

abbrev pub has_scope : String → List String → Bool
has_scope scope scopes = any (str_eq scope) scopes

-- `parseInt(companyId)`, none where it is 0 or no number. A negative number stays as `some none`.
abbrev nonzero : Option ℤ → Option (Option ℕ)
nonzero none = none
nonzero (some (pos zero)) = none
nonzero (some (pos (suc n))) = some (some (suc n))
nonzero (some (negsuc n)) = some none

abbrev pub company_id_of : Request → Option (Option ℕ)
company_id_of req = nonzero (parse_int req.company_param)

abbrev pub is_company : Option ℕ → ℕ → Bool
is_company none id = false
is_company (some wanted) id = id == wanted

-- The scope `${requiredRole}:company`, or the one that opens everything.
abbrev pub scope_allows : Option String → List String → Bool
scope_allows none scopes = true
scope_allows (some role) scopes =
    has_scope (String.◌++◌ role ":company") scopes || has_scope "admin:all" scopes

abbrev key_access : Option ℕ → Option String → KeyData → Bool
key_access company required k = is_company company k.company_id && scope_allows required k.scopes

-- `roleHierarchy[role] || 0`. Names that every object inherits, such as "constructor", are left aside.
abbrev role_hierarchy : String → ℕ
role_hierarchy role =
    if str_eq role "owner"
    then 4
    else if str_eq role "admin"
    then 3
    else if str_eq role "member"
    then 2
    else if str_eq role "viewer"
    then 1
    else 0

-- `requiredRole` is one of the four names where it is given.
abbrev has_rank : Option String → String → Bool
has_rank none role = true
has_rank (some required) role = not (ltb (role_hierarchy role) (role_hierarchy required))

abbrev pub member_access : Option String → Option Membership → Bool
member_access required none = false
member_access required (some m) = has_rank required m.role

abbrev pub reply_if : Request → Bool → Reply
reply_if req allowed = if allowed then next req else status 403

abbrev pub company_reply : Option ℕ → Option String → Request → RequestUser → Option KeyData → Reply
company_reply company required req u (some k) = reply_if req (key_access company required k)
company_reply company required req u none =
    reply_if req (member_access required (find (λ m. is_company company m.id) u.companies))

abbrev pub user_reply : Option ℕ → Option String → Request → Option RequestUser → Reply
user_reply company required req none = status 401
user_reply company required req (some u) = company_reply company required req u req.api_key

abbrev pub id_reply : Option (Option ℕ) → Option String → Request → Option RequestUser → Reply
id_reply none required req known = status 400
id_reply (some company) required req known = user_reply company required req known

unfoldable pub require_company_access : Option String → Request → Reply
require_company_access required req = id_reply (company_id_of req) required req req.user

abbrev scope_reply : List String → Request → Option KeyData → Reply
scope_reply scopes req none = status 401
scope_reply scopes req (some k) =
    if has_scope "admin:all" k.scopes
    then next req
    else reply_if req (any (λ scope. has_scope scope k.scopes) scopes)

unfoldable pub require_scope : List String → Request → Reply
require_scope scopes req = scope_reply scopes req req.api_key

abbrev pub is_admin : RequestUser → Bool
is_admin u =
    str_eq u.role "admin" || any (λ m. str_eq m.role "admin" || str_eq m.role "owner") u.companies

abbrev admin_reply : Request → Option RequestUser → Option KeyData → Reply
admin_reply req none found = status 401
admin_reply req (some u) (some k) = reply_if req (has_scope "admin:all" k.scopes)
admin_reply req (some u) none = reply_if req (is_admin u)

unfoldable pub require_admin : Request → Reply
require_admin req = admin_reply req req.user req.api_key

-- A role that is asked for wants its scope for companies, or the scope of administrators.
abbrev pub OpensFor : Option String → List String → Type 0
OpensFor none scopes = Unit
OpensFor (some role) scopes = Lists (String.◌++◌ role ":company") scopes ⊎ Lists "admin:all" scopes

-- Who may enter a company, independent of the order of the handler's tests: a key of the company with
-- a scope for the role, or a user whose first membership in the company has the rank of the role.
pub data IsEntitled (required : Option String) (id : ℕ) (u : RequestUser)
    : Option KeyData → Type 0 where
  by_key :
      (k : KeyData)
      → k.company_id ≡ id
      → OpensFor required k.scopes
      → IsEntitled required id u (some k)
  by_membership :
      (m : Membership)
      → find (λ n. n.id == id) u.companies ≡ some m
      → meets_role required m.role ≡ true
      → IsEntitled required id u none

-- A request that names a company by its number, has a user, and is entitled to it.
pub record IsAllowed (required : Option String) (req : Request) : Type 0 where
  pub id : ℕ
  pub u : RequestUser
  pub named : company_id_of req ≡ some (some id)
  pub known : req.user ≡ some u
  pub entitled : IsEntitled required id u req.api_key

not-ltb : (a b : ℕ) → not (ltb a b) ≡ leb b a
not-ltb a b = ground arith

-- The table of the middleware gives the ranks of the service's.
pub has_rank-meets_role :
    (required : Option String) (role : String) → has_rank required role ≡ meets_role required role
has_rank-meets_role none role = refl
has_rank-meets_role (some required) role = not-ltb (role_hierarchy role) (role_hierarchy required)
