-- ===== src/MessageBus/Auth/Registered.antt =====
-- A registered user logs in (message_bus/src/auth/auth-service.ts).
use mathlib.Core.Option
use mathlib.Core.List.{map-append}
use kpm_cursor.Base.{
  ℕ, suc, ◌/◌, ◌≤◌, String, ◌≡◌, refl, sym, ap, ◌∙◌, subst, inl, inr, Bool, true, false, ◌&&◌, some,
  List, [], ◌∷◌, ◌++◌, map, arith, eq_iff, ◌==◌, Bool-cases, get_or, find, any,
}
use kpm_cursor.MessageBus.Auth.Tables.{user_number, login_row, login_row-id}
use kpm_cursor.MessageBus.Auth.Users.{
  role_or, to_lower_case, insert_company_user, record_login, new_user, join_company, register_user,
  check_password, login_user,
}
use kpm_cursor.MessageBus.Auth.Tokens.{
  has_email, has_user_id, has_company_id, has_token_hash, with_companies, get_user_with_companies,
  payload_of, insert_session, issue, generate_auth_token,
}
use kpm_cursor.MessageBus.Auth.Rows.{any-map, IsNumbered}
use kpm_cursor.MessageBus.Auth.{
  User, Database, Outcome, is_ok, AuthToken, RegisterData, Crypto, IsCrypto, Env, ok, thrown,
}

find-last {ℓ} :
    {A : Type ℓ} (p : A → Bool) (x : A) (xs : List A)
    → any p xs ≡ false
    → p x ≡ true
    → find p (xs ++ x ∷ []) ≡ some x
find-last p x [] none_there here = rw here
find-last p x (y ∷ ys) none_there here = ground (arith, here, none_there, find-last p x ys)

below_next {ℓ} :
    {A : Type ℓ} (id : A → ℕ) (low next : ℕ) (xs : List A) → IsNumbered id low next xs → low ≤ next
below_next id low next [] h = h
below_next id low next (x ∷ xs) h = ground (arith, h.0, below_next id (suc (id x)) next xs h.1)

-- No row has the next id.
any-beyond {ℓ} :
    {A : Type ℓ} (id : A → ℕ) (low next : ℕ) (xs : List A)
    → IsNumbered id low next xs
    → any (λ x. id x == next) xs ≡ false
any-beyond id low next [] h = refl
any-beyond id low next (x ∷ xs) h =
    ground (arith, below_next id (suc (id x)) next xs h.1, any-beyond id (suc (id x)) next xs h.1)

both-false {ℓ} :
    {A : Type ℓ} (p q : A → Bool) (xs : List A)
    → any p xs ≡ false
    → any (λ x. p x && q x) xs ≡ false
both-false p q [] h = refl
both-false p q (x ∷ xs) h = ground (arith, h, both-false p q xs)

-- The tables after a registration: the new user's row is the last, and the token is that user's.
abbrev IfRegistered : User → List User → Database × Outcome AuthToken → Type 0
IfRegistered v before (d, ok t) = (d.users ≡ before ++ v ∷ []) × (t.user ≡ with_companies d v)
IfRegistered v before (d, thrown message) = Unit

module _ (c : Crypto) (env : Env) (v : User) (before : List User)
    (fresh : any (has_user_id v.id) before ≡ false) (active : v.is_active ≡ true) where
  found_again :
      (d : Database)
      → d.users ≡ before ++ v ∷ []
      → get_user_with_companies v.id d ≡ some (with_companies d v)
  unfolding get_user_with_companies
  found_again d e =
      let found : find (λ u. has_user_id v.id u && u.is_active) (before ++ v ∷ []) ≡ some v =
        find-last _ v before (both-false (has_user_id v.id) (λ u. u.is_active) before fresh)
          (ground (arith, active)) in
      ap (λ us. Option.map (with_companies d) (find (λ u. has_user_id v.id u && u.is_active) us)) e
      ∙ ap (Option.map (with_companies d)) found

  issue-IfRegistered :
      (d : Database)
      → d.users ≡ before ++ v ∷ []
      → IfRegistered v before (issue c env (some (with_companies d v)) d)
  unfolding issue insert_session
  issue-IfRegistered d e =
      let hash = c.sha256 (c.sign (payload_of (with_companies d v)) (env.now / 1000)) in
      elim (Bool-cases (any (has_token_hash hash) d.user_sessions)) [
        | inl there ↦ rw there tt
        | inr new ↦ rw new (e, refl)
      ]

  generate-IfRegistered :
      (d : Database)
      → d.users ≡ before ++ v ∷ []
      → IfRegistered v before (generate_auth_token c env v.id d)
  unfolding generate_auth_token
  generate-IfRegistered d e =
      subst (λ found. IfRegistered v before (issue c env found d)) (sym (found_again d e))
        (issue-IfRegistered d e)

  join_company-IfRegistered :
      (details : RegisterData) (d : Database)
      → d.users ≡ before ++ v ∷ []
      → IfRegistered v before (join_company c env v.id details d)
  unfolding join_company
  join_company-IfRegistered details d e =
      let company_id = get_or details.company_id 0 in
      elim (Bool-cases (company_id == 0)) [
        | inl none_given ↦ rw none_given (generate-IfRegistered d e)
        | inr given ↦ elim (Bool-cases (any (has_company_id company_id) d.companies)) [
          | inl there ↦
              rw (given, there)
                (generate-IfRegistered
                  (insert_company_user company_id v.id (role_or details.role "member") d) e)
          | inr missing ↦ rw (given, missing) tt
        ]
      ]

register_user-IfRegistered :
    (c : Crypto) (env : Env) (details : RegisterData) (db : Database)
    → IsNumbered user_number 0 db.next_user db.users
    → IfRegistered (new_user c env details db) db.users (register_user c env details db)
unfolding register_user
register_user-IfRegistered c env details db numbered =
    elim (Bool-cases (any (has_email (to_lower_case details.email)) db.users)) [
      | inl taken ↦ rw taken tt
      | inr free ↦ rw free (
          join_company-IfRegistered c env (new_user c env details db) db.users
            (any-beyond user_number 0 db.next_user db.users numbered) refl details _ refl)
    ]

-- The e-mail of a registration that succeeded was free.
email_free :
    (c : Crypto) (env : Env) (details : RegisterData) (db granted : Database) (t : AuthToken)
    → register_user c env details db ≡ (granted, ok t)
    → any (has_email (to_lower_case details.email)) db.users ≡ false
unfolding register_user
email_free c env details db granted t e =
    elim (Bool-cases (any (has_email (to_lower_case details.email)) db.users)) [
      | inl taken ↦ ground (arith, ap (λ r. is_ok r.1) (rw taken at e))
      | inr free ↦ free
    ]

-- The rows of the users after a login of the last one.
login_rows :
    (now : ℕ) (v : User) (before : List User)
    → map (login_row now v.id) (before ++ v ∷ [])
      ≡ map (login_row now v.id) before ++ record v { last_login_at = some now } ∷ []
login_rows now v before =
    let here : (v.id == v.id) ≡ true = ground arith in
    map-append (login_row now v.id) before (v ∷ []) ∙ rw here

module _ (c : Crypto) (later : Env) (v : User) (before : List User) (d : Database)
    (users : d.users ≡ before ++ v ∷ []) (fresh : any (has_user_id v.id) before ≡ false)
    (active : v.is_active ≡ true)
    (new : any
        (has_token_hash (c.sha256 (c.sign (payload_of (with_companies d v)) (later.now / 1000))))
        d.user_sessions
      ≡ false) where
  generate-after_login :
      is_ok (generate_auth_token c later v.id (record_login later.now v.id d)).1 ≡ true
  unfolding generate_auth_token issue insert_session
  generate-after_login =
      let w = record v { last_login_at = some later.now } in
      let rows : List User = map (login_row later.now v.id) before in
      let gone : any (has_user_id v.id) rows ≡ false =
        rw
          (any-map (has_user_id v.id) (login_row later.now v.id) before
            (λ u. rw (login_row-id later.now v.id u)))
          fresh in
      let found : get_user_with_companies v.id (record_login later.now v.id d)
          ≡ some (with_companies (record_login later.now v.id d) w) =
        found_again c later w rows gone active (record_login later.now v.id d)
          (ap (map (login_row later.now v.id)) users ∙ login_rows later.now v before) in
      rw (found, new)

-- A user who has registered logs in with the same password and the e-mail in any case, in a second
-- whose token has not been given out before.
pub login_user-register_user :
    (c : Crypto) (env later : Env) (details : RegisterData) (email : String) (db granted : Database)
    (t : AuthToken)
    → IsCrypto c
    → IsNumbered user_number 0 db.next_user db.users
    → register_user c env details db ≡ (granted, ok t)
    → to_lower_case email ≡ to_lower_case details.email
    → any
        (has_token_hash (c.sha256 (c.sign (payload_of t.user) (later.now / 1000))))
        granted.user_sessions
      ≡ false
    → is_ok (login_user c later (record { email = email; password = details.password }) granted).1
      ≡ true
unfolding login_user check_password
login_user-register_user c env later details email db granted t laws numbered e same new =
    let v = new_user c env details db in
    let kept : IfRegistered v db.users (granted, ok t) =
      subst (IfRegistered v db.users) e (register_user-IfRegistered c env details db numbered) in
    let found : find (λ u. has_email (to_lower_case email) u && u.is_active) granted.users
        ≡ some v =
      rw (same, kept.0)
        (find-last _ v db.users
          (both-false (has_email (to_lower_case details.email)) (λ u. u.is_active) db.users
            (email_free c env details db granted t e))
          (ground (arith, eq_iff (to_lower_case details.email) (to_lower_case details.email)))) in
    rw (found, laws.compare-hash env.salt details.password)
      (generate-after_login c later v db.users granted kept.0
        (any-beyond user_number 0 db.next_user db.users numbered) refl
        (ap
            (λ u.
              any (has_token_hash (c.sha256 (c.sign (payload_of u) (later.now / 1000))))
                granted.user_sessions)
            (sym kept.1)
          ∙ new))
