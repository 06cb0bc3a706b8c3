-- ===== src/MessageBus/Middleware/Scopes.antt =====
-- The test of a scope in the list of a key's scopes (message_bus/src/auth/auth-middleware.ts), by where
-- the scope stands.
use Prim.Native.String.{String}
use kpm_cursor.Base.{
  String, ◌≡◌, refl, sym, ap, ◌∙◌, ◌↔◌, inl, inr, true, List, [], ◌∷◌, ◌++◌, arith, eq_iff, str_eq,
  any, Bool-cases,
}

-- The scope is somewhere in the list.
abbrev pub Lists : String → List String → Type 0
Lists scope scopes = (before later : List String) × (scopes ≡ before ++ scope ∷ later)

any-Lists :
    (scope : String) (scopes : List String) → any (str_eq scope) scopes ≡ true → Lists scope scopes
any-Lists scope [] e = ground (arith, e)
any-Lists scope (s ∷ scopes) e = elim (Bool-cases (str_eq scope s)) [
  | inl same ↦ ([], scopes, ap (λ t. t ∷ scopes) (sym ((eq_iff scope s).0 same)))
  | inr other ↦
      let (before, later, there) = any-Lists scope scopes (ground (arith, e, other)) in
      (s ∷ before, later, ap (λ ts. s ∷ ts) there)
]

Lists-any :
    (scope : String) (before later : List String)
    → any (str_eq scope) (before ++ scope ∷ later) ≡ true
Lists-any scope [] later = rw ((eq_iff scope scope).1 refl)
Lists-any scope (s ∷ before) later = rw (Lists-any scope before later) (ground arith)

pub any-Lists_iff :
    (scope : String) (scopes : List String)
    → (any (str_eq scope) scopes ≡ true) ↔ Lists scope scopes
any-Lists_iff scope scopes = (
  any-Lists scope scopes,
  λ (before, later, there). ap (any (str_eq scope)) there ∙ Lists-any scope before later,
)
