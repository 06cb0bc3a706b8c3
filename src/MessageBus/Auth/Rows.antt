-- ===== src/MessageBus/Auth/Rows.antt =====
-- Lists of rows as tables (message_bus/src/database/schema.ts): unique columns, `serial` columns, and
-- rows that are revoked by a hash.
use kpm_cursor.Base.{
  ℕ, suc, ◌≤◌, String, ◌≡◌, refl, inl, inr, Bool, true, false, ◌&&◌, ◌||◌, none, some, List, [],
  ◌∷◌, ◌++◌, map, arith, eq_iff, str_eq, Bool-cases, find, any,
}

pub any-append {ℓ} :
    {A : Type ℓ} (p : A → Bool) (x : A) (xs : List A) → any p (xs ++ x ∷ []) ≡ (any p xs || p x)
any-append p x [] = ground arith
any-append p x (y ∷ ys) = ground (arith, any-append p x ys)

pub any-map {ℓ} :
    {A : Type ℓ} (p : A → Bool) (f : A → A) (xs : List A)
    → ((x : A) → p (f x) ≡ p x)
    → any p (map f xs) ≡ any p xs
any-map p f [] h = refl
any-map p f (x ∷ xs) h = rw (h x, any-map p f xs h)

pub any-find {ℓ} :
    {A : Type ℓ} (p : A → Bool) (xs : List A) → any p xs ≡ true → (x : A) × (find p xs ≡ some x)
any-find p [] there = ground (arith, there)
any-find p (x ∷ xs) there = elim (Bool-cases (p x)) [
  | inl here ↦ (x, rw here)
  | inr later ↦ let (found, e) = any-find p xs (rw later at there) in (found, rw (later, e))
]

-- A column of texts.
module _ {ℓ} {A : Type ℓ} (column : A → String) where
  abbrev pub IsUnique : List A → Type 0
  IsUnique [] = Unit
  IsUnique (x ∷ xs) = (any (λ y. str_eq (column y) (column x)) xs ≡ false) × IsUnique xs

  pub IsUnique-append :
      (x : A) (xs : List A)
      → any (λ y. str_eq (column y) (column x)) xs ≡ false
      → IsUnique xs
      → IsUnique (xs ++ x ∷ [])
  IsUnique-append x [] new h = (refl, tt)
  IsUnique-append x (y ∷ ys) new h = (
    rw (any-append (λ z. str_eq (column z) (column y)) x ys, h.0)
        (ground (arith, new, eq_iff (column x) (column y), eq_iff (column y) (column x))),
    IsUnique-append x ys (ground (arith, new)) h.1,
  )

  pub IsUnique-map :
      (f : A → A) (xs : List A)
      → ((x : A) → column (f x) ≡ column x)
      → IsUnique xs
      → IsUnique (map f xs)
  IsUnique-map f [] same h = tt
  IsUnique-map f (x ∷ xs) same h = (
    rw (same x, any-map (λ y. str_eq (column y) (column x)) f xs (λ y. rw (same y))) h.0,
    IsUnique-map f xs same h.1,
  )

  -- Rows that share the column with different texts are told apart.
  pub apart :
      (text other : String) (xs : List A)
      → any (λ y. str_eq (column y) text) xs ≡ true
      → any (λ y. str_eq (column y) other) xs ≡ false
      → str_eq other text ≡ false
  apart text other [] issued new = ground (arith, issued)
  apart text other (x ∷ xs) issued new = ground (
    arith,
    eq_iff (column x) text,
    eq_iff (column x) other,
    eq_iff other text,
    issued,
    apart text other xs,
  )

-- A column of ids, which ascend from `low` and stay below the next of the column.
module _ {ℓ} {A : Type ℓ} (id : A → ℕ) where
  abbrev pub IsNumbered : ℕ → ℕ → List A → Type 0
  IsNumbered low next [] = low ≤ next
  IsNumbered low next (x ∷ xs) = (low ≤ id x) × IsNumbered (suc (id x)) next xs

  pub IsNumbered-append :
      (low next : ℕ) (x : A) (xs : List A)
      → id x ≡ next
      → IsNumbered low next xs
      → IsNumbered low (suc next) (xs ++ x ∷ [])
  IsNumbered-append low next x [] e h = (omega (arith, h, e), omega (arith, h, e))
  IsNumbered-append low next x (y ∷ ys) e h = (h.0, IsNumbered-append (suc (id y)) next x ys e h.1)

  pub IsNumbered-map :
      (f : A → A) (low next : ℕ) (xs : List A)
      → ((x : A) → id (f x) ≡ id x)
      → IsNumbered low next xs
      → IsNumbered low next (map f xs)
  IsNumbered-map f low next [] same h = h
  IsNumbered-map f low next (x ∷ xs) same h =
      rw (same x) (h.0, IsNumbered-map f (suc (id x)) next xs same h.1)

  found-above :
      (p : A → Bool) (low next : ℕ) (xs : List A) {a : A}
      → IsNumbered low next xs
      → find p xs ≡ some a
      → low ≤ id a
  found-above p low next [] h e = ground (arith, e)
  found-above p low next (x ∷ xs) {a} h e =
      ground (arith, h.0, found-above p (suc (id x)) next xs {a = a} h.1)

  -- Two rows that are found with one id are the same row.
  pub same_id :
      (p q : A → Bool) (low next : ℕ) (xs : List A) {a b : A}
      → IsNumbered low next xs
      → find p xs ≡ some a
      → find q xs ≡ some b
      → id a ≡ id b
      → a ≡ b
  same_id p q low next [] h e f same = ground (arith, e)
  same_id p q low next (x ∷ xs) {a} {b} h e f same = ground (
    arith,
    found-above p (suc (id x)) next xs {a = a} h.1,
    found-above q (suc (id x)) next xs {a = b} h.1,
    same_id p q (suc (id x)) next xs {a = a} {b = b} h.1,
  )

-- Rows with a hash and a flag.
module _ {ℓ} {A : Type ℓ} (hash_of : A → String) (is_active : A → Bool) where
  abbrev pub bears : String → A → Bool
  bears hash x = str_eq (hash_of x) hash

  abbrev pub is_live : String → A → Bool
  is_live hash x = bears hash x && is_active x

  -- Some row bears the hash, and none of those is active.
  abbrev pub IsRetired : String → List A → Type 0
  IsRetired hash xs = (any (bears hash) xs ≡ true) × (any (is_live hash) xs ≡ false)

  -- A rewriting of a row that keeps its hash and does not activate it.
  abbrev pub Weakens : (A → A) → Type ℓ
  Weakens f =
      (x : A) → (hash_of (f x) ≡ hash_of x) × (is_active x ≡ false → is_active (f x) ≡ false)

  pub dead-map :
      (hash : String) (f : A → A) (xs : List A)
      → Weakens f
      → any (is_live hash) xs ≡ false
      → any (is_live hash) (map f xs) ≡ false
  dead-map hash f [] h e = refl
  dead-map hash f (x ∷ xs) h e = ground (arith, h x, dead-map hash f xs h)

  pub IsRetired-map :
      (hash : String) (f : A → A) (xs : List A)
      → Weakens f
      → IsRetired hash xs
      → IsRetired hash (map f xs)
  IsRetired-map hash f xs h retired =
      (rw (any-map (bears hash) f xs (λ x. rw ((h x).0))) retired.0, dead-map hash f xs h retired.1)

  pub IsRetired-append :
      (hash : String) (x : A) (xs : List A)
      → any (bears (hash_of x)) xs ≡ false
      → IsRetired hash xs
      → IsRetired hash (xs ++ x ∷ [])
  IsRetired-append hash x xs new retired = (
    rw (any-append (bears hash) x xs, retired.0),
    rw (any-append (is_live hash) x xs, retired.1, apart hash_of hash (hash_of x) xs retired.0 new),
  )

  pub find-dead :
      (hash : String) (xs : List A) → any (is_live hash) xs ≡ false → find (is_live hash) xs ≡ none
  find-dead hash [] dead = refl
  find-dead hash (x ∷ xs) dead = ground (arith, dead, find-dead hash xs)
