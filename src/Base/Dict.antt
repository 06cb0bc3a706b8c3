-- ===== src/Base/Dict.antt =====
-- A JavaScript `Map` with string keys: an association list in insertion order. `set` of a key that is
-- there keeps its place, as `Map.prototype.set` does.
use Prim.Native.String.{String}
use mathlib.Core.Path.{◌≡◌, refl}
use mathlib.Core.Logic.{◌≢◌}
use mathlib.Core.Bool.{Bool}
use mathlib.Core.List.{List, [], ◌∷◌, map}
use mathlib.Core.Option
use mathlib.Core.Option.{Option, none, some}
use native.Mathlib.Omega.{arith}
use text.Mathlib.Text.{◌==◌}
use text.Mathlib.TextEquality.{eq_iff}
use kpm_cursor.Base.Tests.{if◌then◌else◌, is_some}
use kpm_cursor.Base.Lists.{All}

abbrev pub Dict {ℓ} : Type ℓ → Type ℓ
Dict V = List (String × V)

module _ {ℓ} {V : Type ℓ} where
  -- `m.get(k)`
  abbrev pub get : String → Dict V → Option V
  get k [] = none
  get k ((j, v) ∷ m) = if j == k then some v else get k m

  -- `m.has(k)`
  abbrev pub has : String → Dict V → Bool
  has k m = is_some (get k m)

  -- `m.set(k, v)`
  abbrev pub set : String → V → Dict V → Dict V
  set k v [] = (k, v) ∷ []
  set k v ((j, w) ∷ m) = if j == k then (j, v) ∷ m else (j, w) ∷ set k v m

  -- `m.delete(k)`
  abbrev pub delete : String → Dict V → Dict V
  delete k [] = []
  delete k ((j, v) ∷ m) = if j == k then delete k m else (j, v) ∷ delete k m

  -- `m.values()`
  abbrev pub values : Dict V → List V
  values = map (λ e. e.1)

  -- Every value is rewritten, as a loop over `m.values()` that mutates the objects does.
  abbrev pub map_values : (V → V) → Dict V → Dict V
  map_values f [] = []
  map_values f ((j, v) ∷ m) = (j, f v) ∷ map_values f m

  pub get-set :
      (k j : String) (v : V) (m : Dict V) → get j (set k v m) ≡ (if k == j then some v else get j m)
  get-set k j v [] = refl
  get-set k j v ((i, w) ∷ m) = ground (arith, eq_iff k j, eq_iff i k, eq_iff i j, get-set k j v m)

  pub get-set_same : (k : String) (v : V) (m : Dict V) → get k (set k v m) ≡ some v
  get-set_same k v m = ground (arith, eq_iff k k, get-set k k v m)

  pub get-set_other : (k j : String) (v : V) (m : Dict V) → j ≢ k → get j (set k v m) ≡ get j m
  get-set_other k j v m apart = ground (arith, apart, eq_iff k j, get-set k j v m)

  pub get-delete :
      (k j : String) (m : Dict V) → get j (delete k m) ≡ (if k == j then none else get j m)
  get-delete k j [] = ground arith
  get-delete k j ((i, w) ∷ m) = ground (arith, eq_iff k j, eq_iff i k, eq_iff i j, get-delete k j m)

  pub get-map_values :
      (f : V → V) (k : String) (m : Dict V) → get k (map_values f m) ≡ Option.map f (get k m)
  get-map_values f k [] = refl
  get-map_values f k ((j, v) ∷ m) = ground (arith, get-map_values f k m)

  -- A predicate on the values of a dictionary survives each operation.
  pub All-set {κ} :
      (P : V → Type κ) (k : String) (v : V) (m : Dict V)
      → P v
      → All (λ e. P e.1) m
      → All (λ e. P e.1) (set k v m)
  All-set P k v [] p h = (p, tt)
  All-set P k v ((j, w) ∷ m) p h = ground (arith, All-set P k v m p h.1)

  pub All-get {κ} :
      (P : V → Type κ) (k : String) (m : Dict V) {v : V}
      → All (λ e. P e.1) m
      → get k m ≡ some v
      → P v
  All-get P k [] h e = ground arith
  All-get P k ((j, w) ∷ m) {v} h e = ground (arith, All-get P k m {v = v} h.1)
