-- ===== src/Integration/Edi/Processor/Changes.antt =====
-- Changes of one stored object, and the events that are sent for a document.
use mathlib.Core.Option
use kpm_cursor.Base.{
  String, ◌≡◌, refl, inl, inr, none, some, [], ◌∷◌, ◌++◌, arith, eq_iff, str_eq, if◌then◌else◌,
  Bool-cases, All,
}
use kpm_cursor.Base.Dict.{Dict, get, set}
use kpm_cursor.Integration.Edi.Processor.{change}

module _ {ℓ} {V : Type ℓ} where
  pub get-change :
      (k j : String) (f : V → V) (m : Dict V)
      → get j (change k f m) ≡ (if str_eq k j then Option.map f (get j m) else get j m)
  get-change k j f [] = ground arith
  get-change k j f ((i, v) ∷ m) =
      ground (arith, eq_iff k j, eq_iff i k, eq_iff i j, get-change k j f m)

  pub All-change {κ} :
      (P : V → Type κ) (k : String) (f : V → V) (m : Dict V)
      → All (λ e. P e.1) m
      → ((v : V) → get k m ≡ some v → P v → P (f v))
      → All (λ e. P e.1) (change k f m)
  All-change P k f [] h step = tt
  All-change P k f ((j, v) ∷ m) h step = elim (Bool-cases (str_eq j k)) [
    | inl e ↦ rw e (step v (rw e) h.0, h.1)
    | inr e ↦ rw e (h.0, All-change P k f m h.1 (λ w g. step w (rw e g)))
  ]

  -- A key that is not there is added at the end.
  pub set-new : (k : String) (v : V) (m : Dict V) → get k m ≡ none → set k v m ≡ m ++ (k, v) ∷ []
  set-new k v [] h = refl
  set-new k v ((j, w) ∷ m) h = ground (arith, set-new k v m)

  pub change-last :
      (k : String) (f : V → V) (v : V) (m : Dict V)
      → get k m ≡ none
      → change k f (m ++ (k, v) ∷ []) ≡ m ++ (k, f v) ∷ []
  change-last k f v [] h = ground (arith, eq_iff k k)
  change-last k f v ((j, w) ∷ m) h = ground (arith, change-last k f v m)

  pub change-change :
      (k : String) (f g : V → V) (m : Dict V)
      → change k f (change k g m) ≡ change k (λ v. f (g v)) m
  change-change k f g [] = refl
  change-change k f g ((j, v) ∷ m) = ground (arith, change-change k f g m)
