-- ===== src/Server/Monitoring/Window.antt =====
-- Which metrics stay in memory.
use Prim.Native.String.{String}
use mathlib.Core.List.{append-nil, append_assoc}
use kpm_cursor.Base.{
  ℕ, zero, suc, ◌-◌, ◌≤◌, ◌<◌, String, ◌≡◌, refl, sym, ap, ◌∙◌, inl, inr, true, false, none, List,
  [], ◌∷◌, ◌++◌, arith, ltb, Bool-cases, get_or, length, drop, length-append, length-drop, ltb→lt,
}
use kpm_cursor.Base.Dict.{get, get-set_same}
use kpm_cursor.Server.Monitoring.{Metric, Metrics, metrics_limit, pushed, metrics_of, record_metric}

module _ {ℓ} {A : Type ℓ} where
  abbrev pub last : ℕ → List A → List A
  last n xs = drop (length xs - n) xs

  drop-append_le : (k : ℕ) (xs ys : List A) → k ≤ length xs → drop k (xs ++ ys) ≡ drop k xs ++ ys
  drop-append_le zero xs ys le = refl
  drop-append_le (suc k) [] ys le = ground arith
  drop-append_le (suc k) (x ∷ xs) ys le = drop-append_le k xs ys (omega arith)

  drop_one-drop : (k : ℕ) (xs : List A) → drop 1 (drop k xs) ≡ drop (suc k) xs
  drop_one-drop zero xs = refl
  drop_one-drop (suc k) [] = refl
  drop_one-drop (suc k) (x ∷ xs) = drop_one-drop k xs

  pushed-last_few :
      (xs : List A) (x : A)
      → length xs < metrics_limit
      → pushed (last metrics_limit xs) x ≡ last metrics_limit (xs ++ x ∷ [])
  pushed-last_few xs x few =
      let all : (length xs - metrics_limit ≡ 0) = omega arith in
      let still : (length (xs ++ x ∷ []) - metrics_limit ≡ 0) =
        omega (arith, length-append xs (x ∷ [])) in
      let fits : (ltb metrics_limit (length (xs ++ x ∷ [])) ≡ false) =
        ground (arith, length-append xs (x ∷ [])) in
      rw (all, still, fits)

  pushed-last_full :
      (xs : List A) (x : A)
      → metrics_limit ≤ length xs
      → pushed (last metrics_limit xs) x ≡ last metrics_limit (xs ++ x ∷ [])
  pushed-last_full xs x full =
      let k = length xs - metrics_limit in
      let grown : (length (xs ++ x ∷ []) - metrics_limit ≡ suc k) =
        omega (arith, length-append xs (x ∷ [])) in
      let over : (ltb metrics_limit (length (drop k xs ++ x ∷ [])) ≡ true) =
        ground (arith, length-append (drop k xs) (x ∷ []), length-drop k xs) in
      rw (over, grown)
        (ap (drop 1) (sym (drop-append_le k xs (x ∷ []) (omega arith)))
          ∙ drop_one-drop k (xs ++ x ∷ []))

  -- Another element is added to a window of the last ones.
  pushed-last :
      (xs : List A) (x : A) → pushed (last metrics_limit xs) x ≡ last metrics_limit (xs ++ x ∷ [])
  pushed-last xs x = elim (Bool-cases (ltb (length xs) metrics_limit)) [
    | inl e ↦ pushed-last_few xs x (ltb→lt _ _ e)
    | inr e ↦ pushed-last_full xs x (ground arith)
  ]

abbrev pub record_all : String → List Metric → Metrics → Metrics
record_all kind [] metrics = metrics
record_all kind (m ∷ more) metrics = record_all kind more (record_metric kind m metrics)

record_all-window :
    (kind : String) (ms seen : List Metric) (metrics : Metrics)
    → metrics_of kind metrics ≡ last metrics_limit seen
    → metrics_of kind (record_all kind ms metrics) ≡ last metrics_limit (seen ++ ms)
unfolding record_metric
record_all-window kind [] seen metrics h = rw append-nil h
record_all-window kind (m ∷ more) seen metrics h =
    record_all-window kind more (seen ++ m ∷ []) (record_metric kind m metrics) (
      ap (λ o. get_or o []) (get-set_same kind _ metrics)
      ∙ ap (λ xs. pushed xs m) h
      ∙ pushed-last seen m)
    ∙ ap (last metrics_limit) (append_assoc seen (m ∷ []) more)

-- Of the metrics that are recorded of a type from when nothing of it is stored, the last thousand stay,
-- in order.
pub record_all-last :
    (kind : String) (ms : List Metric) (metrics : Metrics)
    → get kind metrics ≡ none
    → metrics_of kind (record_all kind ms metrics) ≡ last metrics_limit ms
record_all-last kind ms metrics h = record_all-window kind ms [] metrics (ap (λ o. get_or o []) h)
