-- ===== src/Server/Retention/Cleanup.antt =====
-- What a cleanup changes and reports.
use mathlib.Core.List.{append-nil, append_assoc}
use kpm_cursor.Base.{
  ◌+◌, String, ◌≡◌, refl, sym, ap, ◌∙◌, inl, inr, Bool, true, false, Option, List, [], ◌∷◌, ◌++◌,
  map, arith, if◌then◌else◌, Bool-cases, filter, sum_by,
}
use kpm_cursor.Server.Retention.{
  clean_policy, pass_policy, Audit, cleanup, deletes, get_retention_metrics, RetentionPolicy,
  Service, Env, CleanupResult, is_chosen, cleaned, audit_if, clean_from, execute_cleanup,
}

abbrev pub cleaned_if : Env → Option String → RetentionPolicy → RetentionPolicy
cleaned_if env policy_id p = if is_chosen policy_id p then cleaned env p else p

abbrev pub result_of : Env → RetentionPolicy → CleanupResult
result_of env p = record { policy_id = p.id; items_deleted = deletes env p }

audit_if-policies :
    (written : Bool) (a : Audit) (id : String) (s : Service)
    → (audit_if written a id s).policies ≡ s.policies
audit_if-policies true a id s = refl
audit_if-policies false a id s = refl

clean_from-policies :
    (env : Env) (policy_id : Option String) (policies : List RetentionPolicy)
    (results : List CleanupResult) (s : Service)
    → let after = clean_from env policy_id policies (results, s) in
      (after.1.policies ≡ s.policies ++ map (cleaned_if env policy_id) policies)
      × (after.0 ≡ results ++ map (result_of env) (filter (is_chosen policy_id) policies))
clean_from-policies env policy_id [] results s =
    (sym (append-nil s.policies), sym (append-nil results))
clean_from-policies env policy_id (p ∷ policies) results s =
    let done : (List CleanupResult × Service) = (results, s) in
    let next : (List CleanupResult × Service) =
      if is_chosen policy_id p then clean_policy env p done else pass_policy p done in
    let (kept, reported) = clean_from-policies env policy_id policies next.0 next.1 in
    elim (Bool-cases (is_chosen policy_id p)) [
      | inl e ↦
          let q : (next ≡ clean_policy env p done) = rw e in
          (
            kept
                ∙ ap (λ d. d.1.policies ++ map (cleaned_if env policy_id) policies) q
                ∙ ap (λ l. l ++ map (cleaned_if env policy_id) policies)
                    (audit_if-policies (env.can_audit p) (cleanup p.id (deletes env p)) p.id
                      (record s { policies = s.policies ++ cleaned env p ∷ [] }))
                ∙ append_assoc s.policies _ _
                ∙ rw e,
            reported
                ∙ ap (λ d. d.0 ++ map (result_of env) (filter (is_chosen policy_id) policies)) q
                ∙ append_assoc results _ _
                ∙ rw e,
          )
      | inr e ↦
          let q : (next ≡ pass_policy p done) = rw e in
          (
            kept
                ∙ ap (λ d. d.1.policies ++ map (cleaned_if env policy_id) policies) q
                ∙ append_assoc s.policies _ _
                ∙ rw e,
            reported
                ∙ ap (λ d. d.0 ++ map (result_of env) (filter (is_chosen policy_id) policies)) q
                ∙ rw e,
          )
    ]

total-cleaned :
    (env : Env) (policy_id : Option String) (policies : List RetentionPolicy)
    → sum_by (λ p. p.items_deleted) (map (cleaned_if env policy_id) policies)
      ≡ sum_by (λ p. p.items_deleted) policies
        + sum_by
            (λ r. r.items_deleted)
            (map (result_of env) (filter (is_chosen policy_id) policies))
total-cleaned env policy_id [] = omega arith
total-cleaned env policy_id (p ∷ policies) = elim (Bool-cases (is_chosen policy_id p)) [
  | inl e ↦ rw e (omega (arith, total-cleaned env policy_id policies))
  | inr e ↦ rw e (omega (arith, total-cleaned env policy_id policies))
]

-- A cleanup reports each chosen policy once, in order, whether or not its audit log can be written; the
-- others stay as they are, and the deleted items that the metrics show grow by what is reported.
pub execute_cleanup-reports :
    (env : Env) (policy_id : Option String) (s : Service)
    → let result = execute_cleanup env policy_id s in
      (result.0 ≡ map (result_of env) (filter (is_chosen policy_id) s.policies))
      × (result.1.policies ≡ map (cleaned_if env policy_id) s.policies)
      × ((get_retention_metrics result.1).total_items_deleted
          ≡ (get_retention_metrics s).total_items_deleted + sum_by (λ r. r.items_deleted) result.0)
unfolding execute_cleanup get_retention_metrics
execute_cleanup-reports env policy_id s =
    let (kept, reported) =
      clean_from-policies env policy_id s.policies [] (record s { policies = [] }) in
    (reported, kept, rw (kept, reported) (total-cleaned env policy_id s.policies))
