-- ===== src/Server/Retention.antt =====
-- The class `DataRetentionService` of server/services/data-retention.ts. What a cleanup deletes and
-- whether an audit log can be written are arguments; times are milliseconds.
pub mod Cleanup
mod Tests
use kpm_cursor.Base.{
  any, ℕ, ◌+◌, ◌-◌, ◌/◌, String, Bool, true, false, Option, none, some, List, [], ◌∷◌, ◌++◌, str_eq,
  if◌then◌else◌, length, filter, find, sum_by,
}
use kpm_cursor.Base.Text.{is_empty}

pub record RetentionPolicy : Type 0 where
  pub id : String
  pub data_type : String
  pub retention_days : ℕ
  pub enabled : Bool
  pub last_cleanup : ℕ
  pub items_deleted : ℕ

abbrev pub initial_policy : ℕ → String → String → ℕ → RetentionPolicy
initial_policy now id data_type retention_days = record {
  id = id;
  data_type = data_type;
  retention_days = retention_days;
  enabled = true;
  last_cleanup = now - 86400000;
  items_deleted = 0;
}

abbrev pub initial_policies : ℕ → List RetentionPolicy
initial_policies now =
    initial_policy now "audit_logs" "Audit Logs" 365
    ∷ initial_policy now "security_incidents" "Security Incidents" 90
    ∷ initial_policy now "system_metrics" "System Metrics" 30
    ∷ initial_policy now "error_logs" "Error Logs" 60
    ∷ initial_policy now "notification_history" "Notification History" 30
    ∷ []

pub data Audit : Type 0 where
  policy_updated : (policy_id : String) (before after : RetentionPolicy) → Audit
  cleanup : (policy_id : String) (items_deleted : ℕ) → Audit
  policy_created policy_deleted : RetentionPolicy → Audit

pub record Service : Type 0 where
  pub policies : List RetentionPolicy
  pub audits : List Audit
  -- the policies whose cleanup was reported as failed
  pub incidents : List String

pub record RetentionMetrics : Type 0 where
  pub total_policies : ℕ
  pub active_policies : ℕ
  pub total_items_deleted : ℕ
  pub storage_reclaimed : ℕ

unfoldable pub get_retention_metrics : Service → RetentionMetrics
get_retention_metrics s =
    let total = sum_by (λ p. p.items_deleted) s.policies in
    record {
      total_policies = length s.policies;
      active_policies = length (filter (λ p. p.enabled) s.policies);
      total_items_deleted = total;
      storage_reclaimed = total / 2;
    }

-- The environment of a cleanup.
pub record Env : Type 0 where
  pub now : ℕ
  -- what the cleanup of a known policy counts
  pub count : RetentionPolicy → ℕ
  pub can_audit : RetentionPolicy → Bool

abbrev is_known : String → Bool
is_known id =
    any (λ k. str_eq k id)
      ("audit_logs" ∷ "security_incidents" ∷ "system_metrics" ∷ "error_logs"
        ∷ "notification_history" ∷ [])

-- `cleanupDataForPolicy`
abbrev pub deletes : Env → RetentionPolicy → ℕ
deletes env p = if is_known p.id then env.count p else 0

-- `policyId ? p.id === policyId : p.enabled`
abbrev pub is_chosen : Option String → RetentionPolicy → Bool
is_chosen none p = p.enabled
is_chosen (some id) p = if is_empty id then p.enabled else str_eq p.id id

abbrev pub cleaned : Env → RetentionPolicy → RetentionPolicy
cleaned env p = record p { last_cleanup = env.now; items_deleted = p.items_deleted + deletes env p }

pub record CleanupResult : Type 0 where
  pub policy_id : String
  pub items_deleted : ℕ

abbrev pub audit_if : Bool → Audit → String → Service → Service
audit_if true audit id s = record s { audits = s.audits ++ audit ∷ [] }
audit_if false audit id s = record s { incidents = s.incidents ++ id ∷ [] }

-- One round of the loop; the policy at hand becomes the last of those that were passed.
abbrev pub clean_policy :
    Env → RetentionPolicy → List CleanupResult × Service → List CleanupResult × Service
clean_policy env p (results, s) = (
  results ++ record { policy_id = p.id; items_deleted = deletes env p } ∷ [],
  audit_if (env.can_audit p) (cleanup p.id (deletes env p)) p.id
      (record s { policies = s.policies ++ cleaned env p ∷ [] }),
)

abbrev pub pass_policy :
    RetentionPolicy → List CleanupResult × Service → List CleanupResult × Service
pass_policy p (results, s) = (results, record s { policies = s.policies ++ p ∷ [] })

abbrev pub clean_from :
    Env
    → Option String
    → List RetentionPolicy
    → List CleanupResult × Service
    → List CleanupResult × Service
clean_from env policy_id [] done = done
clean_from env policy_id (p ∷ policies) done =
    clean_from env policy_id policies
      (if is_chosen policy_id p then clean_policy env p done else pass_policy p done)

-- The policies that are passed stay as they are, in their places.
unfoldable pub execute_cleanup : Env → Option String → Service → List CleanupResult × Service
execute_cleanup env policy_id s =
    clean_from env policy_id s.policies ([], record s { policies = [] })

-- The first policy with the id is rewritten; none where there is none.
abbrev pub change_first :
    String → (RetentionPolicy → RetentionPolicy) → List RetentionPolicy → List RetentionPolicy
change_first id f [] = []
change_first id f (p ∷ policies) =
    if str_eq p.id id then f p ∷ policies else p ∷ change_first id f policies

abbrev pub drop_first : String → List RetentionPolicy → List RetentionPolicy
drop_first id [] = []
drop_first id (p ∷ policies) = if str_eq p.id id then policies else p ∷ drop_first id policies

abbrev update_found :
    Option RetentionPolicy → String → (RetentionPolicy → RetentionPolicy) → Service → Option Service
update_found none id updates s = none
update_found (some p) id updates s = some (record s {
  policies = change_first id updates s.policies;
  audits = s.audits ++ policy_updated id p (updates p) ∷ [];
})

-- none: the error "Policy … not found".
unfoldable pub update_policy :
    String → (RetentionPolicy → RetentionPolicy) → Service → Option Service
update_policy id updates s = update_found (find (λ p. str_eq p.id id) s.policies) id updates s

unfoldable pub create_custom_policy : ℕ → RetentionPolicy → Service → Service
create_custom_policy now p s =
    let new : RetentionPolicy = record p { last_cleanup = now; items_deleted = 0 } in
    record s { policies = s.policies ++ new ∷ []; audits = s.audits ++ policy_created new ∷ [] }

abbrev delete_found : Option RetentionPolicy → String → Service → Option Service
delete_found none id s = none
delete_found (some p) id s =
    some
      (record s { policies = drop_first id s.policies; audits = s.audits ++ policy_deleted p ∷ [] })

unfoldable pub delete_policy : String → Service → Option Service
delete_policy id s = delete_found (find (λ p. str_eq p.id id) s.policies) id s
