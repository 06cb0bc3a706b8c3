-- ===== src/Server/Retry/DeadLetters.antt =====
-- `processFailedOperations` (server/services/error-handler.ts).
use kpm_cursor.Base.{
  ℕ, ◌≡◌, refl, String, Bool, ◌&&◌, none, [], ◌∷◌, arith, any, leb, str_eq, if◌then◌else◌,
  Bool-cases, inl, inr,
}
use kpm_cursor.Base.Dict
use kpm_cursor.Base.Dict.{Dict, get-delete}
use kpm_cursor.Server.Retry.{FailedOperation, RetryManager, retry_due, process_failed_operations}

-- A dead letter with the id is due.
abbrev pub is_due : ℕ → String → Dict FailedOperation → Bool
is_due now id = any (λ e. leb e.1.next_retry_at now && str_eq e.1.id id)

retry_due-get :
    (now : ℕ) (id : String) (es m : Dict FailedOperation)
    → Dict.get id (retry_due now es m) ≡ (if is_due now id es then none else Dict.get id m)
unfolding retry_due
retry_due-get now id [] m = refl
retry_due-get now id ((key, f) ∷ es) m = elim (Bool-cases (leb f.next_retry_at now)) [
  | inl e ↦
      rw (e, retry_due)
        (ground (arith, retry_due-get now id es (Dict.delete f.id m), get-delete f.id id m))
  | inr e ↦ rw (e, retry_due) (ground (arith, retry_due-get now id es m))
]

-- A round of the retry timer drops each dead letter that is due without a call of its operation, and
-- keeps every other as it is.
pub process_failed_operations-get :
    (now : ℕ) (id : String) (m : RetryManager)
    → let m' = process_failed_operations now m in
      (Dict.get id m'.failed_operations
        ≡ (if is_due now id m.failed_operations then none else Dict.get id m.failed_operations))
      × (m'.alerts ≡ m.alerts)
      × (m'.waits ≡ m.waits)
unfolding process_failed_operations
process_failed_operations-get now id m =
    (retry_due-get now id m.failed_operations m.failed_operations, refl, refl)
