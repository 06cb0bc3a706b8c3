-- ===== src/Server/Retry.antt =====
-- The class `RetryManager` and the wrappers of `ErrorHandler` (server/services/error-handler.ts). A
-- call of `executeWithRetry` is one step: no other call reaches the manager during its waits. The
-- database and the notification service swallow their own errors there and stand as lists.
pub mod Attempts
pub mod Execution
pub mod DeadLetters
pub mod Stats
use kpm_cursor.Base.{
  ℕ, zero, suc, ◌+◌, ◌-◌, ◌*◌, ◌^◌, min, String, Bool, true, false, ◌&&◌, Option, none, some, List,
  [], ◌∷◌, ◌++◌, map, any, length, ltb, leb, get_or, if◌then◌else◌,
}
use kpm_cursor.Base.Dict
use kpm_cursor.Base.Dict.{Dict}
use kpm_cursor.Server.Breaker.{
  State, CircuitBreakerOptions, CircuitBreaker, new_breaker, admit, Ending, success, failure,
  finish,
}

pub data ErrorType : Type 0 where
  blockchain_transaction database_operation external_api validation authentication rate_limit
        timeout network :
      ErrorType

pub data ErrorSeverity : Type 0 where
  low medium high critical : ErrorSeverity

-- `metadata` is its JSON text.
pub record ErrorContext : Type 0 where
  pub kind : ErrorType
  pub severity : ErrorSeverity
  pub company_id : Option String
  pub user_id : Option String
  pub event_id : Option String
  pub tag_id : Option String
  pub endpoint : Option String
  pub metadata : Option String

pub record RetryOptions : Type 0 where
  pub max_retries : ℕ
  pub base_delay : ℕ
  pub max_delay : ℕ
  pub backoff_factor : ℕ
  pub retryable_errors : List String

pub record FailedOperation : Type 0 where
  pub id : String
  pub operation : String
  pub payload : String
  pub context : ErrorContext
  pub attempts : ℕ
  pub last_error : String
  pub next_retry_at : ℕ
  pub created_at : ℕ
  pub updated_at : ℕ

pub record SystemAlert : Type 0 where
  pub severity : ErrorSeverity
  pub attempts : ℕ
  pub error_message : String

-- The manager, the alerts in the database, the names of the operations that a critical notification
-- was sent for, and the waits between attempts.
pub record RetryManager : Type 0 where
  pub failed_operations : Dict FailedOperation
  pub circuit_breakers : Dict CircuitBreaker
  pub alerts : List SystemAlert
  pub notified : List String
  pub waits : List ℕ

-- What a promise becomes: a value, or the message of its error.
pub data Result {ℓ} (A : Type ℓ) : Type ℓ where
  fulfilled : A → Result A
  rejected : String → Result A

abbrev pub is_critical : ErrorSeverity → Bool
is_critical critical = true
is_critical _ = false

-- `Math.min(baseDelay * backoffFactor ** (attempt - 1), maxDelay)`
abbrev pub retry_delay : RetryOptions → ℕ → ℕ
retry_delay o attempt = min (o.base_delay * o.backoff_factor ^ (attempt - 1)) o.max_delay

abbrev pub breaker_options : CircuitBreakerOptions
breaker_options = record {
  failure_threshold = 5;
  reset_timeout = 60000;
  monitoring_window = 300000;
}

-- `getCircuitBreaker`
unfoldable pub get_circuit_breaker : ℕ → String → RetryManager → CircuitBreaker
get_circuit_breaker now name m =
    get_or (Dict.get name m.circuit_breakers) (new_breaker breaker_options now)

-- Five minutes.
abbrev pub retry_after : ℕ
retry_after = 300000

-- `contains s t` is `s.includes(t)`, and `operation_id` is `generateOperationId`, the operation's name
-- with the Base64 text of the context's JSON.
module _ (contains : String → String → Bool) (operation_id : String → ErrorContext → String) where
  pub is_retryable_error : String → List String → Bool
  is_retryable_error message errors = any (contains message) errors

  -- `addToDeadLetterQueue`, with `logError` and `notifyCriticalError`.
  pub add_to_dead_letter_queue :
      ℕ → String → ErrorContext → String → ℕ → RetryManager → RetryManager
  add_to_dead_letter_queue now name context message attempts m =
      let id = operation_id name context in
      record m {
        failed_operations =
            Dict.set id
              (record {
                id = id;
                operation = name;
                payload = get_or context.metadata "{}";
                context = context;
                attempts = attempts;
                last_error = message;
                next_retry_at = now + retry_after;
                created_at = now;
                updated_at = now;
              })
              m.failed_operations;
        alerts =
            m.alerts
            ++ record { severity = context.severity; attempts = attempts; error_message = message }
              ∷ [];
        notified = if is_critical context.severity then m.notified ++ name ∷ [] else m.notified;
      }

  module _ {ℓ} {A : Type ℓ} where
    -- `attemptOperation`, where `operation n` is what the n-th call gives; `none` says that the fuel
    -- ran out. `now` is the time of the last failure.
    pub attempt_operation :
        ℕ
        → (ℕ → Result A)
        → ℕ
        → String
        → ErrorContext
        → RetryOptions
        → ℕ
        → RetryManager
        → Option (RetryManager × Result A)
    unfolding is_retryable_error add_to_dead_letter_queue
    attempt_operation zero operation now name context o attempt m = none
    attempt_operation (suc fuel) operation now name context o attempt m = elim (operation attempt) [
      | fulfilled a ↦ some (
        record m {
          failed_operations = Dict.delete (operation_id name context) m.failed_operations;
        },
        fulfilled a,
      )
      | rejected message ↦
          elim (leb attempt o.max_retries && is_retryable_error message o.retryable_errors) [
            | true ↦
                attempt_operation fuel operation now name context o (attempt + 1)
                  (record m { waits = m.waits ++ retry_delay o attempt ∷ [] })
            | false ↦
                some (add_to_dead_letter_queue now name context message attempt m, rejected message)
          ]
    ]

    -- How the breaker sees the result.
    abbrev pub ending : ℕ → Result A → Ending
    ending now (fulfilled a) = success
    ending now (rejected message) = failure now

    -- `executeWithRetry`, started at `now` and over at `later`.
    pub execute_with_retry :
        ℕ
        → (ℕ → Result A)
        → ℕ
        → ℕ
        → String
        → ErrorContext
        → RetryOptions
        → RetryManager
        → Option (RetryManager × Result A)
    unfolding get_circuit_breaker attempt_operation
    execute_with_retry fuel operation now later name context o m =
        let b = get_circuit_breaker now name m in
        let known = record m { circuit_breakers = Dict.set name b m.circuit_breakers } in
        elim (admit now b) [
          | none ↦ some (known, rejected "Circuit breaker is OPEN")
          | some b' ↦ elim (attempt_operation fuel operation later name context o 1 known) [
            | none ↦ none
            | some done ↦ some (
              record (done.0) {
                circuit_breakers =
                    Dict.set name (finish (ending later done.1) b') (done.0).circuit_breakers;
              },
              done.1,
            )
          ]
        ]

-- The loop of `processFailedOperations`: `retryFailedOperation` only removes the operation, and never
-- throws, so its `catch` branch is not reached.
pub retry_due : ℕ → Dict FailedOperation → Dict FailedOperation → Dict FailedOperation
retry_due now [] m = m
retry_due now ((key, f) ∷ rest) m =
    retry_due now rest (if leb f.next_retry_at now then Dict.delete f.id m else m)

pub process_failed_operations : ℕ → RetryManager → RetryManager
unfolding retry_due
process_failed_operations now m = record m {
  failed_operations = retry_due now m.failed_operations m.failed_operations;
}
