-- ===== src/Server/Retry/Execution.antt =====
-- `executeWithRetry` under its circuit breaker, and the wrappers of `ErrorHandler`
-- (server/services/error-handler.ts).
use kpm_cursor.Base.{
  Bool, ℕ, suc, ◌+◌, ◌≤◌, ◌≡◌, refl, ap, ◌∙◌, String, Option, none, some, [], ◌∷◌, ◌++◌,
}
use kpm_cursor.Base.Dict
use kpm_cursor.Base.Dict.{get-set_same}
use kpm_cursor.Server.Breaker.{CircuitBreaker, admit, finish}
use kpm_cursor.Server.Retry.{
  ErrorContext, blockchain_transaction, database_operation, external_api, medium, high,
  RetryOptions, RetryManager, Result, fulfilled, rejected, add_to_dead_letter_queue,
  get_circuit_breaker, ending, execute_with_retry,
}
use kpm_cursor.Server.Retry.Attempts.{delays, Ends, settled, attempt_operation-settled}

abbrev pub blockchain_options : RetryOptions
blockchain_options = record {
  max_retries = 5;
  base_delay = 2000;
  max_delay = 60000;
  backoff_factor = 2;
  retryable_errors = "ECONNRESET" ∷ "ENOTFOUND" ∷ "TIMEOUT" ∷ "INSUFFICIENT_FUNDS" ∷ [];
}

abbrev pub database_options : RetryOptions
database_options = record {
  max_retries = 3;
  base_delay = 500;
  max_delay = 5000;
  backoff_factor = 2;
  retryable_errors = "ECONNRESET" ∷ "ENOTFOUND" ∷ "TIMEOUT" ∷ "LOCK_WAIT_TIMEOUT" ∷ [];
}

abbrev pub api_options : RetryOptions
api_options = record {
  max_retries = 4;
  base_delay = 1000;
  max_delay = 30000;
  backoff_factor = 2;
  retryable_errors =
      "ECONNRESET" ∷ "ENOTFOUND" ∷ "TIMEOUT" ∷ "RATE_LIMIT" ∷ "502" ∷ "503" ∷ "504" ∷ [];
}

module _ (contains : String → String → Bool) (operation_id : String → ErrorContext → String)
    {A : Type 0} (operation : ℕ → Result A) (now later : ℕ) where
  abbrev execute :
      String → ErrorContext → RetryOptions → RetryManager → Option (RetryManager × Result A)
  execute name context o =
      execute_with_retry contains operation_id (suc o.max_retries) operation now later name context
        o

  -- The wrappers; the context's own type and severity are replaced.
  pub handle_blockchain_transaction : ErrorContext → RetryManager → Option (RetryManager × Result A)
  handle_blockchain_transaction c =
      execute "blockchain_transaction" (record c { kind = blockchain_transaction; severity = high })
        blockchain_options

  pub handle_database_operation : ErrorContext → RetryManager → Option (RetryManager × Result A)
  handle_database_operation c =
      execute "database_operation" (record c { kind = database_operation; severity = medium })
        database_options

  pub handle_external_api : ErrorContext → RetryManager → Option (RetryManager × Result A)
  handle_external_api c =
      execute "external_api" (record c { kind = external_api; severity = medium }) api_options

  settled-kept :
      (name : String) (context : ErrorContext) (o : RetryOptions) (n : ℕ) (r : Result A)
      (m : RetryManager)
      → let s = settled contains operation_id operation later name context o n r m in
        (s.1 ≡ r) × (s.0.waits ≡ m.waits)
  unfolding add_to_dead_letter_queue
  settled-kept name context o n (fulfilled a) m = (refl, refl)
  settled-kept name context o n (rejected message) m = (refl, refl)

  -- A call while the breaker of its name refuses gives the breaker's error; no operation is called,
  -- nothing is waited for, and dead letters and alerts stay as they are.
  pub execute_with_retry-refused :
      (name : String) (context : ErrorContext) (o : RetryOptions) (m : RetryManager)
      → admit now (get_circuit_breaker now name m) ≡ none
      → (m' : RetryManager) × (execute name context o m
          ≡ some (m', rejected "Circuit breaker is OPEN"))
        × (m'.failed_operations ≡ m.failed_operations)
        × (m'.alerts ≡ m.alerts)
        × (m'.waits ≡ m.waits)
  unfolding execute_with_retry
  execute_with_retry-refused name context o m h =
      let known : RetryManager = record m {
        circuit_breakers = Dict.set name (get_circuit_breaker now name m) m.circuit_breakers;
      } in
      (known, rw (h, execute_with_retry) refl, refl, refl, refl)

  -- A call that the breaker of its name lets through always comes to an end: the operation is called
  -- and retried at most `max_retries` times, the call gives the last result, and the breaker, half open
  -- if it was open, sees that result once, however often the operation was retried.
  pub execute_with_retry-admitted :
      (name : String) (context : ErrorContext) (o : RetryOptions) (m : RetryManager)
      (b : CircuitBreaker)
      → admit now (get_circuit_breaker now name m) ≡ some b
      → (k : ℕ) × (k ≤ o.max_retries)
        × Ends contains operation_id operation later name context o 1 k
        × ((m' : RetryManager) × (execute name context o m ≡ some (m', operation (1 + k)))
            × (m'.waits ≡ m.waits ++ delays o 1 k)
            × (Dict.get name m'.circuit_breakers
                ≡ some (finish (ending contains operation_id later (operation (1 + k))) b)))
  unfolding execute_with_retry
  execute_with_retry-admitted name context o m b h =
      let known : RetryManager = record m {
        circuit_breakers = Dict.set name (get_circuit_breaker now name m) m.circuit_breakers;
      } in
      let (k, few, ends, eq) =
        attempt_operation-settled contains operation_id operation later name context o known in
      let s : RetryManager × Result A =
        settled contains operation_id operation later name context o (1 + k) (operation (1 + k))
          (record known { waits = m.waits ++ delays o 1 k }) in
      let (same, waits) =
        settled-kept name context o (1 + k) (operation (1 + k))
          (record known { waits = m.waits ++ delays o 1 k }) in
      let seen = finish (ending contains operation_id later s.1) b in
      let m' : RetryManager = record (s.0) {
        circuit_breakers = Dict.set name seen (s.0).circuit_breakers;
      } in
      (
        k,
        few,
        ends,
        (
          m',
          rw (h, eq, execute_with_retry) (ap (λ r. some (m', r)) same),
          waits,
          get-set_same name seen (s.0).circuit_breakers
              ∙ ap (λ r. some (finish (ending contains operation_id later r) b)) same,
        ),
      )
