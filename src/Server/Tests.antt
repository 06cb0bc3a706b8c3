-- ===== src/Server/Tests.antt =====
-- Concrete breakers and operations (server/services/error-handler.ts): the theorems at inputs that meet
-- their hypotheses.
use kpm_cursor.Base.{
  ℕ, ◌+◌, ◌≤◌, ◌≡◌, refl, String, none, some, [], ◌∷◌, ◌++◌, arith, leb, str_eq, if◌then◌else◌,
}
use kpm_cursor.Base.Dict
use kpm_cursor.Server.Breaker.{
  State, closed, opened, CircuitBreaker, admit, success, failure, finish, finish_all, ask, end_of,
  run,
}
use kpm_cursor.Server.Breaker.Streaks.{
  longest_streak, IsConsistent, run-IsConsistent, finish_all-longest_streak,
}
use kpm_cursor.Server.Retry.{
  ErrorContext, external_api, medium, FailedOperation, RetryManager, Result, fulfilled, rejected,
  breaker_options, get_circuit_breaker, attempt_operation, ending, execute_with_retry,
}
use kpm_cursor.Server.Retry.Attempts.{delays, Ends, settled, attempt_operation-settled}
use kpm_cursor.Server.Retry.Execution.{api_options, execute_with_retry-admitted}

abbrev breaker : State → CircuitBreaker
breaker s = record {
  options = breaker_options;
  state = s;
  failures = 3;
  last_failure_time = 1000;
  success_count = 0;
}

run-IsConsistent_example :
    IsConsistent (run (ask 1 ∷ end_of (failure 2) ∷ end_of success ∷ []) (breaker closed))
run-IsConsistent_example =
    run-IsConsistent (ask 1 ∷ end_of (failure 2) ∷ end_of success ∷ []) (breaker closed)
      (omega arith) (omega arith)

finish_all-longest_streak_example :
    (finish_all (failure 1 ∷ success ∷ failure 2 ∷ []) (breaker closed)).state
    ≡ (if leb 5 (longest_streak 3 (failure 1 ∷ success ∷ failure 2 ∷ [])) then opened else closed)
finish_all-longest_streak_example =
    finish_all-longest_streak (failure 1 ∷ success ∷ failure 2 ∷ []) (breaker closed) refl
      (omega arith)

abbrev context : ErrorContext
context = record {
  kind = external_api;
  severity = medium;
  company_id = none;
  user_id = none;
  event_id = none;
  tag_id = none;
  endpoint = none;
  metadata = none;
}

abbrev manager : State → RetryManager
manager s = record {
  failed_operations = [];
  circuit_breakers = ("external_api", breaker s) ∷ [];
  alerts = [];
  notified = [];
  waits = [];
}

abbrev id_of : String → ErrorContext → String
id_of name c = name

-- The first two calls time out.
abbrev flaky : ℕ → Result ℕ
flaky n = if leb n 2 then rejected "TIMEOUT" else fulfilled n

attempt_operation-settled_example :
    (k : ℕ) × (k ≤ api_options.max_retries)
    × Ends str_eq id_of flaky 9 "external_api" context api_options 1 k
    × (attempt_operation str_eq id_of 5 flaky 9 "external_api" context api_options 1
          (manager closed)
        ≡ some (
            settled str_eq id_of flaky 9 "external_api" context api_options
              (1 + k)
              (flaky (1 + k))
              (record (manager closed) {
                waits = (manager closed).waits ++ delays api_options 1 k;
              })))
attempt_operation-settled_example =
    attempt_operation-settled str_eq id_of flaky 9 "external_api" context api_options
      (manager closed)

execute_with_retry-admitted_example :
    (k : ℕ) × (k ≤ 4)
    × Ends str_eq id_of flaky 9 "external_api" context api_options 1 k
    × ((m' : RetryManager) × (execute_with_retry str_eq id_of 5 flaky 5 9 "external_api" context
            api_options
            (manager closed)
          ≡ some (m', flaky (1 + k)))
        × (m'.waits ≡ [] ++ delays api_options 1 k)
        × (Dict.get "external_api" m'.circuit_breakers
            ≡ some (finish (ending str_eq id_of 9 (flaky (1 + k))) (breaker closed))))
unfolding admit get_circuit_breaker
execute_with_retry-admitted_example =
    execute_with_retry-admitted str_eq id_of flaky 5 9 "external_api" context api_options
      (manager closed) (breaker closed) refl

abbrev letter : FailedOperation
letter = record {
  id = "f";
  operation = "external_api";
  payload = "{}";
  context = context;
  attempts = 5;
  last_error = "TIMEOUT";
  next_retry_at = 300;
  created_at = 0;
  updated_at = 0;
}

abbrev holding : RetryManager
holding = record (manager closed) { failed_operations = ("f", letter) ∷ [] }
