-- ===== src/Server/Breaker.antt =====
-- The class `CircuitBreaker` of server/services/error-handler.ts. Calls overlap: `execute` is split at
-- its `await` into `admit`, before the operation, and `on_success` or `on_failure`, after it.
pub mod Streaks
pub mod Recovery
use kpm_cursor.Base.{
  ℕ, ◌+◌, ◌-◌, Bool, true, false, Option, none, some, List, [], ◌∷◌, ltb, leb, if◌then◌else◌,
}

pub data State : Type 0 where
  closed opened half_open : State

pub record CircuitBreakerOptions : Type 0 where
  pub failure_threshold : ℕ
  pub reset_timeout : ℕ
  pub monitoring_window : ℕ

pub record CircuitBreaker : Type 0 where
  pub options : CircuitBreakerOptions
  pub state : State
  pub failures : ℕ
  pub last_failure_time : ℕ
  pub success_count : ℕ

pub new_breaker : CircuitBreakerOptions → ℕ → CircuitBreaker
new_breaker options now = record {
  options = options;
  state = closed;
  failures = 0;
  last_failure_time = now;
  success_count = 0;
}

-- The guard of `execute`; `none` is the error that the breaker is open.
unfoldable pub admit : ℕ → CircuitBreaker → Option CircuitBreaker
admit now b = elim b.state [
  | opened ↦
      if ltb b.options.reset_timeout (now - b.last_failure_time)
      then some (record b { state = half_open; success_count = 0 })
      else none
  | _ ↦ some b
]

pub on_success : CircuitBreaker → CircuitBreaker
on_success b =
    let reset : CircuitBreaker = record b { failures = 0 } in
    elim b.state [
      | half_open ↦
          let counted : CircuitBreaker = record reset { success_count = b.success_count + 1 } in
          if leb 3 counted.success_count then record counted { state = closed } else counted
      | _ ↦ reset
    ]

pub on_failure : ℕ → CircuitBreaker → CircuitBreaker
on_failure now b =
    let counted : CircuitBreaker = record b {
      failures = b.failures + 1;
      last_failure_time = now;
    } in
    elim b.state [
      | half_open ↦ record counted { state = opened }
      | _ ↦
          if leb b.options.failure_threshold counted.failures
          then record counted { state = opened }
          else counted
    ]

-- How an operation ended, and when.
pub data Ending : Type 0 where
  success : Ending
  failure : ℕ → Ending

pub finish : Ending → CircuitBreaker → CircuitBreaker
unfolding on_success on_failure
finish success b = on_success b
finish (failure now) b = on_failure now b

-- The operations that were admitted end one after the other.
pub finish_all : List Ending → CircuitBreaker → CircuitBreaker
unfolding finish
finish_all [] b = b
finish_all (e ∷ es) b = finish_all es (finish e b)

-- What happens to a breaker: a call asks, or one that was admitted ends.
pub data Event : Type 0 where
  ask : ℕ → Event
  end_of : Ending → Event

pub step : Event → CircuitBreaker → CircuitBreaker
unfolding admit finish
step (ask now) b = elim (admit now b) [ none ↦ b | some b' ↦ b' ]
step (end_of e) b = finish e b

pub run : List Event → CircuitBreaker → CircuitBreaker
unfolding step
run [] b = b
run (e ∷ es) b = run es (step e b)
