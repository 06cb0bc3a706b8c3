-- ===== src/Server/Monitoring.antt =====
-- The class `MonitoringService` of server/services/monitoring.ts: the metrics in memory, the status of
-- the system and its score. Values are natural numbers, and a quotient is compared by multiplying out.
pub mod Window
pub mod Score
mod Tests
use Prim.Native.String.{String}
use kpm_cursor.Base.{
  ℕ, zero, suc, ◌+◌, ◌-◌, ◌*◌, String, Bool, false, ◌||◌, List, [], ◌∷◌, ◌++◌, map, ltb, leb, ◌==◌,
  if◌then◌else◌, get_or, length, drop, filter, sum_by,
}
use kpm_cursor.Base.Dict.{Dict, get, set, map_values}

pub record Metric : Type 0 where
  pub value : ℕ
  pub timestamp : ℕ
  pub metadata : String

abbrev pub Metrics : Type 0
Metrics = Dict (List Metric)

abbrev pub metrics_limit : ℕ
metrics_limit = 1000

-- `metrics.push(m)` and, when there are more than a thousand, `metrics.shift()`
abbrev pub pushed {ℓ} : {A : Type ℓ} → List A → A → List A
pushed xs x =
    if ltb metrics_limit (length (xs ++ x ∷ [])) then drop 1 (xs ++ x ∷ []) else xs ++ x ∷ []

-- `metrics.get(type) || []`
abbrev pub metrics_of : String → Metrics → List Metric
metrics_of kind metrics = get_or (get kind metrics) []

unfoldable pub record_metric : String → Metric → Metrics → Metrics
record_metric kind m metrics = set kind (pushed (metrics_of kind metrics) m) metrics

-- `xs.slice(-n)`; `-0` is 0, so all of them are taken for 0.
abbrev pub slice_last {ℓ} : {A : Type ℓ} → ℕ → List A → List A
slice_last zero xs = xs
slice_last (suc n) xs = drop (length xs - suc n) xs

unfoldable pub get_metrics : String → ℕ → Metrics → List Metric
get_metrics kind limit metrics = slice_last limit (metrics_of kind metrics)

unfoldable pub get_metric_types : Metrics → List String
get_metric_types metrics = map (λ e. e.0) metrics

-- The cutoff is below 0 where `older_than` exceeds the time, and keeps everything then.
unfoldable pub clear_old_metrics : ℕ → ℕ → Metrics → Metrics
clear_old_metrics now older_than metrics =
    map_values (filter (λ m. leb now (m.timestamp + older_than))) metrics

pub data HealthStatus : Type 0 where
  healthy degraded unhealthy : HealthStatus

pub record Memory : Type 0 where
  pub heap_used : ℕ
  pub heap_total : ℕ

abbrev pub is_recent : ℕ → Metric → Bool
is_recent now m = ltb now (m.timestamp + 3600000)

-- `errorRate > percent`, which is 0 where nothing responded
abbrev pub error_rate_above : ℕ → List Metric → List Metric → Bool
error_rate_above percent errors responses =
    if length responses == 0 then false else ltb (percent * length responses) (length errors * 100)

-- `avgResponseTime > limit`
abbrev pub response_time_above : ℕ → List Metric → Bool
response_time_above limit responses =
    if length responses == 0
    then false
    else ltb (limit * length responses) (sum_by (λ m. m.value) responses)

-- `heapUsed / heapTotal > tenths / 10`
abbrev pub heap_above : ℕ → Memory → Bool
heap_above tenths memory = ltb (tenths * memory.heap_total) (memory.heap_used * 10)

abbrev pub status_of : List Metric → List Metric → Memory → HealthStatus
status_of errors responses memory =
    if error_rate_above 10 errors responses
      || (response_time_above 2000 responses || heap_above 9 memory)
    then unhealthy
    else if error_rate_above 5 errors responses
        || (response_time_above 1000 responses || heap_above 8 memory)
    then degraded
    else healthy

unfoldable pub get_system_health : ℕ → Memory → Metrics → HealthStatus
get_system_health now memory metrics =
    status_of (filter (is_recent now) (metrics_of "error_count" metrics))
      (filter (is_recent now) (metrics_of "response_time" metrics)) memory

-- `memoryPercentage > percent`
abbrev pub memory_above : ℕ → Memory → Bool
memory_above percent memory = ltb (percent * memory.heap_total) (memory.heap_used * 100)

-- `getMetrics(kind)`, with its default limit, of the last five minutes
abbrev pub last_minutes : ℕ → String → Metrics → List Metric
last_minutes now kind metrics =
    filter (λ m. ltb now (m.timestamp + 300000)) (slice_last 100 (metrics_of kind metrics))

-- What each of the three tests takes from the score.
abbrev pub memory_part : Memory → ℕ
memory_part memory = if memory_above 80 memory then 30 else if memory_above 65 memory then 15 else 0

abbrev pub response_part : List Metric → ℕ
response_part responses =
    if response_time_above 1000 responses
    then 25
    else if response_time_above 500 responses
    then 10
    else 0

abbrev pub error_part : ℕ → ℕ
error_part error_rate = if ltb 5 error_rate then 20 else if ltb 2 error_rate then 10 else 0

-- The score that the timer of `startMonitoring` records. The metrics that it records before do not
-- reach the two kinds that it reads.
unfoldable pub health_score : ℕ → Memory → Metrics → ℕ
health_score now memory metrics =
    100
    - memory_part memory
    - response_part (last_minutes now "response_time" metrics)
    - error_part (length (last_minutes now "error_count" metrics))

unfoldable pub record_health_score : ℕ → Memory → Metrics → Metrics
unfolding health_score record_metric
record_health_score now memory metrics =
    record_metric "system_health_score"
      (record { value = health_score now memory metrics; timestamp = now; metadata = "{}" }) metrics
