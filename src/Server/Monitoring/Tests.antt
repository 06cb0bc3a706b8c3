-- ===== src/Server/Monitoring/Tests.antt =====
-- Concrete metrics (server/services/monitoring.ts): the theorems at inputs that meet their hypotheses.
use kpm_cursor.Base.{
  ℕ, ◌+◌, ◌*◌, ◌≤◌, String, ◌≡◌, refl, some, [], ◌∷◌, ltb, length, filter, sum_by,
}
use kpm_cursor.Base.Dict.{get}
use kpm_cursor.Server.Monitoring.{
  Metric, Metrics, Memory, get_metrics, health_score, record_health_score,
}
use kpm_cursor.Server.Monitoring.Score.{exceeded, health_score-exceeded}

abbrev metric : ℕ → Metric
metric value = record { value = value; timestamp = 1000; metadata = "{}" }

abbrev metrics : Metrics
metrics =
    ("response_time", metric 400 ∷ metric 1100 ∷ [])
    ∷ ("error_count", metric 1 ∷ metric 1 ∷ metric 1 ∷ [])
    ∷ []

-- 80.4 percent are used.
abbrev memory : Memory
memory = record { heap_used = 804; heap_total = 1000 }

-- An average of 750 milliseconds, three errors.
score_now : health_score 2000 memory metrics ≡ 50
unfolding health_score
score_now = refl

score_recorded :
    get "system_health_score" (record_health_score 2000 memory metrics)
    ≡ some (record { value = 50; timestamp = 2000; metadata = "{}" } ∷ [])
unfolding record_health_score
score_recorded = refl

health_score-exceeded_example :
    let recent = λ (kind : String).
      filter (λ m. ltb 2000 (m.timestamp + 300000)) (get_metrics kind 100 metrics) in
    let total = sum_by (λ m. m.value) (recent "response_time") in
    let count = length (recent "response_time") in
    (health_score 2000 memory metrics
        + 15 * exceeded 80400 1000 (65 ∷ 80 ∷ [])
        + (10 * exceeded total count (500 ∷ []) + 15 * exceeded total count (1000 ∷ []))
        + 10 * exceeded (length (recent "error_count")) 1 (2 ∷ 5 ∷ [])
      ≡ 100)
    × (25 ≤ health_score 2000 memory metrics)
health_score-exceeded_example = health_score-exceeded 2000 memory metrics
