-- ===== src/Server/Monitoring/Score.antt =====
-- The score of the system's health (server/services/monitoring.ts).
use kpm_cursor.Base.{
  ℕ, ◌+◌, ◌*◌, ◌≤◌, String, ◌≡◌, List, [], ◌∷◌, arith, ltb, length, filter, sum_by,
}
use kpm_cursor.Server.Monitoring.{
  Metric, Metrics, Memory, get_metrics, health_score, last_minutes, memory_part, response_part,
  error_part,
}

-- How many of the limits the quotient of `a` and `b` exceeds.
abbrev pub exceeded : ℕ → ℕ → List ℕ → ℕ
exceeded a b limits = length (filter (λ limit. ltb (limit * b) a) limits)

memory_part-exceeded :
    (memory : Memory)
    → memory_part memory ≡ 15 * exceeded (memory.heap_used * 100) memory.heap_total (65 ∷ 80 ∷ [])
memory_part-exceeded memory = ground arith

response_part-exceeded :
    (responses : List Metric)
    → response_part responses
      ≡ 10 * exceeded (sum_by (λ m. m.value) responses) (length responses) (500 ∷ [])
        + 15 * exceeded (sum_by (λ m. m.value) responses) (length responses) (1000 ∷ [])
response_part-exceeded [] = ground arith
response_part-exceeded (m ∷ responses) = ground arith

error_part-exceeded : (errors : ℕ) → error_part errors ≡ 10 * exceeded errors 1 (2 ∷ 5 ∷ [])
error_part-exceeded errors = ground arith

parts-le :
    (memory : Memory) (responses : List Metric) (errors : ℕ)
    → (memory_part memory ≤ 30) × (response_part responses ≤ 25) × (error_part errors ≤ 20)
parts-le memory responses errors = (ground arith, ground arith, ground arith)

-- The score and what the last five minutes cost add up to 100: 15 for each of 65 and 80 percent that
-- the used share of the heap exceeds, 10 for an average response time above 500 and 15 more above 1000
-- milliseconds, 10 for each of 2 and 5 that the number of errors exceeds, where the last hundred
-- metrics of a kind count. So it never falls below 25.
pub health_score-exceeded :
    (now : ℕ) (memory : Memory) (metrics : Metrics)
    → let recent = λ (kind : String).
      filter (λ m. ltb now (m.timestamp + 300000)) (get_metrics kind 100 metrics) in
      let total = sum_by (λ m. m.value) (recent "response_time") in
      let count = length (recent "response_time") in
      (health_score now memory metrics
          + 15 * exceeded (memory.heap_used * 100) memory.heap_total (65 ∷ 80 ∷ [])
          + (10 * exceeded total count (500 ∷ []) + 15 * exceeded total count (1000 ∷ []))
          + 10 * exceeded (length (recent "error_count")) 1 (2 ∷ 5 ∷ [])
        ≡ 100)
      × (25 ≤ health_score now memory metrics)
unfolding health_score get_metrics
health_score-exceeded now memory metrics =
    let responses = last_minutes now "response_time" metrics in
    let errors = length (last_minutes now "error_count" metrics) in
    let (hm, hr, he) = parts-le memory responses errors in
    rw
      (
        ← memory_part-exceeded memory,
        ← response_part-exceeded responses,
        ← error_part-exceeded errors,
      )
      (omega (arith, hm, hr, he), omega (arith, hm, hr, he))
