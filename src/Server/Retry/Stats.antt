-- ===== src/Server/Retry/Stats.antt =====
-- `getFailedOperationsStats` (server/services/error-handler.ts).
use kpm_cursor.Base.{
  ℕ, ◌+◌, ◌≡◌, String, List, [], ◌∷◌, map, arith, length, get_or, sum_by, length-map,
}
use kpm_cursor.Base.Dict
use kpm_cursor.Base.Dict.{Dict}
use kpm_cursor.Server.Breaker.{State}
use kpm_cursor.Server.Retry.{
  ErrorType, blockchain_transaction, database_operation, external_api, validation, authentication,
  rate_limit, timeout, network, ErrorSeverity, low, medium, high, critical, FailedOperation,
  RetryManager,
}

abbrev pub type_text : ErrorType → String
type_text blockchain_transaction = "blockchain_transaction"
type_text database_operation = "database_operation"
type_text external_api = "external_api"
type_text validation = "validation"
type_text authentication = "authentication"
type_text rate_limit = "rate_limit"
type_text timeout = "timeout"
type_text network = "network"

abbrev pub severity_text : ErrorSeverity → String
severity_text low = "low"
severity_text medium = "medium"
severity_text high = "high"
severity_text critical = "critical"

-- `counts[key] = (counts[key] || 0) + 1`
pub tally : String → Dict ℕ → Dict ℕ
tally key counts = Dict.set key (get_or (Dict.get key counts) 0 + 1) counts

pub tally_all : (FailedOperation → String) → List FailedOperation → Dict ℕ → Dict ℕ
unfolding tally
tally_all key [] counts = counts
tally_all key (f ∷ fs) counts = tally_all key fs (tally (key f) counts)

pub record Stats : Type 0 where
  pub total_failed : ℕ
  pub by_type : Dict ℕ
  pub by_severity : Dict ℕ
  pub circuit_breaker_states : Dict State

pub get_failed_operations_stats : RetryManager → Stats
unfolding tally_all
get_failed_operations_stats m =
    let fs = Dict.values m.failed_operations in
    record {
      total_failed = length m.failed_operations;
      by_type = tally_all (λ f. type_text f.context.kind) fs [];
      by_severity = tally_all (λ f. severity_text f.context.severity) fs [];
      circuit_breaker_states = map (λ e. (e.0, e.1.state)) m.circuit_breakers;
    }

abbrev pub total : Dict ℕ → ℕ
total = sum_by (λ e. e.1)

tally-total : (key : String) (counts : Dict ℕ) → total (tally key counts) ≡ 1 + total counts
unfolding tally
tally-total key [] = omega arith
tally-total key ((k, n) ∷ counts) = ground (arith, tally-total key counts)

tally_all-total :
    (key : FailedOperation → String) (fs : List FailedOperation) (counts : Dict ℕ)
    → total (tally_all key fs counts) ≡ length fs + total counts
unfolding tally_all
tally_all-total key [] counts = omega arith
tally_all-total key (f ∷ fs) counts =
    omega (arith, tally_all-total key fs (tally (key f) counts), tally-total (key f) counts)

-- The counts by type, and those by severity, add up to the number of dead letters.
pub stats-total :
    (m : RetryManager)
    → let stats = get_failed_operations_stats m in
      (total stats.by_type ≡ stats.total_failed) × (total stats.by_severity ≡ stats.total_failed)
unfolding get_failed_operations_stats
stats-total m =
    let fs = Dict.values m.failed_operations in
    let count = length-map (λ (e : String × FailedOperation). e.1) m.failed_operations in
    (
      omega (arith, count, tally_all-total (λ f. type_text f.context.kind) fs []),
      omega (arith, count, tally_all-total (λ f. severity_text f.context.severity) fs []),
    )
