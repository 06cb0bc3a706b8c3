-- ===== src/MessageBus/Confirmations/Tests.antt =====
-- Concrete transactions (message_bus/src/services/blockchain-confirmation.ts): the theorems at inputs
-- that the service meets.
use kpm_cursor.Base.{
  ℕ, ◌+◌, ◌≤◌, min, ◌≡◌, String, false, none, some, List, [], ◌∷◌, any, filter, length, sum_by,
}
use kpm_cursor.MessageBus.Confirmations.{
  poll_limit, Status, submitted, confirmed, Transaction, Reading, parse_rust_transaction_output,
  Query, printed, wants_check, check_pending_transactions,
}
use kpm_cursor.MessageBus.Confirmations.Polls.{
  checks_left, check_pending_transactions-left, confirms, parse_rust_transaction_output-any,
}

abbrev row : ℕ → Status → Transaction
row id status = record {
  id = id;
  transaction_hash = "t";
  status = status;
  retry_count = 2;
  confirmation_count = 0;
  last_checked_at = none;
  confirmed_at = none;
  block_height = none;
  block_hash = none;
  error_message = none;
}

abbrev rows : List Transaction
rows = row 1 submitted ∷ row 2 confirmed ∷ []

abbrev lines : List Reading
lines =
    record {
      height = some 7;
      hash = none;
      confirmations = none;
      says_confirmed = false;
      says_rejected = false;
    }
    ∷ record {
      height = none;
      hash = none;
      confirmations = some 2;
      says_confirmed = false;
      says_rejected = false;
    }
    ∷ []

abbrev answer : String → Query
answer hash = printed lines

check_pending_transactions-left_example :
    sum_by checks_left (check_pending_transactions 9 answer rows)
      + min poll_limit (length (filter wants_check rows))
    ≤ sum_by checks_left rows
check_pending_transactions-left_example = check_pending_transactions-left 9 answer rows

parse_rust_transaction_output-any_example :
    ((parse_rust_transaction_output "t" lines).is_confirmed ≡ any confirms lines)
    × ((parse_rust_transaction_output "t" lines).is_rejected ≡ any (λ r. r.says_rejected) lines)
parse_rust_transaction_output-any_example = parse_rust_transaction_output-any "t" lines
