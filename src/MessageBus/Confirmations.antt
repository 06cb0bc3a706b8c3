-- ===== src/MessageBus/Confirmations.antt =====
-- message_bus/src/services/blockchain-confirmation.ts: the transactions of the database and what a poll
-- of the node makes of them. The table is the list of its rows, a select gives its rows in their order,
-- and what the Rust submitter prints is an argument of the poll.
pub mod Polls
pub mod Tests
use kpm_cursor.Base.{
  ℕ, zero, suc, ◌+◌, ◌-◌, String, Bool, true, false, ◌&&◌, ◌||◌, Option, none, some, List, [], ◌∷◌,
  filter, length, ltb, leb, get_or, if◌then◌else◌,
}

abbrev pub max_confirmation_checks : ℕ
max_confirmation_checks = 100

abbrev pub required_confirmations : ℕ
required_confirmations = 1

abbrev pub poll_limit : ℕ
poll_limit = 50

pub data Status : Type 0 where
  submitted waiting confirmed failed : Status

-- A row of `blockchainTransactions`, as far as the service reads or writes it; `waiting` is the status
-- `pending`.
pub record Transaction : Type 0 where
  pub id : ℕ
  pub transaction_hash : String
  pub status : Status
  pub retry_count : ℕ
  pub confirmation_count : ℕ
  pub last_checked_at : Option ℕ
  pub confirmed_at : Option ℕ
  pub block_height : Option ℕ
  pub block_hash : Option String
  pub error_message : Option String

pub record TransactionStatus : Type 0 where
  pub transaction_hash : String
  pub block_height : Option ℕ
  pub block_hash : Option String
  pub confirmation_count : ℕ
  pub is_confirmed : Bool
  pub is_rejected : Bool

-- What the regular expressions and `includes` find in one line of output.
pub record Reading : Type 0 where
  pub height : Option ℕ
  pub hash : Option String
  pub confirmations : Option ℕ
  pub says_confirmed : Bool
  pub says_rejected : Bool

abbrev or_else {ℓ} : {A : Type ℓ} → Option A → Option A → Option A
or_else none d = d
or_else (some a) d = some a

-- The loop over the lines, from what was found before.
pub read_lines : List Reading → TransactionStatus → TransactionStatus
read_lines [] s = s
read_lines (r ∷ rs) s =
    let count = get_or r.confirmations s.confirmation_count in
    read_lines rs (record {
      transaction_hash = s.transaction_hash;
      block_height = or_else r.height s.block_height;
      block_hash = or_else r.hash s.block_hash;
      confirmation_count = count;
      is_confirmed = r.says_confirmed || leb required_confirmations count || s.is_confirmed;
      is_rejected = r.says_rejected || s.is_rejected;
    })

pub parse_rust_transaction_output : String → List Reading → TransactionStatus
unfolding read_lines
parse_rust_transaction_output hash lines = read_lines lines (record {
  transaction_hash = hash;
  block_height = none;
  block_hash = none;
  confirmation_count = 0;
  is_confirmed = false;
  is_rejected = false;
})

-- What a query of the node gives: the lines of its output, or the message of an error.
pub data Query : Type 0 where
  printed : List Reading → Query
  broken : String → Query

-- A height or a hash that was not found leaves its column as it was.
pub update_transaction_status : ℕ → Transaction → TransactionStatus → Transaction
update_transaction_status now t s =
    let checked = record t {
      last_checked_at = some now;
      confirmation_count = s.confirmation_count;
      retry_count = t.retry_count + 1;
    } in
    if s.is_confirmed
    then record checked {
      status = confirmed;
      confirmed_at = some now;
      block_height = or_else s.block_height t.block_height;
      block_hash = or_else s.block_hash t.block_hash;
    }
    else if s.is_rejected
    then record checked { status = failed; error_message = some "Transaction rejected by network" }
    else record checked { status = waiting }

-- `checkSingleTransaction`, with the `catch` branch of the poll.
pub check_single_transaction : ℕ → Query → Transaction → Transaction
unfolding update_transaction_status parse_rust_transaction_output
check_single_transaction now (printed lines) t =
    update_transaction_status now t (parse_rust_transaction_output t.transaction_hash lines)
check_single_transaction now (broken message) t = record t {
  retry_count = t.retry_count + 1;
  last_checked_at = some now;
  error_message = some message;
}

abbrev pub is_open : Status → Bool
is_open submitted = true
is_open waiting = true
is_open _ = false

-- The `where` of the select.
abbrev pub wants_check : Transaction → Bool
wants_check t = is_open t.status && ltb t.retry_count max_confirmation_checks

-- The first `limit` rows that want a check are checked.
pub check_rows : ℕ → ℕ → (String → Query) → List Transaction → List Transaction
check_rows limit now query [] = []
check_rows zero now query (t ∷ ts) = t ∷ ts
check_rows (suc limit) now query (t ∷ ts) = elim (wants_check t) [
  | true ↦ check_single_transaction now (query t.transaction_hash) t ∷ check_rows limit now query ts
  | false ↦ t ∷ check_rows (suc limit) now query ts
]

pub check_pending_transactions : ℕ → (String → Query) → List Transaction → List Transaction
unfolding check_rows
check_pending_transactions = check_rows poll_limit

pub record Stats : Type 0 where
  pub total : ℕ
  pub confirmed_count : ℕ
  pub pending_count : ℕ
  pub failed_count : ℕ

abbrev is_confirmed : Status → Bool
is_confirmed confirmed = true
is_confirmed _ = false

abbrev is_failed : Status → Bool
is_failed failed = true
is_failed _ = false

-- `getConfirmationStats`, without the rate, which is floating-point arithmetic.
pub get_confirmation_stats : List Transaction → Stats
get_confirmation_stats ts = record {
  total = length ts;
  confirmed_count = length (filter (λ t. is_confirmed t.status) ts);
  pending_count = length (filter (λ t. is_open t.status) ts);
  failed_count = length (filter (λ t. is_failed t.status) ts);
}
