-- ===== src/MessageBus/Confirmations/Polls.antt =====
-- Polls of the node (message_bus/src/services/blockchain-confirmation.ts).
use kpm_cursor.Base.{
  ℕ, zero, suc, ◌+◌, ◌-◌, ◌≤◌, ◌<◌, min, ◌≡◌, ◌∙◌, inl, inr, refl, String, Bool, true, false, ◌||◌,
  none, List, [], ◌∷◌, ap, map, any, filter, length, leb, get_or, sum_by, arith, if◌then◌else◌,
  Bool-cases,
}
use kpm_cursor.MessageBus.Confirmations.{
  max_confirmation_checks, required_confirmations, poll_limit, Transaction, TransactionStatus,
  Reading, read_lines, parse_rust_transaction_output, Query, or_else, printed, broken,
  update_transaction_status, check_single_transaction, is_open, wants_check, check_rows,
  check_pending_transactions, get_confirmation_stats,
}

-- The checks that are left for a transaction.
abbrev pub checks_left : Transaction → ℕ
checks_left t = if is_open t.status then max_confirmation_checks - t.retry_count else 0

check_single-left :
    (now : ℕ) (q : Query) (t : Transaction)
    → wants_check t ≡ true
    → checks_left (check_single_transaction now q t) < checks_left t
unfolding check_single_transaction update_transaction_status
check_single-left now (printed lines) t h = ground (arith, h)
check_single-left now (broken message) t h = ground (arith, h)

check_rows-left :
    (limit now : ℕ) (query : String → Query) (ts : List Transaction)
    → sum_by checks_left (check_rows limit now query ts)
        + min limit (length (filter wants_check ts))
      ≤ sum_by checks_left ts
unfolding check_rows
check_rows-left limit now query [] = omega arith
check_rows-left zero now query (t ∷ ts) = omega arith
check_rows-left (suc limit) now query (t ∷ ts) = elim (Bool-cases (wants_check t)) [
  | inl e ↦
      rw (e, check_rows)
        (omega (
          arith,
          check_single-left now (query t.transaction_hash) t e,
          check_rows-left limit now query ts,
        ))
  | inr e ↦ rw (e, check_rows) (omega (arith, check_rows-left (suc limit) now query ts))
]

-- Whatever the node answers, a poll uses up at least one of the checks that are left for each of the
-- transactions that want one, up to fifty.
pub check_pending_transactions-left :
    (now : ℕ) (query : String → Query) (ts : List Transaction)
    → sum_by checks_left (check_pending_transactions now query ts)
        + min poll_limit (length (filter wants_check ts))
      ≤ sum_by checks_left ts
unfolding check_pending_transactions
check_pending_transactions-left now query ts = check_rows-left poll_limit now query ts

-- A row before and after a poll: the same transaction, and the same row if its status was final or its
-- checks were used up.
pub record Follows (t u : Transaction) : Type 0 where
  pub same_id : u.id ≡ t.id
  pub same_row : wants_check t ≡ false → u ≡ t

abbrev pub AllFollow : List Transaction → List Transaction → Type 0
AllFollow [] [] = Unit
AllFollow (t ∷ ts) (u ∷ us) = Follows t u × AllFollow ts us
AllFollow [] (u ∷ us) = ⊥
AllFollow (t ∷ ts) [] = ⊥

AllFollow-same : (ts : List Transaction) → AllFollow ts ts
AllFollow-same [] = tt
AllFollow-same (t ∷ ts) = (record { same_id = refl; same_row = λ h. refl }, AllFollow-same ts)

check_single-id :
    (now : ℕ) (q : Query) (t : Transaction) → (check_single_transaction now q t).id ≡ t.id
unfolding check_single_transaction update_transaction_status
check_single-id now (printed lines) t = ground arith
check_single-id now (broken message) t = refl

check_rows-AllFollow :
    (limit now : ℕ) (query : String → Query) (ts : List Transaction)
    → AllFollow ts (check_rows limit now query ts)
unfolding check_rows
check_rows-AllFollow limit now query [] = tt
check_rows-AllFollow zero now query (t ∷ ts) = AllFollow-same (t ∷ ts)
check_rows-AllFollow (suc limit) now query (t ∷ ts) = elim (Bool-cases (wants_check t)) [
  | inl e ↦
      rw (e, check_rows)
        (
          record {
            same_id = check_single-id now (query t.transaction_hash) t;
            same_row = λ h. ground (arith, e, h);
          },
          check_rows-AllFollow limit now query ts,
        )
  | inr e ↦
      rw (e, check_rows)
        (
          record { same_id = refl; same_row = λ h. refl },
          check_rows-AllFollow (suc limit) now query ts,
        )
]

-- A poll keeps the transactions and their order, and does not touch a row that is confirmed, failed, or
-- was checked a hundred times.
pub check_pending_transactions-AllFollow :
    (now : ℕ) (query : String → Query) (ts : List Transaction)
    → AllFollow ts (check_pending_transactions now query ts)
unfolding check_pending_transactions
check_pending_transactions-AllFollow now query ts = check_rows-AllFollow poll_limit now query ts

check_rows-broken :
    (limit now : ℕ) (message : String) (ts : List Transaction)
    → map (λ t. t.status) (check_rows limit now (λ hash. broken message) ts)
      ≡ map (λ t. t.status) ts
unfolding check_rows check_single_transaction
check_rows-broken limit now message [] = refl
check_rows-broken zero now message (t ∷ ts) = refl
check_rows-broken (suc limit) now message (t ∷ ts) = elim (Bool-cases (wants_check t)) [
  | inl e ↦ rw (e, check_rows) (ap (◌∷◌ t.status) (check_rows-broken limit now message ts))
  | inr e ↦ rw (e, check_rows) (ap (◌∷◌ t.status) (check_rows-broken (suc limit) now message ts))
]

-- A poll in which every query fails changes no status.
pub check_pending_transactions-broken :
    (now : ℕ) (message : String) (ts : List Transaction)
    → map (λ t. t.status) (check_pending_transactions now (λ hash. broken message) ts)
      ≡ map (λ t. t.status) ts
unfolding check_pending_transactions
check_pending_transactions-broken now message ts = check_rows-broken poll_limit now message ts

-- The line says so, or reads enough confirmations.
abbrev pub confirms : Reading → Bool
confirms r = r.says_confirmed || leb required_confirmations (get_or r.confirmations 0)

read_lines-confirmed :
    (rs : List Reading) (s : TransactionStatus)
    → (leb required_confirmations s.confirmation_count ≡ true → s.is_confirmed ≡ true)
    → (read_lines rs s).is_confirmed ≡ (s.is_confirmed || any confirms rs)
unfolding read_lines
read_lines-confirmed [] s h = ground arith
read_lines-confirmed (r ∷ rs) s h =
    let count = get_or r.confirmations s.confirmation_count in
    let next : TransactionStatus = record {
      transaction_hash = s.transaction_hash;
      block_height = or_else r.height s.block_height;
      block_hash = or_else r.hash s.block_hash;
      confirmation_count = count;
      is_confirmed = r.says_confirmed || leb required_confirmations count || s.is_confirmed;
      is_rejected = r.says_rejected || s.is_rejected;
    } in
    read_lines-confirmed rs next (λ e. ground (arith, e)) ∙ ground (arith, h)

read_lines-rejected :
    (rs : List Reading) (s : TransactionStatus)
    → (read_lines rs s).is_rejected ≡ (s.is_rejected || any (λ r. r.says_rejected) rs)
unfolding read_lines
read_lines-rejected [] s = ground arith
read_lines-rejected (r ∷ rs) s = read_lines-rejected rs _ ∙ ground arith

-- A transaction counts as confirmed exactly when some line of the output says so or reads at least one
-- confirmation, and as rejected when some line says so.
pub parse_rust_transaction_output-any :
    (hash : String) (rs : List Reading)
    → ((parse_rust_transaction_output hash rs).is_confirmed ≡ any confirms rs)
      × ((parse_rust_transaction_output hash rs).is_rejected ≡ any (λ r. r.says_rejected) rs)
unfolding parse_rust_transaction_output
parse_rust_transaction_output-any hash rs =
    let start : TransactionStatus = record {
      transaction_hash = hash;
      block_height = none;
      block_hash = none;
      confirmation_count = 0;
      is_confirmed = false;
      is_rejected = false;
    } in
    (read_lines-confirmed rs start (λ e. ground (arith, e)), read_lines-rejected rs start)

-- Every transaction is counted once: as confirmed, as pending or as failed.
pub get_confirmation_stats-total :
    (ts : List Transaction)
    → let stats = get_confirmation_stats ts in
      stats.confirmed_count + stats.pending_count + stats.failed_count ≡ stats.total
unfolding get_confirmation_stats
get_confirmation_stats-total [] = refl
get_confirmation_stats-total (t ∷ ts) = ground (arith, get_confirmation_stats-total ts)
