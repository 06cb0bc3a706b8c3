-- ===== src/Server/Breaker/Recovery.antt =====
-- `CircuitBreaker.execute` (server/services/error-handler.ts): refusals, and the way back to closed.
use kpm_cursor.Base.{ℕ, ◌+◌, ◌≤◌, ◌<◌, ◌≡◌, ◌↔◌, arith, [], ◌∷◌, none}
use kpm_cursor.Server.Breaker.{
  closed, opened, half_open, CircuitBreaker, admit, on_success, on_failure, success, failure,
  finish, finish_all, ask, step,
}

-- An open breaker refuses calls exactly while its reset timeout since the last failure is not over.
pub admit-none_iff :
    (now : ℕ) (b : CircuitBreaker)
    → (admit now b ≡ none)
      ↔ ((b.state ≡ opened) × (now ≤ b.last_failure_time + b.options.reset_timeout))
unfolding admit
admit-none_iff now b = ground arith

-- A call after the reset timeout makes an open breaker half open; three successes in a row then close
-- it with no failure counted, and a failure opens it again.
pub recovery :
    (now later : ℕ) (b : CircuitBreaker)
    → b.state ≡ opened
    → b.last_failure_time + b.options.reset_timeout < now
    → let half = step (ask now) b in
      let well = finish_all (success ∷ success ∷ success ∷ []) half in
      (half.state ≡ half_open)
      × (well.state ≡ closed)
      × (well.failures ≡ 0)
      × ((finish (failure later) half).state ≡ opened)
      × (admit later (finish (failure later) half) ≡ none)
unfolding step admit finish on_success on_failure finish_all
recovery now later b h over = ground arith
