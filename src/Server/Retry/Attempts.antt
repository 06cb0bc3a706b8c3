-- ===== src/Server/Retry/Attempts.antt =====
-- `attemptOperation` (server/services/error-handler.ts): how often an operation is called, how long it
-- waits, and what is recorded.
use mathlib.Core.List.{append-nil, append_assoc}
use kpm_cursor.Base.{
  ℕ, zero, suc, ◌+◌, ◌*◌, ◌≤◌, ◌<◌, ◌≡◌, ◌⊎◌, ◌∙◌, sym, ap, refl, String, Bool, true, false, ◌&&◌,
  Option, some, List, [], ◌∷◌, ◌++◌, arith, inl, inr, Bool-cases, leb, length, sum_by,
}
use kpm_cursor.Base.Dict
use kpm_cursor.Server.Retry.{
  ErrorContext, RetryOptions, RetryManager, Result, fulfilled, rejected, retry_delay,
  is_retryable_error, add_to_dead_letter_queue, attempt_operation,
}

-- The waits before `k` retries, the first of which follows the call `attempt`.
abbrev pub delays : RetryOptions → ℕ → ℕ → List ℕ
delays o attempt zero = []
delays o attempt (suc k) = retry_delay o attempt ∷ delays o (attempt + 1) k

-- There is a wait for each retry, and the waits together take at most the longest delay for each.
pub delays-bounded :
    (o : RetryOptions) (attempt k : ℕ)
    → (length (delays o attempt k) ≡ k) × (sum_by (λ d. d) (delays o attempt k) ≤ k * o.max_delay)
delays-bounded o attempt zero = (refl, omega arith)
delays-bounded o attempt (suc k) =
    let (count, total) = delays-bounded o (attempt + 1) k in (ap suc count, omega (arith, total))

here : (n : ℕ) → n ≡ n + 0
here n = omega arith

later : (n k : ℕ) → n + 1 + k ≡ n + suc k
later n k = omega arith

Result-cases {ℓ} :
    {A : Type ℓ} (r : Result A)
    → ((a : A) × (r ≡ fulfilled a)) ⊎ ((message : String) × (r ≡ rejected message))
Result-cases (fulfilled a) = inl (a, refl)
Result-cases (rejected message) = inr (message, refl)

module _ (contains : String → String → Bool) (operation_id : String → ErrorContext → String)
    {A : Type 0} (operation : ℕ → Result A) (now : ℕ) (name : String) (context : ErrorContext)
    (o : RetryOptions) where
  -- The call `n`, which gave the result, is retried: it failed with an error that is retried, and
  -- retries are left.
  abbrev pub is_retried : ℕ → Result A → Bool
  is_retried n (fulfilled a) = false
  is_retried n (rejected message) =
      leb n o.max_retries && is_retryable_error contains operation_id message o.retryable_errors

  -- What the last call `n`, which gave the result, leaves: a success clears the operation's dead
  -- letter, a failure writes one.
  abbrev pub settled : ℕ → Result A → RetryManager → RetryManager × Result A
  settled n (fulfilled a) m = (
    record m { failed_operations = Dict.delete (operation_id name context) m.failed_operations },
    fulfilled a,
  )
  settled n (rejected message) m = (
    add_to_dead_letter_queue contains operation_id now name context message n m,
    rejected message,
  )

  abbrev attempt_from : ℕ → ℕ → RetryManager → Option (RetryManager × Result A)
  attempt_from fuel = attempt_operation contains operation_id fuel operation now name context o

  attempt_operation-last :
      (fuel attempt : ℕ) (m : RetryManager)
      → is_retried attempt (operation attempt) ≡ false
      → attempt_from (suc fuel) attempt m ≡ some (settled attempt (operation attempt) m)
  unfolding attempt_operation
  attempt_operation-last fuel attempt m h = elim (Result-cases (operation attempt)) [
    | inl (a, e) ↦ rw (e, attempt_operation) refl
    | inr (message, e) ↦ rw (e, sym (ap (is_retried attempt) e) ∙ h, attempt_operation) refl
  ]

  wait : ℕ → RetryManager → RetryManager
  wait attempt m = record m { waits = m.waits ++ retry_delay o attempt ∷ [] }

  attempt_operation-next :
      (fuel attempt : ℕ) (m : RetryManager)
      → is_retried attempt (operation attempt) ≡ true
      → attempt_from (suc fuel) attempt m ≡ attempt_from fuel (attempt + 1) (wait attempt m)
  unfolding attempt_operation wait
  attempt_operation-next fuel attempt m h = elim (Result-cases (operation attempt)) [
    | inl (a, e) ↦ ground (arith, sym (ap (is_retried attempt) e) ∙ h)
    | inr (message, e) ↦ rw (e, sym (ap (is_retried attempt) e) ∙ h, attempt_operation) refl
  ]

  -- The calls from `attempt` on: `k` are retried, the next is not.
  abbrev pub Ends : ℕ → ℕ → Type 0
  Ends attempt zero = is_retried attempt (operation attempt) ≡ false
  Ends attempt (suc k) = (is_retried attempt (operation attempt) ≡ true) × Ends (attempt + 1) k

  is_retried-late : (n : ℕ) (r : Result A) → o.max_retries < n → is_retried n r ≡ false
  is_retried-late n (fulfilled a) h = refl
  is_retried-late n (rejected message) h = ground (arith, h)

  attempt_operation-at_once :
      (fuel attempt : ℕ) (m : RetryManager)
      → is_retried attempt (operation attempt) ≡ false
      → attempt_from (suc fuel) attempt m
        ≡ some
            (settled (attempt + 0) (operation (attempt + 0)) (record m { waits = m.waits ++ [] }))
  attempt_operation-at_once fuel attempt m last =
      attempt_operation-last fuel attempt m last
      ∙ ap (λ n. some (settled n (operation n) m)) (here attempt)
      ∙ rw (append-nil m.waits) refl

  attempt_operation-from :
      (left fuel attempt : ℕ) (m : RetryManager)
      → o.max_retries < attempt + left
      → left < fuel
      → (k : ℕ) × (k ≤ left)
        × Ends attempt k
        × (attempt_from fuel attempt m
            ≡ some (
                settled
                  (attempt + k)
                  (operation (attempt + k))
                  (record m { waits = m.waits ++ delays o attempt k })))
  unfolding wait
  attempt_operation-from left zero attempt m h f = absurd (omega (arith, f))
  attempt_operation-from zero (suc fuel) attempt m h f =
      let last = is_retried-late attempt (operation attempt) (omega (arith, h)) in
      (0, omega arith, last, attempt_operation-at_once fuel attempt m last)
  attempt_operation-from (suc left) (suc fuel) attempt m h f =
      elim (Bool-cases (is_retried attempt (operation attempt))) [
        | inr last ↦ (0, omega arith, last, attempt_operation-at_once fuel attempt m last)
        | inl again ↦
            let (k, few, ends, eq) =
              attempt_operation-from left fuel (attempt + 1) (wait attempt m) (omega (arith, h))
                (omega (arith, f)) in
            (
              suc k,
              omega (arith, few),
              (again, ends),
              attempt_operation-next fuel attempt m again
                  ∙ eq
                  ∙ rw
                      (append_assoc m.waits (retry_delay o attempt ∷ []) (delays o (attempt + 1) k))
                      (ap
                        (λ n. some (
                          settled n (operation n)
                            (record m { waits = m.waits ++ delays o attempt (suc k) })))
                        (later attempt k)),
            )
      ]

  -- With fuel for each retry and the first call, an operation is called once and then retried at most
  -- `max_retries` times, after each failure whose error is retried while retries are left, with the
  -- delays of the backoff between; the first call that is not retried decides: success gives its value
  -- and clears the dead letter of the operation, failure gives its error and writes the dead letter,
  -- with the number of calls.
  pub attempt_operation-settled :
      (m : RetryManager)
      → (k : ℕ) × (k ≤ o.max_retries)
        × Ends 1 k
        × (attempt_operation contains operation_id
              (suc o.max_retries)
              operation
              now
              name
              context
              o
              1
              m
            ≡ some (
                settled (1 + k) (operation (1 + k)) (record m { waits = m.waits ++ delays o 1 k })))
  attempt_operation-settled m =
      attempt_operation-from o.max_retries (suc o.max_retries) 1 m (omega arith) (omega arith)
