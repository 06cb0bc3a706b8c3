-- ===== src/Server/Breaker/Streaks.antt =====
-- `CircuitBreaker` (server/services/error-handler.ts): failures in a row, and when it opens.
use kpm_cursor.Base.{
  ℕ, ◌+◌, ◌≤◌, ◌<◌, ◌≡◌, ◌∙◌, inl, inr, refl, ap, max, List, [], ◌∷◌, arith, leb, Bool-cases,
  if◌then◌else◌,
}
use kpm_cursor.Server.Breaker.{
  closed, opened, half_open, CircuitBreakerOptions, CircuitBreaker, admit, on_success, on_failure,
  Ending, success, failure, finish, finish_all, Event, ask, end_of, step, run,
}

-- The longest run of failures, of which `n` came before the list.
abbrev pub longest_streak : ℕ → List Ending → ℕ
longest_streak n [] = n
longest_streak n (success ∷ es) = max n (longest_streak 0 es)
longest_streak n (failure t ∷ es) = longest_streak (n + 1) es

-- A closed breaker has seen fewer failures in a row than its threshold, and one that is half open
-- fewer than three successes.
abbrev pub IsConsistent : CircuitBreaker → Type 0
IsConsistent b = elim b.state [
  | closed ↦ b.failures < b.options.failure_threshold
  | opened ↦ Unit
  | half_open ↦ b.success_count < 3
]

step-IsConsistent :
    (e : Event) (b : CircuitBreaker)
    → 0 < b.options.failure_threshold
    → IsConsistent b
    → IsConsistent (step e b) × ((step e b).options ≡ b.options)
unfolding step admit finish on_success on_failure
step-IsConsistent (ask now) b h c = ground arith
step-IsConsistent (end_of success) b h c = ground arith
step-IsConsistent (end_of (failure now)) b h c = ground arith

-- However calls and endings interleave, a breaker with a positive threshold stays consistent, if it
-- was: while it is closed fewer failures than the threshold followed each other, and while it is half
-- open fewer than three calls succeeded.
pub run-IsConsistent :
    (es : List Event) (b : CircuitBreaker)
    → 0 < b.options.failure_threshold
    → IsConsistent b
    → IsConsistent (run es b)
unfolding run
run-IsConsistent [] b h c = c
run-IsConsistent (e ∷ es) b h c =
    let (c', same) = step-IsConsistent e b h c in
    run-IsConsistent es (step e b)
      (omega (arith, h, ap (λ (o : CircuitBreakerOptions). o.failure_threshold) same)) c'

finish-opened : (e : Ending) (b : CircuitBreaker) → b.state ≡ opened → (finish e b).state ≡ opened
unfolding finish on_success on_failure
finish-opened success b h = ground arith
finish-opened (failure now) b h = ground arith

finish_all-opened :
    (es : List Ending) (b : CircuitBreaker) → b.state ≡ opened → (finish_all es b).state ≡ opened
unfolding finish_all
finish_all-opened [] b h = h
finish_all-opened (e ∷ es) b h = finish_all-opened es (finish e b) (finish-opened e b h)

finish_success :
    (b : CircuitBreaker)
    → b.state ≡ closed
    → ((finish success b).state ≡ closed)
      × ((finish success b).failures ≡ 0)
      × ((finish success b).options.failure_threshold ≡ b.options.failure_threshold)
unfolding finish on_success
finish_success b h = ground arith

finish_failure :
    (t : ℕ) (b : CircuitBreaker)
    → b.state ≡ closed
    → let full = leb b.options.failure_threshold (b.failures + 1) in
      ((finish (failure t) b).state ≡ (if full then opened else closed))
      × ((finish (failure t) b).failures ≡ b.failures + 1)
      × ((finish (failure t) b).options.failure_threshold ≡ b.options.failure_threshold)
unfolding finish on_failure
finish_failure t b h = ground arith

longest_streak-le : (n : ℕ) (es : List Ending) → n ≤ longest_streak n es
longest_streak-le n [] = omega arith
longest_streak-le n (success ∷ es) = omega arith
longest_streak-le n (failure t ∷ es) = omega (arith, longest_streak-le (n + 1) es)

-- Operations of a closed breaker that end without a new call in between leave it open exactly when as
-- many of them as the threshold failed in a row, counting the failures it had seen, and closed otherwise.
pub finish_all-longest_streak :
    (es : List Ending) (b : CircuitBreaker)
    → b.state ≡ closed
    → b.failures < b.options.failure_threshold
    → (finish_all es b).state
      ≡ (if leb b.options.failure_threshold (longest_streak b.failures es) then opened else closed)
unfolding finish_all
finish_all-longest_streak [] b h c = ground arith
finish_all-longest_streak (success ∷ es) b h c =
    let (still, none_left, same) = finish_success b h in
    let rest =
      finish_all-longest_streak es (finish success b) still (omega (arith, c, none_left, same)) in
    rest ∙ rw (same, none_left) (ground (arith, c))
finish_all-longest_streak (failure t ∷ es) b h c =
    let (now_is, more, same) = finish_failure t b h in
    elim (Bool-cases (leb b.options.failure_threshold (b.failures + 1))) [
      | inl e ↦
          finish_all-opened es (finish (failure t) b)
            (now_is ∙ ap (λ x. if x then opened else closed) e)
          ∙ ground (arith, e, longest_streak-le (b.failures + 1) es)
      | inr e ↦
          let rest =
            finish_all-longest_streak es (finish (failure t) b)
              (now_is ∙ ap (λ x. if x then opened else closed) e) (ground (arith, e, more, same)) in
          rest ∙ rw (same, more) refl
    ]
