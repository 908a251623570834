-- ===== src/RateLimiter/Budget.antt =====
-- The budgets of RateLimiter (internal/app/auth.go) over single calls and whole histories of calls.
use personal_yt_downloader.Common.{
  ℕ, ◌+◌, ◌≤◌, ◌≡◌, refl, String, Bool, ◌&&◌, not, List, [], ◌∷◌, ◌++◌, ltb, if◌then◌else◌, arith,
  keep_if, count_if, length, str_eq, eq_iff, count_if-append, length-append, length-keep_if-le,
  lookup, subst,
}
use personal_yt_downloader.RateLimiter.{
  RateAttempt, RateLimiter, new_rate_limiter, entries, is_recent, attempt,
}
use personal_yt_downloader.RateLimiter.Window.{
  is_bad, in_window, next_window, entries-attempt, attempt_denied_iff, attempt_limits,
}

-- No key holds more entries, or more failures, than the limits allow.
pub record IsBudgeted (r : RateLimiter) : Type 0 where
  pub failures : (key : String) → count_if is_bad (entries r key) ≤ r.max_failures
  pub attempts : (key : String) → length (entries r key) ≤ r.max_attempts

count_if-keep_if-le {ℓ} :
    {A : Type ℓ} (p q : A → Bool) (xs : List A) → count_if p (keep_if q xs) ≤ count_if p xs
count_if-keep_if-le p q [] = omega arith
count_if-keep_if-le p q (x ∷ xs) = ground (arith, count_if-keep_if-le p q xs)

module _ (r : RateLimiter) (key : String) (now : ℕ) (good count_success : Bool) where
  next_window_failures :
      count_if is_bad (entries r key) ≤ r.max_failures
      → count_if is_bad (next_window r key now good count_success) ≤ r.max_failures
  unfolding next_window
  next_window_failures h =
      let new : RateAttempt = record { at = now; bad = not good } in
      ground (
        arith,
        count_if-keep_if-le is_bad (is_recent r.window now) (entries r key),
        count_if-keep_if-le is_bad (is_recent r.window now) (in_window r key now ++ new ∷ []),
        count_if-append is_bad (in_window r key now) (new ∷ []),
        attempt_denied_iff r key now good count_success,
      )

  next_window_attempts :
      length (entries r key) ≤ r.max_attempts
      → length (next_window r key now good count_success) ≤ r.max_attempts
  unfolding next_window
  next_window_attempts h =
      let new : RateAttempt = record { at = now; bad = not good } in
      ground (
        arith,
        length-keep_if-le (is_recent r.window now) (entries r key),
        length-keep_if-le (is_recent r.window now) (in_window r key now ++ new ∷ []),
        length-append (in_window r key now) (new ∷ []),
        attempt_denied_iff r key now good count_success,
      )

  -- Every call of Attempt keeps every key within the limits of failures and of attempts.
  pub attempt-IsBudgeted : IsBudgeted r → IsBudgeted (attempt r key now good count_success).0
  attempt-IsBudgeted b = record {
    failures = λ j. ground (
      arith,
      entries-attempt r key j now good count_success,
      attempt_limits r key now good count_success,
      next_window_failures (b.failures key),
      b.failures j,
    );
    attempts = λ j. ground (
      arith,
      entries-attempt r key j now good count_success,
      attempt_limits r key now good count_success,
      next_window_attempts (b.attempts key),
      b.attempts j,
    );
  }

-- A call as its client makes it.
pub record Call : Type 0 where
  pub key : String
  pub now : ℕ
  pub good : Bool
  pub count_success : Bool

-- The call was let through, `verify` ran, and it failed.
pub failed_call : RateLimiter → Call → Bool
failed_call r c = (attempt r c.key c.now c.good c.count_success).1.allowed && not c.good

abbrev after_call : RateLimiter → Call → RateLimiter
after_call r c = (attempt r c.key c.now c.good c.count_success).0

-- The calls of a history whose credential was examined and found wrong, newest first.
pub failed_calls : RateLimiter → List Call → List Call → List Call
failed_calls r seen [] = seen
failed_calls r seen (c ∷ cs) =
    failed_calls (after_call r c) (if failed_call r c then c ∷ seen else seen) cs

-- The clock does not go back, and ends at or before the given time.
abbrev pub Ascending : ℕ → List Call → ℕ → Type 0
Ascending t [] end = t ≤ end
Ascending t (c ∷ cs) end = (t ≤ c.now) × Ascending c.now cs end

abbrev pub is_failure_of : String → ℕ → ℕ → Call → Bool
is_failure_of key window end c = str_eq c.key key && ltb end (c.now + window)

abbrev late_bad : ℕ → ℕ → RateAttempt → Bool
late_bad window end a = a.bad && is_recent window end a

-- What counts at a later time has survived every pruning before it.
count-pruned :
    (window now end : ℕ) (l : List RateAttempt)
    → now ≤ end
    → count_if (late_bad window end) (keep_if (is_recent window now) l)
      ≡ count_if (late_bad window end) l
count-pruned window now end [] h = refl
count-pruned window now end (a ∷ l) h = ground (arith, count-pruned window now end l h)

-- From the time on, the entries of each key count the failed calls of that key.
Tracks : RateLimiter → List Call → ℕ → Type 0
Tracks r seen t =
    (key : String) (end : ℕ)
    → t ≤ end
    → count_if (late_bad r.window end) (entries r key)
      ≡ count_if (is_failure_of key r.window end) seen

count-next_window :
    (r : RateLimiter) (c : Call) (end : ℕ)
    → c.now ≤ end
    → count_if (late_bad r.window end) (next_window r c.key c.now c.good c.count_success)
      ≡ (if failed_call r c && ltb end (c.now + r.window) then 1 else 0)
        + count_if (late_bad r.window end) (entries r c.key)
unfolding next_window failed_call
count-next_window r c end h =
    let new : RateAttempt = record { at = c.now; bad = not c.good } in
    let l = in_window r c.key c.now in
    ground (
      arith,
      count-pruned r.window c.now end (entries r c.key) h,
      count-pruned r.window c.now end (l ++ new ∷ []) h,
      count_if-append (late_bad r.window end) l (new ∷ []),
    )

Tracks-after_call :
    (r : RateLimiter) (seen : List Call) (t : ℕ) (c : Call)
    → t ≤ c.now
    → Tracks r seen t
    → Tracks (after_call r c) (if failed_call r c then c ∷ seen else seen) c.now
unfolding Tracks
Tracks-after_call r seen t c le tracks key end h =
    rw (attempt_limits r c.key c.now c.good c.count_success).2 (
      ground (
        arith,
        entries-attempt r c.key key c.now c.good c.count_success,
        eq_iff c.key key,
        count-next_window r c end h,
        tracks key end (omega arith),
      ))

count-late-le :
    (window end : ℕ) (l : List RateAttempt) → count_if (late_bad window end) l ≤ count_if is_bad l
count-late-le window end [] = omega arith
count-late-le window end (a ∷ l) = ground (arith, count-late-le window end l)

failed_calls-le :
    (r : RateLimiter) (seen cs : List Call) (t end : ℕ) (key : String)
    → IsBudgeted r
    → Tracks r seen t
    → Ascending t cs end
    → count_if (is_failure_of key r.window end) (failed_calls r seen cs) ≤ r.max_failures
unfolding failed_calls Tracks
failed_calls-le r seen [] t end key b tracks asc =
    omega (arith, tracks key end asc, count-late-le r.window end (entries r key), b.failures key)
failed_calls-le r seen (c ∷ cs) t end key b tracks asc =
    let limits = attempt_limits r c.key c.now c.good c.count_success in
    let rest =
      failed_calls-le (after_call r c) (if failed_call r c then c ∷ seen else seen) cs c.now end key
        (attempt-IsBudgeted r c.key c.now c.good c.count_success b)
        (Tracks-after_call r seen t c asc.0 tracks) asc.1 in
    subst (λ w. count_if (is_failure_of key w end) (failed_calls r seen (c ∷ cs)) ≤ r.max_failures)
      limits.2 (omega (arith, rest, limits.0))

new-IsBudgeted : (window mf ma : ℕ) → IsBudgeted (new_rate_limiter window mf ma)
unfolding new_rate_limiter entries lookup
new-IsBudgeted window mf ma = record {
  failures = λ key. omega arith;
  attempts = λ key. omega arith;
}

-- In any history of calls of Attempt whose clock does not go back, and for every key, the
-- credentials of that key which were examined and found wrong in the window that ends with the
-- history are at most the limit of failures.
pub failed_calls_bounded :
    (window max_failures max_attempts : ℕ) (cs : List Call) (end : ℕ) (key : String)
    → Ascending 0 cs end
    → count_if
        (is_failure_of key window end)
        (failed_calls (new_rate_limiter window max_failures max_attempts) [] cs)
      ≤ max_failures
unfolding new_rate_limiter
failed_calls_bounded window max_failures max_attempts cs end key asc =
    failed_calls-le (new_rate_limiter window max_failures max_attempts) [] cs 0 end key
      (new-IsBudgeted window max_failures max_attempts)
      (unfold Tracks entries lookup in λ k e h. refl) asc
