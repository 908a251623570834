-- ===== src/RateLimiter.antt =====
-- The RateLimiter of internal/app/auth.go: credential attempts per client key.
-- A time is a number of nanoseconds, 0 the zero time. The lock makes each call one step.
-- `now.Sub(at) < window` is written `now < at + window`, and `window - now.Sub(at)` is
-- `at + window - now`, which is read only where it is positive.
pub mod Window
pub mod Wait
pub mod Budget
use personal_yt_downloader.Common.{
  ℕ, suc, ◌+◌, ◌-◌, ◌*◌, String, Bool, true, false, ◌||◌, Option, none, some, List, [], ◌∷◌, ◌++◌,
  ltb, leb, ◌==◌, if◌then◌else◌, keep_if, Map, lookup, put,
}

pub record RateAttempt : Type 0 where
  pub at : ℕ
  pub bad : Bool

pub record RateLimiter : Type 0 where
  pub window : ℕ
  pub max_failures : ℕ
  pub max_attempts : ℕ
  pub attempts : Map (List RateAttempt)

unfoldable pub new_rate_limiter : ℕ → ℕ → ℕ → RateLimiter
new_rate_limiter window max_failures max_attempts = record {
  window = window;
  max_failures = max_failures;
  max_attempts = max_attempts;
  attempts = [];
}

abbrev pub second : ℕ
second = 1_000_000_000

-- `r.attempts[key]`, where a missing key reads as the nil slice.
unfoldable pub entries : RateLimiter → String → List RateAttempt
entries r key = elim (lookup key r.attempts) [ none ↦ [] | some l ↦ l ]

abbrev pub is_recent : ℕ → ℕ → RateAttempt → Bool
is_recent window now a = ltb now (a.at + window)

unfoldable pub prune_key_locked : RateLimiter → String → ℕ → RateLimiter
prune_key_locked r key now = record r {
  attempts = put key (keep_if (is_recent r.window now) (entries r key)) r.attempts;
}

unfoldable pub record_locked : RateLimiter → String → ℕ → Bool → RateLimiter
record_locked r key now bad =
    prune_key_locked
      (record r {
        attempts = put key (entries r key ++ record { at = now; bad = bad } ∷ []) r.attempts;
      })
      key now

-- The variables of the loop in `checkLocked`.
pub record Tally : Type 0 where
  pub failures : ℕ
  pub attempts : ℕ
  pub oldest_bad : ℕ
  pub oldest_any : ℕ

-- `oldest.IsZero() || at.Before(oldest)`: the older of the two, where 0 is "none yet".
unfoldable pub older : ℕ → ℕ → ℕ
older oldest at = if (oldest == 0) || ltb at oldest then at else oldest

unfoldable pub count_attempt : Tally → RateAttempt → Tally
unfolding older
count_attempt t a = record {
  failures = if a.bad then suc t.failures else t.failures;
  attempts = suc t.attempts;
  oldest_bad = if a.bad then older t.oldest_bad a.at else t.oldest_bad;
  oldest_any = older t.oldest_any a.at;
}

unfoldable pub tally : Tally → List RateAttempt → Tally
tally t [] = t
tally t (a ∷ l) = tally (count_attempt t a) l

abbrev pub no_attempts : Tally
no_attempts = record { failures = 0; attempts = 0; oldest_bad = 0; oldest_any = 0 }

-- What is left of the window that the oldest counted attempt opened, or a second.
unfoldable pub wait_from : ℕ → ℕ → ℕ → ℕ
wait_from window now oldest = if ltb now (oldest + window) then oldest + window - now else second

unfoldable pub check_tally : RateLimiter → Tally → ℕ → Bool × ℕ
check_tally r t now =
    if leb r.max_failures t.failures
    then (false, wait_from r.window now t.oldest_bad)
    else if leb r.max_attempts t.attempts
    then (false, wait_from r.window now t.oldest_any)
    else (true, 0)

unfoldable pub check_locked : RateLimiter → String → ℕ → Bool × ℕ
check_locked r key now = check_tally r (tally no_attempts (entries r key)) now

pub record Verdict : Type 0 where
  pub allowed : Bool
  pub verified : Bool
  pub wait : ℕ

-- The second half of `Attempt`: `good` is what `verify()` answers.
unfoldable pub adjudicate :
    RateLimiter → String → ℕ → Bool → Bool → Bool × ℕ → RateLimiter × Verdict
adjudicate r key now good count_success (false, wait) =
    (r, record { allowed = false; verified = false; wait = wait })
adjudicate r key now true count_success (true, _) = (
  if count_success then record_locked r key now false else r,
  record { allowed = true; verified = true; wait = 0 },
)
adjudicate r key now false count_success (true, _) =
    (record_locked r key now true, record { allowed = true; verified = false; wait = 0 })

unfoldable pub attempt : RateLimiter → String → ℕ → Bool → Bool → RateLimiter × Verdict
attempt r key now good count_success =
    let pruned = prune_key_locked r key now in
    adjudicate pruned key now good count_success (check_locked pruned key now)
