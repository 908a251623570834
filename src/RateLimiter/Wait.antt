-- ===== src/RateLimiter/Wait.antt =====
-- The wait that a turned-away call reports, and what it is good for.
use personal_yt_downloader.Common.{
  ℕ, ◌+◌, ◌≤◌, ◌<◌, ◌≡◌, refl, ◌⊎◌, inl, String, Bool, List, [], ◌∷◌, ◌==◌, arith, keep_if,
  count_if, ◌&&◌,
}
use personal_yt_downloader.RateLimiter.{
  RateAttempt, RateLimiter, is_recent, Tally, tally, count_attempt, older, no_attempts, check_tally,
  check_locked, adjudicate, attempt, wait_from,
}
use personal_yt_downloader.RateLimiter.Window.{
  is_bad, in_window, tally_counts, entries-prune_self, prune_limits,
}

-- The oldest failure of the tally is the time of some counted failure, unless it is the start.
oldest_bad_found :
    (t : Tally) (l : List RateAttempt)
    → ((tally t l).oldest_bad ≡ t.oldest_bad)
      ⊎ (0 < count_if (λ a. a.bad && (a.at == (tally t l).oldest_bad)) l)
unfolding tally count_attempt older
oldest_bad_found t [] = inl refl
oldest_bad_found t (a ∷ l) = ground (arith, oldest_bad_found (count_attempt t a) l)

-- Times are after the zero time, as the clock's are.
abbrev pub Nonzero : List RateAttempt → Type 0
Nonzero [] = Unit
Nonzero (a ∷ l) = (0 < a.at) × Nonzero l

oldest_bad_pos :
    (t : Tally) (l : List RateAttempt)
    → Nonzero l
    → 0 < t.oldest_bad + count_if is_bad l
    → 0 < (tally t l).oldest_bad
unfolding tally count_attempt older
oldest_bad_pos t [] nz h = omega arith
oldest_bad_pos t (a ∷ l) nz h = ground (arith, oldest_bad_pos (count_attempt t a) l nz.1)

-- A failure as old as the given one has left the window by the end.
some_expire :
    (window end oldest : ℕ) (l : List RateAttempt)
    → oldest + window ≤ end
    → count_if (λ a. a.bad && (a.at == oldest)) l
        + count_if is_bad (keep_if (is_recent window end) l)
      ≤ count_if is_bad l
some_expire window end oldest [] h = omega arith
some_expire window end oldest (a ∷ l) h = ground (arith, some_expire window end oldest l h)

denied_wait :
    (r : RateLimiter) (key : String) (now : ℕ) (good count_success : Bool)
    → r.max_failures ≤ count_if is_bad (in_window r key now)
    → (attempt r key now good count_success).1.wait
      ≡ wait_from r.window now (tally no_attempts (in_window r key now)).oldest_bad
unfolding attempt adjudicate check_locked check_tally
denied_wait r key now good count_success h = ground (
  arith,
  entries-prune_self r key now,
  prune_limits r key now,
  tally_counts no_attempts (in_window r key now),
)

-- A key that has used up its failures is told a positive wait, after which at least one of these
-- failures has left the window, if the limit is positive and no entry has the zero time.
pub retry_after_frees :
    (r : RateLimiter) (key : String) (now : ℕ) (good count_success : Bool)
    → 0 < r.max_failures
    → Nonzero (in_window r key now)
    → r.max_failures ≤ count_if is_bad (in_window r key now)
    → let wait = (attempt r key now good count_success).1.wait in
      (0 < wait)
      × (count_if is_bad (keep_if (is_recent r.window (now + wait)) (in_window r key now))
          < count_if is_bad (in_window r key now))
unfolding wait_from
retry_after_frees r key now good count_success pos nz h =
    let l = in_window r key now in
    let t = tally no_attempts l in
    let wait = (attempt r key now good count_success).1.wait in
    ground (
      arith,
      denied_wait r key now good count_success h,
      oldest_bad_found no_attempts l,
      oldest_bad_pos no_attempts l nz,
      some_expire r.window (now + wait) t.oldest_bad l,
    )
