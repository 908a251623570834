-- ===== src/RateLimiter/Window.antt =====
-- What a call of `Attempt` reads and leaves: the entries of a key after pruning and recording,
-- the tally of the loop, and when the call is turned away.
use personal_yt_downloader.Common.{
  ℕ, ◌+◌, ◌≤◌, ◌≡◌, refl, ◌↔◌, ◌⊎◌, String, Bool, true, false, List, [], ◌∷◌, ◌++◌, if◌then◌else◌,
  arith, keep_if, count_if, length, str_eq, eq_refl, put, ◌&&◌, ◌||◌, not, lookup-put,
}
use personal_yt_downloader.RateLimiter.{
  RateAttempt, RateLimiter, entries, is_recent, prune_key_locked, record_locked, Tally, tally,
  count_attempt, no_attempts, check_tally, check_locked, adjudicate, attempt,
}

abbrev pub is_bad : RateAttempt → Bool
is_bad a = a.bad

-- The entries of the key that lie in the window which ends now.
abbrev pub in_window : RateLimiter → String → ℕ → List RateAttempt
in_window r key now = keep_if (is_recent r.window now) (entries r key)

pub entries-prune :
    (r : RateLimiter) (key j : String) (now : ℕ)
    → entries (prune_key_locked r key now) j
      ≡ (if str_eq key j then in_window r key now else entries r j)
unfolding prune_key_locked entries
entries-prune r key j now =
    ground (arith, lookup-put key j (keep_if (is_recent r.window now) (entries r key)) r.attempts)

pub keep_if-keep_if {ℓ} :
    {A : Type ℓ} (p : A → Bool) (xs : List A) → keep_if p (keep_if p xs) ≡ keep_if p xs
keep_if-keep_if p [] = refl
keep_if-keep_if p (x ∷ xs) = ground (arith, keep_if-keep_if p xs)

pub tally_counts :
    (t : Tally) (l : List RateAttempt)
    → ((tally t l).failures ≡ t.failures + count_if is_bad l)
      × ((tally t l).attempts ≡ t.attempts + length l)
unfolding tally count_attempt
tally_counts t [] = omega arith
tally_counts t (a ∷ l) = ground (arith, tally_counts (count_attempt t a) l)

check_locked_cases :
    (r : RateLimiter) (key : String) (now : ℕ)
    → ((check_locked r key now).0 ≡ false) ↔ (
        (r.max_failures ≤ count_if is_bad (entries r key))
        ⊎ (r.max_attempts ≤ length (entries r key)))
unfolding check_locked check_tally
check_locked_cases r key now = ground (arith, tally_counts no_attempts (entries r key))

denied-iff-check :
    (r : RateLimiter) (key : String) (now : ℕ) (good count_success : Bool)
    → (attempt r key now good count_success).1.allowed
      ≡ (check_locked (prune_key_locked r key now) key now).0
unfolding attempt adjudicate
denied-iff-check r key now good count_success = ground arith

pub entries-prune_self :
    (r : RateLimiter) (key : String) (now : ℕ)
    → entries (prune_key_locked r key now) key ≡ in_window r key now
entries-prune_self r key now = ground (arith, entries-prune r key key now, eq_refl key)

pub prune_limits :
    (r : RateLimiter) (key : String) (now : ℕ)
    → ((prune_key_locked r key now).max_failures ≡ r.max_failures)
      × ((prune_key_locked r key now).max_attempts ≡ r.max_attempts)
      × ((prune_key_locked r key now).window ≡ r.window)
unfolding prune_key_locked
prune_limits r key now = (refl, refl, refl)

-- A call of Attempt is turned away exactly when the window that ends now already holds the maximal
-- number of failures, or the maximal number of attempts, of the key.
pub attempt_denied_iff :
    (r : RateLimiter) (key : String) (now : ℕ) (good count_success : Bool)
    → ((attempt r key now good count_success).1.allowed ≡ false) ↔ (
        (r.max_failures ≤ count_if is_bad (in_window r key now))
        ⊎ (r.max_attempts ≤ length (in_window r key now)))
attempt_denied_iff r key now good count_success = ground (
  arith,
  denied-iff-check r key now good count_success,
  prune_limits r key now,
  entries-prune_self r key now,
  check_locked_cases (prune_key_locked r key now) key now,
)

-- A call that is turned away answers alike, and leaves the limiter alike, for every credential and
-- kind of call.
pub attempt_denied_blind :
    (r : RateLimiter) (key : String) (now : ℕ) (good good' count_success count_success' : Bool)
    → (attempt r key now good count_success).1.allowed ≡ false
    → attempt r key now good' count_success' ≡ attempt r key now good count_success
unfolding attempt adjudicate
attempt_denied_blind r key now good good' count_success count_success' h = ground arith

entries-put :
    (r : RateLimiter) (key j : String) (l : List RateAttempt)
    → entries (record r { attempts = put key l r.attempts }) j
      ≡ (if str_eq key j then l else entries r j)
unfolding entries
entries-put r key j l = ground (arith, lookup-put key j l r.attempts)

pub entries-record :
    (r : RateLimiter) (key j : String) (now : ℕ) (bad : Bool)
    → entries (record_locked r key now bad) j ≡ (
        if str_eq key j
        then keep_if (is_recent r.window now) (entries r key ++ record { at = now; bad = bad } ∷ [])
        else entries r j)
unfolding record_locked
entries-record r key j now bad =
    let l = entries r key ++ record { at = now; bad = bad } ∷ [] in
    let recorded = record r { attempts = put key l r.attempts } in
    ground (
      arith,
      entries-prune recorded key j now,
      entries-put r key j l,
      entries-put r key key l,
      eq_refl key,
    )

-- What the window of the key holds after the call: its recent attempts, and this one if it was
-- let through and is one that counts.
unfoldable pub next_window : RateLimiter → String → ℕ → Bool → Bool → List RateAttempt
next_window r key now good count_success =
    if (attempt r key now good count_success).1.allowed && (not good || count_success)
    then keep_if (is_recent r.window now)
        (in_window r key now ++ record { at = now; bad = not good } ∷ [])
    else in_window r key now

pub entries-attempt :
    (r : RateLimiter) (key j : String) (now : ℕ) (good count_success : Bool)
    → entries (attempt r key now good count_success).0 j
      ≡ (if str_eq key j then next_window r key now good count_success else entries r j)
unfolding attempt adjudicate next_window
entries-attempt r key j now good count_success = ground (
  arith,
  entries-prune r key j now,
  entries-prune_self r key now,
  prune_limits r key now,
  entries-record (prune_key_locked r key now) key j now false,
  entries-record (prune_key_locked r key now) key j now true,
)

pub attempt_limits :
    (r : RateLimiter) (key : String) (now : ℕ) (good count_success : Bool)
    → ((attempt r key now good count_success).0.max_failures ≡ r.max_failures)
      × ((attempt r key now good count_success).0.max_attempts ≡ r.max_attempts)
      × ((attempt r key now good count_success).0.window ≡ r.window)
unfolding attempt adjudicate record_locked prune_key_locked
attempt_limits r key now good count_success = ground arith
