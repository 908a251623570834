-- ===== src/Tests/Auth.antt =====
-- The rate limiter and the session store on concrete inputs.
use personal_yt_downloader.Common.{
  ℕ, ◌≤◌, ◌≡◌, refl, ◌≢◌, ◌↔◌, ◌⊎◌, inl, inr, String, true, false, some, List, [], ◌∷◌,
  if◌then◌else◌, str_eq, eq_iff, Bool-cases, length, count_if, lookup, put, delete, retain, arith,
}
use personal_yt_downloader.RateLimiter.{
  RateLimiter, attempt, entries, new_rate_limiter, adjudicate, prune_key_locked, check_locked,
  check_tally, wait_from, tally, count_attempt, older, record_locked,
}
use personal_yt_downloader.RateLimiter.Window.{is_bad, in_window, attempt_denied_iff}
use personal_yt_downloader.RateLimiter.Budget.{
  IsBudgeted, Call, failed_calls, is_failure_of, failed_calls_bounded,
}
use personal_yt_downloader.StateFile.{missing, all_succeed, persist_value, write_file_sync}
use personal_yt_downloader.Sessions.{
  Session, SessionStore, create, lookup_session, revoke, persist_locked, load, new_session_store,
  any_expired, prune_locked, oldest_session, evict_oldest, validate, insert_session, loaded,
  load_sessions,
}
use personal_yt_downloader.Sessions.Invariant.{IsValid, create-IsValid}
use personal_yt_downloader.Sessions.Restart.{lookup-load-persist}

program : Unit {0}
unfolding attempt adjudicate prune_key_locked check_locked check_tally wait_from tally count_attempt
    older entries record_locked new_rate_limiter lookup put delete retain persist_locked
    persist_value write_file_sync any_expired prune_locked oldest_session evict_oldest validate
    insert_session create lookup_session revoke load loaded load_sessions new_session_store
program = tt

-- Two failures, at 5 and at 7, in a window of 10 with a limit of two failures.
abbrev limiter : RateLimiter
limiter = record {
  window = 10;
  max_failures = 2;
  max_attempts = 5;
  attempts = ("k", record { at = 5; bad = true } ∷ record { at = 7; bad = true } ∷ []) ∷ [];
}

-- The third call is turned away.
attempt_denied_iff_example :
    ((attempt limiter "k" 9 true true).1.allowed ≡ false)
    ↔ ((2 ≤ count_if is_bad (in_window limiter "k" 9)) ⊎ (5 ≤ length (in_window limiter "k" 9)))
attempt_denied_iff_example = attempt_denied_iff limiter "k" 9 true true

limiter-IsBudgeted : IsBudgeted limiter
unfolding program
limiter-IsBudgeted = record { failures = λ key. ground arith; attempts = λ key. ground arith }

abbrev guess : ℕ → Call
guess now = record { key = "k"; now = now; good = false; count_success = true }

-- Four wrong guesses: the third is turned away, the fourth comes after the window.
abbrev history : List Call
history = guess 1 ∷ guess 2 ∷ guess 3 ∷ guess 12 ∷ []

failed_calls_bounded_example :
    count_if (is_failure_of "k" 10 12) (failed_calls (new_rate_limiter 10 2 5) [] history) ≤ 2
failed_calls_bounded_example =
    failed_calls_bounded 10 2 5 history 12 "k"
      (omega arith, (omega arith, (omega arith, (omega arith, omega arith))))

-- A stand-in for SHA-256 that never gives the empty string.
abbrev tag_hash : String → String
tag_hash token = if str_eq token "" then "none" else token

tag_hash-nonempty : (token : String) → tag_hash token ≢ ""
tag_hash-nonempty token = elim (Bool-cases (str_eq token "")) [
  | inl h ↦ rw h (λ e. ground (arith, e, eq_iff "none" ""))
  | inr h ↦ rw h (λ e. ground (arith, e, h, eq_iff token ""))
]

abbrev token_a : String
token_a = "a"

abbrev old_session : Session
old_session = record { token_hash = "a"; csrf = "c"; created_at = 1; expires_at = 50 }

abbrev store : SessionStore
store = record { file = missing; fp = "f"; sessions = ("a", old_session) ∷ [] }

store-IsValid : IsValid store
unfolding program
store-IsValid = record {
  distinct = (refl, tt);
  keyed = ((refl, λ e. ground (arith, e, eq_iff "a" "")), tt);
  bounded = omega arith;
}

create-IsValid_example : IsValid (create tag_hash store 9 "b" "d" all_succeed all_succeed).0
create-IsValid_example =
    create-IsValid tag_hash tag_hash-nonempty store 9 "b" "d" all_succeed all_succeed store-IsValid

lookup-load-persist_example :
    let restarted = load (new_session_store (persist_locked store all_succeed).0.file "f") 9 in
    (restarted.1 ≡ false) × (lookup "a" restarted.0.sessions ≡ some old_session)
unfolding program
lookup-load-persist_example = lookup-load-persist store all_succeed "f" "a" 9 store-IsValid refl
