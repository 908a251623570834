-- ===== src/Manager/TitleFetch.antt =====
-- The loop of runTitleFetch (internal/app/manager.go) over the answers of the fetcher.
use personal_yt_downloader.Common.{
  ℕ, zero, suc, ◌+◌, ◌≤◌, ◌<◌, ◌≡◌, refl, ◌⊎◌, inl, inr, Bool, true, false, Option, none, some,
  arith, Bool-cases, ltb,
}
use personal_yt_downloader.Manager.State.{title_attempts}
use personal_yt_downloader.Manager.Workers.{
  FetchAnswer, metadata, unsupported, fetch_error, FetchNext, end_arrived, end_unsupported,
  end_canceled, end_exhausted, next_attempt, fetch_turn,
}

-- What the fetcher answers to an attempt, and whether the context is done then, and while waiting.
pub record Answer : Type 0 where
  pub answer : FetchAnswer
  pub done : Bool
  pub done_waiting : Bool

-- How the loop ends, and at which attempt; none if the fuel is used up.
unfoldable pub fetch_loop : (ℕ → Answer) → ℕ → ℕ → Option (FetchNext × ℕ)
fetch_loop answers zero attempt = none
fetch_loop answers (suc fuel) attempt =
    let a = answers attempt in
    elim (fetch_turn a.answer a.done a.done_waiting attempt) [
      | next_attempt following ↦ fetch_loop answers fuel following
      | end ↦ some (end, attempt)
    ]

unfoldable pub run_title_fetch : (ℕ → Answer) → Option (FetchNext × ℕ)
unfolding fetch_loop
run_title_fetch answers = fetch_loop answers title_attempts 1

-- The attempt is followed by another: a plain error, with the context alive then and while waiting.
abbrev pub GoesOn : Answer → Type 0
GoesOn a = (a.answer ≡ fetch_error) × (a.done ≡ false) × (a.done_waiting ≡ false)

-- The first attempts, as many as the number says, are each followed by another.
abbrev pub AllGoOn : (ℕ → Answer) → ℕ → Type 0
AllGoOn answers zero = Unit
AllGoOn answers (suc n) = AllGoOn answers n × GoesOn (answers (suc n))

-- Why the loop ends so at the attempt: the title that was fetched; the message of an unsupported
-- video; a plain error with the context done, then or while waiting for another attempt; or a plain
-- error of the last attempt.
abbrev pub EndsFor : FetchAnswer → Bool → Bool → ℕ → FetchNext → Type 0
EndsFor a done done_waiting n (end_arrived title duration_sec) = a ≡ metadata title duration_sec
EndsFor a done done_waiting n (end_unsupported message) = a ≡ unsupported message
EndsFor a done done_waiting n end_canceled =
    (a ≡ fetch_error) × ((done ≡ true) ⊎ ((n < title_attempts) × (done_waiting ≡ true)))
EndsFor a done done_waiting n end_exhausted =
    (a ≡ fetch_error) × (done ≡ false) × (n ≡ title_attempts)
EndsFor a done done_waiting n (next_attempt m) = ⊥

-- The loop ended at the first attempt that is not followed by another, for the reason it had there.
abbrev pub EndsAt : (ℕ → Answer) → Option (FetchNext × ℕ) → Type 0
EndsAt answers o =
    (end : FetchNext) × (n : ℕ) × (o ≡ some (end, suc n))
    × (suc n ≤ title_attempts)
    × AllGoOn answers n
    × EndsFor (answers (suc n)).answer (answers (suc n)).done (answers (suc n)).done_waiting (suc n)
        end

turn_lem :
    (a : FetchAnswer) (done done_waiting : Bool) (n : ℕ)
    → n ≤ title_attempts
    → ((fetch_turn a done done_waiting n ≡ next_attempt (suc n))
        × (a ≡ fetch_error)
        × (done ≡ false)
        × (done_waiting ≡ false)
        × (n < title_attempts))
      ⊎ EndsFor a done done_waiting n (fetch_turn a done done_waiting n)
unfolding fetch_turn
turn_lem (metadata title duration_sec) done done_waiting n h = inr refl
turn_lem (unsupported message) done done_waiting n h = inr refl
turn_lem fetch_error true done_waiting n h = inr (refl, inl refl)
turn_lem fetch_error false true n h = elim (Bool-cases (ltb n title_attempts)) [
  | inl early ↦ inr (rw early (refl, inr (ground arith, refl)))
  | inr late ↦ inr (rw late (refl, refl, ground (arith, h)))
]
turn_lem fetch_error false false n h = elim (Bool-cases (ltb n title_attempts)) [
  | inl early ↦ inl (ground (arith, early), refl, refl, refl, ground arith)
  | inr late ↦ inr (rw late (refl, refl, ground (arith, h)))
]

settle :
    (answers : ℕ → Answer) (fuel n : ℕ) (next : FetchNext)
    → fetch_turn
        (answers (suc n)).answer
        (answers (suc n)).done
        (answers (suc n)).done_waiting
        (suc n)
      ≡ next
    → EndsFor
        (answers (suc n)).answer
        (answers (suc n)).done
        (answers (suc n)).done_waiting
        (suc n)
        next
    → AllGoOn answers n
    → suc n ≤ title_attempts
    → EndsAt answers (fetch_loop answers (suc fuel) (suc n))
unfolding fetch_loop
settle answers fuel n (end_arrived title duration_sec) e ends before k =
    (end_arrived title duration_sec, n, rw (fetch_loop, e) refl, k, before, ends)
settle answers fuel n (end_unsupported message) e ends before k =
    (end_unsupported message, n, rw (fetch_loop, e) refl, k, before, ends)
settle answers fuel n end_canceled e ends before k =
    (end_canceled, n, rw (fetch_loop, e) refl, k, before, ends)
settle answers fuel n end_exhausted e ends before k =
    (end_exhausted, n, rw (fetch_loop, e) refl, k, before, ends)
settle answers fuel n (next_attempt m) e ends before k = absurd ends

loop_lem :
    (answers : ℕ → Answer) (fuel n : ℕ)
    → AllGoOn answers n
    → suc fuel + n ≡ title_attempts
    → EndsAt answers (fetch_loop answers (suc fuel) (suc n))
unfolding fetch_loop
loop_lem answers zero n before k =
    let a = answers (suc n) in
    elim (turn_lem a.answer a.done a.done_waiting (suc n) (omega (arith, k))) [
      | inl (following, plain, alive, waited, early) ↦ absurd (omega (arith, k, early))
      | inr ends ↦
          settle answers zero n (fetch_turn a.answer a.done a.done_waiting (suc n)) refl ends before
            (omega (arith, k))
    ]
loop_lem answers (suc fuel) n before k =
    let a = answers (suc n) in
    elim (turn_lem a.answer a.done a.done_waiting (suc n) (omega (arith, k))) [
      | inl (following, plain, alive, waited, early) ↦
          rw (fetch_loop, following)
            (loop_lem answers fuel (suc n) (before, (plain, alive, waited)) (omega (arith, k)))
      | inr ends ↦
          settle answers (suc fuel) n (fetch_turn a.answer a.done a.done_waiting (suc n)) refl ends
            before (omega (arith, k))
    ]

-- The loop of runTitleFetch ends, whatever the fetcher answers, at one of its three attempts: every
-- attempt before it met a plain error with the context alive then and while waiting, and it ends
-- with the title that was fetched, with the message of an unsupported video, as canceled after a
-- plain error with the context done then or, before the last attempt, while waiting, or as
-- exhausted after a plain error of the third attempt.
pub run_title_fetch-EndsAt : (answers : ℕ → Answer) → EndsAt answers (run_title_fetch answers)
unfolding run_title_fetch
run_title_fetch-EndsAt answers = loop_lem answers 2 0 tt (omega arith)
