-- ===== src/Manager/Admission.antt =====
-- The limit of maxUnfinishedJobs (internal/app/manager.go) under Submit and Retry.
use personal_yt_downloader.Common.{
  ℕ, suc, ◌+◌, ◌≤◌, ◌<◌, ◌≡◌, refl, ◌⊎◌, inl, inr, String, Bool, true, false, Option, none, some,
  List, [], ◌∷◌, ◌==◌, if◌then◌else◌, lookup, put, values, Map, Distinct, count_if, eq_iff, eq_refl,
  Bool-cases, arith,
}
use personal_yt_downloader.Model.{failed, AppError, closed, not_found, conflict, JobView}
use personal_yt_downloader.Manager.State.{
  JobState, Manager, counts, update, unfinished_locked, max_unfinished_jobs, requeue_locked,
  next_seq_locked, with_cancel, cancel, requeued,
}
use personal_yt_downloader.Manager.Requests.{
  submit_turn, submit_new, submit_existing, submit_requeued, retry, retry_requeued, new_job_state,
  SubmitTurn, SaveAnswer, refused,
}
use personal_yt_downloader.Manager.Protocol.{World}
use personal_yt_downloader.Manager.Invariant.{Inv}

-- One address more is counted at most as often as it occurs.
count-update :
    (heap : ℕ → JobState) (r : ℕ) (js : JobState) (refs : List ℕ)
    → count_if (λ i. counts (update heap r js i)) refs
      ≤ count_if (λ i. counts (heap i)) refs + count_if (λ i. i == r) refs
count-update heap r js [] = ground arith
count-update heap r js (i ∷ refs) = ground (arith, count-update heap r js refs)

-- An address at one key only occurs at most once.
occurs-none :
    (k : String) (r : ℕ) (m : Map ℕ)
    → Distinct m
    → ((i : String) → lookup i m ≡ some r → i ≡ k)
    → lookup k m ≡ none
    → count_if (λ x. x == r) (values m) ≡ 0
unfolding lookup
occurs-none k r [] d only h = refl
occurs-none k r ((i, x) ∷ m) d only h = ground (
  arith,
  occurs-none k r m d.1 (λ i' e. only i' (ground (arith, eq_iff i i', d.0))) (ground arith),
  only i,
  eq_refl i,
  eq_iff i k,
)

occurs-once :
    (k : String) (r : ℕ) (m : Map ℕ)
    → Distinct m
    → ((i : String) → lookup i m ≡ some r → i ≡ k)
    → count_if (λ x. x == r) (values m) ≤ 1
unfolding lookup
occurs-once k r [] d only = omega arith
occurs-once k r ((i, x) ∷ m) d only =
    let rest : (i' : String) → lookup i' m ≡ some r → i' ≡ k =
      λ i' e. only i' (ground (arith, eq_iff i i', d.0)) in
    elim (Bool-cases (x == r)) [
      | inl hit ↦
          ground (arith, occurs-none k r m d.1 rest (ground (arith, only i, eq_refl i, d.0)))
      | inr miss ↦ ground (arith, occurs-once k r m d.1 rest)
    ]

-- A new key adds one value.
count-put :
    (p : ℕ → Bool) (k : String) (n : ℕ) (m : Map ℕ)
    → lookup k m ≡ none
    → count_if p (values (put k n m)) ≤ count_if p (values m) + 1
unfolding lookup put
count-put p k n [] h = ground arith
count-put p k n ((i, x) ∷ m) h = ground (arith, count-put p k n m)

-- What a call may do to the count: leave it, or add one job where there was room.
abbrev pub Admits : Manager → Manager → Type 0
Admits m m' =
    (unfinished_locked m' ≤ unfinished_locked m)
    ⊎ ((unfinished_locked m < max_unfinished_jobs)
        × (unfinished_locked m' ≤ suc (unfinished_locked m)))

module _ (w : World) (v : Inv w) where
  only-key : (r : ℕ) (i : String) → lookup i w.manager.jobs ≡ some r → i ≡ (w.manager.heap r).id
  only-key r i h = ground (arith, v.registered i r h)

  requeue-Admits : (r : ℕ) → Admits w.manager (requeue_locked w.manager r).0
  unfolding requeue_locked unfinished_locked next_seq_locked with_cancel cancel
  requeue-Admits r = ground (
    arith,
    count-update w.manager.heap r
        (requeued (w.manager.heap r) (suc w.manager.seq) w.manager.next_ctx)
        (values w.manager.jobs),
    occurs-once (w.manager.heap r).id r w.manager.jobs v.distinct (only-key r),
  )

  submit_new-Admits :
      (id : String) (now : ℕ) (answer : SaveAnswer)
      → lookup id w.manager.jobs ≡ none
      → Admits w.manager (submit_new w.manager id now answer).0
  unfolding submit_new unfinished_locked next_seq_locked with_cancel cancel
  submit_new-Admits id now answer h =
      let m = w.manager in
      let js = new_job_state id now (suc m.seq) m.next_ctx in
      let p : ℕ → Bool = λ r. counts (update m.heap m.next_ref js r) in
      ground (
        arith,
        count-update m.heap m.next_ref js (values m.jobs),
        count-put p id m.next_ref m.jobs h,
        occurs-none id m.next_ref m.jobs v.distinct
            (λ i e. absurd (ground (arith, v.registered i m.next_ref e))) h,
      )

  requeued-Admits : (r : ℕ) → Admits w.manager (submit_requeued r (requeue_locked w.manager r)).0
  unfolding submit_requeued
  requeued-Admits r = ground (arith, requeue-Admits r)

  submit_existing-Admits : (r : ℕ) → Admits w.manager (submit_existing w.manager r).0
  unfolding submit_existing
  submit_existing-Admits r = ground (arith, requeued-Admits r)

  submit_found-Admits :
      (id : String) (now : ℕ) (answer : SaveAnswer) (b : Bool) (o : Option ℕ)
      → lookup id w.manager.jobs ≡ o
      → Admits w.manager
          (if b then (w.manager, refused closed) else elim o as (λ x. Manager × SubmitTurn) [
            | none ↦ submit_new w.manager id now answer
            | some r ↦ submit_existing w.manager r
          ]).0
  submit_found-Admits id now answer true o h = inl (omega arith)
  submit_found-Admits id now answer false none h = submit_new-Admits id now answer h
  submit_found-Admits id now answer false (some r) h = submit_existing-Admits r

  -- In a world that satisfies the invariant, one turn of Submit either leaves the number of
  -- unfinished jobs as it is or lower, or there were less than 16 of them and it adds one.
  pub submit_turn-Admits :
      (id : String) (now : ℕ) (answer : SaveAnswer)
      → Admits w.manager (submit_turn w.manager id now answer).0
  unfolding submit_turn
  submit_turn-Admits id now answer =
      submit_found-Admits id now answer w.manager.closing (lookup id w.manager.jobs) refl

  retried-Admits : (r : ℕ) → Admits w.manager (retry_requeued r (requeue_locked w.manager r)).0
  unfolding retry_requeued
  retried-Admits r = ground (arith, requeue-Admits r)

  retry_found-Admits :
      (b : Bool) (o : Option ℕ)
      → Admits w.manager
          (if b
            then (w.manager, (some closed, none))
            else elim o as (λ x. Manager × (Option AppError × Option JobView)) [
              | none ↦ (w.manager, (some not_found, none))
              | some r ↦
                  if (w.manager.heap r).deleting
                  then (w.manager, (some not_found, none))
                  else elim (w.manager.heap r).status [
                    | failed ↦ retry_requeued r (requeue_locked w.manager r)
                    | _ ↦ (w.manager, (some conflict, none))
                  ]
            ]).0
  retry_found-Admits true o = inl (omega arith)
  retry_found-Admits false none = inl (omega arith)
  retry_found-Admits false (some r) = ground (arith, retried-Admits r)

  -- In a world that satisfies the invariant, Retry either leaves the number of unfinished jobs as
  -- it is or lower, or there were less than 16 of them and it adds one.
  pub retry-Admits : (id : String) → Admits w.manager (retry w.manager id).0
  unfolding retry
  retry-Admits id = retry_found-Admits w.manager.closing (lookup id w.manager.jobs)
