-- ===== src/Manager/Quiet/Calls.antt =====
-- The quiet critical sections of internal/app/manager.go, one by one.
use personal_yt_downloader.Common.{
  ℕ, suc, refl, inl, inr, String, Bool, true, false, ◌&&◌, ◌||◌, not, Option, none, some, List, [],
  ◌∷◌, leb, ◌==◌, if◌then◌else◌, arith, lookup, values, Bool-cases, Option-cases,
}
use personal_yt_downloader.Common.Int.{Float, pos, ltb_ℤ}
use personal_yt_downloader.Model.{Status, Stage, failed, downloading, AppError, status_for_stage}
use personal_yt_downloader.Manager.State.{
  JobState, Manager, write, is_current, cancel, next_seq_locked, with_cancel, requeue_locked,
  requeued, fail_job, unfinished_locked, max_unfinished_jobs, title_attempts, title_attempts,
}
use personal_yt_downloader.Manager.Requests.{
  submit_requeued, submit_existing, retry, retry_requeued, list_check, close_begin, close_jobs,
  close_end, is_running, interrupted, file_missing,
}
use personal_yt_downloader.Manager.Workers.{
  start_download, report, PipelineError, DownloadResult, end_download, completed, failed_with,
  title_arrived, title_unsupported, title_exhausted, mark_unpersistable, with_status, with_job,
  is_canceled,
}
use personal_yt_downloader.Manager.Quiet.{
  SameOwner, Quiet, Quiet-refl, Quiet-trans, SameOwner-refl, write-Quiet,
}

if-Quiet : (m m₁ m₂ : Manager) (b : Bool) → Quiet m m₁ → Quiet m m₂ → Quiet m (if b then m₁ else m₂)
if-Quiet m m₁ m₂ true q q' = q
if-Quiet m m₁ m₂ false q q' = q'

module _ {ℓ} {A : Type ℓ} (m : Manager) (p q : Manager × A) where
  if-fst-Quiet : (b : Bool) → Quiet m p.0 → Quiet m q.0 → Quiet m (if b then p else q).0
  if-fst-Quiet true h h' = h
  if-fst-Quiet false h h' = h'

  status-fst-Quiet :
      (x : Status)
      → Quiet m p.0
      → Quiet m q.0
      → Quiet m (elim x as (λ y. Manager × A) [ failed ↦ p | _ ↦ q ]).0
  status-fst-Quiet failed h h' = h
  status-fst-Quiet _ h h' = h'

fail_job-SameOwner : (js : JobState) (message : String) → SameOwner js (fail_job js message)
unfolding fail_job
fail_job-SameOwner js message = ground arith

fail-Quiet :
    (m : Manager) (r : ℕ) (message : String) → Quiet m (write m r (fail_job (m.heap r) message))
fail-Quiet m r message =
    write-Quiet m r (fail_job (m.heap r) message) (fail_job-SameOwner (m.heap r) message)

pub requeue-Quiet : (m : Manager) (r : ℕ) → Quiet m (requeue_locked m r).0
unfolding requeue_locked
requeue-Quiet m r = elim (Bool-cases (leb max_unfinished_jobs (unfinished_locked m))) [
  | inl full ↦ rw full (Quiet-refl m)
  | inr room ↦ rw room (
      unfold requeued next_seq_locked with_cancel cancel in
      record {
        owners = λ i.
            (write-Quiet m r (requeued (m.heap r) (suc m.seq) m.next_ctx) (ground arith)).owners i;
        same_jobs = refl;
        same_next_ref = refl;
        same_next_attempt = refl;
        same_outcomes = λ att. refl;
        same_disk = λ k. refl;
      })
]

submit_requeued-Quiet :
    (m : Manager) (r : ℕ) (p : Manager × Option AppError)
    → Quiet m p.0
    → Quiet m (submit_requeued r p).0
unfolding submit_requeued
submit_requeued-Quiet m r (m', none) q = q
submit_requeued-Quiet m r (m', some e) q = q

pub submit_existing-Quiet : (m : Manager) (r : ℕ) → Quiet m (submit_existing m r).0
unfolding submit_existing
submit_existing-Quiet m r = if-fst-Quiet m _ _ (m.heap r).deleting (Quiet-refl m) (
    status-fst-Quiet m _ _ (m.heap r).status
      (submit_requeued-Quiet m r (requeue_locked m r) (requeue-Quiet m r)) (Quiet-refl m))

retry_requeued-Quiet :
    (m : Manager) (r : ℕ) (p : Manager × Option AppError)
    → Quiet m p.0
    → Quiet m (retry_requeued r p).0
unfolding retry_requeued
retry_requeued-Quiet m r (m', none) q = q
retry_requeued-Quiet m r (m', some e) q = q

pub retry-Quiet : (m : Manager) (id : String) → Quiet m (retry m id).0
unfolding retry
retry-Quiet m id =
    if-fst-Quiet m _ _ m.closing (Quiet-refl m) (elim (Option-cases (lookup id m.jobs)) [
      | inl missing ↦ rw missing (Quiet-refl m)
      | inr (r, found) ↦ rw found (
          if-fst-Quiet m _ _ (m.heap r).deleting (Quiet-refl m) (
            status-fst-Quiet m _ _ (m.heap r).status
              (retry_requeued-Quiet m r (requeue_locked m r) (requeue-Quiet m r)) (Quiet-refl m)))
    ])

size-Quiet : (m : Manager) (r n total : ℕ) → Quiet m (list_check m r (some n) total).0
unfolding list_check
size-Quiet m r n total =
    let sized : JobState = record (m.heap r) { job = record ((m.heap r).job) { size_bytes = n } } in
    if-fst-Quiet m _ _ (is_current m r && not (m.heap r).deleting)
      (if-fst-Quiet m _ _ (n == 0) (fail-Quiet m r file_missing)
        (write-Quiet m r sized (ground arith)))
      (Quiet-refl m)

pub list_check-Quiet :
    (m : Manager) (r : ℕ) (size : Option ℕ) (total : ℕ) → Quiet m (list_check m r size total).0
unfolding list_check
list_check-Quiet m r (some n) total = size-Quiet m r n total
list_check-Quiet m r none total =
    if-fst-Quiet m _ _ (is_current m r && not (m.heap r).deleting) (fail-Quiet m r file_missing)
      (Quiet-refl m)

pub close_begin-Quiet : (m : Manager) → Quiet m (close_begin m)
unfolding close_begin
close_begin-Quiet m = record {
  owners = λ r. SameOwner-refl (m.heap r);
  same_jobs = refl;
  same_next_ref = refl;
  same_next_attempt = refl;
  same_outcomes = λ att. refl;
  same_disk = λ k. refl;
}

close_jobs-Quiet : (m : Manager) (refs : List ℕ) → Quiet m (close_jobs m refs)
unfolding close_jobs
close_jobs-Quiet m [] = Quiet-refl m
close_jobs-Quiet m (r ∷ refs) =
    let test = not (m.heap r).deleting && is_running (m.heap r).status in
    let m' : Manager = if test then write m r (fail_job (m.heap r) interrupted) else m in
    Quiet-trans
      (if-Quiet m (write m r (fail_job (m.heap r) interrupted)) m test (fail-Quiet m r interrupted)
        (Quiet-refl m))
      (close_jobs-Quiet m' refs)

pub close_end-Quiet : (m : Manager) → Quiet m (close_end m)
unfolding close_end
close_end-Quiet m = close_jobs-Quiet m (values m.jobs)

pub start-Quiet : (m : Manager) (r : ℕ) → Quiet m (start_download m r).0
unfolding start_download
start-Quiet m r = write-Quiet m r (with_status (m.heap r) downloading) (ground arith)

pub report-Quiet :
    (m : Manager) (r : ℕ) (stage : Stage) (progress : Float) (known : Bool)
    → Quiet m (report m r stage progress known)
unfolding report
report-Quiet m r stage progress known =
    let js : JobState =
      with_status (record (m.heap r) { stage = stage; progress = progress; known = known })
        (status_for_stage stage) in
    if-Quiet m (write m r js) m (is_current m r) (write-Quiet m r js (ground arith)) (Quiet-refl m)

completed-SameOwner : (js : JobState) (result : DownloadResult) → SameOwner js (completed js result)
unfolding completed
completed-SameOwner js result = ground arith

failed-SameOwner :
    (js : JobState) (e : PipelineError) (result : DownloadResult)
    → SameOwner js (failed_with js e result)
unfolding failed_with
failed-SameOwner js e result = ground arith

pub end-Quiet :
    (m : Manager) (r : ℕ) (result : DownloadResult) (err : Option PipelineError)
    → Quiet m (end_download m r result err).0
unfolding end_download
end-Quiet m r result none =
    if-fst-Quiet m _ _ (not (is_current m r) || (m.heap r).deleting) (Quiet-refl m)
      (write-Quiet m r (completed (m.heap r) result) (completed-SameOwner (m.heap r) result))
end-Quiet m r result (some e) =
    if-fst-Quiet m _ _ (not (is_current m r) || (m.heap r).deleting) (Quiet-refl m) (
      if-fst-Quiet m _ _ (is_canceled e && m.closing) (Quiet-refl m)
        (write-Quiet m r (failed_with (m.heap r) e result) (failed-SameOwner (m.heap r) e result)))

pub title_arrived-Quiet :
    (m : Manager) (r : ℕ) (title : String) (duration_sec : Float)
    → Quiet m (title_arrived m r title duration_sec).0
unfolding title_arrived
title_arrived-Quiet m r title duration_sec =
    let js : JobState = with_job (m.heap r) (record ((m.heap r).job) {
      title = title;
      duration_sec = if ltb_ℤ (pos 0) duration_sec then duration_sec else (m.heap r).duration_sec;
    }) in
    if-fst-Quiet m (write m r js, true) (m, false) _ (write-Quiet m r js (ground arith))
      (Quiet-refl m)

pub title_unsupported-Quiet :
    (m : Manager) (r : ℕ) (message : String) → Quiet m (title_unsupported m r message).0
unfolding title_unsupported
title_unsupported-Quiet m r message = if-fst-Quiet m _ _ _ (fail-Quiet m r message) (Quiet-refl m)

pub title_exhausted-Quiet : (m : Manager) (r : ℕ) → Quiet m (title_exhausted m r)
unfolding title_exhausted
title_exhausted-Quiet m r =
    let js : JobState = record (m.heap r) { title_tries = title_attempts } in
    if-Quiet m (write m r js) m (is_current m r) (write-Quiet m r js (ground arith)) (Quiet-refl m)

pub mark-Quiet : (m : Manager) (r : ℕ) → Quiet m (mark_unpersistable m r)
unfolding mark_unpersistable
mark-Quiet m r = if-Quiet m _ m _ (fail-Quiet m r _) (Quiet-refl m)
