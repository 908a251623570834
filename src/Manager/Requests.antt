-- ===== src/Manager/Requests.antt =====
-- The calls of the HTTP handlers: Submit, Retry, Get, List, Delete and Close.
-- What the store answers to a call (whether a write succeeds, the size of a file) is an argument.
use Prim.Native.String.{compare as compare_text}
use Prim.Native.Nat.{Ordering}
use personal_yt_downloader.Common.{
  ℕ, suc, ◌+◌, String, Bool, true, false, ◌&&◌, ◌||◌, not, Option, none, some, List, [], ◌∷◌, ltb,
  leb, ◌==◌, if◌then◌else◌, lookup, put, values, map, keep_if,
}
use personal_yt_downloader.Common.Int.{pos}
use personal_yt_downloader.Model.{
  Status, queued, downloading, processing, verifying, failed, named, AppError, not_found, busy,
  storage, closed, conflict, deletion_incomplete, JobView,
}
use personal_yt_downloader.Manager.State.{
  JobState, Manager, write, update_disk, is_current, unfinished_locked, next_seq_locked,
  with_cancel, cancel, view_locked, requeue_locked, fail_job, max_unfinished_jobs, is_ready_job,
}

-- How `store.Save` ends: without an error; with one, and the old file; or with an error of the
-- directory's sync, after the new file was renamed into place.
pub data SaveAnswer : Type 0 where
  written : SaveAnswer
  unwritten : SaveAnswer
  unsynced : SaveAnswer

-- What one turn of the loop in `Submit` comes to: wait for a removal attempt and look again, or
-- return a view with the duplicate flag, or an error.
pub data SubmitTurn : Type 0 where
  wait_for : ℕ → SubmitTurn
  accepted : JobView → Bool → SubmitTurn
  refused : AppError → SubmitTurn

-- `&jobState{Job: Job{ID: id, Status: StatusQueued, CreatedAt: now}, …}` with its context and stage.
unfoldable pub new_job_state : String → ℕ → ℕ → ℕ → JobState
new_job_state id created_at seq ctx = record {
  job = record {
    id = id;
    title = "";
    duration_sec = pos 0;
    status = queued;
    size_bytes = 0;
    created_at = created_at;
    error = "";
  };
  seq = seq;
  ctx = ctx;
  stage = named queued;
  progress = pos 0;
  known = false;
  active = false;
  fetching = false;
  deleting = false;
  title_tries = 0;
  removal = none;
}

-- The second half of the turn: a job for a video that has none.
unfoldable pub submit_new : Manager → String → ℕ → SaveAnswer → Manager × SubmitTurn
unfolding new_job_state next_seq_locked with_cancel cancel view_locked
submit_new m id now answer =
    if leb max_unfinished_jobs (unfinished_locked m)
    then (m, refused busy)
    else let (m₁, seq) = next_seq_locked m in
      let (m₂, ctx) = with_cancel m₁ in
      let js = new_job_state id now seq ctx in
      let disk = update_disk m₂.disk id (some js.job) in
      elim answer [
        | written ↦ (
          record (write m₂ m₂.next_ref js) {
            next_ref = suc m₂.next_ref;
            jobs = put id m₂.next_ref m₂.jobs;
            disk = disk;
          },
          accepted (view_locked js) false,
        )
        | unwritten ↦ (cancel m₂ ctx, refused storage)
        | unsynced ↦ (cancel (record m₂ { disk = disk }) ctx, refused storage)
      ]

-- The end of the case of a failed job.
unfoldable pub submit_requeued : ℕ → Manager × Option AppError → Manager × SubmitTurn
submit_requeued r (m, none) = (m, accepted (view_locked (m.heap r)) true)
submit_requeued r (m, some e) = (m, refused e)

-- The first half of the turn: the video has the job at `r`. While that is being deleted the turn
-- waits for its attempt, which `removal` names then.
unfoldable pub submit_existing : Manager → ℕ → Manager × SubmitTurn
unfolding submit_requeued requeue_locked view_locked
submit_existing m r =
    let js = m.heap r in
    if js.deleting
    then (m, elim js.removal [ none ↦ wait_for 0 | some att ↦ wait_for att ])
    else elim js.status [
      | failed ↦ submit_requeued r (requeue_locked m r)
      | _ ↦ (m, accepted (view_locked js) true)
    ]

unfoldable pub submit_turn : Manager → String → ℕ → SaveAnswer → Manager × SubmitTurn
unfolding submit_existing submit_new
submit_turn m id now answer = if m.closing then (m, refused closed) else elim (lookup id m.jobs) [
  | none ↦ submit_new m id now answer
  | some r ↦ submit_existing m r
]

-- The end of the wait in `Submit`: the next turn, or after two minutes an error.
unfoldable pub submit_waited : Manager → ℕ → Option AppError
submit_waited m att = elim (m.outcomes att) [ none ↦ some conflict | some _ ↦ none ]

-- The end of `Retry`.
unfoldable pub retry_requeued :
    ℕ → Manager × Option AppError → Manager × (Option AppError × Option JobView)
retry_requeued r (m, none) = (m, (none, some (view_locked (m.heap r))))
retry_requeued r (m, some e) = (m, (some e, none))

-- The new state, with the error or the view.
unfoldable pub retry : Manager → String → Manager × (Option AppError × Option JobView)
unfolding retry_requeued requeue_locked view_locked
retry m id = if m.closing then (m, (some closed, none)) else elim (lookup id m.jobs) [
  | none ↦ (m, (some not_found, none))
  | some r ↦ if (m.heap r).deleting then (m, (some not_found, none)) else elim (m.heap r).status [
    | failed ↦ retry_requeued r (requeue_locked m r)
    | _ ↦ (m, (some conflict, none))
  ]
]

unfoldable pub get : Manager → String → Option JobView
get m id = elim (lookup id m.jobs) [ none ↦ none | some r ↦ some (view_locked (m.heap r)) ]

-- The three parts of `List`: the ready jobs; the check of one of them, with the answer of
-- `VideoSize`; and the views, newest first.
unfoldable pub list_ready : Manager → List ℕ
list_ready m = keep_if (λ r. is_ready_job (m.heap r)) (values m.jobs)

abbrev pub file_missing : String
file_missing = "The stored file is missing. Retry to download it again."

-- The new state and the total.
unfoldable pub list_check : Manager → ℕ → Option ℕ → ℕ → Manager × ℕ
unfolding fail_job is_current
list_check m r size total =
    if is_current m r && not (m.heap r).deleting
    then elim size [
      | none ↦ (write m r (fail_job (m.heap r) file_missing), total)
      | some n ↦ if n == 0 then (write m r (fail_job (m.heap r) file_missing), total) else (
        write m r (record (m.heap r) { job = record ((m.heap r).job) { size_bytes = n } }),
        total + n,
      )
    ]
    else (m, total)

-- `views[i]` stands before `views[j]`.
unfoldable pub newer : JobView → JobView → Bool
newer v w =
    if v.created_at == w.created_at
    then elim (compare_text v.id w.id) [ Ordering.gt ↦ true | _ ↦ false ]
    else ltb w.created_at v.created_at

unfoldable pub insert_view : JobView → List JobView → List JobView
insert_view v [] = v ∷ []
insert_view v (w ∷ views) = if newer v w then v ∷ w ∷ views else w ∷ insert_view v views

unfoldable pub sort_views : List JobView → List JobView
unfolding insert_view newer
sort_views [] = []
sort_views (v ∷ views) = insert_view v (sort_views views)

unfoldable pub list_views : Manager → List JobView
unfolding sort_views view_locked
list_views m = sort_views (map (λ r. view_locked (m.heap r)) (values m.jobs))

-- What `Delete` does next: report that there is no such job, wait for the attempt of the number, or
-- finalize the removal of the job at the address itself.
pub data DeleteNext : Type 0 where
  no_job : DeleteNext
  await : ℕ → DeleteNext
  finalize : ℕ → DeleteNext

-- The critical section of `Delete` for a job that is not being deleted.
unfoldable pub begin_removal : Manager → ℕ → Manager × DeleteNext
unfolding cancel
begin_removal m r =
    let js = m.heap r in
    let att = m.next_attempt in
    let marked = write m r (record js { removal = some att; deleting = true }) in
    (
      cancel (record marked { next_attempt = suc att }) js.ctx,
      if js.active || js.fetching then await att else finalize r,
    )

unfoldable pub delete_job : Manager → String → Manager × DeleteNext
unfolding begin_removal
delete_job m id = elim (lookup id m.jobs) [
  | none ↦ (m, no_job)
  | some r ↦
      if (m.heap r).deleting
      then (m, elim (m.heap r).removal [ none ↦ await 0 | some att ↦ await att ])
      else begin_removal m r
]

-- `waitRemoval`: what the closed attempt says, or after two minutes an error of its own.
unfoldable pub wait_removal : Manager → ℕ → Option AppError
wait_removal m att = elim (m.outcomes att) [ none ↦ some deletion_incomplete | some err ↦ err ]

-- The first part of `Close`, up to the wait for the workers.
unfoldable pub close_begin : Manager → Manager
close_begin m = record m { closing = true }

abbrev pub interrupted : String
interrupted = "The download was interrupted by a restart. Tap Retry to continue."

abbrev pub is_running : Status → Bool
is_running downloading = true
is_running processing = true
is_running verifying = true
is_running _ = false

-- The loop of the second part: running jobs turn failed. (Each is persisted afterwards.)
unfoldable pub close_jobs : Manager → List ℕ → Manager
unfolding fail_job
close_jobs m [] = m
close_jobs m (r ∷ refs) =
    close_jobs
      (if not (m.heap r).deleting && is_running (m.heap r).status
        then write m r (fail_job (m.heap r) interrupted)
        else m)
      refs

unfoldable pub close_end : Manager → Manager
unfolding close_jobs
close_end m = close_jobs m (values m.jobs)
