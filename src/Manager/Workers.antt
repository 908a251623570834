-- ===== src/Manager/Workers.antt =====
-- The download worker, the title workers, the removal of files and the writing of metadata.
-- What the store, the downloader and the fetcher answer is an argument.
use personal_yt_downloader.Common.{
  ℕ, suc, String, Bool, true, false, ◌&&◌, ◌||◌, not, Option, none, some, List, [], ◌∷◌, ltb,
  if◌then◌else◌, str_eq, delete, values,
}
use personal_yt_downloader.Common.Int.{Float, pos, whole, ltb_ℤ}
use personal_yt_downloader.Model.{
  Status, queued, downloading, ready, Stage, named, AppError, storage, Job, unfinished,
  status_for_stage,
}
use personal_yt_downloader.Manager.State.{
  JobState, Manager, write, update, update_disk, is_current, fail_job, title_attempts,
}

-- `best == nil || js.seq < best.seq`, over the candidates that pass the test.
unfoldable pub pick_least : (ℕ → JobState) → (JobState → Bool) → Option ℕ → List ℕ → Option ℕ
pick_least heap wanted best [] = best
pick_least heap wanted best (r ∷ refs) =
    pick_least heap wanted
      (if wanted (heap r)
        then elim best [
          | none ↦ some r
          | some b ↦ if ltb (JobState.seq (heap r)) (JobState.seq (heap b)) then some r else some b
        ]
        else best)
      refs

abbrev pub wants_download : JobState → Bool
wants_download js = elim js.status [ queued ↦ not js.deleting && not js.active | _ ↦ false ]

unfoldable pub pick_queued_locked : Manager → Option ℕ
unfolding pick_least
pick_queued_locked m = pick_least m.heap wants_download none (values m.jobs)

abbrev pub wants_title : JobState → Bool
wants_title js =
    str_eq js.title ""
    && not js.fetching
    && not js.deleting
    && ltb js.title_tries title_attempts
    && unfinished js.job

unfoldable pub pick_title_locked : Manager → Option ℕ
unfolding pick_least
pick_title_locked m = pick_least m.heap wants_title none (values m.jobs)

-- The download worker's turn to pick: it stops when the manager closes, and sleeps without a
-- candidate.
unfoldable pub take_download : Manager → Option (ℕ × Manager)
unfolding pick_queued_locked
take_download m = if m.closing then none else elim (pick_queued_locked m) [
  | none ↦ none
  | some r ↦ some (r, write m r (record (m.heap r) { active = true }))
]

unfoldable pub take_title : Manager → Option (ℕ × Manager)
unfolding pick_title_locked
take_title m = if m.closing then none else elim (pick_title_locked m) [
  | none ↦ none
  | some r ↦ some (r, write m r (record (m.heap r) { fetching = true }))
]

-- The epilogues: the flag says that this worker must finalize the removal.
unfoldable pub release_download : Manager → ℕ → Manager × Bool
release_download m r = (
  write m r (record (m.heap r) { active = false }),
  (m.heap r).deleting && not (m.heap r).fetching,
)

unfoldable pub release_title : Manager → ℕ → Manager × Bool
release_title m r = (
  write m r (record (m.heap r) { fetching = false }),
  (m.heap r).deleting && not (m.heap r).active,
)

abbrev pub with_status : JobState → Status → JobState
with_status js s = record js { job = record (js.job) { status = s } }

-- The start of `runDownload`: the context and the snapshot for the pipeline.
unfoldable pub start_download : Manager → ℕ → Manager × ℕ × Job
start_download m r = let js = with_status (m.heap r) downloading in (write m r js, js.ctx, js.job)

-- The callback `report`. (A change of status is persisted by a thread that it starts.)
unfoldable pub report : Manager → ℕ → Stage → Float → Bool → Manager
unfolding is_current
report m r stage progress known =
    if is_current m r
    then write m r (
        with_status (record (m.heap r) { stage = stage; progress = progress; known = known })
          (status_for_stage stage))
    else m

-- The errors of a pipeline as `publicError` tells them apart.
pub data PipelineError : Type 0 where
  storage_error canceled deadline_exceeded : PipelineError
  download_error : String → PipelineError
  other_error : PipelineError

unfoldable pub public_error : PipelineError → String
public_error storage_error = "Storage is unavailable or full."
public_error canceled = "The download was interrupted. Tap Retry to try again."
public_error deadline_exceeded = "The download timed out. Tap Retry to try again."
public_error (download_error text) = text
public_error other_error =
    "Unable to download this video. It may be unavailable, private, or age-restricted."

pub record DownloadResult : Type 0 where
  pub title : String
  pub size_bytes : ℕ
  pub duration_sec : Float

abbrev pub is_canceled : PipelineError → Bool
is_canceled canceled = true
is_canceled _ = false

abbrev pub with_job : JobState → Job → JobState
with_job js j = record js { job = j }

unfoldable pub completed : JobState → DownloadResult → JobState
completed js result = record js {
  job = record (js.job) {
    title = if not (str_eq result.title "") then result.title else js.title;
    duration_sec =
        if ltb_ℤ (pos 0) result.duration_sec then result.duration_sec else js.duration_sec;
    status = ready;
    size_bytes = result.size_bytes;
    error = "";
  };
  stage = named ready;
  progress = whole 100;
  known = true;
}

unfoldable pub failed_with : JobState → PipelineError → DownloadResult → JobState
unfolding fail_job public_error
failed_with js err result =
    let failing = fail_job js (public_error err) in
    if not (str_eq result.title "") && str_eq js.title ""
    then with_job failing (record (failing.job) { title = result.title })
    else failing

-- The end of `runDownload`: what the pipeline came to, its result beside its error. The flag says
-- that the job is to be persisted.
unfoldable pub end_download : Manager → ℕ → DownloadResult → Option PipelineError → Manager × Bool
unfolding is_current completed failed_with
end_download m r result err =
    if not (is_current m r) || (m.heap r).deleting then (m, false) else elim err [
      | none ↦ (write m r (completed (m.heap r) result), true)
      | some e ↦
          if is_canceled e && m.closing
          then (m, false)
          else (write m r (failed_with (m.heap r) e result), true)
    ]

-- The critical sections of `runTitleFetch`: metadata arrived, the video is not supported, and the
-- attempts are used up. The flags say that the job is to be persisted.
unfoldable pub title_arrived : Manager → ℕ → String → Float → Manager × Bool
unfolding is_current
title_arrived m r title duration_sec =
    let js = m.heap r in
    if is_current m r && not js.deleting && str_eq js.title ""
    then (
      write m r (
          with_job js (record (js.job) {
            title = title;
            duration_sec = if ltb_ℤ (pos 0) duration_sec then duration_sec else js.duration_sec;
          })),
      true,
    )
    else (m, false)

abbrev pub is_queued_job : JobState → Bool
is_queued_job js = elim js.status [ queued ↦ true | _ ↦ false ]

unfoldable pub title_unsupported : Manager → ℕ → String → Manager × Bool
unfolding is_current fail_job
title_unsupported m r message =
    if is_current m r && not (m.heap r).deleting && is_queued_job (m.heap r)
    then (write m r (fail_job (m.heap r) message), true)
    else (m, false)

unfoldable pub title_exhausted : Manager → ℕ → Manager
unfolding is_current
title_exhausted m r =
    if is_current m r then write m r (record (m.heap r) { title_tries = title_attempts }) else m

-- What one attempt of the loop in `runTitleFetch` does with the fetcher's answer: end with a
-- title, end with an unsupported video, give up because of the context, or go on.
pub data FetchAnswer : Type 0 where
  metadata : String → Float → FetchAnswer
  unsupported : String → FetchAnswer
  fetch_error : FetchAnswer

pub data FetchNext : Type 0 where
  end_arrived : String → Float → FetchNext
  end_unsupported : String → FetchNext
  end_canceled : FetchNext
  end_exhausted : FetchNext
  next_attempt : ℕ → FetchNext

-- `attempt` counts from 1; the context is asked after each failed fetch, and again while waiting
-- for the next attempt.
unfoldable pub fetch_turn : FetchAnswer → Bool → Bool → ℕ → FetchNext
fetch_turn (metadata title duration_sec) done done_waiting attempt = end_arrived title duration_sec
fetch_turn (unsupported message) done done_waiting attempt = end_unsupported message
fetch_turn fetch_error done done_waiting attempt =
    if done
    then end_canceled
    else if ltb attempt title_attempts
    then if done_waiting then end_canceled else next_attempt (suc attempt)
    else end_exhausted

-- `finalizeDeletion`, first critical section: the attempt to go on with, if the removal is still
-- due. The thread holds `saveMu` from here to its end.
unfoldable pub finalize_check : Manager → ℕ → Option ℕ
unfolding is_current
finalize_check m r =
    if not (is_current m r) || not (m.heap r).deleting then none else (m.heap r).removal

abbrev pub files_stuck : String
files_stuck = "Unable to delete the video files. Check server storage and try again."

abbrev pub close_attempt : Manager → ℕ → Option AppError → Manager
close_attempt m att err = record m { outcomes = update m.outcomes att (some err) }

-- After `store.Remove` failed.
unfoldable pub finalize_failed : Manager → ℕ → ℕ → Manager
unfolding is_current fail_job
finalize_failed m r att =
    let kept = record (m.heap r) { deleting = false; removal = none } in
    close_attempt
      (if is_current m r
        then write m r (if unfinished kept.job then fail_job kept files_stuck else kept)
        else m)
      att (some storage)

-- What `store.Remove` does to the directory.
unfoldable pub remove_files : Manager → ℕ → Manager
remove_files m r = record m { disk = update_disk m.disk (m.heap r).id none }

-- After `store.Remove` removed the directory, or found none.
unfoldable pub finalize_removed : Manager → ℕ → ℕ → Manager
unfolding is_current
finalize_removed m r att =
    close_attempt (if is_current m r then record m { jobs = delete (m.heap r).id m.jobs } else m)
      att none

-- `saveCurrent`, under `saveMu`: the snapshot, if the job is to be written; then the write.
unfoldable pub save_snapshot : Manager → ℕ → Option Job
unfolding is_current
save_snapshot m r =
    if not (is_current m r) || (m.heap r).deleting then none else some (m.heap r).job

unfoldable pub save_written : Manager → Job → Manager
save_written m j = record m { disk = update_disk m.disk j.id (some j) }

abbrev pub unpersistable : String
unpersistable = "Unable to persist the job state. Check server storage."

unfoldable pub mark_unpersistable : Manager → ℕ → Manager
unfolding is_current fail_job
mark_unpersistable m r =
    if is_current m r && not (m.heap r).deleting
    then write m r (fail_job (m.heap r) unpersistable)
    else m
