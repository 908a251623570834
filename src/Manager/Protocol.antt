-- ===== src/Manager/Protocol.antt =====
-- The threads of the manager as a step relation: the download worker, the two title workers, any
-- number of requests, and the threads that write metadata. A step is one critical section, or one
-- answer of the file system between two of them. Left out is a Submit whose Save fails after its
-- rename, which leaves metadata on disk without a job.
use personal_yt_downloader.Common.{
  ℕ, suc, ◌≡◌, ◌≢◌, String, Bool, true, Option, none, some, ◌==◌, if◌then◌else◌,
}
use personal_yt_downloader.Common.Int.{Float}
use personal_yt_downloader.Model.{Stage, Job}
use personal_yt_downloader.Manager.State.{Manager, update}
use personal_yt_downloader.Manager.Requests.{
  submit_turn, SaveAnswer, unsynced, retry, list_check, delete_job, DeleteNext, no_job, await,
  finalize, close_begin, close_end,
}
use personal_yt_downloader.Manager.Workers.{
  take_download, take_title, release_download, release_title, start_download, report, PipelineError,
  DownloadResult, end_download, title_arrived, title_unsupported, title_exhausted, finalize_check,
  finalize_failed, finalize_removed, remove_files, save_snapshot, save_written, mark_unpersistable,
}

-- Where the download worker stands with the job that it owns.
pub data DownloadPc : Type 0 where
  idle : DownloadPc
  picked : ℕ → DownloadPc
  running : ℕ → DownloadPc
  ended : ℕ → DownloadPc

-- `first_title` and `second_title` are the jobs that the title workers own. Of each job `pending`
-- counts the calls of `finalizeDeletion` that do not hold `saveMu` yet; `removing` is the attempt of
-- the call that does; `saving` is the snapshot of the call of `saveCurrent` that does.
pub record World : Type 0 where
  pub manager : Manager
  pub download : DownloadPc
  pub first_title : Option ℕ
  pub second_title : Option ℕ
  pub pending : ℕ → ℕ
  pub removing : ℕ → Option ℕ
  pub saving : ℕ → Option Job

abbrev pub with_manager : World → Manager → World
with_manager w m = record w { manager = m }

-- One more pending call, if the flag says so.
abbrev pub add_pending : World → ℕ → Bool → World
add_pending w r finish =
    if finish then record w { pending = update w.pending r (suc (w.pending r)) } else w

-- The call of `finalizeDeletion` that `Delete` makes itself.
abbrev pub after_delete : World → Manager × DeleteNext → World
after_delete w (m, no_job) = with_manager w m
after_delete w (m, await att) = with_manager w m
after_delete w (m, finalize r) = add_pending (with_manager w m) r true

pub data Step (w : World) : World → Type 0 where
  submits :
      (id : String) (now : ℕ) (answer : SaveAnswer)
      → answer ≢ unsynced
      → Step w (with_manager w (submit_turn w.manager id now answer).0)
  retries : (id : String) → Step w (with_manager w (retry w.manager id).0)
  lists :
      (r : ℕ) (size : Option ℕ) (total : ℕ)
      → Step w (with_manager w (list_check w.manager r size total).0)
  deletes : (id : String) → Step w (after_delete w (delete_job w.manager id))
  closes : Step w (with_manager w (close_begin w.manager))
  interrupts :
      w.manager.closing ≡ true → w.download ≡ idle → Step w (with_manager w (close_end w.manager))
  picks :
      (r : ℕ) (m : Manager)
      → w.download ≡ idle
      → take_download w.manager ≡ some (r, m)
      → Step w (record w { manager = m; download = picked r })
  starts :
      (r : ℕ)
      → w.download ≡ picked r
      → Step w (record w { manager = (start_download w.manager r).0; download = running r })
  reports :
      (r : ℕ) (stage : Stage) (progress : Float) (known : Bool)
      → w.download ≡ running r
      → Step w (with_manager w (report w.manager r stage progress known))
  ends :
      (r : ℕ) (result : DownloadResult) (err : Option PipelineError)
      → w.download ≡ running r
      → Step w (record w { manager = (end_download w.manager r result err).0; download = ended r })
  releases :
      (r : ℕ)
      → w.download ≡ ended r
      → Step w (
          add_pending
            (record w { manager = (release_download w.manager r).0; download = idle })
            r
            (release_download w.manager r).1)
  first_picks :
      (r : ℕ) (m : Manager)
      → w.first_title ≡ none
      → take_title w.manager ≡ some (r, m)
      → Step w (record w { manager = m; first_title = some r })
  second_picks :
      (r : ℕ) (m : Manager)
      → w.second_title ≡ none
      → take_title w.manager ≡ some (r, m)
      → Step w (record w { manager = m; second_title = some r })
  arrives :
      (r : ℕ) (title : String) (duration_sec : Float)
      → Step w (with_manager w (title_arrived w.manager r title duration_sec).0)
  rejects :
      (r : ℕ) (message : String) → Step w (with_manager w (title_unsupported w.manager r message).0)
  exhausts : (r : ℕ) → Step w (with_manager w (title_exhausted w.manager r))
  first_releases :
      (r : ℕ)
      → w.first_title ≡ some r
      → Step w (
          add_pending
            (record w { manager = (release_title w.manager r).0; first_title = none })
            r
            (release_title w.manager r).1)
  second_releases :
      (r : ℕ)
      → w.second_title ≡ some r
      → Step w (
          add_pending
            (record w { manager = (release_title w.manager r).0; second_title = none })
            r
            (release_title w.manager r).1)
  -- `finalizeDeletion` takes `saveMu`; it returns at once if no removal is due.
  skips :
      (r n : ℕ)
      → w.pending r ≡ suc n
      → finalize_check w.manager r ≡ none
      → Step w (record w { pending = update w.pending r n })
  checks :
      (r n att : ℕ)
      → w.pending r ≡ suc n
      → w.removing r ≡ none
      → w.saving r ≡ none
      → finalize_check w.manager r ≡ some att
      → Step w
          (record w { pending = update w.pending r n; removing = update w.removing r (some att) })
  -- `store.Remove` deletes the files; it may fail before that or after.
  clears :
      (r att : ℕ) → w.removing r ≡ some att → Step w (with_manager w (remove_files w.manager r))
  fails :
      (r att : ℕ)
      → w.removing r ≡ some att
      → Step w (record w {
        manager = finalize_failed w.manager r att;
        removing = update w.removing r none;
      })
  removes :
      (r att : ℕ)
      → w.removing r ≡ some att
      → w.manager.disk (w.manager.heap r).id ≡ none
      → Step w (record w {
        manager = finalize_removed w.manager r att;
        removing = update w.removing r none;
      })
  -- `saveCurrent` takes `saveMu` and its snapshot; the write replaces the file, or fails before that.
  snapshots :
      (r : ℕ) (j : Job)
      → w.removing r ≡ none
      → w.saving r ≡ none
      → save_snapshot w.manager r ≡ some j
      → Step w (record w { saving = update w.saving r (some j) })
  writes :
      (r : ℕ) (j : Job)
      → w.saving r ≡ some j
      → Step w (record w { manager = save_written w.manager j; saving = update w.saving r none })
  gives_up :
      (r : ℕ) (j : Job)
      → w.saving r ≡ some j
      → Step w (record w { saving = update w.saving r none })
  marks : (r : ℕ) → Step w (with_manager w (mark_unpersistable w.manager r))

pub data Reach (w : World) : World → Type 0 where
  here : Reach w w
  next : {u v : World} → Reach w u → Step u v → Reach w v

-- The job that the download worker owns.
abbrev pub owned : DownloadPc → Option ℕ
owned idle = none
owned (picked r) = some r
owned (running r) = some r
owned (ended r) = some r

-- 1 if the worker owns the job.
abbrev pub holds : Option ℕ → ℕ → ℕ
holds none r = 0
holds (some r') r = if r' == r then 1 else 0

abbrev pub one_if : Bool → ℕ
one_if b = if b then 1 else 0
