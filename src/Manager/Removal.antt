-- ===== src/Manager/Removal.antt =====
-- Deletion in internal/app/manager.go under every interleaving of the threads, from a restart on.
use personal_yt_downloader.Common.{
  ℕ, ◌+◌, ◌-◌, ◌≤◌, ◌≡◌, ◌≢◌, String, true, ◌&&◌, not, Option, none, some, List, lookup, arith,
}
use personal_yt_downloader.Model.{Job}
use personal_yt_downloader.Manager.State.{is_current}
use personal_yt_downloader.Manager.Workers.{finalize_check}
use personal_yt_downloader.Manager.Protocol.{World, owned, holds, one_if, Reach}
use personal_yt_downloader.Manager.Recover.{is_listed}
use personal_yt_downloader.Manager.Recover.Restart.{recovered, recovered-Inv}
use personal_yt_downloader.Manager.Invariant.{Inv, is_due, has}
use personal_yt_downloader.Manager.Invariant.Basics.{attempt-open}
use personal_yt_downloader.Manager.Invariant.Deletion.{finalize_check-due}
use personal_yt_downloader.Manager.Invariant.Removed.{removing-due}
use personal_yt_downloader.Manager.Invariant.Steps.{Reach-Inv}

module _ (disk : String → Option Job) (video_size : String → Option ℕ) (jobs : List Job)
    (listed : (k : String) → disk k ≢ none → is_listed k jobs ≡ true) (w : World)
    (reached : Reach (recovered disk video_size jobs) w) where
  reached-Inv : Inv w
  reached-Inv = Reach-Inv (recovered-Inv disk video_size jobs listed) reached

  -- In every world reachable from a restart whose scan lists all metadata on disk, by steps that do
  -- not include a Submit whose Save fails after its rename, exactly one call of finalizeDeletion is
  -- under way for a job state while it is registered, is being deleted and no worker owns it, and
  -- none at any other time.
  pub one_finalizer :
      (r : ℕ)
      → w.pending r + has (w.removing r)
        ≡ one_if
            (is_due w.manager r && not (w.manager.heap r).active && not (w.manager.heap r).fetching)
  one_finalizer r = reached-Inv.due r

  -- In every world reachable from a restart whose scan lists all metadata on disk, by steps that do
  -- not include a Submit whose Save fails after its rename, a call of finalizeDeletion that is
  -- about to take saveMu finds the removal due, gets the open attempt of the job, and is the only
  -- call pending.
  pub finalizer_finds_work :
      (r : ℕ)
      → w.pending r ≢ 0
      → (att : ℕ) × (finalize_check w.manager r ≡ some att)
        × ((w.manager.heap r).removal ≡ some att)
        × (w.manager.outcomes att ≡ none)
        × (w.pending r ≡ 1)
  finalizer_finds_work r h =
      let n = w.pending r - 1 in
      let found = finalize_check-due w r n reached-Inv (omega arith) in
      (
        found.0,
        found.1,
        found.2,
        (attempt-open w r found.0 reached-Inv (ground (arith, reached-Inv.due r)) found.2).1,
        ground (arith, found),
      )

  -- In every world reachable from a restart whose scan lists all metadata on disk, by steps that do
  -- not include a Submit whose Save fails after its rename, while finalizeDeletion removes files
  -- for an attempt, that attempt has not been closed (so its channel is closed only once), no other
  -- job shares it, the job is registered and being deleted, and no worker owns it.
  pub removal_exclusive :
      (r r' att : ℕ)
      → w.removing r ≡ some att
      → w.removing r' ≡ some att
      → (w.manager.outcomes att ≡ none)
        × (is_due w.manager r ≡ true)
        × (holds (owned w.download) r ≡ 0)
        × (holds w.first_title r + holds w.second_title r ≡ 0)
        × (r ≡ r')
  removal_exclusive r r' att h h' =
      let v = reached-Inv in
      let due = removing-due w r att v h in
      (
        (attempt-open w r att v due.0 (v.removing_attempt r att h)).1,
        due.0,
        ground (arith, v.active r, due),
        ground (arith, v.fetching r, due),
        v.attempts_differ r r' att due.0 (removing-due w r' att v h').0 (v.removing_attempt r att h)
            (v.removing_attempt r' att h'),
      )

  -- In every world reachable from a restart whose scan lists all metadata on disk, by steps that do
  -- not include a Submit whose Save fails after its rename, a job that a worker owns is registered
  -- under its id, and the two title workers never own the same job.
  pub owned_registered :
      (r : ℕ)
      → holds (owned w.download) r + holds w.first_title r + holds w.second_title r ≢ 0
      → (lookup (w.manager.heap r).id w.manager.jobs ≡ some r)
        × (holds w.first_title r + holds w.second_title r ≤ 1)
  unfolding is_current
  owned_registered r h =
      ground (arith, reached-Inv.busy_current r, reached-Inv.active r, reached-Inv.fetching r)

  -- In every world reachable from a restart whose scan lists all metadata on disk, by steps that do
  -- not include a Submit whose Save fails after its rename, metadata on disk belongs to a
  -- registered video, so no write revives a video whose removal is complete.
  pub no_metadata_unregistered :
      (id : String) → w.manager.disk id ≢ none → lookup id w.manager.jobs ≢ none
  no_metadata_unregistered id h = reached-Inv.disk_registered id h

  -- In every world reachable from a restart whose scan lists all metadata on disk, by steps that do
  -- not include a Submit whose Save fails after its rename, while a write of metadata is under way,
  -- no removal of that job holds saveMu, the job is registered, and the snapshot is of its video.
  pub write_excludes_removal :
      (r : ℕ) (j : Job)
      → w.saving r ≡ some j
      → (w.removing r ≡ none)
        × (is_current w.manager r ≡ true)
        × (lookup j.id w.manager.jobs ≡ some r)
  unfolding is_current
  write_excludes_removal r j h = ground (arith, reached-Inv.saving_current r j h)
