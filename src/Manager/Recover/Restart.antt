-- ===== src/Manager/Recover/Restart.antt =====
-- What a restart finds and leaves: the world behind Recover (internal/app/manager.go).
use personal_yt_downloader.Common.{
  ℕ, ◌<◌, ◌≡◌, ◌≢◌, ◌⊎◌, inl, inr, Option-cases, refl, ap, ◌∙◌, String, true, false, Option, none,
  some, List, [], ◌∷◌, eq_iff, lookup, lookup-put, put-Distinct, Distinct, arith,
}
use personal_yt_downloader.Model.{ready, Job}
use personal_yt_downloader.Manager.State.{Manager, next_seq_locked, with_cancel, is_current}
use personal_yt_downloader.Manager.Requests.{new_job_state, is_running}
use personal_yt_downloader.Manager.Protocol.{World}
use personal_yt_downloader.Manager.Invariant.{Inv}
use personal_yt_downloader.Manager.Recover.{
  new_manager, recovered_job, recover_one, recover_all, recover, is_listed, at_rest,
}

-- What each turn of the loop keeps: every entry of the registry is in order, no job state has a flag
-- set, none is running, a ready one has the size of its video, and no removal attempt is closed.
record IsFresh (video_size : String → Option ℕ) (m : Manager) : Type 0 where
  distinct : Distinct m.jobs
  registered :
      (k : String) (r : ℕ) → lookup k m.jobs ≡ some r → ((m.heap r).id ≡ k) × (r < m.next_ref)
  calm :
      (r : ℕ)
      → ((m.heap r).active ≡ false) × ((m.heap r).fetching ≡ false) × ((m.heap r).deleting ≡ false)
  stopped : (r : ℕ) → is_running (m.heap r).status ≡ false
  sized :
      (r : ℕ)
      → (m.heap r).status ≡ ready
      → (video_size (m.heap r).id ≡ some (m.heap r).size_bytes) × ((m.heap r).size_bytes ≢ 0)
  unused : (att : ℕ) → m.outcomes att ≡ none

recovered_job-id : (j : Job) (size : Option ℕ) → (recovered_job j size).id ≡ j.id
unfolding recovered_job
recovered_job-id j size = ground arith

recovered_job-stopped :
    (j : Job) (size : Option ℕ) → is_running (recovered_job j size).status ≡ false
unfolding recovered_job
recovered_job-stopped j size = ground arith

recovered_job-sized :
    (j : Job) (size : Option ℕ)
    → (recovered_job j size).status ≡ ready
    → (size ≡ some (recovered_job j size).size_bytes) × ((recovered_job j size).size_bytes ≢ 0)
unfolding recovered_job
recovered_job-sized j size h = ground arith

new_manager-IsFresh :
    (disk : String → Option Job) (video_size : String → Option ℕ)
    → IsFresh video_size (new_manager disk)
unfolding new_manager lookup new_job_state
new_manager-IsFresh disk video_size = record {
  distinct = tt;
  registered = λ k r h. ground arith;
  calm = λ r. (refl, refl, refl);
  stopped = λ r. refl;
  sized = λ r h. ground arith;
  unused = λ att. refl;
}

recover_one-IsFresh :
    (video_size : String → Option ℕ) (m : Manager) (j : Job)
    → IsFresh video_size m
    → IsFresh video_size (recover_one m j (video_size j.id))
unfolding recover_one next_seq_locked with_cancel
recover_one-IsFresh video_size m j f =
    let size = video_size j.id in
    record {
      distinct = put-Distinct j.id m.next_ref m.jobs f.distinct;
      registered = λ k r h. ground (
        arith,
        f.registered k r,
        lookup-put j.id k m.next_ref m.jobs,
        eq_iff j.id k,
        recovered_job-id j size,
      );
      calm = λ r. ground (arith, f.calm r);
      stopped = λ r. ground (arith, f.stopped r, recovered_job-stopped j size);
      sized = λ r. ground (arith, f.sized r, recovered_job-sized j size, recovered_job-id j size);
      unused = f.unused;
    }

recover_all-IsFresh :
    (m : Manager) (video_size : String → Option ℕ) (jobs : List Job)
    → IsFresh video_size m
    → IsFresh video_size (recover_all m video_size jobs)
unfolding recover_all
recover_all-IsFresh m video_size [] f = f
recover_all-IsFresh m video_size (j ∷ jobs) f =
    recover_all-IsFresh (recover_one m j (video_size j.id)) video_size jobs
      (recover_one-IsFresh video_size m j f)

recover_all-disk :
    (m : Manager) (video_size : String → Option ℕ) (jobs : List Job)
    → (recover_all m video_size jobs).disk ≡ m.disk
unfolding recover_all recover_one next_seq_locked with_cancel
recover_all-disk m video_size [] = refl
recover_all-disk m video_size (j ∷ jobs) =
    recover_all-disk (recover_one m j (video_size j.id)) video_size jobs

recover_all-listed :
    (m : Manager) (video_size : String → Option ℕ) (jobs : List Job) (k : String)
    → (is_listed k jobs ≡ true) ⊎ (lookup k m.jobs ≢ none)
    → lookup k (recover_all m video_size jobs).jobs ≢ none
unfolding recover_all recover_one next_seq_locked with_cancel
recover_all-listed m video_size [] k h = ground arith
recover_all-listed m video_size (j ∷ jobs) k h =
    recover_all-listed (recover_one m j (video_size j.id)) video_size jobs k
      (ground (arith, lookup-put j.id k m.next_ref m.jobs))

-- The world after a successful Recover.
abbrev pub recovered : (String → Option Job) → (String → Option ℕ) → List Job → World
recovered disk video_size jobs = at_rest (recover_all (new_manager disk) video_size jobs)

module _ (disk : String → Option Job) (video_size : String → Option ℕ) (jobs : List Job) where
  recovered-IsFresh : IsFresh video_size (recover_all (new_manager disk) video_size jobs)
  recovered-IsFresh =
      recover_all-IsFresh (new_manager disk) video_size jobs (new_manager-IsFresh disk video_size)

  -- A world is in order after Recover, if the scan lists the video of every metadata file.
  pub recovered-Inv :
      ((k : String) → disk k ≢ none → is_listed k jobs ≡ true)
      → Inv (recovered disk video_size jobs)
  unfolding is_current new_manager
  recovered-Inv listed =
      let f = recovered-IsFresh in
      record {
        distinct = f.distinct;
        registered = f.registered;
        active = λ r. ground (arith, f.calm r);
        fetching = λ r. ground (arith, f.calm r);
        due = λ r. ground (arith, f.calm r);
        busy_current = λ r h. ground (arith, f.calm r);
        attempt = λ r h. absurd (ground (arith, f.calm r));
        attempts_differ = λ r r' att h. ground (arith, f.calm r);
        unused = λ att h. f.unused att;
        removing_attempt = λ r att h. ground arith;
        saving_current = λ r j h. ground arith;
        disk_registered = λ k h. recover_all-listed (new_manager disk) video_size jobs k (
            inl (
              listed k (λ e.
                h (ap (λ d. d k) (recover_all-disk (new_manager disk) video_size jobs) ∙ e))));
      }

  -- After Recover of a successful scan, every scanned video has a job of its own in the registry,
  -- which is not downloading, processing or verifying, has none of the flags active, fetching and
  -- deleting set, and is ready only with the size of its video, which is not zero.
  pub recovered_settled :
      (id : String)
      → is_listed id jobs ≡ true
      → let m = (recover (new_manager disk) video_size (some jobs)).0 in
        (r : ℕ) × (lookup id m.jobs ≡ some r)
        × ((m.heap r).id ≡ id)
        × (is_running (m.heap r).status ≡ false)
        × ((m.heap r).active ≡ false)
        × ((m.heap r).fetching ≡ false)
        × ((m.heap r).deleting ≡ false)
        × (((m.heap r).status ≢ ready)
            ⊎ ((video_size id ≡ some (m.heap r).size_bytes) × ((m.heap r).size_bytes ≢ 0)))
  unfolding recover
  recovered_settled id h =
      let f = recovered-IsFresh in
      let m = recover_all (new_manager disk) video_size jobs in
      elim (Option-cases (lookup id m.jobs)) [
        | inl missing ↦
            absurd (recover_all-listed (new_manager disk) video_size jobs id (inl h) missing)
        | inr (r, found) ↦
            let calm = f.calm r in
            let entry = f.registered id r found in
            (
              r,
              found,
              entry.0,
              f.stopped r,
              calm.0,
              calm.1,
              calm.2,
              ground (arith, f.sized r, entry),
            )
      ]
