-- ===== src/Manager/Recover.antt =====
-- NewManager and Recover: the registry after a restart.
-- What the store answers (the scanned jobs, the sizes of their videos) is an argument.
pub mod Restart
use personal_yt_downloader.Common.{
  ℕ, suc, ◌<◌, ◌≡◌, ◌≢◌, ◌⊎◌, inl, inr, Option-cases, refl, ap, ◌∙◌, String, Bool, true, false,
  ◌||◌, Option, none, some, List, [], ◌∷◌, ◌==◌, if◌then◌else◌, str_eq, eq_iff, lookup, put,
  lookup-put, put-Distinct, Distinct, arith,
}
use personal_yt_downloader.Common.Int.{pos}
use personal_yt_downloader.Model.{downloading, processing, verifying, ready, failed, named, Job}
use personal_yt_downloader.Manager.State.{
  JobState, Manager, write, next_seq_locked, with_cancel, is_current,
}
use personal_yt_downloader.Manager.Requests.{new_job_state, file_missing, interrupted, is_running}
use personal_yt_downloader.Manager.Protocol.{World, idle}
use personal_yt_downloader.Manager.Invariant.{Inv}

-- The manager before Recover, over the metadata on disk. An address that is not allocated holds a
-- job state with no flag set.
unfoldable pub new_manager : (String → Option Job) → Manager
unfolding new_job_state
new_manager disk = record {
  heap = λ r. new_job_state "" 0 0 0;
  jobs = [];
  next_ref = 0;
  seq = 0;
  next_ctx = 0;
  cancelled = [];
  next_attempt = 0;
  outcomes = λ att. none;
  closing = false;
  disk = disk;
}

abbrev pub failed_job : Job → String → Job
failed_job j message = record j { status = failed; error = message }

-- The `switch` of the loop, with the answer of `VideoSize`.
unfoldable pub recovered_job : Job → Option ℕ → Job
recovered_job j size = elim j.status [
  | downloading ↦ failed_job j interrupted
  | processing ↦ failed_job j interrupted
  | verifying ↦ failed_job j interrupted
  | ready ↦ elim size [
    | none ↦ failed_job j file_missing
    | some n ↦ if n == 0 then failed_job j file_missing else record j { size_bytes = n }
  ]
  | _ ↦ j
]

abbrev pub recovered_state : Job → ℕ → ℕ → JobState
recovered_state j seq ctx = record {
  job = j;
  seq = seq;
  ctx = ctx;
  stage = named j.status;
  progress = pos 0;
  known = false;
  active = false;
  fetching = false;
  deleting = false;
  title_tries = 0;
  removal = none;
}

unfoldable pub recover_one : Manager → Job → Option ℕ → Manager
unfolding recovered_job next_seq_locked with_cancel
recover_one m j size =
    let (m₁, ctx) = with_cancel m in
    let (m₂, seq) = next_seq_locked m₁ in
    record (write m₂ m₂.next_ref (recovered_state (recovered_job j size) seq ctx)) {
      next_ref = suc m₂.next_ref;
      jobs = put j.id m₂.next_ref m₂.jobs;
    }

unfoldable pub recover_all : Manager → (String → Option ℕ) → List Job → Manager
unfolding recover_one
recover_all m video_size [] = m
recover_all m video_size (j ∷ jobs) =
    recover_all (recover_one m j (video_size j.id)) video_size jobs

-- The flag says whether the scan succeeded.
unfoldable pub recover : Manager → (String → Option ℕ) → Option (List Job) → Manager × Bool
unfolding recover_all
recover m video_size none = (m, false)
recover m video_size (some jobs) = (recover_all m video_size jobs, true)

-- The scan found the video.
abbrev pub is_listed : String → List Job → Bool
is_listed k [] = false
is_listed k (j ∷ jobs) = str_eq (Job.id j) k || is_listed k jobs

-- No worker runs and no file is written.
abbrev pub at_rest : Manager → World
at_rest m = record {
  manager = m;
  download = idle;
  first_title = none;
  second_title = none;
  pending = λ r. 0;
  removing = λ r. none;
  saving = λ r. none;
}
