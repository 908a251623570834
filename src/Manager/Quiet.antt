-- ===== src/Manager/Quiet.antt =====
-- The critical sections that leave ownership alone: those that change only what a card shows, the
-- order of the queue and the contexts.
pub mod Calls
use personal_yt_downloader.Common.{
  ℕ, suc, ◌≡◌, refl, sym, ap, ◌∙◌, ◌⊎◌, inl, inr, String, Bool, true, false, ◌&&◌, ◌||◌, not,
  Option, none, some, List, [], ◌∷◌, ltb, leb, ◌==◌, if◌then◌else◌, str_eq, arith, lookup, values,
  Map, Bool-cases, Option-cases,
}
use personal_yt_downloader.Common.Int.{Float}
use personal_yt_downloader.Model.{
  Stage, Job, failed, ready, queued, downloading, processing, verifying, AppError,
}
use personal_yt_downloader.Manager.State.{
  JobState, Manager, update, write, is_current, cancel, next_seq_locked, with_cancel,
  requeue_locked, requeued, fail_job, unfinished_locked,
}
use personal_yt_downloader.Manager.Requests.{
  submit_requeued, submit_existing, retry, retry_requeued, list_check, close_begin, close_jobs,
  close_end,
}
use personal_yt_downloader.Manager.Workers.{
  start_download, report, PipelineError, DownloadResult, end_download, completed, failed_with,
  title_arrived, title_unsupported, title_exhausted, mark_unpersistable,
}

pub record SameOwner (js js' : JobState) : Type 0 where
  pub ids : js'.id ≡ js.id
  pub actives : js'.active ≡ js.active
  pub fetchings : js'.fetching ≡ js.fetching
  pub deletings : js'.deleting ≡ js.deleting
  pub removals : js'.removal ≡ js.removal

pub record Quiet (m m' : Manager) : Type 0 where
  pub owners : (r : ℕ) → SameOwner (m.heap r) (m'.heap r)
  pub same_jobs : m'.jobs ≡ m.jobs
  pub same_next_ref : m'.next_ref ≡ m.next_ref
  pub same_next_attempt : m'.next_attempt ≡ m.next_attempt
  pub same_outcomes : (att : ℕ) → m'.outcomes att ≡ m.outcomes att
  pub same_disk : (k : String) → m'.disk k ≡ m.disk k

pub SameOwner-refl : (js : JobState) → SameOwner js js
SameOwner-refl js = record {
  ids = refl;
  actives = refl;
  fetchings = refl;
  deletings = refl;
  removals = refl;
}

pub Quiet-refl : (m : Manager) → Quiet m m
Quiet-refl m = record {
  owners = λ r. SameOwner-refl (m.heap r);
  same_jobs = refl;
  same_next_ref = refl;
  same_next_attempt = refl;
  same_outcomes = λ att. refl;
  same_disk = λ k. refl;
}

pub Quiet-trans : {m₁ m₂ m₃ : Manager} → Quiet m₁ m₂ → Quiet m₂ m₃ → Quiet m₁ m₃
Quiet-trans q q' = record {
  owners = λ r. record {
    ids = (q'.owners r).ids ∙ (q.owners r).ids;
    actives = (q'.owners r).actives ∙ (q.owners r).actives;
    fetchings = (q'.owners r).fetchings ∙ (q.owners r).fetchings;
    deletings = (q'.owners r).deletings ∙ (q.owners r).deletings;
    removals = (q'.owners r).removals ∙ (q.owners r).removals;
  };
  same_jobs = q'.same_jobs ∙ q.same_jobs;
  same_next_ref = q'.same_next_ref ∙ q.same_next_ref;
  same_next_attempt = q'.same_next_attempt ∙ q.same_next_attempt;
  same_outcomes = λ att. q'.same_outcomes att ∙ q.same_outcomes att;
  same_disk = λ k. q'.same_disk k ∙ q.same_disk k;
}

update-SameOwner :
    (heap : ℕ → JobState) (r i : ℕ) (js : JobState)
    → SameOwner (heap r) js
    → SameOwner (heap i) (update heap r js i)
update-SameOwner heap r i js same = elim (Bool-cases (r == i)) [
  | inl hit ↦ ground arith
  | inr miss ↦ ground arith
]

pub write-Quiet :
    (m : Manager) (r : ℕ) (js : JobState) → SameOwner (m.heap r) js → Quiet m (write m r js)
write-Quiet m r js same = record {
  owners = λ i. update-SameOwner m.heap r i js same;
  same_jobs = refl;
  same_next_ref = refl;
  same_next_attempt = refl;
  same_outcomes = λ att. refl;
  same_disk = λ k. refl;
}
