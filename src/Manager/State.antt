-- ===== src/Manager/State.antt =====
-- jobState, removalAttempt and the registry, with the helpers that run under the lock.
use personal_yt_downloader.Common.{
  ℕ, suc, String, Bool, true, false, ◌&&◌, ◌||◌, not, Option, none, some, List, [], ◌∷◌, leb, ◌==◌,
  if◌then◌else◌, str_eq, count_if, Map, lookup, values,
}
use personal_yt_downloader.Common.Int.{Float, pos, whole}
use personal_yt_downloader.Model.{
  queued, ready, failed, Stage, unset, named, AppError, busy, Job, JobView, unfinished, view,
}

abbrev pub max_unfinished_jobs : ℕ
max_unfinished_jobs = 16

abbrev pub title_attempts : ℕ
title_attempts = 3

-- `ctx` names the job's context, and `removal` the current removalAttempt. Who holds `saveMu` is told
-- by `Manager.Protocol`.
pub record JobState : Type 0 where
  pub job : Job
  pub open job use *
  pub seq : ℕ
  pub ctx : ℕ
  pub stage : Stage
  pub progress : Float
  pub known : Bool
  pub active : Bool
  pub fetching : Bool
  pub deleting : Bool
  pub title_tries : ℕ
  pub removal : Option ℕ

-- `heap` holds the job states by their addresses, `jobs` the address of each video's current one.
-- A context is cancelled if it is in `cancelled`, or if the manager's own context is, which Close
-- cancels as it sets `closing`. `outcomes` holds the closed removal attempts with their errors, and
-- `disk` the metadata.json of each video.
pub record Manager : Type 0 where
  pub heap : ℕ → JobState
  pub jobs : Map ℕ
  pub next_ref : ℕ
  pub seq : ℕ
  pub next_ctx : ℕ
  pub cancelled : List ℕ
  pub next_attempt : ℕ
  pub outcomes : ℕ → Option (Option AppError)
  pub closing : Bool
  pub disk : String → Option Job

abbrev pub update {ℓ} : {A : Type ℓ} → (ℕ → A) → ℕ → A → ℕ → A
update f r v i = if r == i then v else f i

abbrev pub update_disk : (String → Option Job) → String → Option Job → String → Option Job
update_disk f k v i = if str_eq k i then v else f i

-- The fields of the job state at the address, written back.
abbrev pub write : Manager → ℕ → JobState → Manager
write m r js = record m { heap = update m.heap r js }

-- `current, ok := m.jobs[js.ID]; ok && current == js`
unfoldable pub is_current : Manager → ℕ → Bool
is_current m r = elim (lookup (m.heap r).id m.jobs) [ none ↦ false | some r' ↦ r' == r ]

-- The test in the loop of `unfinishedLocked`.
abbrev pub counts : JobState → Bool
counts js = not js.deleting && unfinished js.job

unfoldable pub unfinished_locked : Manager → ℕ
unfinished_locked m = count_if (λ r. counts (m.heap r)) (values m.jobs)

unfoldable pub next_seq_locked : Manager → Manager × ℕ
next_seq_locked m = (record m { seq = suc m.seq }, suc m.seq)

-- `context.WithCancel(m.ctx)`
unfoldable pub with_cancel : Manager → Manager × ℕ
with_cancel m = (record m { next_ctx = suc m.next_ctx }, m.next_ctx)

unfoldable pub cancel : Manager → ℕ → Manager
cancel m c = record m { cancelled = c ∷ m.cancelled }

unfoldable pub contains : ℕ → List ℕ → Bool
contains c [] = false
contains c (x ∷ l) = (x == c) || contains c l

-- `ctx.Err() != nil`
unfoldable pub ctx_err : Manager → ℕ → Bool
unfolding contains
ctx_err m c = m.closing || contains c m.cancelled

unfoldable pub stage_shown : JobState → Stage
stage_shown js = elim js.status [
  | ready ↦ named ready
  | failed ↦ named failed
  | queued ↦ elim js.stage [ unset ↦ named queued | s ↦ s ]
  | _ ↦ js.stage
]

abbrev pub is_ready_job : JobState → Bool
is_ready_job js = elim js.status [ ready ↦ true | _ ↦ false ]

unfoldable pub view_locked : JobState → JobView
unfolding stage_shown
view_locked js =
    if is_ready_job js
    then view js.job (named ready) (whole 100) true
    else view js.job (stage_shown js) js.progress js.known

-- The body of `requeueLocked` once it admits the job: the fields, the sequence number, and a new
-- context in place of the cancelled one. (The metadata is written by a thread that it starts.)
unfoldable pub requeued : JobState → ℕ → ℕ → JobState
requeued js seq ctx = record js {
  job = record (js.job) { status = queued; error = ""; size_bytes = 0 };
  stage = named queued;
  progress = pos 0;
  known = false;
  seq = seq;
  ctx = ctx;
}

unfoldable pub requeue_locked : Manager → ℕ → Manager × Option AppError
unfolding requeued next_seq_locked cancel with_cancel
requeue_locked m r =
    if leb max_unfinished_jobs (unfinished_locked m)
    then (m, some busy)
    else let (m₁, seq) = next_seq_locked m in
      let (m₂, ctx) = with_cancel (cancel m₁ (m.heap r).ctx) in
      (write m₂ r (requeued (m.heap r) seq ctx), none)

-- The fields that a failure sets.
unfoldable pub fail_job : JobState → String → JobState
fail_job js message = record js {
  job = record (js.job) { status = failed; error = message };
  stage = named failed;
}
