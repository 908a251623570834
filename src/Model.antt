-- ===== src/Model.antt =====
-- The data model of internal/app/model.go: statuses, stages, jobs and their views.
-- A status or a stage is a Go string that only ever holds one of the constants; the constants
-- StageQueued, StageProcessing, StageVerifying, StageReady and StageFailed have the texts of the
-- statuses. A float64 is a whole number of millionths (Common/Int.antt), and sizes are numbers.
pub mod Laws
use personal_yt_downloader.Common.{
  ℕ, String, Bool, true, false, Option, none, some, if◌then◌else◌, str_eq,
}
use personal_yt_downloader.Common.Int.{Float, whole, ltb_ℤ, pos}

pub data Status : Type 0 where
  queued downloading processing verifying ready failed : Status

-- `unset` is the empty string, and `named s` the text of the status.
pub data Stage : Type 0 where
  unset : Stage
  named : Status → Stage
  download_video : Stage
  download_audio : Stage

unfoldable pub status_text : Status → String
status_text queued = "queued"
status_text downloading = "downloading"
status_text processing = "processing"
status_text verifying = "verifying"
status_text ready = "ready"
status_text failed = "failed"

unfoldable pub stage_text : Stage → String
unfolding status_text
stage_text unset = ""
stage_text (named s) = status_text s
stage_text download_video = "downloading.video"
stage_text download_audio = "downloading.audio"

unfoldable pub status_for_stage : Stage → Status
status_for_stage download_video = downloading
status_for_stage download_audio = downloading
status_for_stage (named processing) = processing
status_for_stage (named verifying) = verifying
status_for_stage (named ready) = ready
status_for_stage (named failed) = failed
status_for_stage _ = queued

-- The errors that the manager reports to its callers; the last is that of `waitRemoval`.
pub data AppError : Type 0 where
  not_found busy storage closed conflict deletion_incomplete : AppError

pub record Job : Type 0 where
  pub id : String
  pub title : String
  pub duration_sec : Float
  pub status : Status
  pub size_bytes : ℕ
  pub created_at : ℕ
  pub error : String

unfoldable pub is_unfinished : Status → Bool
is_unfinished queued = true
is_unfinished downloading = true
is_unfinished processing = true
is_unfinished verifying = true
is_unfinished _ = false

unfoldable pub unfinished : Job → Bool
unfolding is_unfinished
unfinished j = is_unfinished j.status

abbrev pub is_queued : Status → Bool
is_queued queued = true
is_queued _ = false

abbrev pub is_ready : Status → Bool
is_ready ready = true
is_ready _ = false

abbrev pub is_failed : Status → Bool
is_failed failed = true
is_failed _ = false

pub record JobView : Type 0 where
  pub id : String
  pub title : String
  pub status : Status
  pub stage : Stage
  pub progress : Option Float
  pub size_bytes : ℕ
  pub created_at : ℕ
  pub error : String

abbrev pub fetching_title : String
fetching_title = "Fetching title…"

-- The two clamps of `view`, in their order.
unfoldable pub clamp_percent : Float → Float
clamp_percent p =
    let low = if ltb_ℤ p (pos 0) then pos 0 else p in
    if ltb_ℤ (whole 100) low then whole 100 else low

unfoldable pub view : Job → Stage → Float → Bool → JobView
unfolding clamp_percent
view j stage progress known = record {
  id = j.id;
  title = if str_eq j.title "" then fetching_title else j.title;
  status = j.status;
  stage = elim stage [ unset ↦ named j.status | s ↦ s ];
  progress = if known then some (clamp_percent progress) else none;
  size_bytes = j.size_bytes;
  created_at = j.created_at;
  error = if is_failed j.status then j.error else "";
}
