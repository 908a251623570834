-- ===== src/Store.antt =====
-- Load, Scan and Total of DiskStore (internal/app/store.go), which read what a restart finds.
-- `valid_id` is the match with idPattern. What the file system and the JSON decoder answer is an
-- argument, and so is the clock.
pub mod Scans
pub mod Files
use personal_yt_downloader.Common.{
  ℕ, ◌+◌, String, Bool, true, false, ◌&&◌, ◌||◌, not, Option, none, some, List, [], ◌∷◌, ◌==◌,
  if◌then◌else◌, str_eq,
}
use personal_yt_downloader.Common.Int.{Float, pos}
use personal_yt_downloader.StateFile.{StateFile, missing, read_error, malformed, content}
use personal_yt_downloader.Model.{Status, ready, failed, Job}
use personal_yt_downloader.Manager.Requests.{file_missing}

-- A decoded metadata.json; a text that is no status is none.
pub record StoredJob : Type 0 where
  pub id : String
  pub title : String
  pub duration_sec : Float
  pub status : Option Status
  pub size_bytes : ℕ
  pub created_at : ℕ
  pub error : String

abbrev pub unreadable : String
unreadable = "The stored job data is unreadable. Delete it and submit the URL again."

-- `Job{ID: id, Status: StatusFailed, CreatedAt: created_at, Title: title, Error: message}`
abbrev pub synthesized : String → ℕ → String → String → Job
synthesized id created_at title message = record {
  id = id;
  title = title;
  duration_sec = pos 0;
  status = failed;
  size_bytes = 0;
  created_at = created_at;
  error = message;
}

abbrev pub stored_job : StoredJob → Status → Job
stored_job j status = record {
  id = j.id;
  title = j.title;
  duration_sec = j.duration_sec;
  status = status;
  size_bytes = j.size_bytes;
  created_at = j.created_at;
  error = j.error;
}

-- The data are none if they are no JSON of a job.
unfoldable pub decode_job : Option StoredJob → String → ℕ → Job × Bool
decode_job none id now = (synthesized id now "" unreadable, false)
decode_job (some j) id now =
    if not (str_eq j.id id) || (j.created_at == 0)
    then (synthesized id now "" unreadable, false)
    else elim j.status [
      | none ↦ (synthesized id j.created_at j.title unreadable, false)
      | some s ↦ (stored_job j s, true)
    ]

-- What `os.Stat` answers for the video: no such file, another error, or a file.
pub data VideoStat : Type 0 where
  absent : VideoStat
  stat_error : VideoStat
  present : Bool → ℕ → VideoStat

pub data Loaded : Type 0 where
  no_record : Loaded
  load_error : Loaded
  loaded_job : Job → Loaded

-- The check of a ready job's file in `Load`.
unfoldable pub check_video : Job → String → VideoStat → Loaded
check_video j id absent = loaded_job (synthesized id j.created_at j.title file_missing)
check_video j id stat_error = load_error
check_video j id (present is_regular size) =
    if not is_regular || (size == 0)
    then loaded_job (synthesized id j.created_at j.title file_missing)
    else loaded_job j

abbrev pub is_ready_status : Status → Bool
is_ready_status ready = true
is_ready_status _ = false

unfoldable pub load_decoded : Job × Bool → String → VideoStat → Loaded
unfolding check_video
load_decoded (j, valid) id video =
    if not valid
    then loaded_job j
    else if is_ready_status j.status
    then check_video j id video
    else loaded_job j

module _ (valid_id : String → Bool) where
  unfoldable pub load_job : String → ℕ → StateFile StoredJob → VideoStat → Loaded
  unfolding load_decoded decode_job
  load_job id now file video = if not (valid_id id) then no_record else elim file [
    | missing ↦ no_record
    | read_error ↦ load_error
    | malformed ↦ load_decoded (decode_job none id now) id video
    | content j ↦ load_decoded (decode_job (some j) id now) id video
  ]

  -- An entry of the directory of videos, with the metadata.json inside.
  pub record DirEntry : Type 0 where
    pub name : String
    pub is_dir : Bool
    pub metadata : StateFile StoredJob

  -- The body of the loop in `Scan` for a job directory; none is an error.
  unfoldable pub scan_entry : DirEntry → ℕ → Option Job
  unfolding decode_job
  scan_entry e now = elim e.metadata [
    | missing ↦ some (synthesized e.name now "" unreadable)
    | read_error ↦ none
    | malformed ↦ some (decode_job none e.name now).0
    | content j ↦ some (decode_job (some j) e.name now).0
  ]

  abbrev pub is_job_dir : DirEntry → Bool
  is_job_dir e = e.is_dir && valid_id e.name

  unfoldable pub prepend : Option Job → Option (List Job) → Option (List Job)
  prepend none jobs = none
  prepend (some j) none = none
  prepend (some j) (some jobs) = some (j ∷ jobs)

  -- The loop in `Scan`.
  unfoldable pub scan_entries : ℕ → List DirEntry → Option (List Job)
  unfolding scan_entry prepend
  scan_entries now [] = some []
  scan_entries now (e ∷ entries) =
      let rest = scan_entries now entries in
      if not (is_job_dir e) then rest else prepend (scan_entry e now) rest

-- The loop in `Total`, over the scanned jobs.
unfoldable pub total_size : (String → Option ℕ) → List Job → ℕ
total_size video_size [] = 0
total_size video_size (j ∷ jobs) =
    let rest = total_size video_size jobs in
    if is_ready_status j.status
    then elim (video_size j.id) [ none ↦ rest | some size ↦ size + rest ]
    else rest
