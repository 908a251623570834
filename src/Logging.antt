-- ===== src/Logging.antt =====
-- categorize, responseLog and requestLogging of internal/app/logging.go. A path is a list of bytes.
pub mod Routes
pub mod Responses
use personal_yt_downloader.Common.{
  ℕ, ◌+◌, ◌%◌, ◌^◌, Bool, true, false, ◌&&◌, ◌||◌, not, Option, none, some, List, [], ◌∷◌, ◌++◌,
  leb, ◌==◌, if◌then◌else◌,
}
use personal_yt_downloader.Common.Text.{Text, codes, text_eq, has_prefix, split}
use personal_yt_downloader.VideoUrl.{matches_id_pattern}

abbrev unknown : Text × Text
unknown = (codes "unknown", [])

abbrev pub is_action : Text → Bool
is_action piece =
    text_eq piece (codes "retry")
    || text_eq piece (codes "link")
    || text_eq piece (codes "download")

abbrev pub is_job_path : Text → Text → Text → Bool
is_job_path api jobs id =
    text_eq api (codes "api") && text_eq jobs (codes "jobs") && matches_id_pattern id

-- The route and the job ID of a path by its pieces.
unfoldable pub categorize_pieces : List Text → Text × Text
categorize_pieces (root ∷ api ∷ jobs ∷ id ∷ []) =
    if is_job_path api jobs id then (codes "/api/jobs/{id}", id) else unknown
categorize_pieces (root ∷ api ∷ jobs ∷ id ∷ action ∷ []) =
    if is_job_path api jobs id && is_action action
    then (codes "/api/jobs/{id}/" ++ action, id)
    else unknown
categorize_pieces _ = unknown

unfoldable pub is_plain_route : Text → Bool
is_plain_route path =
    text_eq path (codes "/healthz")
    || text_eq path (codes "/api/login")
    || text_eq path (codes "/api/session")
    || text_eq path (codes "/api/logout")
    || text_eq path (codes "/api/jobs")
    || text_eq path (codes "/")

unfoldable pub categorize : Text → Text × Text
unfolding categorize_pieces is_plain_route
categorize path =
    if is_plain_route path
    then (path, [])
    else if has_prefix path (codes "/assets/")
    then (codes "/assets", [])
    else if has_prefix path (codes "/m/")
    then (codes "/m/{token}", [])
    else categorize_pieces (split b'/' path)

-- The method that is logged.
unfoldable pub logged_method : Text → Text
logged_method method =
    if text_eq method (codes "GET")
      || text_eq method (codes "HEAD")
      || text_eq method (codes "POST")
      || text_eq method (codes "PUT")
      || text_eq method (codes "PATCH")
      || text_eq method (codes "DELETE")
      || text_eq method (codes "OPTIONS")
    then method
    else codes "OTHER"

-- `bytes` is the int64, as its 64 bits. `forwarded` are the calls of WriteHeader that reach the
-- writer below.
pub record ResponseLog : Type 0 where
  pub status : ℕ
  pub bytes : ℕ
  pub write_failed : Bool
  pub forwarded : List ℕ

abbrev pub fresh : ResponseLog
fresh = record { status = 0; bytes = 0; write_failed = false; forwarded = [] }

unfoldable pub write_header : ResponseLog → ℕ → ResponseLog
write_header w status =
    if w.status == 0
    then record {
      status = status;
      bytes = w.bytes;
      write_failed = w.write_failed;
      forwarded = w.forwarded ++ status ∷ [];
    }
    else w

abbrev pub with_header : ResponseLog → ResponseLog
with_header w = if w.status == 0 then write_header w 200 else w

-- A Write that the writer below answers with `n` bytes and perhaps an error.
unfoldable pub write : ResponseLog → ℕ → Bool → ResponseLog
unfolding write_header
write w n failed =
    let v = with_header w in
    record {
      status = v.status;
      bytes = (v.bytes + n) % 2 ^ 64;
      write_failed = v.write_failed || failed;
      forwarded = v.forwarded;
    }

-- What a handler does to its response.
pub data Call : Type 0 where
  sets_header : ℕ → Call
  writes : ℕ → Bool → Call

unfoldable pub call : ResponseLog → Call → ResponseLog
unfolding write_header write
call w (sets_header status) = write_header w status
call w (writes n failed) = write w n failed

unfoldable pub calls : ResponseLog → List Call → ResponseLog
unfolding call
calls w [] = w
calls w (c ∷ cs) = calls (call w c) cs

pub data Level : Type 0 where
  info warn : Level

-- The attributes that both lines have, and those of the second.
pub record Attributes : Type 0 where
  pub method : Text
  pub route : Text
  pub job_id : Text

pub data Line : Type 0 where
  request_started : Attributes → Line
  request_completed : Level → Attributes → ℕ → ℕ → Bool → Line

unfoldable pub completion : Bool → Attributes → ResponseLog → List Line
completion quiet attrs tracked =
    let status = if tracked.status == 0 then 200 else tracked.status in
    if leb 400 status || tracked.write_failed
    then request_completed warn attrs status tracked.bytes tracked.write_failed ∷ []
    else if not quiet
    then request_completed info attrs status tracked.bytes tracked.write_failed ∷ []
    else []

-- The lines of one request, whose handler makes the given calls.
unfoldable pub request_logging : Text → Text → List Call → List Line
unfolding categorize logged_method calls completion
request_logging method path cs =
    let (route, job_id) = categorize path in
    let attrs : Attributes = record {
      method = logged_method method;
      route = route;
      job_id = job_id;
    } in
    let quiet = text_eq route (codes "/healthz") in
    (if not quiet then request_started attrs ∷ [] else [])
    ++ completion quiet attrs (calls fresh cs)
