-- ===== src/Http/Jobs.antt =====
-- The handlers of internal/app/http.go for jobs and files.
-- `valid_id` is the match with idPattern. A response is its status code with what it carries; the
-- bodies of errors are left out.
use personal_yt_downloader.Common.{
  ℕ, String, Bool, true, false, ◌||◌, not, Option, none, some, ◌==◌, if◌then◌else◌,
}
use personal_yt_downloader.StateFile.{WriteResults}
use personal_yt_downloader.Http.Guards.{Body, parse_body}
use personal_yt_downloader.Model.{ready, AppError, not_found, busy, closed, conflict, JobView}
use personal_yt_downloader.Links.{LinkStore, issue, lookup_link, revoke}
use personal_yt_downloader.Manager.State.{Manager}
use personal_yt_downloader.Manager.Requests.{
  SubmitTurn, SaveAnswer, wait_for, accepted, refused, submit_turn, retry, get,
}

-- `busy_error` has a Retry-After header of 10 seconds. `shares` carries the token of the link and
-- its expiry, and `serves` the video whose file is streamed under the view's title.
pub data Response : Type 0 where
  error : ℕ → Response
  busy_error : Response
  job : ℕ → JobView → Response
  done : Response
  shares : String → ℕ → Response
  serves : String → JobView → Response

abbrev pub is_ready_view : JobView → Bool
is_ready_view v = elim v.status [ ready ↦ true | _ ↦ false ]

unfoldable pub submit_error : AppError → Response
submit_error busy = busy_error
submit_error closed = error 503
submit_error conflict = error 409
submit_error _ = error 507

-- The answer to a turn of Submit; none while Submit waits.
unfoldable pub submitted : SubmitTurn → Option Response
unfolding submit_error
submitted (wait_for att) = none
submitted (accepted v true) = some (job 200 v)
submitted (accepted v false) = some (job 202 v)
submitted (refused e) = some (submit_error e)

-- The part of `handleCreateJob` after `VideoID`.
unfoldable pub create_job : Manager → Option String → ℕ → SaveAnswer → Manager × Option Response
unfolding submitted
create_job m none now answer = (m, some (error 400))
create_job m (some id) now answer =
    let (m', turn) = submit_turn m id now answer in (m', submitted turn)

-- The manager, the error that `parseBody` has already written, and the answer that follows it: none
-- if `parseBody` reports an error, and while Submit waits. `video_id` is `VideoID`.
unfoldable pub handle_create_job :
    (String → Option String)
    → Manager
    → Body
    → ℕ
    → SaveAnswer
    → Manager × (Option ℕ × Option Response)
unfolding create_job parse_body
handle_create_job video_id m body now answer =
    let (written, url) = parse_body body in
    elim url [
      | none ↦ (m, (written, none))
      | some text ↦
          let (m', response) = create_job m (video_id text) now answer in (m', (written, response))
    ]

-- The error of `Delete`, or none.
unfoldable pub delete_error : AppError → Response
delete_error not_found = error 404
delete_error _ = error 500

module _ (valid_id : String → Bool) (hash_token : String → String) where
  unfoldable pub handle_get_job : Manager → String → Response
  handle_get_job m id =
      if not (valid_id id)
      then error 400
      else elim (get m id) [ none ↦ error 404 | some v ↦ job 200 v ]

  unfoldable pub retry_error : AppError → Response
  unfolding submit_error
  retry_error not_found = error 404
  retry_error e = submit_error e

  -- The end of `handleRetryJob`. (Retry answers an error or a view.)
  unfoldable pub retried :
      LinkStore
      → String
      → WriteResults
      → Manager × (Option AppError × Option JobView)
      → (Manager × LinkStore) × Response
  unfolding retry_error
  retried links id io (m, (some e, v)) = ((m, links), retry_error e)
  retried links id io (m, (none, none)) = ((m, revoke links id io), done)
  retried links id io (m, (none, some v)) = ((m, revoke links id io), job 200 v)

  unfoldable pub handle_retry_job :
      Manager → LinkStore → String → WriteResults → (Manager × LinkStore) × Response
  unfolding retried
  handle_retry_job m links id io =
      if not (valid_id id) then ((m, links), error 400) else retried links id io (retry m id)

  -- `deleted` is what `Delete` returns in the end.
  unfoldable pub handle_delete_job :
      LinkStore → String → Option AppError → WriteResults → LinkStore × Response
  unfolding delete_error
  handle_delete_job links id deleted io =
      if not (valid_id id)
      then (links, error 400)
      else elim deleted [ some e ↦ (links, delete_error e) | none ↦ (revoke links id io, done) ]

  -- The part of `handleShareLink` once the job is found.
  unfoldable pub share :
      LinkStore → JobView → String → ℕ → String → WriteResults → WriteResults → LinkStore × Response
  share links v id now token prune_io io =
      if not (is_ready_view v)
      then (links, error 409)
      else let (links', issued) = issue hash_token links now id v.created_at token prune_io io in
        (links', elim issued [ none ↦ error 500 | some (t, expires) ↦ shares t expires ])

  unfoldable pub handle_share_link :
      Manager → LinkStore → String → ℕ → String → WriteResults → WriteResults → LinkStore × Response
  unfolding share
  handle_share_link m links id now token prune_io io =
      if not (valid_id id) then (links, error 400) else elim (get m id) [
        | none ↦ (links, error 404)
        | some v ↦ share links v id now token prune_io io
      ]

  -- `serveMedia`: whether `OpenVideo` opens the file is an argument.
  unfoldable pub serve_media : String → JobView → Bool → Response
  serve_media id v opened = if opened then serves id v else error 404

  unfoldable pub handle_download : Manager → String → Bool → Response
  unfolding serve_media
  handle_download m id opened = if not (valid_id id) then error 400 else elim (get m id) [
    | none ↦ error 404
    | some v ↦ if not (is_ready_view v) then error 409 else serve_media id v opened
  ]

  -- The part of `handlePublicMedia` once the link is found.
  unfoldable pub open_link : Manager → String → ℕ → Bool → Response
  unfolding serve_media
  open_link m id created_at opened = elim (get m id) [
    | none ↦ error 404
    | some v ↦
        if not (is_ready_view v) || not (v.created_at == created_at)
        then error 404
        else serve_media id v opened
  ]

  unfoldable pub handle_public_media : Manager → LinkStore → String → ℕ → Bool → Response
  unfolding open_link
  handle_public_media m links token now opened = elim (lookup_link hash_token links token now) [
    | none ↦ error 404
    | some (id, created_at) ↦ open_link m id created_at opened
  ]
