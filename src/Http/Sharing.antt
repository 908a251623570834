-- ===== src/Http/Sharing.antt =====
-- Share links end to end (internal/app/http.go): who is served which video through them.
use personal_yt_downloader.Common.{
  ℕ, ◌<◌, ◌≡◌, ◌≢◌, ◌↔◌, ◌+◌, refl, String, Bool, true, Option, none, some, arith, sym, false, ◌⊎◌,
}
use personal_yt_downloader.StateFile.{WriteResults}
use personal_yt_downloader.Model.{JobView, AppError}
use personal_yt_downloader.Links.{LinkStore, link_ttl, issue, insert_link, lookup_link, revoke}
use personal_yt_downloader.Links.Access.{lookup_link-issue}
use personal_yt_downloader.Links.Forgotten.{
  Forgets, Run, filed_links_of, lookup_link-Forgets, revoke-Forgets, Run-Forgets,
}
use personal_yt_downloader.Manager.State.{Manager}
use personal_yt_downloader.Manager.Requests.{get, retry}
use personal_yt_downloader.Http.Jobs.{
  job, done, handle_delete_job, delete_error, shares, serves, is_ready_view, retried, retry_error,
  submit_error, handle_retry_job, share, handle_share_link, serve_media, open_link,
  handle_public_media,
}

module _ (valid_id : String → Bool) (hash_token : String → String) where
  -- A public request is served a video exactly when the file opens and there is a live link of its
  -- token to that video, whose job is registered, ready, and of the run that the link was issued
  -- for.
  pub handle_public_media_iff :
      (m : Manager) (links : LinkStore) (token : String) (now : ℕ) (opened : Bool) (id : String)
      (v : JobView)
      → (handle_public_media valid_id hash_token m links token now opened ≡ serves id v) ↔ (
          (opened ≡ true)
          × (lookup_link hash_token links token now ≡ some (id, v.created_at))
          × (get m id ≡ some v)
          × (is_ready_view v ≡ true))
  unfolding handle_public_media open_link serve_media
  handle_public_media_iff m links token now opened id v = ground arith

  issue_token :
      (links : LinkStore) (now : ℕ) (id : String) (created_at : ℕ) (token t : String) (expires : ℕ)
      (prune_io io : WriteResults)
      → (issue hash_token links now id created_at token prune_io io).1 ≡ some (t, expires)
      → t ≡ token
  unfolding issue insert_link
  issue_token links now id created_at token t expires prune_io io h = ground (arith, h)

  -- The token that handleShareLink answers, drawn not empty, opens the video for twenty four hours,
  -- at any manager where its job is ready and has still the creation time that it had when the link
  -- was issued, if the file opens.
  pub handle_public_media-handle_share_link :
      (m m' : Manager) (links : LinkStore) (id : String) (now later : ℕ) (token t : String)
      (expires : ℕ) (prune_io io : WriteResults) (v v' : JobView)
      → token ≢ ""
      → get m id ≡ some v
      → (handle_share_link valid_id hash_token m links id now token prune_io io).1
        ≡ shares t expires
      → later < now + link_ttl
      → get m' id ≡ some v'
      → is_ready_view v' ≡ true
      → v'.created_at ≡ v.created_at
      → handle_public_media valid_id hash_token m'
          (handle_share_link valid_id hash_token m links id now token prune_io io).0
          t
          later
          true
        ≡ serves id v'
  unfolding handle_share_link share
  handle_public_media-handle_share_link m m' links id now later token t expires prune_io io v v'
        named found shared soon found' ready' same =
      let issued : (issue hash_token links now id v.created_at token prune_io io).1
          ≡ some (t, expires) =
        ground (arith, found, shared) in
      let is_token = issue_token links now id v.created_at token t expires prune_io io issued in
      let opens =
        lookup_link-issue hash_token links now later id v.created_at token prune_io io named
          (ground (arith, issued)) in
      (handle_public_media_iff m'
          (handle_share_link valid_id hash_token m links id now token prune_io io).0 t later true id
          v').1
        (refl, ground (arith, found, shared, opens, is_token, same), found', ready')

  -- No token opens the video in a store that holds no link of it.
  media-Forgets :
      (m : Manager) (links : LinkStore) (id token : String) (now : ℕ) (opened restarts : Bool)
      (v : JobView)
      → Forgets restarts id links
      → handle_public_media valid_id hash_token m links token now opened ≢ serves id v
  media-Forgets m links id token now opened restarts v none_left e =
      lookup_link-Forgets restarts id hash_token links token now v.created_at none_left
        (ground (arith, (handle_public_media_iff m links token now opened id v).0 e))

  submit_error-job : (e : AppError) (code : ℕ) (v : JobView) → submit_error e ≢ job code v
  unfolding submit_error
  submit_error-job e code v h = ground (arith, h)

  retried_revokes :
      (links : LinkStore) (id : String) (io : WriteResults)
      (r : Manager × (Option AppError × Option JobView)) (v : JobView)
      → (retried valid_id hash_token links id io r).1 ≡ job 200 v
      → (retried valid_id hash_token links id io r).0.1 ≡ revoke links id io
  unfolding retried retry_error
  retried_revokes links id io (m, (some e, u)) v h = ground (arith, h, submit_error-job e 200 v)
  retried_revokes links id io (m, (none, none)) v h = refl
  retried_revokes links id io (m, (none, some u)) v h = refl

  -- After a retry that is answered with the job, no token opens the video, at any manager, after
  -- any number of issues for other videos, prunings, revocations and, if the file that the retry
  -- leaves holds no link of the video, restarts.
  pub handle_retry_job-revokes :
      (m m' : Manager) (links after : LinkStore) (id token : String) (later : ℕ) (io : WriteResults)
      (opened restarts : Bool) (v v' : JobView)
      → (handle_retry_job valid_id hash_token m links id io).1 ≡ job 200 v
      → (restarts ≡ false)
        ⊎ (filed_links_of id (handle_retry_job valid_id hash_token m links id io).0.1.file ≡ 0)
      → Run hash_token restarts id (handle_retry_job valid_id hash_token m links id io).0.1 after
      → handle_public_media valid_id hash_token m' after token later opened ≢ serves id v'
  unfolding handle_retry_job
  handle_retry_job-revokes m m' links after id token later io opened restarts v v' h filed run =
      let revoked : (handle_retry_job valid_id hash_token m links id io).0.1 ≡ revoke links id io =
        ground (arith, h, retried_revokes links id io (retry m id) v) in
      media-Forgets m' after id token later opened restarts v' (
        Run-Forgets restarts id hash_token run
          (rw revoked (revoke-Forgets restarts links id io (rw (sym revoked) filed))))

  -- After a deletion that is answered as done, no token opens the video, at any manager, after any
  -- number of issues for other videos, prunings, revocations and, if the file that the deletion
  -- leaves holds no link of the video, restarts.
  pub handle_delete_job-revokes :
      (m' : Manager) (links after : LinkStore) (id token : String) (later : ℕ)
      (deleted : Option AppError) (io : WriteResults) (opened restarts : Bool) (v' : JobView)
      → (handle_delete_job valid_id hash_token links id deleted io).1 ≡ done
      → (restarts ≡ false)
        ⊎ (filed_links_of id (handle_delete_job valid_id hash_token links id deleted io).0.file ≡ 0)
      → Run hash_token restarts id
          (handle_delete_job valid_id hash_token links id deleted io).0
          after
      → handle_public_media valid_id hash_token m' after token later opened ≢ serves id v'
  unfolding handle_delete_job delete_error
  handle_delete_job-revokes m' links after id token later deleted io opened restarts v' h filed
        run =
      let revoked : (handle_delete_job valid_id hash_token links id deleted io).0
          ≡ revoke links id io =
        ground (arith, h) in
      media-Forgets m' after id token later opened restarts v' (
        Run-Forgets restarts id hash_token run
          (rw revoked (revoke-Forgets restarts links id io (rw (sym revoked) filed))))
