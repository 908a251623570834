-- ===== src/Tests/Sharing.antt =====
-- A ready video, shared, served, and taken back.
use personal_yt_downloader.Common.{
  ◌+◌, ◌≡◌, ◌≢◌, ◌↔◌, refl, String, Bool, true, none, some, [], ◌∷◌, eq_iff, lookup, put, delete,
  retain, arith, inr, false, ℕ, Option,
}
use personal_yt_downloader.Common.Int.{pos, whole}
use personal_yt_downloader.StateFile.{missing, content, all_succeed, persist_value, write_file_sync}
use personal_yt_downloader.Model.{
  Job, JobView, ready, named, view, clamp_percent, unfinished, is_unfinished,
}
use personal_yt_downloader.Links.{
  LinkEntry, LinkStore, persist_locked, any_dropped, sweep, prune_locked, revoke, oldest_link,
  evict_oldest, insert_link, issue, lookup_link, link_ttl, load, load_links,
}
use personal_yt_downloader.Links.Forgotten.{Run, stays, goes, issues, starts}
use personal_yt_downloader.Manager.State.{
  Manager, view_locked, stage_shown, requeue_locked, requeued, unfinished_locked, next_seq_locked,
  with_cancel, cancel,
}
use personal_yt_downloader.Manager.Requests.{
  new_job_state, get, retry, retry_requeued, written, submit_turn, submit_new, submit_existing,
}
use personal_yt_downloader.Manager.Recover.{new_manager, recover_all, recover_one, recovered_job}
use personal_yt_downloader.Http.Jobs.{
  serves, is_ready_view, retried, handle_retry_job, handle_delete_job, share, handle_share_link,
  serve_media, open_link, handle_public_media, create_job, handle_create_job, handle_get_job,
  submitted, job, Response,
}
use personal_yt_downloader.Http.Sharing.{
  handle_public_media_iff, handle_public_media-handle_share_link, handle_retry_job-revokes,
  handle_delete_job-revokes,
}
use personal_yt_downloader.Http.Created.{handle_get_job-handle_create_job}
use personal_yt_downloader.Http.Guards.{decoded, parse_body}

program : Unit {0}
unfolding lookup put delete retain persist_value write_file_sync view clamp_percent unfinished
    is_unfinished persist_locked any_dropped sweep prune_locked revoke oldest_link evict_oldest
    insert_link issue lookup_link load load_links view_locked stage_shown requeue_locked requeued
    unfinished_locked next_seq_locked with_cancel cancel new_job_state get retry retry_requeued
    new_manager recover_all recover_one recovered_job retried handle_retry_job handle_delete_job
    share handle_share_link serve_media open_link handle_public_media create_job handle_create_job
    submitted submit_turn submit_new submit_existing parse_body
program = tt

abbrev stored : Job
stored = record {
  id = "r";
  title = "t";
  duration_sec = pos 5;
  status = ready;
  size_bytes = 70;
  created_at = 2;
  error = "";
}

-- A manager that recovered one ready video, and one that found its file missing.
abbrev with_video : Manager
with_video = recover_all (new_manager (λ k. none)) (λ k. some 70) (stored ∷ [])

abbrev without_file : Manager
without_file = recover_all (new_manager (λ k. none)) (λ k. none) (stored ∷ [])

abbrev shown : JobView
shown = record {
  id = "r";
  title = "t";
  status = ready;
  stage = named ready;
  progress = some (whole 100);
  size_bytes = 70;
  created_at = 2;
  error = "";
}

abbrev plain : String → String
plain token = token

abbrev any_id : String → Bool
any_id id = true

abbrev no_links : LinkStore
no_links = record { file = missing; links = [] }

abbrev entry : LinkEntry
entry = record {
  token_hash = "a";
  video_id = "r";
  job_created_at = 2;
  created_at = 4;
  expires_at = 50;
}

abbrev links : LinkStore
links = record { file = missing; links = ("a", entry) ∷ [] }

handle_public_media_iff_example :
    (handle_public_media any_id plain with_video links "a" 9 true ≡ serves "r" shown) ↔ (
      (true ≡ true)
      × (lookup_link plain links "a" 9 ≡ some ("r", 2))
      × (get with_video "r" ≡ some shown)
      × (is_ready_view shown ≡ true))
handle_public_media_iff_example =
    handle_public_media_iff any_id plain with_video links "a" 9 true "r" shown

handle_public_media-handle_share_link_example :
    handle_public_media any_id plain with_video
      (handle_share_link any_id plain with_video no_links "r" 9 "b" all_succeed all_succeed).0
      "b"
      10
      true
    ≡ serves "r" shown
unfolding program
handle_public_media-handle_share_link_example =
    handle_public_media-handle_share_link any_id plain with_video with_video no_links "r" 9 10 "b"
      "b" (9 + link_ttl) all_succeed all_succeed shown shown (ground (arith, eq_iff "b" "")) refl
      refl (omega arith) refl refl refl

abbrev again : JobView
again = view_locked ((retry without_file "r").0.heap 0)

-- After the handler a link of another video is issued, and then the process restarts.
abbrev later_links : LinkStore → LinkStore
later_links s =
    (load (record (issue plain s 10 "q" 3 "z" all_succeed all_succeed).0 { links = [] }) 11).0

later-Run : (s : LinkStore) → Run plain true "r" s (later_links s)
later-Run s =
    goes (goes stays (issues 10 "q" 3 "z" all_succeed all_succeed (ground (arith, eq_iff "q" "r"))))
      (starts 11 refl)

handle_delete_job-revokes_example :
    handle_public_media any_id plain with_video
      (later_links (handle_delete_job any_id plain links "r" none all_succeed).0)
      "a"
      12
      true
    ≢ serves "r" shown
unfolding program
handle_delete_job-revokes_example =
    handle_delete_job-revokes any_id plain with_video links
      (later_links (handle_delete_job any_id plain links "r" none all_succeed).0) "r" "a" 12 none
      all_succeed true true shown refl (inr refl)
      (later-Run (handle_delete_job any_id plain links "r" none all_succeed).0)

handle_retry_job-revokes_example :
    handle_public_media any_id plain with_video
      (later_links (handle_retry_job any_id plain without_file links "r" all_succeed).0.1)
      "a"
      12
      true
    ≢ serves "r" shown
unfolding program
handle_retry_job-revokes_example =
    handle_retry_job-revokes any_id plain without_file with_video links
      (later_links (handle_retry_job any_id plain without_file links "r" all_succeed).0.1) "r" "a"
      12 all_succeed true true again shown refl (inr refl)
      (later-Run (handle_retry_job any_id plain without_file links "r" all_succeed).0.1)

-- If the write of the revocation fails, the link is live again after a restart.
abbrev filed_links : LinkStore
filed_links = record links { file = content (entry ∷ []) }

abbrev unwritten_links : LinkStore
unwritten_links =
    (handle_retry_job any_id plain without_file filed_links "r"
      (record all_succeed { rename = false })).0.1

link_returns :
    handle_public_media any_id plain with_video
      (load (record unwritten_links { links = [] }) 9).0
      "a"
      9
      true
    ≡ serves "r" shown
unfolding program
link_returns = refl

-- Every URL names the video "q".
abbrev named_q : String → Option String
named_q url = some "q"

abbrev creation : Manager × (Option ℕ × Option Response)
creation = handle_create_job named_q with_video (decoded "u") 9 written

abbrev created : JobView
created = view_locked (creation.0.heap 1)

answered : creation.1 ≡ (none, some (job 202 created))
unfolding program
answered = refl

handle_get_job-handle_create_job_example :
    (text : String) × (id : String) × ((parse_body (decoded "u")).1 ≡ some text)
    × (named_q text ≡ some id)
    × (handle_get_job any_id plain creation.0 id ≡ job 200 created)
unfolding program
handle_get_job-handle_create_job_example =
    handle_get_job-handle_create_job any_id plain named_q with_video (decoded "u") 9 written 202
      created (λ text id h. refl) refl
