-- ===== src/Http/Created.antt =====
-- Jobs end to end (internal/app/http.go): what a request that creates a job makes visible.
use personal_yt_downloader.Common.{
  ℕ, ◌≡◌, refl, String, Bool, true, false, Option, none, some, inl, inr, Option-cases, Bool-cases,
  lookup, lookup-put, eq_refl, arith, ◌≢◌, if◌then◌else◌,
}
use personal_yt_downloader.Model.{JobView, AppError}
use personal_yt_downloader.Manager.State.{
  Manager, requeue_locked, with_cancel, next_seq_locked, cancel,
}
use personal_yt_downloader.Manager.Requests.{
  SaveAnswer, written, unwritten, unsynced, SubmitTurn, accepted, get, submit_new, submit_requeued,
  submit_existing, submit_turn, wait_for, refused,
}
use personal_yt_downloader.Http.Guards.{Body, parse_body}
use personal_yt_downloader.Http.Jobs.{
  job, submitted, submit_error, create_job, handle_create_job, handle_get_job,
}

submit_new-get :
    (m : Manager) (id : String) (now : ℕ) (answer : SaveAnswer) (v : JobView) (dup : Bool)
    → (submit_new m id now answer).1 ≡ accepted v dup
    → get (submit_new m id now answer).0 id ≡ some v
unfolding submit_new get cancel with_cancel next_seq_locked
submit_new-get m id now written v dup h =
    ground (arith, lookup-put id id m.next_ref m.jobs, eq_refl id)
submit_new-get m id now unwritten v dup h = ground arith
submit_new-get m id now unsynced v dup h = ground arith

requeue-jobs : (m : Manager) (r : ℕ) → (requeue_locked m r).0.jobs ≡ m.jobs
unfolding requeue_locked next_seq_locked cancel with_cancel
requeue-jobs m r = ground arith

requeued-get :
    (m : Manager) (id : String) (r : ℕ) (v : JobView) (dup : Bool)
    (after : Manager × Option AppError)
    → lookup id after.0.jobs ≡ some r
    → (submit_requeued r after).1 ≡ accepted v dup
    → get (submit_requeued r after).0 id ≡ some v
unfolding submit_requeued get
requeued-get m id r v dup (m', none) found h = ground (arith, found, h)
requeued-get m id r v dup (m', some e) found h = absurd (ground (arith, h))

submit_existing-get :
    (m : Manager) (id : String) (r : ℕ) (v : JobView) (dup : Bool)
    → lookup id m.jobs ≡ some r
    → (submit_existing m r).1 ≡ accepted v dup
    → get (submit_existing m r).0 id ≡ some v
unfolding submit_existing get
submit_existing-get m id r v dup found h =
    ground (arith, found, h, requeue-jobs m r, requeued-get m id r v dup (requeue_locked m r))

submit_turn-get :
    (m : Manager) (id : String) (now : ℕ) (answer : SaveAnswer) (v : JobView) (dup : Bool)
    → (submit_turn m id now answer).1 ≡ accepted v dup
    → get (submit_turn m id now answer).0 id ≡ some v
unfolding submit_turn
submit_turn-get m id now answer v dup h = elim (Bool-cases m.closing) [
  | inl closing ↦ absurd (ground (arith, h, closing))
  | inr running ↦ elim (Option-cases (lookup id m.jobs)) [
    | inl missing ↦
        rw (running, missing)
          (submit_new-get m id now answer v dup (ground (arith, h, running, missing)))
    | inr (r, found) ↦
        rw (running, found)
          (submit_existing-get m id r v dup found (ground (arith, h, running, found)))
  ]
]

submit_error-job : (e : AppError) (code : ℕ) (v : JobView) → submit_error e ≢ job code v
unfolding submit_error
submit_error-job e code v h = ground (arith, h)

submitted_job :
    (turn : SubmitTurn) (code : ℕ) (v : JobView)
    → submitted turn ≡ some (job code v)
    → (dup : Bool) × (turn ≡ accepted v dup) × (code ≡ (if dup then 200 else 202))
unfolding submitted
submitted_job (wait_for att) code v h = absurd (ground (arith, h))
submitted_job (accepted w true) code v h = (true, ground (arith, h), ground (arith, h))
submitted_job (accepted w false) code v h = (false, ground (arith, h), ground (arith, h))
submitted_job (refused e) code v h = absurd (ground (arith, h, submit_error-job e code v))

create_job-get :
    (m : Manager) (video : Option String) (now : ℕ) (answer : SaveAnswer) (code : ℕ) (v : JobView)
    → (create_job m video now answer).1 ≡ some (job code v)
    → (id : String) × (video ≡ some id) × (get (create_job m video now answer).0 id ≡ some v)
unfolding create_job
create_job-get m none now answer code v h = absurd (ground (arith, h))
create_job-get m (some id) now answer code v h =
    let (dup, turn, same) = submitted_job (submit_turn m id now answer).1 code v h in
    (id, refl, submit_turn-get m id now answer v dup turn)

module _ (valid_id : String → Bool) (hash_token : String → String)
    (video_id : String → Option String) where
  -- If VideoID answers only IDs that match idPattern, then after a request to create a job that is
  -- answered with a job, for a body from which parseBody gives a URL, the ID that VideoID makes of
  -- that URL is answered with the same view when the job is asked for.
  pub handle_get_job-handle_create_job :
      (m : Manager) (body : Body) (now : ℕ) (answer : SaveAnswer) (code : ℕ) (v : JobView)
      → ((text id : String) → video_id text ≡ some id → valid_id id ≡ true)
      → (handle_create_job video_id m body now answer).1.1 ≡ some (job code v)
      → (text : String) × (id : String) × ((parse_body body).1 ≡ some text)
        × (video_id text ≡ some id)
        × (handle_get_job valid_id hash_token (handle_create_job video_id m body now answer).0 id
            ≡ job 200 v)
  unfolding handle_create_job handle_get_job
  handle_get_job-handle_create_job m body now answer code v named h =
      elim (Option-cases (parse_body body).1) [
        | inl none_read ↦ absurd (ground (arith, h, none_read))
        | inr (text, read) ↦
            let (id, is_id, shown) =
              create_job-get m (video_id text) now answer code v (ground (arith, h, read)) in
            (text, id, read, is_id, ground (arith, read, shown, named text id is_id))
      ]
