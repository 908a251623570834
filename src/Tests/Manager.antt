-- ===== src/Tests/Manager.antt =====
-- A short history of the manager: a restart, a submission, and its deletion.
use personal_yt_downloader.Common.{
  ℕ, ◌+◌, ◌≡◌, refl, ◌≢◌, ◌⊎◌, String, true, false, ◌&&◌, not, Option, none, some, List, [], ◌∷◌,
  if◌then◌else◌, str_eq, lookup, put, delete, arith, ◌==◌,
}
use personal_yt_downloader.Common.Int.{pos}
use personal_yt_downloader.Model.{Job, ready, unfinished, is_unfinished}
use personal_yt_downloader.Manager.State.{
  is_current, unfinished_locked, next_seq_locked, with_cancel, cancel, update, write,
}
use personal_yt_downloader.Manager.Requests.{
  new_job_state, submit_new, submit_existing, submit_turn, written, begin_removal, delete_job,
  is_running,
}
use personal_yt_downloader.Manager.Workers.{
  finalize_check, save_snapshot, take_download, pick_queued_locked, pick_least, take_title,
  wants_title, wants_download, fetch_error, metadata,
}
use personal_yt_downloader.Manager.Protocol.{
  World, with_manager, after_delete, picked, owned, holds, one_if, submits, deletes, checks,
  snapshots, picks, Reach, here, next,
}
use personal_yt_downloader.Manager.Invariant.{Inv, is_due, has}
use personal_yt_downloader.Manager.Recover.{
  is_listed, new_manager, recover_all, recover_one, recovered_job, recover,
}
use personal_yt_downloader.Manager.Recover.Restart.{recovered, recovered-Inv, recovered_settled}
use personal_yt_downloader.Manager.Removal.{
  one_finalizer, removal_exclusive, no_metadata_unregistered, write_excludes_removal,
}
use personal_yt_downloader.Manager.Liveness.{Completes}
use personal_yt_downloader.Manager.Liveness.Owners.{removal-Completes}
use personal_yt_downloader.Manager.Admission.{Admits, submit_turn-Admits}
use personal_yt_downloader.Manager.Queue.{Takes, take-Takes}
use personal_yt_downloader.Manager.TitleFetch.{
  Answer, EndsAt, run_title_fetch, run_title_fetch-EndsAt,
}

program : Unit {0}
unfolding lookup put delete is_current unfinished_locked next_seq_locked with_cancel cancel
    new_job_state submit_new submit_existing submit_turn begin_removal delete_job finalize_check
    save_snapshot take_download pick_queued_locked pick_least new_manager recover_all recover_one
    recovered_job recover unfinished is_unfinished
program = tt

-- One ready video on disk, of 70 bytes.
abbrev stored : Job
stored = record {
  id = "r";
  title = "t";
  duration_sec = pos 5;
  status = ready;
  size_bytes = 70;
  created_at = 2;
  error = "";
}

abbrev disk : String → Option Job
disk k = if str_eq "r" k then some stored else none

abbrev sizes : String → Option ℕ
sizes k = some 70

abbrev scanned : List Job
scanned = stored ∷ []

listed : (k : String) → disk k ≢ none → is_listed k scanned ≡ true
listed k h = ground (arith, h)

abbrev start : World
start = recovered disk sizes scanned

abbrev submitted : World
submitted = with_manager start (submit_turn start.manager "v" 5 written).0

abbrev deleted : World
deleted = after_delete submitted (delete_job submitted.manager "v")

Reach-submitted : Reach start submitted
Reach-submitted = next here (submits "v" 5 written (λ e. ground (arith, e)))

Reach-deleted : Reach start deleted
Reach-deleted = next Reach-submitted (deletes "v")

recovered_settled_example :
    let m = (recover (new_manager disk) sizes (some scanned)).0 in
    (r : ℕ) × (lookup "r" m.jobs ≡ some r)
    × ((m.heap r).id ≡ "r")
    × (is_running (m.heap r).status ≡ false)
    × ((m.heap r).active ≡ false)
    × ((m.heap r).fetching ≡ false)
    × ((m.heap r).deleting ≡ false)
    × (((m.heap r).status ≢ ready)
        ⊎ ((sizes "r" ≡ some (m.heap r).size_bytes) × ((m.heap r).size_bytes ≢ 0)))
recovered_settled_example = recovered_settled disk sizes scanned "r" refl

one_finalizer_example :
    deleted.pending 1 + has (deleted.removing 1)
    ≡ one_if (
        is_due deleted.manager 1
        && not (deleted.manager.heap 1).active
        && not (deleted.manager.heap 1).fetching)
one_finalizer_example = one_finalizer disk sizes scanned listed deleted Reach-deleted 1

-- The address of its job.
abbrev submission : ℕ
submission = 1

abbrev removing : World
removing = record deleted {
  pending = update deleted.pending 1 0;
  removing = update deleted.removing 1 (some 0);
}

Reach-removing : Reach start removing
unfolding program
Reach-removing = next Reach-deleted (checks 1 0 0 refl refl refl refl)

removal_exclusive_example :
    (removing.manager.outcomes 0 ≡ none)
    × (is_due removing.manager 1 ≡ true)
    × (holds (owned removing.download) 1 ≡ 0)
    × (holds removing.first_title 1 + holds removing.second_title 1 ≡ 0)
    × (submission ≡ submission)
removal_exclusive_example =
    removal_exclusive disk sizes scanned listed removing Reach-removing 1 1 0 refl refl

no_metadata_unregistered_example : lookup "v" submitted.manager.jobs ≢ none
unfolding program
no_metadata_unregistered_example =
    no_metadata_unregistered disk sizes scanned listed submitted Reach-submitted "v"
      (λ e. ground (arith, e))

abbrev picking : World
picking = record submitted {
  manager = write submitted.manager 1 (record (submitted.manager.heap 1) { active = true });
  download = picked 1;
}

Reach-picking : Reach start picking
unfolding program
Reach-picking = next Reach-submitted (picks 1 picking.manager refl refl)

abbrev saving : World
saving = record picking { saving = update picking.saving 1 (some (picking.manager.heap 1).job) }

Reach-saving : Reach start saving
unfolding program
Reach-saving = next Reach-picking (snapshots 1 (picking.manager.heap 1).job refl refl refl)

write_excludes_removal_example :
    (saving.removing 1 ≡ none)
    × (is_current saving.manager 1 ≡ true)
    × (lookup (picking.manager.heap 1).id saving.manager.jobs ≡ some 1)
write_excludes_removal_example =
    write_excludes_removal disk sizes scanned listed saving Reach-saving 1
      (picking.manager.heap 1).job refl

abbrev start-Inv : Inv start
start-Inv = recovered-Inv disk sizes scanned listed

submit_turn-Admits_example : Admits start.manager (submit_turn start.manager "v" 5 written).0
submit_turn-Admits_example = submit_turn-Admits start start-Inv "v" 5 written

is_leaving : is_due deleted.manager 1 ≡ true
unfolding program
is_leaving = refl

removal-Completes_example :
    (att : ℕ) × ((deleted.manager.heap 1).removal ≡ some att)
    × Completes deleted (deleted.manager.heap 1).id att
removal-Completes_example =
    removal-Completes disk sizes scanned listed deleted Reach-deleted 1 is_leaving

is_open : submitted.manager.closing ≡ false
unfolding program
is_open = refl

take-Takes_example :
    Takes submitted.manager wants_download
      (λ js. record js { active = true })
      (take_download submitted.manager)
    × Takes submitted.manager wants_title
        (λ js. record js { fetching = true })
        (take_title submitted.manager)
take-Takes_example = take-Takes submitted.manager is_open

-- A network that does not answer the first attempt.
abbrev late : ℕ → Answer
late attempt = record {
  answer = if attempt == 1 then fetch_error else metadata "t" (pos 5);
  done = false;
  done_waiting = false;
}

run_title_fetch-EndsAt_example : EndsAt late (run_title_fetch late)
run_title_fetch-EndsAt_example = run_title_fetch-EndsAt late
