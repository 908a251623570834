-- ===== src/Manager/Invariant/Steps.antt =====
-- The invariant under every step of the threads of internal/app/manager.go.
use personal_yt_downloader.Common.{refl, arith}
use personal_yt_downloader.Manager.Requests.{retry, list_check, close_begin, close_end}
use personal_yt_downloader.Manager.Workers.{
  start_download, report, end_download, title_arrived, title_unsupported, title_exhausted,
  mark_unpersistable,
}
use personal_yt_downloader.Manager.Protocol.{
  World, Step, submits, retries, lists, deletes, closes, interrupts, picks, starts, reports, ends,
  releases, first_picks, second_picks, arrives, rejects, exhausts, first_releases, second_releases,
  skips, checks, clears, fails, removes, snapshots, writes, gives_up, marks, Reach, here, next,
  running, ended,
}
use personal_yt_downloader.Manager.Quiet.Calls.{
  retry-Quiet, list_check-Quiet, close_begin-Quiet, close_end-Quiet, start-Quiet, report-Quiet,
  end-Quiet, title_arrived-Quiet, title_unsupported-Quiet, title_exhausted-Quiet, mark-Quiet,
}
use personal_yt_downloader.Manager.Invariant.{Inv}
use personal_yt_downloader.Manager.Invariant.Basics.{Quiet-Inv}
use personal_yt_downloader.Manager.Invariant.Ownership.{
  picks-Inv, first_picks-Inv, second_picks-Inv, releases-Inv, first_releases-Inv,
  second_releases-Inv,
}
use personal_yt_downloader.Manager.Invariant.Deletion.{deletes-Inv, skips-Inv, checks-Inv}
use personal_yt_downloader.Manager.Invariant.Removed.{fails-Inv, removes-Inv}
use personal_yt_downloader.Manager.Invariant.Storage.{
  submits-Inv, clears-Inv, snapshots-Inv, writes-Inv, gives_up-Inv,
}

pub Step-Inv : {w w' : World} → Step w w' → Inv w → Inv w'
Step-Inv {w} (submits id now answer synced) v = submits-Inv w id now answer synced v
Step-Inv {w} (retries id) v =
    Quiet-Inv w (retry w.manager id).0 w.download refl (retry-Quiet w.manager id) v
Step-Inv {w} (lists r size total) v =
    Quiet-Inv w (list_check w.manager r size total).0 w.download refl
      (list_check-Quiet w.manager r size total) v
Step-Inv {w} (deletes id) v = deletes-Inv w id v
Step-Inv {w} closes v =
    Quiet-Inv w (close_begin w.manager) w.download refl (close_begin-Quiet w.manager) v
Step-Inv {w} (interrupts h free) v =
    Quiet-Inv w (close_end w.manager) w.download refl (close_end-Quiet w.manager) v
Step-Inv {w} (picks r m free h) v = picks-Inv w r v m free h
Step-Inv {w} (starts r h) v =
    Quiet-Inv w (start_download w.manager r).0 (running r) (ground arith) (start-Quiet w.manager r)
      v
Step-Inv {w} (reports r stage progress known h) v =
    Quiet-Inv w (report w.manager r stage progress known) w.download refl
      (report-Quiet w.manager r stage progress known) v
Step-Inv {w} (ends r result err h) v =
    Quiet-Inv w (end_download w.manager r result err).0 (ended r) (ground arith)
      (end-Quiet w.manager r result err) v
Step-Inv {w} (releases r h) v = releases-Inv w r v h
Step-Inv {w} (first_picks r m free h) v = first_picks-Inv w r v m free h
Step-Inv {w} (second_picks r m free h) v = second_picks-Inv w r v m free h
Step-Inv {w} (arrives r title duration_sec) v =
    Quiet-Inv w (title_arrived w.manager r title duration_sec).0 w.download refl
      (title_arrived-Quiet w.manager r title duration_sec) v
Step-Inv {w} (rejects r message) v =
    Quiet-Inv w (title_unsupported w.manager r message).0 w.download refl
      (title_unsupported-Quiet w.manager r message) v
Step-Inv {w} (exhausts r) v =
    Quiet-Inv w (title_exhausted w.manager r) w.download refl (title_exhausted-Quiet w.manager r) v
Step-Inv {w} (first_releases r h) v = first_releases-Inv w r v h
Step-Inv {w} (second_releases r h) v = second_releases-Inv w r v h
Step-Inv {w} (skips r n h e) v = skips-Inv w r n v h e
Step-Inv {w} (checks r n att h free unsaved e) v = checks-Inv w r n att v h free unsaved e
Step-Inv {w} (clears r att h) v = clears-Inv w r v
Step-Inv {w} (fails r att h) v = fails-Inv w r att v h
Step-Inv {w} (removes r att h cleared) v = removes-Inv w r att v h cleared
Step-Inv {w} (snapshots r j free unsaved h) v = snapshots-Inv w r j v free h
Step-Inv {w} (writes r j h) v = writes-Inv w r j v h
Step-Inv {w} (gives_up r j h) v = gives_up-Inv w r v
Step-Inv {w} (marks r) v =
    Quiet-Inv w (mark_unpersistable w.manager r) w.download refl (mark-Quiet w.manager r) v

pub Reach-Inv : {w w' : World} → Inv w → Reach w w' → Inv w'
Reach-Inv v here = v
Reach-Inv v (next r s) = Step-Inv s (Reach-Inv v r)
