-- ===== src/Manager/Liveness/Owners.antt =====
-- From every owner that a job in internal/app/manager.go may have, its removal can come to its end.
use personal_yt_downloader.Common.{
  ℕ, ◌+◌, ◌≡◌, refl, ap, ◌∙◌, ◌≢◌, ◌⊎◌, inl, inr, String, true, false, Option, none, some, List,
  ◌==◌, arith, Bool-cases,
}
use personal_yt_downloader.Common.Int.{pos}
use personal_yt_downloader.Model.{Job}
use personal_yt_downloader.Manager.State.{JobState, Manager, write}
use personal_yt_downloader.Manager.Workers.{
  start_download, end_download, release_download, release_title, PipelineError, DownloadResult,
}
use personal_yt_downloader.Manager.Protocol.{
  World, add_pending, DownloadPc, idle, picked, running, ended, Step, starts, ends, releases,
  first_releases, second_releases, Reach, owned, holds,
}
use personal_yt_downloader.Manager.Quiet.{Quiet}
use personal_yt_downloader.Manager.Quiet.Calls.{start-Quiet, end-Quiet}
use personal_yt_downloader.Manager.Recover.{is_listed}
use personal_yt_downloader.Manager.Recover.Restart.{recovered, recovered-Inv}
use personal_yt_downloader.Manager.Invariant.{is_due}
use personal_yt_downloader.Manager.Invariant.Basics.{Quiet-current, write-current}
use personal_yt_downloader.Manager.Invariant.Steps.{Reach-Inv}
use personal_yt_downloader.Manager.Liveness.{
  IsLeaving, Completes, after-Step, IsLeaving-Step, from_unowned,
}

module _ (r : ℕ) (k : String) (att : ℕ) where
  -- What a worker's release leaves of the job.
  released-due :
      (m : Manager) (js : JobState)
      → js.id ≡ (m.heap r).id
      → js.deleting ≡ (m.heap r).deleting
      → is_due (write m r js) r ≡ is_due m r
  released-due m js ids deletings = ground (arith, write-current m r r js ids, deletings)

  -- No title worker owns it, and the download worker may.
  from_ended :
      (w : World)
      → IsLeaving w r k att
      → w.download ≡ ended r
      → holds w.first_title r + holds w.second_title r ≡ 0
      → Completes w k att
  unfolding release_download
  from_ended w l h titles =
      let m = (release_download w.manager r).0 in
      let flag = (release_download w.manager r).1 in
      let v = add_pending (record w { manager = m; download = idle }) r flag in
      let s : Step w v = releases r h in
      let js = record (w.manager.heap r) { active = false } in
      let kept = released-due w.manager js refl refl in
      let same : v.manager ≡ m = ground arith in
      let l' =
        IsLeaving-Step r k att w v s l (ap (λ x. is_due x r) same ∙ kept) (ground (arith, same))
          (ground (arith, same)) in
      after-Step k att s (
        from_unowned r k att v l' (ground (arith, same))
          (ground (arith, same, l.valid.fetching r, titles)))

  IsLeaving-Quiet :
      (w v : World)
      → Step w v
      → IsLeaving w r k att
      → Quiet w.manager v.manager
      → IsLeaving v r k att
  IsLeaving-Quiet w v s l q =
      IsLeaving-Step r k att w v s l
        (ground (arith, Quiet-current w.manager v.manager r q, (q.owners r).deletings))
        (q.owners r).ids (q.owners r).removals

  -- The pipeline of a job that is being deleted is cancelled.
  abbrev nothing : DownloadResult
  nothing = record { title = ""; size_bytes = 0; duration_sec = pos 0 }

  from_running :
      (w : World)
      → IsLeaving w r k att
      → w.download ≡ running r
      → holds w.first_title r + holds w.second_title r ≡ 0
      → Completes w k att
  from_running w l h titles =
      let error = some PipelineError.canceled in
      let v = record w {
        manager = (end_download w.manager r nothing error).0;
        download = ended r;
      } in
      let s : Step w v = ends r nothing error h in
      after-Step k att s
        (from_ended v (IsLeaving-Quiet w v s l (end-Quiet w.manager r nothing error)) refl titles)

  from_picked :
      (w : World)
      → IsLeaving w r k att
      → w.download ≡ picked r
      → holds w.first_title r + holds w.second_title r ≡ 0
      → Completes w k att
  from_picked w l h titles =
      let v = record w { manager = (start_download w.manager r).0; download = running r } in
      let s : Step w v = starts r h in
      after-Step k att s
        (from_running v (IsLeaving-Quiet w v s l (start-Quiet w.manager r)) refl titles)

  from_released :
      (w : World)
      → IsLeaving w r k att
      → holds (owned w.download) r ≡ 0
      → holds w.first_title r + holds w.second_title r ≡ 0
      → Completes w k att
  from_released w l free titles =
      from_unowned r k att w l (ground (arith, l.valid.active r, free))
        (ground (arith, l.valid.fetching r, titles))

  from_download :
      (w : World) (pc : DownloadPc)
      → IsLeaving w r k att
      → w.download ≡ pc
      → holds w.first_title r + holds w.second_title r ≡ 0
      → Completes w k att
  from_download w idle l h titles = from_released w l (ground (arith, h)) titles
  from_download w (picked i) l h titles = elim (Bool-cases (i == r)) [
    | inl own ↦ from_picked w l (ground (arith, h, own)) titles
    | inr other ↦ from_released w l (ground (arith, h, other)) titles
  ]
  from_download w (running i) l h titles = elim (Bool-cases (i == r)) [
    | inl own ↦ from_running w l (ground (arith, h, own)) titles
    | inr other ↦ from_released w l (ground (arith, h, other)) titles
  ]
  from_download w (ended i) l h titles = elim (Bool-cases (i == r)) [
    | inl own ↦ from_ended w l (ground (arith, h, own)) titles
    | inr other ↦ from_released w l (ground (arith, h, other)) titles
  ]

  holds-cases : (o : Option ℕ) → (o ≡ some r) ⊎ (holds o r ≡ 0)
  holds-cases none = inr refl
  holds-cases (some i) = ground arith

  -- The first title worker does not own it.
  from_second : (w : World) → IsLeaving w r k att → holds w.first_title r ≡ 0 → Completes w k att
  unfolding release_title
  from_second w l first = elim (holds-cases w.second_title) [
    | inr second ↦ from_download w w.download l refl (omega (arith, first, second))
    | inl h ↦
        let m = (release_title w.manager r).0 in
        let flag = (release_title w.manager r).1 in
        let v = add_pending (record w { manager = m; second_title = none }) r flag in
        let s : Step w v = second_releases r h in
        let js = record (w.manager.heap r) { fetching = false } in
        let kept = released-due w.manager js refl refl in
        let same : v.manager ≡ m = ground arith in
        let l' =
          IsLeaving-Step r k att w v s l (ap (λ x. is_due x r) same ∙ kept) (ground (arith, same))
            (ground (arith, same)) in
        after-Step k att s (from_download v v.download l' refl (ground (arith, first)))
  ]

  from_first : (w : World) → IsLeaving w r k att → Completes w k att
  unfolding release_title
  from_first w l = elim (holds-cases w.first_title) [
    | inr first ↦ from_second w l first
    | inl h ↦
        let m = (release_title w.manager r).0 in
        let flag = (release_title w.manager r).1 in
        let v = add_pending (record w { manager = m; first_title = none }) r flag in
        let s : Step w v = first_releases r h in
        let js = record (w.manager.heap r) { fetching = false } in
        let kept = released-due w.manager js refl refl in
        let same : v.manager ≡ m = ground arith in
        let l' =
          IsLeaving-Step r k att w v s l (ap (λ x. is_due x r) same ∙ kept) (ground (arith, same))
            (ground (arith, same)) in
        after-Step k att s (from_second v l' (ground arith))
  ]

module _ (disk : String → Option Job) (video_size : String → Option ℕ) (jobs : List Job)
    (listed : (k : String) → disk k ≢ none → is_listed k jobs ≡ true) (w : World)
    (reached : Reach (recovered disk video_size jobs) w) where
  -- In every world reachable from a restart whose scan lists all metadata on disk, by steps that do
  -- not include a Submit whose Save fails after its rename, whoever owns a registered job that is
  -- being deleted, there are steps after which its video is not registered and its removal attempt
  -- is closed without an error.
  pub removal-Completes :
      (r : ℕ)
      → is_due w.manager r ≡ true
      → (att : ℕ) × ((w.manager.heap r).removal ≡ some att) × Completes w (w.manager.heap r).id att
  removal-Completes r due =
      let v = Reach-Inv (recovered-Inv disk video_size jobs listed) reached in
      let (att, removal, given, unclosed) = v.attempt r due in
      (
        att,
        removal,
        from_first r (w.manager.heap r).id att w
            (record { valid = v; due = due; id_of = refl; removal_of = removal }),
      )
