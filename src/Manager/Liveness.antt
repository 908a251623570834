-- ===== src/Manager/Liveness.antt =====
-- A removal in internal/app/manager.go can always come to its end: no state of the threads keeps a
-- video that is being deleted from being removed.
pub mod Owners
use personal_yt_downloader.Common.{
  ℕ, zero, suc, ◌+◌, ◌-◌, ◌≤◌, ◌≡◌, refl, sym, ap, ◌∙◌, ◌≢◌, ◌⊎◌, inl, inr, String, Bool, true,
  false, ◌&&◌, ◌||◌, not, Option, none, some, List, ◌==◌, if◌then◌else◌, str_eq, lookup, delete,
  lookup-delete, eq_refl, arith, Bool-cases, Option-cases, subst,
}
use personal_yt_downloader.Common.Int.{pos}
use personal_yt_downloader.Model.{Job}
use personal_yt_downloader.Manager.State.{JobState, Manager, is_current, write, update, update_disk}
use personal_yt_downloader.Manager.Workers.{
  finalize_check, finalize_removed, remove_files, start_download, end_download, release_download,
  release_title, PipelineError, DownloadResult,
}
use personal_yt_downloader.Manager.Protocol.{
  World, with_manager, add_pending, DownloadPc, idle, picked, running, ended, Step, starts, ends,
  releases, first_releases, second_releases, checks, clears, removes, gives_up, Reach, here, next,
  owned, holds, one_if,
}
use personal_yt_downloader.Manager.Quiet.{Quiet}
use personal_yt_downloader.Manager.Quiet.Calls.{start-Quiet, end-Quiet}
use personal_yt_downloader.Manager.Recover.{is_listed}
use personal_yt_downloader.Manager.Recover.Restart.{recovered, recovered-Inv}
use personal_yt_downloader.Manager.Invariant.{Inv, is_due, has}
use personal_yt_downloader.Manager.Invariant.Basics.{Quiet-current, write-current, is_current-cases}
use personal_yt_downloader.Manager.Invariant.Deletion.{finalize_check-due}
use personal_yt_downloader.Manager.Invariant.Removed.{removing-due}
use personal_yt_downloader.Manager.Invariant.Steps.{Step-Inv, Reach-Inv}

-- The job at the address is registered and being deleted, for the attempt.
pub record IsLeaving (w : World) (r : ℕ) (k : String) (att : ℕ) : Type 0 where
  pub valid : Inv w
  pub due : is_due w.manager r ≡ true
  pub id_of : (w.manager.heap r).id ≡ k
  pub removal_of : (w.manager.heap r).removal ≡ some att

-- Some steps lead to a world where the video is not registered and the attempt is closed without an
-- error.
abbrev pub Completes : World → String → ℕ → Type 0
Completes w k att =
    (u : World) × Reach w u
    × (lookup k u.manager.jobs ≡ none)
    × (u.manager.outcomes att ≡ some none)

Reach-after : {w v u : World} → Step w v → Reach v u → Reach w u
Reach-after s here = next here s
Reach-after s (next r t) = next (Reach-after s r) t

module _ (k : String) (att : ℕ) where
  pub after-Step : {w v : World} → Step w v → Completes v k att → Completes w k att
  after-Step s (u, r, gone, closed) = (u, Reach-after s r, gone, closed)

module _ (r : ℕ) (k : String) (att : ℕ) where
  gone_lem :
      (m : Manager)
      → is_current m r ≡ true
      → (m.heap r).id ≡ k
      → (lookup k (finalize_removed m r att).jobs ≡ none)
        × ((finalize_removed m r att).outcomes att ≡ some none)
  unfolding finalize_removed
  gone_lem m current e = ground (arith, current, e, lookup-delete (m.heap r).id k m.jobs, eq_refl k)

  files_gone : (m : Manager) → (remove_files m r).disk (m.heap r).id ≡ none
  unfolding remove_files
  files_gone m = ground (arith, eq_refl (m.heap r).id)

  -- The step leaves the registry, and the job's id and removal, as they are.
  pub IsLeaving-Step :
      (w v : World)
      → Step w v
      → IsLeaving w r k att
      → is_due v.manager r ≡ is_due w.manager r
      → (v.manager.heap r).id ≡ (w.manager.heap r).id
      → (v.manager.heap r).removal ≡ (w.manager.heap r).removal
      → IsLeaving v r k att
  IsLeaving-Step w v s l due id removal = record {
    valid = Step-Inv s l.valid;
    due = due ∙ l.due;
    id_of = id ∙ l.id_of;
    removal_of = removal ∙ l.removal_of;
  }

  -- finalizeDeletion holds saveMu.
  from_removing : (w : World) → IsLeaving w r k att → w.removing r ≡ some att → Completes w k att
  unfolding remove_files is_current
  from_removing w l h =
      let v = with_manager w (remove_files w.manager r) in
      let current : is_current w.manager r ≡ true = ground (arith, l.due) in
      let (gone, closed) = gone_lem v.manager current l.id_of in
      (
        record v {
          manager = finalize_removed v.manager r att;
          removing = update v.removing r none;
        },
        next (next here (clears r att h)) (removes r att h (files_gone w.manager)),
        gone,
        closed,
      )

  -- It waits for saveMu, which is free, or held by a write of metadata.
  from_free :
      (w : World) → IsLeaving w r k att → w.pending r ≡ 1 → w.saving r ≡ none → Completes w k att
  from_free w l h free =
      let (a, check, removal, last, idle_now) = finalize_check-due w r 0 l.valid h in
      let same : a ≡ att = ground (arith, removal, l.removal_of) in
      let found : finalize_check w.manager r ≡ some att = check ∙ ap some same in
      let v = record w {
        pending = update w.pending r 0;
        removing = update w.removing r (some att);
      } in
      let s = checks r 0 att h idle_now free found in
      after-Step k att s (from_removing v (IsLeaving-Step w v s l refl refl refl) (ground arith))

  from_pending : (w : World) → IsLeaving w r k att → w.pending r ≡ 1 → Completes w k att
  from_pending w l h = elim (Option-cases (w.saving r)) [
    | inl free ↦ from_free w l h free
    | inr (j, held) ↦
        let v = record w { saving = update w.saving r none } in
        let s = gives_up r j held in
        after-Step k att s (from_free v (IsLeaving-Step w v s l refl refl refl) h (ground arith))
  ]

  -- No worker owns the job.
  pub from_unowned :
      (w : World)
      → IsLeaving w r k att
      → (w.manager.heap r).active ≡ false
      → (w.manager.heap r).fetching ≡ false
      → Completes w k att
  from_unowned w l idle_download idle_titles =
      let count = l.valid.due r in
      let total : w.pending r + has (w.removing r) ≡ 1 =
        ground (arith, count, l.due, idle_download, idle_titles) in
      elim (Option-cases (w.removing r)) [
        | inl waiting ↦ from_pending w l (ground (arith, total, waiting))
        | inr (a, held) ↦
            let same : a ≡ att = ground (arith, l.valid.removing_attempt r a held, l.removal_of) in
            from_removing w l (held ∙ ap some same)
      ]
