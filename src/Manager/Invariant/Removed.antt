-- ===== src/Manager/Invariant/Removed.antt =====
-- The invariant behind the two ends of finalizeDeletion (internal/app/manager.go).
use personal_yt_downloader.Common.{
  ℕ, ◌≡◌, refl, ◌∙◌, true, false, none, some, ◌==◌, if◌then◌else◌, delete, arith, eq_iff,
  lookup-delete, delete-Distinct,
}
use personal_yt_downloader.Model.{storage, unfinished}
use personal_yt_downloader.Manager.State.{JobState, Manager, is_current, update, write, fail_job}
use personal_yt_downloader.Manager.Workers.{
  finalize_failed, finalize_removed, close_attempt, files_stuck,
}
use personal_yt_downloader.Manager.Protocol.{World}
use personal_yt_downloader.Manager.Invariant.{Inv, is_due}
use personal_yt_downloader.Manager.Invariant.Basics.{current-of-same, attempt-open}

-- A removal under way: the job is registered, being deleted and not owned, and goes by the attempt.
pub removing-due :
    (w : World) (r att : ℕ)
    → Inv w
    → w.removing r ≡ some att
    → (is_due w.manager r ≡ true)
      × ((w.manager.heap r).active ≡ false)
      × ((w.manager.heap r).fetching ≡ false)
      × (w.pending r ≡ 0)
      × ((w.manager.heap r).removal ≡ some att)
removing-due w r att v h = ground (arith, v.due r, v.removing_attempt r att h)

-- The files could not be removed: the job is kept, with its flags cleared.
module _ (w : World) (r att : ℕ) (js : JobState) (ids : js.id ≡ (w.manager.heap r).id)
    (actives : js.active ≡ false) (fetchings : js.fetching ≡ false)
    (deletings : js.deleting ≡ false) (v : Inv w) (removing : w.removing r ≡ some att) where
  abbrev kept_manager : Manager
  kept_manager = close_attempt (write w.manager r js) att (some storage)

  kept-current : (i : ℕ) → is_current kept_manager i ≡ is_current w.manager i
  kept-current i = current-of-same w.manager kept_manager i (ground arith) refl

  kept-Inv : Inv (record w { manager = kept_manager; removing = update w.removing r none })
  kept-Inv =
      let facts = removing-due w r att v removing in
      record {
        distinct = v.distinct;
        registered = λ k i h. ground (arith, v.registered k i h);
        active = λ i. ground (arith, v.active i, facts);
        fetching = λ i. ground (arith, v.fetching i, facts);
        due = λ i. ground (arith, v.due i, kept-current i, facts, removing);
        busy_current = λ i h. kept-current i ∙ v.busy_current i (ground arith);
        attempt = λ i h.
            let old = v.attempt i (ground (arith, kept-current i)) in
            (
              old.0,
              ground (arith, old),
              old.2,
              ground (arith, old, v.attempts_differ i r att, facts, kept-current i),
            );
        attempts_differ = λ i i' a h h' e e'.
            v.attempts_differ i i' a (ground (arith, kept-current i))
              (ground (arith, kept-current i')) (ground arith) (ground arith);
        unused = λ a h. ground (arith, v.unused a h, attempt-open w r att v, facts);
        removing_attempt = λ i a h. ground (arith, v.removing_attempt i a);
        saving_current = λ i j h. ground (arith, v.saving_current i j h, kept-current i);
        disk_registered = v.disk_registered;
      }

pub fails-Inv :
    (w : World) (r att : ℕ)
    → Inv w
    → w.removing r ≡ some att
    → Inv (record w {
      manager = finalize_failed w.manager r att;
      removing = update w.removing r none;
    })
unfolding finalize_failed fail_job
fails-Inv w r att v h =
    let facts = removing-due w r att v h in
    let current : is_current w.manager r ≡ true = ground (arith, facts) in
    let kept : JobState = record (w.manager.heap r) { deleting = false; removal = none } in
    let js : JobState = if unfinished kept.job then fail_job kept files_stuck else kept in
    rw (current, finalize_failed)
      (kept-Inv w r att js (ground arith) (ground (arith, facts)) (ground (arith, facts))
        (ground arith) v h)

-- The files are gone: the registry forgets the job.
module _ (w : World) (r att : ℕ) (v : Inv w) (removing : w.removing r ≡ some att)
    (cleared : w.manager.disk (w.manager.heap r).id ≡ none) where
  abbrev removed_manager : Manager
  removed_manager =
      close_attempt (record w.manager { jobs = delete (w.manager.heap r).id w.manager.jobs }) att
        none

  removed-current :
      (i : ℕ) → is_current removed_manager i ≡ (if r == i then false else is_current w.manager i)
  unfolding is_current
  removed-current i = ground (
    arith,
    lookup-delete (w.manager.heap r).id (w.manager.heap i).id w.manager.jobs,
    eq_iff (w.manager.heap r).id (w.manager.heap i).id,
    removing-due w r att v removing,
  )

  removed-Inv : Inv (record w { manager = removed_manager; removing = update w.removing r none })
  removed-Inv =
      let facts = removing-due w r att v removing in
      record {
        distinct = delete-Distinct (w.manager.heap r).id w.manager.jobs v.distinct;
        registered = λ k i h.
            ground (arith, v.registered k i, lookup-delete (w.manager.heap r).id k w.manager.jobs);
        active = v.active;
        fetching = v.fetching;
        due = λ i. ground (arith, v.due i, removed-current i, facts, removing);
        busy_current = λ i h. ground (arith, v.busy_current i h, removed-current i, facts);
        attempt = λ i h.
            let old = v.attempt i (ground (arith, removed-current i)) in
            (
              old.0,
              old.1,
              old.2,
              ground (arith, old, v.attempts_differ i r att, facts, removed-current i),
            );
        attempts_differ = λ i i' a h h' e e'.
            v.attempts_differ i i' a (ground (arith, removed-current i))
              (ground (arith, removed-current i')) e e';
        unused = λ a h. ground (arith, v.unused a h, attempt-open w r att v, facts);
        removing_attempt = λ i a h. ground (arith, v.removing_attempt i a);
        saving_current =
            λ i j h. ground (arith, v.saving_current i j h, removed-current i, removing);
        disk_registered = λ k h. ground (
          arith,
          v.disk_registered k h,
          lookup-delete (w.manager.heap r).id k w.manager.jobs,
          eq_iff (w.manager.heap r).id k,
        );
      }

pub removes-Inv :
    (w : World) (r att : ℕ)
    → Inv w
    → w.removing r ≡ some att
    → w.manager.disk (w.manager.heap r).id ≡ none
    → Inv (record w {
      manager = finalize_removed w.manager r att;
      removing = update w.removing r none;
    })
unfolding finalize_removed
removes-Inv w r att v h cleared =
    let current : is_current w.manager r ≡ true = ground (arith, removing-due w r att v h) in
    rw (current, finalize_removed) (removed-Inv w r att v h cleared)
