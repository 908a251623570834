-- ===== src/Manager/Invariant/Storage.antt =====
-- The invariant under the threads that write metadata, and under Submit (internal/app/manager.go).
use personal_yt_downloader.Common.{
  ℕ, suc, ◌≡◌, refl, ◌∙◌, ◌≢◌, inl, inr, String, Bool, true, false, Option, ◌∷◌, none, some, ◌==◌,
  if◌then◌else◌, lookup, put, arith, eq_iff, eq_refl, Bool-cases, lookup-put, put-Distinct, leb,
}
use personal_yt_downloader.Model.{Job, closed}
use personal_yt_downloader.Manager.State.{
  JobState, Manager, is_current, update, update_disk, cancel, next_seq_locked, with_cancel,
  unfinished_locked, max_unfinished_jobs,
}
use personal_yt_downloader.Manager.Requests.{
  submit_turn, submit_new, submit_existing, new_job_state, SubmitTurn, refused, SaveAnswer, written,
  unwritten, unsynced,
}
use personal_yt_downloader.Manager.Workers.{remove_files, save_snapshot, save_written}
use personal_yt_downloader.Manager.Protocol.{World, with_manager}
use personal_yt_downloader.Manager.Quiet.{Quiet, SameOwner-refl}
use personal_yt_downloader.Manager.Quiet.Calls.{submit_existing-Quiet}
use personal_yt_downloader.Manager.Invariant.{Inv}
use personal_yt_downloader.Manager.Invariant.Basics.{
  Quiet-Inv, is_current-cases, current-of-same, current-lt,
}

-- Metadata appears only for registered jobs, and may vanish.
disk-Inv :
    (w : World) (disk : String → Option Job) (saving : ℕ → Option Job)
    → Inv w
    → ((k : String) → disk k ≢ none → lookup k w.manager.jobs ≢ none)
    → ((r : ℕ) (j : Job)
        → saving r ≡ some j
        → (w.removing r ≡ none) × (is_current w.manager r ≡ true) × (j.id ≡ (w.manager.heap r).id))
    → Inv (record w { manager = record (w.manager) { disk = disk }; saving = saving })
disk-Inv w disk saving v registered current =
    let m = record (w.manager) { disk = disk } in
    let same = λ (i : ℕ). current-of-same w.manager m i refl refl in
    record {
      distinct = v.distinct;
      registered = v.registered;
      active = v.active;
      fetching = v.fetching;
      due = λ i. ground (arith, v.due i, same i);
      busy_current = λ i h. same i ∙ v.busy_current i h;
      attempt = λ i h. v.attempt i (ground (arith, same i));
      attempts_differ = λ i i' att h h' e e'.
          v.attempts_differ i i' att (ground (arith, same i)) (ground (arith, same i')) e e';
      unused = v.unused;
      removing_attempt = v.removing_attempt;
      saving_current = λ i j h. ground (arith, current i j h, same i);
      disk_registered = registered;
    }

pub clears-Inv : (w : World) (r : ℕ) → Inv w → Inv (with_manager w (remove_files w.manager r))
unfolding remove_files
clears-Inv w r v =
    disk-Inv w (update_disk w.manager.disk (w.manager.heap r).id none) w.saving v
      (λ k h. ground (arith, v.disk_registered k)) v.saving_current

pub snapshots-Inv :
    (w : World) (r : ℕ) (j : Job)
    → Inv w
    → w.removing r ≡ none
    → save_snapshot w.manager r ≡ some j
    → Inv (record w { saving = update w.saving r (some j) })
unfolding save_snapshot
snapshots-Inv w r j v free h =
    disk-Inv w w.manager.disk (update w.saving r (some j)) v v.disk_registered
      (λ i j' e. ground (arith, v.saving_current i j'))

pub gives_up-Inv : (w : World) (r : ℕ) → Inv w → Inv (record w { saving = update w.saving r none })
gives_up-Inv w r v =
    disk-Inv w w.manager.disk (update w.saving r none) v v.disk_registered
      (λ i j' e. ground (arith, v.saving_current i j'))

pub writes-Inv :
    (w : World) (r : ℕ) (j : Job)
    → Inv w
    → w.saving r ≡ some j
    → Inv (record w { manager = save_written w.manager j; saving = update w.saving r none })
unfolding save_written
writes-Inv w r j v h =
    let facts = v.saving_current r j h in
    disk-Inv w (update_disk w.manager.disk j.id (some j)) (update w.saving r none) v
      (λ k e.
        ground (arith, v.disk_registered k, facts, is_current-cases w.manager r, eq_iff j.id k))
      (λ i j' e. ground (arith, v.saving_current i j'))

-- A new job at a new address.
module _ (w : World) (id : String) (now : ℕ) (v : Inv w)
    (fresh : lookup id w.manager.jobs ≡ none) where
  abbrev added : JobState
  unfolding new_job_state
  added = new_job_state id now (suc w.manager.seq) w.manager.next_ctx

  abbrev added_manager : Manager
  added_manager = record w.manager {
    heap = update w.manager.heap w.manager.next_ref added;
    next_ref = suc w.manager.next_ref;
    seq = suc w.manager.seq;
    next_ctx = suc w.manager.next_ctx;
    jobs = put id w.manager.next_ref w.manager.jobs;
    disk = update_disk w.manager.disk id (some added.job);
  }

  unallocated : is_current w.manager w.manager.next_ref ≡ false
  unallocated = elim (Bool-cases (is_current w.manager w.manager.next_ref)) [
    | inl h ↦ absurd (omega (arith, current-lt w w.manager.next_ref v h))
    | inr h ↦ h
  ]

  added-current :
      (i : ℕ)
      → is_current added_manager i
        ≡ (if w.manager.next_ref == i then true else is_current w.manager i)
  unfolding is_current new_job_state
  added-current i = ground (
    arith,
    lookup-put id (w.manager.heap i).id w.manager.next_ref w.manager.jobs,
    lookup-put id id w.manager.next_ref w.manager.jobs,
    eq_iff id (w.manager.heap i).id,
    eq_refl id,
  )

  added-Inv : Inv (with_manager w added_manager)
  unfolding new_job_state
  added-Inv =
      let n = w.manager.next_ref in
      record {
        distinct = put-Distinct id n w.manager.jobs v.distinct;
        registered = λ k r h.
            ground (arith, v.registered k r, lookup-put id k n w.manager.jobs, eq_iff id k);
        active = λ i. ground (arith, v.active i, v.busy_current i, unallocated);
        fetching = λ i. ground (arith, v.fetching i, v.busy_current i, unallocated);
        due = λ i. ground (arith, v.due i, added-current i, unallocated);
        busy_current = λ i h. ground (arith, v.busy_current i, added-current i);
        attempt = λ i h.
            let old = v.attempt i (ground (arith, added-current i)) in
            (old.0, ground (arith, old, added-current i), old.2, old.3);
        attempts_differ = λ i i' att h h' e e'.
            v.attempts_differ i i' att (ground (arith, added-current i))
              (ground (arith, added-current i')) (ground arith) (ground arith);
        unused = v.unused;
        removing_attempt =
            λ i att h. ground (arith, v.removing_attempt i att h, v.due i, unallocated);
        saving_current =
            λ i j h. ground (arith, v.saving_current i j h, added-current i, unallocated);
        disk_registered = λ k h.
            ground (arith, v.disk_registered k, lookup-put id k n w.manager.jobs, eq_iff id k);
      }

  abbrev unsaved_manager : Manager
  unsaved_manager = record w.manager {
    seq = suc w.manager.seq;
    next_ctx = suc w.manager.next_ctx;
    cancelled = w.manager.next_ctx ∷ w.manager.cancelled;
  }

  unsaved-Quiet : Quiet w.manager unsaved_manager
  unsaved-Quiet = record {
    owners = λ r. SameOwner-refl (w.manager.heap r);
    same_jobs = refl;
    same_next_ref = refl;
    same_next_attempt = refl;
    same_outcomes = λ att. refl;
    same_disk = λ k. refl;
  }

  submit_new-Inv :
      (answer : SaveAnswer)
      → answer ≢ unsynced
      → Inv (with_manager w (submit_new w.manager id now answer).0)
  unfolding submit_new next_seq_locked with_cancel cancel
  submit_new-Inv written synced =
      elim (Bool-cases (leb max_unfinished_jobs (unfinished_locked w.manager))) [
        | inl full ↦ rw full v
        | inr room ↦ rw room added-Inv
      ]
  submit_new-Inv unwritten synced =
      elim (Bool-cases (leb max_unfinished_jobs (unfinished_locked w.manager))) [
        | inl full ↦ rw full v
        | inr room ↦ rw room (Quiet-Inv w unsaved_manager w.download refl unsaved-Quiet v)
      ]
  submit_new-Inv unsynced synced = absurd (synced refl)

submit_found-Inv :
    (w : World) (id : String) (now : ℕ) (answer : SaveAnswer) (o : Option ℕ)
    → answer ≢ unsynced
    → Inv w
    → lookup id w.manager.jobs ≡ o
    → Inv (
        with_manager w
          (elim o as (λ x. Manager × SubmitTurn) [
            | none ↦ submit_new w.manager id now answer
            | some r ↦ submit_existing w.manager r
          ]).0)
submit_found-Inv w id now answer none s v h = submit_new-Inv w id now v h answer s
submit_found-Inv w id now answer (some r) s v h =
    Quiet-Inv w (submit_existing w.manager r).0 w.download refl (submit_existing-Quiet w.manager r)
      v

submit_open-Inv :
    (w : World) (id : String) (now : ℕ) (answer : SaveAnswer) (b : Bool)
    → answer ≢ unsynced
    → Inv w
    → Inv (
        with_manager w
          (if b
            then (w.manager, refused closed)
            else elim (lookup id w.manager.jobs) as (λ x. Manager × SubmitTurn) [
              | none ↦ submit_new w.manager id now answer
              | some r ↦ submit_existing w.manager r
            ]).0)
submit_open-Inv w id now answer true s v = v
submit_open-Inv w id now answer false s v =
    submit_found-Inv w id now answer (lookup id w.manager.jobs) s v refl

pub submits-Inv :
    (w : World) (id : String) (now : ℕ) (answer : SaveAnswer)
    → answer ≢ unsynced
    → Inv w
    → Inv (with_manager w (submit_turn w.manager id now answer).0)
unfolding submit_turn
submits-Inv w id now answer s v = submit_open-Inv w id now answer w.manager.closing s v
