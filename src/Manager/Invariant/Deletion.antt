-- ===== src/Manager/Invariant/Deletion.antt =====
-- The invariant under Delete and the two ends of finalizeDeletion (internal/app/manager.go).
use personal_yt_downloader.Common.{
  ℕ, suc, ◌+◌, ◌≡◌, refl, ◌∙◌, inl, inr, String, true, false, ◌||◌, not, Option, ◌∷◌, none, some,
  ◌==◌, if◌then◌else◌, lookup, arith, Bool-cases,
}
use personal_yt_downloader.Manager.State.{JobState, Manager, is_current, update, cancel}
use personal_yt_downloader.Manager.Requests.{begin_removal, delete_job, DeleteNext, no_job, await}
use personal_yt_downloader.Manager.Workers.{finalize_check}
use personal_yt_downloader.Manager.Protocol.{World, one_if, after_delete}
use personal_yt_downloader.Manager.Invariant.{Inv, is_due}
use personal_yt_downloader.Manager.Invariant.Basics.{lookup-current, current-of-same, attempt-open}

-- A registered job that is not being deleted is marked.
module _ (w : World) (r : ℕ) (v : Inv w) (current : is_current w.manager r ≡ true)
    (kept : (w.manager.heap r).deleting ≡ false) where
  abbrev marked : JobState
  marked = record (w.manager.heap r) { removal = some w.manager.next_attempt; deleting = true }

  abbrev marked_manager : Manager
  marked_manager = record w.manager {
    heap = update w.manager.heap r marked;
    next_attempt = suc w.manager.next_attempt;
    cancelled = (w.manager.heap r).ctx ∷ w.manager.cancelled;
  }

  marked-current : (i : ℕ) → is_current marked_manager i ≡ is_current w.manager i
  marked-current i = current-of-same w.manager marked_manager i (ground arith) refl

  marked-Inv :
      (pending : ℕ → ℕ)
      → ((i : ℕ)
          → pending i
            ≡ w.pending i
              + (if r == i
                  then one_if (not ((w.manager.heap r).active || (w.manager.heap r).fetching))
                  else 0))
      → Inv (record w { manager = marked_manager; pending = pending })
  marked-Inv pending counted = record {
    distinct = v.distinct;
    registered = λ k i h. ground (arith, v.registered k i h);
    active = λ i. ground (arith, v.active i);
    fetching = λ i. ground (arith, v.fetching i);
    due = λ i. ground (arith, v.due i, counted i, current, kept, marked-current i);
    busy_current = λ i h. marked-current i ∙ v.busy_current i (ground arith);
    attempt = λ i h. elim (Bool-cases (r == i)) [
      | inl hit ↦ (
        w.manager.next_attempt,
        ground arith,
        omega arith,
        v.unused w.manager.next_attempt (omega arith),
      )
      | inr miss ↦
          let old = v.attempt i (ground (arith, marked-current i)) in
          (old.0, ground (arith, old), omega (arith, old.2), old.3)
    ];
    attempts_differ = λ i i' att h h' e e'. ground (
      arith,
      marked-current i,
      marked-current i',
      attempt-open w i att v,
      attempt-open w i' att v,
      v.attempts_differ i i' att,
    );
    unused = λ att h. v.unused att (omega arith);
    removing_attempt = λ i att h. ground (arith, v.removing_attempt i att h, v.due i);
    saving_current = λ i j h. ground (arith, v.saving_current i j h, marked-current i);
    disk_registered = v.disk_registered;
  }

  -- The critical section of `Delete` for a job that is not being deleted.
  begin-Inv : Inv (after_delete w (begin_removal w.manager r))
  unfolding begin_removal cancel
  begin-Inv = elim (Bool-cases ((w.manager.heap r).active || (w.manager.heap r).fetching)) [
    | inl running ↦ rw running (marked-Inv w.pending (λ i. ground arith))
    | inr unowned ↦
        rw unowned (marked-Inv (update w.pending r (suc (w.pending r))) (λ i. ground arith))
  ]

awaits-Inv :
    (w : World) (o : Option ℕ)
    → Inv w
    → Inv (
        after_delete w
          (w.manager, elim o as (λ x. DeleteNext) [ none ↦ await 0 | some att ↦ await att ]))
awaits-Inv w none v = v
awaits-Inv w (some att) v = v

delete_found-Inv :
    (w : World) (o : Option ℕ)
    → Inv w
    → ((r : ℕ) → o ≡ some r → is_current w.manager r ≡ true)
    → Inv (
        after_delete w (elim o as (λ x. Manager × DeleteNext) [
          | none ↦ (w.manager, no_job)
          | some r ↦
              if (w.manager.heap r).deleting
              then (
                w.manager,
                elim (w.manager.heap r).removal as (λ x. DeleteNext) [
                  | none ↦ await 0
                  | some att ↦ await att
                ],
              )
              else begin_removal w.manager r
        ]))
delete_found-Inv w none v current = v
delete_found-Inv w (some r) v current = elim (Bool-cases (w.manager.heap r).deleting) [
  | inl again ↦ rw again (awaits-Inv w (w.manager.heap r).removal v)
  | inr kept ↦ rw kept (begin-Inv w r v (current r refl) kept)
]

pub deletes-Inv : (w : World) (id : String) → Inv w → Inv (after_delete w (delete_job w.manager id))
unfolding delete_job
deletes-Inv w id v =
    delete_found-Inv w (lookup id w.manager.jobs) v (λ r h. (lookup-current w id r v h).0)

-- A call of `finalizeDeletion` always finds its removal due: none is made twice.
pub finalize_check-due :
    (w : World) (r n : ℕ)
    → Inv w
    → w.pending r ≡ suc n
    → (att : ℕ) × (finalize_check w.manager r ≡ some att)
      × ((w.manager.heap r).removal ≡ some att)
      × (n ≡ 0)
      × (w.removing r ≡ none)
unfolding finalize_check
finalize_check-due w r n v h =
    let due : is_due w.manager r ≡ true = ground (arith, v.due r) in
    let old = v.attempt r due in
    (old.0, ground (arith, old), old.1, ground (arith, v.due r), ground (arith, v.due r))

pub skips-Inv :
    (w : World) (r n : ℕ)
    → Inv w
    → w.pending r ≡ suc n
    → finalize_check w.manager r ≡ none
    → Inv (record w { pending = update w.pending r n })
skips-Inv w r n v h e = absurd (ground (arith, finalize_check-due w r n v h))

pub checks-Inv :
    (w : World) (r n att : ℕ)
    → Inv w
    → w.pending r ≡ suc n
    → w.removing r ≡ none
    → w.saving r ≡ none
    → finalize_check w.manager r ≡ some att
    → Inv (record w { pending = update w.pending r n; removing = update w.removing r (some att) })
checks-Inv w r n att v h free unsaved e =
    let found = finalize_check-due w r n v h in
    record {
      distinct = v.distinct;
      registered = v.registered;
      active = v.active;
      fetching = v.fetching;
      due = λ i. ground (arith, v.due i, h, free);
      busy_current = v.busy_current;
      attempt = v.attempt;
      attempts_differ = v.attempts_differ;
      unused = v.unused;
      removing_attempt = λ i a p. ground (arith, v.removing_attempt i a, found);
      saving_current = λ i j p. ground (arith, v.saving_current i j p);
      disk_registered = v.disk_registered;
    }
