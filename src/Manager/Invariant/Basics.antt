-- ===== src/Manager/Invariant/Basics.antt =====
-- Lemmas on the invariant of the manager (internal/app/manager.go), and its quiet steps.
use personal_yt_downloader.Common.{
  [], ◌∷◌, ℕ, ◌<◌, ◌≡◌, sym, ◌∙◌, subst, ◌≢◌, ◌⊎◌, inl, inr, String, true, false, none, some, ◌==◌,
  lookup, arith, eq_iff, eq_refl, Bool-cases, Distinct, Map, values, count_if,
}
use personal_yt_downloader.Manager.State.{JobState, Manager, is_current, write}
use personal_yt_downloader.Manager.Protocol.{World, owned, DownloadPc}
use personal_yt_downloader.Manager.Quiet.{Quiet}
use personal_yt_downloader.Manager.Invariant.{Inv, is_due}

pub is_current-cases :
    (m : Manager) (r : ℕ)
    → ((is_current m r ≡ true) × (lookup (m.heap r).id m.jobs ≡ some r))
      ⊎ ((is_current m r ≡ false) × (lookup (m.heap r).id m.jobs ≢ some r))
unfolding is_current
is_current-cases m r = ground arith

pub Quiet-current : (m m' : Manager) (r : ℕ) → Quiet m m' → is_current m' r ≡ is_current m r
unfolding is_current
Quiet-current m m' r q = ground (arith, (q.owners r).ids, q.same_jobs)

-- The invariant reads the worker's state only for the job that it owns.
pub Quiet-Inv :
    (w : World) (m : Manager) (pc : DownloadPc)
    → owned pc ≡ owned w.download
    → Quiet w.manager m
    → Inv w
    → Inv (record w { manager = m; download = pc })
Quiet-Inv w m pc own q v = record {
  distinct = subst (λ jobs. Distinct jobs) (sym q.same_jobs) v.distinct;
  registered = λ k r h.
      let old = v.registered k r (rw (← q.same_jobs) h) in
      ground (arith, old, (q.owners r).ids, q.same_next_ref);
  active = λ r. ground (arith, v.active r, (q.owners r).actives);
  fetching = λ r. ground (arith, v.fetching r, (q.owners r).fetchings);
  due = λ r. ground (
    arith,
    v.due r,
    Quiet-current w.manager m r q,
    (q.owners r).actives,
    (q.owners r).fetchings,
    (q.owners r).deletings,
  );
  busy_current = λ r h. ground (
    arith,
    v.busy_current r,
    Quiet-current w.manager m r q,
    (q.owners r).actives,
    (q.owners r).fetchings,
  );
  attempt = λ r h.
      let old =
        v.attempt r (ground (arith, h, Quiet-current w.manager m r q, (q.owners r).deletings)) in
      (
        old.0,
        (q.owners r).removals ∙ old.1,
        ground (arith, old, q.same_next_attempt),
        q.same_outcomes old.0 ∙ old.3,
      );
  attempts_differ = λ r r' att h h' e e'.
      v.attempts_differ r r' att
        (ground (arith, h, Quiet-current w.manager m r q, (q.owners r).deletings))
        (ground (arith, h', Quiet-current w.manager m r' q, (q.owners r').deletings))
        (sym (q.owners r).removals ∙ e) (sym (q.owners r').removals ∙ e');
  unused = λ att h. q.same_outcomes att ∙ v.unused att (ground (arith, h, q.same_next_attempt));
  removing_attempt = λ r att h. (q.owners r).removals ∙ v.removing_attempt r att h;
  saving_current = λ r j h.
      let old = v.saving_current r j h in
      (old.0, Quiet-current w.manager m r q ∙ old.1, old.2 ∙ sym (q.owners r).ids);
  disk_registered =
      λ k h. let old = v.disk_registered k (λ e. h (q.same_disk k ∙ e)) in rw q.same_jobs old;
}

pub current-of-same :
    (m m' : Manager) (i : ℕ)
    → (m'.heap i).id ≡ (m.heap i).id
    → m'.jobs ≡ m.jobs
    → is_current m' i ≡ is_current m i
unfolding is_current
current-of-same m m' i e h = ground arith

-- The attempt of a job being deleted was given out before, and is open.
pub attempt-open :
    (w : World) (i att : ℕ)
    → Inv w
    → is_due w.manager i ≡ true
    → (w.manager.heap i).removal ≡ some att
    → (att < w.manager.next_attempt) × (w.manager.outcomes att ≡ none)
attempt-open w i att v h e = ground (arith, v.attempt i h)

pub write-current :
    (m : Manager) (r i : ℕ) (js : JobState)
    → js.id ≡ (m.heap r).id
    → is_current (write m r js) i ≡ is_current m i
unfolding is_current
write-current m r i js h = ground arith

pub values-lookup :
    (r : ℕ) (m : Map ℕ)
    → Distinct m
    → 0 < count_if (λ x. x == r) (values m)
    → (k : String) × (lookup k m ≡ some r)
unfolding lookup
values-lookup r [] d h = absurd (omega arith)
values-lookup r ((i, w) ∷ m) d h = elim (Bool-cases (w == r)) [
  | inl hit ↦ (i, ground (arith, eq_refl i))
  | inr miss ↦
      let found = values-lookup r m d.1 (ground arith) in
      (found.0, ground (arith, found, eq_iff i found.0))
]

-- A registered address is current.
pub lookup-current :
    (w : World) (k : String) (r : ℕ)
    → Inv w
    → lookup k w.manager.jobs ≡ some r
    → (is_current w.manager r ≡ true) × ((w.manager.heap r).id ≡ k)
unfolding is_current
lookup-current w k r v h = ground (arith, v.registered k r h)

pub values-current :
    (w : World) (r : ℕ)
    → Inv w
    → 0 < count_if (λ x. x == r) (values w.manager.jobs)
    → is_current w.manager r ≡ true
values-current w r v h =
    let found = values-lookup r w.manager.jobs v.distinct h in
    (lookup-current w found.0 r v found.1).0

-- A current address is allocated.
pub current-lt :
    (w : World) (r : ℕ) → Inv w → is_current w.manager r ≡ true → r < w.manager.next_ref
current-lt w r v h =
    let found : lookup (w.manager.heap r).id w.manager.jobs ≡ some r =
      ground (arith, is_current-cases w.manager r) in
    (v.registered (w.manager.heap r).id r found).1
