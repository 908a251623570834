-- ===== src/Manager/Invariant/Ownership.antt =====
-- The invariant under the picks and releases of the workers (internal/app/manager.go).
use personal_yt_downloader.Common.{
  ℕ, suc, ◌+◌, ◌<◌, ◌≡◌, refl, sym, ◌∙◌, subst, ◌⊎◌, inl, inr, Bool, true, false, ◌&&◌, ◌||◌, not,
  Option, List, [], ◌∷◌, none, some, ◌==◌, arith, Bool-cases, values, count_if,
}
use personal_yt_downloader.Manager.State.{JobState, Manager, is_current, update, write}
use personal_yt_downloader.Manager.Workers.{
  pick_least, wants_download, wants_title, pick_queued_locked, pick_title_locked, take_download,
  take_title, release_download, release_title,
}
use personal_yt_downloader.Manager.Protocol.{
  World, owned, holds, one_if, DownloadPc, idle, picked, ended, add_pending,
}
use personal_yt_downloader.Manager.Invariant.{Inv, has}
use personal_yt_downloader.Manager.Invariant.Basics.{write-current, values-current}

-- The pick is a listed candidate that passes the test.
pick_least-found :
    (heap : ℕ → JobState) (wanted : JobState → Bool) (best : Option ℕ) (refs : List ℕ) (r : ℕ)
    → pick_least heap wanted best refs ≡ some r
    → (best ≡ some r) ⊎ ((wanted (heap r) ≡ true) × (0 < count_if (λ x. x == r) refs))
unfolding pick_least
pick_least-found heap wanted best [] r h = inl h
pick_least-found heap wanted none (x ∷ refs) r h = elim (Bool-cases (wanted (heap x))) [
  | inl good ↦ ground (arith, pick_least-found heap wanted (some x) refs r)
  | inr bad ↦ ground (arith, pick_least-found heap wanted none refs r)
]
pick_least-found heap wanted (some b) (x ∷ refs) r h = elim (Bool-cases (wanted (heap x))) [
  | inl good ↦ ground (
    arith,
    pick_least-found heap wanted (some x) refs r,
    pick_least-found heap wanted (some b) refs r,
  )
  | inr bad ↦ ground (arith, pick_least-found heap wanted (some b) refs r)
]

-- What a worker takes: a registered job that passes the worker's test, marked as taken.
taken-found :
    (w : World) (wanted : JobState → Bool) (mark : JobState → JobState) (o : Option ℕ) (r : ℕ)
    (m : Manager)
    → Inv w
    → o ≡ pick_least w.manager.heap wanted none (values w.manager.jobs)
    → elim o as (λ x. Option (ℕ × Manager)) [
      | none ↦ none
      | some x ↦ some (x, write w.manager x (mark (w.manager.heap x)))
    ]
      ≡ some (r, m)
    → (is_current w.manager r ≡ true)
      × (wanted (w.manager.heap r) ≡ true)
      × (write w.manager r (mark (w.manager.heap r)) ≡ m)
taken-found w wanted mark none r m v e h = absurd (ground arith)
taken-found w wanted mark (some x) r m v e h =
    let found = pick_least-found w.manager.heap wanted none (values w.manager.jobs) x (sym e) in
    let same : x ≡ r = ground arith in
    let good : (wanted (w.manager.heap x) ≡ true)
        × (0 < count_if (λ y. y == x) (values w.manager.jobs)) =
      ground (arith, found) in
    subst
      (λ y.
        (is_current w.manager y ≡ true)
        × (wanted (w.manager.heap y) ≡ true)
        × (write w.manager y (mark (w.manager.heap y)) ≡ m))
      same (values-current w x v good.1, good.0, ground arith)

-- The download worker takes a registered, queued job that is neither being deleted nor owned.
take_download-found :
    (w : World) (r : ℕ) (m : Manager)
    → Inv w
    → take_download w.manager ≡ some (r, m)
    → (is_current w.manager r ≡ true)
      × (wants_download (w.manager.heap r) ≡ true)
      × (write w.manager r (record (w.manager.heap r) { active = true }) ≡ m)
unfolding take_download pick_queued_locked
take_download-found w r m v h =
    taken-found w wants_download (λ js. record js { active = true })
      (pick_least w.manager.heap wants_download none (values w.manager.jobs)) r m v refl
      (ground arith)

take_title-found :
    (w : World) (r : ℕ) (m : Manager)
    → Inv w
    → take_title w.manager ≡ some (r, m)
    → (is_current w.manager r ≡ true)
      × (wants_title (w.manager.heap r) ≡ true)
      × (write w.manager r (record (w.manager.heap r) { fetching = true }) ≡ m)
unfolding take_title pick_title_locked
take_title-found w r m v h =
    taken-found w wants_title (λ js. record js { fetching = true })
      (pick_least w.manager.heap wants_title none (values w.manager.jobs)) r m v refl (ground arith)

-- The owners, the pending calls and the flags of one job change together.
module _ (w : World) (r : ℕ) (js : JobState) (ids : js.id ≡ (w.manager.heap r).id)
    (deletings : js.deleting ≡ (w.manager.heap r).deleting)
    (removals : js.removal ≡ (w.manager.heap r).removal) (v : Inv w) where
  flags-Inv :
      (pc : DownloadPc) (first second : Option ℕ) (pending : ℕ → ℕ)
      → let w' = record w {
        manager = write w.manager r js;
        download = pc;
        first_title = first;
        second_title = second;
        pending = pending;
      } in
        ((i : ℕ) → holds (owned pc) i ≡ one_if (w'.manager.heap i).active)
        → ((i : ℕ) → holds first i + holds second i ≡ one_if (w'.manager.heap i).fetching)
        → ((i : ℕ)
            → pending i + has (w.removing i)
              ≡ one_if (
                  is_current w.manager i
                  && (w'.manager.heap i).deleting
                  && not (w'.manager.heap i).active
                  && not (w'.manager.heap i).fetching))
        → ((i : ℕ)
            → ((w'.manager.heap i).active || (w'.manager.heap i).fetching) ≡ true
            → is_current w.manager i ≡ true)
        → Inv w'
  flags-Inv pc first second pending active fetching due busy = record {
    distinct = v.distinct;
    registered = λ k i h. ground (arith, v.registered k i h);
    active = active;
    fetching = fetching;
    due = λ i. ground (arith, due i, write-current w.manager r i js ids);
    busy_current = λ i h. write-current w.manager r i js ids ∙ busy i h;
    attempt = λ i h.
        let old = v.attempt i (ground (arith, write-current w.manager r i js ids)) in
        (old.0, ground (arith, old), old.2, old.3);
    attempts_differ = λ i i' att h h' e e'.
        v.attempts_differ i i' att (ground (arith, write-current w.manager r i js ids))
          (ground (arith, write-current w.manager r i' js ids)) (ground arith) (ground arith);
    unused = v.unused;
    removing_attempt = λ i att h. ground (arith, v.removing_attempt i att h);
    saving_current =
        λ i j h. ground (arith, v.saving_current i j h, write-current w.manager r i js ids);
    disk_registered = v.disk_registered;
  }

module _ (w : World) (r : ℕ) (v : Inv w) where
  pub picks-Inv :
      (m : Manager)
      → w.download ≡ idle
      → take_download w.manager ≡ some (r, m)
      → Inv (record w { manager = m; download = picked r })
  picks-Inv m free h =
      let found = take_download-found w r m v h in
      let js : JobState = record (w.manager.heap r) { active = true } in
      subst (λ m'. Inv (record w { manager = m'; download = picked r })) found.2
        (flags-Inv w r js refl refl refl v (picked r) w.first_title w.second_title w.pending
          (λ i. ground (arith, v.active i, free, found.1)) (λ i. ground (arith, v.fetching i))
          (λ i. ground (arith, v.due i, found.1))
          (λ i b. ground (arith, v.busy_current i, found.0)))

  pub first_picks-Inv :
      (m : Manager)
      → w.first_title ≡ none
      → take_title w.manager ≡ some (r, m)
      → Inv (record w { manager = m; first_title = some r })
  first_picks-Inv m free h =
      let found = take_title-found w r m v h in
      let js : JobState = record (w.manager.heap r) { fetching = true } in
      subst (λ m'. Inv (record w { manager = m'; first_title = some r })) found.2
        (flags-Inv w r js refl refl refl v w.download (some r) w.second_title w.pending
          (λ i. ground (arith, v.active i)) (λ i. ground (arith, v.fetching i, free, found.1))
          (λ i. ground (arith, v.due i, found.1))
          (λ i b. ground (arith, v.busy_current i, found.0)))

  pub second_picks-Inv :
      (m : Manager)
      → w.second_title ≡ none
      → take_title w.manager ≡ some (r, m)
      → Inv (record w { manager = m; second_title = some r })
  second_picks-Inv m free h =
      let found = take_title-found w r m v h in
      let js : JobState = record (w.manager.heap r) { fetching = true } in
      subst (λ m'. Inv (record w { manager = m'; second_title = some r })) found.2
        (flags-Inv w r js refl refl refl v w.download w.first_title (some r) w.pending
          (λ i. ground (arith, v.active i)) (λ i. ground (arith, v.fetching i, free, found.1))
          (λ i. ground (arith, v.due i, found.1))
          (λ i b. ground (arith, v.busy_current i, found.0)))

  pub releases-Inv :
      w.download ≡ ended r
      → Inv (
          add_pending
            (record w { manager = (release_download w.manager r).0; download = idle })
            r
            (release_download w.manager r).1)
  unfolding release_download
  releases-Inv held =
      let js : JobState = record (w.manager.heap r) { active = false } in
      elim (Bool-cases ((w.manager.heap r).deleting && not (w.manager.heap r).fetching)) [
        | inl finish ↦ rw finish (
            flags-Inv w r js refl refl refl v idle w.first_title w.second_title
              (update w.pending r (suc (w.pending r))) (λ i. ground (arith, v.active i, held))
              (λ i. ground (arith, v.fetching i))
              (λ i. ground (arith, v.due i, v.active i, v.busy_current i, held, finish))
              (λ i b. ground (arith, v.busy_current i)))
        | inr leave ↦ rw leave (
            flags-Inv w r js refl refl refl v idle w.first_title w.second_title w.pending
              (λ i. ground (arith, v.active i, held)) (λ i. ground (arith, v.fetching i))
              (λ i. ground (arith, v.due i, v.active i, v.busy_current i, held, leave))
              (λ i b. ground (arith, v.busy_current i)))
      ]

  pub first_releases-Inv :
      w.first_title ≡ some r
      → Inv (
          add_pending
            (record w { manager = (release_title w.manager r).0; first_title = none })
            r
            (release_title w.manager r).1)
  unfolding release_title
  first_releases-Inv held =
      let js : JobState = record (w.manager.heap r) { fetching = false } in
      elim (Bool-cases ((w.manager.heap r).deleting && not (w.manager.heap r).active)) [
        | inl finish ↦ rw finish (
            flags-Inv w r js refl refl refl v w.download none w.second_title
              (update w.pending r (suc (w.pending r))) (λ i. ground (arith, v.active i))
              (λ i. ground (arith, v.fetching i, held))
              (λ i. ground (arith, v.due i, v.fetching i, v.busy_current i, held, finish))
              (λ i b. ground (arith, v.busy_current i)))
        | inr leave ↦ rw leave (
            flags-Inv w r js refl refl refl v w.download none w.second_title w.pending
              (λ i. ground (arith, v.active i)) (λ i. ground (arith, v.fetching i, held))
              (λ i. ground (arith, v.due i, v.fetching i, v.busy_current i, held, leave))
              (λ i b. ground (arith, v.busy_current i)))
      ]

  pub second_releases-Inv :
      w.second_title ≡ some r
      → Inv (
          add_pending
            (record w { manager = (release_title w.manager r).0; second_title = none })
            r
            (release_title w.manager r).1)
  unfolding release_title
  second_releases-Inv held =
      let js : JobState = record (w.manager.heap r) { fetching = false } in
      elim (Bool-cases ((w.manager.heap r).deleting && not (w.manager.heap r).active)) [
        | inl finish ↦ rw finish (
            flags-Inv w r js refl refl refl v w.download w.first_title none
              (update w.pending r (suc (w.pending r))) (λ i. ground (arith, v.active i))
              (λ i. ground (arith, v.fetching i, held))
              (λ i. ground (arith, v.due i, v.fetching i, v.busy_current i, held, finish))
              (λ i b. ground (arith, v.busy_current i)))
        | inr leave ↦ rw leave (
            flags-Inv w r js refl refl refl v w.download w.first_title none w.pending
              (λ i. ground (arith, v.active i)) (λ i. ground (arith, v.fetching i, held))
              (λ i. ground (arith, v.due i, v.fetching i, v.busy_current i, held, leave))
              (λ i b. ground (arith, v.busy_current i)))
      ]
