-- ===== src/Manager/Queue.antt =====
-- The order in which the workers of internal/app/manager.go take up jobs.
use personal_yt_downloader.Common.{
  ℕ, ◌≤◌, ◌<◌, ◌≡◌, ◌≢◌, ◌⊎◌, inl, inr, Bool, true, false, Option, none, some, List, [], ◌∷◌, ltb,
  ◌==◌, All, count_if, values, Bool-cases, arith, Option-cases,
}
use personal_yt_downloader.Manager.State.{JobState, Manager, write}
use personal_yt_downloader.Manager.Workers.{
  pick_least, wants_download, wants_title, pick_queued_locked, pick_title_locked, take_download,
  take_title,
}

-- The job at the address is taken from the candidates, and none that passes the test was queued
-- earlier.
abbrev pub IsFirst : (ℕ → JobState) → (JobState → Bool) → List ℕ → ℕ → Type 0
IsFirst heap wanted refs x =
    (wanted (heap x) ≡ true)
    × (0 < count_if (λ i. i == x) refs)
    × All (λ r. (wanted (heap r) ≡ false) ⊎ ((heap x).seq ≤ (heap r).seq)) refs

module _ (heap : ℕ → JobState) (wanted : JobState → Bool) where
  -- The best so far is not better than the result.
  abbrev NotBefore : ℕ → Option ℕ → Type 0
  NotBefore x none = Unit
  NotBefore x (some b) = (heap x).seq ≤ (heap b).seq

  abbrev Comes : ℕ → Option ℕ → List ℕ → Type 0
  Comes x best refs =
      (best ≡ some x) ⊎ ((wanted (heap x) ≡ true) × (0 < count_if (λ i. i == x) refs))

  pick_least-some :
      (best : Option ℕ) (refs : List ℕ) (x : ℕ)
      → pick_least heap wanted best refs ≡ some x
      → Comes x best refs
        × NotBefore x best
        × All (λ r. (wanted (heap r) ≡ false) ⊎ ((heap x).seq ≤ (heap r).seq)) refs
  unfolding pick_least
  pick_least-some none [] x h = absurd (ground (arith, h))
  pick_least-some (some b) [] x h = (inl h, ground (arith, h), tt)
  pick_least-some none (r ∷ refs) x h = elim (Bool-cases (wanted (heap r))) [
    | inl hit ↦
        let again = pick_least-some (some r) refs x (ground (arith, h, hit)) in
        ground (arith, again, hit)
    | inr miss ↦
        let again = pick_least-some none refs x (ground (arith, h, miss)) in
        ground (arith, again, miss)
  ]
  pick_least-some (some b) (r ∷ refs) x h = elim (Bool-cases (wanted (heap r))) [
    | inr miss ↦
        let again = pick_least-some (some b) refs x (ground (arith, h, miss)) in
        ground (arith, again, miss)
    | inl hit ↦ elim (Bool-cases (ltb (heap r).seq (heap b).seq)) [
      | inl better ↦
          let again = pick_least-some (some r) refs x (ground (arith, h, hit, better)) in
          ground (arith, again, hit, better)
      | inr worse ↦
          let again = pick_least-some (some b) refs x (ground (arith, h, hit, worse)) in
          ground (arith, again, hit, worse)
    ]
  ]

  pick_least_found : (b : ℕ) (refs : List ℕ) → pick_least heap wanted (some b) refs ≢ none
  unfolding pick_least
  pick_least_found b [] h = ground (arith, h)
  pick_least_found b (r ∷ refs) h = elim (Bool-cases (wanted (heap r))) [
    | inr miss ↦ pick_least_found b refs (ground (arith, h, miss))
    | inl hit ↦ elim (Bool-cases (ltb (heap r).seq (heap b).seq)) [
      | inl better ↦ pick_least_found r refs (ground (arith, h, hit, better))
      | inr worse ↦ pick_least_found b refs (ground (arith, h, hit, worse))
    ]
  ]

  pick_least-none :
      (refs : List ℕ)
      → pick_least heap wanted none refs ≡ none
      → All (λ r. wanted (heap r) ≡ false) refs
  unfolding pick_least
  pick_least-none [] h = tt
  pick_least-none (r ∷ refs) h = elim (Bool-cases (wanted (heap r))) [
    | inl hit ↦ absurd (pick_least_found r refs (ground (arith, h, hit)))
    | inr miss ↦ (miss, pick_least-none refs (ground (arith, h, miss)))
  ]

  pick_least-cases :
      (refs : List ℕ)
      → ((pick_least heap wanted none refs ≡ none) × All (λ r. wanted (heap r) ≡ false) refs)
        ⊎ ((x : ℕ) × (pick_least heap wanted none refs ≡ some x) × IsFirst heap wanted refs x)
  pick_least-cases refs = elim (Option-cases (pick_least heap wanted none refs)) [
    | inl e ↦ inl (e, pick_least-none refs e)
    | inr (x, e) ↦
        let (comes, free, all) = pick_least-some none refs x e in inr (x, e, from_refs comes all)
  ]
    where
      from_refs :
          {x : ℕ}
          → Comes x none refs
          → All (λ r. (wanted (heap r) ≡ false) ⊎ ((heap x).seq ≤ (heap r).seq)) refs
          → IsFirst heap wanted refs x
      from_refs (inl e) all = absurd (ground (arith, e))
      from_refs (inr (hit, there)) all = (hit, there, all)

-- What a worker's turn takes: nothing, and then no registered job passes the test; or the first job
-- that does, marked as its own.
abbrev pub Takes :
    Manager → (JobState → Bool) → (JobState → JobState) → Option (ℕ × Manager) → Type 0
Takes m wanted marked taken =
    ((taken ≡ none) × All (λ r. wanted (m.heap r) ≡ false) (values m.jobs))
    ⊎ ((r : ℕ) × (taken ≡ some (r, write m r (marked (m.heap r))))
        × IsFirst m.heap wanted (values m.jobs) r)

-- While the manager is not closing, the turn of the download worker, and of a title worker, takes
-- nothing exactly when no registered job passes its test, and else marks as its own a registered
-- job that passes it, and none that does was queued earlier.
pub take-Takes :
    (m : Manager)
    → m.closing ≡ false
    → Takes m wants_download (λ js. record js { active = true }) (take_download m)
      × Takes m wants_title (λ js. record js { fetching = true }) (take_title m)
unfolding take_download take_title pick_queued_locked pick_title_locked
take-Takes m open_now = (download_turn, title_turn)
  where
    download_turn : Takes m wants_download (λ js. record js { active = true }) (take_download m)
    download_turn = elim (pick_least-cases m.heap wants_download (values m.jobs)) [
      | inl (e, all) ↦ inl (ground (arith, open_now, e), all)
      | inr (r, e, first) ↦ inr (r, ground (arith, open_now, e), first)
    ]

    title_turn : Takes m wants_title (λ js. record js { fetching = true }) (take_title m)
    title_turn = elim (pick_least-cases m.heap wants_title (values m.jobs)) [
      | inl (e, all) ↦ inl (ground (arith, open_now, e), all)
      | inr (r, e, first) ↦ inr (r, ground (arith, open_now, e), first)
    ]
