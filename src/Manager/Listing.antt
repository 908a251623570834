-- ===== src/Manager/Listing.antt =====
-- The answer of List (internal/app/manager.go): the newest jobs first.
use personal_yt_downloader.Common.{
  ℕ, ◌≤◌, ◌≡◌, refl, inl, inr, Bool, true, false, List, [], ◌∷◌, map, values, All, count_if,
  Bool-cases, arith,
}
use personal_yt_downloader.Model.{JobView}
use personal_yt_downloader.Manager.State.{Manager, view_locked}
use personal_yt_downloader.Manager.Requests.{newer, insert_view, sort_views, list_views}

-- Nothing in the list was created after what stands before it.
abbrev pub IsSorted : List JobView → Type 0
IsSorted [] = Unit
IsSorted (v ∷ views) = All (λ w. w.created_at ≤ v.created_at) views × IsSorted views

newer_lem : (v w : JobView) → newer v w ≡ true → w.created_at ≤ v.created_at
unfolding newer
newer_lem v w h = ground (arith, h)

older_lem : (v w : JobView) → newer v w ≡ false → v.created_at ≤ w.created_at
unfolding newer
older_lem v w h = ground (arith, h)

raise_bound :
    (views : List JobView) (a b : ℕ)
    → a ≤ b
    → All (λ w. w.created_at ≤ a) views
    → All (λ w. w.created_at ≤ b) views
raise_bound [] a b h all = tt
raise_bound (w ∷ views) a b h (x, all) = (omega (arith, x, h), raise_bound views a b h all)

insert_view-All :
    (bound : ℕ) (v : JobView) (views : List JobView)
    → v.created_at ≤ bound
    → All (λ w. w.created_at ≤ bound) views
    → All (λ w. w.created_at ≤ bound) (insert_view v views)
unfolding insert_view
insert_view-All bound v [] h all = (h, tt)
insert_view-All bound v (w ∷ views) h (x, all) = elim (Bool-cases (newer v w)) [
  | inl first ↦ rw (insert_view, first) (h, (x, all))
  | inr later ↦ rw (insert_view, later) (x, insert_view-All bound v views h all)
]

insert_view-IsSorted :
    (v : JobView) (views : List JobView) → IsSorted views → IsSorted (insert_view v views)
unfolding insert_view
insert_view-IsSorted v [] h = (tt, tt)
insert_view-IsSorted v (w ∷ views) (all, sorted) = elim (Bool-cases (newer v w)) [
  | inl first ↦
      let below = newer_lem v w first in
      rw (insert_view, first)
        ((below, raise_bound views w.created_at v.created_at below all), (all, sorted))
  | inr later ↦
      rw (insert_view, later)
        (
          insert_view-All w.created_at v views (older_lem v w later) all,
          insert_view-IsSorted v views sorted,
        )
]

count_if-insert_view :
    (p : JobView → Bool) (v : JobView) (views : List JobView)
    → count_if p (insert_view v views) ≡ count_if p (v ∷ views)
unfolding insert_view
count_if-insert_view p v [] = refl
count_if-insert_view p v (w ∷ views) = ground (arith, count_if-insert_view p v views)

sort_views_lem :
    (p : JobView → Bool) (views : List JobView)
    → IsSorted (sort_views views) × (count_if p (sort_views views) ≡ count_if p views)
unfolding sort_views
sort_views_lem p [] = (tt, refl)
sort_views_lem p (v ∷ views) =
    let (sorted, count) = sort_views_lem p views in
    (
      insert_view-IsSorted v (sort_views views) sorted,
      ground (arith, count_if-insert_view p v (sort_views views), count),
    )

-- x
pub list_views-IsSorted :
    (m : Manager) (p : JobView → Bool)
    → IsSorted (list_views m)
      × (count_if p (list_views m) ≡ count_if p (map (λ r. view_locked (m.heap r)) (values m.jobs)))
unfolding list_views
list_views-IsSorted m p = sort_views_lem p (map (λ r. view_locked (m.heap r)) (values m.jobs))
