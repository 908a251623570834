-- ===== src/Links/Forgotten.antt =====
-- What the operations of LinkStore (internal/app/links.go) do to the links of one video.
use personal_yt_downloader.Common.{
  ℕ, ◌+◌, ◌≤◌, ◌≡◌, refl, ◌≢◌, ◌⊎◌, inl, inr, String, Bool, true, false, some, List, [], ◌∷◌, leb,
  eq_iff, arith, length, keep_if, count_if, Map, put, retain, values, Bool-cases,
}
use personal_yt_downloader.StateFile.{
  StateFile, missing, read_error, malformed, content, WriteResults, persist_value_atomic,
}
use personal_yt_downloader.Links.{
  LinkEntry, LinkStore, max_links_per_video, is_live, is_for, is_not_for, persist_locked, sweep,
  any_dropped, prune, prune_locked, revoke, oldest_link, evict_oldest, insert_link, issue, new_link,
  lookup_link, load, load_links, is_loadable,
}
use personal_yt_downloader.Links.Access.{lookup_link_iff}
use personal_yt_downloader.Links.Invariant.{
  links_of, count-put, count-delete-le, count-delete-lt, count-retain-le, sweep_links,
}

-- The links of the video in the file.
abbrev pub filed_links_of : String → StateFile (List LinkEntry) → ℕ
filed_links_of id (content entries) = count_if (is_for id) entries
filed_links_of id _ = 0

-- An operation that issues no link of the video. The process restarts, which loads the file, only if
-- `restarts`.
pub data Step (hash_token : String → String) (restarts : Bool) (id : String)
    : LinkStore → LinkStore → Type 0 where
  issues :
      {s : LinkStore} (now : ℕ) (video_id : String) (created_at : ℕ) (token : String)
      (prune_io io : WriteResults)
      → video_id ≢ id
      → Step hash_token restarts id s
          (issue hash_token s now video_id created_at token prune_io io).0
  prunes :
      {s : LinkStore} (now : ℕ) (io : WriteResults) → Step hash_token restarts id s (prune s now io)
  revokes :
      {s : LinkStore} (video_id : String) (io : WriteResults)
      → Step hash_token restarts id s (revoke s video_id io)
  starts :
      {s : LinkStore} (now : ℕ)
      → restarts ≡ true
      → Step hash_token restarts id s (load (record s { links = [] }) now).0

pub data Run (hash_token : String → String) (restarts : Bool) (id : String)
    : LinkStore → LinkStore → Type 0 where
  stays : {s : LinkStore} → Run hash_token restarts id s s
  goes :
      {s t u : LinkStore}
      → Run hash_token restarts id s t
      → Step hash_token restarts id t u
      → Run hash_token restarts id s u

-- The store holds no link of the video, and neither does the file, if the process restarts.
abbrev pub Forgets : Bool → String → LinkStore → Type 0
Forgets restarts id s =
    (links_of id s.links ≡ 0) × ((restarts ≡ false) ⊎ (filed_links_of id s.file ≡ 0))

module _ (restarts : Bool) (id : String) where
  persist-Forgets :
      (s : LinkStore) (io : WriteResults)
      → Forgets restarts id s
      → Forgets restarts id (persist_locked s io).0
  unfolding persist_locked
  persist-Forgets s io h = (
    h.0,
    elim h.1 [
      | inl never ↦ inl never
      | inr none_filed ↦
          inr (ground (arith, h.0, none_filed, persist_value_atomic io s.file (values s.links)))
    ],
  )

  sweep-Forgets :
      (s : LinkStore) (keep : LinkEntry → Bool) (io : WriteResults)
      → Forgets restarts id s
      → Forgets restarts id (sweep s keep io)
  unfolding sweep
  sweep-Forgets s keep io h =
      let swept = record s { links = retain keep s.links } in
      let here : Forgets restarts id swept =
        (omega (arith, h.0, count-retain-le (is_for id) keep s.links), h.1) in
      let filed = persist-Forgets swept io here in
      elim (Bool-cases (any_dropped keep s.links)) [
        | inl dropped ↦ rw dropped filed
        | inr same ↦ rw same here
      ]

  evict-Forgets :
      (s : LinkStore) (video_id : String)
      → Forgets restarts id s
      → Forgets restarts id (evict_oldest s video_id)
  unfolding evict_oldest
  evict-Forgets s video_id h =
      let mine = keep_if (is_for video_id) (values s.links) in
      let oldest = (oldest_link ("", 0) mine).0 in
      elim (Bool-cases (leb max_links_per_video (length mine))) [
        | inl full ↦ rw full (omega (arith, h.0, count-delete-le (is_for id) oldest s.links), h.1)
        | inr room ↦ rw room h
      ]

  module _ (hash_token : String → String) where
    insert-Forgets :
        (s : LinkStore) (now : ℕ) (video_id : String) (created_at : ℕ) (token : String)
        (io : WriteResults)
        → video_id ≢ id
        → Forgets restarts id s
        → Forgets restarts id (insert_link hash_token s now video_id created_at token io).0
    unfolding insert_link
    insert-Forgets s now video_id created_at token io other h =
        let entry = new_link hash_token now video_id created_at token in
        let m = put (hash_token token) entry s.links in
        let held : Forgets restarts id (record s { links = m }) = (
          ground (
            arith,
            other,
            h.0,
            eq_iff video_id id,
            count-put (is_for id) (hash_token token) entry s.links,
          ),
          h.1,
        ) in
        let s' = (persist_locked (record s { links = m }) io).0 in
        let kept = persist-Forgets (record s { links = m }) io held in
        elim (Bool-cases (persist_locked (record s { links = m }) io).1) [
          | inl done ↦ rw done kept
          | inr undone ↦ rw undone (
            omega (arith, kept.0, count-delete-le (is_for id) (hash_token token) s'.links),
            kept.1,
          )
        ]

    load_links_of :
        (now : ℕ) (entries : List LinkEntry) (fresh : Map LinkEntry)
        → links_of id (load_links now entries fresh)
          ≤ links_of id fresh + count_if (is_for id) entries
    unfolding load_links
    load_links_of now [] fresh = omega arith
    load_links_of now (entry ∷ entries) fresh = elim (Bool-cases (is_loadable now entry)) [
      | inl good ↦
          let rest = load_links_of now entries (put entry.token_hash entry fresh) in
          let added = count-put (is_for id) entry.token_hash entry fresh in
          ground (arith, good, rest, added)
      | inr bad ↦ ground (arith, bad, load_links_of now entries fresh)
    ]

    load_file :
        (s : LinkStore) (now : ℕ) (file : StateFile (List LinkEntry))
        → s.file ≡ file
        → filed_links_of id file ≡ 0
        → (links_of id (load (record s { links = [] }) now).0.links ≡ 0)
          × ((load (record s { links = [] }) now).0.file ≡ s.file)
    unfolding load
    load_file s now missing e h = rw (load, e) (refl, e)
    load_file s now read_error e h = rw (load, e) (refl, e)
    load_file s now malformed e h = rw (load, e) (refl, e)
    load_file s now (content entries) e h =
        rw (load, e) (omega (arith, h, load_links_of now entries []), e)

    load-Forgets :
        (s : LinkStore) (now : ℕ)
        → restarts ≡ true
        → Forgets restarts id s
        → Forgets restarts id (load (record s { links = [] }) now).0
    unfolding load
    load-Forgets s now again h = elim h.1 [
      | inl never ↦ absurd (ground (arith, again, never))
      | inr none_filed ↦
          let (emptied, kept) = load_file s now s.file refl none_filed in
          (emptied, inr (ground (arith, kept, none_filed)))
    ]

    -- The store goes on to hold no link of the video, whatever operations follow.
    Step-Forgets :
        {s t : LinkStore}
        → Step hash_token restarts id s t
        → Forgets restarts id s
        → Forgets restarts id t
    unfolding issue prune prune_locked revoke
    Step-Forgets {s} (issues now video_id created_at token prune_io io other) h =
        insert-Forgets (evict_oldest (prune_locked s now prune_io) video_id) now video_id created_at
          token io other
          (evict-Forgets (prune_locked s now prune_io) video_id
            (sweep-Forgets s (is_live now) prune_io h))
    Step-Forgets {s} (prunes now io) h = sweep-Forgets s (is_live now) io h
    Step-Forgets {s} (revokes video_id io) h = sweep-Forgets s (is_not_for video_id) io h
    Step-Forgets {s} (starts now again) h = load-Forgets s now again h

    pub Run-Forgets :
        {s t : LinkStore}
        → Run hash_token restarts id s t
        → Forgets restarts id s
        → Forgets restarts id t
    Run-Forgets stays h = h
    Run-Forgets (goes run step) h = Step-Forgets step (Run-Forgets run h)

    -- Where the store holds no link of the video, no token is found for it.
    pub lookup_link-Forgets :
        (s : LinkStore) (token : String) (now created_at : ℕ)
        → Forgets restarts id s
        → lookup_link hash_token s token now ≢ some (id, created_at)
    lookup_link-Forgets s token now created_at h e =
        let (named, (entry, found, live, mine, same)) =
          (lookup_link_iff hash_token s token now id created_at).0 e in
        absurd (
          ground (
            arith,
            h.0,
            mine,
            eq_iff entry.video_id id,
            count-delete-lt (is_for id) (hash_token token) entry s.links found,
          ))

retained_none : (id : String) (m : Map LinkEntry) → links_of id (retain (is_not_for id) m) ≡ 0
unfolding retain
retained_none id [] = refl
retained_none id ((k, entry) ∷ m) = ground (arith, retained_none id m)

-- Right after Revoke the store holds no link of the video. The file may hold one if its write fails.
pub revoke-Forgets :
    (restarts : Bool) (s : LinkStore) (id : String) (io : WriteResults)
    → (restarts ≡ false) ⊎ (filed_links_of id (revoke s id io).file ≡ 0)
    → Forgets restarts id (revoke s id io)
unfolding revoke
revoke-Forgets restarts s id io h =
    (ground (arith, sweep_links s (is_not_for id) io, retained_none id s.links), h)
