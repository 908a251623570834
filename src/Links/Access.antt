-- ===== src/Links/Access.antt =====
-- What a share link opens: lookups against issuing, revocation and other videos' links.
use personal_yt_downloader.Common.{
  ℕ, ◌+◌, ◌<◌, ◌≡◌, ◌≢◌, ◌↔◌, inl, inr, String, none, some, ltb, leb, if◌then◌else◌, str_eq, eq_iff,
  eq_refl, arith, lookup, put, values, lookup-put, lookup-delete, lookup-retain, lookup-retain-some,
  keep_if, length, Bool-cases, Option-cases,
}
use personal_yt_downloader.StateFile.{WriteResults}
use personal_yt_downloader.Links.{
  LinkEntry, LinkStore, link_ttl, max_links_per_video, is_live, is_for, is_not_for, sweep,
  prune_locked, revoke, oldest_link, evict_oldest, insert_link, issue, lookup_link, new_link,
}
use personal_yt_downloader.Links.Invariant.{
  IsValid, persist_links, sweep_links, evicted_entry, sweep-IsValid,
}

module _ (hash_token : String → String) where
  -- A lookup answers a video and a run exactly when the token is not empty and there is a link
  -- under its hash for that video and run which expires after the present time.
  pub lookup_link_iff :
      (s : LinkStore) (token : String) (now : ℕ) (video_id : String) (created_at : ℕ)
      → (lookup_link hash_token s token now ≡ some (video_id, created_at)) ↔ (
          (token ≢ "")
          × ((entry : LinkEntry) × (lookup (hash_token token) s.links ≡ some entry)
              × (now < entry.expires_at)
              × (entry.video_id ≡ video_id)
              × (entry.job_created_at ≡ created_at)))
  unfolding lookup_link
  lookup_link_iff s token now video_id created_at = (opened, λ h. ground (arith, eq_iff token ""))
    where
      opened :
          lookup_link hash_token s token now ≡ some (video_id, created_at)
          → (token ≢ "")
            × ((entry : LinkEntry) × (lookup (hash_token token) s.links ≡ some entry)
                × (now < entry.expires_at)
                × (entry.video_id ≡ video_id)
                × (entry.job_created_at ≡ created_at))
      opened h = elim (Option-cases (lookup (hash_token token) s.links)) [
        | inl missing ↦ absurd (ground (arith, eq_iff token ""))
        | inr (entry, found) ↦ (
          ground (arith, eq_iff token ""),
          (
            entry,
            found,
            ground (arith, eq_iff token ""),
            ground (arith, eq_iff token ""),
            ground (arith, eq_iff token ""),
          ),
        )
      ]

  -- After Revoke, in a well-formed store, no link of the video opens anything, and every other link
  -- is answered as before.
  pub lookup_link-revoke :
      (s : LinkStore) (video_id token : String) (now : ℕ) (io : WriteResults)
      → IsValid s
      → lookup_link hash_token (revoke s video_id io) token now
        ≡ (elim (lookup_link hash_token s token now) [
          | none ↦ none
          | some (found, created) ↦ if str_eq found video_id then none else some (found, created)
        ])
  unfolding revoke lookup_link
  lookup_link-revoke s video_id token now io v = ground (
    arith,
    sweep_links s (is_not_for video_id) io,
    lookup-retain (is_not_for video_id) (hash_token token) s.links v.distinct,
  )

  -- The token of a successful Issue, if not empty, opens the video and run that it was issued for
  -- until twenty four hours have passed, and nothing from then on.
  pub lookup_link-issue :
      (s : LinkStore) (now later : ℕ) (video_id : String) (created_at : ℕ) (token : String)
      (prune_io io : WriteResults)
      → token ≢ ""
      → (issue hash_token s now video_id created_at token prune_io io).1 ≢ none
      → lookup_link hash_token
          (issue hash_token s now video_id created_at token prune_io io).0
          token
          later
        ≡ (if ltb later (now + link_ttl) then some (video_id, created_at) else none)
  unfolding issue insert_link lookup_link
  lookup_link-issue s now later video_id created_at token prune_io io ne done =
      let entry = new_link hash_token now video_id created_at token in
      let before = evict_oldest (prune_locked s now prune_io) video_id in
      let m = put (hash_token token) entry before.links in
      ground (
        arith,
        eq_iff token "",
        eq_refl (hash_token token),
        persist_links (record before { links = m }) io,
        lookup-put (hash_token token) (hash_token token) entry before.links,
      )

  lookup-evict_other :
      (s : LinkStore) (video_id key : String) (entry : LinkEntry)
      → IsValid s
      → lookup key s.links ≡ some entry
      → entry.video_id ≢ video_id
      → lookup key (evict_oldest s video_id).links ≡ some entry
  unfolding evict_oldest
  lookup-evict_other s video_id key entry v found other =
      let mine = keep_if (is_for video_id) (values s.links) in
      let oldest = (oldest_link ("", 0) mine).0 in
      elim (Bool-cases (leb max_links_per_video (length mine))) [
        | inl full ↦
            let e = evicted_entry video_id s.links v.distinct v.keyed (ground arith) in
            rw full (
              ground (
                arith,
                e,
                lookup-delete oldest key s.links,
                eq_iff oldest key,
                eq_iff entry.video_id video_id,
              ))
        | inr room ↦ rw room found
      ]

  -- Issuing a link for one video, in a well-formed store and whatever happens to the writes, keeps
  -- every live link of another video under another hash than the new one.
  pub issue_keeps_others :
      (s : LinkStore) (now : ℕ) (video_id : String) (created_at : ℕ) (token key : String)
      (entry : LinkEntry) (prune_io io : WriteResults)
      → IsValid s
      → lookup key s.links ≡ some entry
      → now < entry.expires_at
      → entry.video_id ≢ video_id
      → key ≢ hash_token token
      → lookup key (issue hash_token s now video_id created_at token prune_io io).0.links
        ≡ some entry
  unfolding issue insert_link prune_locked
  issue_keeps_others s now video_id created_at token key entry prune_io io v found live other ne =
      let s' = sweep s (is_live now) prune_io in
      let before = evict_oldest s' video_id in
      let fresh = new_link hash_token now video_id created_at token in
      let m = put (hash_token token) fresh before.links in
      ground (
        arith,
        sweep_links s (is_live now) prune_io,
        lookup-retain-some (is_live now) key entry s.links v.distinct found,
        lookup-evict_other s' video_id key entry (sweep-IsValid s (is_live now) prune_io v),
        persist_links (record before { links = m }) io,
        lookup-put (hash_token token) key fresh before.links,
        lookup-delete (hash_token token) key m,
        eq_iff (hash_token token) key,
      )
