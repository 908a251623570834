-- ===== src/Links/Invariant.antt =====
-- The well-formed states of LinkStore (internal/app/links.go), and the operations on them.
use personal_yt_downloader.Common.{
  ℕ, ◌+◌, ◌≤◌, ◌<◌, ◌≡◌, refl, ◌⊎◌, inl, inr, String, Bool, true, ◌||◌, Bool-cases, some, List, [],
  ◌∷◌, ltb, leb, if◌then◌else◌, str_eq, eq_iff, arith, length, keep_if, count_if, All, Map, lookup,
  put, delete, retain, values, Distinct, put-Distinct, delete-Distinct, retain-Distinct, put-All,
  delete-All, retain-All,
}
use personal_yt_downloader.StateFile.{WriteResults}
use personal_yt_downloader.Links.{
  LinkEntry, LinkStore, max_links_per_video, is_live, is_for, persist_locked, sweep, prune_locked,
  oldest_link, evict_oldest, insert_link, issue, new_link,
}

-- The key of an entry is its token hash.
abbrev pub IsKeyed : String × LinkEntry → Type 0
IsKeyed e = e.1.token_hash ≡ e.0

abbrev pub links_of : String → Map LinkEntry → ℕ
links_of video_id m = count_if (is_for video_id) (values m)

pub record IsValid (s : LinkStore) : Type 0 where
  pub distinct : Distinct s.links
  pub keyed : All IsKeyed s.links
  pub bounded : (video_id : String) → links_of video_id s.links ≤ max_links_per_video

pub persist_links : (s : LinkStore) (io : WriteResults) → (persist_locked s io).0.links ≡ s.links
unfolding persist_locked
persist_links s io = refl

pub sweep_links :
    (s : LinkStore) (keep : LinkEntry → Bool) (io : WriteResults)
    → (sweep s keep io).links ≡ retain keep s.links
unfolding sweep
sweep_links s keep io = ground (arith, persist_links (record s { links = retain keep s.links }) io)

module _ (p : LinkEntry → Bool) where
  pub count-put :
      (k : String) (v : LinkEntry) (m : Map LinkEntry)
      → count_if p (values (put k v m)) ≤ count_if p (values m) + (if p v then 1 else 0)
  unfolding put
  count-put k v [] = ground arith
  count-put k v ((i, w) ∷ m) = ground (arith, count-put k v m)

  pub count-delete-le :
      (k : String) (m : Map LinkEntry) → count_if p (values (delete k m)) ≤ count_if p (values m)
  unfolding delete
  count-delete-le k [] = omega arith
  count-delete-le k ((i, w) ∷ m) = ground (arith, count-delete-le k m)

  pub count-delete-lt :
      (k : String) (v : LinkEntry) (m : Map LinkEntry)
      → lookup k m ≡ some v
      → p v ≡ true
      → count_if p (values (delete k m)) < count_if p (values m)
  unfolding delete lookup
  count-delete-lt k v [] e h = cc
  count-delete-lt k v ((i, w) ∷ m) e h = ground (arith, count-delete-lt k v m, count-delete-le k m)

  pub count-retain-le :
      (keep : LinkEntry → Bool) (m : Map LinkEntry)
      → count_if p (values (retain keep m)) ≤ count_if p (values m)
  unfolding retain
  count-retain-le keep [] = omega arith
  count-retain-le keep ((i, w) ∷ m) = ground (arith, count-retain-le keep m)

  -- An entry of the map that passes the test is the one found under its token hash.
  found_under_hash :
      (k : String) (m : Map LinkEntry)
      → Distinct m
      → All IsKeyed m
      → 0 < count_if (λ e. str_eq e.token_hash k) (keep_if p (values m))
      → (v : LinkEntry) × (lookup k m ≡ some v) × (p v ≡ true)
  unfolding lookup
  found_under_hash k [] d keyed h = absurd (omega arith)
  found_under_hash k ((i, w) ∷ m) d keyed h = elim (Bool-cases (str_eq i k)) [
    | inl hit ↦ elim (Bool-cases (p w)) [
      | inl good ↦ (w, ground arith, good)
      | inr bad ↦
          let found = found_under_hash k m d.1 keyed.1 (ground arith) in
          absurd (ground (arith, eq_iff i k, found))
    ]
    | inr miss ↦
        let found = found_under_hash k m d.1 keyed.1 (ground (arith, eq_iff i k)) in
        (found.0, ground (arith, found), found.2)
  ]

-- The key that the loop ends with is the one it began with, or the hash of one of the links.
oldest_found :
    (found : String × ℕ) (mine : List LinkEntry)
    → ((oldest_link found mine).0 ≡ found.0)
      ⊎ (0 < count_if (λ e. str_eq e.token_hash (oldest_link found mine).0) mine)
unfolding oldest_link
oldest_found found [] = inl refl
oldest_found (k, t) (entry ∷ mine) =
    let next : String × ℕ =
      if str_eq k "" || ltb entry.created_at t
      then (entry.token_hash, entry.created_at)
      else (k, t) in
    ground (arith, oldest_found next mine, eq_iff entry.token_hash (oldest_link next mine).0)

oldest_is_mine :
    (mine : List LinkEntry)
    → 0 < length mine
    → 0 < count_if (λ e. str_eq e.token_hash (oldest_link ("", 0) mine).0) mine
unfolding oldest_link
oldest_is_mine [] h = absurd (omega arith)
oldest_is_mine (entry ∷ mine) h = ground (
  arith,
  oldest_found (entry.token_hash, entry.created_at) mine,
  eq_iff entry.token_hash (oldest_link (entry.token_hash, entry.created_at) mine).0,
)

-- The entry that `Issue` evicts is a link of the same video.
pub evicted_entry :
    (video_id : String) (m : Map LinkEntry)
    → Distinct m
    → All IsKeyed m
    → max_links_per_video ≤ length (keep_if (is_for video_id) (values m))
    → (v : LinkEntry) × (lookup (oldest_link ("", 0) (keep_if (is_for video_id) (values m))).0 m
        ≡ some v)
      × (is_for video_id v ≡ true)
evicted_entry video_id m d keyed h =
    let mine = keep_if (is_for video_id) (values m) in
    found_under_hash (is_for video_id) (oldest_link ("", 0) mine).0 m d keyed
      (oldest_is_mine mine (omega arith))

length-mine : (p : LinkEntry → Bool) (l : List LinkEntry) → length (keep_if p l) ≡ count_if p l
length-mine p [] = refl
length-mine p (e ∷ l) = ground (arith, length-mine p l)

-- `Revoke` and `Prune` keep the store well formed.
pub sweep-IsValid :
    (s : LinkStore) (keep : LinkEntry → Bool) (io : WriteResults)
    → IsValid s
    → IsValid (sweep s keep io)
sweep-IsValid s keep io v = rw (sweep_links s keep io) (record {
  distinct = retain-Distinct keep s.links v.distinct;
  keyed = retain-All IsKeyed keep s.links v.keyed;
  bounded = λ other. omega (arith, v.bounded other, count-retain-le (is_for other) keep s.links);
})

pub evict-IsValid :
    (s : LinkStore) (video_id : String) → IsValid s → IsValid (evict_oldest s video_id)
unfolding evict_oldest
evict-IsValid s video_id v =
    let key = (oldest_link ("", 0) (keep_if (is_for video_id) (values s.links))).0 in
    record {
      distinct = ground (arith, delete-Distinct key s.links v.distinct, v.distinct);
      keyed = ground (arith, delete-All IsKeyed key s.links v.keyed, v.keyed);
      bounded =
          λ other. ground (arith, v.bounded other, count-delete-le (is_for other) key s.links);
    }

evict_room :
    (s : LinkStore) (video_id : String)
    → IsValid s
    → links_of video_id (evict_oldest s video_id).links < max_links_per_video
unfolding evict_oldest
evict_room s video_id v =
    let mine = keep_if (is_for video_id) (values s.links) in
    let key = (oldest_link ("", 0) mine).0 in
    elim (Bool-cases (leb max_links_per_video (length mine))) [
      | inl full ↦
          let e = evicted_entry video_id s.links v.distinct v.keyed (ground arith) in
          rw full (
            omega (
              arith,
              v.bounded video_id,
              count-delete-lt (is_for video_id) key e.0 s.links e.1 e.2,
            ))
      | inr room ↦ rw room (ground (arith, length-mine (is_for video_id) (values s.links)))
    ]

module _ (hash_token : String → String) where
  insert-IsValid :
      (s : LinkStore) (now : ℕ) (video_id : String) (job_created_at : ℕ) (token : String)
      (io : WriteResults)
      → IsValid s
      → links_of video_id s.links < max_links_per_video
      → IsValid (insert_link hash_token s now video_id job_created_at token io).0
  unfolding insert_link
  insert-IsValid s now video_id job_created_at token io v room =
      let entry = new_link hash_token now video_id job_created_at token in
      let key = hash_token token in
      let m = put key entry s.links in
      let distinct = put-Distinct key entry s.links v.distinct in
      let keyed = put-All IsKeyed key entry s.links refl v.keyed in
      let same = persist_links (record s { links = m }) io in
      record {
        distinct = ground (arith, same, distinct, delete-Distinct key m distinct);
        keyed = ground (arith, same, keyed, delete-All IsKeyed key m keyed);
        bounded = λ other. ground (
          arith,
          same,
          v.bounded other,
          eq_iff video_id other,
          count-put (is_for other) key entry s.links,
          count-delete-le (is_for other) key m,
        );
      }

  -- Issue keeps the link store well formed: keyed by token hashes, no key twice, and never more
  -- than eight links for any video, whether or not the writes succeed.
  pub issue-IsValid :
      (s : LinkStore) (now : ℕ) (video_id : String) (job_created_at : ℕ) (token : String)
      (prune_io io : WriteResults)
      → IsValid s
      → IsValid (issue hash_token s now video_id job_created_at token prune_io io).0
  unfolding issue prune_locked
  issue-IsValid s now video_id job_created_at token prune_io io v =
      let pruned = sweep-IsValid s (is_live now) prune_io v in
      let s' = sweep s (is_live now) prune_io in
      insert-IsValid (evict_oldest s' video_id) now video_id job_created_at token io
        (evict-IsValid s' video_id pruned) (evict_room s' video_id pruned)
