-- ===== src/Links.antt =====
-- LinkStore of internal/app/links.go: the share links of completed videos. Each method holds the
-- lock throughout, so it is one step; the clock, the random token and the results of the writes are
-- arguments, and hashToken is a parameter.
pub mod Invariant
pub mod Access
pub mod Forgotten
use personal_yt_downloader.Common.{
  ℕ, ◌+◌, ◌*◌, String, Bool, true, false, ◌&&◌, ◌||◌, not, Option, none, some, List, [], ◌∷◌, ltb,
  leb, if◌then◌else◌, str_eq, length, keep_if, Map, lookup, put, delete, retain, values,
}
use personal_yt_downloader.StateFile.{
  StateFile, missing, read_error, malformed, content, WriteResults, persist_value,
}

abbrev pub link_ttl : ℕ
link_ttl = 24 * 3600 * 1_000_000_000

abbrev pub max_links_per_video : ℕ
max_links_per_video = 8

pub record LinkEntry : Type 0 where
  pub token_hash : String
  pub video_id : String
  pub job_created_at : ℕ
  pub created_at : ℕ
  pub expires_at : ℕ

pub record LinkStore : Type 0 where
  pub file : StateFile (List LinkEntry)
  pub links : Map LinkEntry

abbrev pub is_live : ℕ → LinkEntry → Bool
is_live now entry = ltb now entry.expires_at

abbrev pub is_for : String → LinkEntry → Bool
is_for video_id entry = str_eq entry.video_id video_id

abbrev pub is_not_for : String → LinkEntry → Bool
is_not_for video_id entry = not (is_for video_id entry)

unfoldable pub persist_locked : LinkStore → WriteResults → LinkStore × Bool
persist_locked s io =
    let (file, done) = persist_value io s.file (values s.links) in (record s { file = file }, done)

-- Whether the loop of `pruneLocked` or `Revoke` finds an entry to delete: one failing the test.
unfoldable pub any_dropped : (LinkEntry → Bool) → Map LinkEntry → Bool
any_dropped keep [] = false
any_dropped keep ((key, entry) ∷ m) = not (keep entry) || any_dropped keep m

-- The loop that deletes the entries failing the test, and persists if there was one.
unfoldable pub sweep : LinkStore → (LinkEntry → Bool) → WriteResults → LinkStore
unfolding any_dropped
sweep s keep io =
    let swept = record s { links = retain keep s.links } in
    if any_dropped keep s.links then (persist_locked swept io).0 else swept

unfoldable pub prune_locked : LinkStore → ℕ → WriteResults → LinkStore
prune_locked s now io = sweep s (is_live now) io

unfoldable pub prune : LinkStore → ℕ → WriteResults → LinkStore
prune s now io = prune_locked s now io

-- `Revoke`: every link of the video.
unfoldable pub revoke : LinkStore → String → WriteResults → LinkStore
revoke s video_id io = sweep s (is_not_for video_id) io

-- The loop over `mine` that looks for the oldest entry; the empty key is "none yet".
unfoldable pub oldest_link : String × ℕ → List LinkEntry → String × ℕ
oldest_link found [] = found
oldest_link (oldest_key, oldest) (entry ∷ mine) =
    oldest_link
      (if str_eq oldest_key "" || ltb entry.created_at oldest
        then (entry.token_hash, entry.created_at)
        else (oldest_key, oldest))
      mine

unfoldable pub evict_oldest : LinkStore → String → LinkStore
unfolding oldest_link
evict_oldest s video_id =
    let mine = keep_if (is_for video_id) (values s.links) in
    if leb max_links_per_video (length mine)
    then record s { links = delete (oldest_link ("", 0) mine).0 s.links }
    else s

module _ (hash_token : String → String) where
  abbrev pub new_link : ℕ → String → ℕ → String → LinkEntry
  new_link now video_id job_created_at token = record {
    token_hash = hash_token token;
    video_id = video_id;
    job_created_at = job_created_at;
    created_at = now;
    expires_at = now + link_ttl;
  }

  -- The last part of `Issue`: the entry is taken back if it cannot be persisted.
  unfoldable pub insert_link :
      LinkStore → ℕ → String → ℕ → String → WriteResults → LinkStore × Option (String × ℕ)
  insert_link s now video_id job_created_at token io =
      let entry = new_link now video_id job_created_at token in
      let (s', done) =
        persist_locked (record s { links = put entry.token_hash entry s.links }) io in
      if done
      then (s', some (token, entry.expires_at))
      else (record s' { links = delete entry.token_hash s'.links }, none)

  -- `prune_io` and `io` are the results of the two writes.
  unfoldable pub issue :
      LinkStore
      → ℕ
      → String
      → ℕ
      → String
      → WriteResults
      → WriteResults
      → LinkStore × Option (String × ℕ)
  issue s now video_id job_created_at token prune_io io =
      insert_link (evict_oldest (prune_locked s now prune_io) video_id) now video_id job_created_at
        token io

  -- `Lookup`: the video and the creation time of its job.
  unfoldable pub lookup_link : LinkStore → String → ℕ → Option (String × ℕ)
  lookup_link s token now =
      if str_eq token "" then none else elim (lookup (hash_token token) s.links) [
        | none ↦ none
        | some entry ↦
            if is_live now entry then some (entry.video_id, entry.job_created_at) else none
      ]

abbrev pub is_loadable : ℕ → LinkEntry → Bool
is_loadable now entry =
    is_live now entry && not (str_eq entry.token_hash "") && not (str_eq entry.video_id "")

-- The loop of `Load` over the stored entries.
unfoldable pub load_links : ℕ → List LinkEntry → Map LinkEntry → Map LinkEntry
load_links now [] fresh = fresh
load_links now (entry ∷ l) fresh =
    load_links now l (if is_loadable now entry then put entry.token_hash entry fresh else fresh)

-- The flag says that an error is reported.
unfoldable pub load : LinkStore → ℕ → LinkStore × Bool
load s now = elim s.file [
  | missing ↦ (s, false)
  | read_error ↦ (s, true)
  | malformed ↦ (s, true)
  | content entries ↦ (record s { links = load_links now entries [] }, false)
]
