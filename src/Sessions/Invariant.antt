-- ===== src/Sessions/Invariant.antt =====
-- The well-formed states of SessionStore (internal/app/auth.go), and the operations on them.
use personal_yt_downloader.Common.{
  ℕ, ◌≤◌, ◌<◌, ◌≡◌, refl, ◌≢◌, ◌⊎◌, inl, String, ◌||◌, Option, none, some, [], ◌∷◌, ltb,
  if◌then◌else◌, str_eq, eq_iff, arith, length, All, Map, lookup, put, delete, retain, Distinct,
  put-Distinct, delete-Distinct, retain-Distinct, put-All, delete-All, retain-All, length-put-le,
  length-delete-le, length-delete-lt, length-retain-le,
}
use personal_yt_downloader.StateFile.{WriteResults}
use personal_yt_downloader.Sessions.{
  Session, SessionStore, max_sessions, is_alive, persist_locked, prune_locked, oldest_session,
  evict_oldest, insert_session, create, validate, lookup_session, revoke, new_session,
}

-- The key of an entry is its token hash, which is not empty.
abbrev pub IsKeyed : String × Session → Type 0
IsKeyed e = (e.1.token_hash ≡ e.0) × (e.0 ≢ "")

pub record IsValid (s : SessionStore) : Type 0 where
  pub distinct : Distinct s.sessions
  pub keyed : All IsKeyed s.sessions
  pub bounded : length s.sessions ≤ max_sessions

pub persist_sessions :
    (s : SessionStore) (io : WriteResults)
    → ((persist_locked s io).0.sessions ≡ s.sessions) × ((persist_locked s io).0.fp ≡ s.fp)
unfolding persist_locked
persist_sessions s io = (refl, refl)

pub prune_sessions :
    (s : SessionStore) (now : ℕ) (io : WriteResults)
    → ((prune_locked s now io).sessions ≡ retain (is_alive now) s.sessions)
      × ((prune_locked s now io).fp ≡ s.fp)
unfolding prune_locked
prune_sessions s now io =
    ground (arith, persist_sessions (record s { sessions = retain (is_alive now) s.sessions }) io)

-- The key that the loop ends with is the one it began with, or is in the map.
oldest_found :
    (found : String × ℕ) (m : Map Session)
    → ((oldest_session found m).0 ≡ found.0) ⊎ (lookup (oldest_session found m).0 m ≢ none)
unfolding oldest_session lookup
oldest_found found [] = inl refl
oldest_found (k, t) ((key, sess) ∷ m) =
    let next : String × ℕ =
      if str_eq k "" || ltb sess.created_at t then (key, sess.created_at) else (k, t) in
    ground (arith, oldest_found next m, eq_iff key (oldest_session next m).0)

evict_lookup :
    (key : String) (sess : Session) (m : Map Session)
    → lookup (oldest_session ("", 0) ((key, sess) ∷ m)).0 ((key, sess) ∷ m) ≢ none
unfolding oldest_session lookup
evict_lookup key sess m = ground (
  arith,
  oldest_found (key, sess.created_at) m,
  eq_iff key (oldest_session (key, sess.created_at) m).0,
)

abbrev evict_map : (m : Map Session) → Map Session
evict_map m = delete (oldest_session ("", 0) m).0 m

evict_map-lt : (m : Map Session) → max_sessions ≤ length m → length (evict_map m) < length m
evict_map-lt [] h = absurd (omega arith)
evict_map-lt ((key, sess) ∷ m) h =
    length-delete-lt (oldest_session ("", 0) ((key, sess) ∷ m)).0 ((key, sess) ∷ m)
      (evict_lookup key sess m)

pub evict-IsValid :
    (s : SessionStore)
    → IsValid s
    → IsValid (evict_oldest s) × (length (evict_oldest s).sessions < max_sessions)
unfolding evict_oldest
evict-IsValid s v =
    let key = (oldest_session ("", 0) s.sessions).0 in
    ground (
      arith,
      evict_map-lt s.sessions,
      delete-Distinct key s.sessions v.distinct,
      delete-All IsKeyed key s.sessions v.keyed,
    )

pub prune-IsValid :
    (s : SessionStore) (now : ℕ) (io : WriteResults) → IsValid s → IsValid (prune_locked s now io)
prune-IsValid s now io v = ground (
  arith,
  prune_sessions s now io,
  retain-Distinct (is_alive now) s.sessions v.distinct,
  retain-All IsKeyed (is_alive now) s.sessions v.keyed,
  length-retain-le (is_alive now) s.sessions,
)

module _ (hash_token : String → String) (nonempty : (token : String) → hash_token token ≢ "") where
  insert-IsValid :
      (s : SessionStore) (now : ℕ) (token csrf : String) (io : WriteResults)
      → IsValid s
      → length s.sessions < max_sessions
      → IsValid (insert_session hash_token s now token csrf io).0
  unfolding insert_session
  insert-IsValid s now token csrf io v lt =
      let sess = new_session hash_token now token csrf in
      let key = hash_token token in
      let m = put key sess s.sessions in
      let distinct = put-Distinct key sess s.sessions v.distinct in
      let keyed = put-All IsKeyed key sess s.sessions (refl, nonempty token) v.keyed in
      ground (
        arith,
        persist_sessions (record s { sessions = m }) io,
        distinct,
        keyed,
        length-put-le key sess s.sessions,
        delete-Distinct key m distinct,
        delete-All IsKeyed key m keyed,
        length-delete-le key m,
      )

  -- Create keeps the session store well formed: keyed by token hashes that are not empty, no key
  -- twice, and never more than twenty sessions, whether or not the writes succeed, if the hash of a
  -- token is never empty.
  pub create-IsValid :
      (s : SessionStore) (now : ℕ) (token csrf : String) (prune_io io : WriteResults)
      → IsValid s
      → IsValid (create hash_token s now token csrf prune_io io).0
  unfolding create
  create-IsValid s now token csrf prune_io io v =
      let evicted = evict-IsValid (prune_locked s now prune_io) (prune-IsValid s now prune_io v) in
      insert-IsValid (evict_oldest (prune_locked s now prune_io)) now token csrf io evicted.0
        evicted.1

delete-IsValid :
    (s : SessionStore) (key : String) (io : WriteResults)
    → IsValid s
    → IsValid (persist_locked (record s { sessions = delete key s.sessions }) io).0
delete-IsValid s key io v = ground (
  arith,
  persist_sessions (record s { sessions = delete key s.sessions }) io,
  delete-Distinct key s.sessions v.distinct,
  delete-All IsKeyed key s.sessions v.keyed,
  length-delete-le key s.sessions,
)

validate-IsValid :
    (s : SessionStore) (now : ℕ) (io : WriteResults) (found : Option Session)
    → IsValid s
    → IsValid (validate s now io found).0
unfolding validate
validate-IsValid s now io none v = v
validate-IsValid s now io (some sess) v = ground (arith, delete-IsValid s sess.token_hash io v)

module _ (hash_token : String → String) where
  pub lookup_session-IsValid :
      (s : SessionStore) (token : String) (now : ℕ) (io : WriteResults)
      → IsValid s
      → IsValid (lookup_session hash_token s token now io).0
  unfolding lookup_session
  lookup_session-IsValid s token now io v =
      ground (arith, validate-IsValid s now io (lookup (hash_token token) s.sessions) v)

  pub revoke-IsValid :
      (s : SessionStore) (token : String) (io : WriteResults)
      → IsValid s
      → IsValid (revoke hash_token s token io)
  unfolding revoke
  revoke-IsValid s token io v = ground (arith, delete-IsValid s (hash_token token) io v)
