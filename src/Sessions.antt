-- ===== src/Sessions.antt =====
-- Session and SessionStore of internal/app/auth.go. Each method holds the lock throughout, so it is
-- one step; the clock, the random tokens and the results of the writes are arguments, and the hash
-- of a token (hashToken: SHA-256, hexadecimal) is a parameter.
pub mod Invariant
pub mod Access
pub mod Restart
use personal_yt_downloader.Common.{
  ℕ, ◌+◌, ◌*◌, ◌≡◌, String, Bool, true, false, ◌&&◌, ◌||◌, not, Option, none, some, List, [], ◌∷◌,
  ltb, leb, if◌then◌else◌, str_eq, length, Map, lookup, put, delete, retain, values,
}
use personal_yt_downloader.StateFile.{
  StateFile, missing, read_error, malformed, content, WriteResults, persist_value,
}

abbrev pub session_ttl : ℕ
session_ttl = 30 * 24 * 3600 * 1_000_000_000

abbrev pub max_sessions : ℕ
max_sessions = 20

pub record Session : Type 0 where
  pub token_hash : String
  pub csrf : String
  pub created_at : ℕ
  pub expires_at : ℕ

pub record SessionFile : Type 0 where
  pub password : String
  pub sessions : List Session

-- `file` is what stands at `path`.
pub record SessionStore : Type 0 where
  pub file : StateFile SessionFile
  pub fp : String
  pub sessions : Map Session

unfoldable pub new_session_store : StateFile SessionFile → String → SessionStore
new_session_store file fingerprint = record { file = file; fp = fingerprint; sessions = [] }

-- `sess.ExpiresAt.After(now)`
abbrev pub is_alive : ℕ → Session → Bool
is_alive now sess = ltb now sess.expires_at

unfoldable pub persist_locked : SessionStore → WriteResults → SessionStore × Bool
persist_locked s io =
    let (file, done) =
      persist_value io s.file (record { password = s.fp; sessions = values s.sessions }) in
    (record s { file = file }, done)

-- Whether the loop of `pruneLocked` finds an expired session.
unfoldable pub any_expired : ℕ → Map Session → Bool
any_expired now [] = false
any_expired now ((key, sess) ∷ m) = not (is_alive now sess) || any_expired now m

unfoldable pub prune_locked : SessionStore → ℕ → WriteResults → SessionStore
unfolding any_expired
prune_locked s now io =
    let pruned = record s { sessions = retain (is_alive now) s.sessions } in
    if any_expired now s.sessions then (persist_locked pruned io).0 else pruned

-- The loop that looks for the oldest session; the empty key is "none yet".
unfoldable pub oldest_session : String × ℕ → Map Session → String × ℕ
oldest_session found [] = found
oldest_session (oldest_key, oldest) ((key, sess) ∷ m) =
    oldest_session
      (if str_eq oldest_key "" || ltb sess.created_at oldest
        then (key, sess.created_at)
        else (oldest_key, oldest))
      m

unfoldable pub evict_oldest : SessionStore → SessionStore
unfolding oldest_session
evict_oldest s =
    if leb max_sessions (length s.sessions)
    then record s { sessions = delete (oldest_session ("", 0) s.sessions).0 s.sessions }
    else s

-- The credentials that `Create` hands out.
pub record Issued : Type 0 where
  pub token : String
  pub csrf : String
  pub expires : ℕ

-- An expired session is deleted when it is met.
unfoldable pub validate :
    SessionStore → ℕ → WriteResults → Option Session → SessionStore × Option Session
validate s now io none = (s, none)
validate s now io (some sess) =
    if is_alive now sess
    then (s, some sess)
    else ((persist_locked (record s { sessions = delete sess.token_hash s.sessions }) io).0, none)

module _ (hash_token : String → String) where
  abbrev pub new_session : ℕ → String → String → Session
  new_session now token csrf = record {
    token_hash = hash_token token;
    csrf = csrf;
    created_at = now;
    expires_at = now + session_ttl;
  }

  -- The last part of `Create`: the entry is taken back if it cannot be persisted.
  unfoldable pub insert_session :
      SessionStore → ℕ → String → String → WriteResults → SessionStore × Option Issued
  insert_session s now token csrf io =
      let sess = new_session now token csrf in
      let (s', done) =
        persist_locked (record s { sessions = put sess.token_hash sess s.sessions }) io in
      if done
      then (s', some (record { token = token; csrf = csrf; expires = sess.expires_at }))
      else (record s' { sessions = delete sess.token_hash s'.sessions }, none)

  -- `prune_io` and `io` are the results of the two writes.
  unfoldable pub create :
      SessionStore
      → ℕ
      → String
      → String
      → WriteResults
      → WriteResults
      → SessionStore × Option Issued
  create s now token csrf prune_io io =
      insert_session (evict_oldest (prune_locked s now prune_io)) now token csrf io

  unfoldable pub lookup_session :
      SessionStore → String → ℕ → WriteResults → SessionStore × Option Session
  lookup_session s token now io =
      if str_eq token ""
      then (s, none)
      else validate s now io (lookup (hash_token token) s.sessions)

  unfoldable pub revoke : SessionStore → String → WriteResults → SessionStore
  revoke s token io = if str_eq token "" then s else elim (lookup (hash_token token) s.sessions) [
    | none ↦ s
    | some _ ↦ (persist_locked (record s { sessions = delete (hash_token token) s.sessions }) io).0
  ]

unfoldable pub verify_csrf : Session → String → Bool
verify_csrf sess token = str_eq sess.csrf token

unfoldable pub revoke_all : SessionStore → WriteResults → SessionStore
revoke_all s io = (persist_locked (record s { sessions = [] }) io).0

unfoldable pub prune : SessionStore → ℕ → WriteResults → SessionStore
prune s now io = prune_locked s now io

abbrev pub is_loadable : ℕ → Session → Bool
is_loadable now sess =
    is_alive now sess && not (str_eq sess.token_hash "") && not (str_eq sess.csrf "")

-- The loop of `Load` over the stored sessions.
unfoldable pub load_sessions : ℕ → List Session → Map Session → Map Session
load_sessions now [] fresh = fresh
load_sessions now (sess ∷ l) fresh =
    load_sessions now l (if is_loadable now sess then put sess.token_hash sess fresh else fresh)

unfoldable pub loaded : SessionStore → ℕ → SessionFile → Map Session
loaded s now file = if str_eq file.password s.fp then load_sessions now file.sessions [] else []

-- The flag says that an error is reported.
unfoldable pub load : SessionStore → ℕ → SessionStore × Bool
load s now = elim s.file [
  | missing ↦ (s, false)
  | read_error ↦ (s, true)
  | malformed ↦ (s, true)
  | content file ↦ (record s { sessions = loaded s now file }, false)
]
