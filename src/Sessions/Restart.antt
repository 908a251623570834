-- ===== src/Sessions/Restart.antt =====
-- What survives a restart: persisting and loading again, under the same or another password.
use personal_yt_downloader.Common.{
  ℕ, ◌≡◌, refl, String, true, false, Option, none, some, [], ◌∷◌, if◌then◌else◌, str_eq, eq_iff,
  eq_refl, arith, All, Map, lookup, put, values, Distinct, lookup-put,
}
use personal_yt_downloader.StateFile.{content, WriteResults, persist_value_atomic}
use personal_yt_downloader.Sessions.{
  Session, SessionStore, new_session_store, persist_locked, is_loadable, load_sessions, loaded,
  load,
}
use personal_yt_downloader.Sessions.Invariant.{IsValid, IsKeyed}

-- A stored session if it is loaded, and what stood there otherwise.
abbrev or_fresh : ℕ → Option Session → Option Session → Option Session
or_fresh now none fresh = fresh
or_fresh now (some sess) fresh = if is_loadable now sess then some sess else fresh

lookup-load_sessions :
    (now : ℕ) (m fresh : Map Session) (k : String)
    → Distinct m
    → All IsKeyed m
    → lookup k (load_sessions now (values m) fresh) ≡ or_fresh now (lookup k m) (lookup k fresh)
unfolding load_sessions lookup
lookup-load_sessions now [] fresh k d keyed = refl
lookup-load_sessions now ((i, sess) ∷ m) fresh k d keyed =
    let next : Map Session =
      if is_loadable now sess then put sess.token_hash sess fresh else fresh in
    ground (
      arith,
      lookup-load_sessions now m next k d.1 keyed.1,
      lookup-put sess.token_hash k sess fresh,
      eq_iff i k,
      eq_iff sess.token_hash k,
      eq_refl k,
    )

persist_file :
    (s : SessionStore) (io : WriteResults)
    → (persist_locked s io).1 ≡ true
    → (persist_locked s io).0.file
      ≡ content (record { password = s.fp; sessions = values s.sessions })
unfolding persist_locked
persist_file s io h = ground (
  arith,
  persist_value_atomic io s.file (record { password = s.fp; sessions = values s.sessions }),
)

-- A well-formed session store that is persisted and loaded again answers, under the same password
-- fingerprint, with exactly the sessions that have not expired and whose CSRF token is not empty;
-- under another fingerprint it holds none of them; the load reports no error.
pub lookup-load-persist :
    (s : SessionStore) (io : WriteResults) (fingerprint k : String) (now : ℕ)
    → IsValid s
    → (persist_locked s io).1 ≡ true
    → let restarted = load (new_session_store (persist_locked s io).0.file fingerprint) now in
      (restarted.1 ≡ false)
      × (lookup k restarted.0.sessions
          ≡ (if str_eq s.fp fingerprint then or_fresh now (lookup k s.sessions) none else none))
unfolding load loaded new_session_store lookup
lookup-load-persist s io fingerprint k now v done =
    ground
      (arith, persist_file s io done, lookup-load_sessions now s.sessions [] k v.distinct v.keyed)
