-- ===== src/Sessions/Access.antt =====
-- Who gets in: a lookup against the issued sessions, expiry and revocation.
use personal_yt_downloader.Common.{
  ℕ, ◌+◌, ◌≤◌, ◌<◌, ◌≡◌, ◌≢◌, ◌↔◌, String, none, some, ltb, if◌then◌else◌, str_eq, eq_iff, eq_refl,
  arith, lookup, put, delete, lookup-put, lookup-delete, All-lookup,
}
use personal_yt_downloader.StateFile.{WriteResults}
use personal_yt_downloader.Sessions.{
  Session, SessionStore, session_ttl, prune_locked, evict_oldest, insert_session, create, validate,
  lookup_session, revoke, new_session,
}
use personal_yt_downloader.Sessions.Invariant.{IsValid, IsKeyed, persist_sessions}

module _ (hash_token : String → String) where
  -- A lookup returns a session exactly when the token is not empty, its hash is the key of that
  -- session, and the session expires after the present time.
  pub lookup_session_iff :
      (s : SessionStore) (token : String) (now : ℕ) (io : WriteResults) (sess : Session)
      → ((lookup_session hash_token s token now io).1 ≡ some sess) ↔ (
          (token ≢ "")
          × (lookup (hash_token token) s.sessions ≡ some sess)
          × (now < sess.expires_at))
  unfolding lookup_session validate
  lookup_session_iff s token now io sess = ground (arith, eq_iff token "")

  -- A lookup that finds an expired session in a well-formed store drops it and keeps every other
  -- entry.
  pub lookup_session_expired :
      (s : SessionStore) (token other : String) (now : ℕ) (io : WriteResults) (sess : Session)
      → IsValid s
      → token ≢ ""
      → lookup (hash_token token) s.sessions ≡ some sess
      → sess.expires_at ≤ now
      → lookup other (lookup_session hash_token s token now io).0.sessions
        ≡ (if str_eq (hash_token token) other then none else lookup other s.sessions)
  unfolding lookup_session validate
  lookup_session_expired s token other now io sess v ne found late = ground (
    arith,
    eq_iff token "",
    All-lookup IsKeyed (hash_token token) sess s.sessions v.keyed found,
    persist_sessions (record s { sessions = delete sess.token_hash s.sessions }) io,
    lookup-delete sess.token_hash other s.sessions,
  )

  -- After Revoke of a token that is not empty, that token is refused at every time, and a token
  -- with another hash is answered as before.
  pub lookup_session-revoke :
      (s : SessionStore) (token other : String) (now : ℕ) (io io' : WriteResults)
      → token ≢ ""
      → (lookup_session hash_token (revoke hash_token s token io) other now io').1 ≡ (
          if str_eq (hash_token token) (hash_token other)
          then none
          else (lookup_session hash_token s other now io').1)
  unfolding revoke lookup_session validate
  lookup_session-revoke s token other now io io' ne = ground (
    arith,
    eq_iff token "",
    eq_iff (hash_token token) (hash_token other),
    persist_sessions (record s { sessions = delete (hash_token token) s.sessions }) io,
    lookup-delete (hash_token token) (hash_token other) s.sessions,
  )

  -- The credentials of a successful Create with a token that is not empty open the session just
  -- made until thirty days have passed, and nothing from then on.
  pub lookup_session-create :
      (s : SessionStore) (now later : ℕ) (token csrf : String) (prune_io io io' : WriteResults)
      → token ≢ ""
      → (create hash_token s now token csrf prune_io io).1 ≢ none
      → (lookup_session hash_token
          (create hash_token s now token csrf prune_io io).0
          token
          later
          io').1
        ≡ (if ltb later (now + session_ttl)
            then some (new_session hash_token now token csrf)
            else none)
  unfolding create insert_session lookup_session validate
  lookup_session-create s now later token csrf prune_io io io' ne done =
      let sess = new_session hash_token now token csrf in
      let before = evict_oldest (prune_locked s now prune_io) in
      let m = put (hash_token token) sess before.sessions in
      ground (
        arith,
        eq_iff token "",
        eq_refl (hash_token token),
        persist_sessions (record before { sessions = m }) io,
        lookup-put (hash_token token) (hash_token token) sess before.sessions,
      )
