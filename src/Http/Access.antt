-- ===== src/Http/Access.antt =====
-- Who passes the guards of internal/app/http.go, and what an attempt to pass them changes.
use personal_yt_downloader.Common.{
  ℕ, ◌+◌, ◌<◌, ◌≡◌, refl, ◌≢◌, ◌↔◌, ◌⊎◌, inl, inr, String, Bool, true, false, Option, none, some,
  eq_iff, Bool-cases, lookup, arith,
}
use personal_yt_downloader.StateFile.{WriteResults}
use personal_yt_downloader.RateLimiter.{RateLimiter, attempt, adjudicate}
use personal_yt_downloader.RateLimiter.Window.{attempt_denied_blind}
use personal_yt_downloader.Sessions.{
  Session, SessionStore, Issued, create, insert_session, verify_csrf, new_session, session_ttl,
}
use personal_yt_downloader.Sessions.Access.{lookup_session_iff, lookup_session-create}
use personal_yt_downloader.Http.Guards.{
  Request, check_origin, passes, is_safe, admit_session, refusal, require_session, bearer_token,
  require_auth, Body, parse_body, other_media_type, decoded, login_with, handle_login, finish_login,
  second_value, no_media_type, too_large, bad_json,
}
use personal_yt_downloader.Common.Text.{Text}

module _ (hash_token : String → String) where
  -- A request whose cookie holds the token passes requireSession with a session exactly when its
  -- path is not opaque, the token is not empty, that session is stored under the token's hash and
  -- has not expired, and, unless the method is GET or HEAD, its origin is accepted and its CSRF
  -- token is that of the session.
  pub require_session_iff :
      (s : SessionStore) (r : Request) (token : String) (now : ℕ) (io : WriteResults)
      (sess : Session)
      → r.cookie ≡ some token
      → ((require_session hash_token s r now io).1 ≡ passes (some sess)) ↔ (
          (r.is_opaque ≡ false)
          × (token ≢ "")
          × (lookup (hash_token token) s.sessions ≡ some sess)
          × (now < sess.expires_at)
          × ((is_safe r.method ≡ true)
              ⊎ ((check_origin r ≡ true) × (verify_csrf sess r.csrf_header ≡ true))))
  unfolding require_session admit_session
  require_session_iff s r token now io sess h =
      ground (arith, lookup_session_iff hash_token s token now io sess, eq_iff token "")

  attempt_verified :
      (l : RateLimiter) (key : String) (now : ℕ) (good count_success : Bool)
      → (attempt l key now good count_success).1.allowed ≡ true
      → (attempt l key now good count_success).1.verified ≡ good
  unfolding attempt adjudicate
  attempt_verified l key now true count_success h = ground arith
  attempt_verified l key now false count_success h = ground arith

  -- A request whose Authorization header gives a Bearer token passes requireAuth exactly when its
  -- path is not opaque, the limiter lets the attempt through, and the token is the configured one,
  -- whatever its cookie, and without touching the sessions.
  pub require_auth_bearer :
      (verify : Text → Bool) (l : RateLimiter) (s : SessionStore) (r : Request) (token : Text)
      (ip : String) (now : ℕ) (io : WriteResults)
      → bearer_token r ≡ some token
      → let answer = require_auth hash_token verify l s r ip now io in
        (answer.0.1 ≡ s)
        × ((answer.1 ≡ passes none) ↔ (
            (r.is_opaque ≡ false)
            × ((attempt l ip now (verify token) false).1.allowed ≡ true)
            × (verify token ≡ true)))
  unfolding require_auth refusal
  require_auth_bearer verify l s r token ip now io h =
      ground (arith, attempt_verified l ip now (verify token) false)

  -- While the limiter turns a client away, a Bearer request gets the same answer and leaves the
  -- same state whichever token is the configured one.
  pub require_auth_blind :
      (verify verify' : Text → Bool) (l : RateLimiter) (s : SessionStore) (r : Request)
      (token : Text) (ip : String) (now : ℕ) (io : WriteResults)
      → bearer_token r ≡ some token
      → (attempt l ip now (verify token) false).1.allowed ≡ false
      → require_auth hash_token verify' l s r ip now io
        ≡ require_auth hash_token verify l s r ip now io
  unfolding require_auth
  require_auth_blind verify verify' l s r token ip now io h denied =
      ground
        (arith, attempt_denied_blind l ip now (verify token) (verify' token) false false denied)

  login_with_guarded :
      (verify : String → Bool) (l : RateLimiter) (s : SessionStore) (password : Option String)
      (ip : String) (now : ℕ) (token csrf : String) (prune_io io : WriteResults)
      → let answer = login_with hash_token verify l s password ip now token csrf prune_io io in
        (answer.0.1 ≡ s)
        ⊎ ((p : String) × (password ≡ some p)
            × (verify p ≡ true)
            × ((attempt l ip now (verify p) true).1.allowed ≡ true)
            × (answer.0.1 ≡ (create hash_token s now token csrf prune_io io).0))
  unfolding login_with refusal finish_login
  login_with_guarded verify l s none ip now token csrf prune_io io = inl refl
  login_with_guarded verify l s (some p) ip now token csrf prune_io io =
      let e = attempt_verified l ip now (verify p) true in
      elim (Bool-cases (attempt l ip now (verify p) true).1.allowed) [
        | inr denied ↦ inl (ground (arith, denied))
        | inl allowed ↦ elim (Bool-cases (verify p)) [
          | inr wrong ↦ inl (ground (arith, e allowed))
          | inl right ↦ inr (p, refl, right, allowed, ground (arith, e allowed))
        ]
      ]

  -- A login creates a session only if its origin is accepted, parseBody reports no error and gives
  -- a password, which it also does after it has answered an error to another media type or to a
  -- second JSON value, the limiter lets the attempt through, and the password is right; in every
  -- other case the sessions are untouched.
  pub handle_login_guarded :
      (verify : String → Bool) (l : RateLimiter) (s : SessionStore) (r : Request) (body : Body)
      (ip : String) (now : ℕ) (token csrf : String) (prune_io io : WriteResults)
      → let answer = handle_login hash_token verify l s r body ip now token csrf prune_io io in
        (answer.0.1 ≡ s)
        ⊎ ((check_origin r ≡ true)
            × ((p : String) × ((parse_body body).1 ≡ some p)
                × (verify p ≡ true)
                × ((attempt l ip now (verify p) true).1.allowed ≡ true)
                × (answer.0.1 ≡ (create hash_token s now token csrf prune_io io).0)))
  unfolding handle_login
  handle_login_guarded verify l s r body ip now token csrf prune_io io =
      elim (Bool-cases (check_origin r)) [
        | inr crossed ↦ inl (ground (arith, crossed))
        | inl accepted ↦
            elim (login_with_guarded verify l s (parse_body body).1 ip now token csrf prune_io io) [
              | inl same ↦ inl (ground (arith, accepted))
              | inr (p, parsed, right, allowed, made) ↦
                  inr (accepted, (p, parsed, right, allowed, ground (arith, accepted, made)))
            ]
      ]

  create_issued :
      (s : SessionStore) (now : ℕ) (token csrf : String) (prune_io io : WriteResults)
      (issued : Issued)
      → (create hash_token s now token csrf prune_io io).1 ≡ some issued
      → (issued.token ≡ token) × (issued.csrf ≡ csrf)
  unfolding create insert_session
  create_issued s now token csrf prune_io io issued h = ground arith

  login_with_issued :
      (verify : String → Bool) (l : RateLimiter) (s : SessionStore) (password : Option String)
      (ip : String) (now : ℕ) (token csrf : String) (prune_io io : WriteResults) (issued : Issued)
      → (login_with hash_token verify l s password ip now token csrf prune_io io).1.1 ≡ some issued
      → let made = create hash_token s now token csrf prune_io io in
        ((login_with hash_token verify l s password ip now token csrf prune_io io).0.1 ≡ made.0)
        × (made.1 ≡ some issued)
  unfolding login_with refusal finish_login
  login_with_issued verify l s none ip now token csrf prune_io io issued h = ground (arith, h)
  login_with_issued verify l s (some p) ip now token csrf prune_io io issued h = ground (arith, h)

  login_issued :
      (verify : String → Bool) (l : RateLimiter) (s : SessionStore) (r : Request) (body : Body)
      (ip : String) (now : ℕ) (token csrf : String) (prune_io io : WriteResults) (issued : Issued)
      → (handle_login hash_token verify l s r body ip now token csrf prune_io io).1.1.1
        ≡ some issued
      → let made = create hash_token s now token csrf prune_io io in
        ((handle_login hash_token verify l s r body ip now token csrf prune_io io).0.1 ≡ made.0)
        × (made.1 ≡ some issued)
  unfolding handle_login
  login_issued verify l s r body ip now token csrf prune_io io issued h =
      ground (
        arith,
        login_with_issued verify l s (parse_body body).1 ip now token csrf prune_io io issued,
      )

  -- The session cookie of a successful login, if not empty, lets a GET or HEAD request whose path
  -- is not opaque pass requireSession, until thirty days have passed, with a session whose CSRF
  -- token is the one that the login answered.
  pub require_session-handle_login :
      (verify : String → Bool) (l : RateLimiter) (s : SessionStore) (login r : Request)
      (body : Body) (ip : String) (now later : ℕ) (token csrf : String)
      (prune_io io io' : WriteResults) (issued : Issued)
      → token ≢ ""
      → (handle_login hash_token verify l s login body ip now token csrf prune_io io).1.1.1
        ≡ some issued
      → r.cookie ≡ some issued.token
      → r.is_opaque ≡ false
      → is_safe r.method ≡ true
      → later < now + session_ttl
      → let stores =
          (handle_login hash_token verify l s login body ip now token csrf prune_io io).0 in
        (sess : Session) × ((require_session hash_token stores.1 r later io').1
          ≡ passes (some sess))
        × (sess.csrf ≡ issued.csrf)
  unfolding require_session admit_session
  require_session-handle_login verify l s login r body ip now later token csrf prune_io io io'
        issued named h cookie clear safe soon =
      let made = login_issued verify l s login body ip now token csrf prune_io io issued h in
      let same = create_issued s now token csrf prune_io io issued made.1 in
      let found =
        lookup_session-create hash_token s now later token csrf prune_io io io' named
          (ground (arith, made.1)) in
      (
        new_session hash_token now token csrf,
        ground (arith, made.0, same, found, eq_iff token ""),
        ground (arith, same),
      )

  login_with_lem :
      (verify : String → Bool) (l : RateLimiter) (s : SessionStore) (password : Option String)
      (ip : String) (now : ℕ) (token csrf : String) (prune_io io : WriteResults) (issued : Issued)
      → ((login_with hash_token verify l s password ip now token csrf prune_io io).1.1
          ≡ some issued)
        ↔ ((p : String) × (password ≡ some p)
            × (verify p ≡ true)
            × ((attempt l ip now (verify p) true).1.allowed ≡ true)
            × ((create hash_token s now token csrf prune_io io).1 ≡ some issued))
  unfolding login_with refusal finish_login
  login_with_lem verify l s none ip now token csrf prune_io io issued = (
    (λ h. absurd (ground (arith, h))),
    λ (p, e, right, allowed, made). absurd (ground (arith, e)),
  )
  login_with_lem verify l s (some q) ip now token csrf prune_io io issued =
      let e = attempt_verified l ip now (verify q) true in
      (
        (λ h. (q, refl, ground (arith, h, e), ground (arith, h, e), ground (arith, h, e))),
        λ (p, same, right, allowed, made). ground (arith, e, same, right, allowed, made),
      )

  parse_body_double :
      (body : Body) (p : String)
      → (((parse_body body).0 ≢ none) × ((parse_body body).1 ≡ some p))
        ↔ ((body ≡ second_value p) ⊎ ((body ≡ other_media_type) × (p ≡ "")))
  unfolding parse_body
  parse_body_double no_media_type p = ground arith
  parse_body_double other_media_type p = ground arith
  parse_body_double too_large p = ground arith
  parse_body_double bad_json p = ground arith
  parse_body_double (second_value text) p = ground arith
  parse_body_double (decoded text) p = ground arith

  -- A login is answered an error by parseBody and yet issues a session exactly when its origin is
  -- accepted, its body is a valid object followed by a second JSON value, or is of another media
  -- type than JSON, which counts as the empty password, the limiter lets the attempt through, the
  -- password is right, and the session is stored.
  pub handle_login_double_answer :
      (verify : String → Bool) (l : RateLimiter) (s : SessionStore) (r : Request) (body : Body)
      (ip : String) (now : ℕ) (token csrf : String) (prune_io io : WriteResults) (issued : Issued)
      → let answer = handle_login hash_token verify l s r body ip now token csrf prune_io io in
        ((answer.1.0 ≢ none) × (answer.1.1.1 ≡ some issued)) ↔ (
          (check_origin r ≡ true)
          × ((p : String) × ((body ≡ second_value p) ⊎ ((body ≡ other_media_type) × (p ≡ "")))
              × (verify p ≡ true)
              × ((attempt l ip now (verify p) true).1.allowed ≡ true)
              × ((create hash_token s now token csrf prune_io io).1 ≡ some issued)))
  unfolding handle_login
  handle_login_double_answer verify l s r body ip now token csrf prune_io io issued = (
    (λ (written, h). (
      ground (arith, h),
      let (p, parsed, right, allowed, made) =
            (login_with_lem verify l s (parse_body body).1 ip now token csrf prune_io io issued).0
              (ground (arith, h)) in
          (
            p,
            (parse_body_double body p).0 (ground (arith, written, h), parsed),
            right,
            allowed,
            made,
          ),
    )),
    λ (accepted, (p, double, right, allowed, made)).
        let (written, parsed) = (parse_body_double body p).1 double in
        let answer =
          (login_with_lem verify l s (parse_body body).1 ip now token csrf prune_io io issued).1
            (p, parsed, right, allowed, made) in
        (ground (arith, accepted, written), ground (arith, accepted, answer)),
  )
