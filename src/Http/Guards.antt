-- ===== src/Http/Guards.antt =====
-- requireSession, requireAuth, handleLogin and handleLogout of internal/app/http.go.
-- A request is what the handlers read of it; the clock, random tokens and the results of writes are
-- arguments. A response is its status code with what it carries.
use personal_yt_downloader.Common.{
  ℕ, ◌+◌, ◌/◌, String, Bool, true, false, ◌&&◌, ◌||◌, not, Option, none, some, if◌then◌else◌,
  str_eq, map, leb, [],
}
use personal_yt_downloader.StateFile.{WriteResults}
use personal_yt_downloader.RateLimiter.{RateLimiter, Verdict, attempt, second}
use personal_yt_downloader.Sessions.{
  Session, SessionStore, Issued, create, lookup_session, revoke, verify_csrf,
}
use personal_yt_downloader.Common.Text.{Text, cut, codes, text_eq, trim_space}

pub data Method : Type 0 where
  get head post delete_method : Method

-- What `url.Parse` makes of the Origin header.
pub record Url : Type 0 where
  pub scheme : String
  pub host : String
  pub has_user : Bool

-- `is_opaque` says that the path contains "//". `authorization` is the header of that name, as a
-- list of runes, and `origin_url` is the parsed `origin`.
pub record Request : Type 0 where
  pub method : Method
  pub host : String
  pub is_opaque : Bool
  pub cookie : Option String
  pub authorization : Text
  pub csrf_header : String
  pub origin : String
  pub origin_url : Option Url

unfoldable pub check_origin : Request → Bool
check_origin r = if str_eq r.origin "" then true else elim r.origin_url [
  | none ↦ false
  | some u ↦
      if u.has_user
      then false
      else (str_eq u.scheme "http" || str_eq u.scheme "https") && str_eq u.host r.host
]

-- What `mime.ParseMediaType` and the JSON decoder make of a body: the decoder is over the limit of
-- bytes in one of its two calls; the first call fails, or the second fails otherwise than with
-- io.EOF; the first gives the field and the second another JSON value; or it gives the field and
-- io.EOF.
pub data Body : Type 0 where
  no_media_type : Body
  other_media_type : Body
  too_large : Body
  bad_json : Body
  second_value : String → Body
  decoded : String → Body

-- `parseBody`: the error that it writes, and the field that the handler goes on to read, if it
-- reports no error. It writes an error and returns nil for another media type than JSON, where nil
-- is the error of `mime.ParseMediaType` and the field has its zero value, and for a second JSON
-- value, where nil is the error of the second `Decode`.
unfoldable pub parse_body : Body → Option ℕ × Option String
parse_body no_media_type = (some 415, none)
parse_body other_media_type = (some 415, some "")
parse_body too_large = (some 413, none)
parse_body bad_json = (some 400, none)
parse_body (second_value text) = (some 400, some text)
parse_body (decoded text) = (none, some text)

-- What a guard or a handler does: answer with an error of the status code, answer 429 with a
-- Retry-After header, go on (with the session that was found, if any), or return without an answer.
pub data Outcome : Type 0 where
  returns : Outcome
  api_error : ℕ → Outcome
  too_many_attempts : ℕ → Outcome
  passes : Option Session → Outcome

-- `int(wait.Seconds()) + 1`
unfoldable pub retry_after : ℕ → ℕ
retry_after wait = wait / second + 1

-- `strings.Cut(s, " ")`: what stands before the first space, or everything, and behind it.
unfoldable pub cut_scheme : Text → Text × Text
cut_scheme s = elim (cut b' ' s) [ none ↦ (s, []) | some pieces ↦ pieces ]

abbrev pub lower : ℕ → ℕ
lower r = if leb b'A' r && leb r b'Z' then r + 32 else r

-- `strings.EqualFold(s, "Bearer")`. No rune but their ASCII cases folds to one of these letters.
unfoldable pub is_bearer : Text → Bool
is_bearer s = text_eq (map lower s) (codes "bearer")

unfoldable pub bearer_token : Request → Option Text
unfolding cut_scheme is_bearer
bearer_token r =
    let (scheme, rest) = cut_scheme r.authorization in
    if is_bearer scheme then some (trim_space rest) else none

abbrev pub is_safe : Method → Bool
is_safe get = true
is_safe head = true
is_safe _ = false

-- The part of `requireSession` after the lookup.
unfoldable pub admit_session : Request → SessionStore × Option Session → SessionStore × Outcome
unfolding check_origin
admit_session r (s, none) = (s, api_error 401)
admit_session r (s, some sess) =
    if not (is_safe r.method) && (not (check_origin r) || not (verify_csrf sess r.csrf_header))
    then (s, api_error 403)
    else (s, passes (some sess))

-- The part of `requireAuth` and of `handleLogin` after the limiter's verdict: the error of a request
-- that is turned away or whose credential is wrong.
unfoldable pub refusal : Verdict → Option Outcome
unfolding retry_after
refusal v =
    if not v.allowed
    then some (too_many_attempts (retry_after v.wait))
    else if not v.verified
    then some (api_error 401)
    else none

module _ (hash_token : String → String) where
  unfoldable pub require_session :
      SessionStore → Request → ℕ → WriteResults → SessionStore × Outcome
  unfolding admit_session
  require_session s r now io = if r.is_opaque then (s, api_error 404) else elim r.cookie [
    | none ↦ (s, api_error 401)
    | some token ↦
        if str_eq token ""
        then (s, api_error 401)
        else admit_session r (lookup_session hash_token s token now io)
  ]

  -- `verify_api_token` is the comparison with the configured token, and `ip` the client's key.
  unfoldable pub require_auth :
      (Text → Bool)
      → RateLimiter
      → SessionStore
      → Request
      → String
      → ℕ
      → WriteResults
      → (RateLimiter × SessionStore) × Outcome
  unfolding bearer_token refusal require_session
  require_auth verify_api_token l s r ip now io = elim (bearer_token r) [
    | some token ↦
        if r.is_opaque
        then ((l, s), api_error 404)
        else let (l', v) = attempt l ip now (verify_api_token token) false in
          ((l', s), elim (refusal v) [ some o ↦ o | none ↦ passes none ])
    | none ↦ let (s', o) = require_session s r now io in ((l, s'), o)
  ]

  -- What a login answers: an error, or the session cookie with the CSRF token and the expiry.
  unfoldable pub finish_login :
      SessionStore × Option Issued → SessionStore × (Outcome × Option Issued)
  finish_login (s, none) = (s, (api_error 500, none))
  finish_login (s, some issued) = (s, (passes none, some issued))

  -- The part of `handleLogin` after the body: `password` is none if `parseBody` reports an error.
  unfoldable pub login_with :
      (String → Bool)
      → RateLimiter
      → SessionStore
      → Option String
      → String
      → ℕ
      → String
      → String
      → WriteResults
      → WriteResults
      → (RateLimiter × SessionStore) × (Outcome × Option Issued)
  unfolding refusal finish_login
  login_with verify l s none ip now token csrf prune_io io = ((l, s), (returns, none))
  login_with verify l s (some p) ip now token csrf prune_io io =
      let (l', v) = attempt l ip now (verify p) true in
      elim (refusal v) [
        | some o ↦ ((l', s), (o, none))
        | none ↦
            let (s', answer) = finish_login (create hash_token s now token csrf prune_io io) in
            ((l', s'), answer)
      ]

  -- The two stores, the error that `parseBody` has already written, and what follows it.
  unfoldable pub handle_login :
      (String → Bool)
      → RateLimiter
      → SessionStore
      → Request
      → Body
      → String
      → ℕ
      → String
      → String
      → WriteResults
      → WriteResults
      → (RateLimiter × SessionStore) × (Option ℕ × (Outcome × Option Issued))
  unfolding check_origin parse_body login_with
  handle_login verify l s r body ip now token csrf prune_io io =
      if not (check_origin r)
      then ((l, s), (none, (api_error 403, none)))
      else let (written, password) = parse_body body in
        let (stores, answer) = login_with verify l s password ip now token csrf prune_io io in
        (stores, (written, answer))

  -- The session that the request's cookie names is revoked; the cookie is cleared in any case.
  unfoldable pub handle_logout : SessionStore → Request → WriteResults → SessionStore
  handle_logout s r io = elim r.cookie [ none ↦ s | some token ↦ revoke hash_token s token io ]
