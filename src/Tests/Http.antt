-- ===== src/Tests/Http.antt =====
-- The guards and the login on concrete inputs.
use personal_yt_downloader.Common.{
  ◌+◌, ◌<◌, ◌≡◌, refl, ◌≢◌, ◌↔◌, ◌⊎◌, String, Bool, true, false, none, some, [], ◌∷◌, if◌then◌else◌,
  str_eq, eq_iff, lookup, put, delete, retain, arith, List,
}
use personal_yt_downloader.StateFile.{missing, all_succeed, persist_value, write_file_sync}
use personal_yt_downloader.RateLimiter.{
  RateLimiter, attempt, adjudicate, prune_key_locked, check_locked, check_tally, wait_from, tally,
  count_attempt, older, entries, record_locked, new_rate_limiter,
}
use personal_yt_downloader.Sessions.{
  Session, SessionStore, Issued, create, lookup_session, verify_csrf, insert_session, evict_oldest,
  oldest_session, prune_locked, any_expired, persist_locked, validate, session_ttl,
}
use personal_yt_downloader.Http.Guards.{
  Request, get, post, check_origin, passes, is_safe, require_session, require_auth, bearer_token,
  handle_login, login_with, finish_login, parse_body, refusal, retry_after, admit_session, decoded,
  other_media_type, second_value, cut_scheme, is_bearer,
}
use personal_yt_downloader.Http.Access.{
  require_session_iff, require_auth_bearer, require_auth_blind, handle_login_guarded,
  require_session-handle_login, handle_login_double_answer,
}
use personal_yt_downloader.Http.ClientIp.{
  Netip, client_ip, walk, judge, trusted_proxy, client_ip_unforgeable, last_outside,
  remote_addr_host, forwarded, join_values,
}
use personal_yt_downloader.Common.Text.{Text, codes, text_eq, is_space}

program : Unit {0}
unfolding lookup put delete retain persist_value write_file_sync attempt adjudicate prune_key_locked
    check_locked check_tally wait_from tally count_attempt older entries record_locked
    new_rate_limiter create lookup_session verify_csrf insert_session evict_oldest oldest_session
    prune_locked any_expired persist_locked validate check_origin require_session require_auth
    bearer_token cut_scheme is_bearer handle_login login_with finish_login parse_body refusal
    retry_after admit_session client_ip walk judge remote_addr_host forwarded join_values text_eq
    is_space trusted_proxy
program = tt

abbrev plain : String → String
plain token = token

abbrev stored : Session
stored = record { token_hash = "a"; csrf = "c"; created_at = 1; expires_at = 50 }

abbrev store : SessionStore
store = record { file = missing; fp = "f"; sessions = ("a", stored) ∷ [] }

abbrev limiter : RateLimiter
limiter = new_rate_limiter 10 2 5

-- No failure is allowed.
abbrev strict : RateLimiter
strict = new_rate_limiter 10 0 5

abbrev token : String
token = "a"

abbrev request : Request
request = record {
  method = post;
  host = "h";
  is_opaque = false;
  cookie = some "a";
  authorization = [];
  csrf_header = "c";
  origin = "";
  origin_url = none;
}

abbrev bearer : Request
bearer = record request { authorization = codes "bEARer  key " }

abbrev is_key : String → Bool
is_key t = str_eq t "key"

abbrev key : Text
key = codes "key"

abbrev is_api_token : Text → Bool
is_api_token t = text_eq t key

require_session_iff_example :
    ((require_session plain store request 9 all_succeed).1 ≡ passes (some stored)) ↔ (
      (request.is_opaque ≡ false)
      × (token ≢ "")
      × (lookup "a" store.sessions ≡ some stored)
      × (9 < 50)
      × ((is_safe request.method ≡ true)
          ⊎ ((check_origin request ≡ true) × (verify_csrf stored "c" ≡ true))))
require_session_iff_example = require_session_iff plain store request "a" 9 all_succeed stored refl

require_auth_bearer_example :
    let answer = require_auth plain is_api_token limiter store bearer "ip" 9 all_succeed in
    (answer.0.1 ≡ store)
    × ((answer.1 ≡ passes none) ↔ (
        (bearer.is_opaque ≡ false)
        × ((attempt limiter "ip" 9 (is_api_token key) false).1.allowed ≡ true)
        × (is_api_token key ≡ true)))
unfolding program
require_auth_bearer_example =
    require_auth_bearer plain is_api_token limiter store bearer key "ip" 9 all_succeed refl

require_auth_blind_example :
    require_auth plain (λ t. false) strict store bearer "ip" 9 all_succeed
    ≡ require_auth plain is_api_token strict store bearer "ip" 9 all_succeed
unfolding program
require_auth_blind_example =
    require_auth_blind plain is_api_token (λ t. false) strict store bearer key "ip" 9 all_succeed
      refl refl

handle_login_guarded_example :
    let answer =
      handle_login plain is_key limiter store request
        (decoded "key")
        "ip"
        9
        "b"
        "d"
        all_succeed
        all_succeed in
    (answer.0.1 ≡ store)
    ⊎ ((check_origin request ≡ true)
        × ((p : String) × ((parse_body (decoded "key")).1 ≡ some p)
            × (is_key p ≡ true)
            × ((attempt limiter "ip" 9 (is_key p) true).1.allowed ≡ true)
            × (answer.0.1 ≡ (create plain store 9 "b" "d" all_succeed all_succeed).0)))
handle_login_guarded_example =
    handle_login_guarded plain is_key limiter store request (decoded "key") "ip" 9 "b" "d"
      all_succeed all_succeed

abbrev issued : Issued
issued = record { token = "b"; csrf = "d"; expires = 9 + session_ttl }

abbrev reading : Request
reading = record request { method = get; cookie = some "b" }

require_session-handle_login_example :
    let stores =
      (handle_login plain is_key limiter store request
        (decoded "key")
        "ip"
        9
        "b"
        "d"
        all_succeed
        all_succeed).0 in
    (sess : Session) × ((require_session plain stores.1 reading 10 all_succeed).1
      ≡ passes (some sess))
    × (sess.csrf ≡ issued.csrf)
unfolding program
require_session-handle_login_example =
    require_session-handle_login plain is_key limiter store request reading (decoded "key") "ip" 9
      10 "b" "d" all_succeed all_succeed all_succeed issued (ground (arith, eq_iff "b" "")) refl
      refl refl refl (omega arith)

handle_login_double_answer_example :
    let answer =
      handle_login plain is_key limiter store request
        (second_value "key")
        "ip"
        9
        "b"
        "d"
        all_succeed
        all_succeed in
    ((answer.1.0 ≢ none) × (answer.1.1.1 ≡ some issued)) ↔ (
      (check_origin request ≡ true)
      × ((p : String) × ((second_value "key" ≡ second_value p)
            ⊎ ((second_value "key" ≡ other_media_type) × (p ≡ "")))
          × (is_key p ≡ true)
          × ((attempt limiter "ip" 9 (is_key p) true).1.allowed ≡ true)
          × ((create plain store 9 "b" "d" all_succeed all_succeed).1 ≡ some issued)))
handle_login_double_answer_example =
    handle_login_double_answer plain is_key limiter store request (second_value "key") "ip" 9 "b"
      "d" all_succeed all_succeed issued

-- A request whose body holds a second JSON value is answered 400, and yet logged in.
answered_twice :
    (handle_login plain is_key limiter store request
      (second_value "key")
      "ip"
      9
      "b"
      "d"
      all_succeed
      all_succeed).1
    ≡ (some 400, (passes none, some issued))
unfolding program
answered_twice = refl

-- Addresses are texts, a prefix holds one address, and the peer has no port.
abbrev texts : Netip
texts = record {
  Addr = Text;
  Prefix = Text;
  parse_addr = λ s. if text_eq s [] then none else some s;
  unmap = λ a. a;
  contains = λ p a. text_eq p a;
  show_addr = λ a. a;
  split_host_port = λ s. none;
}

abbrev me : Text
me = codes "me"

abbrev proxy : Text
proxy = codes "p"

-- Two header lines, the second one appended by the proxy.
abbrev lines : List Text
lines = codes "forged," ∷ codes " me , p" ∷ []

client_ip_unforgeable_example :
    (client_ip texts (proxy ∷ []) proxy lines ≡ me)
    × (last_outside texts (proxy ∷ []) proxy proxy (codes "forged" ∷ me ∷ proxy ∷ []) ≡ me)
unfolding program
client_ip_unforgeable_example =
    client_ip_unforgeable texts (proxy ∷ []) proxy me lines (codes "forged" ∷ []) (proxy ∷ [])
      ((proxy, refl, refl), tt)
