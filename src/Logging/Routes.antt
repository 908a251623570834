-- ===== src/Logging/Routes.antt =====
-- What a log line can hold of a request's path (internal/app/logging.go).
use personal_yt_downloader.Common.{
  ◌≡◌, refl, ◌⊎◌, inl, inr, Bool, true, false, ◌&&◌, ◌||◌, not, List, [], ◌∷◌, ◌++◌, ◌==◌,
  if◌then◌else◌, Bool-cases, All, arith, All-append, leb,
}
use personal_yt_downloader.Common.Text.{Text, codes, text_eq, has_prefix, split}
use personal_yt_downloader.VideoUrl.{matches_id_pattern}
use personal_yt_downloader.Logging.{
  is_action, is_job_path, categorize_pieces, is_plain_route, categorize, logged_method, Line, info,
  warn, request_started, request_completed, Attributes, ResponseLog, completion, request_logging,
  Call, calls, fresh,
}

-- The labels of the routes.
abbrev pub labels : List Text
labels =
    codes "/healthz"
    ∷ codes "/api/login"
    ∷ codes "/api/session"
    ∷ codes "/api/logout"
    ∷ codes "/api/jobs"
    ∷ codes "/"
    ∷ codes "/assets"
    ∷ codes "/m/{token}"
    ∷ codes "/api/jobs/{id}"
    ∷ codes "/api/jobs/{id}/retry"
    ∷ codes "/api/jobs/{id}/link"
    ∷ codes "/api/jobs/{id}/download"
    ∷ codes "unknown"
    ∷ []

abbrev pub one_of : Text → List Text → Bool
one_of s [] = false
one_of s (l ∷ ls) = text_eq s l || one_of s ls

abbrev IsClean : Text × Text → Type 0
IsClean x = (one_of x.0 labels ≡ true) × ((x.1 ≡ []) ⊎ (matches_id_pattern x.1 ≡ true))

unknown-IsClean : IsClean (codes "unknown", [])
unfolding text_eq
unknown-IsClean = (refl, inl refl)

job-label : one_of (codes "/api/jobs/{id}") labels ≡ true
unfolding text_eq
job-label = refl

assets-IsClean : IsClean (codes "/assets", [])
unfolding text_eq
assets-IsClean = (refl, inl refl)

media-IsClean : IsClean (codes "/m/{token}", [])
unfolding text_eq
media-IsClean = (refl, inl refl)

action-label :
    (action : Text)
    → is_action action ≡ true
    → one_of (codes "/api/jobs/{id}/" ++ action) labels ≡ true
unfolding text_eq
action-label action h = ground (arith, h)

if-IsClean :
    (b : Bool) (x : Text × Text)
    → (b ≡ true → IsClean x)
    → IsClean (if b then x else (codes "unknown", []))
if-IsClean true x h = h refl
if-IsClean false x h = unknown-IsClean

pieces-IsClean : (pieces : List Text) → IsClean (categorize_pieces pieces)
unfolding categorize_pieces
pieces-IsClean [] = unknown-IsClean
pieces-IsClean (a ∷ []) = unknown-IsClean
pieces-IsClean (a ∷ b ∷ []) = unknown-IsClean
pieces-IsClean (a ∷ b ∷ c ∷ []) = unknown-IsClean
pieces-IsClean (root ∷ api ∷ jobs ∷ id ∷ []) =
    if-IsClean (is_job_path api jobs id) (codes "/api/jobs/{id}", id)
      (λ h. (job-label, inr (ground (arith, h))))
pieces-IsClean (root ∷ api ∷ jobs ∷ id ∷ action ∷ []) =
    if-IsClean (is_job_path api jobs id && is_action action) (codes "/api/jobs/{id}/" ++ action, id)
      (λ h. (action-label action (ground (arith, h)), inr (ground (arith, h))))
pieces-IsClean (a ∷ b ∷ c ∷ d ∷ e ∷ f ∷ ps) = unknown-IsClean

plain-IsClean : (path : Text) → is_plain_route path ≡ true → IsClean (path, [])
unfolding is_plain_route
plain-IsClean path h = (ground (arith, h), inl refl)

categorize-IsClean : (path : Text) → IsClean (categorize path)
unfolding categorize
categorize-IsClean path = elim (Bool-cases (is_plain_route path)) [
  | inl plain ↦ rw plain (plain-IsClean path plain)
  | inr other ↦ elim (Bool-cases (has_prefix path (codes "/assets/"))) [
    | inl asset ↦ rw (other, asset) assets-IsClean
    | inr no_asset ↦ elim (Bool-cases (has_prefix path (codes "/m/"))) [
      | inl media ↦ rw (other, no_asset, media) media-IsClean
      | inr no_media ↦ rw (other, no_asset, no_media) (pieces-IsClean (split b'/' path))
    ]
  ]
]

abbrev methods : List Text
methods =
    codes "GET"
    ∷ codes "HEAD"
    ∷ codes "POST"
    ∷ codes "PUT"
    ∷ codes "PATCH"
    ∷ codes "DELETE"
    ∷ codes "OPTIONS"
    ∷ codes "OTHER"
    ∷ []

other_method : one_of (codes "OTHER") methods ≡ true
unfolding text_eq
other_method = refl

logged_method-clean : (method : Text) → one_of (logged_method method) methods ≡ true
unfolding logged_method
logged_method-clean method = ground (arith, other_method)

abbrev pub attributes_of : Line → Attributes
attributes_of (request_started attrs) = attrs
attributes_of (request_completed level attrs status bytes failed) = attrs

-- The method and the route are fixed labels, and the job ID is absent or matches the pattern.
abbrev pub IsCleanLine : Line → Type 0
IsCleanLine line =
    let attrs = attributes_of line in
    (one_of attrs.method methods ≡ true)
    × (one_of attrs.route labels ≡ true)
    × ((attrs.job_id ≡ []) ⊎ (matches_id_pattern attrs.job_id ≡ true))

if-clean :
    (b : Bool) (xs ys : List Line)
    → All IsCleanLine xs
    → All IsCleanLine ys
    → All IsCleanLine (if b then xs else ys)
if-clean true xs ys h k = h
if-clean false xs ys h k = k

completion-clean :
    (quiet : Bool) (attrs : Attributes) (tracked : ResponseLog)
    → IsCleanLine (request_started attrs)
    → All IsCleanLine (completion quiet attrs tracked)
unfolding completion
completion-clean quiet attrs tracked h =
    let status = if tracked.status == 0 then 200 else tracked.status in
    if-clean (leb 400 status || tracked.write_failed)
      (request_completed warn attrs status tracked.bytes tracked.write_failed ∷ [])
      (if not quiet
        then request_completed info attrs status tracked.bytes tracked.write_failed ∷ []
        else [])
      (h, tt)
      (if-clean (not quiet)
        (request_completed info attrs status tracked.bytes tracked.write_failed ∷ []) [] (h, tt) tt)

-- Every line that requestLogging writes for a request has one of the eight method names, one of the
-- thirteen route labels, and no job ID or one that matches idPattern.
pub request_logging_clean :
    (method path : Text) (cs : List Call) → All IsCleanLine (request_logging method path cs)
unfolding request_logging
request_logging_clean method path cs =
    let (route_clean, id_clean) = categorize-IsClean path in
    let attrs : Attributes = record {
      method = logged_method method;
      route = (categorize path).0;
      job_id = (categorize path).1;
    } in
    let quiet = text_eq (categorize path).0 (codes "/healthz") in
    let clean : IsCleanLine (request_started attrs) =
      (logged_method-clean method, route_clean, id_clean) in
    All-append IsCleanLine (if not quiet then request_started attrs ∷ [] else [])
      (completion quiet attrs (calls fresh cs))
      (if-clean (not quiet) (request_started attrs ∷ []) [] (clean, tt) tt)
      (completion-clean quiet attrs (calls fresh cs) clean)
