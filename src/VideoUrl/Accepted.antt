-- ===== src/VideoUrl/Accepted.antt =====
-- Which URLs VideoID (internal/app/model.go) accepts, and what it makes of them.
use personal_yt_downloader.Common.{
  ℕ, ◌≤◌, ◌≡◌, refl, ◌≢◌, ◌⊎◌, Bool, true, false, Option, none, some, List, [], ◌∷◌, ◌++◌,
  if◌then◌else◌, Bool-cases, inl, inr, arith, subst,
}
use personal_yt_downloader.Common.Text.{
  Text, codes, text_eq, text_eq_iff, trim_suffix, split-piece, contains_byte, trim_suffix-append,
  trim_suffix-tail, text_eq_refl,
}
use personal_yt_downloader.VideoUrl.{
  ParsedUrl, all_id_chars, matches_id_pattern, is_main_host, watch_id, player_id, candidate,
  checked, video_id,
}

no_slash : (s : Text) → all_id_chars s ≡ true → contains_byte b'/' s ≡ false
unfolding all_id_chars
no_slash [] h = refl
no_slash (c ∷ s) h = ground (arith, no_slash s)

no_dot : (s : Text) → all_id_chars s ≡ true → contains_byte b'.' s ≡ false
unfolding all_id_chars
no_dot [] h = refl
no_dot (c ∷ s) h = ground (arith, no_dot s)

checked_lem :
    (o : Option Text) (id : Text)
    → checked o ≡ some id
    → (o ≡ some id) × (matches_id_pattern id ≡ true)
unfolding checked
checked_lem none id h = ground (arith, h)
checked_lem (some s) id h = ground (arith, h)

-- An ID that VideoID accepts matches idPattern, has no slash and no dot, and comes from a text of
-- at most 4096 bytes whose URL is http or https, without a user and a port, on youtu.be or one of
-- the four YouTube hosts.
pub video_id_safe :
    (size : ℕ) (u : ParsedUrl) (id : Text)
    → video_id size (some u) ≡ some id
    → (matches_id_pattern id ≡ true)
      × (contains_byte b'/' id ≡ false)
      × (contains_byte b'.' id ≡ false)
      × (size ≤ 4096)
      × (u.has_user ≡ false)
      × (u.has_port ≡ false)
      × ((u.scheme ≡ codes "https") ⊎ (u.scheme ≡ codes "http"))
      × ((text_eq u.host (codes "youtu.be") ≡ true) ⊎ (is_main_host u.host ≡ true))
unfolding video_id candidate matches_id_pattern
video_id_safe size u id h =
    let path = trim_suffix b'/' u.path in
    ground (
      arith,
      h,
      checked_lem (candidate u path) id,
      no_slash id,
      no_dot id,
      text_eq_iff u.scheme (codes "https"),
      text_eq_iff u.scheme (codes "http"),
    )

-- The forms of a link to one video.
pub data Form : Type 0 where
  short_link watch shorts live embed : Form

abbrev pub host_of : Form → Text → Text
host_of short_link host = codes "youtu.be"
host_of _ host = host

abbrev pub path_of : Form → Text → Text
path_of short_link id = b'/' ∷ id
path_of watch id = codes "/watch"
path_of shorts id = codes "/shorts/" ++ id
path_of live id = codes "/live/" ++ id
path_of embed id = codes "/embed/" ++ id

abbrev pub query_of : Form → Option (List Text) → Text → Option (List Text)
query_of watch query id = some (id ∷ [])
query_of _ query id = query

-- The link of the form, on a host, with other parameters, and with or without a slash at the end.
abbrev pub link : Form → Text → Option (List Text) → Bool → Text → ParsedUrl
link form host query slash id = record {
  scheme = codes "https";
  has_user = false;
  has_port = false;
  host = host_of form host;
  path = if slash then path_of form id ++ b'/' ∷ [] else path_of form id;
  query = query_of form query id;
}

trimmed_path :
    (form : Form) (slash : Bool) (c : ℕ) (id : Text)
    → contains_byte b'/' (c ∷ id) ≡ false
    → trim_suffix b'/' (if slash then path_of form (c ∷ id) ++ b'/' ∷ [] else path_of form (c ∷ id))
      ≡ path_of form (c ∷ id)
trimmed_path form true c id h = trim_suffix-append b'/' (path_of form (c ∷ id))
trimmed_path short_link false c id h = trim_suffix-tail b'/' c (codes "/") id h
trimmed_path watch false c id h = refl
trimmed_path shorts false c id h = trim_suffix-tail b'/' c (codes "/shorts/") id h
trimmed_path live false c id h = trim_suffix-tail b'/' c (codes "/live/") id h
trimmed_path embed false c id h = trim_suffix-tail b'/' c (codes "/embed/") id h

short_not_main : is_main_host (codes "youtu.be") ≢ true
unfolding text_eq
short_not_main = cc

not_short : (host : Text) → is_main_host host ≡ true → text_eq host (codes "youtu.be") ≡ false
not_short host h = elim (Bool-cases (text_eq host (codes "youtu.be"))) [
  | inr other ↦ other
  | inl hit ↦
      let e = (text_eq_iff host (codes "youtu.be")).0 hit in
      absurd (short_not_main (subst (λ x. is_main_host x ≡ true) e h))
]

module _ (host : Text) (query : Option (List Text)) (slash : Bool) (c : ℕ) (id : Text) where
  candidate-link :
      (form : Form)
      → is_main_host host ≡ true
      → contains_byte b'/' (c ∷ id) ≡ false
      → candidate (link form host query slash (c ∷ id)) (path_of form (c ∷ id)) ≡ some (c ∷ id)
  unfolding candidate watch_id player_id text_eq
  candidate-link short_link main h = refl
  candidate-link watch main h = rw (not_short host main, main) refl
  candidate-link shorts main h =
      rw (not_short host main, main) (ground (arith, split-piece b'/' (c ∷ id)))
  candidate-link live main h =
      rw (not_short host main, main) (ground (arith, split-piece b'/' (c ∷ id)))
  candidate-link embed main h =
      rw (not_short host main, main) (ground (arith, split-piece b'/' (c ∷ id)))

-- The link to a video in any of the five forms, on any of the four YouTube hosts (youtu.be for the
-- short form), with or without a slash at its end, is accepted as that video, if its ID matches
-- idPattern and the text has at most 4096 bytes.
pub video_id-link :
    (form : Form) (host : Text) (query : Option (List Text)) (slash : Bool) (size : ℕ) (id : Text)
    → is_main_host host ≡ true
    → matches_id_pattern id ≡ true
    → size ≤ 4096
    → video_id size (some (link form host query slash id)) ≡ some id
unfolding video_id matches_id_pattern checked
video_id-link form host query slash size [] main valid small = ground (arith, valid)
video_id-link form host query slash size (c ∷ id) main valid small =
    let piece = no_slash (c ∷ id) (ground (arith, valid)) in
    rw
      (
        trimmed_path form slash c id piece,
        candidate-link host query slash c id form main piece,
        text_eq_refl,
      )
      (ground (arith, valid))
