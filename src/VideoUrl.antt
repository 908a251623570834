-- ===== src/VideoUrl.antt =====
-- VideoID and idPattern of internal/app/model.go.
-- What `net/url` makes of the submitted text is an argument: the code reads the URL's parts only.
pub mod Accepted
use personal_yt_downloader.Common.{
  ℕ, Bool, true, false, ◌&&◌, ◌||◌, not, Option, none, some, List, [], ◌∷◌, leb, ltb, ◌==◌,
  if◌then◌else◌, length,
}
use personal_yt_downloader.Common.Text.{Text, codes, text_eq, trim_prefix, trim_suffix, split}

-- `host` is in lower case. `query` holds the values of the parameter v, or none if the query does
-- not parse.
pub record ParsedUrl : Type 0 where
  pub scheme : Text
  pub has_user : Bool
  pub has_port : Bool
  pub host : Text
  pub path : Text
  pub query : Option (List Text)

-- [A-Za-z0-9_-]
unfoldable pub is_id_char : ℕ → Bool
is_id_char c =
    (leb b'A' c && leb c b'Z')
    || (leb b'a' c && leb c b'z')
    || (leb b'0' c && leb c b'9')
    || c == b'_'
    || c == b'-'

unfoldable pub all_id_chars : Text → Bool
unfolding is_id_char
all_id_chars [] = true
all_id_chars (c ∷ s) = is_id_char c && all_id_chars s

-- `idPattern.MatchString(s)`
unfoldable pub matches_id_pattern : Text → Bool
unfolding all_id_chars
matches_id_pattern s = all_id_chars s && length s == 11

abbrev pub is_main_host : Text → Bool
is_main_host host =
    text_eq host (codes "youtube.com")
    || text_eq host (codes "www.youtube.com")
    || text_eq host (codes "m.youtube.com")
    || text_eq host (codes "music.youtube.com")

-- The only value of the parameter v.
unfoldable pub watch_id : Option (List Text) → Option Text
watch_id (some (v ∷ [])) = some v
watch_id _ = none

abbrev pub is_player : Text → Bool
is_player piece =
    text_eq piece (codes "shorts") || text_eq piece (codes "live") || text_eq piece (codes "embed")

-- The third piece of a path of three, behind an accepted second one.
unfoldable pub player_id : List Text → Option Text
player_id (first ∷ player ∷ id ∷ []) = if is_player player then some id else none
player_id _ = none

-- The `switch` on the host.
unfoldable pub candidate : ParsedUrl → Text → Option Text
unfolding watch_id player_id
candidate u path =
    if text_eq u.host (codes "youtu.be")
    then some (trim_prefix b'/' path)
    else if is_main_host u.host
    then if text_eq path (codes "/watch") then watch_id u.query else player_id (split b'/' path)
    else none

unfoldable pub checked : Option Text → Option Text
unfolding matches_id_pattern
checked none = none
checked (some id) = if matches_id_pattern id then some id else none

-- `size` is the length of the submitted text, and `url` none if it does not parse.
unfoldable pub video_id : ℕ → Option ParsedUrl → Option Text
unfolding candidate checked
video_id size none = none
video_id size (some u) =
    if ltb 4096 size
    then none
    else if (not (text_eq u.scheme (codes "https")) && not (text_eq u.scheme (codes "http")))
        || u.has_user
        || u.has_port
    then none
    else checked (candidate u (trim_suffix b'/' u.path))
