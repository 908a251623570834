-- ===== src/Tests/Inputs.antt =====
-- Submitted links and titles at concrete inputs.
use personal_yt_downloader.Common.{
  ℕ, ◌≤◌, ◌≡◌, refl, ◌≢◌, ◌⊎◌, Bool, true, false, none, some, [], ◌++◌, All, ◌==◌, ◌||◌, arith,
}
use personal_yt_downloader.Common.Text.{Text, codes, text_eq, contains_byte}
use personal_yt_downloader.VideoUrl.{
  ParsedUrl, is_id_char, all_id_chars, matches_id_pattern, is_main_host, watch_id, player_id,
  candidate, checked, video_id,
}
use personal_yt_downloader.VideoUrl.Accepted.{video_id_safe, shorts, link, video_id-link}
use personal_yt_downloader.Filename.{
  size, max_size, is_blank_or_dot, shorten, is_unsafe, replace_unsafe, stem, safe_filename,
}
use personal_yt_downloader.Filename.Safe.{starts_in, ends_in, safe_filename_safe}

abbrev id : Text
id = codes "dQw4w9WgXcQ"

abbrev host : Text
host = codes "www.youtube.com"

-- A link with a slash at its end.
abbrev url : ParsedUrl
url = link shorts host none true id

program : Unit {0}
unfolding is_id_char all_id_chars matches_id_pattern watch_id player_id candidate checked video_id
    text_eq shorten is_unsafe replace_unsafe stem safe_filename
program = tt

accepted : video_id 40 (some url) ≡ some id
unfolding program
accepted = refl

video_id_safe_example :
    (matches_id_pattern id ≡ true)
    × (contains_byte b'/' id ≡ false)
    × (contains_byte b'.' id ≡ false)
    × (40 ≤ 4096)
    × (url.has_user ≡ false)
    × (url.has_port ≡ false)
    × ((url.scheme ≡ codes "https") ⊎ (url.scheme ≡ codes "http"))
    × ((text_eq url.host (codes "youtu.be") ≡ true) ⊎ (is_main_host url.host ≡ true))
video_id_safe_example = video_id_safe 40 url id accepted

is_host : is_main_host host ≡ true
unfolding program
is_host = refl

is_id : matches_id_pattern id ≡ true
unfolding program
is_id = refl

video_id-link_example : video_id 40 (some url) ≡ some id
video_id-link_example = video_id-link shorts host none true 40 id is_host is_id (omega arith)

-- The control characters of ASCII.
abbrev is_control : ℕ → Bool
is_control r = r == 7 || r == 9

abbrev title : Text
title = codes " ..What/is\tthis? "

id_safe : All (λ r. is_unsafe is_control r ≡ false) id
unfolding program
id_safe = (refl, (refl, (refl, (refl, (refl, (refl, (refl, (refl, (refl, (refl, (refl, tt)))))))))))

safe_filename_safe_example :
    (s : Text) × (safe_filename is_control title id ≡ s ++ codes ".mp4")
    × (s ≢ [])
    × All (λ r. is_unsafe is_control r ≡ false) s
    × ((s ≡ id)
        ⊎ ((size s ≤ max_size)
            × (starts_in is_blank_or_dot s ≡ false)
            × (ends_in is_blank_or_dot s ≡ false)))
safe_filename_safe_example = safe_filename_safe is_control title id refl id_safe (λ e. cc)

named : safe_filename is_control title id ≡ codes "What_is_this_.mp4"
unfolding program
named = refl
