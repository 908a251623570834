-- ===== src/Downloader/Lines.antt =====
-- The output of yt-dlp and ffmpeg in internal/app/downloader.go: parseDownloadPercent,
-- parseKeyValueInt, and what runYtDLP takes from the lines. A line is a list of runes.
use personal_yt_downloader.Common.{
  ℕ, ◌+◌, ◌-◌, Bool, false, ◌||◌, not, Option, none, some, List, [], ◌∷◌, ◌++◌, ltb, ◌==◌,
  if◌then◌else◌, length, drop,
}
use personal_yt_downloader.Common.Int.{ℤ, pos, Float, whole, ltb_ℤ}
use personal_yt_downloader.Common.Text.{
  Text, codes, text_eq, has_prefix, cut, contains_byte, trim_space,
}
use personal_yt_downloader.Downloader.{Result, ok, err}
use personal_yt_downloader.Manager.Workers.{PipelineError, download_error}

-- What the code uses of `strconv`: none for an error.
pub record Numbers : Type 0 where
  pub parse_float : Text → Option Float
  pub parse_int : Text → Option ℤ

abbrev pub in_percent : Option Float → Option Float
in_percent none = none
in_percent (some n) = if ltb_ℤ n (pos 0) || ltb_ℤ (whole 100) n then none else some n

module _ (numbers : Numbers) where
  -- What stands before the first percent sign, if that is not the first rune.
  unfoldable pub percent_of : Option (Text × Text) → Option Float
  percent_of none = none
  percent_of (some ([], after)) = none
  percent_of (some (c ∷ number, after)) = in_percent (numbers.parse_float (c ∷ number))

  unfoldable pub parse_download_percent : Text → Option Float
  unfolding percent_of
  parse_download_percent line =
      if has_prefix line (codes "[download]")
      then percent_of (cut b'%' (trim_space (drop 10 line)))
      else none

  unfoldable pub parse_key_value_int : Text → Text → Option ℤ
  parse_key_value_int line key =
      if has_prefix line (key ++ codes "=")
      then numbers.parse_int (trim_space (drop (length key + 1) line))
      else none

-- A line that `--print` made.
abbrev pub is_printed : Text → Bool
is_printed [] = false
is_printed (c ∷ line) = not (c == b'[')

-- What the callback keeps: the printed lines, and the percentages that it reported.
pub record Heard : Type 0 where
  pub printed : List Text
  pub reports : List Float

abbrev pub nothing_heard : Heard
nothing_heard = record { printed = []; reports = [] }

unfoldable pub keep_four : List Text → List Text
keep_four printed = if ltb 4 (length printed) then drop (length printed - 4) printed else printed

-- The two cases of the callback.
unfoldable pub hear_as : Heard → Text → Option Float → Heard
unfolding keep_four
hear_as h line (some pct) = record { printed = h.printed; reports = h.reports ++ pct ∷ [] }
hear_as h line none =
    if is_printed line
    then record { printed = keep_four (h.printed ++ line ∷ []); reports = h.reports }
    else h

module _ (numbers : Numbers) where
  unfoldable pub hear : Heard → Text → Heard
  unfolding parse_download_percent hear_as
  hear h line = hear_as h line (parse_download_percent numbers line)

  unfoldable pub hear_all : Heard → List Text → Heard
  unfolding hear
  hear_all h [] = h
  hear_all h (line ∷ lines) = hear_all (hear h line) lines

-- What the code uses of `path/filepath` and of `os.Stat`: the size of a regular file.
pub record Paths : Type 0 where
  pub is_abs : Text → Bool
  pub join : Text → Text → Text
  pub dir : Text → Text
  pub base : Text → Text
  pub regular_size : Text → Option ℕ

abbrev pub last_line : List Text → Option Text
last_line [] = none
last_line (l ∷ []) = some l
last_line (l ∷ m ∷ lines) = last_line (m ∷ lines)

abbrev pub no_stream : Result Text
no_stream = err (download_error "No complete stream was downloaded.")

module _ (paths : Paths) where
  abbrev pub resolve : Text → Text → Text
  resolve dir line =
      let path = trim_space line in if not (paths.is_abs path) then paths.join dir path else path

  unfoldable pub is_misplaced : Text → Text → Text → Bool
  is_misplaced dir prefix path =
      not (text_eq (paths.dir path) dir)
      || not (has_prefix (paths.base path) (prefix ++ codes "."))
      || contains_byte b'\r' path
      || contains_byte b'\n' path

  abbrev pub is_complete : Option ℕ → Bool
  is_complete none = false
  is_complete (some n) = not (n == 0)

  unfoldable pub accept_path : Text → Text → Text → Result Text
  unfolding is_misplaced
  accept_path dir prefix path =
      if is_misplaced dir prefix path || not (is_complete (paths.regular_size path))
      then no_stream
      else ok path

  unfoldable pub check_path : Text → Text → Option Text → Result Text
  unfolding accept_path
  check_path dir prefix none = no_stream
  check_path dir prefix (some line) = accept_path dir prefix (resolve dir line)

  -- `lines` and `run_err` are what the Runner makes of the command: its output, and its error.
  unfoldable pub run_yt_dlp : Numbers → Text → Text → List Text → Option PipelineError → Result Text
  unfolding hear_all check_path
  run_yt_dlp numbers dir prefix lines (some e) = err e
  run_yt_dlp numbers dir prefix lines none =
      check_path dir prefix (last_line (hear_all numbers nothing_heard lines).printed)
