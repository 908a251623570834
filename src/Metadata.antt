-- ===== src/Metadata.antt =====
-- YtDLPFetcher.Fetch of internal/app/metadata.go. A line is a list of runes.
-- What the command prints, and what `encoding/json` makes of a line, are arguments.
pub mod Fetched
use personal_yt_downloader.Common.{
  String, Bool, true, false, ◌||◌, ◌&&◌, not, Option, none, some, List, [], ◌∷◌, ◌++◌, str_eq,
  if◌then◌else◌,
}
use personal_yt_downloader.Common.Int.{Float}
use personal_yt_downloader.Common.Text.{Text, codes, has_prefix}
use personal_yt_downloader.Downloader.{Result, ok, err, Metadata}
use personal_yt_downloader.Manager.Workers.{PipelineError, download_error}

-- The object that is read from the payload.
pub record Info : Type 0 where
  pub id : String
  pub title : String
  pub extractor : String
  pub duration : Float
  pub live_status : String

abbrev pub is_payload : Text → Bool
is_payload line = has_prefix line (codes "{")

-- The loop: the payload so far, empty at first.
unfoldable pub payload_from : Text → List Text → Text
payload_from payload [] = payload
payload_from payload (line ∷ lines) = payload_from (if is_payload line then line else payload) lines

unfoldable pub is_finished : Info → Bool
is_finished info = str_eq info.live_status "not_live" || str_eq info.live_status "was_live"

unfoldable pub accept_info : String → Option Info → Result Metadata
unfolding is_finished
accept_info id none = err (download_error "YouTube returned invalid video metadata.")
accept_info id (some info) =
    if not (str_eq info.id id) || not (str_eq info.extractor "Youtube")
    then err (download_error "YouTube returned invalid video metadata.")
    else if is_finished info
    then ok (record { title = info.title; duration_sec = info.duration })
    else err (download_error "Live and upcoming streams are not supported.")

unfoldable pub read_payload : (Text → Option Info) → String → Text → Result Metadata
unfolding accept_info
read_payload unmarshal id [] = err (download_error "YouTube returned no video metadata.")
read_payload unmarshal id (c ∷ payload) = accept_info id (unmarshal (c ∷ payload))

-- `run_err` is the error of the command and `ctx_err` that of the context.
unfoldable pub fetch :
    (Text → Option Info)
    → String
    → List Text
    → Option PipelineError
    → Option PipelineError
    → Result Metadata
unfolding payload_from read_payload
fetch unmarshal id lines (some e) (some stopped) = err stopped
fetch unmarshal id lines (some e) none = err e
fetch unmarshal id lines none ctx_err = read_payload unmarshal id (payload_from [] lines)
