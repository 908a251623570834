-- ===== src/Downloader/Tools.antt =====
-- The commands of internal/app/downloader.go and internal/app/metadata.go: their arguments, what ffmpeg
-- reports, and how a probe is read.
pub mod Codecs
use personal_yt_downloader.Common.{
  ◌++◌, String, Bool, true, false, ◌&&◌, not, Option, none, some, List, [], ◌∷◌, if◌then◌else◌,
  str_eq,
}
use Prim.Native.String.{◌++◌ as append}
use personal_yt_downloader.Common.Int.{ℤ, pos, Float, whole, ltb_ℤ}
use personal_yt_downloader.Downloader.{Result, ok, err, ProbeInfo, ProbeAnalysis}
use personal_yt_downloader.Manager.Workers.{PipelineError, download_error}

abbrev pub yt_dlp_base : List String
yt_dlp_base =
    "--ignore-config" ∷ "--no-plugin-dirs" ∷ "--no-playlist" ∷ "--no-warnings" ∷ "--no-cache-dir"
    ∷ "--js-runtimes" ∷ "node" ∷ "--no-remote-components" ∷ "--socket-timeout" ∷ "20" ∷ "--retries"
    ∷ "3" ∷ "--fragment-retries" ∷ "3" ∷ "--extractor-retries" ∷ "2" ∷ "--use-extractors"
    ∷ "youtube" ∷ "--newline" ∷ []

abbrev pub metadata_args : String → List String
metadata_args id =
    yt_dlp_base
    ++ "--no-progress"
      ∷ "--skip-download"
      ∷ "--print"
      ∷ "%(.{id,title,extractor_key,duration,live_status})j"
      ∷ "--"
      ∷ append "https://www.youtube.com/watch?v=" id
      ∷ []

abbrev pub yt_dlp_args : String → String → String → List String
yt_dlp_args id prefix selector =
    yt_dlp_base
    ++ "--format"
      ∷ selector
      ∷ "--match-filters"
      ∷ "!is_live & !is_upcoming"
      ∷ "--abort-on-unavailable-fragments"
      ∷ "--output"
      ∷ append prefix ".%(ext)s"
      ∷ "--print"
      ∷ "after_move:filepath"
      ∷ "--progress"
      ∷ "--progress-template"
      ∷ "download:[download] %(progress._percent_str)s"
      ∷ "--progress-delta"
      ∷ "1"
      ∷ "--"
      ∷ append "https://www.youtube.com/watch?v=" id
      ∷ []

-- The test is `width >= height`.
unfoldable pub scale_filter : ℤ → ℤ → String
scale_filter width height =
    if not (ltb_ℤ width height)
    then "scale=w='min(1280,iw)':h='min(720,ih)':force_original_aspect_ratio=decrease:force_divisible_by=2"
    else "scale=w='min(720,iw)':h='min(1280,ih)':force_original_aspect_ratio=decrease:force_divisible_by=2"

abbrev pub copy_audio : List String
copy_audio = "-c:a" ∷ "copy" ∷ []

abbrev pub encode_audio : List String
encode_audio = "-c:a" ∷ "aac" ∷ "-b:a" ∷ "128k" ∷ []

-- The `switch` on what has to be transcoded.
unfoldable pub codec_args : ProbeAnalysis → Bool → List String
unfolding scale_filter
codec_args source audio_ok =
    if source.video_ok && audio_ok
    then "-c" ∷ "copy" ∷ []
    else if source.video_ok
    then "-c:v" ∷ "copy" ∷ encode_audio
    else "-c:v"
      ∷ "libx264"
      ∷ "-preset"
      ∷ "veryfast"
      ∷ "-crf"
      ∷ "23"
      ∷ "-pix_fmt"
      ∷ "yuv420p"
      ∷ "-vf"
      ∷ scale_filter source.width source.height
      ∷ (if audio_ok then copy_audio else encode_audio)

-- The second input and the streams that are mapped; `audio_path` is empty without a second input.
unfoldable pub input_args : String → String → List String
input_args video_path audio_path =
    "-i"
    ∷ video_path
    ∷ (if str_eq audio_path ""
        then "-map" ∷ "0:v:0" ∷ "-map" ∷ "0:a:0?" ∷ []
        else "-i" ∷ audio_path ∷ "-map" ∷ "0:v:0" ∷ "-map" ∷ "1:a:0" ∷ [])

unfoldable pub ffmpeg_args : String → String → ProbeAnalysis → Bool → String → List String
unfolding input_args codec_args
ffmpeg_args video_path audio_path source audio_ok output =
    ("-nostdin" ∷ "-hide_banner" ∷ "-loglevel" ∷ "error" ∷ "-nostats" ∷ "-progress" ∷ "pipe:1"
      ∷ "-y" ∷ [])
    ++ input_args video_path audio_path
    ++ ("-map_metadata" ∷ "-1" ∷ "-map_chapters" ∷ "-1" ∷ "-sn" ∷ "-dn" ∷ [])
    ++ codec_args source audio_ok
    ++ ("-movflags" ∷ "+faststart" ∷ output ∷ [])

-- `run_err` and `ctx_err` are the errors of the command and of the context, and `unmarshalled` is what
-- `encoding/json` makes of the output.
unfoldable pub probe :
    Option PipelineError → Option PipelineError → Option ProbeInfo → Result ProbeInfo
probe (some e) (some stopped) unmarshalled = err stopped
probe (some e) none unmarshalled = err (download_error "Unable to inspect the downloaded media.")
probe none ctx_err none = err (download_error "Unable to inspect the downloaded media.")
probe none ctx_err (some info) = ok info
