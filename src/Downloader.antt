-- ===== src/Downloader.antt =====
-- The pipeline of internal/app/downloader.go, from metadata to the published file.
-- What yt-dlp, ffmpeg, ffprobe and the file system answer is an argument; the progress reports, which
-- go to the manager only, are left out.
pub mod Run
pub mod Compatible
pub mod Lines
pub mod Progress
pub mod Streams
pub mod Tools
use personal_yt_downloader.Common.{
  ℕ, ◌≤◌, String, Bool, true, false, ◌&&◌, ◌||◌, not, Option, none, some, List, [], ◌∷◌, ◌==◌,
  if◌then◌else◌, str_eq,
}
use personal_yt_downloader.Common.Int.{ℤ, pos, Float, whole, ltb_ℤ, ◌-ℤ◌}
use personal_yt_downloader.Model.{Job}
use personal_yt_downloader.Manager.Workers.{
  PipelineError, storage_error, download_error, DownloadResult,
}

-- A Go result: the value beside a nil error, or the error.
pub data Result (A : Type 0) : Type 0 where
  ok : A → Result A
  err : PipelineError → Result A

pub record Metadata : Type 0 where
  pub title : String
  pub duration_sec : Float

pub record Stream : Type 0 where
  pub kind : String
  pub codec : String
  pub pixel_format : String
  pub height : ℤ
  pub width : ℤ

-- `duration` is what `strconv.ParseFloat` makes of the text.
pub record ProbeInfo : Type 0 where
  pub streams : List Stream
  pub duration : Option Float

pub record ProbeAnalysis : Type 0 where
  pub has_video : Bool
  pub has_audio : Bool
  pub video_ok : Bool
  pub audio_ok : Bool
  pub width : ℤ
  pub height : ℤ
  pub duration_sec : Float

abbrev pub leb_ℤ : ℤ → ℤ → Bool
leb_ℤ a b = not (ltb_ℤ b a)

unfoldable pub fits_dimensions : ℤ → ℤ → Bool
fits_dimensions width height =
    ltb_ℤ (pos 0) width
    && ltb_ℤ (pos 0) height
    && ((leb_ℤ width (pos 1280) && leb_ℤ height (pos 720))
        || (leb_ℤ width (pos 720) && leb_ℤ height (pos 1280)))

abbrev pub is_video : Stream → Bool
is_video s = str_eq s.kind "video"

abbrev pub is_audio : Stream → Bool
is_audio s = str_eq s.kind "audio"

-- The test on a video stream.
unfoldable pub is_compatible : Stream → Bool
unfolding fits_dimensions
is_compatible s =
    str_eq s.codec "h264" && str_eq s.pixel_format "yuv420p" && fits_dimensions s.width s.height

-- The two `if`s in the body of the loop.
unfoldable pub analyze_as_video : ProbeAnalysis → Stream → ProbeAnalysis
unfolding is_compatible
analyze_as_video a s =
    if is_video s
    then record a {
      has_video = true;
      width = if a.has_video then a.width else s.width;
      height = if a.has_video then a.height else s.height;
      video_ok = a.video_ok && is_compatible s;
    }
    else a

unfoldable pub analyze_as_audio : ProbeAnalysis → Stream → ProbeAnalysis
analyze_as_audio a s =
    if is_audio s
    then record a { has_audio = true; audio_ok = a.audio_ok && str_eq s.codec "aac" }
    else a

unfoldable pub analyze_streams : ProbeAnalysis → List Stream → ProbeAnalysis
unfolding analyze_as_video analyze_as_audio
analyze_streams a [] = a
analyze_streams a (s ∷ streams) =
    analyze_streams (analyze_as_audio (analyze_as_video a s) s) streams

abbrev pub no_streams : ProbeAnalysis
no_streams = record {
  has_video = false;
  has_audio = false;
  video_ok = true;
  audio_ok = true;
  width = pos 0;
  height = pos 0;
  duration_sec = pos 0;
}

unfoldable pub analyze_video : ProbeInfo → ProbeAnalysis
unfolding analyze_streams
analyze_video info =
    let a = analyze_streams no_streams info.streams in
    elim info.duration [ none ↦ a | some d ↦ record a { duration_sec = d } ]

-- The loop of `audioIsAAC`, over `hasAudio` and `ok`.
unfoldable pub scan_audio : Bool × Bool → List Stream → Bool × Bool
scan_audio found [] = found
scan_audio (has_audio, fine) (s ∷ streams) =
    scan_audio (if is_audio s then (true, fine && str_eq s.codec "aac") else (has_audio, fine))
      streams

unfoldable pub audio_is_aac : ProbeInfo → Bool
unfolding scan_audio
audio_is_aac info = let found = scan_audio (false, true) info.streams in not found.0 || found.1

-- Whether each call in `publish` succeeds, and what `Stat` says of the output.
pub record PublishResults : Type 0 where
  pub open_file : Bool
  pub sync : Bool
  pub stat : Bool
  pub close : Bool
  pub is_regular : Bool
  pub size : ℕ
  pub rename : Bool

-- The size and whether an error is returned; `moved` says that the output was renamed over the
-- destination.
pub record Published : Type 0 where
  pub moved : Bool
  pub size : ℕ
  pub failed : Bool

abbrev pub not_published : Published
not_published = record { moved = false; size = 0; failed = true }

-- A failed Close returns the error of Stat, which is nil if that succeeded.
unfoldable pub publish : PublishResults → Published
publish io =
    if not io.open_file || not io.sync
    then not_published
    else if not io.stat || not io.close
    then record not_published { failed = not io.stat }
    else if not io.is_regular || (io.size == 0)
    then not_published
    else if not io.rename
    then not_published
    else record { moved = true; size = io.size; failed = false }

-- What the tools answer to the calls of one run, in their order; `video`, `audio` and `final` are the
-- probes of what was downloaded and prepared, or the first error on the way there. `fetched` is read only without a
-- stored title, and the two answers on audio only without an audio stream in the first download.
pub record Answers : Type 0 where
  pub fetched : Result Metadata
  pub cleans : Bool
  pub video : Result ProbeInfo
  pub audio : Result ProbeInfo
  pub ffmpeg : Option PipelineError
  pub final : Result ProbeInfo
  pub canceled : Option PipelineError
  pub publishing : PublishResults

pub record Outcome : Type 0 where
  pub result : DownloadResult
  pub error : Option PipelineError
  pub moved : Bool

unfoldable pub fail : Metadata → PipelineError → Outcome
fail meta e = record {
  result = record { title = meta.title; size_bytes = 0; duration_sec = meta.duration_sec };
  error = some e;
  moved = false;
}
