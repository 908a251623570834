-- ===== src/Tests/Commands.antt =====
-- The commands, their output and the tail of it at concrete inputs.
use personal_yt_downloader.Common.{
  ◌≡◌, refl, ◌≢◌, ◌↔◌, String, true, false, Option, none, some, List, [], ◌∷◌, keep_if, last_of,
  if◌then◌else◌, length, ◌*◌, ◌+◌,
}
use personal_yt_downloader.Common.Int.{pos, whole}
use personal_yt_downloader.Common.Text.{Text, codes, text_eq, is_space}
use personal_yt_downloader.Runner.{
  shift_in, kept_lines, add, tail_limit, snapshot, World, start, add_out, emit_out, add_err,
  emit_err, Reach, here, then_step, IsDone,
}
use personal_yt_downloader.Runner.Pumps.{Interleaves, Reach-snapshot}
use personal_yt_downloader.Runner.Finish.{Reach-finishes, work, steps}
use personal_yt_downloader.Downloader.{ok, ProbeAnalysis, Metadata}
use personal_yt_downloader.Downloader.Lines.{
  Numbers, percent_of, parse_download_percent, keep_four, hear_as, hear, hear_all, Paths, last_line,
  resolve, is_misplaced, accept_path, check_path, run_yt_dlp,
}
use personal_yt_downloader.Downloader.Streams.{printed_of, IsPlaced, run_yt_dlp_ok}
use personal_yt_downloader.Downloader.Tools.{ffmpeg_args}
use personal_yt_downloader.Downloader.Tools.Codecs.{
  value_of, sets_video, sets_audio, ffmpeg_args_codecs,
}
use personal_yt_downloader.Manager.Workers.{PipelineError}
use personal_yt_downloader.Metadata.{
  Info, is_payload, payload_from, is_finished, accept_info, read_payload, fetch,
}
use personal_yt_downloader.Metadata.Fetched.{last_or, IsDecoded, fetch_ok_iff}

program : Unit {0}
unfolding shift_in kept_lines add tail_limit percent_of parse_download_percent keep_four hear_as
    hear hear_all is_misplaced accept_path check_path run_yt_dlp text_eq is_space payload_from
    is_finished accept_info read_payload fetch
program = tt

abbrev no_error : Option PipelineError
no_error = none

-- A tail of one line, and one line on each pipe: both are read before they are handed on.
abbrev on_out : List String
on_out = "a" ∷ []

abbrev on_err : List String
on_err = "b" ∷ []

abbrev first : World
first = start (tail_limit 1) on_out on_err

abbrev second : World
second = record first {
  out = record { ahead = []; pending = some "a" };
  tail = record { lines = "a" ∷ []; max = tail_limit 1 };
}

abbrev third : World
third = record second {
  err = record { ahead = []; pending = some "b" };
  tail = record { lines = "b" ∷ []; max = tail_limit 1 };
}

abbrev fourth : World
fourth = record third { err = record { ahead = []; pending = none }; emitted = "b" ∷ [] }

abbrev last : World
last = record fourth { out = record { ahead = []; pending = none }; emitted = "b" ∷ "a" ∷ [] }

run : Reach first last
unfolding program
run =
    then_step first fourth last
      (then_step first third fourth
        (then_step first second third
          (then_step first first second (here first)
            (add_out "a" [] (first.err) (first.tail) (second.tail) [] refl))
          (add_err "b" [] (second.out) (second.tail) (third.tail) [] refl))
        (emit_err "b" [] (third.out) (third.tail) []))
      (emit_out "a" [] (fourth.err) (fourth.tail) ("b" ∷ []))

Reach-snapshot_example :
    (added : List String) × Interleaves on_out on_err last.emitted
    × Interleaves on_out on_err added
    × (snapshot last.tail ≡ last_of (tail_limit 1) added)
Reach-snapshot_example = Reach-snapshot 1 on_out on_err last run (refl, refl) (refl, refl)

Reach-finishes_example :
    (work last.out + work last.err + steps run ≡ 2 * length on_out + 2 * length on_err)
    × ((v : World) × Reach last v × IsDone v.out × IsDone v.err)
Reach-finishes_example = Reach-finishes 1 on_out on_err last run

-- Stand-ins: every number is read as 42, and paths are not cleaned.
abbrev numbers : Numbers
numbers = record { parse_float = λ s. some (whole 42); parse_int = λ s. some (pos 42) }

abbrev paths : Paths
paths = record {
  is_abs = λ s. true;
  join = λ d s. s;
  dir = λ s. codes "/w";
  base = λ s. codes "video.mp4";
  regular_size = λ s. some 9;
}

abbrev output : List Text
output =
    codes "[download]  42.7% of 10MiB"
    ∷ codes "old"
    ∷ codes " /w/video.mp4 "
    ∷ codes "[info] x"
    ∷ []

found :
    run_yt_dlp paths numbers (codes "/w") (codes "video") output none ≡ ok (codes "/w/video.mp4")
unfolding program
found = refl

run_yt_dlp_ok_example :
    (no_error ≡ none)
    × ((line : Text) × (last_line (printed_of output) ≡ some line)
        × (codes "/w/video.mp4" ≡ resolve paths (codes "/w") line))
    × IsPlaced paths (codes "/w") (codes "video") (codes "/w/video.mp4")
run_yt_dlp_ok_example =
    run_yt_dlp_ok paths (codes "/w") (codes "video") numbers output no_error (codes "/w/video.mp4")
      found

abbrev source : ProbeAnalysis
source = record {
  has_video = true;
  has_audio = false;
  video_ok = false;
  audio_ok = true;
  width = pos 640;
  height = pos 480;
  duration_sec = pos 0;
}

ffmpeg_args_codecs_example :
    (value_of sets_video (ffmpeg_args "/w/video.mkv" "/w/audio.m4a" source true "/w/output.mp4")
      ≡ some (if source.video_ok then "copy" else "libx264"))
    × (value_of sets_audio (ffmpeg_args "/w/video.mkv" "/w/audio.m4a" source true "/w/output.mp4")
        ≡ some (if true then "copy" else "aac"))
ffmpeg_args_codecs_example =
    ffmpeg_args_codecs "/w/video.mkv" "/w/audio.m4a" "/w/output.mp4" source true refl refl

abbrev info : Info
info = record {
  id = "v";
  title = "A title";
  extractor = "Youtube";
  duration = whole 60;
  live_status = "was_live";
}

abbrev meta : Metadata
meta = record { title = "A title"; duration_sec = whole 60 }

abbrev unmarshal : Text → Option Info
unmarshal line = some info

abbrev printed : List Text
printed = codes "note" ∷ codes "{...}" ∷ []

fetch_ok_iff_example : (fetch unmarshal "v" printed none none ≡ ok meta) ↔ (
    (no_error ≡ none)
    × (last_or [] (keep_if is_payload printed) ≢ [])
    × IsDecoded unmarshal "v" (last_or [] (keep_if is_payload printed)) meta)
fetch_ok_iff_example = fetch_ok_iff unmarshal "v" printed no_error no_error meta

fetched : fetch unmarshal "v" printed none none ≡ ok meta
unfolding program
fetched = refl
