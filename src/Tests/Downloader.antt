-- ===== src/Tests/Downloader.antt =====
-- The download pipeline on concrete answers of the tools.
use personal_yt_downloader.Common.{◌≡◌, refl, true, none, some, [], ◌∷◌}
use personal_yt_downloader.Common.Int.{pos}
use personal_yt_downloader.Model.{Job, downloading}
use personal_yt_downloader.Downloader.{
  Stream, ProbeInfo, ok, PublishResults, Answers, fits_dimensions, is_compatible, analyze_streams,
  analyze_as_video, analyze_as_audio, analyze_video, scan_audio, audio_is_aac, publish, fail,
}
use personal_yt_downloader.Downloader.Run.{
  finish, verify, prepare, with_audio, with_metadata, download,
}
use personal_yt_downloader.Downloader.Compatible.{IsPlayable, IsPublished, download-IsPlayable}

program : Unit {0}
unfolding fits_dimensions is_compatible analyze_streams analyze_as_video analyze_as_audio
    analyze_video scan_audio audio_is_aac publish fail finish verify prepare with_audio
    with_metadata download
program = tt

abbrev picture : Stream
picture = record {
  kind = "video";
  codec = "h264";
  pixel_format = "yuv420p";
  height = pos 1280;
  width = pos 720;
}

abbrev sound : Stream
sound = record { kind = "audio"; codec = "aac"; pixel_format = ""; height = pos 0; width = pos 0 }

abbrev probed : ProbeInfo
probed = record { streams = picture ∷ sound ∷ []; duration = some (pos 9000000) }

abbrev publishing : PublishResults
publishing = record {
  open_file = true;
  sync = true;
  stat = true;
  close = true;
  is_regular = true;
  size = 70;
  rename = true;
}

abbrev answers : Answers
answers = record {
  fetched = ok (record { title = "t"; duration_sec = pos 9000000 });
  cleans = true;
  video = ok probed;
  audio = ok probed;
  ffmpeg = none;
  final = ok probed;
  canceled = none;
  publishing = publishing;
}

abbrev started : Job
started = record {
  id = "v";
  title = "";
  duration_sec = pos 0;
  status = downloading;
  size_bytes = 0;
  created_at = 5;
  error = "";
}

download-IsPlayable_example :
    ((info : ProbeInfo) × (answers.final ≡ ok info) × IsPlayable info)
    × IsPublished answers (download answers started)
unfolding program
download-IsPlayable_example = download-IsPlayable answers started refl
