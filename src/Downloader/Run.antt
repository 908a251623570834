-- ===== src/Downloader/Run.antt =====
-- The steps of Download (internal/app/downloader.go), each the rest of the function from one call on.
use personal_yt_downloader.Common.{false, ◌&&◌, ◌||◌, not, none, some, if◌then◌else◌, str_eq}
use personal_yt_downloader.Common.Int.{pos, whole, ltb_ℤ, ◌-ℤ◌}
use personal_yt_downloader.Model.{Job}
use personal_yt_downloader.Manager.Workers.{storage_error, download_error}
use personal_yt_downloader.Downloader.{
  Metadata, ok, err, ProbeInfo, ProbeAnalysis, analyze_video, audio_is_aac, Published, publish,
  Answers, Outcome, fail,
}

unfoldable pub finish : Metadata → Published → Outcome
unfolding fail
finish meta p = if p.failed then fail meta storage_error else record {
  result = record { title = meta.title; size_bytes = p.size; duration_sec = meta.duration_sec };
  error = none;
  moved = p.moved;
}

-- The checks on the prepared file.
unfoldable pub verify : Answers → Metadata → ProbeAnalysis → ProbeInfo → Outcome
unfolding finish fail
verify io meta source info =
    let final = analyze_video info in
    if not final.has_video || not final.video_ok || not (audio_is_aac info)
    then fail meta (download_error "Unable to produce a compatible MP4.")
    else if ltb_ℤ (pos 0) source.duration_sec
        && ltb_ℤ (pos 0) final.duration_sec
        && ltb_ℤ final.duration_sec (source.duration_sec -ℤ whole 2)
    then fail meta (download_error "The prepared file is incomplete.")
    else elim io.canceled [ some e ↦ fail meta e | none ↦ finish meta (publish io.publishing) ]

unfoldable pub prepare : Answers → Metadata → ProbeAnalysis → Outcome
unfolding verify fail
prepare io meta source = elim io.ffmpeg [
  | some e ↦ fail meta e
  | none ↦ elim io.final [ err e ↦ fail meta e | ok info ↦ verify io meta source info ]
]

unfoldable pub with_audio : Answers → Metadata → ProbeAnalysis → Outcome
unfolding prepare fail
with_audio io meta source =
    if not source.has_video
    then fail meta (download_error "The download does not contain a video stream.")
    else if source.has_audio
    then prepare io meta source
    else elim io.audio [ err e ↦ fail meta e | ok info ↦ prepare io meta source ]

unfoldable pub with_metadata : Answers → Metadata → Outcome
unfolding with_audio fail
with_metadata io meta =
    if not io.cleans
    then fail meta storage_error
    else elim io.video [ err e ↦ fail meta e | ok info ↦ with_audio io meta (analyze_video info) ]

unfoldable pub download : Answers → Job → Outcome
unfolding with_metadata
download io j =
    if str_eq j.title ""
    then elim io.fetched [
      | ok meta ↦ with_metadata io meta
      | err e ↦ record {
        result = record { title = ""; size_bytes = 0; duration_sec = pos 0 };
        error = some e;
        moved = false;
      }
    ]
    else with_metadata io (record { title = j.title; duration_sec = j.duration_sec })
