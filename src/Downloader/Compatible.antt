-- ===== src/Downloader/Compatible.antt =====
-- The file of a finished download (internal/app/downloader.go).
use personal_yt_downloader.Common.{
  ℕ, ◌<◌, ◌≤◌, ◌≡◌, refl, Bool-cases, ◌≢◌, ◌↔◌, ◌⊎◌, inl, inr, Bool, true, false, ◌&&◌, ◌||◌, not,
  none, List, [], ◌∷◌, ◌==◌, str_eq, count_if, arith,
}
use personal_yt_downloader.Model.{Job}
use personal_yt_downloader.Manager.Workers.{PipelineError}
use personal_yt_downloader.Downloader.{
  Stream, ProbeInfo, ProbeAnalysis, Result, ok, err, is_video, is_audio, is_compatible,
  analyze_streams, analyze_as_video, analyze_as_audio, analyze_video, no_streams, scan_audio,
  audio_is_aac, PublishResults, publish, Answers, Outcome, fail, Metadata,
}
use personal_yt_downloader.Downloader.Run.{
  download, with_metadata, with_audio, prepare, verify, finish,
}

abbrev pub is_bad_video : Stream → Bool
is_bad_video s = is_video s && not (is_compatible s)

abbrev pub is_bad_audio : Stream → Bool
is_bad_audio s = is_audio s && not (str_eq s.codec "aac")

analyze_streams_counts :
    (a : ProbeAnalysis) (l : List Stream)
    → ((analyze_streams a l).has_video ≡ (a.has_video || not (count_if is_video l == 0)))
      × ((analyze_streams a l).video_ok ≡ (a.video_ok && (count_if is_bad_video l == 0)))
      × ((analyze_streams a l).has_audio ≡ (a.has_audio || not (count_if is_audio l == 0)))
      × ((analyze_streams a l).audio_ok ≡ (a.audio_ok && (count_if is_bad_audio l == 0)))
unfolding analyze_streams analyze_as_video analyze_as_audio
analyze_streams_counts a [] = ground arith
analyze_streams_counts a (s ∷ l) =
    ground (arith, analyze_streams_counts (analyze_as_audio (analyze_as_video a s) s) l)

-- analyzeVideo finds a video (an audio) stream exactly if there is one, and calls the video (the
-- audio) fine exactly if no video stream has another codec, pixel format or size than those
-- accepted (no audio stream has another codec than AAC).
pub analyze_video_counts :
    (info : ProbeInfo)
    → ((analyze_video info).has_video ≡ not (count_if is_video info.streams == 0))
      × ((analyze_video info).video_ok ≡ (count_if is_bad_video info.streams == 0))
      × ((analyze_video info).has_audio ≡ not (count_if is_audio info.streams == 0))
      × ((analyze_video info).audio_ok ≡ (count_if is_bad_audio info.streams == 0))
unfolding analyze_video
analyze_video_counts info = ground (arith, analyze_streams_counts no_streams info.streams)

bad-le : (l : List Stream) → count_if is_bad_audio l ≤ count_if is_audio l
bad-le [] = ground arith
bad-le (s ∷ l) = ground (arith, bad-le l)

scan_audio_counts :
    (has_audio fine : Bool) (l : List Stream)
    → ((scan_audio (has_audio, fine) l).0 ≡ (has_audio || not (count_if is_audio l == 0)))
      × ((scan_audio (has_audio, fine) l).1 ≡ (fine && (count_if is_bad_audio l == 0)))
unfolding scan_audio
scan_audio_counts has_audio fine [] = ground arith
scan_audio_counts has_audio fine (s ∷ l) = elim (Bool-cases (is_audio s)) [
  | inl hit ↦ elim (Bool-cases (str_eq s.codec "aac")) [
    | inl aac ↦ rw (hit, aac) (ground (arith, scan_audio_counts true (fine && true) l))
    | inr other ↦ rw (hit, other) (ground (arith, scan_audio_counts true (fine && false) l))
  ]
  | inr miss ↦ rw miss (scan_audio_counts has_audio fine l)
]

no_bad_without_audio :
    (x y : Bool) (bad total : ℕ)
    → x ≡ (false || not (total == 0))
    → y ≡ (true && (bad == 0))
    → bad ≤ total
    → (not x || y) ≡ (bad == 0)
no_bad_without_audio x y bad total h e le = ground (arith, h, e, le)

audio_is_aac_counts :
    (info : ProbeInfo) → audio_is_aac info ≡ (count_if is_bad_audio info.streams == 0)
unfolding audio_is_aac
audio_is_aac_counts info =
    let found = scan_audio (false, true) info.streams in
    let counted = scan_audio_counts false true info.streams in
    no_bad_without_audio found.0 found.1 (count_if is_bad_audio info.streams)
      (count_if is_audio info.streams) counted.0 counted.1 (bad-le info.streams)

-- The probe shows a video stream, no video stream but H.264 in yuv420p within 1280×720 in one
-- orientation, and no audio stream but AAC.
abbrev pub IsPlayable : ProbeInfo → Type 0
IsPlayable info =
    (0 < count_if is_video info.streams)
    × (count_if is_bad_video info.streams ≡ 0)
    × (count_if is_bad_audio info.streams ≡ 0)

-- A file that is not empty was moved into place and its size reported, or Close failed on it.
abbrev pub IsPublished : Answers → Outcome → Type 0
IsPublished io o =
    (io.publishing.close ≡ false)
    ⊎ ((o.moved ≡ true) × (0 < o.result.size_bytes) × (o.result.size_bytes ≡ io.publishing.size))

finish_ok :
    (io : Answers) (meta : Metadata)
    → (finish meta (publish io.publishing)).error ≡ none
    → IsPublished io (finish meta (publish io.publishing))
unfolding finish publish fail
finish_ok io meta h = ground arith

verify_ok :
    (io : Answers) (meta : Metadata) (source : ProbeAnalysis) (info : ProbeInfo)
    → (verify io meta source info).error ≡ none
    → IsPlayable info × IsPublished io (verify io meta source info)
unfolding verify fail
verify_ok io meta source info h =
    ground (arith, h, finish_ok io meta, analyze_video_counts info, audio_is_aac_counts info)

Result-cases :
    {A : Type 0} (r : Result A) → ((e : PipelineError) × (r ≡ err e)) ⊎ ((a : A) × (r ≡ ok a))
Result-cases (ok a) = inr (a, refl)
Result-cases (err e) = inl (e, refl)

module _ (io : Answers) where
  prepare_ok :
      (meta : Metadata) (source : ProbeAnalysis) (info : ProbeInfo)
      → io.final ≡ ok info
      → (prepare io meta source).error ≡ none
      → IsPlayable info × IsPublished io (prepare io meta source)
  unfolding prepare fail
  prepare_ok meta source info e h = ground (arith, e, h, verify_ok io meta source info)

  with_audio_ok :
      (meta : Metadata) (source : ProbeAnalysis) (info : ProbeInfo)
      → io.final ≡ ok info
      → (with_audio io meta source).error ≡ none
      → IsPlayable info × IsPublished io (with_audio io meta source)
  unfolding with_audio fail
  with_audio_ok meta source info e h = ground (arith, h, prepare_ok meta source info e)

  with_metadata_ok :
      (meta : Metadata) (info : ProbeInfo)
      → io.final ≡ ok info
      → (with_metadata io meta).error ≡ none
      → IsPlayable info × IsPublished io (with_metadata io meta)
  unfolding with_metadata fail
  with_metadata_ok meta info e h = elim (Result-cases io.video) [
    | inl (e', failed) ↦ ground (arith, h, failed)
    | inr (first, probed) ↦
        ground (arith, h, probed, with_audio_ok meta (analyze_video first) info e)
  ]

  final_probed :
      (meta : Metadata)
      → (with_metadata io meta).error ≡ none
      → (e : PipelineError) → io.final ≢ err e
  unfolding with_metadata with_audio prepare fail
  final_probed meta h e failed = ground (arith, h, failed)

  probed_ok :
      (meta : Metadata)
      → (with_metadata io meta).error ≡ none
      → ((info : ProbeInfo) × (io.final ≡ ok info) × IsPlayable info)
        × IsPublished io (with_metadata io meta)
  probed_ok meta h = elim (Result-cases io.final) [
    | inl (e, failed) ↦ absurd (final_probed meta h e failed)
    | inr (info, probed) ↦
        let both = with_metadata_ok meta info probed h in ((info, probed, both.0), both.1)
  ]

  -- If Download reports no error, the probe of the prepared file found a video stream, every video
  -- stream H.264 in yuv420p within 1280×720 in one orientation, and every audio stream AAC; and
  -- that file, which is not empty, was moved into place with the size reported, or its Close
  -- failed.
  pub download-IsPlayable :
      (j : Job)
      → (download io j).error ≡ none
      → ((info : ProbeInfo) × (io.final ≡ ok info) × IsPlayable info)
        × IsPublished io (download io j)
  unfolding download
  download-IsPlayable j h = elim (Bool-cases (str_eq j.title "")) [
    | inr titled ↦
        let meta : Metadata = record { title = j.title; duration_sec = j.duration_sec } in
        rw (titled, download) (probed_ok meta (ground (arith, h, titled)))
    | inl bare ↦ elim (Result-cases io.fetched) [
      | inl (e, failed) ↦ absurd (ground (arith, h, bare, failed))
      | inr (meta, fetched) ↦
          rw (bare, download)
            (rw (fetched, download) (probed_ok meta (ground (arith, h, bare, fetched))))
    ]
  ]

-- Publishing reports success exactly when either the file, which is not empty, was moved into place
-- and its size reported, or it was opened, synced and inspected and its Close failed.
pub publish_success :
    (io : PublishResults)
    → ((publish io).failed ≡ false) ↔ (
        (((publish io).moved ≡ true) × ((publish io).size ≡ io.size) × (0 < io.size))
        ⊎ ((io.open_file ≡ true) × (io.sync ≡ true) × (io.stat ≡ true) × (io.close ≡ false)))
unfolding publish
publish_success io = ground arith
