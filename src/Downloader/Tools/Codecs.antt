-- ===== src/Downloader/Tools/Codecs.antt =====
-- What runFFmpeg (internal/app/downloader.go) asks ffmpeg to copy and to encode.
use personal_yt_downloader.Common.{
  ◌≡◌, refl, ◌++◌, inl, inr, String, Bool, true, false, ◌||◌, Option, none, some, List, [], ◌∷◌,
  if◌then◌else◌, str_eq, Bool-cases, arith, ap, ◌∙◌,
}
use mathlib.Core.List.{append_assoc}
use personal_yt_downloader.Common.Int.{ℤ, ltb_ℤ}
use personal_yt_downloader.Downloader.{ProbeAnalysis}
use personal_yt_downloader.Downloader.Tools.{scale_filter, codec_args, input_args, ffmpeg_args}

-- The value of the first option that the test accepts.
abbrev pub value_of : (String → Bool) → List String → Option String
value_of p [] = none
value_of p (x ∷ []) = none
value_of p (x ∷ y ∷ args) = if p x then some y else value_of p (y ∷ args)

abbrev pub sets_video : String → Bool
sets_video x = str_eq x "-c" || str_eq x "-c:v"

abbrev pub sets_audio : String → Bool
sets_audio x = str_eq x "-c" || str_eq x "-c:a"

-- The options that select an encoder for all streams, or for those of one kind.
abbrev pub is_codec_option : String → Bool
is_codec_option x = sets_video x || sets_audio x

-- The arguments behind the inputs.
abbrev output_args : ProbeAnalysis → Bool → String → List String
output_args source audio_ok output =
    codec_args source audio_ok ++ "-movflags" ∷ "+faststart" ∷ output ∷ []

scale_filter-plain :
    (width height : ℤ)
    → (sets_video (scale_filter width height) ≡ false)
      × (sets_audio (scale_filter width height) ≡ false)
unfolding scale_filter
scale_filter-plain width height = elim (Bool-cases (ltb_ℤ width height)) [
  | inl tall ↦ rw tall (refl, refl)
  | inr wide ↦ rw wide (refl, refl)
]

output_codecs :
    (source : ProbeAnalysis) (video_ok audio_ok : Bool) (output : String)
    → source.video_ok ≡ video_ok
    → (value_of sets_video (output_args source audio_ok output)
        ≡ some (if video_ok then "copy" else "libx264"))
      × (value_of sets_audio (output_args source audio_ok output)
          ≡ some (if audio_ok then "copy" else "aac"))
unfolding codec_args
output_codecs source true true output e = rw e (refl, refl)
output_codecs source true false output e = rw e (refl, refl)
output_codecs source false true output e =
    let (quiet_video, quiet_audio) = scale_filter-plain source.width source.height in
    rw e (refl, rw quiet_audio refl)
output_codecs source false false output e =
    let (quiet_video, quiet_audio) = scale_filter-plain source.width source.height in
    rw e (refl, rw quiet_audio refl)

abbrev any_of : (String → Bool) → List String → Bool
any_of p [] = false
any_of p (x ∷ args) = p x || any_of p args

-- Arguments that the test does not accept are passed over.
value_of-skip :
    (p : String → Bool) (x : String) (args : List String)
    → p x ≡ false
    → value_of p (x ∷ args) ≡ value_of p args
value_of-skip p x [] h = refl
value_of-skip p x (y ∷ args) h = rw h refl

value_of-append :
    (p : String → Bool) (before args : List String)
    → any_of p before ≡ false
    → value_of p (before ++ args) ≡ value_of p args
value_of-append p [] args h = refl
value_of-append p (x ∷ before) args h =
    value_of-skip p x (before ++ args) (ground (arith, h))
    ∙ value_of-append p before args (ground (arith, h))

abbrev first_args : List String
first_args =
    "-nostdin" ∷ "-hide_banner" ∷ "-loglevel" ∷ "error" ∷ "-nostats" ∷ "-progress" ∷ "pipe:1" ∷ "-y"
    ∷ []

abbrev metadata_options : List String
metadata_options = "-map_metadata" ∷ "-1" ∷ "-map_chapters" ∷ "-1" ∷ "-sn" ∷ "-dn" ∷ []

inputs-video :
    (video_path audio_path : String)
    → sets_video video_path ≡ false
    → sets_video audio_path ≡ false
    → any_of sets_video (input_args video_path audio_path) ≡ false
unfolding input_args
inputs-video video_path audio_path h k = elim (Bool-cases (str_eq audio_path "")) [
  | inl alone ↦ rw alone (rw h refl)
  | inr two ↦ rw two (rw h (rw k refl))
]

inputs-audio :
    (video_path audio_path : String)
    → sets_audio video_path ≡ false
    → sets_audio audio_path ≡ false
    → any_of sets_audio (input_args video_path audio_path) ≡ false
unfolding input_args
inputs-audio video_path audio_path h k = elim (Bool-cases (str_eq audio_path "")) [
  | inl alone ↦ rw alone (rw h refl)
  | inr two ↦ rw two (rw h (rw k refl))
]

value_of-ffmpeg_args :
    (p : String → Bool) (video_path audio_path output : String) (source : ProbeAnalysis)
    (audio_ok : Bool)
    → any_of p first_args ≡ false
    → any_of p (input_args video_path audio_path) ≡ false
    → any_of p metadata_options ≡ false
    → value_of p (ffmpeg_args video_path audio_path source audio_ok output)
      ≡ value_of p (output_args source audio_ok output)
unfolding ffmpeg_args
value_of-ffmpeg_args p video_path audio_path output source audio_ok h k m =
    let rest = output_args source audio_ok output in
    let inputs = input_args video_path audio_path in
    let shape : ffmpeg_args video_path audio_path source audio_ok output
        ≡ first_args ++ (inputs ++ (metadata_options ++ rest)) =
      simp append_assoc in
    ap (value_of p) shape
    ∙ value_of-append p first_args (inputs ++ (metadata_options ++ rest)) h
    ∙ value_of-append p inputs (metadata_options ++ rest) k
    ∙ value_of-append p metadata_options rest m

-- Unless a path is spelled like a codec option, ffmpeg is told to copy the video exactly if the
-- source is compatible, and else to encode H.264, and to copy the audio exactly if it is
-- compatible, and else to encode AAC.
pub ffmpeg_args_codecs :
    (video_path audio_path output : String) (source : ProbeAnalysis) (audio_ok : Bool)
    → is_codec_option video_path ≡ false
    → is_codec_option audio_path ≡ false
    → (value_of sets_video (ffmpeg_args video_path audio_path source audio_ok output)
        ≡ some (if source.video_ok then "copy" else "libx264"))
      × (value_of sets_audio (ffmpeg_args video_path audio_path source audio_ok output)
          ≡ some (if audio_ok then "copy" else "aac"))
ffmpeg_args_codecs video_path audio_path output source audio_ok h k =
    let (video, audio) = output_codecs source source.video_ok audio_ok output refl in
    (
      value_of-ffmpeg_args sets_video video_path audio_path output source audio_ok refl
            (inputs-video video_path audio_path (ground (arith, h)) (ground (arith, k))) refl
          ∙ video,
      value_of-ffmpeg_args sets_audio video_path audio_path output source audio_ok refl
            (inputs-audio video_path audio_path (ground (arith, h)) (ground (arith, k))) refl
          ∙ audio,
    )
