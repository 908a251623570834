-- ===== src/Downloader/Progress.antt =====
-- What runFFmpeg (internal/app/downloader.go) reports of the lines that ffmpeg writes.
use personal_yt_downloader.Common.{
  ◌≡◌, refl, false, ◌&&◌, Option, none, some, List, [], ◌∷◌, ◌++◌, if◌then◌else◌, arith,
}
use personal_yt_downloader.Common.Int.{ℤ, pos, Float, whole, ltb_ℤ}
use personal_yt_downloader.Common.Text.{Text, codes, text_eq}
use personal_yt_downloader.Downloader.Lines.{Numbers, parse_key_value_int}

-- `percent us duration` is the float64 `float64(us) / (duration * 1e6) * 100`.
module _ (numbers : Numbers) (percent : ℤ → Float → Float) where
  unfoldable pub time_report : Float → Option ℤ → List Float
  time_report duration none = []
  time_report duration (some us) = if ltb_ℤ (pos 0) duration then percent us duration ∷ [] else []

  unfoldable pub end_report : Float → Text → List Float
  end_report duration line =
      if text_eq line (codes "progress=end") && ltb_ℤ (pos 0) duration then whole 100 ∷ [] else []

  -- The percentages, in the order of the reports; the first report, before the command runs, is 0.
  unfoldable pub line_reports : Float → List Text → List Float
  unfolding time_report end_report
  line_reports duration [] = []
  line_reports duration (line ∷ lines) =
      time_report duration (parse_key_value_int numbers line (codes "out_time_us"))
      ++ end_report duration line
      ++ line_reports duration lines

  -- Without a duration there are no percentages.
  pub line_reports_unknown :
      (duration : Float) (lines : List Text)
      → ltb_ℤ (pos 0) duration ≡ false
      → line_reports duration lines ≡ []
  unfolding line_reports
  line_reports_unknown duration [] h = refl
  line_reports_unknown duration (line ∷ lines) h = ground (
    arith,
    h,
    line_reports_unknown duration lines h,
    time_unknown (parse_key_value_int numbers line (codes "out_time_us")),
  )
    where
      time_unknown : (o : Option ℤ) → time_report duration o ≡ []
      time_unknown none = refl
      time_unknown (some us) = ground (arith, h)
