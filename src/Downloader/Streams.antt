-- ===== src/Downloader/Streams.antt =====
-- Which file runYtDLP (internal/app/downloader.go) takes a download to be, and what it reports.
use personal_yt_downloader.Common.{
  ℕ, zero, suc, ◌-◌, ◌≤◌, ◌<◌, ◌≡◌, refl, sym, ◌≢◌, inl, inr, true, false, Option, none, some, List,
  [], ◌∷◌, ◌++◌, ltb, if◌then◌else◌, length, drop, last_of, last_of-snoc, keep_if, All, All-append,
  Bool-cases, ap, ◌∙◌, subst, arith, drop-nil,
}
use personal_yt_downloader.Common.Int.{pos, Float, whole, ◌≤ℤ◌}
use personal_yt_downloader.Common.Text.{
  Text, codes, text_eq_iff, has_prefix, cut, contains_byte, trim_space,
}
use mathlib.Core.List.{append_assoc, append-nil}
use personal_yt_downloader.Downloader.{ok}
use personal_yt_downloader.Downloader.Lines.{
  Numbers, in_percent, percent_of, parse_download_percent, is_printed, Heard, nothing_heard,
  keep_four, hear, hear_all, Paths, last_line, resolve, is_misplaced, is_complete, check_path,
  run_yt_dlp, hear_as, accept_path,
}
use personal_yt_downloader.Manager.Workers.{PipelineError}

abbrev pub IsPercent : Float → Type 0
IsPercent n = (pos 0 ≤ℤ n) × (n ≤ℤ whole 100)

in_percent_lem : (o : Option Float) (n : Float) → in_percent o ≡ some n → IsPercent n
in_percent_lem none n h = ground (arith, h)
in_percent_lem (some m) n h = ground (arith, h)

module _ (numbers : Numbers) where
  percent_of_lem :
      (o : Option (Text × Text)) (n : Float) → percent_of numbers o ≡ some n → IsPercent n
  unfolding percent_of
  percent_of_lem none n h = ground (arith, h)
  percent_of_lem (some ([], after)) n h = ground (arith, h)
  percent_of_lem (some (c ∷ number, after)) n h =
      in_percent_lem (numbers.parse_float (c ∷ number)) n h

  -- A line with a percentage starts with a bracket.
  not_printed :
      (line : Text) → has_prefix line (codes "[download]") ≡ true → is_printed line ≡ false
  not_printed [] h = refl
  not_printed (c ∷ line) h = ground (arith, h)

  parse_download_percent_lem :
      (line : Text) (n : Float)
      → parse_download_percent numbers line ≡ some n
      → IsPercent n × (is_printed line ≡ false)
  unfolding parse_download_percent
  parse_download_percent_lem line n h = elim (Bool-cases (has_prefix line (codes "[download]"))) [
    | inl hit ↦ (
      percent_of_lem (cut b'%' (trim_space (drop 10 line))) n (
          subst
            (λ b.
              (if b then percent_of numbers (cut b'%' (trim_space (drop 10 line))) else none)
              ≡ some n)
            hit h),
      not_printed line hit,
    )
    | inr miss ↦
        let impossible : none ≡ some n =
          subst
            (λ b.
              (if b then percent_of numbers (cut b'%' (trim_space (drop 10 line))) else none)
              ≡ some n)
            miss h in
        absurd (ground (arith, impossible))
  ]

keep_four-last : (printed : List Text) → keep_four printed ≡ last_of 4 printed
unfolding keep_four
keep_four-last printed = elim (Bool-cases (ltb 4 (length printed))) [
  | inl more ↦ rw more refl
  | inr less ↦
      let none_dropped : length printed - 4 ≡ 0 = ground (arith, less) in
      rw (less, none_dropped) refl
]

-- The lines of `--print` only.
abbrev pub printed_of : List Text → List Text
printed_of lines = keep_if is_printed lines

module _ (numbers : Numbers) where
  hear_as-printed :
      (h : Heard) (line : Text) (rest shown : List Text) (o : Option Float)
      → parse_download_percent numbers line ≡ o
      → h.printed ≡ last_of 4 shown
      → (next : List Text) × ((hear_as h line o).printed ≡ last_of 4 next)
        × (next ++ printed_of rest ≡ shown ++ printed_of (line ∷ rest))
  unfolding hear_as
  hear_as-printed h line rest shown (some pct) e k =
      let (in_range, quiet) = parse_download_percent_lem numbers line pct e in
      (shown, k, rw quiet refl)
  hear_as-printed h line rest shown none e k = elim (Bool-cases (is_printed line)) [
    | inl kept ↦ (
      shown ++ line ∷ [],
      rw kept (
          keep_four-last (h.printed ++ line ∷ [])
          ∙ ap (λ x. last_of 4 (x ++ line ∷ [])) k
          ∙ last_of-snoc 4 shown line (omega arith)),
      rw kept (append_assoc shown (line ∷ []) (printed_of rest)),
    )
    | inr quiet ↦ (shown, rw quiet k, rw quiet refl)
  ]

  hear_all-printed :
      (h : Heard) (lines shown : List Text)
      → h.printed ≡ last_of 4 shown
      → (hear_all numbers h lines).printed ≡ last_of 4 (shown ++ printed_of lines)
  unfolding hear_all hear
  hear_all-printed h [] shown k = k ∙ ap (last_of 4) (sym (append-nil shown))
  hear_all-printed h (line ∷ lines) shown k =
      let (next, e, same) =
        hear_as-printed h line lines shown (parse_download_percent numbers line) refl k in
      hear_all-printed (hear numbers h line) lines next e ∙ ap (last_of 4) same

  hear_as-reports :
      (h : Heard) (line : Text) (o : Option Float)
      → parse_download_percent numbers line ≡ o
      → All IsPercent h.reports
      → All IsPercent (hear_as h line o).reports
  unfolding hear_as
  hear_as-reports h line (some pct) e all =
      All-append IsPercent h.reports (pct ∷ []) all
        ((parse_download_percent_lem numbers line pct e).0, tt)
  hear_as-reports h line none e all = elim (Bool-cases (is_printed line)) [
    | inl kept ↦ rw kept all
    | inr quiet ↦ rw quiet all
  ]

  hear_all-reports :
      (h : Heard) (lines : List Text)
      → All IsPercent h.reports
      → All IsPercent (hear_all numbers h lines).reports
  unfolding hear_all hear
  hear_all-reports h [] all = all
  hear_all-reports h (line ∷ lines) all =
      hear_all-reports (hear numbers h line) lines
        (hear_as-reports h line (parse_download_percent numbers line) refl all)

  -- x
  pub hear_all_lem :
      (lines : List Text)
      → ((hear_all numbers nothing_heard lines).printed ≡ last_of 4 (printed_of lines))
        × All IsPercent (hear_all numbers nothing_heard lines).reports
  hear_all_lem lines =
      (hear_all-printed nothing_heard lines [] refl, hear_all-reports nothing_heard lines tt)

last_line-drop :
    (n : ℕ) (lines : List Text) → n < length lines → last_line (drop n lines) ≡ last_line lines
last_line-drop zero lines h = refl
last_line-drop (suc n) [] h = absurd (omega arith)
last_line-drop (suc zero) (l ∷ []) h = absurd (omega (arith, h))
last_line-drop (suc (suc n)) (l ∷ []) h = absurd (omega (arith, h))
last_line-drop (suc n) (l ∷ m ∷ lines) h = last_line-drop n (m ∷ lines) (omega (arith, h))

last_line-last_of :
    (n : ℕ) (lines : List Text) → 1 ≤ n → last_line (last_of n lines) ≡ last_line lines
last_line-last_of n [] h = ap last_line (drop-nil (0 - n))
last_line-last_of n (l ∷ lines) h =
    last_line-drop (length (l ∷ lines) - n) (l ∷ lines) (omega (arith, h))

-- The path is in the directory, with the prefix, on one line, and of a file that is not empty.
abbrev pub IsPlaced : Paths → Text → Text → Text → Type 0
IsPlaced paths dir prefix path =
    (paths.dir path ≡ dir)
    × (has_prefix (paths.base path) (prefix ++ codes ".") ≡ true)
    × (contains_byte b'\r' path ≡ false)
    × (contains_byte b'\n' path ≡ false)
    × ((n : ℕ) × (paths.regular_size path ≡ some n) × (n ≢ 0))

complete_size :
    (paths : Paths) (o : Option ℕ) → is_complete paths o ≡ true → (n : ℕ) × (o ≡ some n) × (n ≢ 0)
complete_size paths none h = absurd (ground (arith, h))
complete_size paths (some n) h = (n, refl, ground (arith, h))

module _ (paths : Paths) (dir prefix : Text) where
  accept_path_lem :
      (path found : Text)
      → accept_path paths dir prefix path ≡ ok found
      → (found ≡ path) × IsPlaced paths dir prefix path
  unfolding accept_path is_misplaced
  accept_path_lem path found h =
      let complete = complete_size paths (paths.regular_size path) in
      ground (arith, h, complete, text_eq_iff (paths.dir path) dir)

  check_path_lem :
      (found : Text) (o : Option Text)
      → check_path paths dir prefix o ≡ ok found
      → ((line : Text) × (o ≡ some line) × (found ≡ resolve paths dir line))
        × IsPlaced paths dir prefix found
  unfolding check_path
  check_path_lem found none h = absurd (ground (arith, h))
  check_path_lem found (some line) h =
      let (e, placed) = accept_path_lem (resolve paths dir line) found h in
      ((line, refl, e), subst (λ x. IsPlaced paths dir prefix x) (sym e) placed)

  -- If runYtDLP answers with a path, the command reported no error, the path is what the last line
  -- not empty and without a bracket at its start resolves to, and it is in the work directory, has
  -- the prefix, has no line break, and is of a regular file that is not empty.
  pub run_yt_dlp_ok :
      (numbers : Numbers) (lines : List Text) (run_err : Option PipelineError) (found : Text)
      → run_yt_dlp paths numbers dir prefix lines run_err ≡ ok found
      → (run_err ≡ none)
        × ((line : Text) × (last_line (printed_of lines) ≡ some line)
            × (found ≡ resolve paths dir line))
        × IsPlaced paths dir prefix found
  unfolding run_yt_dlp
  run_yt_dlp_ok numbers lines (some e) found h = absurd (ground (arith, h))
  run_yt_dlp_ok numbers lines none found h =
      let heard = hear_all_lem numbers lines in
      let ((line, e, r), placed) =
        check_path_lem found (last_line (hear_all numbers nothing_heard lines).printed) h in
      let same : last_line (printed_of lines) ≡ some line =
        sym (last_line-last_of 4 (printed_of lines) (omega arith))
        ∙ sym (ap last_line heard.0)
        ∙ e in
      (refl, (line, same, r), placed)
