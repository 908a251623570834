-- ===== src/Model/Laws.antt =====
-- Laws of the model: stages refine statuses, and what a view shows.
use personal_yt_downloader.Common.{
  ◌≡◌, refl, String, Bool, true, false, some, none, ◌≢◌, ◌⊎◌, str_eq, arith, Bool-cases, inl, inr,
  if◌then◌else◌,
}
use personal_yt_downloader.Common.Int.{Float, whole, pos, ◌≤ℤ◌}
use personal_yt_downloader.Model.{
  processing, verifying, failed, Stage, unset, named, download_video, download_audio,
  status_for_stage, is_unfinished, Job, view, clamp_percent, fetching_title,
}

-- A stage that a download reports leaves its job unfinished.
pub data IsPipelineStage : Stage → Type 0 where
  video : IsPipelineStage download_video
  audio : IsPipelineStage download_audio
  processes : IsPipelineStage (named processing)
  verifies : IsPipelineStage (named verifying)

pub status_for_stage-unfinished :
    {s : Stage} → IsPipelineStage s → is_unfinished (status_for_stage s) ≡ true
unfolding is_unfinished status_for_stage
status_for_stage-unfinished video = refl
status_for_stage-unfinished audio = refl
status_for_stage-unfinished processes = refl
status_for_stage-unfinished verifies = refl

shown_title : (t : String) → str_eq (if str_eq t "" then fetching_title else t) "" ≡ false
shown_title t = elim (Bool-cases (str_eq t "")) [ inl e ↦ rw e refl | inr e ↦ rw e e ]

shown_progress :
    (progress : Float) (known : Bool)
    → let shown = if known then some (clamp_percent progress) else none in
      (shown ≡ none) ⊎ ((p : Float) × (shown ≡ some p) × (pos 0 ≤ℤ p) × (p ≤ℤ whole 100))
unfolding clamp_percent
shown_progress progress true = inr (clamp_percent progress, refl, ground arith, ground arith)
shown_progress progress false = inl refl

-- A shown percentage lies between 0 and 100, the shown stage and title are never empty, and there
-- is no error text unless the job failed.
pub view_shown :
    (j : Job) (stage : Stage) (progress : Float) (known : Bool)
    → let v = view j stage progress known in
      ((v.progress ≡ none)
        ⊎ ((p : Float) × (v.progress ≡ some p) × (pos 0 ≤ℤ p) × (p ≤ℤ whole 100)))
      × (v.stage ≢ unset)
      × (str_eq v.title "" ≡ false)
      × ((j.status ≡ failed) ⊎ (v.error ≡ ""))
unfolding view
view_shown j stage progress known =
    (shown_progress progress known, λ h. ground arith, shown_title j.title, ground arith)
