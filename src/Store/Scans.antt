-- ===== src/Store/Scans.antt =====
-- Which videos a scan of the directory (internal/app/store.go) lists.
use personal_yt_downloader.Common.{
  ℕ, ◌≡◌, refl, String, Bool, false, ◌&&◌, ◌||◌, Option, none, some, List, [], ◌∷◌, str_eq, eq_iff,
  Bool-cases, Option-cases, inl, inr, arith,
}
use personal_yt_downloader.Model.{Job}
use personal_yt_downloader.StateFile.{StateFile, missing, read_error, malformed, content}
use personal_yt_downloader.Store.{
  synthesized, unreadable, StoredJob, DirEntry, decode_job, scan_entry, is_job_dir, prepend,
  scan_entries,
}
use personal_yt_downloader.Manager.Recover.{is_listed}

decode_job-id :
    (stored : Option StoredJob) (id : String) (now : ℕ) → (decode_job stored id now).0.id ≡ id
unfolding decode_job
decode_job-id none id now = refl
decode_job-id (some j) id now = ground (arith, eq_iff j.id id)

read-id :
    (file : StateFile StoredJob) (id : String) (now : ℕ) (j : Job)
    → (elim file as (λ x. Option Job) [
      | missing ↦ some (synthesized id now "" unreadable)
      | read_error ↦ none
      | malformed ↦ some (decode_job none id now).0
      | content d ↦ some (decode_job (some d) id now).0
    ])
      ≡ some j
    → j.id ≡ id
read-id missing id now j h = ground (arith, h)
read-id read_error id now j h = ground (arith, h)
read-id malformed id now j h = ground (arith, h, decode_job-id none id now)
read-id (content d) id now j h = ground (arith, h, decode_job-id (some d) id now)

module _ (valid_id : String → Bool) where
  -- Among the entries is a directory of that name, which is a video ID.
  abbrev pub is_entry : String → List (DirEntry valid_id) → Bool
  is_entry k [] = false
  is_entry k (e ∷ entries) =
      (is_job_dir valid_id e && str_eq (DirEntry.name e) k) || is_entry k entries

  scan_entry-id :
      (e : DirEntry valid_id) (now : ℕ) (j : Job)
      → scan_entry valid_id e now ≡ some j
      → j.id ≡ e.name
  unfolding scan_entry
  scan_entry-id e now j h = read-id e.metadata e.name now j h

  -- A scan that succeeds lists a video exactly if the store has a directory of that name which is a
  -- video ID, whatever stands in its metadata.
  pub scan_entries-is_listed :
      (now : ℕ) (entries : List (DirEntry valid_id)) (jobs : List Job) (k : String)
      → scan_entries valid_id now entries ≡ some jobs
      → is_listed k jobs ≡ is_entry k entries
  unfolding scan_entries prepend
  scan_entries-is_listed now [] jobs k h = ground (arith, h)
  scan_entries-is_listed now (e ∷ entries) jobs k h = elim (Bool-cases (is_job_dir valid_id e)) [
    | inr other ↦ rw other (scan_entries-is_listed now entries jobs k (ground (arith, h, other)))
    | inl hit ↦ elim (Option-cases (scan_entry valid_id e now)) [
      | inl bad ↦ absurd (ground (arith, h, hit, bad))
      | inr (j, found) ↦ elim (Option-cases (scan_entries valid_id now entries)) [
        | inl bad ↦ absurd (ground (arith, h, hit, found, bad))
        | inr (rest, scanned) ↦
            let same : jobs ≡ j ∷ rest = ground (arith, h, hit, found, scanned) in
            rw
              (
                hit,
                same,
                scan_entry-id e now j found,
                scan_entries-is_listed now entries rest k scanned,
              )
              refl
      ]
    ]
  ]
