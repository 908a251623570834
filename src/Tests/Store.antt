-- ===== src/Tests/Store.antt =====
-- A scan of a small directory.
use personal_yt_downloader.Common.{◌≡◌, refl, String, Bool, true, false, some, List, [], ◌∷◌}
use personal_yt_downloader.Common.Int.{pos}
use personal_yt_downloader.StateFile.{missing, content}
use personal_yt_downloader.Model.{Job, ready}
use personal_yt_downloader.Store.{
  StoredJob, DirEntry, decode_job, scan_entry, prepend, scan_entries, synthesized, stored_job,
  unreadable,
}
use personal_yt_downloader.Store.Scans.{is_entry, scan_entries-is_listed}
use personal_yt_downloader.Manager.Recover.{is_listed}

abbrev any_id : String → Bool
any_id id = true

abbrev stored : StoredJob
stored = record {
  id = "r";
  title = "t";
  duration_sec = pos 5;
  status = some ready;
  size_bytes = 70;
  created_at = 2;
  error = "";
}

-- A file, a video with its metadata, and a directory without.
abbrev entries : List (DirEntry any_id)
entries =
    record { name = "f"; is_dir = false; metadata = missing }
    ∷ record { name = "r"; is_dir = true; metadata = content stored }
    ∷ record { name = "s"; is_dir = true; metadata = missing }
    ∷ []

abbrev scanned : List Job
scanned = stored_job stored ready ∷ synthesized "s" 9 "" unreadable ∷ []

scan_entries-is_listed_example : is_listed "s" scanned ≡ is_entry any_id "s" entries
unfolding scan_entries scan_entry prepend decode_job
scan_entries-is_listed_example = scan_entries-is_listed any_id 9 entries scanned "s" refl
