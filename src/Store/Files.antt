-- ===== src/Store/Files.antt =====
-- Save, Remove, OpenVideo and VideoSize of DiskStore (internal/app/store.go), and CleanWorkFiles
-- (internal/app/manager.go), on the directory of one video. Whether a call of the operating system
-- succeeds is an argument.
use personal_yt_downloader.Common.{
  ℕ, ◌≡◌, ◌≢◌, ◌↔◌, ◌⊎◌, inl, inr, Bool, true, false, ◌&&◌, ◌||◌, not, Option, none, some, List, [],
  ◌∷◌, ◌==◌, if◌then◌else◌, Bool-cases, arith,
}
use personal_yt_downloader.StateFile.{StateFile, content, WriteResults, write_file_sync}
use personal_yt_downloader.Model.{Job}
use personal_yt_downloader.Manager.Requests.{SaveAnswer, written, unwritten, unsynced}

-- What stands under the name video.mp4.
pub data Video : Type 0 where
  no_video : Video
  not_regular : Video
  regular : ℕ → Video

pub record Directory : Type 0 where
  pub metadata : StateFile Job
  pub video : Video
  pub has_work : Bool

-- `opens` and `syncs` are the answers for the directory itself, after the write. The flag says that
-- no error is returned.
unfoldable pub save : WriteResults → Bool → Bool → Directory → Job → Directory × Bool
unfolding write_file_sync
save io opens syncs d j =
    if not io.mkdir_all || not io.marshal
    then (d, false)
    else let file = write_file_sync io d.metadata j in
      (record d { metadata = file.0 }, file.1 && opens && syncs)

pub data RemoveAnswer : Type 0 where
  removed not_found remove_failed : RemoveAnswer

-- `stat` says that the directory cannot be found to be missing, and `left` is what a RemoveAll that
-- fails leaves of it.
unfoldable pub remove :
    Bool
    → Bool
    → Bool
    → Bool
    → Bool
    → Option Directory
    → Option Directory
    → Option Directory × RemoveAnswer
remove valid_id removes opens syncs stat_fails left none =
    if not valid_id
    then (none, not_found)
    else if not stat_fails
    then (none, not_found)
    else if not removes
    then (left, remove_failed)
    else if opens && syncs
    then (none, removed)
    else (none, remove_failed)
remove valid_id removes opens syncs stat_fails left (some d) =
    if not valid_id
    then (some d, not_found)
    else if not removes
    then (left, remove_failed)
    else if opens && syncs
    then (none, removed)
    else (none, remove_failed)

pub data VideoAnswer : Type 0 where
  video_not_found video_error storage_trouble : VideoAnswer
  opened : ℕ → VideoAnswer

-- `opens` and `stats` are the answers for the file.
unfoldable pub open_video : Bool → Bool → Bool → Video → VideoAnswer
open_video valid_id opens stats no_video = if not valid_id then video_not_found else video_error
open_video valid_id opens stats not_regular =
    if not valid_id then video_not_found else if not opens then video_error else storage_trouble
open_video valid_id opens stats (regular n) =
    if not valid_id
    then video_not_found
    else if not opens
    then video_error
    else if not stats || n == 0
    then storage_trouble
    else opened n

unfoldable pub video_size : Bool → Video → Option ℕ
video_size stats no_video = none
video_size stats not_regular = none
video_size stats (regular n) = if not stats then none else some n

-- The directories of all videos; the flags say which entries are directories, and which removals
-- succeed.
unfoldable pub clean_work_files : List (Bool × Bool × Directory) → List Directory
clean_work_files [] = []
clean_work_files ((is_dir, removes, d) ∷ entries) =
    (if is_dir && removes then record d { has_work = false } else d) ∷ clean_work_files entries

-- The end of Save as the manager takes it.
abbrev pub metadata_after : SaveAnswer → StateFile Job → Job → StateFile Job
metadata_after written old j = content j
metadata_after unwritten old j = old
metadata_after unsynced old j = content j

abbrev pub succeeds : SaveAnswer → Bool
succeeds written = true
succeeds _ = false

write_file_sync_lem :
    (io : WriteResults) (old : StateFile Job) (j : Job)
    → write_file_sync io old j
      ≡ (if (write_file_sync io old j).1 then (content j, true) else (old, false))
unfolding write_file_sync
write_file_sync_lem io old j = ground arith

-- Save ends in one of the three ways that the manager knows, and changes nothing but the metadata.
pub save_lem :
    (io : WriteResults) (opens syncs : Bool) (d : Directory) (j : Job)
    → (answer : SaveAnswer) × (save io opens syncs d j
        ≡ (record d { metadata = metadata_after answer d.metadata j }, succeeds answer))
unfolding save
save_lem io opens syncs d j =
    let file_lem = write_file_sync_lem io d.metadata j in
    elim (Bool-cases (not io.mkdir_all || not io.marshal)) [
      | inl early ↦ (unwritten, ground (arith, early))
      | inr on ↦ elim (Bool-cases (write_file_sync io d.metadata j).1) [
        | inr failed ↦ (unwritten, ground (arith, on, failed, file_lem))
        | inl fine ↦ elim (Bool-cases (opens && syncs)) [
          | inl all ↦ (written, ground (arith, on, fine, all, file_lem))
          | inr part ↦ (unsynced, ground (arith, on, fine, part, file_lem))
        ]
      ]
    ]

-- Behind an answer that the manager takes for a removal, the directory of a valid ID is gone.
pub remove_gone :
    (removes opens syncs stat_fails : Bool) (left d : Option Directory)
    → ((remove true removes opens syncs stat_fails left d).1 ≡ remove_failed)
      ⊎ ((remove true removes opens syncs stat_fails left d).0 ≡ none)
unfolding remove
remove_gone removes opens syncs stat_fails left none = ground arith
remove_gone removes opens syncs stat_fails left (some d) = ground arith

-- A video is opened exactly if it is a regular file that is not empty and the calls succeed.
pub open_video_iff :
    (valid_id opens stats : Bool) (video : Video) (n : ℕ)
    → (open_video valid_id opens stats video ≡ opened n)
      ↔ ((valid_id ≡ true) × (opens ≡ true) × (stats ≡ true) × (video ≡ regular n) × (n ≢ 0))
unfolding open_video
open_video_iff valid_id opens stats no_video n = ground arith
open_video_iff valid_id opens stats not_regular n = ground arith
open_video_iff valid_id opens stats (regular m) n = ground arith
