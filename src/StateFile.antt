-- ===== src/StateFile.antt =====
-- The JSON files that hold the sessions and the links, and `writeFileSync` of
-- internal/app/store.go, which replaces one. The operating system's answers are arguments.
use personal_yt_downloader.Common.{Bool, true, false, ◌&&◌, not, if◌then◌else◌, ◌≡◌, arith}

-- What `os.ReadFile` and the JSON decoder make of the file.
pub data StateFile {ℓ} (A : Type ℓ) : Type ℓ where
  missing : StateFile A
  read_error : StateFile A
  malformed : StateFile A
  content : A → StateFile A

-- Whether each call of a write succeeds, in the order of the calls.
pub record WriteResults : Type 0 where
  pub marshal : Bool
  pub mkdir_all : Bool
  pub create_temp : Bool
  pub write : Bool
  pub sync : Bool
  pub close : Bool
  pub chmod : Bool
  pub rename : Bool

abbrev pub all_succeed : WriteResults
all_succeed = record {
  marshal = true;
  mkdir_all = true;
  create_temp = true;
  write = true;
  sync = true;
  close = true;
  chmod = true;
  rename = true;
}

-- The new file, and whether the write reports success. The sibling is written in full before the
-- rename, so a failure of any call leaves the old file.
unfoldable pub write_file_sync {ℓ} :
    {A : Type ℓ} → WriteResults → StateFile A → A → StateFile A × Bool
write_file_sync io old new =
    if not io.create_temp
    then (old, false)
    else if not (io.write && io.sync)
    then (old, false)
    else if not io.close
    then (old, false)
    else if not io.chmod
    then (old, false)
    else if not io.rename
    then (old, false)
    else (content new, true)

-- The common end of the two `persistLocked`: marshal, create the directory, write.
unfoldable pub persist_value {ℓ} :
    {A : Type ℓ} → WriteResults → StateFile A → A → StateFile A × Bool
unfolding write_file_sync
persist_value io old new =
    if io.marshal
    then if io.mkdir_all then write_file_sync io old new else (old, false)
    else (old, false)

-- The file changes exactly when the write reports success, and then holds the whole new value.
pub persist_value_atomic {ℓ} :
    {A : Type ℓ} (io : WriteResults) (old : StateFile A) (new : A)
    → persist_value io old new
      ≡ (if (persist_value io old new).1 then (content new, true) else (old, false))
unfolding persist_value
persist_value_atomic io old new = ground arith
