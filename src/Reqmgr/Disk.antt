-- ===== src/Reqmgr/Disk.antt =====
-- pkg/reqmgr/disk_store.go: `DiskOperationStore`. The directory is an association list from names to
-- contents; what the operating system answers to each call is an argument. A temporary file gets its
-- name from a fresh UUID.
pub mod Laws
pub mod Scan
pub mod Active
mod Tests
use tip_olg_ucentral_client.Prelude.{
  ℕ, zero, suc, String, ◌+++◌, Bool, true, false, not, ◌&&◌, ◌||◌, Option, none, some, List, [],
  ◌∷◌, ◌++◌, length, take, lookup, insert, remove, str_eq, ltb, if◌then◌else◌, Checked, pass, fault,
  ◌>>=◌, ◌>>◌, refuse, need,
}
use tip_olg_ucentral_client.Reqmgr.Store.{PersistentOperation}

pub data StoreError : Type 0 where
  context_ended marshal_failed invalid_operation_id open_failed write_failed sync_failed :
      StoreError
  close_failed rename_failed dir_open_failed dir_sync_failed read_failed unmarshal_failed :
      StoreError
  remove_failed read_dir_failed nil_operation : StoreError

-- The files of the directory of operations, and those of its child `quarantine`.
pub record Disk : Type 0 where
  pub files : List (String × List ℕ)
  pub quarantined : List (String × List ℕ)

-- `json.Marshal` and `json.Unmarshal` of operations, whether `uuid.Parse` and `time.Parse` accept a
-- text, whether a name ends in `.json`, and the sort by the time of the last change, newest first.
pub record StoreLibraries : Type 0 where
  pub marshal : PersistentOperation → Option (List ℕ)
  pub unmarshal : List ℕ → Option PersistentOperation
  pub is_uuid : String → Bool
  pub is_time : String → Bool
  pub has_json_suffix : String → Bool
  pub sort_newest : List PersistentOperation → List PersistentOperation

-- The answers to the calls of `Save`; `written` is what a failed write has left in the file.
pub record SaveIo : Type 0 where
  pub has_ended : Bool
  pub temp_id : String
  pub opens : Bool
  pub writes : Bool
  pub written : List ℕ
  pub syncs : Bool
  pub closes : Bool
  pub renames : Bool
  pub removes : Bool
  pub opens_dir : Bool
  pub syncs_dir : Bool

abbrev pub file_name : String → String
file_name operation_id = operation_id +++ ".json"

abbrev pub temp_name : SaveIo → String → String
temp_name io operation_id = file_name operation_id +++ (".tmp." +++ io.temp_id)

-- `getPath`, relative to the directory.
unfoldable pub get_path : StoreLibraries → String → Checked StoreError String
get_path lib operation_id =
    if lib.is_uuid operation_id then pass (file_name operation_id) else fault invalid_operation_id

abbrev pub write_file : String → List ℕ → Disk → Disk
write_file name content disk = record disk { files = insert name content disk.files }

abbrev pub remove_file : String → Disk → Disk
remove_file name disk = record disk { files = remove name disk.files }

-- The removal of the temporary file, whose failure is ignored.
abbrev pub clean_up : SaveIo → String → Disk → Disk
clean_up io temp disk = if io.removes then remove_file temp disk else disk

abbrev pub sync_dir : Bool → Bool → Option StoreError
sync_dir opens syncs =
    if not opens then some dir_open_failed else if not syncs then some dir_sync_failed else none

-- `Save` behind the construction of the paths.
unfoldable pub save_as : SaveIo → String → String → List ℕ → Disk → Disk × Option StoreError
save_as io target temp content disk =
    if not io.opens
    then (disk, some open_failed)
    else if not io.writes
    then (clean_up io temp (write_file temp io.written disk), some write_failed)
    else if not io.syncs
    then (clean_up io temp (write_file temp content disk), some sync_failed)
    else if not io.closes
    then (clean_up io temp (write_file temp content disk), some close_failed)
    else if not io.renames
    then (clean_up io temp (write_file temp content disk), some rename_failed)
    else (
      write_file target content (remove_file temp (write_file temp content disk)),
      sync_dir io.opens_dir io.syncs_dir,
    )

abbrev save_at :
    SaveIo → String → List ℕ → Disk → Checked StoreError String → Disk × Option StoreError
save_at io operation_id content disk (fault e) = (disk, some e)
save_at io operation_id content disk (pass target) =
    save_as io target (temp_name io operation_id) content disk

abbrev save_data :
    StoreLibraries → SaveIo → String → Option (List ℕ) → Disk → Disk × Option StoreError
save_data lib io operation_id none disk = (disk, some marshal_failed)
save_data lib io operation_id (some content) disk =
    save_at io operation_id content disk (get_path lib operation_id)

-- `Save`; `none` is a nil operation.
unfoldable pub save :
    StoreLibraries → SaveIo → Option PersistentOperation → Disk → Disk × Option StoreError
save lib io none disk = (disk, some (if io.has_ended then context_ended else nil_operation))
save lib io (some op) disk =
    if io.has_ended
    then (disk, some context_ended)
    else save_data lib io op.operation_id (lib.marshal op) disk

-- `os.ReadFile`: a missing file, or one that cannot be read.
unfoldable pub read_operation :
    StoreLibraries → Bool → Option (List ℕ) → Checked StoreError (Option PersistentOperation)
read_operation lib reads none = pass none
read_operation lib reads (some content) =
    if not reads
    then fault read_failed
    else elim (lib.unmarshal content) [ none ↦ fault unmarshal_failed | some op ↦ pass (some op) ]

-- `reads` is whether a file that is there can be read.
unfoldable pub get :
    StoreLibraries → Bool → Bool → String → Disk → Checked StoreError (Option PersistentOperation)
get lib has_ended reads operation_id disk = do
  refuse has_ended context_ended
  path ← get_path lib operation_id
  read_operation lib reads (lookup path disk.files)

-- The answers to the calls of `Delete`.
pub record DeleteIo : Type 0 where
  pub has_ended : Bool
  pub removes : Bool
  pub opens_dir : Bool
  pub syncs_dir : Bool

-- `deletePathDurably`; a missing file is no error.
unfoldable pub delete_path_durably : DeleteIo → String → Disk → Disk × Option StoreError
delete_path_durably io path disk =
    if not io.removes
    then (disk, some remove_failed)
    else (remove_file path disk, sync_dir io.opens_dir io.syncs_dir)

abbrev delete_at : DeleteIo → Disk → Checked StoreError String → Disk × Option StoreError
delete_at io disk (fault e) = (disk, some e)
delete_at io disk (pass path) = delete_path_durably io path disk

unfoldable pub delete : StoreLibraries → DeleteIo → String → Disk → Disk × Option StoreError
delete lib io operation_id disk =
    if io.has_ended
    then (disk, some context_ended)
    else delete_at io disk (get_path lib operation_id)
