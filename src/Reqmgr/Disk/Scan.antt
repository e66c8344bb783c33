-- ===== src/Reqmgr/Disk/Scan.antt =====
-- pkg/reqmgr/disk_store.go: `GetActive`, and the quarantine of the files that it finds corrupt.
use tip_olg_ucentral_client.Prelude.{
  ℕ, String, ◌+++◌, Bool, not, ◌&&◌, ◌||◌, Option, none, some, List, [], ◌∷◌, ◌++◌, length, take,
  lookup, insert, remove, str_eq, ltb, if◌then◌else◌, Checked, pass, fault,
}
use tip_olg_ucentral_client.Reqmgr.Store.{PersistentOperation}
use tip_olg_ucentral_client.Reqmgr.Disk.{
  StoreError, Disk, StoreLibraries, file_name, context_ended, read_dir_failed,
}

-- The answers to the calls of `GetActive`, by the name of the entry: whether the context has ended,
-- whether it is a directory, whether it can be read and moved, and the stamp of its name in
-- `quarantine`.
pub record ScanIo : Type 0 where
  pub has_ended : Bool
  pub reads_dir : Bool
  pub ended_at : String → Bool
  pub is_dir : String → Bool
  pub reads : String → Bool
  pub moves : String → Bool
  pub stamp : String → String

-- `quarantinePathDurably`, whose errors are only logged; those behind the rename change no name.
unfoldable pub quarantine : ScanIo → String → List ℕ → Disk → Disk
quarantine io name content disk =
    if io.moves name
    then record {
      files = remove name disk.files;
      quarantined =
          insert (name +++ ("." +++ (io.stamp name +++ ".corrupt"))) content disk.quarantined;
    }
    else disk

-- What a file holds: something corrupt, an operation that has ended, or an active one.
pub data Content : Type 0 where
  corrupt inactive : Content
  active_operation : PersistentOperation → Content

unfoldable pub classify_operation : StoreLibraries → String → PersistentOperation → Content
classify_operation lib name op =
    if not (lib.is_uuid op.operation_id)
    then corrupt
    else if not (str_eq name (file_name op.operation_id))
    then corrupt
    else if not (lib.is_time op.updated_at)
    then corrupt
    else if not op.active
    then inactive
    else active_operation op

unfoldable pub classify : StoreLibraries → String → List ℕ → Content
classify lib name content = elim (lib.unmarshal content) [
  | none ↦ corrupt
  | some op ↦ classify_operation lib name op
]

abbrev pub Scan : Type 0
Scan = Disk × List PersistentOperation

unfoldable pub scan_content : ScanIo → String → List ℕ → Content → Scan → Scan
scan_content io name content corrupt (disk, ops) = (quarantine io name content disk, ops)
scan_content io name content inactive (disk, ops) = (disk, ops)
scan_content io name content (active_operation op) (disk, ops) = (disk, ops ++ (op ∷ []))

abbrev pub scan_data : StoreLibraries → ScanIo → String → Option (List ℕ) → Scan → Scan
scan_data lib io name none s = s
scan_data lib io name (some content) s =
    if io.reads name then scan_content io name content (classify lib name content) s else s

-- The body of the loop over the entries.
unfoldable pub scan_entry : StoreLibraries → ScanIo → String → Scan → Scan
scan_entry lib io name s =
    if io.is_dir name || not (lib.has_json_suffix name)
    then s
    else scan_data lib io name (lookup name s.0.files) s

-- The loop; it stops with an error when the context ends.
unfoldable pub scan_entries :
    StoreLibraries → ScanIo → List String → Scan → Disk × Option (List PersistentOperation)
scan_entries lib io [] (disk, ops) = (disk, some ops)
scan_entries lib io (name ∷ names) s =
    let rest = scan_entries lib io names (scan_entry lib io name s) in
    if io.ended_at name then (s.0, none) else rest

-- A limit of 0 stands for every one that is not positive.
abbrev pub limited : ℕ → List PersistentOperation → List PersistentOperation
limited limit ops = if ltb 0 limit && ltb limit (length ops) then take limit ops else ops

abbrev pub names_of : List (String × List ℕ) → List String
names_of [] = []
names_of ((name, content) ∷ files) = name ∷ names_of files

abbrev pub scanned :
    StoreLibraries
    → ℕ
    → Disk × Option (List PersistentOperation)
    → Disk × Checked StoreError (List PersistentOperation)
scanned lib limit (disk, none) = (disk, fault context_ended)
scanned lib limit (disk, some ops) = (disk, pass (limited limit (lib.sort_newest ops)))

unfoldable pub get_active :
    StoreLibraries → ScanIo → ℕ → Disk → Disk × Checked StoreError (List PersistentOperation)
get_active lib io limit disk =
    if io.has_ended
    then (disk, fault context_ended)
    else if not io.reads_dir
    then (disk, fault read_dir_failed)
    else scanned lib limit (scan_entries lib io (names_of disk.files) (disk, []))
