-- ===== src/Reqmgr/Disk/Tests.antt =====
-- The theorems on pkg/reqmgr/disk_store.go at a concrete directory.
use tip_olg_ucentral_client.Prelude.{
  ℕ, true, false, Option, none, some, List, [], ◌∷◌, lookup, insert, remove, pass, ◌≡◌, refl,
}
use tip_olg_ucentral_client.Reqmgr.Store.{PersistentOperation}
use tip_olg_ucentral_client.Reqmgr.Disk.{
  Disk, StoreLibraries, SaveIo, file_name, temp_name, get_path, save_as, save, get,
}
use tip_olg_ucentral_client.Reqmgr.Disk.Scan.{
  ScanIo, quarantine, classify_operation, classify, scan_content, scan_entry, scan_entries,
  get_active,
}
use tip_olg_ucentral_client.Reqmgr.Disk.Laws.{IsAtomic, save-IsAtomic, get-save}
use tip_olg_ucentral_client.Reqmgr.Disk.Active.{Each, IsStored, get_active-IsStored}

abbrev operation : PersistentOperation
operation = record {
  operation_id = "op";
  rpc_id = "tx";
  cloud_rpc_id = none;
  target = "system";
  action = "upgrade";
  stage = "started";
  status = "started";
  active = true;
  boot_id = "boot";
  created_at = "t";
  updated_at = "t";
}

-- The encoding of `operation` is 1; everything else is corrupt.
abbrev decode : List ℕ → Option PersistentOperation
decode [] = none
decode (b ∷ bs) = some operation

abbrev store : StoreLibraries
store = record {
  marshal = λ op. some (1 ∷ []);
  unmarshal = decode;
  is_uuid = λ s. true;
  is_time = λ s. true;
  has_json_suffix = λ s. true;
  sort_newest = λ ops. ops;
}

abbrev empty_disk : Disk
empty_disk = record { files = []; quarantined = [] }

-- Every call succeeds.
abbrev smooth : SaveIo
smooth = record {
  has_ended = false;
  temp_id = "u";
  opens = true;
  writes = true;
  written = [];
  syncs = true;
  closes = true;
  renames = true;
  removes = true;
  opens_dir = true;
  syncs_dir = true;
}

-- The disk is full.
abbrev full : SaveIo
full = record smooth { writes = false; removes = false }

save-IsAtomic_example :
    IsAtomic
      (file_name "op")
      (temp_name full "op")
      (1 ∷ [])
      empty_disk
      (save store full (some operation) empty_disk).0
save-IsAtomic_example = save-IsAtomic store full operation (1 ∷ []) empty_disk refl

saved : (save store smooth (some operation) empty_disk).1 ≡ none
unfolding save get_path save_as
saved = refl

get-save_example :
    get store false true "op" (save store smooth (some operation) empty_disk).0
    ≡ pass (some operation)
get-save_example = get-save store smooth operation (1 ∷ []) empty_disk refl refl saved

-- A directory with the operation's file and a corrupt one.
abbrev two_files : Disk
two_files = record { files = ("x.json", []) ∷ ("op.json", 1 ∷ []) ∷ []; quarantined = [] }

abbrev readable : ScanIo
readable = record {
  has_ended = false;
  reads_dir = true;
  ended_at = λ n. false;
  is_dir = λ n. false;
  reads = λ n. true;
  moves = λ n. true;
  stamp = λ n. "0";
}

abbrev swept : Disk
swept = record { files = ("op.json", 1 ∷ []) ∷ []; quarantined = ("x.json.0.corrupt", []) ∷ [] }

two_files-read : get_active store readable 5 two_files ≡ (swept, pass (operation ∷ []))
unfolding get_active scan_entries scan_entry scan_content classify classify_operation quarantine
    lookup insert remove
two_files-read = refl

get_active-IsStored_example : Each (IsStored store readable two_files) (operation ∷ [])
get_active-IsStored_example =
    get_active-IsStored store readable 5 two_files swept (operation ∷ []) (λ P ops e. e)
      two_files-read
