-- ===== src/Reqmgr/Store.antt =====
-- pkg/reqmgr/store.go: the record of a background operation.
use tip_olg_ucentral_client.Prelude.{String, Bool, Bytes}

pub record PersistentOperation : Type 0 where
  pub operation_id : String
  pub rpc_id : String
  pub cloud_rpc_id : Bytes
  pub target : String
  pub action : String
  pub stage : String
  pub status : String
  pub active : Bool
  pub boot_id : String
  pub created_at : String
  pub updated_at : String
