-- ===== src/Reqmgr.antt =====
-- pkg/reqmgr: the transaction life cycle, the response cache and the request manager.
pub mod Transaction
pub mod Cache
pub mod Store
pub mod Disk
pub mod Manager
