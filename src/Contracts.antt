-- ===== src/Contracts.antt =====
-- pkg/contracts: the JSON-RPC messages and the enumerations of the wire protocol.
pub mod Rpc
pub mod Enums
pub mod Ids
pub mod Responses
pub mod Json
pub mod Cloud
pub mod Configure
pub mod Envelopes
pub mod Status
pub mod Tests
