-- ===== src/Persistence.antt =====
-- The SQLite stores (src/nexus_vector/persistence) and the transactions that they share.
pub mod Database
pub mod AttemptStore
pub mod WalMode
pub mod MissionTables
pub mod MissionStore
pub mod BindingStore
pub mod AuthorizationLedger
pub mod ReferenceStore
