-- ===== src/KeeperHub.antt =====
-- The provider KeeperHub: src/nexus_vector/integrations.
pub mod Amounts
pub mod Intent
pub mod Replies
pub mod Approvals
pub mod Controlled
pub mod Broadcast
pub mod OnePost
