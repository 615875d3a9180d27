-- ===== src/Mission.antt =====
-- src/nexus_vector/domain: the Mission, its identity and its transitions.
pub mod States
pub mod Text
pub mod Records
pub mod Identity
pub mod Models
pub mod Initial
pub mod Transitions
