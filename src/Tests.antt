-- ===== src/Tests.antt =====
-- Runs of the model at concrete inputs.
mod Fixtures
mod Computing
mod Dispatches
mod Missions
mod Plans
mod Recoveries
mod Diagnoses
mod Surfaces
mod References
mod Approvals
mod Evidences
mod Connections
