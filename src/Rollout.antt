-- ===== src/Rollout.antt =====
-- The rollout controller: rollout/, and the phase of utils/rollout/rolloututil.go.
pub mod Pause
pub mod Promote
pub mod Canary
pub mod Scale
pub mod Traffic
pub mod Restart
pub mod BlueGreen
pub mod Phase
pub mod Services
