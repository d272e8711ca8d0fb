-- ===== src/Api.antt =====
-- The API types, pkg/apis/rollouts/v1alpha1, as far as the modelled controllers read them.
pub mod IntStr
pub mod Analysis
pub mod Rollout
pub mod Experiment
