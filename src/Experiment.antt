-- ===== src/Experiment.antt =====
-- The experiment controller: experiments/experiment.go, experiments/replicaset.go and
-- utils/experiment/experiment.go.
pub mod Status
pub mod Templates
pub mod Runs
pub mod Phase
pub mod Present
pub mod Ends
pub mod Kept
pub mod Stuck
