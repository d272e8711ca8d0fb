-- ===== src/Analysis.antt =====
-- The AnalysisRun controller: analysis/analysis.go and utils/analysis/helpers.go.
pub mod Phases
pub mod Results
pub mod Assess
pub mod Measure
pub mod Run
pub mod Tasks
