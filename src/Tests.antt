-- ===== src/Tests.antt =====
-- Concrete inputs: the theorems' hypotheses can hold, with exact fractions for float64 and with
-- numbers for the `intstr` package.
mod Fixtures
mod Replicas
mod Analyses
mod Rollouts
mod Scaling
mod Routing
mod Experiments
mod Phases
mod Services
