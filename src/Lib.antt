-- ===== src/Lib.antt =====
-- Argo Rollouts: the core of its controllers.
--
-- The rollout controller (rollout/) moves a Rollout from its stable ReplicaSet to a new one, step by
-- step. In each reconciliation it takes the replica counts from utils/replicaset, pauses or completes
-- the current step, and stores a new status. The AnalysisRun controller (analysis/) takes measurements
-- by calling metric providers, and assesses from them a phase for each metric and for the run; a
-- rollout step waits for that phase. The Experiment controller (experiments/) runs ReplicaSets and analysis
-- runs beside a rollout; a step waits for the phase of its experiment, and the traffic router gives its
-- templates weights.
--
-- - Api: types.go, analysis_types.go and experiment_types.go of pkg/apis/rollouts/v1alpha1, with the fields that the modelled
--   code uses. Api/IntStr stands for k8s.io/apimachinery's intstr and is a parameter.
-- - Defaults: utils/defaults/defaults.go and utils/weightutil/weight.go.
-- - Float: float64, a parameter with the facts on products and on the ceiling and the floor of a
--   quotient that the proofs use; exact fractions are an instance.
-- - ReplicaSet: utils/replicaset/canary.go and replicaset.go. Weight and Steps hold the canary's weight
--   at the current step (GetDesiredCanaryWeight, GetCurrentSetWeight, UseSetCanaryScale), Approximate
--   the split of the replicas (approximateWeightedCanaryStableReplicaCounts), Basic the plan without
--   traffic routing (CalculateReplicaCountsForBasicCanary: its stages are functions of their own), and
--   TrafficRouted the one with it.
-- - Analysis: analysis/analysis.go and utils/analysis/helpers.go. Results reads and writes metric
--   results, Measure is runMeasurements, Assess and Run are assessMetricStatus and assessRunStatus,
--   Tasks is generateMetricTasks and calculateNextReconcileTime.
-- - Rollout: Pause is rollout/pause.go, Promote the rollback tests, shouldFullPromote, promoteStable and
--   resetRolloutStatus of rollout/sync.go, Canary the steps of rollout/canary.go up to
--   syncRolloutStatusCanary, BlueGreen the pause and the status of rollout/bluegreen.go, Traffic the
--   weights of rollout/trafficrouting.go, Restart rollout/restart.go, Phase the phase of
--   utils/rollout/rolloututil.go, Services the switches of rollout/service.go.
-- - Rollout/Scale: rollout/replicaset.go and scaleReplicaSet of rollout/sync.go, the sizes and the
--   scale-down deadlines of ReplicaSets; OldReplicaSets is the clean-up and the scale-down of the old ones
--   (scaleDownOldReplicaSetsForCanary, scaleDownOldReplicaSetsForBlueGreen, scaleDownDelayHelper).
-- - ReplicaSet/NewReplicas: NewRSNewReplicas and ReadyForPause of utils/replicaset.
-- - Experiment: experiments/experiment.go, experiments/replicaset.go and utils/experiment/experiment.go.
--   Status reads and writes the status of an experiment, Templates is reconcileTemplate, Runs is
--   reconcileAnalysisRun, Phase is calculateStatus and calculateEnqueueDuration.
-- - Tests: concrete inputs.
--
-- Handlers that change an object in place return the new object. An int32 is an integer over the native
-- numbers, and each int32 sum wraps around (Common/Int); the theorems on replica counts assume numbers
-- for which no sum overflows: counts up to 2^24, and replicas times the maximum weight below 2^31. Every
-- loop is a structural recursion on its list or its index, so there is no fuel. Times are integers, and
-- the current time is an argument. The workers of runMeasurements are a sequence of atomic steps, one
-- for each task, in the order in which they finish.
--
-- The Kubernetes API is a parameter where the code goes on with its answer: whether a write is accepted, what
-- a look-up gives, whether an eviction is refused. A write that is refused leaves the object as it was. An
-- early return with an error is a flag of the result (`failed`, `ended`).
--
-- Not modelled: the work queue, events, logs and metrics of the controller; hashes of templates and of
-- steps (their comparison is an input); regular expressions and secrets of an analysis; the
-- look-up of Services, the traffic routers themselves, step plugins, conditions and validation.
pub mod Common
pub mod Api
pub mod Defaults
pub mod Experiment
pub mod Float
pub mod ReplicaSet
pub mod Analysis
pub mod Rollout
pub mod Tests
