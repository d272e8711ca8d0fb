-- ===== src/ReplicaSet.antt =====
-- utils/replicaset: how many replicas the new and the stable ReplicaSet should have.
pub mod Counts
pub mod Fenceposts
pub mod Steps
pub mod Weight
pub mod Approximate
pub mod Basic
pub mod TrafficRouted
pub mod NewReplicas
