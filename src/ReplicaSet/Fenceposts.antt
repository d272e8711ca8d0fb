-- ===== src/ReplicaSet/Fenceposts.antt =====
-- `resolveFenceposts`, `MaxUnavailable` and `MaxSurge` of utils/replicaset/replicaset.go.
use argo_rollouts.Common.{true, false, ◌&&◌, Option, none, some, if◌then◌else◌}
use argo_rollouts.Common.Int.{ℤ, pos, ltb_ℤ, eqb_ℤ, int32}
use argo_rollouts.Api.IntStr.{IntOrString, IntStr}
use argo_rollouts.Api.Rollout.{Rollout}
use argo_rollouts.Defaults.{
  get_replicas_or_default, get_max_surge_or_default, get_max_unavailable_or_default,
}

pub record Fenceposts : Type 0 where
  pub surge : ℤ
  pub unavailable : ℤ

-- On an error the callers go on with the zero values that come with it.
abbrev pub no_fenceposts : Fenceposts
no_fenceposts = record { surge = pos 0; unavailable = pos 0 }

module _ (lib : IntStr) where
  -- If both come to nothing, one pod may be unavailable.
  unfoldable pub resolve_fenceposts : IntOrString → IntOrString → ℤ → Option Fenceposts
  resolve_fenceposts max_surge max_unavailable desired =
      elim (lib.get_value max_surge desired true) [
        | none ↦ none
        | some surge ↦ elim (lib.get_value max_unavailable desired false) [
          | none ↦ none
          | some unavailable ↦ some (record {
            surge = int32 surge;
            unavailable =
                int32
                  (if eqb_ℤ surge (pos 0) && eqb_ℤ unavailable (pos 0) then pos 1 else unavailable);
          })
        ]
      ]

  abbrev or_zero : Option Fenceposts → Fenceposts
  or_zero none = no_fenceposts
  or_zero (some f) = f

  fenceposts : Rollout → Fenceposts
  fenceposts ro = or_zero (
      resolve_fenceposts (get_max_surge_or_default ro) (get_max_unavailable_or_default ro)
        (get_replicas_or_default ro.spec.replicas))

  abbrev value_or_zero : Option ℤ → ℤ
  value_or_zero none = pos 0
  value_or_zero (some n) = n

  unavailable_of : Rollout → ℤ
  unfolding fenceposts
  unavailable_of ro = elim ro.spec.canary [
    | some _ ↦ (fenceposts ro).unavailable
    | none ↦ int32 (
        value_or_zero (
          lib.get_value (get_max_unavailable_or_default ro)
            (get_replicas_or_default ro.spec.replicas) false))
  ]

  -- Never more than the replicas.
  unfoldable pub max_unavailable : Rollout → ℤ
  unfolding unavailable_of
  max_unavailable ro =
      let replicas = get_replicas_or_default ro.spec.replicas in
      if eqb_ℤ replicas (pos 0)
      then pos 0
      else if ltb_ℤ replicas (unavailable_of ro)
      then replicas
      else unavailable_of ro

  unfoldable pub max_surge : Rollout → ℤ
  unfolding fenceposts
  max_surge ro = elim ro.spec.canary [ none ↦ pos 0 | some _ ↦ (fenceposts ro).surge ]
