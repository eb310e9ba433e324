-- ===== src/Coscheduling/Cluster.antt =====
-- CheckClusterResource and getNodeResource (pkg/coscheduling/core/core.go): whether what is left on
-- the nodes covers the minimum that a pod group asks for.
use flex_gpu_scheduler.Prelude.{
  ℤ, pos, ◌-ℤ◌, Bool, true, false, if◌then◌else◌, str_eq, Ordering, String, Map, lookup, insert,
  value_or, Option, none, some, List, [], ◌∷◌, length,
}
use flex_gpu_scheduler.Api.{Vendor}
use flex_gpu_scheduler.Resources.{Resource, resource_list}
use flex_gpu_scheduler.PodGroups.{Pod, get_pod_group_full_name, to_int64}

-- A framework.NodeInfo; `known` is false where Node() is nil.
pub record NodeInfo : Type 0 where
  pub known : Bool
  pub allocatable : Resource
  pub requested : Resource
  pub pods : List Pod

-- The loop over the scalar resources of a node.
unfoldable pub left_scalars : Map ℤ → Map ℤ → Map ℤ
left_scalars [] requested = []
left_scalars ((k, allocatable_ex) ∷ rest) requested =
    insert k
      (elim (lookup k requested) [
        | none ↦ allocatable_ex
        | some request_ex ↦ to_int64 (allocatable_ex -ℤ request_ex)
      ])
      (left_scalars rest requested)

-- The loop over the node's pods: the desired group's are removed from the clone. `remove_pod` is
-- framework.NodeInfo.RemovePod, whose error the code ignores.
unfoldable pub without_group : (NodeInfo → Pod → NodeInfo) → String → List Pod → NodeInfo → NodeInfo
without_group remove_pod desired [] clone = clone
without_group remove_pod desired (pod ∷ pods) clone =
    without_group remove_pod desired pods
      (if str_eq (get_pod_group_full_name pod) desired then remove_pod clone pod else clone)

-- getNodeResource
unfoldable pub get_node_resource : (NodeInfo → Pod → NodeInfo) → NodeInfo → String → Resource
get_node_resource remove_pod info desired =
    let clone = without_group remove_pod desired info.pods info in
    let allocatable = clone.allocatable in
    let requested = clone.requested in
    record {
      milli_cpu = to_int64 (allocatable.milli_cpu -ℤ requested.milli_cpu);
      memory = to_int64 (allocatable.memory -ℤ requested.memory);
      ephemeral_storage = to_int64 (allocatable.ephemeral_storage -ℤ requested.ephemeral_storage);
      allowed_pod_number = to_int64 (allocatable.allowed_pod_number -ℤ pos (length clone.pods));
      scalar_resources = left_scalars allocatable.scalar_resources requested.scalar_resources;
    }

-- `quant.Sign() <= 0`
abbrev pub not_positive : Ordering → Bool
not_positive o = elim o [ Ordering.gt ↦ false | _ ↦ true ]

module _ (v : Vendor) where
  open v use {Quantity, zero_value, sub, sign}

  -- The loop over the request: what a node has left of a resource is taken off, and a resource that
  -- is covered goes.
  unfoldable pub reduce_request : Map Quantity → Map Quantity → Map Quantity
  reduce_request node [] = []
  reduce_request node ((name, quant) ∷ rest) =
      let left = sub quant (value_or zero_value (lookup name node)) in
      let others = reduce_request node rest in
      if not_positive (sign left) then others else (name, left) ∷ others

  -- CheckClusterResource: `none` is success, and otherwise the gap that is left. `remaining` is what
  -- getNodeResource says of a node.
  unfoldable pub check_cluster_resource :
      (NodeInfo → Resource) → List NodeInfo → Map Quantity → Option (Map Quantity)
  check_cluster_resource remaining [] request = some request
  check_cluster_resource remaining (info ∷ infos) request =
      let skipped = check_cluster_resource remaining infos request in
      let reduced = reduce_request (resource_list v (remaining info)) request in
      let rest = check_cluster_resource remaining infos reduced in
      if info.known then elim reduced [ [] ↦ none | _ ↦ rest ] else skipped
