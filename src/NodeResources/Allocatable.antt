-- ===== src/NodeResources/Allocatable.antt =====
-- NodeResourcesAllocatable (pkg/noderesources/allocatable.go) and the scorer that it configures
-- (resource_allocation.go). Maps are visited in an order that Go leaves open; here in their own.
use flex_gpu_scheduler.Prelude.{
  ◌*◌, ◌+◌, ℤ, pos, negsuc, ◌+ℤ◌, ◌-ℤ◌, quot_ℤ, ltb_ℤ, leb_ℤ, Bool, true, false, if◌then◌else◌,
  str_eq, String, Map, lookup, insert, value_or, Option, none, some, List, [], ◌∷◌, map, Panics,
  returns, panics,
}
use flex_gpu_scheduler.Prelude.Int.{pos_part, neg_part, sub_ℕ}
use flex_gpu_scheduler.PodGroups.{to_int64}
use flex_gpu_scheduler.Resources.{Resource}
use flex_gpu_scheduler.Controller.PodGroupSync.{same_ℤ}
use flex_gpu_scheduler.PodState.{range_of, normalized}

-- config.ModeType; `unset` is the empty string, and `other_mode` any other.
pub data ModeType : Type 0 where
  least most unset other_mode : ModeType

-- NodeResourcesAllocatableArgs, with the names and weights of the resources.
pub record NodeResourcesAllocatableArgs : Type 0 where
  pub resources : List (String × ℤ)
  pub mode : ModeType

-- The mode and the weights of a resourceAllocationScorer.
pub record ResourceAllocationScorer : Type 0 where
  pub mode : ModeType
  pub resource_to_weight_map : Map ℤ

abbrev pub default_resources_to_weight_map : Map ℤ
default_resources_to_weight_map = ("memory", pos 1) ∷ ("cpu", pos 1048576) ∷ []

-- validateResources; `false` is its error.
unfoldable pub validate_resources : List (String × ℤ) → Bool
validate_resources [] = true
validate_resources ((name, weight) ∷ rest) =
    let others = validate_resources rest in if leb_ℤ weight (pos 0) then false else others

unfoldable pub weight_map : List (String × ℤ) → Map ℤ → Map ℤ
weight_map [] m = m
weight_map ((name, weight) ∷ rest) m = weight_map rest (insert name weight m)

-- The mode of the arguments, or the default; `none` is an invalid one.
abbrev pub valid_mode : ModeType → Option ModeType
valid_mode unset = some least
valid_mode least = some least
valid_mode most = some most
valid_mode other_mode = none

-- NewAllocatable
unfoldable pub new_allocatable :
    Option NodeResourcesAllocatableArgs → Option ResourceAllocationScorer
new_allocatable none =
    some (record { mode = least; resource_to_weight_map = default_resources_to_weight_map })
new_allocatable (some args) = elim (valid_mode args.mode) [
  | none ↦ none
  | some mode ↦ elim args.resources [
    | [] ↦ some (record { mode = mode; resource_to_weight_map = default_resources_to_weight_map })
    | first ∷ rest ↦
        if validate_resources (first ∷ rest)
        then some (record { mode = mode; resource_to_weight_map = weight_map (first ∷ rest) [] })
        else none
  ]
]

-- The product of two int64 values, before it wraps around.
abbrev pub product : ℤ → ℤ → ℤ
product a b =
    sub_ℕ (pos_part a * pos_part b + neg_part a * neg_part b)
      (pos_part a * neg_part b + neg_part a * pos_part b)

-- score
unfoldable pub score_capacity : ℤ → ModeType → ℤ
score_capacity capacity least = to_int64 (product (negsuc 0) capacity)
score_capacity capacity most = capacity
score_capacity capacity unset = pos 0
score_capacity capacity other_mode = pos 0

-- The loop of resourceScorer, on nodeScore and weightSum.
unfoldable pub sum_weighted : ModeType → Map ℤ → Map ℤ → ℤ × ℤ → ℤ × ℤ
sum_weighted mode allocable [] sums = sums
sum_weighted mode allocable ((resource, weight) ∷ rest) (node_score, weight_sum) =
    let resource_score = score_capacity (value_or (pos 0) (lookup resource allocable)) mode in
    sum_weighted mode allocable rest (
      to_int64 (node_score +ℤ to_int64 (product resource_score weight)),
      to_int64 (weight_sum +ℤ weight),
    )

-- resourceScorer
unfoldable pub resource_scorer : ResourceAllocationScorer → Map ℤ → Panics ℤ
resource_scorer r allocable =
    let (node_score, weight_sum) =
      sum_weighted r.mode allocable r.resource_to_weight_map (pos 0, pos 0) in
    if same_ℤ weight_sum (pos 0) then panics else returns (to_int64 (quot_ℤ node_score weight_sum))

-- A node of the snapshot.
pub record NodeInfo : Type 0 where
  pub allocatable : Resource
  pub requested : Resource
  pub non_zero_requested : Resource

-- What the containers and the init containers of a pod request.
pub record Pod (Quantity : Type 0) : Type 0 where
  pub containers : List (Map Quantity)
  pub init_containers : List (Map Quantity)
  pub overhead : Option (Map Quantity)

-- The vendored scheduler's GetRequestForResource, with nonZero set, and IsScalarResourceName;
-- Quantity.Value, and whether the feature gate PodOverhead is enabled.
pub record Util : Type 1 where
  pub Quantity : Type 0
  pub get_request_for_resource : String → Map Quantity → ℤ
  pub is_scalar_resource_name : String → Bool
  pub value : Quantity → ℤ
  pub pod_overhead_enabled : Bool

module _ (u : Util) where
  open u use {
    Quantity, get_request_for_resource, is_scalar_resource_name, value, pod_overhead_enabled,
  }

  unfoldable pub add_requests : String → List (Map Quantity) → ℤ → ℤ
  add_requests resource [] pod_request = pod_request
  add_requests resource (requests ∷ rest) pod_request =
      add_requests resource rest
        (to_int64 (pod_request +ℤ get_request_for_resource resource requests))

  unfoldable pub raise_request : String → List (Map Quantity) → ℤ → ℤ
  raise_request resource [] pod_request = pod_request
  raise_request resource (requests ∷ rest) pod_request =
      let v = get_request_for_resource resource requests in
      raise_request resource rest (if ltb_ℤ pod_request v then v else pod_request)

  -- calculatePodResourceRequest
  unfoldable pub calculate_pod_resource_request : Pod Quantity → String → ℤ
  calculate_pod_resource_request pod resource =
      let pod_request =
        raise_request resource pod.init_containers (add_requests resource pod.containers (pos 0)) in
      elim pod.overhead [
        | none ↦ pod_request
        | some overhead ↦
            if pod_overhead_enabled
            then elim (lookup resource overhead) [
              | none ↦ pod_request
              | some quantity ↦ to_int64 (pod_request +ℤ value quantity)
            ]
            else pod_request
      ]

  -- calculateResourceAllocatableRequest
  unfoldable pub calculate_resource_allocatable_request : NodeInfo → Pod Quantity → String → ℤ × ℤ
  calculate_resource_allocatable_request node pod resource =
      let pod_request = calculate_pod_resource_request pod resource in
      if str_eq resource "cpu"
      then (node.allocatable.milli_cpu, to_int64 (node.non_zero_requested.milli_cpu +ℤ pod_request))
      else if str_eq resource "memory"
      then (node.allocatable.memory, to_int64 (node.non_zero_requested.memory +ℤ pod_request))
      else if str_eq resource "ephemeral-storage"
      then (
        node.allocatable.ephemeral_storage,
        to_int64 (node.requested.ephemeral_storage +ℤ pod_request),
      )
      else if is_scalar_resource_name resource
      then (
        value_or (pos 0) (lookup resource node.allocatable.scalar_resources),
        to_int64
            (value_or (pos 0) (lookup resource node.requested.scalar_resources) +ℤ pod_request),
      )
      else (pos 0, pos 0)

  -- The loop of the scorer's score: what a node has of each resource. (The requests go unused.)
  unfoldable pub allocatable_of : NodeInfo → Pod Quantity → Map ℤ → Map ℤ
  allocatable_of node pod [] = []
  allocatable_of node pod ((resource, weight) ∷ rest) =
      insert resource (calculate_resource_allocatable_request node pod resource).0
        (allocatable_of node pod rest)

  -- Score, with the node if the snapshot has it; the inner `none` is an error.
  unfoldable pub score :
      ResourceAllocationScorer → Pod Quantity → Option NodeInfo → Panics (Option ℤ)
  score r pod none = returns none
  score r pod (some node) =
      elim (resource_scorer r (allocatable_of node pod r.resource_to_weight_map)) [
        | panics ↦ panics
        | returns s ↦ returns (some s)
      ]

-- NormalizeScore, on the scores alone; its loops are those of PodState's.
unfoldable pub normalize_score : List ℤ → List ℤ
normalize_score scores =
    let (highest, lowest) =
      range_of scores (negsuc 9223372036854775806) (pos 9223372036854775807) in
    map (normalized lowest (to_int64 (highest -ℤ lowest))) scores
