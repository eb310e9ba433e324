-- ===== src/Numa/Filter.antt =====
-- The filter of NodeResourceTopologyMatch (pkg/noderesourcetopology/filter.go), and the list of NUMA
-- nodes that it works on (pluginhelpers.go).
use flex_gpu_scheduler.Prelude.{
  ℕ, ◌<◌, ◌≡◌, ltb, ◌==◌, ℤ, pos, negsuc, Bool, true, false, ◌&&◌, ◌||◌, not, if◌then◌else◌, str_eq,
  String, Map, lookup, insert, value_or, Option, none, some, List, [], ◌∷◌, Ordering, Panics,
  returns, panics,
}
use flex_gpu_scheduler.Api.{Vendor}
use flex_gpu_scheduler.Resources.{Resource, resource_list, get_pod_effective_request}

-- The kubelet's bit masks of 64 bits: NewEmptyBitMask, Fill on one, Add of one bit, And, IsEmpty,
-- GetBits and IsSet.
pub record BitMasks : Type 1 where
  pub BitMask : Type 0
  pub empty_mask : BitMask
  pub full_mask : BitMask
  pub add_bit : BitMask → ℕ → BitMask
  pub and_mask : BitMask → BitMask → BitMask
  pub is_empty : BitMask → Bool
  pub get_bits : BitMask → List ℕ
  pub is_set : BitMask → ℕ → Bool
  pub is_set-empty_mask : (j : ℕ) → is_set empty_mask j ≡ false
  pub is_set-full_mask : (j : ℕ) → is_set full_mask j ≡ ltb j 64
  pub is_set-add_bit :
      (m : BitMask) (i j : ℕ) → i < 64 → is_set (add_bit m i) j ≡ (i == j || is_set m j)
  pub is_set-and_mask :
      (m n : BitMask) (j : ℕ) → is_set (and_mask m n) j ≡ (is_set m j && is_set n j)
  pub is_set-empty : (m : BitMask) (j : ℕ) → is_empty m ≡ true → is_set m j ≡ false
  -- The bits come in order.
  pub get_bits_lowest :
      (m : BitMask)
      → is_empty m ≡ false
      → (k : ℕ) × (rest : List ℕ) × (get_bits m ≡ k ∷ rest)
        × (is_set m k ≡ true)
        × ((j : ℕ) → j < k → is_set m j ≡ false)

-- v1helper.IsHugePageResourceName and IsNativeResource, fmt.Sscanf with "node-%d", and the policies
-- of the vendored topology API.
pub record Names : Type 0 where
  pub is_huge_page_resource_name : String → Bool
  pub is_native_resource : String → Bool
  pub scan_numa_id : String → Option ℤ
  -- The names of the policies.
  pub single_numa_node_pod_level : String
  pub single_numa_node_container_level : String

-- NUMANode
pub record NumaNode (Quantity : Type 0) : Type 0 where
  pub numa_id : ℕ
  pub resources : Map Quantity

-- A Zone, with the names and the available amounts of its resources.
pub record Zone (Quantity : Type 0) : Type 0 where
  pub zone_type : String
  pub name : String
  pub resources : List (String × Quantity)

-- A v1.Pod: what its init containers and its containers request.
pub record Pod (Quantity : Type 0) : Type 0 where
  pub init_containers : List (Map Quantity)
  pub containers : List (Map Quantity)

-- v1.PodQOSClass
pub data PodQos : Type 0 where
  guaranteed burstable best_effort : PodQos

abbrev pub is_guaranteed : PodQos → Bool
is_guaranteed guaranteed = true
is_guaranteed burstable = false
is_guaranteed best_effort = false

abbrev pub is_best_effort : PodQos → Bool
is_best_effort guaranteed = false
is_best_effort burstable = false
is_best_effort best_effort = true

abbrev pub highest_numa_id : ℕ
highest_numa_id = 8

module _ (v : Vendor) (names : Names) where
  open v use {Quantity, zero_value, sub, cmp, is_zero}
  open names use {
    is_huge_page_resource_name, is_native_resource, scan_numa_id, single_numa_node_pod_level,
    single_numa_node_container_level,
  }

  -- extractResources
  unfoldable pub extract_resources : List (String × Quantity) → Map Quantity → Map Quantity
  extract_resources [] res = res
  extract_resources ((name, available) ∷ rest) res =
      extract_resources rest (insert name available res)

  -- createNUMANodeList
  unfoldable pub create_numa_node_list : List (Zone Quantity) → List (NumaNode Quantity)
  create_numa_node_list [] = []
  create_numa_node_list (zone ∷ zones) =
      let rest = create_numa_node_list zones in
      if not (str_eq zone.zone_type "Node") then rest else elim (scan_numa_id zone.name) [
        | none ↦ rest
        | some id ↦ elim id [
          | pos n ↦
              if ltb 63 n
              then rest
              else record { numa_id = n; resources = extract_resources zone.resources [] } ∷ rest
          | negsuc n ↦ rest
        ]
      ]

  -- isNUMANodeSuitable
  unfoldable pub is_numa_node_suitable : PodQos → String → Quantity → Quantity → Bool
  is_numa_node_suitable qos resource quantity numa_quantity =
      if not (is_guaranteed qos)
        && (str_eq resource "memory"
            || is_huge_page_resource_name resource
            || str_eq resource "cpu")
      then true
      else elim (cmp numa_quantity quantity) [ Ordering.lt ↦ false | _ ↦ true ]

  -- subtractFromNUMA, the inner loop
  unfoldable pub subtract_requests : Map Quantity → Map Quantity → Map Quantity
  subtract_requests [] n_res = n_res
  subtract_requests ((name, quan) ∷ rest) n_res =
      subtract_requests rest
        (insert name (sub (value_or zero_value (lookup name n_res)) quan) n_res)

  -- subtractFromNUMA
  unfoldable pub subtract_from_numa :
      List (NumaNode Quantity) → ℕ → Map Quantity → List (NumaNode Quantity)
  subtract_from_numa [] numa_id requests = []
  subtract_from_numa (node ∷ nodes) numa_id requests =
      let rest = subtract_from_numa nodes numa_id requests in
      if node.numa_id == numa_id
      then record node { resources = subtract_requests requests node.resources } ∷ rest
      else node ∷ rest

  module _ (masks : BitMasks) where
    open masks use {BitMask, empty_mask, full_mask, add_bit, and_mask, is_empty, get_bits}

    -- The loop over the NUMA nodes for one resource: hasNUMAAffinity and resourceBitmask.
    unfoldable pub scan_nodes :
        PodQos → String → Quantity → List (NumaNode Quantity) → Bool × BitMask → Bool × BitMask
    scan_nodes qos resource quantity [] found = found
    scan_nodes qos resource quantity (node ∷ nodes) (has_affinity, mask) =
        elim (lookup resource node.resources) [
          | none ↦ scan_nodes qos resource quantity nodes (has_affinity, mask)
          | some numa_quantity ↦
              let mask' =
                if is_numa_node_suitable qos resource quantity numa_quantity
                then add_bit mask node.numa_id
                else mask in
              scan_nodes qos resource quantity nodes (true, mask')
        ]

    -- The loop over the requested resources: the mask that is left, or an early verdict.
    unfoldable pub restrict :
        PodQos → Map Quantity → List (NumaNode Quantity) → Map Quantity → BitMask → Option BitMask
    restrict qos node_resources nodes [] mask = some mask
    restrict qos node_resources nodes ((resource, quantity) ∷ rest) mask = elim (is_zero quantity) [
      | true ↦ restrict qos node_resources nodes rest mask
      | false ↦ elim (lookup resource node_resources) [
        | none ↦ none
        | some _ ↦
            let (has_affinity, resource_mask) =
              scan_nodes qos resource quantity nodes (false, empty_mask) in
            elim (not has_affinity && not (is_native_resource resource)) [
              | true ↦ restrict qos node_resources nodes rest mask
              | false ↦
                  let mask' = and_mask mask resource_mask in
                  elim (is_empty mask') [
                    | true ↦ none
                    | false ↦ restrict qos node_resources nodes rest mask'
                  ]
            ]
      ]
    ]

    -- resourcesAvailableInAnyNUMANodes, with what the node has allocatable
    unfoldable pub resources_available_in_any_numa_nodes :
        List (NumaNode Quantity) → Map Quantity → PodQos → Map Quantity → Panics (ℕ × Bool)
    resources_available_in_any_numa_nodes nodes resources qos node_resources =
        elim (restrict qos node_resources nodes resources full_mask) [
          | none ↦ returns (highest_numa_id, false)
          | some mask ↦ elim (get_bits mask) [
            | [] ↦ panics
            | numa_id ∷ _ ↦ returns (numa_id, not (is_empty mask))
          ]
        ]

    -- The loop over the init containers; `false` is that one can not be aligned.
    unfoldable pub align_init_containers :
        List (NumaNode Quantity) → PodQos → Map Quantity → List (Map Quantity) → Panics Bool
    align_init_containers nodes qos node_resources [] = returns true
    align_init_containers nodes qos node_resources (requests ∷ rest) =
        elim (resources_available_in_any_numa_nodes nodes requests qos node_resources) [
          | panics ↦ panics
          | returns (numa_id, match) ↦ elim match [
            | true ↦ align_init_containers nodes qos node_resources rest
            | false ↦ returns false
          ]
        ]

    -- The loop over the containers, each of which takes its requests from the node it is aligned to.
    unfoldable pub align_containers :
        List (NumaNode Quantity) → PodQos → Map Quantity → List (Map Quantity) → Panics Bool
    align_containers nodes qos node_resources [] = returns true
    align_containers nodes qos node_resources (requests ∷ rest) =
        elim (resources_available_in_any_numa_nodes nodes requests qos node_resources) [
          | panics ↦ panics
          | returns (numa_id, match) ↦ elim match [
            | true ↦
                align_containers (subtract_from_numa nodes numa_id requests) qos node_resources rest
            | false ↦ returns false
          ]
        ]

    -- singleNUMAContainerLevelHandler; `true` is that it returns nil.
    unfoldable pub single_numa_container_level_handler :
        Pod Quantity → PodQos → List (Zone Quantity) → Map Quantity → Panics Bool
    single_numa_container_level_handler pod qos zones node_resources =
        let nodes = create_numa_node_list zones in
        elim (align_init_containers nodes qos node_resources pod.init_containers) [
          | panics ↦ panics
          | returns aligned ↦ elim aligned [
            | true ↦ align_containers nodes qos node_resources pod.containers
            | false ↦ returns false
          ]
        ]

    -- singleNUMAPodLevelHandler
    unfoldable pub single_numa_pod_level_handler :
        Pod Quantity → PodQos → List (Zone Quantity) → Map Quantity → Panics Bool
    single_numa_pod_level_handler pod qos zones node_resources =
        elim (resources_available_in_any_numa_nodes (create_numa_node_list zones)
          (get_pod_effective_request v pod.init_containers pod.containers) qos node_resources) [
            | panics ↦ panics
            | returns (numa_id, match) ↦ returns match
          ]

    -- newPolicyHandlerMap, with the filters of its handlers
    unfoldable pub new_policy_handler_map :
        Map (Pod Quantity → PodQos → List (Zone Quantity) → Map Quantity → Panics Bool)
    new_policy_handler_map =
        (single_numa_node_pod_level, single_numa_pod_level_handler)
        ∷ (single_numa_node_container_level, single_numa_container_level_handler)
        ∷ []

    -- The loop of Filter over the names of the policies, with their handlers.
    unfoldable pub filter_policies :
        Map (Pod Quantity → PodQos → List (Zone Quantity) → Map Quantity → Panics Bool)
        → Pod Quantity
        → PodQos
        → List (Zone Quantity)
        → Map Quantity
        → List String
        → Panics Bool
    filter_policies handlers pod qos zones node_resources [] = returns true
    filter_policies handlers pod qos zones node_resources (policy ∷ policies) =
        elim (lookup policy handlers) [
          | none ↦ filter_policies handlers pod qos zones node_resources policies
          | some handler ↦ elim (handler pod qos zones node_resources) [
            | panics ↦ panics
            | returns passed ↦ elim passed [
              | true ↦ filter_policies handlers pod qos zones node_resources policies
              | false ↦ returns false
            ]
          ]
        ]

    -- Filter, for a node that is found, with its topology's policies and zones if there is one
    unfoldable pub filter :
        Map (Pod Quantity → PodQos → List (Zone Quantity) → Map Quantity → Panics Bool)
        → Pod Quantity
        → PodQos
        → Option (List String × List (Zone Quantity))
        → Resource
        → Panics Bool
    filter handlers pod qos topology allocatable =
        if is_best_effort qos then returns true else elim topology [
          | none ↦ returns true
          | some (policies, zones) ↦
              filter_policies handlers pod qos zones (resource_list v allocatable) policies
        ]
