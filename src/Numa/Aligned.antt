-- ===== src/Numa/Aligned.antt =====
-- The NUMA node that a request is aligned to, and that the handlers do not panic (filter.go).
use flex_gpu_scheduler.Prelude.{
  ℕ, ◌<◌, ◌≡◌, ◌⊎◌, refl, sym, subst, ltb, ◌==◌, ℤ, pos, negsuc, Bool, true, false, not, str_eq,
  if◌then◌else◌, String, Map, lookup, Option, none, some, List, [], ◌∷◌, arith, inl, inr,
  Bool-cases, Option-cases, if-true, if-false, returns,
}
use flex_gpu_scheduler.Api.{Vendor}
use flex_gpu_scheduler.Prelude.Maps
use flex_gpu_scheduler.Resources.{Resource, resource_list, get_pod_effective_request}
use flex_gpu_scheduler.Numa.Filter.{
  BitMasks, Names, NumaNode, Zone, Pod, PodQos, highest_numa_id, create_numa_node_list,
  subtract_from_numa, restrict, resources_available_in_any_numa_nodes, align_init_containers,
  align_containers, single_numa_container_level_handler, single_numa_pod_level_handler,
  new_policy_handler_map, filter_policies, filter, is_best_effort, extract_resources,
}
use flex_gpu_scheduler.Numa.Fitting.{IsNumbered, fits_all, restrict-some, restrict-none}

abbrev numa_node : {Quantity : Type 0} → ℕ → Map Quantity → NumaNode Quantity
numa_node n resources = record { numa_id = n; resources = resources }

module _ (v : Vendor) (names : Names) (masks : BitMasks) (qos : PodQos)
    (node_resources : Map v.Quantity) where
  open v use {Quantity}
  open masks use {
    full_mask, is_empty, get_bits, is_set, is_set-full_mask, is_set-empty, get_bits_lowest,
  }

  full_mask-nonempty : is_empty full_mask ≡ false
  full_mask-nonempty = elim (Bool-cases (is_empty full_mask)) [
    | inr some_bit ↦ some_bit
    | inl empty ↦ cc (is_set-empty full_mask 0 empty, is_set-full_mask 0)
  ]

  -- On NUMA nodes with IDs below 64: either resourcesAvailableInAnyNUMANodes answers 8 and false,
  -- and no ID below 64 fits all the requested resources, or it answers an ID and true, where that
  -- ID is below 64, fits them all, and no lower one does.
  pub resources_available_in_any_numa_nodes-fits_all :
      (nodes : List (NumaNode Quantity)) (resources : Map Quantity)
      → IsNumbered v names masks qos nodes
      → let call =
          resources_available_in_any_numa_nodes v names masks nodes resources qos node_resources in
        ((call ≡ returns (highest_numa_id, false))
          × ((j : ℕ)
              → j < 64
              → fits_all v names masks qos nodes node_resources j resources ≡ false))
        ⊎ ((k : ℕ) × (call ≡ returns (k, true))
            × (k < 64)
            × (fits_all v names masks qos nodes node_resources k resources ≡ true)
            × ((j : ℕ)
                → j < k
                → fits_all v names masks qos nodes node_resources j resources ≡ false))
  unfolding resources_available_in_any_numa_nodes
  resources_available_in_any_numa_nodes-fits_all nodes resources numbered =
      let fits = λ (j : ℕ). fits_all v names masks qos nodes node_resources j resources in
      elim (Option-cases (restrict v names masks qos node_resources nodes resources full_mask)) [
        | inl stuck ↦ inl (
          ground arith,
          λ j small.
              let barred =
                restrict-none v names masks qos nodes node_resources resources full_mask j numbered
                  stuck in
              let bit = is_set-full_mask j in ground arith,
        )
        | inr (mask, left) ↦
            let kept = λ (j : ℕ).
              restrict-some v names masks qos nodes node_resources resources full_mask mask j
                numbered left in
            let (k, rest, bits, lowest, lower) =
              get_bits_lowest mask ((kept 0).1 full_mask-nonempty) in
            let some_left = (kept 0).1 full_mask-nonempty in
            let (same, _) = kept k in
            let bit = is_set-full_mask k in
            let small : k < 64 = ground arith in
            inr (
              k,
              ground arith,
              small,
              ground arith,
              λ j less.
                  let unset_bit = lower j less in
                  let (same_j, _) = kept j in let bit_j = is_set-full_mask j in ground arith,
            )
      ]

  resources_available_total :
      (nodes : List (NumaNode Quantity)) (resources : Map Quantity)
      → IsNumbered v names masks qos nodes
      → (k : ℕ) × (match : Bool) × (resources_available_in_any_numa_nodes v names masks nodes
            resources qos node_resources
          ≡ returns (k, match))
  resources_available_total nodes resources numbered =
      elim (resources_available_in_any_numa_nodes-fits_all nodes resources numbered) [
        | inl (call, none_fits) ↦ (highest_numa_id, false, call)
        | inr found ↦ (found.0, true, found.1)
      ]

  pub subtract_from_numa-IsNumbered :
      (nodes : List (NumaNode Quantity)) (numa_id : ℕ) (requests : Map Quantity)
      → IsNumbered v names masks qos nodes
      → IsNumbered v names masks qos (subtract_from_numa v names nodes numa_id requests)
  unfolding subtract_from_numa
  subtract_from_numa-IsNumbered [] numa_id requests h = tt
  subtract_from_numa-IsNumbered (node ∷ nodes) numa_id requests (small, h) =
      let rest = subtract_from_numa-IsNumbered nodes numa_id requests h in
      let P = IsNumbered v names masks qos in
      elim (Bool-cases (node.numa_id == numa_id)) [
        | inl same ↦ subst P (sym (if-true _ _ same)) (small, rest)
        | inr differ ↦ subst P (sym (if-false _ _ differ)) (small, rest)
      ]

  align_init_containers_total :
      (nodes : List (NumaNode Quantity)) (containers : List (Map Quantity))
      → IsNumbered v names masks qos nodes
      → (b : Bool) × (align_init_containers v names masks nodes qos node_resources containers
          ≡ returns b)
  unfolding align_init_containers
  align_init_containers_total nodes [] numbered = (true, refl)
  align_init_containers_total nodes (requests ∷ rest) numbered =
      let (k, match, call) = resources_available_total nodes requests numbered in
      let (b, later) = align_init_containers_total nodes rest numbered in
      elim (Bool-cases match) [ inl good ↦ (b, ground arith) | inr bad ↦ (false, ground arith) ]

  align_containers_total :
      (nodes : List (NumaNode Quantity)) (containers : List (Map Quantity))
      → IsNumbered v names masks qos nodes
      → (b : Bool) × (align_containers v names masks nodes qos node_resources containers
          ≡ returns b)
  unfolding align_containers
  align_containers_total nodes [] numbered = (true, refl)
  align_containers_total nodes (requests ∷ rest) numbered =
      let (k, match, call) = resources_available_total nodes requests numbered in
      let taken = subtract_from_numa v names nodes k requests in
      let (b, later) =
        align_containers_total taken rest
          (subtract_from_numa-IsNumbered nodes k requests numbered) in
      elim (Bool-cases match) [ inl good ↦ (b, ground arith) | inr bad ↦ (false, ground arith) ]

  listed-IsNumbered :
      (scanned : Option ℤ) (resources : Map Quantity) (nodes : List (NumaNode Quantity))
      → IsNumbered v names masks qos nodes
      → IsNumbered v names masks qos (elim scanned [
        | none ↦ nodes
        | some id ↦ elim id [
          | pos n ↦ if ltb 63 n then nodes else numa_node n resources ∷ nodes
          | negsuc n ↦ nodes
        ]
      ])
  listed-IsNumbered none resources nodes h = h
  listed-IsNumbered (some (negsuc n)) resources nodes h = h
  listed-IsNumbered (some (pos n)) resources nodes h =
      let P = IsNumbered v names masks qos in
      elim (Bool-cases (ltb 63 n)) [
        | inl big ↦ subst P (sym (if-true _ _ big)) h
        | inr small ↦ subst P (sym (if-false _ _ small)) (ground arith, h)
      ]

  create_numa_node_list-IsNumbered :
      (zones : List (Zone Quantity))
      → IsNumbered v names masks qos (create_numa_node_list v names zones)
  unfolding create_numa_node_list
  create_numa_node_list-IsNumbered [] = tt
  create_numa_node_list-IsNumbered (zone ∷ zones) =
      let rest = create_numa_node_list-IsNumbered zones in
      let P = IsNumbered v names masks qos in
      let nodes = create_numa_node_list v names zones in
      let listed =
        listed-IsNumbered (names.scan_numa_id zone.name)
          (extract_resources v names zone.resources []) nodes rest in
      elim (Bool-cases (not (str_eq zone.zone_type "Node"))) [
        | inl other ↦ subst P (sym (if-true _ _ other)) rest
        | inr is_node ↦ subst P (sym (if-false _ _ is_node)) listed
      ]

  single_numa_container_level_handler_total :
      (pod : Pod Quantity) (zones : List (Zone Quantity))
      → (b : Bool) × (single_numa_container_level_handler v names masks pod qos zones node_resources
          ≡ returns b)
  unfolding single_numa_container_level_handler
  single_numa_container_level_handler_total pod zones =
      let nodes = create_numa_node_list v names zones in
      let numbered = create_numa_node_list-IsNumbered zones in
      let (a, first) = align_init_containers_total nodes pod.init_containers numbered in
      let (b, second) = align_containers_total nodes pod.containers numbered in
      elim (Bool-cases a) [ inl good ↦ (b, ground arith) | inr bad ↦ (false, ground arith) ]

  single_numa_pod_level_handler_total :
      (pod : Pod Quantity) (zones : List (Zone Quantity))
      → (b : Bool) × (single_numa_pod_level_handler v names masks pod qos zones node_resources
          ≡ returns b)
  unfolding single_numa_pod_level_handler
  single_numa_pod_level_handler_total pod zones =
      let (k, match, call) =
        resources_available_total (create_numa_node_list v names zones)
          (get_pod_effective_request v pod.init_containers pod.containers)
          (create_numa_node_list-IsNumbered zones) in
      (match, ground arith)

  filter_policies_total :
      (pod : Pod Quantity) (zones : List (Zone Quantity)) (policies : List String)
      → (b : Bool) × (filter_policies v names masks
            (new_policy_handler_map v names masks)
            pod
            qos
            zones
            node_resources
            policies
          ≡ returns b)
  unfolding filter_policies new_policy_handler_map Maps.lookup
  filter_policies_total pod zones [] = (true, refl)
  filter_policies_total pod zones (policy ∷ policies) =
      let (b, later) = filter_policies_total pod zones policies in
      let (pod_level, by_pod) = single_numa_pod_level_handler_total pod zones in
      let (container_level, by_container) = single_numa_container_level_handler_total pod zones in
      elim (Bool-cases (str_eq names.single_numa_node_pod_level policy)) [
        | inl of_pod ↦ elim (Bool-cases pod_level) [
          | inl good ↦ (b, ground arith)
          | inr bad ↦ (false, ground arith)
        ]
        | inr other ↦ elim (Bool-cases (str_eq names.single_numa_node_container_level policy)) [
          | inl of_container ↦ elim (Bool-cases container_level) [
            | inl good ↦ (b, ground arith)
            | inr bad ↦ (false, ground arith)
          ]
          | inr unknown ↦ (b, ground arith)
        ]
      ]

-- With the handlers of newPolicyHandlerMap, Filter of the node resource topology returns a verdict
-- for every pod and whatever the zones and the policies of the node: it does not take the first
-- bit of an empty mask.
pub filter_total :
    (v : Vendor) (names : Names) (masks : BitMasks) (qos : PodQos) (pod : Pod v.Quantity)
    (topology : Option (List String × List (Zone v.Quantity))) (allocatable : Resource)
    → (b : Bool) × (filter v names masks
          (new_policy_handler_map v names masks)
          pod
          qos
          topology
          allocatable
        ≡ returns b)
unfolding filter
filter_total v names masks qos pod none allocatable = elim (Bool-cases (is_best_effort qos)) [
  | inl best ↦ (true, ground arith)
  | inr other ↦ (true, ground arith)
]
filter_total v names masks qos pod (some (policies, zones)) allocatable =
    let (b, later) =
      filter_policies_total v names masks qos (resource_list v allocatable) pod zones policies in
    elim (Bool-cases (is_best_effort qos)) [
      | inl best ↦ (true, ground arith)
      | inr other ↦ (b, ground arith)
    ]
