-- ===== src/Capacity/Quota.antt =====
-- ElasticQuotaInfo (pkg/capacityscheduling/elasticquota.go), with computePodResourceRequest of
-- capacity_scheduling.go. framework.Resource is the vendored scheduler's.
use flex_gpu_scheduler.Prelude.{
  ◌≡◌, ℤ, pos, ◌+ℤ◌, ◌-ℤ◌, ltb_ℤ, Bool, true, false, if◌then◌else◌, String, Map, lookup, insert,
  erase, value_or, Option, none, some, List, [], ◌∷◌, str_eq,
}
use flex_gpu_scheduler.Api.{Vendor}
use flex_gpu_scheduler.Resources.{Resource, resource_list}
use flex_gpu_scheduler.PodGroups.{PodPhase, to_int64}

-- A v1.Pod: what its containers and init containers request, and its overhead.
pub record Pod (Quantity : Type 0) : Type 0 where
  pub namespace : String
  pub uid : String
  pub priority : ℤ
  pub phase : PodPhase
  pub containers : List (Map Quantity)
  pub init_containers : List (Map Quantity)
  pub overhead : Option (Map Quantity)

abbrev pub empty_resource : Resource
empty_resource = record {
  milli_cpu = pos 0;
  memory = pos 0;
  ephemeral_storage = pos 0;
  allowed_pod_number = pos 0;
  scalar_resources = [];
}

-- The methods of framework.Resource and framework.GetPodKey, which fails for a pod with no UID. The
-- feature gate is PodOverhead's.
pub record Framework (v : Vendor) : Type 0 where
  pub milli_value : v.Quantity → ℤ
  pub value : v.Quantity → ℤ
  pub add_list : Resource → Map v.Quantity → Resource
  pub set_scalar : Resource → String → ℤ → Resource
  pub set_max_resource : Resource → Map v.Quantity → Resource
  pub pod_key : Pod v.Quantity → Option String
  pub pod_overhead_enabled : Bool
  pub milli_value-new : (n : ℤ) → milli_value (v.new_milli_quantity n) ≡ n
  pub value-new : (n : ℤ) → value (v.new_quantity n) ≡ n
  pub add_list-milli_cpu :
      (r : Resource) (rl : Map v.Quantity)
      → (add_list r rl).milli_cpu ≡ elim (lookup "cpu" rl) [
        | none ↦ r.milli_cpu
        | some q ↦ to_int64 (r.milli_cpu +ℤ milli_value q)
      ]
  pub add_list-memory :
      (r : Resource) (rl : Map v.Quantity)
      → (add_list r rl).memory
        ≡ elim (lookup "memory" rl) [ none ↦ r.memory | some q ↦ to_int64 (r.memory +ℤ value q) ]
  pub set_scalar-scalar_resources :
      (r : Resource) (j name : String) (n : ℤ)
      → lookup j (set_scalar r name n).scalar_resources
        ≡ (if str_eq name j then some n else lookup j r.scalar_resources)
  pub set_scalar_others :
      (r : Resource) (name : String) (n : ℤ)
      → ((set_scalar r name n).milli_cpu ≡ r.milli_cpu) × ((set_scalar r name n).memory ≡ r.memory)

pub record ElasticQuotaInfo : Type 0 where
  pub namespace : String
  pub pods : Map {0} Unit
  pub min : Resource
  pub max : Resource
  pub used : Resource

-- The loop of cmp2.
unfoldable pub scalars_over : Map ℤ → Map ℤ → Map ℤ → Bool
scalars_over [] x2 y = false
scalars_over ((name, quant) ∷ rest) x2 y =
    let others = scalars_over rest x2 y in
    if ltb_ℤ (value_or (pos 0) (lookup name y))
      (to_int64 (quant +ℤ value_or (pos 0) (lookup name x2)))
    then true
    else others

-- cmp2
unfoldable pub cmp2 : Resource → Resource → Resource → Bool
cmp2 x1 x2 y =
    if ltb_ℤ y.milli_cpu (to_int64 (x1.milli_cpu +ℤ x2.milli_cpu))
    then true
    else if ltb_ℤ y.memory (to_int64 (x1.memory +ℤ x2.memory))
    then true
    else scalars_over x1.scalar_resources x2.scalar_resources y.scalar_resources

-- cmp
unfoldable pub cmp_resource : Resource → Resource → Bool
cmp_resource x y = cmp2 x empty_resource y

unfoldable pub used_over_min_with : ElasticQuotaInfo → Resource → Bool
used_over_min_with e pod_request = cmp2 pod_request e.used e.min

unfoldable pub used_over_max_with : ElasticQuotaInfo → Resource → Bool
used_over_max_with e pod_request = cmp2 pod_request e.used e.max

unfoldable pub used_over_min : ElasticQuotaInfo → Bool
used_over_min e = cmp_resource e.used e.min

module _ (v : Vendor) (fw : Framework v) where
  open v use {Quantity}
  open fw use {add_list, set_scalar, set_max_resource, pod_key, pod_overhead_enabled}

  -- The loop over the scalar resources in reserveResource and unreserveResource.
  unfoldable pub change_scalars : (ℤ → ℤ → ℤ) → Map ℤ → Resource → Resource
  change_scalars f [] used = used
  change_scalars f ((name, quant) ∷ rest) used = change_scalars f rest (
      set_scalar used name
        (to_int64 (f (value_or (pos 0) (lookup name used.scalar_resources)) quant)))

  -- reserveResource, on Used
  unfoldable pub reserve_resource : Resource → Resource → Resource
  reserve_resource used request =
      change_scalars (λ a b. a +ℤ b) request.scalar_resources
        (record used {
          memory = to_int64 (used.memory +ℤ request.memory);
          milli_cpu = to_int64 (used.milli_cpu +ℤ request.milli_cpu);
        })

  -- unreserveResource, on Used
  unfoldable pub unreserve_resource : Resource → Resource → Resource
  unreserve_resource used request =
      change_scalars (λ a b. a -ℤ b) request.scalar_resources
        (record used {
          memory = to_int64 (used.memory -ℤ request.memory);
          milli_cpu = to_int64 (used.milli_cpu -ℤ request.milli_cpu);
        })

  unfoldable pub add_all : Resource → List (Map Quantity) → Resource
  add_all r [] = r
  add_all r (requests ∷ rest) = add_all (add_list r requests) rest

  unfoldable pub max_all : Resource → List (Map Quantity) → Resource
  max_all r [] = r
  max_all r (requests ∷ rest) = max_all (set_max_resource r requests) rest

  -- computePodResourceRequest
  unfoldable pub compute_pod_resource_request : Pod Quantity → Resource
  compute_pod_resource_request pod =
      let result = max_all (add_all empty_resource pod.containers) pod.init_containers in
      elim pod.overhead [
        | none ↦ result
        | some overhead ↦ if pod_overhead_enabled then add_list result overhead else result
      ]

  -- addPodIfNotPresent; `none` is its error.
  unfoldable pub add_pod_if_not_present : ElasticQuotaInfo → Pod Quantity → Option ElasticQuotaInfo
  add_pod_if_not_present e pod = elim (pod_key pod) [
    | none ↦ none
    | some key ↦ elim (lookup key e.pods) [
      | some _ ↦ some e
      | none ↦ some (record e {
        pods = insert key tt e.pods;
        used = reserve_resource e.used (compute_pod_resource_request pod);
      })
    ]
  ]

  -- deletePodIfPresent
  unfoldable pub delete_pod_if_present : ElasticQuotaInfo → Pod Quantity → Option ElasticQuotaInfo
  delete_pod_if_present e pod = elim (pod_key pod) [
    | none ↦ none
    | some key ↦ elim (lookup key e.pods) [
      | none ↦ some e
      | some _ ↦ some (record e {
        pods = erase key e.pods;
        used = unreserve_resource e.used (compute_pod_resource_request pod);
      })
    ]
  ]

  -- The two loops of aggregatedUsedOverMinWith, in one.
  unfoldable pub aggregate : Resource → Resource → Map ElasticQuotaInfo → Resource × Resource
  aggregate used min [] = (used, min)
  aggregate used min ((namespace, e) ∷ rest) =
      aggregate (add_list used (resource_list v e.used)) (add_list min (resource_list v e.min)) rest

  -- aggregatedUsedOverMinWith
  unfoldable pub aggregated_used_over_min_with : Map ElasticQuotaInfo → Resource → Bool
  aggregated_used_over_min_with quotas pod_request =
      let (used, min) = aggregate empty_resource empty_resource quotas in
      cmp_resource (add_list used (resource_list v pod_request)) min
