-- ===== src/Capacity/Plugin.antt =====
-- CapacityScheduling (pkg/capacityscheduling/capacity_scheduling.go): the informer handlers, Reserve,
-- Unreserve, AddPod, RemovePod and PreFilter. The quotas are a map from namespaces.
use flex_gpu_scheduler.Prelude.{
  leb_ℤ, Bool, true, false, not, ◌&&◌, if◌then◌else◌, String, str_eq, Map, lookup, insert, erase,
  Option, none, some, List, [], ◌∷◌,
}
use flex_gpu_scheduler.Api.{Vendor, Status, success, error, unschedulable}
use flex_gpu_scheduler.Resources.{Resource, resource_list}
use flex_gpu_scheduler.PodGroups.{PodPhase, pod_running, pod_pending, pod_succeeded, pod_failed}
use flex_gpu_scheduler.Capacity.Quota.{
  Pod, Framework, ElasticQuotaInfo, empty_resource, used_over_min, used_over_max_with,
  compute_pod_resource_request, add_pod_if_not_present, delete_pod_if_present,
  aggregated_used_over_min_with,
}

-- An ElasticQuota: its namespace and the bounds of its spec.
pub record ElasticQuota (Quantity : Type 0) : Type 0 where
  pub namespace : String
  pub min : Map Quantity
  pub max : Map Quantity

-- PreFilterState
pub record PreFilterState : Type 0 where
  pub pod_req : Resource
  pub nominated_pods_req_in_eq_with_pod_req : Resource
  pub nominated_pods_req_with_pod_req : Resource

-- A phase in which updatePod leaves the pod in its quota.
abbrev pub is_live : PodPhase → Bool
is_live phase = elim phase [ pod_running ↦ true | pod_pending ↦ true | _ ↦ false ]

abbrev pub is_over : PodPhase → Bool
is_over phase = elim phase [ pod_succeeded ↦ true | pod_failed ↦ true | _ ↦ false ]

module _ (v : Vendor) (fw : Framework v) where
  open v use {Quantity}
  open fw use {add_list}

  -- newElasticQuotaInfo, with no resources used
  unfoldable pub new_elastic_quota_info : ElasticQuota Quantity → ElasticQuotaInfo
  new_elastic_quota_info eq = record {
    namespace = eq.namespace;
    pods = [];
    min = add_list empty_resource eq.min;
    max = add_list empty_resource eq.max;
    used = empty_resource;
  }

  unfoldable pub add_elastic_quota :
      Map ElasticQuotaInfo → ElasticQuota Quantity → Map ElasticQuotaInfo
  add_elastic_quota quotas eq = elim (lookup eq.namespace quotas) [
    | some _ ↦ quotas
    | none ↦ insert eq.namespace (new_elastic_quota_info eq) quotas
  ]

  unfoldable pub update_elastic_quota :
      Map ElasticQuotaInfo → ElasticQuota Quantity → ElasticQuota Quantity → Map ElasticQuotaInfo
  update_elastic_quota quotas old_eq new_eq =
      let fresh = new_elastic_quota_info new_eq in
      elim (lookup old_eq.namespace quotas) [
        | none ↦ insert new_eq.namespace fresh quotas
        | some old ↦
            insert new_eq.namespace (record fresh { pods = old.pods; used = old.used }) quotas
      ]

  unfoldable pub delete_elastic_quota :
      Map ElasticQuotaInfo → ElasticQuota Quantity → Map ElasticQuotaInfo
  delete_elastic_quota quotas eq = erase eq.namespace quotas

  -- A call of addPodIfNotPresent or deletePodIfPresent on the pod's quota, if there is one: the
  -- quotas, and whether the call made no error.
  unfoldable pub on_quota :
      (ElasticQuotaInfo → Pod Quantity → Option ElasticQuotaInfo)
      → Map ElasticQuotaInfo
      → Pod Quantity
      → Map ElasticQuotaInfo × Bool
  on_quota change quotas pod = elim (lookup pod.namespace quotas) [
    | none ↦ (quotas, true)
    | some e ↦ elim (change e pod) [
      | none ↦ (quotas, false)
      | some e' ↦ (insert pod.namespace e' quotas, true)
    ]
  ]

  -- addPod, on the quotas that the lister has for the namespace; `none` is the lister's error.
  unfoldable pub add_pod :
      Map ElasticQuotaInfo
      → Option (List (ElasticQuota Quantity))
      → Pod Quantity
      → Map ElasticQuotaInfo
  add_pod quotas listed pod = elim (lookup pod.namespace quotas) [
    | some e ↦ (on_quota (add_pod_if_not_present v fw) quotas pod).0
    | none ↦ elim listed [
      | none ↦ quotas
      | some eqs ↦ elim eqs [
        | [] ↦ quotas
        | eq ∷ _ ↦
            let fresh = new_elastic_quota_info eq in
            elim (add_pod_if_not_present v fw fresh pod) [
              | none ↦ insert eq.namespace fresh quotas
              | some e' ↦ insert eq.namespace e' quotas
            ]
      ]
    ]
  ]

  unfoldable pub update_pod :
      Map ElasticQuotaInfo → Pod Quantity → Pod Quantity → Map ElasticQuotaInfo
  update_pod quotas old_pod new_pod =
      if is_over old_pod.phase
      then quotas
      else if is_live new_pod.phase
      then quotas
      else (on_quota (delete_pod_if_present v fw) quotas new_pod).0

  unfoldable pub delete_pod : Map ElasticQuotaInfo → Pod Quantity → Map ElasticQuotaInfo
  delete_pod quotas pod = (on_quota (delete_pod_if_present v fw) quotas pod).0

  -- Reserve
  unfoldable pub reserve : Map ElasticQuotaInfo → Pod Quantity → Map ElasticQuotaInfo × Status
  reserve quotas pod =
      let (quotas', ok) = on_quota (add_pod_if_not_present v fw) quotas pod in
      (quotas', (if ok then success else error))

  -- Unreserve
  unfoldable pub unreserve : Map ElasticQuotaInfo → Pod Quantity → Map ElasticQuotaInfo
  unreserve quotas pod = (on_quota (delete_pod_if_present v fw) quotas pod).0

  -- AddPod and RemovePod, on the snapshot in the cycle state, if it has one.
  unfoldable pub snapshot_change :
      (ElasticQuotaInfo → Pod Quantity → Option ElasticQuotaInfo)
      → Option (Map ElasticQuotaInfo)
      → Pod Quantity
      → Option (Map ElasticQuotaInfo) × Status
  snapshot_change change none pod = (none, error)
  snapshot_change change (some snapshot) pod = (some (on_quota change snapshot pod).0, success)

  -- The body of the loop over the nominated pods in PreFilter, on its two sums.
  unfoldable pub add_nominated :
      Map ElasticQuotaInfo → Pod Quantity → Pod Quantity → Resource × Resource → Resource × Resource
  add_nominated quotas pod p (in_eq, all) =
      if str_eq p.uid pod.uid then (in_eq, all) else elim (lookup p.namespace quotas) [
        | none ↦ (in_eq, all)
        | some info ↦
            let request = resource_list v (compute_pod_resource_request v fw p) in
            if str_eq p.namespace pod.namespace && leb_ℤ pod.priority p.priority
            then (add_list in_eq request, add_list all request)
            else if not (str_eq p.namespace pod.namespace) && not (used_over_min info)
            then (in_eq, add_list all request)
            else (in_eq, all)
      ]

  -- The two loops of PreFilter: the nominated pods of all nodes, in order.
  unfoldable pub add_all_nominated :
      Map ElasticQuotaInfo
      → Pod Quantity
      → List (Pod Quantity)
      → Resource × Resource
      → Resource × Resource
  add_all_nominated quotas pod [] sums = sums
  add_all_nominated quotas pod (p ∷ ps) sums =
      add_all_nominated quotas pod ps (add_nominated quotas pod p sums)

  -- PreFilter, on the quotas (of which the code has a copy for the rest, and reads the live ones for
  -- the nominated pods) and the nominated pods of the nodes (`none` is the error of the node
  -- lister): the status, and the state that it writes besides the snapshot, which is the quotas.
  unfoldable pub pre_filter :
      Map ElasticQuotaInfo
      → Option (List (Pod Quantity))
      → Pod Quantity
      → Status × Option PreFilterState
  pre_filter quotas nominated pod =
      let pod_req = compute_pod_resource_request v fw pod in
      elim (lookup pod.namespace quotas) [
        | none ↦ (
          success,
          some (record {
            pod_req = pod_req;
            nominated_pods_req_in_eq_with_pod_req = empty_resource;
            nominated_pods_req_with_pod_req = empty_resource;
          }),
        )
        | some eq ↦ elim nominated [
          | none ↦ (error, none)
          | some pods ↦
              let sums = add_all_nominated quotas pod pods (empty_resource, empty_resource) in
              let in_eq = add_list sums.0 (resource_list v pod_req) in
              let all = add_list sums.1 (resource_list v pod_req) in
              (
                (if used_over_max_with eq in_eq
                    then unschedulable
                    else if aggregated_used_over_min_with v fw quotas all
                    then unschedulable
                    else success),
                some (record {
                  pod_req = pod_req;
                  nominated_pods_req_in_eq_with_pod_req = in_eq;
                  nominated_pods_req_with_pod_req = all;
                }),
              )
        ]
      ]
