-- ===== src/Capacity/Preemptor.antt =====
-- The preemptor of capacity scheduling (pkg/capacityscheduling/capacity_scheduling.go):
-- PodEligibleToPreemptOthers and SelectVictimsOnNode. The quotas are those of the snapshot in the
-- cycle state, which the calls of AddPod and RemovePod change during a dry run.
use flex_gpu_scheduler.Prelude.{
  ltb_ℤ, Bool, true, false, ◌&&◌, ◌||◌, not, if◌then◌else◌, str_eq, String, Map, lookup, Option,
  none, some, value_or, List, [], ◌∷◌, ◌++◌,
}
use flex_gpu_scheduler.Api.{Vendor}
use flex_gpu_scheduler.Resources.{Resource}
use flex_gpu_scheduler.Capacity.Quota.{
  ElasticQuotaInfo, used_over_min, used_over_min_with, used_over_max_with,
  aggregated_used_over_min_with,
}
use flex_gpu_scheduler.Capacity.Quota
use flex_gpu_scheduler.Capacity.Plugin.{PreFilterState}
use flex_gpu_scheduler.Preemption.Budgets.{Pod, Selectors, Pdb, filter_pods_with_pdb_violation}
use flex_gpu_scheduler.Preemption.DryRun.{
  Framework, Selection, errors, no_victims, does_not_fit, quota_exceeded, selected, Dry, fits,
  remove_pod, add_pod, collect, reprieve_all,
}

-- What the plugin reads from the cycle state, which may have no such entry, and the sort of a node's
-- pods in place, the less important ones first.
pub record Snapshots (fw : Framework) : Type 0 where
  pub get_pre_filter_state : fw.CycleState → Option PreFilterState
  pub get_elastic_quota_snapshot_state : fw.CycleState → Option (Map ElasticQuotaInfo)
  pub sort_pods : fw.NodeInfo → fw.NodeInfo

-- The loops of PodEligibleToPreemptOthers: whether a pod terminates that makes room.
unfoldable pub terminates_in_quota : Map ElasticQuotaInfo → Bool → Pod → List Pod → Bool
terminates_in_quota quotas more_than_min_with_preemptor pod [] = false
terminates_in_quota quotas more_than_min_with_preemptor pod (p ∷ pods) =
    let later = terminates_in_quota quotas more_than_min_with_preemptor pod pods in
    if not p.is_terminating then later else elim (lookup p.namespace quotas) [
      | none ↦ later
      | some eq_info ↦
          if str_eq p.namespace pod.namespace && ltb_ℤ p.priority pod.priority
          then true
          else if not (str_eq p.namespace pod.namespace)
              && not more_than_min_with_preemptor
              && used_over_min eq_info
          then true
          else later
    ]

unfoldable pub terminates_without_quota : Map ElasticQuotaInfo → Pod → List Pod → Bool
terminates_without_quota quotas pod [] = false
terminates_without_quota quotas pod (p ∷ pods) =
    let later = terminates_without_quota quotas pod pods in
    elim (lookup p.namespace quotas) [
      | some _ ↦ later
      | none ↦ if p.is_terminating && ltb_ℤ p.priority pod.priority then true else later
    ]

-- PodEligibleToPreemptOthers, with what the cycle state has, the pods of a node of the snapshot, and
-- whether the nominated node's status is UnschedulableAndUnresolvable
unfoldable pub pod_eligible_to_preempt_others :
    Option PreFilterState
    → Option (Map ElasticQuotaInfo)
    → (String → Option (List Pod))
    → Pod
    → Bool
    → Bool
pod_eligible_to_preempt_others pre_filter_state snapshot node_infos pod unresolvable =
    if value_or false pod.preempt_never then false else elim pre_filter_state [
      | none ↦ false
      | some request ↦
          if str_eq pod.nominated_node_name ""
          then true
          else if unresolvable
          then true
          else elim snapshot [
            | none ↦ true
            | some quotas ↦ elim (node_infos pod.nominated_node_name) [
              | none ↦ true
              | some pods ↦ elim (lookup pod.namespace quotas) [
                | none ↦ not (terminates_without_quota quotas pod pods)
                | some preemptor_eq_info ↦
                    let more =
                      used_over_min_with preemptor_eq_info
                        request.nominated_pods_req_in_eq_with_pod_req in
                    not (terminates_in_quota quotas more pod pods)
              ]
            ]
          ]
    ]

module _ (v : Vendor) (r : Quota.Framework v) (fw : Framework) (snapshots : Snapshots fw) where
  open fw use {NodeInfo, CycleState, pods, more_important_first}
  open snapshots use {get_pre_filter_state, get_elastic_quota_snapshot_state, sort_pods}

  -- The quotas of the snapshot, as they are at a point of the dry run.
  abbrev pub quotas_of : Dry fw → Map ElasticQuotaInfo
  quotas_of dry = value_or [] (get_elastic_quota_snapshot_state dry.0)

  -- The tests of the loops over the node's pods; the argument is moreThanMinWithPreemptor for a
  -- preemptor with a quota.
  unfoldable pub is_potential_victim : Option Bool → Pod → Dry fw → Pod → Bool
  is_potential_victim more_than_min_with_preemptor preemptor dry p =
      elim more_than_min_with_preemptor [
        | some more ↦ elim (lookup p.namespace (quotas_of dry)) [
          | none ↦ false
          | some eq_info ↦
              if more
              then str_eq p.namespace preemptor.namespace && ltb_ℤ p.priority preemptor.priority
              else not (str_eq p.namespace preemptor.namespace) && used_over_min eq_info
        ]
        | none ↦ elim (lookup p.namespace (quotas_of dry)) [
          | some _ ↦ false
          | none ↦ ltb_ℤ p.priority preemptor.priority
        ]
      ]

  -- Whether the preemptor's quota, if it has one, is over its maximum with a request, or all quotas
  -- together are over their minima with another.
  unfoldable pub is_over_quota : Pod → Resource → Resource → Dry fw → Bool
  is_over_quota preemptor in_quota in_all dry = elim (lookup preemptor.namespace (quotas_of dry)) [
    | none ↦ false
    | some info ↦
        used_over_max_with info in_quota || aggregated_used_over_min_with v r (quotas_of dry) in_all
  ]

  -- removePod and the append to the victims, in reprievePod
  unfoldable pub take_victim : Pod → Pod → Dry fw × List Pod → Option (Dry fw × List Pod)
  take_victim preemptor pi (dry, victims) = elim (remove_pod fw preemptor pi dry) [
    | none ↦ none
    | some dry' ↦ some (dry', victims ++ pi ∷ [])
  ]

  -- reprievePod: a pod that does not fit and leaves the quota exceeded is removed twice.
  unfoldable pub reprieve_pod :
      PreFilterState → Pod → Pod → Dry fw × List Pod → Option (Bool × (Dry fw × List Pod))
  reprieve_pod request preemptor pi (dry, victims) = elim (add_pod fw preemptor pi dry) [
    | none ↦ none
    | some dry1 ↦
        let fitting = fits fw preemptor dry1 in
        elim (if fitting then some (dry1, victims) else take_victim preemptor pi (dry1, victims)) [
          | none ↦ none
          | some trial ↦
              let over =
                is_over_quota preemptor request.nominated_pods_req_in_eq_with_pod_req
                  request.nominated_pods_req_with_pod_req trial.0 in
              elim (if over then take_victim preemptor pi trial else some trial) [
                | none ↦ none
                | some end ↦ some (fitting, end)
              ]
        ]
  ]

  -- What SelectVictimsOnNode does with the potential victims.
  unfoldable pub reprieve_victims :
      (s : Selectors)
      → List (Pdb s.LabelSelector)
      → PreFilterState
      → Pod
      → List Pod
      → Dry fw
      → Selection (Dry fw)
  reprieve_victims s pdbs request preemptor potential_victims dry =
      let (violating, others) =
        filter_pods_with_pdb_violation s (more_important_first potential_victims) pdbs in
      elim (reprieve_all fw (reprieve_pod request preemptor) violating (dry, [])) [
        | none ↦ errors
        | some (num_violating_victim, trial) ↦
            elim (reprieve_all fw (reprieve_pod request preemptor) others trial) [
              | none ↦ errors
              | some (_, (end, victims)) ↦ selected victims num_violating_victim end
            ]
      ]

  -- moreThanMinWithPreemptor, for a preemptor with a quota
  unfoldable pub more_than_min : PreFilterState → Pod → Dry fw → Option Bool
  more_than_min request preemptor dry = elim (lookup preemptor.namespace (quotas_of dry)) [
    | none ↦ none
    | some info ↦ some (used_over_min_with info request.nominated_pods_req_in_eq_with_pod_req)
  ]

  -- SelectVictimsOnNode; `errors` stands also for a cycle state without the plugin's entries.
  unfoldable pub select_victims_on_node :
      (s : Selectors) → List (Pdb s.LabelSelector) → Pod → Dry fw → Selection (Dry fw)
  select_victims_on_node s pdbs preemptor (state, node) =
      elim (get_elastic_quota_snapshot_state state) [
        | none ↦ errors
        | some _ ↦ elim (get_pre_filter_state state) [
          | none ↦ errors
          | some request ↦
              let dry : Dry fw = (state, sort_pods node) in
              let more = more_than_min request preemptor dry in
              elim (collect fw (λ d p. some (is_potential_victim more preemptor d p)) preemptor
                (pods (sort_pods node)) dry) [
                  | none ↦ errors
                  | some (potential_victims, dry') ↦ elim potential_victims [
                    | [] ↦ no_victims
                    | first ∷ rest ↦
                        if not (fits fw preemptor dry')
                        then does_not_fit
                        else if is_over_quota preemptor request.pod_req request.pod_req dry'
                        then quota_exceeded
                        else reprieve_victims s pdbs request preemptor (first ∷ rest) dry'
                  ]
                ]
        ]
      ]
