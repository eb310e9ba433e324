-- ===== src/Coscheduling/Manager.antt =====
-- PodGroupManager (pkg/coscheduling/core/core.go). What the listers and the scheduler's snapshot
-- answer is a `World`; `none` is an error. The two caches are the manager's state.
use flex_gpu_scheduler.Prelude.{
  ℕ, ◌+◌, ℤ, pos, ◌+ℤ◌, ltb_ℤ, leb_ℤ, Bool, ◌&&◌, not, if◌then◌else◌, str_eq, String, Map, insert,
  Option, none, some, List, [], ◌∷◌, length,
}
use flex_gpu_scheduler.Api.{Vendor, CacheOps}
use flex_gpu_scheduler.PodGroups.{
  Pod, PodGroup, PodGroupStatus, scheduling, scheduled, same_phase, to_int32, get_pod_group_label,
  slashed,
}
use flex_gpu_scheduler.Coscheduling.Cluster.{NodeInfo, get_node_resource, check_cluster_resource}

-- The Status of Permit.
pub data PermitStatus : Type 0 where
  pod_group_not_specified pod_group_not_found permitted waiting : PermitStatus

-- The errors of PreFilter.
pub data PreFilterError : Type 0 where
  recently_denied list_pods_failed too_few_siblings list_nodes_failed resource_gap : PreFilterError

pub record World (Quantity : Type 0) : Type 0 where
  -- pgLister.PodGroups(namespace).Get(name)
  pub get_group : String → String → Option (PodGroup Quantity)
  -- podLister.Pods(namespace).List, of the pods with a pod group label
  pub list_pods : String → String → Option (List Pod)
  -- snapshotSharedLister.NodeInfos().List()
  pub list_nodes : Option (List NodeInfo)
  -- framework.NodeInfo.RemovePod
  pub remove_pod : NodeInfo → Pod → NodeInfo

pub record PodGroupManager (Cache : Type 0) : Type 0 where
  pub schedule_timeout : ℤ
  pub last_denied_expiration : ℤ
  pub last_denied : Cache
  pub permitted_groups : Cache

-- GetNamespacedName
unfoldable pub get_namespaced_name : Pod → String
get_namespaced_name pod = slashed pod.namespace pod.name

-- The search loop of ActivateSiblings: the first pod with the UID goes.
unfoldable pub without_uid : String → List Pod → List Pod
without_uid uid [] = []
without_uid uid (pod ∷ pods) = if str_eq pod.uid uid then pods else pod ∷ without_uid uid pods

unfoldable pub stash : List Pod → Map Pod → Map Pod
stash [] m = m
stash (pod ∷ pods) m = stash pods (insert (get_namespaced_name pod) pod m)

-- The pods of one node that CalculateAssignedPods counts.
unfoldable pub is_assigned : String → String → Pod → Bool
is_assigned group namespace pod =
    str_eq (get_pod_group_label pod) group
    && str_eq pod.namespace namespace
    && not (str_eq pod.node_name "")

unfoldable pub count_assigned : String → String → List Pod → ℕ
count_assigned group namespace [] = 0
count_assigned group namespace (pod ∷ pods) =
    (if is_assigned group namespace pod then 1 else 0) + count_assigned group namespace pods

unfoldable pub count_nodes : String → String → List NodeInfo → ℕ
count_nodes group namespace [] = 0
count_nodes group namespace (info ∷ infos) =
    count_assigned group namespace info.pods + count_nodes group namespace infos

module _ {Quantity : Type 0} where
  -- GetPodGroup
  unfoldable pub get_pod_group : World Quantity → Pod → String × Option (PodGroup Quantity)
  get_pod_group w pod =
      let pg_name = get_pod_group_label pod in
      if str_eq pg_name ""
      then ("", none)
      else (slashed pod.namespace pg_name, w.get_group pod.namespace pg_name)

  -- CalculateAssignedPods
  unfoldable pub calculate_assigned_pods : World Quantity → String → String → ℕ
  calculate_assigned_pods w group namespace = elim w.list_nodes [
    | none ↦ 0
    | some infos ↦ count_nodes group namespace infos
  ]

  -- GetCreationTimestamp
  unfoldable pub get_creation_timestamp : World Quantity → Pod → ℕ → ℕ
  get_creation_timestamp w pod ts =
      let pg_name = get_pod_group_label pod in
      if str_eq pg_name ""
      then ts
      else elim (w.get_group pod.namespace pg_name) [ none ↦ ts | some pg ↦ pg.creation_timestamp ]

  -- ActivateSiblings, on the pods to activate in the cycle state, if it has them.
  unfoldable pub activate_siblings : World Quantity → Pod → Option (Map Pod) → Option (Map Pod)
  activate_siblings w pod state =
      let pg_name = get_pod_group_label pod in
      if str_eq pg_name "" then state else elim (w.list_pods pod.namespace pg_name) [
        | none ↦ state
        | some pods ↦ elim state [
          | none ↦ none
          | some m ↦ some (stash (without_uid pod.uid pods) m)
        ]
      ]

  -- (*PodGroupManager).Permit
  unfoldable pub permit : World Quantity → Pod → PermitStatus
  permit w pod =
      let (pg_full_name, group) = get_pod_group w pod in
      if str_eq pg_full_name "" then pod_group_not_specified else elim group [
        | none ↦ pod_group_not_found
        | some pg ↦
            let assigned = calculate_assigned_pods w pg.name pg.namespace in
            if leb_ℤ pg.min_member (to_int32 (to_int32 (pos assigned) +ℤ pos 1))
            then permitted
            else waiting
      ]

  -- The status that PostBind gives its copy of the group.
  unfoldable pub bound_status : ℕ → PodGroup Quantity → PodGroupStatus
  bound_status now pg =
      let count = to_int32 (pg.status.scheduled +ℤ pos 1) in
      if leb_ℤ pg.min_member count
      then record pg.status { phase = scheduled; scheduled = count }
      else record pg.status {
        phase = scheduling;
        scheduled = count;
        schedule_start_time = elim pg.status.schedule_start_time [
          | none ↦ some now
          | some t ↦ some t
        ];
      }

  -- (*PodGroupManager).PostBind: the group read again and the copy, from which the patch is made;
  -- `none` where nothing is patched. `same_phase` compares phases.
  unfoldable pub post_bind :
      World Quantity → ℕ → Pod → Option (PodGroup Quantity × PodGroup Quantity)
  post_bind w now pod =
      let (pg_full_name, group) = get_pod_group w pod in
      elim group [
        | none ↦ none
        | some pg ↦
            let copy : PodGroup Quantity = record pg { status = bound_status now pg } in
            if str_eq pg_full_name ""
            then none
            else if same_phase copy.status.phase pg.status.phase
            then none
            else elim (w.get_group copy.namespace copy.name) [
              | none ↦ none
              | some again ↦ some (again, copy)
            ]
      ]

module _ (v : Vendor) (ops : CacheOps) where
  open v use {Quantity, new_quantity}
  open ops use {Cache, has, add, delete}

  -- AddDeniedPodGroup
  unfoldable pub add_denied_pod_group : PodGroupManager Cache → ℕ → String → PodGroupManager Cache
  add_denied_pod_group m now pg_full_name = record m {
    last_denied = add m.last_denied now pg_full_name m.last_denied_expiration;
  }

  -- DeletePermittedPodGroup
  unfoldable pub delete_permitted_pod_group : PodGroupManager Cache → String → PodGroupManager Cache
  delete_permitted_pod_group m pg_full_name = record m {
    permitted_groups = delete m.permitted_groups pg_full_name;
  }

  -- The end of PreFilter: the cluster's resources against the group's minimum, with its pods.
  unfoldable pub check_resources :
      World Quantity
      → PodGroupManager Cache
      → ℕ
      → String
      → ℤ
      → Map Quantity
      → List NodeInfo
      → Option PreFilterError × PodGroupManager Cache
  check_resources w m now pg_full_name min_member min_resources infos =
      let request = insert "pods" (new_quantity min_member) min_resources in
      let remaining = λ (info : NodeInfo). get_node_resource w.remove_pod info pg_full_name in
      elim (check_cluster_resource v remaining infos request) [
        | some gap ↦ (some resource_gap, add_denied_pod_group m now pg_full_name)
        | none ↦ (
          none,
          record m {
            permitted_groups = add m.permitted_groups now pg_full_name m.schedule_timeout;
          },
        )
      ]

  -- The middle of PreFilter, for a group that was not denied: its siblings are counted.
  unfoldable pub check_siblings :
      World Quantity
      → PodGroupManager Cache
      → ℕ
      → Pod
      → String
      → PodGroup Quantity
      → Option PreFilterError × PodGroupManager Cache
  check_siblings w m now pod pg_full_name pg =
      elim (w.list_pods pod.namespace (get_pod_group_label pod)) [
        | none ↦ (some list_pods_failed, m)
        | some pods ↦
            if ltb_ℤ (pos (length pods)) pg.min_member
            then (some too_few_siblings, m)
            else elim pg.min_resources [
              | none ↦ (none, m)
              | some min_resources ↦
                  if has m.permitted_groups now pg_full_name then (none, m) else elim w.list_nodes [
                    | none ↦ (some list_nodes_failed, m)
                    | some infos ↦
                        check_resources w m now pg_full_name pg.min_member min_resources infos
                  ]
            ]
      ]

  -- (*PodGroupManager).PreFilter: its error, and the manager that it leaves.
  unfoldable pub pre_filter :
      World Quantity
      → PodGroupManager Cache
      → ℕ
      → Pod
      → Option PreFilterError × PodGroupManager Cache
  pre_filter w m now pod =
      let (pg_full_name, group) = get_pod_group w pod in
      elim group [
        | none ↦ (none, m)
        | some pg ↦
            if has m.last_denied now pg_full_name
            then (some recently_denied, m)
            else check_siblings w m now pod pg_full_name pg
      ]
