-- ===== src/Coscheduling/Plugin.antt =====
-- The plugin Coscheduling (pkg/coscheduling/coscheduling.go). The waiting pods that a call allows or
-- rejects are among its results.
use Prim.Native.Char.{code}
use flex_gpu_scheduler.Prelude.{
  keep_if, ℕ, ℤ, pos, ◌-ℤ◌, leb_ℤ, ltb_ℤ, ltb, Bool, true, false, ◌&&◌, if◌then◌else◌, ◌==◌, str_eq,
  String, Map, Option, none, some, List, [],
}
use flex_gpu_scheduler.Api.{
  Vendor, CacheOps, Status, success, unschedulable, unschedulable_and_unresolvable, wait,
}
use flex_gpu_scheduler.PodGroups.{
  Pod, PodGroup, get_pod_group_label, get_pod_group_full_name, get_wait_time_duration,
  is_zero_duration,
}
use flex_gpu_scheduler.Coscheduling.Manager.{
  World, PodGroupManager, pod_group_not_specified, pod_group_not_found, permitted, waiting,
  get_namespaced_name, get_pod_group, calculate_assigned_pods, get_creation_timestamp,
  activate_siblings, permit, add_denied_pod_group, delete_permitted_pod_group, pre_filter,
}

-- `<` on strings: the order of their bytes, which in UTF-8 is that of their code points.
unfoldable pub string_lt : String → String → Bool
string_lt String.[] String.[] = false
string_lt String.[] (String.◌∷◌ d t) = true
string_lt (String.◌∷◌ c s) String.[] = false
string_lt (String.◌∷◌ c s) (String.◌∷◌ d t) =
    let rest = string_lt s t in
    if ltb (code c) (code d) then true else if code c == code d then rest else false

-- A framework.QueuedPodInfo.
pub record QueuedPodInfo : Type 0 where
  pub pod : Pod
  pub initial_attempt_timestamp : ℕ

-- The waiting pods in the pod's namespace with the group's label.
unfoldable pub in_group : String → String → List Pod → List Pod
in_group namespace group =
    keep_if (λ pod. str_eq pod.namespace namespace && str_eq (get_pod_group_label pod) group)

-- The waiting pods of the group with a full name.
unfoldable pub with_full_name : String → List Pod → List Pod
with_full_name pg_full_name = keep_if (λ pod. str_eq (get_pod_group_full_name pod) pg_full_name)

module _ {Quantity : Type 0} where
  -- Less
  unfoldable pub less : World Quantity → QueuedPodInfo → QueuedPodInfo → Bool
  less w p1 p2 =
      let t1 = get_creation_timestamp w p1.pod p1.initial_attempt_timestamp in
      let t2 = get_creation_timestamp w p2.pod p2.initial_attempt_timestamp in
      let prio1 = p1.pod.priority in
      let prio2 = p2.pod.priority in
      if ltb_ℤ prio2 prio1
      then true
      else if ltb_ℤ prio1 prio2
      then false
      else if t1 == t2
      then string_lt (get_namespaced_name p1.pod) (get_namespaced_name p2.pod)
      else ltb t1 t2

  -- Permit, on the scheduler's timeout, the waiting pods and the pods to activate: the status, the
  -- time to wait, the waiting pods that it allows, and the pods to activate.
  unfoldable pub permit_pod :
      World Quantity
      → ℤ
      → List Pod
      → Option (Map Pod)
      → Pod
      → Status × ℤ × List Pod × Option (Map Pod)
  permit_pod w schedule_timeout waiting_pods state pod = elim (permit w pod) [
    | pod_group_not_specified ↦ (success, pos 0, [], state)
    | pod_group_not_found ↦ (unschedulable, pos 0, [], state)
    | waiting ↦
        let duration = get_wait_time_duration (get_pod_group w pod).1 (some schedule_timeout) in
        (
          wait,
          (if is_zero_duration duration then schedule_timeout else duration),
          [],
          activate_siblings w pod state,
        )
    | permitted ↦ (success, pos 0, with_full_name (get_pod_group_full_name pod) waiting_pods, state)
  ]

module _ (v : Vendor) (ops : CacheOps) where
  open v use {Quantity}
  open ops use {Cache}

  -- PreFilter
  unfoldable pub pre_filter_pod :
      World Quantity → PodGroupManager Cache → ℕ → Pod → Status × PodGroupManager Cache
  pre_filter_pod w m now pod =
      let (err, m') = pre_filter v ops w m now pod in
      elim err [ none ↦ (success, m') | some e ↦ (unschedulable_and_unresolvable, m') ]

  -- What PostFilter and Unreserve do to a group: its waiting pods are rejected, and it is denied and
  -- no longer permitted.
  unfoldable pub reject_group :
      PodGroupManager Cache
      → ℕ
      → Pod
      → String
      → PodGroup Quantity
      → List Pod
      → List Pod × PodGroupManager Cache
  reject_group m now pod pg_full_name pg waiting_pods = (
    in_group pod.namespace pg.name waiting_pods,
    delete_permitted_pod_group v ops (add_denied_pod_group v ops m now pg_full_name) pg_full_name,
  )

  -- PostFilter. `small_gap` is the comparison, in float32, of the part of the group that is not
  -- assigned with a tenth, on the numbers that the code divides.
  unfoldable pub post_filter :
      (ℤ → ℤ → Bool)
      → World Quantity
      → PodGroupManager Cache
      → ℕ
      → Pod
      → List Pod
      → Status × List Pod × PodGroupManager Cache
  post_filter small_gap w m now pod waiting_pods =
      let (pg_full_name, group) = get_pod_group w pod in
      elim group [
        | none ↦ (unschedulable, [], m)
        | some pg ↦
            let assigned = pos (calculate_assigned_pods w pg.name pod.namespace) in
            let (rejected, m') = reject_group m now pod pg_full_name pg waiting_pods in
            if leb_ℤ pg.min_member assigned
            then (unschedulable, [], m)
            else if small_gap (pg.min_member -ℤ assigned) pg.min_member
            then (unschedulable, [], m)
            else (unschedulable, rejected, m')
      ]

  -- Unreserve
  unfoldable pub unreserve_pod :
      World Quantity → PodGroupManager Cache → ℕ → Pod → List Pod → List Pod × PodGroupManager Cache
  unreserve_pod w m now pod waiting_pods =
      let (pg_full_name, group) = get_pod_group w pod in
      elim group [ none ↦ ([], m) | some pg ↦ reject_group m now pod pg_full_name pg waiting_pods ]
