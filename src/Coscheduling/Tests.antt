-- ===== src/Coscheduling/Tests.antt =====
-- Gang scheduling at a concrete group of pods.

use mathlib.Core.List.{Mem}
use flex_gpu_scheduler.Prelude.{
  ℕ, Bool, leb, negsuc, ◌*◌, ◌≤◌, ◌<◌, ◌≡◌, refl, ℤ, pos, ◌≤ℤ◌, true, false, String, none, some,
  List, [], ◌∷◌, length, arith, ◌↔◌, ◌⊎◌, value_or, lookup,
}
use flex_gpu_scheduler.Prelude.Maps
use flex_gpu_scheduler.Samples.{sample_vendor, sample_cache, SampleCache}
use flex_gpu_scheduler.Resources.{Resource, resource_list}
use flex_gpu_scheduler.Resources
use flex_gpu_scheduler.PodGroups
use flex_gpu_scheduler.PodGroups.{
  Pod, pod_running, PodGroup, PodGroupStatus, PodGroupPhase, pre_scheduling, scheduling,
  is_zero_duration, pod_group_label, get_pod_group_label, get_pod_group_full_name,
}
use flex_gpu_scheduler.Coscheduling.Cluster.{NodeInfo, check_cluster_resource}
use flex_gpu_scheduler.Preemption.Within.{both_empty, from_left, from_right}
use flex_gpu_scheduler.Coscheduling.Assigned.{IsSplit}
use flex_gpu_scheduler.Coscheduling.Manager
use flex_gpu_scheduler.Coscheduling.Manager.{
  World, PodGroupManager, permitted, recently_denied, get_pod_group, calculate_assigned_pods,
  permit, pre_filter,
}
use flex_gpu_scheduler.Coscheduling.Plugin.{post_filter, unreserve_pod}
use flex_gpu_scheduler.Coscheduling.Gang.{
  IsTenth, permit-min_member, pre_filter-min_member, pre_filter-unreserve, post_filter-rejected,
}
use flex_gpu_scheduler.Coscheduling.Binding.{IsMember, bind_all, bind_all-stuck}
use flex_gpu_scheduler.Coscheduling.Cover.{Covered, check_cluster_resource-Covered}

abbrev member : String → String → Pod
member name node = record {
  namespace = "ns";
  name = name;
  uid = name;
  labels = (pod_group_label, "gang") ∷ [];
  priority = pos 0;
  node_name = node;
  phase = pod_running;
  owners = [];
}

abbrev gang : ℕ → PodGroup ℤ
gang minimum = record {
  namespace = "ns";
  name = "gang";
  creation_timestamp = 7;
  min_member = pos minimum;
  min_resources = none;
  schedule_timeout_seconds = none;
  status = record {
    phase = pre_scheduling;
    occupied_by = "";
    scheduled = pos 0;
    running = pos 0;
    succeeded = pos 0;
    failed = pos 0;
    schedule_start_time = none;
  };
}

abbrev room : ℕ → Resource
room n = record {
  milli_cpu = pos n;
  memory = pos n;
  ephemeral_storage = pos n;
  allowed_pod_number = pos n;
  scalar_resources = [];
}

abbrev node_of : List Pod → NodeInfo
node_of pods = record { known = true; allocatable = room 9; requested = room 4; pods = pods }

-- One of the group's two pods has a node.
abbrev world : ℕ → World ℤ
world minimum = record {
  get_group = λ namespace name. some (gang minimum);
  list_pods = λ namespace group. some (member "a" "n1" ∷ member "b" "" ∷ []);
  list_nodes = some (node_of (member "a" "n1" ∷ member "b" "" ∷ []) ∷ []);
  remove_pod = λ info pod. info;
}

abbrev manager : PodGroupManager SampleCache
manager = record {
  schedule_timeout = pos 60;
  last_denied_expiration = pos 3;
  last_denied = λ k. none;
  permitted_groups = λ k. none;
}

member-get_pod_group :
    (minimum : ℕ) (name node : String)
    → get_pod_group (world minimum) (member name node) ≡ ("ns/gang", some (gang minimum))
unfolding get_pod_group PodGroups.get_pod_group_label Maps.lookup
member-get_pod_group minimum name node = refl

labelled : get_pod_group_label (member "a" "n1") ≡ "gang"
unfolding PodGroups.get_pod_group_label Maps.lookup
labelled = refl

abbrev one_node : List NodeInfo
one_node = node_of (member "a" "n1" ∷ member "b" "" ∷ []) ∷ []

sample-IsSplit : IsSplit "gang" "ns" one_node (member "a" "n1" ∷ []) (member "b" "" ∷ [])
sample-IsSplit = record {
  split = from_left (from_right both_empty);
  assigned = ((labelled, refl, λ e. cc e), tt);
  unassigned = ((λ h. h.2 refl), tt);
}

permit-min_member_example : (permit (world 2) (member "b" "") ≡ permitted) ↔ (pos 2 ≤ℤ pos 2)
permit-min_member_example =
    permit-min_member (world 2) (member "b" "") "ns/gang" (gang 2) (member-get_pod_group 2 "b" "")
      one_node (member "a" "n1" ∷ []) (member "b" "" ∷ []) refl sample-IsSplit (omega arith)

pre_filter-min_member_example :
    (sample_cache.has manager.last_denied 5 "ns/gang" ≡ false)
    × ((siblings : List Pod) × ((world 2).list_pods "ns" (get_pod_group_label (member "b" ""))
          ≡ some siblings)
        × (pos 2 ≤ℤ pos (length siblings)))
unfolding Manager.pre_filter Manager.check_siblings Manager.get_pod_group
    PodGroups.get_pod_group_label Maps.lookup
pre_filter-min_member_example =
    pre_filter-min_member sample_vendor sample_cache (world 2) (member "b" "") "ns/gang" (gang 2)
      (member-get_pod_group 2 "b" "") manager 5 refl

pre_filter-unreserve_example :
    (pre_filter sample_vendor sample_cache
      (world 3)
      (unreserve_pod sample_vendor sample_cache (world 2) manager 5 (member "b" "") []).1
      7
      (member "c" "")).0
    ≡ some recently_denied
pre_filter-unreserve_example =
    pre_filter-unreserve sample_vendor sample_cache (world 2) (member "b" "") "ns/gang" (gang 2)
      (member-get_pod_group 2 "b" "") manager 5 (member "c" "") (world 3) (gang 3) [] 7 2 refl refl
      (member-get_pod_group 3 "c" "") (omega arith) (omega arith)

abbrev tenth : ℤ → ℤ → Bool
tenth (pos gap) (pos minimum) = leb (10 * gap) minimum
tenth (pos gap) (negsuc n) = false
tenth (negsuc n) minimum = true

tenth-IsTenth : IsTenth tenth
tenth-IsTenth gap minimum below some_member few = ground arith

post_filter-rejected_example :
    let (status, rejected, m') =
      post_filter sample_vendor sample_cache tenth
        (world 9)
        manager
        5
        (member "b" "")
        (member "c" "" ∷ []) in
    ((9 * 9 ≤ 10 * 1) × (rejected ≡ []) × (m' ≡ manager))
    ⊎ ((10 * 1 < 9 * 9)
        × (Mem (member "c" "") rejected ↔ (
            Mem (member "c" "") (member "c" "" ∷ [])
            × ((member "c" "").namespace ≡ "ns")
            × (get_pod_group_label (member "c" "") ≡ "gang")))
        × (sample_cache.has m'.last_denied 7 "ns/gang" ≡ true)
        × (sample_cache.has m'.permitted_groups 7 "ns/gang" ≡ false))
post_filter-rejected_example =
    post_filter-rejected sample_vendor sample_cache (world 9) (member "b" "") "ns/gang" (gang 9)
      (member-get_pod_group 9 "b" "") manager 5 tenth one_node (member "a" "n1" ∷ [])
      (member "b" "" ∷ []) (member "c" "" ∷ []) 9 7 2 (member "c" "") tenth-IsTenth refl
      (omega arith) (omega arith) refl sample-IsSplit refl refl (omega arith) (omega arith)

member-IsMember : (name : String) → IsMember (gang 3) (member name "")
unfolding PodGroups.get_pod_group_label Maps.lookup
member-IsMember name = (refl, refl, refl)

bind_all-stuck_example :
    let bound : List (ℕ × Pod) =
      (5, member "a" "") ∷ (6, member "b" "") ∷ (7, member "c" "") ∷ [] in
    ((bind_all (world 3) bound (gang 3)).status.scheduled ≡ pos 1)
    × ((bind_all (world 3) bound (gang 3)).status.phase ≡ scheduling)
bind_all-stuck_example =
    bind_all-stuck (world 3) 5 (member "a" "") ((6, member "b" "") ∷ (7, member "c" "") ∷ [])
      (gang 3) (member-IsMember "a") (member-IsMember "b", (member-IsMember "c", tt)) (omega arith)
      refl refl

abbrev five_left : NodeInfo → Resource
five_left info = room 5

five_left-nonneg :
    (name : String) → pos 0 ≤ℤ value_or (pos 0) (lookup name (resource_list sample_vendor (room 5)))
unfolding Resources.resource_list Resources.scalar_list Maps.lookup
five_left-nonneg name = ground arith

check_cluster_resource-Covered_example :
    (check_cluster_resource sample_vendor five_left
        (node_of [] ∷ node_of [] ∷ [])
        (("cpu", pos 8) ∷ [])
      ≡ none)
    ↔ Covered sample_vendor five_left (node_of [] ∷ node_of [] ∷ []) (("cpu", pos 8) ∷ [])
check_cluster_resource-Covered_example =
    check_cluster_resource-Covered sample_vendor five_left (node_of [] ∷ node_of [] ∷ [])
      (("cpu", pos 8) ∷ []) (five_left-nonneg, (five_left-nonneg, tt)) (omega arith, tt) (λ e. cc)
