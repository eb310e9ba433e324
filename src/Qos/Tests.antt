-- ===== src/Qos/Tests.antt =====
-- The queue sort at concrete pods.
use flex_gpu_scheduler.Prelude.{◌≡◌, ◌≤◌, ◌<ℤ◌, ◌⊎◌, ◌↔◌, true, ℤ, pos, []}
use flex_gpu_scheduler.PodGroups.{Pod, pod_pending}
use flex_gpu_scheduler.Qos.{PodQosClass, burstable, qos_rank, less_qos, less_qos-IsTotalPreorder}

abbrev pod_at : ℤ → Pod
pod_at priority = record {
  namespace = "ns";
  name = "a";
  uid = "a";
  labels = [];
  priority = priority;
  node_name = "";
  phase = pod_pending;
  owners = [];
}

abbrev all_burstable : Pod → PodQosClass
all_burstable pod = burstable

less_qos-IsTotalPreorder_example :
    (less_qos all_burstable (pod_at (pos 2)) (pod_at (pos 2)) ≡ true)
    × ((less_qos all_burstable (pod_at (pos 2)) (pod_at (pos 1)) ≡ true)
        ⊎ (less_qos all_burstable (pod_at (pos 1)) (pod_at (pos 2)) ≡ true))
    × (less_qos all_burstable (pod_at (pos 2)) (pod_at (pos 1)) ≡ true
        → less_qos all_burstable (pod_at (pos 1)) (pod_at (pos 0)) ≡ true
        → less_qos all_burstable (pod_at (pos 2)) (pod_at (pos 0)) ≡ true)
    × ((less_qos all_burstable (pod_at (pos 2)) (pod_at (pos 1)) ≡ true)
        ↔ ((pos 1 <ℤ pos 2) ⊎ ((pos 2 ≡ pos 1) × (qos_rank burstable ≤ qos_rank burstable))))
less_qos-IsTotalPreorder_example =
    less_qos-IsTotalPreorder all_burstable (pod_at (pos 2)) (pod_at (pos 1)) (pod_at (pos 0))
