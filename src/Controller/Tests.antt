-- ===== src/Controller/Tests.antt =====
-- The pod group controller at a concrete group.
use mathlib.Core.List.{Mem, mem-cons_self}
use flex_gpu_scheduler.Prelude.{
  ℕ, ◌≤◌, ◌≡◌, refl, ℤ, pos, ◌≤ℤ◌, ◌⊎◌, ◌↔◌, true, false, String, none, some, List, [], ◌∷◌,
  returns, arith,
}
use flex_gpu_scheduler.Prelude.Int
use flex_gpu_scheduler.PodGroups
use flex_gpu_scheduler.PodGroups.{
  PodPhase, pod_running, pod_succeeded, Pod, PodGroup, PodGroupStatus, PodGroupPhase, pending,
  scheduled, running, finished,
}
use flex_gpu_scheduler.Controller.PodGroupSync
use flex_gpu_scheduler.Controller.PodGroupSync.{
  Found, found, not_found, count_phase, is_succeeded, sync_status, Cluster, Outcome, sync_handler,
}
use flex_gpu_scheduler.Controller.Progress.{
  rank, sync_status-rank, sync_status-min_member, sync_status-finished,
}
use flex_gpu_scheduler.Controller.Requeue.{work, work-deleted, sync_handler-settled}

abbrev pod_in : PodPhase → Pod
pod_in p = record {
  namespace = "ns";
  name = "a";
  uid = "a";
  labels = [];
  priority = pos 0;
  node_name = "n1";
  phase = p;
  owners = "job" ∷ [];
}

abbrev status_in : PodGroupPhase → PodGroupStatus
status_in p = record {
  phase = p;
  occupied_by = "";
  scheduled = pos 2;
  running = pos 0;
  succeeded = pos 0;
  failed = pos 0;
  schedule_start_time = none;
}

abbrev counted : PodGroupPhase → ℕ → ℕ → PodGroupStatus
counted p r s = record (status_in p) { running = pos r; succeeded = pos s }

abbrev join : List String → String
join names = ""

abbrev group_in : PodGroupPhase → PodGroup ℤ
group_in p = record {
  namespace = "ns";
  name = "gang";
  creation_timestamp = 7;
  min_member = pos 2;
  min_resources = none;
  schedule_timeout_seconds = none;
  status = status_in p;
}

-- A cluster with one running pod of every group, which takes every patch.
abbrev cluster_with : Found (PodGroup ℤ) → Cluster ℤ
cluster_with answer = record {
  get_group = λ namespace name. answer;
  list_pods = λ name. some (pod_in pod_running ∷ []);
  deep_equal = λ a b. false;
  accepts = λ pg status. true;
  join_sorted = join;
}

run_scheduled :
    sync_status join (pos 1) (status_in scheduled) (pod_in pod_running ∷ [])
    ≡ returns (counted running 1 0)
unfolding PodGroupSync.sync_status PodGroupSync.progress PodGroupSync.next_phase
    PodGroupSync.counted_status PodGroupSync.count_phase PodGroups.to_int32 Int.◌+ℤ◌
run_scheduled = refl

run_few :
    sync_status join (pos 2) (status_in running) (pod_in pod_running ∷ [])
    ≡ returns (counted running 1 0)
unfolding PodGroupSync.sync_status PodGroupSync.progress PodGroupSync.next_phase
    PodGroupSync.counted_status PodGroupSync.count_phase PodGroups.to_int32 Int.◌+ℤ◌
run_few = refl

run_succeeded :
    sync_status join (pos 1) (status_in running) (pod_in pod_succeeded ∷ [])
    ≡ returns (counted finished 0 1)
unfolding PodGroupSync.sync_status PodGroupSync.progress PodGroupSync.next_phase
    PodGroupSync.counted_status PodGroupSync.count_phase PodGroups.to_int32 Int.◌+ℤ◌
run_succeeded = refl

sync_status-rank_example : rank scheduled ≤ rank running
sync_status-rank_example =
    sync_status-rank join (pos 1) (status_in scheduled) (pod_in pod_running) []
      (counted running 1 0) run_scheduled

sync_status-min_member_example : ◌≡◌ {A = PodGroupPhase} running running
sync_status-min_member_example =
    sync_status-min_member join (pos 2) (status_in running) (pod_in pod_running ∷ [])
      (counted running 1 0) run_few (omega arith) (omega arith) (omega arith)

sync_status-finished_example :
    ◌≡◌ {A = PodGroupPhase} finished finished
    ↔ (pos 1 ≤ℤ pos (count_phase is_succeeded (pod_in pod_succeeded ∷ [])))
sync_status-finished_example =
    sync_status-finished join (pos 1) (status_in running) (pod_in pod_succeeded) []
      (counted finished 0 1) run_succeeded (omega arith) (omega arith) (λ e. cc)

run_pending :
    sync_status join (pos 1) (status_in pending) (pod_in pod_running ∷ [])
    ≡ returns (status_in PodGroupPhase.pre_scheduling)
unfolding PodGroupSync.sync_status PodGroupSync.start PodGroupSync.fill_occupied
run_pending = refl

work-deleted_example :
    (after : List (String × String)) × (work (cluster_with not_found) 5 (("ns", "gang") ∷ [])
      ≡ returns after)
    × Mem ("ns", "gang") after
work-deleted_example =
    work-deleted (cluster_with not_found) "ns" "gang" 5 (("ns", "gang") ∷ [])
      (λ namespace name pg e. cc) refl mem-cons_self

run_handler :
    sync_handler (cluster_with (found (group_in running))) "ns" "gang"
    ≡ returns
        (record { returns_error = false; requeued = false; stored = some (counted running 1 0) })
unfolding PodGroupSync.sync_handler PodGroupSync.patch_pod_group PodGroupSync.sync_status
    PodGroupSync.progress PodGroupSync.next_phase PodGroupSync.counted_status
    PodGroupSync.count_phase PodGroups.to_int32 Int.◌+ℤ◌
run_handler = refl

sync_handler-settled_example :
    (pg : PodGroup ℤ) × (pods : List Pod) × (after : PodGroupStatus) × (found (group_in running)
      ≡ found pg)
    × (some (pod_in pod_running ∷ []) ≡ some pods)
    × (sync_status join pg.min_member pg.status pods ≡ returns after)
    × ((some (counted running 1 0) ≡ some after)
        ⊎ ((some (counted running 1 0) ≡ none) × (false ≡ true)))
sync_handler-settled_example =
    sync_handler-settled (cluster_with (found (group_in running))) "ns" "gang"
      (record { returns_error = false; requeued = false; stored = some (counted running 1 0) })
      run_handler refl
