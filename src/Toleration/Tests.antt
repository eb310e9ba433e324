-- ===== src/Toleration/Tests.antt =====
-- Preemption toleration at concrete pods and classes.
use mathlib.Core.List.{Mem}
use mathlib.Core.List.Perm
use flex_gpu_scheduler.Prelude.{
  ℕ, ◌+◌, ◌*◌, ◌<◌, ◌≤◌, ◌≡◌, ◌↔◌, ◌⊎◌, refl, ℤ, pos, ◌+ℤ◌, ◌<ℤ◌, true, false, str_eq, String,
  Option, none, some, [], ◌∷◌, All, length, arith, if◌then◌else◌,
}
use flex_gpu_scheduler.Prelude.Int
use flex_gpu_scheduler.Prelude.Maps
use flex_gpu_scheduler.Prelude.Maps.{lookup}
use flex_gpu_scheduler.PodGroups
use flex_gpu_scheduler.Preemption.Budgets
use flex_gpu_scheduler.Preemption.Budgets.{Pod}
use flex_gpu_scheduler.Preemption.DryRun
use flex_gpu_scheduler.Preemption.DryRun.{Dry, fits, add_pod, selected}
use flex_gpu_scheduler.Preemption.Samples.{
  sample_pod, sample_selectors, sample_pdb, sample_framework, sample-Monotone,
}
use flex_gpu_scheduler.Toleration.Policy
use flex_gpu_scheduler.Toleration.Policy.{
  PriorityClass, annotation_key_toleration_seconds, annotation_key_minimum_preemptable_priority,
  exempted_from_preemption,
}
use flex_gpu_scheduler.Toleration.Node
use flex_gpu_scheduler.Toleration.Node.{
  select_victims_on_node, calculate_num_candidates, pod_eligible_to_preempt_others,
  PreemptionTolerationArgs,
}
use flex_gpu_scheduler.Toleration.Exemption.{exempted_from_preemption-wrapped}
use flex_gpu_scheduler.Toleration.Selected.{
  select_victims_on_node-lower, select_victims_on_node-needed,
}
use flex_gpu_scheduler.Toleration.Candidates.{
  AllStay, calculate_num_candidates-bounds, pod_eligible_to_preempt_others-AllStay,
}

-- Two numbers that it reads.
abbrev sample_parse_int : ℕ → String → Option ℤ
sample_parse_int bits text =
    if str_eq text "3600" then some (pos 3600) else if str_eq text "10" then some (pos 10) else none

abbrev patient_class : PriorityClass
patient_class = record {
  value = pos 5;
  annotations =
      (annotation_key_toleration_seconds, "3600")
      ∷ (annotation_key_minimum_preemptable_priority, "10")
      ∷ [];
}

abbrev plain_class : PriorityClass
plain_class = record { value = pos 5; annotations = [] }

abbrev get_class : String → Option PriorityClass
get_class name =
    if str_eq name "patient"
    then some patient_class
    else if str_eq name "plain"
    then some plain_class
    else none

abbrev patient_pod : Pod
patient_pod = record (sample_pod "p" (pos 5)) { priority_class_name = "patient" }

abbrev plain_pod : Pod
plain_pod = record (sample_pod "q" (pos 5)) { priority_class_name = "plain" }

abbrev nine : Pod
nine = sample_pod "nine" (pos 9)

is_exempted :
    exempted_from_preemption sample_parse_int get_class patient_pod nine (pos 10) ≡ some true
unfolding exempted_from_preemption Policy.tolerates Policy.tolerates_for
    Policy.parse_preemption_toleration_policy Policy.parse_minimum Policy.parse_seconds
    PodGroups.to_int32 PodGroups.to_int64 Int.◌+ℤ◌ Maps.lookup
is_exempted = refl

abbrev centuries_class : PriorityClass
centuries_class = record {
  value = pos 15;
  annotations = (annotation_key_toleration_seconds, "9999999999") ∷ [];
}

abbrev centuries_pod : Pod
centuries_pod = record (sample_pod "c" (pos 5)) { priority_class_name = "centuries" }

exempted_from_preemption-wrapped_example :
    exempted_from_preemption
      (λ bits text. some (pos 9999999999))
      (λ name. some centuries_class)
      centuries_pod
      nine
      (pos 8)
    ≡ some false
unfolding Policy.parse_preemption_toleration_policy Policy.parse_minimum Policy.parse_seconds
    PodGroups.to_int32 Maps.lookup Int.◌+ℤ◌
exempted_from_preemption-wrapped_example =
    exempted_from_preemption-wrapped (λ bits text. some (pos 9999999999))
      (λ name. some centuries_class) centuries_pod nine centuries_class (pos 16) (pos 0) (pos 8)
      9999999999 refl refl refl refl (omega arith) refl (omega arith) (omega arith) (omega arith)

-- The violating pod is put back first, and the patient one is never taken off.
abbrev before : Dry sample_framework
before = (tt, sample_pod "x" (pos 2) ∷ patient_pod ∷ sample_pod "y" (pos 1) ∷ [])

abbrev after : Dry sample_framework
after = (tt, patient_pod ∷ sample_pod "y" (pos 1) ∷ [])

selects :
    select_victims_on_node sample_framework sample_parse_int get_class sample_selectors
      (sample_pdb (pos 1) ∷ [])
      (pos 8)
      nine
      before
    ≡ selected (sample_pod "x" (pos 2) ∷ []) 0 after
unfolding select_victims_on_node Node.is_potential_victim Node.reprieve_victims Node.reprieve_pod
    DryRun.collect DryRun.remove_pod DryRun.add_pod DryRun.reprieve_all exempted_from_preemption
    Policy.tolerates Policy.tolerates_for Policy.parse_preemption_toleration_policy
    Policy.parse_minimum Policy.parse_seconds PodGroups.to_int32 PodGroups.to_int64 Int.◌+ℤ◌
    Int.◌-ℤ◌ Budgets.filter_pods_with_pdb_violation Budgets.split_pods Budgets.charge_pod
    Budgets.charge Budgets.is_counted Maps.lookup
selects = refl

select_victims_on_node-lower_example :
    (fits sample_framework nine after ≡ true)
    × (0 ≤ length (sample_pod "x" (pos 2) ∷ []))
    × ((pod : Pod)
        → Mem pod (sample_pod "x" (pos 2) ∷ [])
        → Mem pod before.1
          × (pod.priority <ℤ pos 9)
          × (exempted_from_preemption sample_parse_int get_class pod nine (pos 8) ≡ some false))
select_victims_on_node-lower_example =
    select_victims_on_node-lower sample_framework nine (sample-Monotone nine) sample_parse_int
      get_class sample_selectors (sample_pdb (pos 1) ∷ []) (pos 8) (sample_pod "x" (pos 2) ∷ []) 0
      before after Perm.refl selects

select_victims_on_node-needed_example :
    All
      (λ pod.
        (with_pod : Dry sample_framework)
        → add_pod sample_framework nine pod after ≡ some with_pod
        → fits sample_framework nine with_pod ≡ false)
      (sample_pod "x" (pos 2) ∷ [])
select_victims_on_node-needed_example =
    select_victims_on_node-needed sample_framework nine (sample-Monotone nine) sample_parse_int
      get_class sample_selectors (sample_pdb (pos 1) ∷ []) (pos 8) (sample_pod "x" (pos 2) ∷ []) 0
      before after selects

abbrev sample_args : PreemptionTolerationArgs
sample_args = record {
  min_candidate_nodes_percentage = pos 10;
  min_candidate_nodes_absolute = pos 100;
}

calculate_num_candidates-bounds_example :
    (k : ℕ) × (calculate_num_candidates sample_args (pos 5000) ≡ pos k)
    × (k ≤ 5000)
    × ((100 ≤ k) ⊎ (k ≡ 5000))
    × ((5000 * 10 < 100 * k + 100) ⊎ (k ≡ 5000))
calculate_num_candidates-bounds_example =
    calculate_num_candidates-bounds sample_args (pos 5000) 5000 10 100 refl refl refl (omega arith)

abbrev nominated : Pod
nominated = record nine { nominated_node_name = "node" }

waits_for_terminating :
    (pod_eligible_to_preempt_others (λ name. some before.1) nominated true ≡ true)
    × ((pod_eligible_to_preempt_others (λ name. some before.1) nominated false ≡ true)
        ↔ AllStay (pos 9) before.1)
waits_for_terminating =
    pod_eligible_to_preempt_others-AllStay (λ name. some before.1) nominated before.1 refl refl refl
