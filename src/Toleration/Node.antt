-- ===== src/Toleration/Node.antt =====
-- SelectVictimsOnNode, PodEligibleToPreemptOthers and calculateNumCandidates
-- (pkg/preemptiontoleration/preemption_toleration.go).
use flex_gpu_scheduler.Prelude.{
  ℕ, ◌+◌, ◌*◌, ℤ, pos, ltb_ℤ, leb_ℤ, quot_ℤ, Bool, true, false, ◌&&◌, not, if◌then◌else◌, str_eq,
  String, Option, none, some, value_or, List, [], ◌∷◌, ◌++◌,
}
use flex_gpu_scheduler.Prelude.Int.{pos_part, neg_part, sub_ℕ}
use flex_gpu_scheduler.PodGroups.{to_int32}
use flex_gpu_scheduler.Preemption.Budgets.{Pod, Selectors, Pdb, filter_pods_with_pdb_violation}
use flex_gpu_scheduler.Preemption.DryRun.{
  Framework, Selection, errors, no_victims, does_not_fit, selected, Dry, fits, remove_pod, add_pod,
  collect, reprieve_all,
}
use flex_gpu_scheduler.Toleration.Policy.{PriorityClass, exempted_from_preemption}

module _ (fw : Framework) where
  open fw use {NodeInfo, CycleState, pods, run_filter, more_important_first}

  -- reprievePod
  unfoldable pub reprieve_pod : Pod → Pod → Dry fw × List Pod → Option (Bool × (Dry fw × List Pod))
  reprieve_pod preemptor pod (dry, victims) = elim (add_pod fw preemptor pod dry) [
    | none ↦ none
    | some dry1 ↦
        if fits fw preemptor dry1
        then some (true, (dry1, victims))
        else elim (remove_pod fw preemptor pod dry1) [
          | none ↦ none
          | some dry2 ↦ some (false, (dry2, victims ++ pod ∷ []))
        ]
  ]

  -- What SelectVictimsOnNode does with the potential victims.
  unfoldable pub reprieve_victims :
      (s : Selectors) → List (Pdb s.LabelSelector) → Pod → List Pod → Dry fw → Selection (Dry fw)
  reprieve_victims s pdbs preemptor potential_victims dry =
      let (violating, others) =
        filter_pods_with_pdb_violation s (more_important_first potential_victims) pdbs in
      elim (reprieve_all fw (reprieve_pod preemptor) violating (dry, [])) [
        | none ↦ errors
        | some (num_violating_victim, trial) ↦
            elim (reprieve_all fw (reprieve_pod preemptor) others trial) [
              | none ↦ errors
              | some (_, (end, victims)) ↦ selected victims num_violating_victim end
            ]
      ]

  module _ (parse_int : ℕ → String → Option ℤ) (get : String → Option PriorityClass) where
    -- The tests of the loop over the node's pods.
    unfoldable pub is_potential_victim : Pod → ℤ → Pod → Option Bool
    is_potential_victim preemptor cur_time pod =
        if leb_ℤ preemptor.priority pod.priority
        then some false
        else elim (exempted_from_preemption parse_int get pod preemptor cur_time) [
          | none ↦ none
          | some exempted ↦ some (not exempted)
        ]

    -- SelectVictimsOnNode
    unfoldable pub select_victims_on_node :
        (s : Selectors) → List (Pdb s.LabelSelector) → ℤ → Pod → Dry fw → Selection (Dry fw)
    select_victims_on_node s pdbs cur_time preemptor dry =
        elim (collect fw (λ dry. is_potential_victim preemptor cur_time) preemptor (pods dry.1)
          dry) [
            | none ↦ errors
            | some (potential_victims, dry') ↦ elim potential_victims [
              | [] ↦ no_victims
              | first ∷ rest ↦
                  if fits fw preemptor dry'
                  then reprieve_victims s pdbs preemptor (first ∷ rest) dry'
                  else does_not_fit
            ]
          ]

-- The loop over the pods of the nominated node: whether one terminates that has a lower priority.
unfoldable pub has_terminating : ℤ → List Pod → Bool
has_terminating pod_priority [] = false
has_terminating pod_priority (p ∷ pods) =
    let later = has_terminating pod_priority pods in
    if p.is_terminating && ltb_ℤ p.priority pod_priority then true else later

-- PodEligibleToPreemptOthers, with the pods of the node of a name in the snapshot; `unresolvable` is
-- whether the nominated node's status is UnschedulableAndUnresolvable.
unfoldable pub pod_eligible_to_preempt_others : (String → Option (List Pod)) → Pod → Bool → Bool
pod_eligible_to_preempt_others node_infos pod unresolvable =
    if value_or false pod.preempt_never
    then false
    else if str_eq pod.nominated_node_name ""
    then true
    else if unresolvable
    then true
    else elim (node_infos pod.nominated_node_name) [
      | none ↦ true
      | some pods ↦ not (has_terminating pod.priority pods)
    ]

-- The product of two int32 values, before it wraps around.
abbrev pub times : ℤ → ℤ → ℤ
times a b =
    sub_ℕ (pos_part a * pos_part b + neg_part a * neg_part b)
      (pos_part a * neg_part b + neg_part a * pos_part b)

-- PreemptionTolerationArgs
pub record PreemptionTolerationArgs : Type 0 where
  pub min_candidate_nodes_percentage : ℤ
  pub min_candidate_nodes_absolute : ℤ

-- calculateNumCandidates
unfoldable pub calculate_num_candidates : PreemptionTolerationArgs → ℤ → ℤ
calculate_num_candidates args num_nodes =
    let n = quot_ℤ (to_int32 (times num_nodes args.min_candidate_nodes_percentage)) (pos 100) in
    let n' =
      if ltb_ℤ n args.min_candidate_nodes_absolute then args.min_candidate_nodes_absolute else n in
    if ltb_ℤ num_nodes n' then num_nodes else n'
