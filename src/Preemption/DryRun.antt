-- ===== src/Preemption/DryRun.antt =====
-- The dry run of preemption on a node, in SelectVictimsOnNode of preemption_toleration.go and of
-- capacity_scheduling.go: the closures removePod and addPod, and the loops that both have.
use flex_gpu_scheduler.Prelude.{
  ℕ, suc, Bool, true, false, if◌then◌else◌, Option, none, some, List, [], ◌∷◌,
}
use flex_gpu_scheduler.Preemption.Budgets.{Pod}

-- The vendored scheduler. NodeInfo.RemovePod fails for a pod that the node does not have; each call
-- on the plugins takes the preemptor and gives the cycle state that it leaves, with whether its
-- status is success.
pub record Framework : Type 1 where
  pub NodeInfo : Type 0
  pub CycleState : Type 0
  pub pods : NodeInfo → List Pod
  pub node_remove_pod : NodeInfo → Pod → Option NodeInfo
  pub node_add_pod : NodeInfo → Pod → NodeInfo
  pub run_remove_pod : CycleState → Pod → Pod → NodeInfo → CycleState × Bool
  pub run_add_pod : CycleState → Pod → Pod → NodeInfo → CycleState × Bool
  -- RunFilterPluginsWithNominatedPods
  pub run_filter : CycleState → Pod → NodeInfo → Bool
  -- sort.Slice with MoreImportantPod.
  pub more_important_first : List Pod → List Pod

-- What SelectVictimsOnNode returns: a status, or the victims with the number of violating ones, and
-- the cycle state and the node as it leaves them.
pub data Selection (Dry : Type 0) : Type 0 where
  errors no_victims does_not_fit quota_exceeded : Selection Dry
  selected : List Pod → ℕ → Dry → Selection Dry

module _ (fw : Framework) where
  open fw use {
    NodeInfo, CycleState, node_remove_pod, node_add_pod, run_remove_pod, run_add_pod, run_filter,
  }

  abbrev pub Dry : Type 0
  Dry = CycleState × NodeInfo

  abbrev pub fits : Pod → Dry → Bool
  fits preemptor (state, node) = run_filter state preemptor node

  -- removePod
  unfoldable pub remove_pod : Pod → Pod → Dry → Option Dry
  remove_pod preemptor pod (state, node) = elim (node_remove_pod node pod) [
    | none ↦ none
    | some node' ↦
        let (state', success) = run_remove_pod state preemptor pod node' in
        if success then some (state', node') else none
  ]

  -- addPod
  unfoldable pub add_pod : Pod → Pod → Dry → Option Dry
  add_pod preemptor pod (state, node) =
      let node' = node_add_pod node pod in
      let (state', success) = run_add_pod state preemptor pod node' in
      if success then some (state', node') else none

  -- The loop over the pods of the node: the potential victims, which it removes. The test may fail.
  unfoldable pub collect :
      (Dry → Pod → Option Bool) → Pod → List Pod → Dry → Option (List Pod × Dry)
  collect test preemptor [] dry = some ([], dry)
  collect test preemptor (pod ∷ pods) dry = elim (test dry pod) [
    | none ↦ none
    | some is_victim ↦ elim is_victim [
      | false ↦ collect test preemptor pods dry
      | true ↦ elim (remove_pod preemptor pod dry) [
        | none ↦ none
        | some dry' ↦ elim (collect test preemptor pods dry') [
          | none ↦ none
          | some (victims, end) ↦ some (pod ∷ victims, end)
        ]
      ]
    ]
  ]

  -- A loop that calls reprievePod: the dry run and the victims, and how many pods do not fit.
  unfoldable pub reprieve_all :
      (Pod → Dry × List Pod → Option (Bool × (Dry × List Pod)))
      → List Pod
      → Dry × List Pod
      → Option (ℕ × (Dry × List Pod))
  reprieve_all reprieve_pod [] trial = some (0, trial)
  reprieve_all reprieve_pod (pod ∷ pods) trial = elim (reprieve_pod pod trial) [
    | none ↦ none
    | some (fitting, trial') ↦ elim (reprieve_all reprieve_pod pods trial') [
      | none ↦ none
      | some (n, end) ↦ some (if fitting then n else suc n, end)
    ]
  ]
