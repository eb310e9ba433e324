-- ===== src/Preemption/Budgets.antt =====
-- filterPodsWithPDBViolation: the two copies in preemption_toleration.go and capacity_scheduling.go
-- are the same. Label selectors are the vendored apimachinery's.
use flex_gpu_scheduler.Prelude.{
  ℤ, pos, ◌-ℤ◌, ltb_ℤ, Bool, true, false, not, ◌||◌, if◌then◌else◌, str_eq, String, Map, lookup,
  Option, none, some, List, [], ◌∷◌, map,
}
use flex_gpu_scheduler.PodGroups.{to_int32}

-- A v1.Pod, as far as the plugins that preempt read it.
pub record Pod : Type 0 where
  pub namespace : String
  pub name : String
  pub uid : String
  pub labels : Map String
  pub priority : ℤ
  pub priority_class_name : String
  -- Spec.PreemptionPolicy: whether it is Never, if it is set.
  pub preempt_never : Option Bool
  pub nominated_node_name : String
  -- Whether DeletionTimestamp is set.
  pub is_terminating : Bool
  -- The condition PodScheduled: whether its status is True, and its LastTransitionTime.
  pub scheduled_condition : Option (Bool × ℤ)

-- metav1.LabelSelectorAsSelector (`none` is an error), Selector.Empty and Selector.Matches.
pub record Selectors : Type 1 where
  pub LabelSelector : Type 0
  pub Selector : Type 0
  pub as_selector : LabelSelector → Option Selector
  pub is_empty : Selector → Bool
  pub matches : Selector → Map String → Bool

-- A PodDisruptionBudget.
pub record Pdb (LabelSelector : Type 0) : Type 0 where
  pub namespace : String
  pub selector : LabelSelector
  pub disruptions_allowed : ℤ
  pub disrupted_pods : Map {0} Unit

abbrev pub has_labels : Pod → Bool
has_labels pod = elim pod.labels [ [] ↦ false | _ ↦ true ]

module _ (s : Selectors) where
  open s use {LabelSelector, as_selector, is_empty, matches}

  -- The tests of the inner loop: the pod counts against the budget.
  unfoldable pub is_counted : Pdb LabelSelector → Pod → Bool
  is_counted pdb pod =
      if not (str_eq pdb.namespace pod.namespace) then false else elim (as_selector pdb.selector) [
        | none ↦ false
        | some selector ↦
            if is_empty selector || not (matches selector pod.labels)
            then false
            else elim (lookup pod.name pdb.disrupted_pods) [ none ↦ true | some _ ↦ false ]
      ]

  -- The inner loop, on the budgets with their entries of pdbsAllowed: the entries that it leaves, and
  -- pdbForPodIsViolated.
  unfoldable pub charge : Pod → List (Pdb LabelSelector × ℤ) → List (Pdb LabelSelector × ℤ) × Bool
  charge pod [] = ([], false)
  charge pod ((pdb, allowed) ∷ rest) =
      let (rest', violated) = charge pod rest in
      if is_counted pdb pod
      then (
        (pdb, to_int32 (allowed -ℤ pos 1)) ∷ rest',
        ltb_ℤ (to_int32 (allowed -ℤ pos 1)) (pos 0) || violated,
      )
      else ((pdb, allowed) ∷ rest', violated)

  -- One round of the outer loop.
  unfoldable pub charge_pod :
      Pod → List (Pdb LabelSelector × ℤ) → List (Pdb LabelSelector × ℤ) × Bool
  charge_pod pod budgets = if has_labels pod then charge pod budgets else (budgets, false)

  -- The outer loop: the violating pods and the others.
  unfoldable pub split_pods : List Pod → List (Pdb LabelSelector × ℤ) → List Pod × List Pod
  split_pods [] budgets = ([], [])
  split_pods (pod ∷ pods) budgets =
      let (budgets', violated) = charge_pod pod budgets in
      let (violating, others) = split_pods pods budgets' in
      if violated then (pod ∷ violating, others) else (violating, pod ∷ others)

  -- filterPodsWithPDBViolation
  unfoldable pub filter_pods_with_pdb_violation :
      List Pod → List (Pdb LabelSelector) → List Pod × List Pod
  filter_pods_with_pdb_violation pods pdbs =
      split_pods pods (map (λ (pdb : Pdb LabelSelector). (pdb, pdb.disruptions_allowed)) pdbs)
