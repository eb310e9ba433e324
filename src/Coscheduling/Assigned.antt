-- ===== src/Coscheduling/Assigned.antt =====
-- The pods that CalculateAssignedPods counts (pkg/coscheduling/core/core.go).
use flex_gpu_scheduler.Prelude.{
  ◌+◌, ◌≡◌, ◌≢◌, refl, true, false, String, str_eq, eq_iff, some, List, [], ◌∷◌, ◌++◌, length, All,
  arith, inl, inr, Bool-cases,
}
use flex_gpu_scheduler.PodGroups.{Pod, get_pod_group_label}
use flex_gpu_scheduler.Preemption.Within.{Interleaved, both_empty, from_left, from_right}
use flex_gpu_scheduler.Coscheduling.Cluster.{NodeInfo}
use flex_gpu_scheduler.Coscheduling.Manager.{
  World, is_assigned, count_assigned, count_nodes, calculate_assigned_pods,
}

-- The pods on some nodes.
abbrev pub all_pods : List NodeInfo → List Pod
all_pods [] = []
all_pods (info ∷ infos) = info.pods ++ all_pods infos

module _ (group namespace : String) where
  -- A pod of the group that has a node.
  abbrev pub IsAssigned : Pod → Type 0
  IsAssigned p = (get_pod_group_label p ≡ group) × (p.namespace ≡ namespace) × (p.node_name ≢ "")

  -- The pods on some nodes fall into the ones of the group that have a node, and others.
  pub record IsSplit (infos : List NodeInfo) (members others : List Pod) : Type 0 where
    pub split : Interleaved members others (all_pods infos)
    pub assigned : All IsAssigned members
    pub unassigned : All (λ p. ¬ IsAssigned p) others

  is_assigned-IsAssigned : (p : Pod) → IsAssigned p → is_assigned group namespace p ≡ true
  unfolding is_assigned
  is_assigned-IsAssigned p (label, space, node) =
      let same_label = (eq_iff (get_pod_group_label p) group).1 label in
      let same_namespace = (eq_iff p.namespace namespace).1 space in
      elim (Bool-cases (str_eq p.node_name "")) [
        | inl bare ↦ absurd (node ((eq_iff p.node_name "").0 bare))
        | inr there ↦ ground arith
      ]

  is_assigned-other : (p : Pod) → ¬ IsAssigned p → is_assigned group namespace p ≡ false
  unfolding is_assigned
  is_assigned-other p other = elim (Bool-cases (is_assigned group namespace p)) [
    | inr unassigned ↦ unassigned
    | inl counted ↦
        let label = eq_iff (get_pod_group_label p) group in
        let space = eq_iff p.namespace namespace in
        let bare = eq_iff p.node_name "" in
        let clash : str_eq p.node_name "" ≡ false = ground arith in
        absurd (other (label.0 (ground arith), space.0 (ground arith), λ e. cc (bare.1 e, clash)))
  ]

  count_assigned-append :
      (xs ys : List Pod)
      → count_assigned group namespace (xs ++ ys)
        ≡ count_assigned group namespace xs + count_assigned group namespace ys
  unfolding count_assigned
  count_assigned-append [] ys = omega arith
  count_assigned-append (x ∷ xs) ys = let rest = count_assigned-append xs ys in omega arith

  count_nodes-all_pods :
      (infos : List NodeInfo)
      → count_nodes group namespace infos ≡ count_assigned group namespace (all_pods infos)
  unfolding count_nodes count_assigned
  count_nodes-all_pods [] = refl
  count_nodes-all_pods (info ∷ infos) =
      let rest = count_nodes-all_pods infos in
      let apart = count_assigned-append info.pods (all_pods infos) in omega arith

  count_assigned-length :
      {members others pods : List Pod}
      → Interleaved members others pods
      → All IsAssigned members
      → All (λ p. ¬ IsAssigned p) others
      → count_assigned group namespace pods ≡ length members
  unfolding count_assigned
  count_assigned-length both_empty a o = refl
  count_assigned-length (from_left {a = p} i) (h, a) o =
      let rest = count_assigned-length i a o in let own = is_assigned-IsAssigned p h in ground arith
  count_assigned-length (from_right {a = p} i) a (h, o) =
      let rest = count_assigned-length i a o in let own = is_assigned-other p h in ground arith

  pub calculate_assigned_pods-IsSplit :
      {Quantity : Type 0} (w : World Quantity) (infos : List NodeInfo) (members others : List Pod)
      → w.list_nodes ≡ some infos
      → IsSplit infos members others
      → calculate_assigned_pods w group namespace ≡ length members
  unfolding calculate_assigned_pods
  calculate_assigned_pods-IsSplit w infos members others listed s =
      let pods = count_nodes-all_pods infos in
      let counted = count_assigned-length s.split s.assigned s.unassigned in ground arith
