-- ===== src/Toleration/Candidates.antt =====
-- How many candidates a dry run looks for, and when a pod may preempt at all
-- (preemption_toleration.go).
use Prim.Native.Nat.{◌/◌}
use mathlib.Core.List.{Mem, mem-cons, not-mem-nil}
use mathlib.Core.Logic.Or
use native.Mathlib.Bridge.{le_prop}
use flex_gpu_scheduler.Prelude.{
  ltb, ℕ, ◌+◌, ◌*◌, ◌<◌, ◌≤◌, ◌≡◌, ◌↔◌, ◌⊎◌, inl, inr, refl, sym, ap, ◌∙◌, subst, ℤ, pos, quot_ℤ,
  quot_pos, ltb_ℤ, ◌≤ℤ◌, true, false, not, Option, some, List, [], ◌∷◌, value_or, str_eq, String,
  Bool-cases, arith, if◌then◌else◌,
}
use flex_gpu_scheduler.PodGroups.{to_int32, to_int32_small}
use flex_gpu_scheduler.Preemption.Budgets.{Pod}
use flex_gpu_scheduler.Toleration.Node.{
  PreemptionTolerationArgs, calculate_num_candidates, pod_eligible_to_preempt_others,
  has_terminating, times,
}

-- The two bounds on the share.
clamp :
    (num_nodes share absolute : ℤ) (n q a : ℕ)
    → num_nodes ≡ pos n
    → share ≡ pos q
    → absolute ≡ pos a
    → (k : ℕ) × ((let n' = if ltb_ℤ share absolute then absolute else share in
          if ltb_ℤ num_nodes n' then num_nodes else n')
        ≡ pos k)
      × (k ≤ n)
      × ((a ≤ k) ⊎ (k ≡ n))
      × ((q ≤ k) ⊎ (k ≡ n))
clamp num_nodes share absolute n q a nodes shares absolutes =
    let top = if ltb q a then a else q in
    let (low, high) : (a ≤ top) × (q ≤ top) = (ground arith, ground arith) in
    elim (Bool-cases (ltb n top)) [
      | inl over ↦
          (n, rw (nodes, shares, absolutes) (ground arith), omega arith, inr refl, inr refl)
      | inr under ↦
          (top, rw (nodes, shares, absolutes) (ground arith), ground arith, inl low, inl high)
    ]

-- For a number of nodes, a percentage and an absolute minimum that are not negative, and a product
-- of the first two below 2 ^ 31: the number of candidates is at most that of the nodes, at least
-- the absolute minimum unless it is every node, and at least the percentage of the nodes, rounded
-- down, unless it is every node.
pub calculate_num_candidates-bounds :
    (args : PreemptionTolerationArgs) (num_nodes : ℤ) (n p a : ℕ)
    → num_nodes ≡ pos n
    → args.min_candidate_nodes_percentage ≡ pos p
    → args.min_candidate_nodes_absolute ≡ pos a
    → n * p < 2147483648
    → (k : ℕ) × (calculate_num_candidates args num_nodes ≡ pos k)
      × (k ≤ n)
      × ((a ≤ k) ⊎ (k ≡ n))
      × ((n * p < 100 * k + 100) ⊎ (k ≡ n))
unfolding calculate_num_candidates
calculate_num_candidates-bounds args num_nodes n p a nodes percentage absolute small =
    let exact : times (pos n) (pos p) ≡ pos (n * p) = grind arith in
    let product : to_int32 (times (pos n) (pos p)) ≡ pos (n * p) =
      ap to_int32 exact ∙ to_int32_small (n * p) small in
    let n_share =
      quot_ℤ (to_int32 (times num_nodes args.min_candidate_nodes_percentage)) (pos 100) in
    let share : n_share ≡ pos (n * p / 100) =
      rw (nodes, percentage) (ap (λ (z : ℤ). quot_ℤ z (pos 100)) product ∙ quot_pos (n * p) 99) in
    let (k, same, most, low, enough) =
      clamp num_nodes n_share args.min_candidate_nodes_absolute n (n * p / 100) a nodes share
        absolute in
    (k, same, most, low, elim enough [ inl h ↦ inl (omega arith) | inr h ↦ inr h ])

-- No pod terminates that has a lower priority.
abbrev pub AllStay : ℤ → List Pod → Type 0
AllStay pod_priority pods =
    (p : Pod) → Mem p pods → p.is_terminating ≡ true → pod_priority ≤ℤ p.priority

has_terminating-AllStay :
    (pod_priority : ℤ) (pods : List Pod)
    → (not (has_terminating pod_priority pods) ≡ true) ↔ AllStay pod_priority pods
unfolding has_terminating
has_terminating-AllStay pod_priority [] = (λ e p m. absurd (not-mem-nil m), λ all. refl)
has_terminating-AllStay pod_priority (q ∷ pods) =
    let rest = has_terminating-AllStay pod_priority pods in
    (
      λ e p m leaving.
          Or.elim le_prop (mem-cons.0 m)
            (λ same.
              subst (λ x. pod_priority ≤ℤ x.priority) (sym same)
                (let gone = subst (λ x. x.is_terminating ≡ true) same leaving in ground arith))
            (λ later. rest.0 (ground arith) p later leaving),
      λ all.
          let head = all q (mem-cons.1 (Or.inl refl)) in
          let tail = rest.1 (λ p m. all p (mem-cons.1 (Or.inr m))) in
          elim (Bool-cases q.is_terminating) [
            | inl leaving ↦ let least = head leaving in ground arith
            | inr stays ↦ ground arith
          ],
    )

-- A pod with a nominated node, that may preempt, may do so if that node was found unresolvable, and
-- else exactly when AllStay holds of its pods.
pub pod_eligible_to_preempt_others-AllStay :
    (node_infos : String → Option (List Pod)) (pod : Pod) (pods : List Pod)
    → value_or false pod.preempt_never ≡ false
    → str_eq pod.nominated_node_name "" ≡ false
    → node_infos pod.nominated_node_name ≡ some pods
    → (pod_eligible_to_preempt_others node_infos pod true ≡ true)
      × ((pod_eligible_to_preempt_others node_infos pod false ≡ true) ↔ AllStay pod.priority pods)
unfolding pod_eligible_to_preempt_others
pod_eligible_to_preempt_others-AllStay node_infos pod pods eager nominated found =
    let (to, from) = has_terminating-AllStay pod.priority pods in
    (ground arith, (λ e. to (ground arith), λ all. let last = from all in ground arith))
