-- ===== src/Qos.antt =====
-- Queue sort by the quality of service: Less of pkg/qos/queue_sort.go.
pub mod Tests
use flex_gpu_scheduler.Prelude.{
  ℕ, ◌≤◌, ◌≡◌, refl, ℤ, ◌≤ℤ◌, ◌<ℤ◌, ltb_ℤ, compare_ℤ, Ordering, Bool, true, false, not, ◌&&◌, ◌||◌,
  ◌⊎◌, inl, inr, ◌↔◌, arith, if◌then◌else◌,
}
use flex_gpu_scheduler.PodGroups.{Pod}
use flex_gpu_scheduler.Controller.PodGroupSync.{same_ℤ}

-- v1.PodQOSClass
pub data PodQosClass : Type 0 where
  guaranteed burstable best_effort : PodQosClass

-- The classes, the best first.
abbrev pub qos_rank : PodQosClass → ℕ
qos_rank guaranteed = 0
qos_rank burstable = 1
qos_rank best_effort = 2

-- `get_pod_qos` is v1qos.GetPodQOS.
module _ (get_pod_qos : Pod → PodQosClass) where
  -- compQOS
  unfoldable pub comp_qos : Pod → Pod → Bool
  comp_qos p1 p2 = elim (get_pod_qos p1) [
    | guaranteed ↦ true
    | burstable ↦ elim (get_pod_qos p2) [ guaranteed ↦ false | _ ↦ true ]
    | best_effort ↦ elim (get_pod_qos p2) [ best_effort ↦ true | _ ↦ false ]
  ]

  -- Less
  unfoldable pub less_qos : Pod → Pod → Bool
  less_qos p1 p2 =
      ltb_ℤ p2.priority p1.priority || (same_ℤ p1.priority p2.priority && comp_qos p1 p2)

  comp_qos-rank :
      (p1 p2 : Pod)
      → (comp_qos p1 p2 ≡ true) ↔ (qos_rank (get_pod_qos p1) ≤ qos_rank (get_pod_qos p2))
  unfolding comp_qos
  comp_qos-rank p1 p2 = ground arith

  -- Less of the QoS sort holds of every pod with itself, of any two pods one way or the other, is
  -- transitive, and holds of two pods exactly when the first has the higher priority, or the same
  -- and a class that is no worse: it is a total preorder, and no strict order.
  pub less_qos-IsTotalPreorder :
      (a b c : Pod)
      → (less_qos a a ≡ true)
        × ((less_qos a b ≡ true) ⊎ (less_qos b a ≡ true))
        × (less_qos a b ≡ true → less_qos b c ≡ true → less_qos a c ≡ true)
        × ((less_qos a b ≡ true) ↔ (
            (b.priority <ℤ a.priority)
            ⊎ ((a.priority ≡ b.priority) × (qos_rank (get_pod_qos a) ≤ qos_rank (get_pod_qos b)))))
  unfolding less_qos
  less_qos-IsTotalPreorder a b c =
      let aa = comp_qos-rank a a in
      let ab = comp_qos-rank a b in
      let ba = comp_qos-rank b a in
      let bc = comp_qos-rank b c in
      let ac = comp_qos-rank a c in
      (ground arith, ground arith, λ p q. ground arith, (λ p. ground arith, λ p. ground arith))
