-- ===== src/Preemption/Tests.antt =====
-- The split by the budgets at concrete pods.
use flex_gpu_scheduler.Prelude.{pos, ◌≡◌, ◌↔◌, refl, List, [], ◌∷◌, arith}
use flex_gpu_scheduler.Prelude.Int
use flex_gpu_scheduler.Prelude.Maps
use flex_gpu_scheduler.PodGroups
use flex_gpu_scheduler.Preemption.Budgets.{
  Pod, is_counted, charge, charge_pod, split_pods, filter_pods_with_pdb_violation,
}
use flex_gpu_scheduler.Preemption.Samples.{sample_pod, sample_selectors, sample_pdb}
use flex_gpu_scheduler.Preemption.Within.{
  Interleaved, AllKept, filter_pods_with_pdb_violation-AllKept,
}

abbrev three_pods : List Pod
three_pods = sample_pod "a" (pos 1) ∷ sample_pod "b" (pos 2) ∷ sample_pod "c" (pos 3) ∷ []

one_violates :
    (filter_pods_with_pdb_violation sample_selectors three_pods (sample_pdb (pos 2) ∷ [])).0
    ≡ sample_pod "c" (pos 3) ∷ []
unfolding filter_pods_with_pdb_violation split_pods charge_pod charge is_counted Maps.lookup
    PodGroups.to_int32 Int.◌-ℤ◌
one_violates = refl

filter_pods_with_pdb_violation-AllKept_example :
    let (violating, others) =
      filter_pods_with_pdb_violation sample_selectors three_pods (sample_pdb (pos 2) ∷ []) in
    Interleaved violating others three_pods
    × AllKept sample_selectors others (sample_pdb (pos 2) ∷ [])
    × ((violating ≡ []) ↔ AllKept sample_selectors three_pods (sample_pdb (pos 2) ∷ []))
filter_pods_with_pdb_violation-AllKept_example =
    filter_pods_with_pdb_violation-AllKept sample_selectors three_pods (sample_pdb (pos 2) ∷ [])
      (omega arith) ((omega arith, omega arith), tt)
