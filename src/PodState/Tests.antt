-- ===== src/PodState/Tests.antt =====
-- The normalisation at concrete scores.
use flex_gpu_scheduler.Prelude.{◌≤ℤ◌, pos, negsuc, All, [], ◌∷◌, arith}
use flex_gpu_scheduler.PodState.{normalize_score, normalize_score-bounds}

normalize_score-bounds_example :
    All (λ z. (pos 0 ≤ℤ z) × (z ≤ℤ pos 100)) (normalize_score (pos 3 ∷ negsuc 0 ∷ pos 1 ∷ []))
normalize_score-bounds_example =
    normalize_score-bounds (pos 3 ∷ negsuc 0 ∷ pos 1 ∷ [])
      ((omega arith, omega arith), ((omega arith, omega arith), ((omega arith, omega arith), tt)))
