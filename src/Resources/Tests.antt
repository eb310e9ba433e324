-- ===== src/Resources/Tests.antt =====
-- The effective request of a concrete pod.
use flex_gpu_scheduler.Prelude.{◌≡◌, ℤ, pos, Map, List, [], ◌∷◌, lookup, some}
use flex_gpu_scheduler.Samples.{sample_vendor}
use flex_gpu_scheduler.Resources.{add_up, over_containers, get_pod_effective_request}
use flex_gpu_scheduler.Resources.Effective.{AtLeast, SomeAsks, get_pod_effective_request-AtLeast}

abbrev inits : List (Map ℤ)
inits = (("cpu", pos 5) ∷ []) ∷ (("cpu", pos 2) ∷ []) ∷ []

abbrev mains : List (Map ℤ)
mains = (("cpu", pos 2) ∷ []) ∷ (("cpu", pos 1) ∷ []) ∷ []

get_pod_effective_request-AtLeast_example :
    (SomeAsks sample_vendor "cpu" (pos 5) inits
      → AtLeast sample_vendor "cpu" (pos 5) (get_pod_effective_request sample_vendor inits mains))
    × (lookup "cpu" (over_containers sample_vendor (add_up sample_vendor) mains []) ≡ some (pos 5)
        → AtLeast sample_vendor "cpu" (pos 5) (get_pod_effective_request sample_vendor inits mains))
get_pod_effective_request-AtLeast_example =
    get_pod_effective_request-AtLeast sample_vendor inits mains "cpu" (pos 5)
