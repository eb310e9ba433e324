-- ===== src/NodeResources/Tests.antt =====
-- NodeResourcesAllocatable at concrete nodes.

use flex_gpu_scheduler.Prelude.{◌≡◌, refl, ℤ, pos, Map, some, [], ◌∷◌, arith, returns, panics}
use flex_gpu_scheduler.Prelude.Maps
use flex_gpu_scheduler.NodeResources.Allocatable
use flex_gpu_scheduler.NodeResources.Allocatable.{
  most, unset, ResourceAllocationScorer, NodeResourcesAllocatableArgs, new_allocatable,
  resource_scorer,
}
use flex_gpu_scheduler.NodeResources.Scores.{
  IsInOrder, resource_scorer-IsInOrder, resource_scorer-panics,
}

abbrev scorer : ResourceAllocationScorer
scorer = record { mode = most; resource_to_weight_map = ("memory", pos 1) ∷ ("cpu", pos 3) ∷ [] }

abbrev small : Map ℤ
small = ("memory", pos 10) ∷ ("cpu", pos 4) ∷ []

abbrev large : Map ℤ
large = ("memory", pos 10) ∷ ("cpu", pos 8) ∷ []

resource_scorer-IsInOrder_example :
    (x : ℤ) × (y : ℤ) × (resource_scorer scorer small ≡ returns x)
    × (resource_scorer scorer large ≡ returns y)
    × IsInOrder most x y
unfolding Maps.lookup
resource_scorer-IsInOrder_example =
    resource_scorer-IsInOrder scorer small large
      (
        ((omega arith, omega arith), ((omega arith, omega arith), tt)),
        omega arith,
        omega arith,
        omega arith,
      )
      (
        ((omega arith, omega arith), ((omega arith, omega arith), tt)),
        omega arith,
        omega arith,
        omega arith,
      )
      (omega arith, (omega arith, tt))

-- Weights that the plugin accepts.
abbrev quarter : ℤ
quarter = pos 4611686018427387904

abbrev heavy : Map ℤ
heavy = ("cpu", quarter) ∷ ("memory", quarter) ∷ ("pods", quarter) ∷ ("gpu", quarter) ∷ []

accepts :
    new_allocatable (some (record { resources = heavy; mode = unset }))
    ≡ some (record { mode = Allocatable.least; resource_to_weight_map = heavy })
unfolding new_allocatable Allocatable.validate_resources Allocatable.weight_map Maps.insert
accepts = refl

resource_scorer-panics_example :
    resource_scorer (record { mode = Allocatable.least; resource_to_weight_map = heavy }) small
    ≡ panics
resource_scorer-panics_example =
    resource_scorer-panics (record { mode = Allocatable.least; resource_to_weight_map = heavy })
      small 1 (omega arith, (omega arith, (omega arith, (omega arith, tt)))) refl
