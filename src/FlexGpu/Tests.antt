-- ===== src/FlexGpu/Tests.antt =====
-- The plugin FlexGPU at concrete nodes and pods.

use flex_gpu_scheduler.Prelude.{
  ◌≤ℤ◌, ℕ, ◌≡◌, ◌≢◌, refl, ℤ, pos, ◌+ℤ◌, true, false, String, Map, some, List, [], ◌∷◌, length,
  arith, Panics, returns, panics, lookup,
}
use flex_gpu_scheduler.Prelude.Int
use flex_gpu_scheduler.Prelude.Maps
use flex_gpu_scheduler.Api.{Container, Pod, NodeInfo, Status, success}
use flex_gpu_scheduler.Samples.{sample_vendor, ticks}
use flex_gpu_scheduler.FlexGpu.Node
use flex_gpu_scheduler.FlexGpu.Node.{
  Gpu, GpuNode, new_gpu_node, pod_resource_limit, mem_assume_fit_indexes, gpu_assume_fit_indexes,
  gpu_score, gpu_resource_name, mem_resource_name, gpu_index_annotation_key,
}
use flex_gpu_scheduler.FlexGpu.Placement
use flex_gpu_scheduler.FlexGpu.Plugin
use flex_gpu_scheduler.FlexGpu.Plugin.{filter, score, reserve, unreserve, node_resource_limit_sum}
use flex_gpu_scheduler.FlexGpu.Table.{mem_limit, Table, used_on, monopolised}
use flex_gpu_scheduler.FlexGpu.Rebuild.{
  IsRebuilt, all_in_range, new_gpu_node-IsRebuilt, new_gpu_node_total,
}
use flex_gpu_scheduler.FlexGpu.Fit.{mem_assume_fit_indexes-first}
use flex_gpu_scheduler.FlexGpu.Free.{gpu_score-length}
use flex_gpu_scheduler.FlexGpu.Safety.{
  IsSafe, Reach, here, next, reserved, reserve-IsSafe, Reach-IsSafe,
}
use flex_gpu_scheduler.FlexGpu.Admitted.{HasRoom, reserve-filter}
use flex_gpu_scheduler.FlexGpu.Cycle.{reserve_total}

abbrev container : Map ℤ → Container ℤ
container limits = record { limits = limits }

abbrev pod_of : String → Map ℤ → Map String → Pod ℤ
pod_of name limits annotations = record {
  namespace = "default";
  name = name;
  containers = container limits ∷ [];
  annotations = annotations;
}

abbrev mem_pod : ℕ → Pod ℤ
mem_pod n = pod_of "mem" ((mem_resource_name, pos n) ∷ []) []

abbrev gpu_pod : Pod ℤ
gpu_pod = pod_of "gpu" ((gpu_resource_name, pos 1) ∷ []) []

abbrev plain_pod : Pod ℤ
plain_pod = pod_of "plain" [] []

abbrev placed : ℕ → Pod ℤ → Pod ℤ
placed i pod = record pod { annotations = (gpu_index_annotation_key, ticks i) ∷ [] }

-- Two GPUs with 10 units of memory each.
abbrev node_with : List (Pod ℤ) → NodeInfo ℤ
node_with pods = record {
  allocatable = (gpu_resource_name, pos 2) ∷ (mem_resource_name, pos 20) ∷ [];
  pods = pods;
}

abbrev bare_node : NodeInfo ℤ
bare_node = record { allocatable = []; pods = [] }

-- A node whose second GPU has 5 of its 10 units in use.
abbrev half_node : NodeInfo ℤ
half_node = node_with (placed 1 (mem_pod 5) ∷ [])

abbrev half_table : GpuNode ℤ
half_table = record {
  gpu_count = pos 2;
  memory_total = pos 20;
  each_memory = pos 10;
  gpus =
      record { index = 0; monopoly = false; used_memory = pos 0 }
      ∷ record { index = 1; monopoly = false; used_memory = pos 5 }
      ∷ [];
}

half_built : new_gpu_node sample_vendor half_node ≡ returns half_table
unfolding new_gpu_node Node.divide Node.make_gpus Node.fresh_gpus Node.place_pods Node.place_pod
    Node.place_at Node.at_index pod_resource_limit Maps.lookup Int.quot_ℤ Int.◌+ℤ◌
half_built = refl

-- The second GPU is the tighter fit for 4 units; the first is the one found.
half_fits : (mem_assume_fit_indexes sample_vendor half_table (pos 4)).0 ≡ 0 ∷ []
unfolding mem_assume_fit_indexes Node.mem_fits Int.◌+ℤ◌ Int.◌-ℤ◌
half_fits = refl

abbrev shared_node : NodeInfo ℤ
shared_node = node_with (placed 0 (mem_pod 4) ∷ [])

abbrev busy_node : NodeInfo ℤ
busy_node = node_with (placed 0 (mem_pod 4) ∷ placed 1 gpu_pod ∷ [])

abbrev shared_table : GpuNode ℤ
shared_table = record {
  gpu_count = pos 2;
  memory_total = pos 20;
  each_memory = pos 10;
  gpus =
      record { index = 0; monopoly = false; used_memory = pos 4 }
      ∷ record { index = 1; monopoly = false; used_memory = pos 0 }
      ∷ [];
}

abbrev busy_table : GpuNode ℤ
busy_table = record {
  gpu_count = pos 2;
  memory_total = pos 20;
  each_memory = pos 10;
  gpus =
      record { index = 0; monopoly = false; used_memory = pos 4 }
      ∷ record { index = 1; monopoly = true; used_memory = pos 0 }
      ∷ [];
}

-- What a run through the table unfolds.
run_node : NodeInfo ℤ → Panics (GpuNode ℤ)
unfolding new_gpu_node Node.divide Node.make_gpus Node.fresh_gpus Node.place_pods Node.place_pod
    Node.place_at Node.at_index pod_resource_limit Maps.lookup Int.quot_ℤ Int.◌+ℤ◌
run_node = new_gpu_node sample_vendor

run_reserve : NodeInfo ℤ → Pod ℤ → Panics (Status × Pod ℤ)
unfolding reserve Plugin.annotate mem_assume_fit_indexes gpu_assume_fit_indexes Node.mem_fits
    Node.gpu_fits Node.is_free Maps.insert Int.◌-ℤ◌ run_node
run_reserve info = reserve sample_vendor (some info)

shared_built : new_gpu_node sample_vendor shared_node ≡ returns shared_table
unfolding run_node
shared_built = refl

-- Reserve puts 4 units on the first GPU, and a whole GPU on the second.
reserve_mem :
    reserve sample_vendor (some (node_with [])) (mem_pod 4)
    ≡ returns (success, placed 0 (mem_pod 4))
unfolding run_reserve
reserve_mem = refl

reserve_gpu : reserve sample_vendor (some shared_node) gpu_pod ≡ returns (success, placed 1 gpu_pod)
unfolding run_reserve
reserve_gpu = refl

-- A node without GPUs: a plain pod passes Filter, and Score panics.
score_bare : score sample_vendor (some bare_node) plain_pod ≡ panics
unfolding score run_node
score_bare = refl

busy-Reach : Reach sample_vendor (node_with []) busy_node
unfolding pod_resource_limit Maps.lookup Node.sum_limits Int.◌+ℤ◌
busy-Reach =
    next (next here (reserved (mem_pod 4) (placed 0 (mem_pod 4)) (omega arith) reserve_mem))
      (reserved gpu_pod (placed 1 gpu_pod) (omega arith) reserve_gpu)

shared-IsSafe : IsSafe sample_vendor shared_node
unfolding pod_resource_limit Maps.lookup Node.sum_limits Int.◌+ℤ◌ Int.quot_ℤ
shared-IsSafe =
    reserve-IsSafe sample_vendor (node_with []) (mem_pod 4) (placed 0 (mem_pod 4)) (omega arith)
      reserve_mem (Reach-IsSafe sample_vendor refl (omega arith) here)

Reach-IsSafe_example : IsSafe sample_vendor busy_node
unfolding Maps.lookup Int.quot_ℤ
Reach-IsSafe_example = Reach-IsSafe sample_vendor refl (omega arith) busy-Reach

reserve-IsSafe_example : IsSafe sample_vendor busy_node
unfolding pod_resource_limit Maps.lookup Node.sum_limits Int.◌+ℤ◌
reserve-IsSafe_example =
    reserve-IsSafe sample_vendor shared_node gpu_pod (placed 1 gpu_pod) (omega arith) reserve_gpu
      shared-IsSafe

new_gpu_node-IsRebuilt_example : IsRebuilt sample_vendor shared_node shared_table
new_gpu_node-IsRebuilt_example =
    new_gpu_node-IsRebuilt sample_vendor shared_node shared_table shared_built

new_gpu_node_total_example :
    (all_in_range sample_vendor 2 half_node.pods ≡ true
      → (n : GpuNode ℤ) × (new_gpu_node sample_vendor half_node ≡ returns n))
    × (all_in_range sample_vendor 2 half_node.pods ≡ false
        → new_gpu_node sample_vendor half_node ≡ panics)
unfolding Maps.lookup
new_gpu_node_total_example = new_gpu_node_total sample_vendor half_node 1 (pos 20) refl refl

shared_Table :
    Table sample_vendor
      (λ i. used_on sample_vendor i shared_node.pods)
      (λ i. monopolised sample_vendor i shared_node.pods)
      shared_table.gpus
shared_Table = (new_gpu_node-IsRebuilt sample_vendor shared_node shared_table shared_built).table

-- The second GPU of this table would be the tighter fit.
mem_assume_fit_indexes-first_example :
    (mem_assume_fit_indexes sample_vendor half_table (pos 6)).0 ≡ 0 ∷ []
unfolding Int.◌+ℤ◌
mem_assume_fit_indexes-first_example =
    mem_assume_fit_indexes-first sample_vendor half_table (pos 6) _ _ refl refl (omega arith)
      (omega arith)

one_score_each :
    gpu_score sample_vendor shared_table
    ≡ pos (length (gpu_assume_fit_indexes sample_vendor shared_table (pos 1)))
one_score_each = gpu_score-length sample_vendor shared_table (pos 1)

half-NonnegLimits : Placement.NonnegLimits sample_vendor half_node.pods
unfolding pod_resource_limit Maps.lookup Node.sum_limits Int.◌+ℤ◌
half-NonnegLimits = (omega arith, tt)

three_units : mem_limit sample_vendor (mem_pod 3) ≡ pos 3
unfolding pod_resource_limit Maps.lookup Node.sum_limits Int.◌+ℤ◌
three_units = refl

some_units : pos 0 ≤ℤ mem_limit sample_vendor (mem_pod 3)
some_units = rw three_units (omega arith)

run_filter : NodeInfo ℤ → Pod ℤ → Panics Status
unfolding filter Plugin.filter_totals Plugin.filter_gpus node_resource_limit_sum
    Plugin.sum_pod_limits run_reserve
run_filter info pod = filter sample_vendor pod info

reserve-filter_example :
    (i : ℕ) × (reserve sample_vendor (some half_node) (mem_pod 3)
      ≡ returns (success, Placement.annotated_pod sample_vendor i (mem_pod 3)))
    × HasRoom sample_vendor half_node (mem_limit sample_vendor (mem_pod 3)) i
unfolding run_filter
reserve-filter_example =
    reserve-filter sample_vendor half_node (mem_pod 3) refl some_units half-NonnegLimits refl

-- Both GPUs have memory in use, so no whole GPU is left.
abbrev full_node : NodeInfo ℤ
full_node = node_with (placed 0 (mem_pod 4) ∷ placed 1 (mem_pod 5) ∷ [])

abbrev full_table : GpuNode ℤ
full_table = record {
  gpu_count = pos 2;
  memory_total = pos 20;
  each_memory = pos 10;
  gpus =
      record { index = 0; monopoly = false; used_memory = pos 4 }
      ∷ record { index = 1; monopoly = false; used_memory = pos 5 }
      ∷ [];
}

reserve_total_example : reserve sample_vendor (some shared_node) gpu_pod ≢ panics
unfolding Maps.lookup
reserve_total_example =
    reserve_total sample_vendor shared_node gpu_pod 1 (pos 20) refl refl shared-IsSafe
