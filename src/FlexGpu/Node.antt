-- ===== src/FlexGpu/Node.antt =====
-- pkg/flexgpu/gpu_node.go: the table of a node's GPUs, rebuilt from the pods on the node, and the
-- search for the GPUs that a pod fits on.
--
-- `constructGPUs` gives every GPU the same pointer `memory`, and its own pointer `usedMemory`. So
-- the quantity behind `memory` is one field of the table, `each_memory`, and `used_memory` is one
-- of each GPU; what the code writes through an alias changes these fields.
use flex_gpu_scheduler.Prelude.{
  ℕ, zero, suc, ◌+◌, ℤ, pos, negsuc, quot_ℤ, Bool, true, false, not, ◌&&◌, value_or, if◌then◌else◌,
  Ordering, String, lookup, none, some, List, [], ◌∷◌, modify, Panics, returns, panics, ◌>>=◌,
}
use flex_gpu_scheduler.Api.{Vendor, Container, Pod, NodeInfo}

abbrev pub gpu_resource_name : String
gpu_resource_name = "nvidia.flex.com/gpu"

abbrev pub mem_resource_name : String
mem_resource_name = "nvidia.flex.com/memory"

abbrev pub gpu_index_annotation_key : String
gpu_index_annotation_key = "nvidia.flex.com/index"

-- A *gpu, less its pointer `memory`.
pub record Gpu (Quantity : Type 0) : Type 0 where
  pub index : ℕ
  pub monopoly : Bool
  pub used_memory : Quantity

-- A *gpuNode, with the quantity that the pointers `memory` of its GPUs share.
pub record GpuNode (Quantity : Type 0) : Type 0 where
  pub gpu_count : Quantity
  pub memory_total : Quantity
  pub each_memory : Quantity
  pub gpus : List (Gpu Quantity)

-- `x.Cmp(y) >= 0` and `x.Cmp(y) < 0`, from the sign of Cmp.
abbrev pub at_least : Ordering → Bool
at_least o = elim o [ Ordering.lt ↦ false | _ ↦ true ]

abbrev pub below : Ordering → Bool
below o = elim o [ Ordering.lt ↦ true | _ ↦ false ]

-- `if !ok { panic(...) }` after AsInt64.
abbrev pub int64_or_panic : ℤ × Bool → Panics ℤ
int64_or_panic (n, ok) = if ok then returns n else panics

-- Go's integer division.
unfoldable pub divide : ℤ → ℤ → Panics ℤ
divide a (pos zero) = panics
divide a (pos (suc n)) = returns (quot_ℤ a (pos (suc n)))
divide a (negsuc n) = returns (quot_ℤ a (negsuc n))

module _ (v : Vendor) where
  open v use {
    Quantity, zero_value, new_quantity, add, sub, cmp, is_zero, as_int64, sort_slice, atoi,
  }

  -- The loop of podResourceLimit, from the sum so far and whether a limit was met.
  unfoldable pub sum_limits : String → List (Container Quantity) → Quantity → Bool → Quantity × Bool
  sum_limits name [] sum exist = (sum, exist)
  sum_limits name (c ∷ cs) sum exist = elim (lookup name c.limits) [
    | none ↦ sum_limits name cs sum exist
    | some q ↦ sum_limits name cs (add sum q) true
  ]

  -- podResourceLimit
  unfoldable pub pod_resource_limit : String → Pod Quantity → Quantity × Bool
  unfolding sum_limits
  pod_resource_limit name pod = sum_limits name pod.containers (new_quantity (pos 0)) false

  -- The first loop of constructGPUs, from an index on.
  unfoldable pub fresh_gpus : ℕ → ℕ → List (Gpu Quantity)
  fresh_gpus start zero = []
  fresh_gpus start (suc count) =
      record { index = start; monopoly = false; used_memory = new_quantity (pos 0) }
      ∷ fresh_gpus (suc start) count

  -- `make` with a negative size panics.
  unfoldable pub make_gpus : ℤ → Panics (List (Gpu Quantity))
  unfolding fresh_gpus
  make_gpus (pos count) = returns (fresh_gpus 0 count)
  make_gpus (negsuc n) = panics

  -- A write through `gpus[index]`, which panics out of range.
  unfoldable pub at_index :
      List (Gpu Quantity) → ℤ → (Gpu Quantity → Gpu Quantity) → Panics (List (Gpu Quantity))
  at_index gpus (pos i) f = elim (modify gpus i f) [ none ↦ panics | some gpus' ↦ returns gpus' ]
  at_index gpus (negsuc i) f = panics

  -- `gpus[index].monopoly = true`
  abbrev pub set_monopoly : Gpu Quantity → Gpu Quantity
  set_monopoly u = record u { monopoly = true }

  -- `gpus[index].usedMemory.Add(*memLimit)`
  abbrev pub add_memory : Quantity → Gpu Quantity → Gpu Quantity
  add_memory limit u = record u { used_memory = add u.used_memory limit }

  -- What the body of the second loop of constructGPUs does with a pod that has an index: each write
  -- is made if the pod has the limit.
  unfoldable pub place_at :
      List (Gpu Quantity) → ℤ → Bool → Quantity × Bool → Panics (List (Gpu Quantity))
  place_at gpus index gpu_exist (mem_limit, mem_exist) = do
    marked ← if gpu_exist then at_index gpus index set_monopoly else returns gpus
    if mem_exist then at_index marked index (add_memory mem_limit) else returns marked

  -- The body of the second loop of constructGPUs: an annotation that is missing or no number leaves
  -- the table alone.
  unfoldable pub place_pod : List (Gpu Quantity) → Pod Quantity → Panics (List (Gpu Quantity))
  place_pod gpus pod =
      let (_, gpu_exist) = pod_resource_limit gpu_resource_name pod in
      let (mem_limit, mem_exist) = pod_resource_limit mem_resource_name pod in
      if not gpu_exist && not mem_exist
      then returns gpus
      else elim (lookup gpu_index_annotation_key pod.annotations) [
        | none ↦ returns gpus
        | some val ↦ elim (atoi val) [
          | none ↦ returns gpus
          | some index ↦ place_at gpus index gpu_exist (mem_limit, mem_exist)
        ]
      ]

  unfoldable pub place_pods :
      List (Gpu Quantity) → List (Pod Quantity) → Panics (List (Gpu Quantity))
  place_pods gpus [] = returns gpus
  place_pods gpus (pod ∷ pods) = place_pod gpus pod >>= λ gpus'. place_pods gpus' pods

  -- NewGPUNode: its panics are quantities that are no int64, the division by a count of zero, and
  -- those of constructGPUs.
  unfoldable pub new_gpu_node : NodeInfo Quantity → Panics (GpuNode Quantity)
  new_gpu_node info = do
    let gpu_allocatable = value_or zero_value (lookup gpu_resource_name info.allocatable)
    let mem_allocatable = value_or zero_value (lookup mem_resource_name info.allocatable)
    gpu_cnt ← int64_or_panic (as_int64 gpu_allocatable)
    mem_cnt ← int64_or_panic (as_int64 mem_allocatable)
    each ← divide mem_cnt gpu_cnt
    fresh ← make_gpus gpu_cnt
    gpus ← place_pods fresh info.pods
    returns (record {
      gpu_count = gpu_allocatable;
      memory_total = mem_allocatable;
      each_memory = new_quantity each;
      gpus = gpus;
    })

  -- The loop of MemAssumeFitIndexes: the indexes that fit, what is then behind the pointers
  -- `memory`, and the GPUs. `assumed` is the pointer `usedMemory`, and `remain` the shared pointer
  -- `memory`, so both subtractions and additions stay.
  unfoldable pub mem_fits :
      Quantity → Quantity → List (Gpu Quantity) → List ℕ × Quantity × List (Gpu Quantity)
  mem_fits limit each [] = ([], each, [])
  mem_fits limit each (u ∷ us) =
      let assumed = add u.used_memory limit in
      let charged = record u { used_memory = assumed } in
      elim (not u.monopoly && at_least (cmp each assumed)) [
        | true ↦
            let (fits, rest, us') = mem_fits limit (sub each assumed) us in
            (u.index ∷ fits, rest, charged ∷ us')
        | false ↦ let (fits, rest, us') = mem_fits limit each us in (fits, rest, charged ∷ us')
      ]

  -- (*gpuNode).MemAssumeFitIndexes, with the node that it leaves. The `remain` of every fit is the
  -- same quantity when the sort compares them.
  unfoldable pub mem_assume_fit_indexes : GpuNode Quantity → Quantity → List ℕ × GpuNode Quantity
  mem_assume_fit_indexes n limit =
      let (fits, rest, us) = mem_fits limit n.each_memory n.gpus in
      (sort_slice (λ i j. below (cmp rest rest)) fits, record n { each_memory = rest; gpus = us })

  -- `!u.monopoly && u.usedMemory.IsZero()`
  unfoldable pub is_free : Gpu Quantity → Bool
  is_free u = not u.monopoly && is_zero u.used_memory

  -- The loop of (*gpuNode).GPUAssumeFitIndexes.
  unfoldable pub gpu_fits : List (Gpu Quantity) → List ℕ
  gpu_fits [] = []
  gpu_fits (u ∷ us) = let rest = gpu_fits us in if is_free u then u.index ∷ rest else rest

  -- (*gpuNode).GPUAssumeFitIndexes, which does not read the limit.
  unfoldable pub gpu_assume_fit_indexes : GpuNode Quantity → Quantity → List ℕ
  gpu_assume_fit_indexes n limit = gpu_fits n.gpus

  -- The loop of (*gpuNode).GPUScore.
  unfoldable pub count_free : List (Gpu Quantity) → ℕ
  count_free [] = 0
  count_free (u ∷ us) = (if is_free u then 1 else 0) + count_free us

  -- (*gpuNode).GPUScore
  unfoldable pub gpu_score : GpuNode Quantity → ℤ
  gpu_score n = pos (count_free n.gpus)

  -- The loop of (*gpuNode).MemScore.
  unfoldable pub sum_remain : Quantity → Quantity → List (Gpu Quantity) → Quantity
  sum_remain each sum [] = sum
  sum_remain each sum (u ∷ us) = sum_remain each (sub (add sum each) u.used_memory) us

  -- (*gpuNode).MemScore
  unfoldable pub mem_score : GpuNode Quantity → ℤ
  mem_score n = (as_int64 (sum_remain n.each_memory (new_quantity (pos 0)) n.gpus)).0
