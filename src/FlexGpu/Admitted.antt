-- ===== src/FlexGpu/Admitted.antt =====
-- What Filter asks of a node for a pod with limits, and what Reserve does with it (flex_gpu.go).
use flex_gpu_scheduler.Prelude.{
  ℕ, ◌≡◌, ◌≢◌, refl, ℤ, pos, ◌+ℤ◌, ◌≤ℤ◌, ◌<ℤ◌, subst, true, false, ◌&&◌, if◌then◌else◌, some, List,
  [], ◌∷◌, All, arith, returns, lookup, ◌⊎◌, >>=-eq-returns,
}
use flex_gpu_scheduler.Api.{Vendor, Pod, NodeInfo, success, unschedulable}
use flex_gpu_scheduler.FlexGpu.Node.{
  GpuNode, new_gpu_node, mem_assume_fit_indexes, gpu_assume_fit_indexes, pod_resource_limit,
  is_free, gpu_resource_name, mem_resource_name,
}
use flex_gpu_scheduler.FlexGpu.Plugin.{
  node_resource_limit_sum, filter_gpus, filter, annotate, reserve,
}
use flex_gpu_scheduler.FlexGpu.Searched.{filter-IsSearched}
use flex_gpu_scheduler.FlexGpu.Table.{mem_limit, has_gpu, has_mem, used_on, monopolised}
use flex_gpu_scheduler.FlexGpu.Rebuild.{new_gpu_node-IsRebuilt}
use flex_gpu_scheduler.FlexGpu.Free.{gpu_fits-none}
use flex_gpu_scheduler.FlexGpu.Safety.{gpus_of, memory_of, each_memory-memory_of}
use flex_gpu_scheduler.FlexGpu.Fit.{mem_assume_fit_indexes-fit}
use flex_gpu_scheduler.FlexGpu.Placement
use mathlib.Core.List.{Mem, mem-cons_self}

module _ (v : Vendor) where
  open v use {Quantity, amount, itoa, as_int64, add, cmp, amount-add, cmp-amount}

  annotate-Mem :
      (pod : Pod Quantity) (is : List ℕ)
      → is ≢ []
      → (i : ℕ) × Mem i is × (annotate v pod is ≡ (success, Placement.annotated_pod v i pod))
  unfolding annotate
  annotate-Mem pod [] h = absurd (h refl)
  annotate-Mem pod (i ∷ is) h = (i, mem-cons_self, refl)

  -- A GPU of a node that no pod holds for itself, and that has room for a limit on memory.
  abbrev pub HasRoom : NodeInfo Quantity → ℤ → ℕ → Type 0
  HasRoom info limit i =
      (pos i <ℤ gpus_of v info)
      × (monopolised v i info.pods ≡ false)
      × (used_on v i info.pods +ℤ limit ≤ℤ memory_of v info)

  mem_assume_fit_indexes-HasRoom :
      (info : NodeInfo Quantity) (n : GpuNode Quantity) (limit : Quantity) (i : ℕ)
      → new_gpu_node v info ≡ returns n
      → pos 0 ≤ℤ amount limit
      → Placement.NonnegLimits v info.pods
      → Mem i (mem_assume_fit_indexes v n limit).0
      → HasRoom info (amount limit) i
  mem_assume_fit_indexes-HasRoom info n limit i built h nonneg found =
      let rebuilt = new_gpu_node-IsRebuilt v info n built in
      let (below, open_gpu, room) =
        mem_assume_fit_indexes-fit v n limit _ _ i h
          (Placement.Table-nonneg v info.pods _ n.gpus nonneg rebuilt.table) rebuilt.table found in
      (
        ground (arith, rebuilt.counted, rebuilt.sized),
        open_gpu,
        subst (λ each. used_on v i info.pods +ℤ amount limit ≤ℤ each)
            (each_memory-memory_of v info n rebuilt) room,
      )

  -- What Filter asks for a pod with limits, of the pods and the resources of a node: limits of one
  -- kind alone, both resources, totals with the pod's limits that are at most what is allocatable,
  -- a table that can be rebuilt, and, if the limit is on memory, a GPU with room.
  pub record IsAdmitted (info : NodeInfo Quantity) (pod : Pod Quantity) : Type 0 where
    pub one_kind : (has_gpu v pod && has_mem v pod) ≡ false
    pub gpus : Quantity
    pub gpus_known : lookup gpu_resource_name info.allocatable ≡ some gpus
    pub memory : Quantity
    pub memory_known : lookup mem_resource_name info.allocatable ≡ some memory
    pub gpus_left :
        amount (node_resource_limit_sum v gpu_resource_name info)
          +ℤ amount (pod_resource_limit v gpu_resource_name pod).0
        ≤ℤ amount gpus
    pub memory_left :
        amount (node_resource_limit_sum v mem_resource_name info)
          +ℤ amount (pod_resource_limit v mem_resource_name pod).0
        ≤ℤ amount memory
    pub table : GpuNode Quantity
    pub rebuilt : new_gpu_node v info ≡ returns table
    pub room : (has_mem v pod ≡ false) ⊎ ((i : ℕ) × HasRoom info (mem_limit v pod) i)

  -- For a pod with a limit on memory that Filter lets through on a node, with no negative limit on
  -- its memory or that of the node's pods: Reserve succeeds and annotates the pod with the index
  -- of one of the node's GPUs, that no pod of the node holds for itself, and that has the memory
  -- for the limit beside what the pods of the node that are annotated with it take.
  pub reserve-filter :
      (info : NodeInfo Quantity) (pod : Pod Quantity)
      → has_mem v pod ≡ true
      → pos 0 ≤ℤ mem_limit v pod
      → Placement.NonnegLimits v info.pods
      → filter v pod info ≡ returns success
      → (i : ℕ) × (reserve v (some info) pod ≡ returns (success, Placement.annotated_pod v i pod))
        × HasRoom info (mem_limit v pod) i
  unfolding filter_gpus reserve
  reserve-filter info pod limited limit nonneg e =
      let a = (filter-IsSearched v info pod (ground arith)).0 e in
      let (n, built, found) =
        >>=-eq-returns (new_gpu_node v info)
          (λ node. returns (
            if has_mem v pod
            then elim (mem_assume_fit_indexes v node
                (pod_resource_limit v mem_resource_name pod).0).0 [
                  | [] ↦ unschedulable
                  | _ ↦ success
                ]
            else success))
          a.search in
      let (i, fits, done) =
        annotate-Mem pod
          (mem_assume_fit_indexes v n (pod_resource_limit v mem_resource_name pod).0).0
          (λ e. ground arith) in
      (
        i,
        ground (arith, a.one_kind),
        mem_assume_fit_indexes-HasRoom info n (pod_resource_limit v mem_resource_name pod).0 i built
            limit nonneg fits,
      )

  -- For a pod with a limit on GPUs alone, on a node that has both resources, whose table is
  -- rebuilt, where every GPU is held or has memory in use and the totals with the pod's limits are
  -- at most what is allocatable: Filter succeeds, and Reserve refuses the pod.
  pub reserve-filter_refused :
      (info : NodeInfo Quantity) (pod : Pod Quantity) (n : GpuNode Quantity)
      (gpus memory : Quantity)
      → has_gpu v pod ≡ true
      → has_mem v pod ≡ false
      → lookup gpu_resource_name info.allocatable ≡ some gpus
      → lookup mem_resource_name info.allocatable ≡ some memory
      → amount (node_resource_limit_sum v gpu_resource_name info)
          +ℤ amount (pod_resource_limit v gpu_resource_name pod).0
        ≤ℤ amount gpus
      → amount (node_resource_limit_sum v mem_resource_name info)
          +ℤ amount (pod_resource_limit v mem_resource_name pod).0
        ≤ℤ amount memory
      → new_gpu_node v info ≡ returns n
      → All (λ u. is_free v u ≡ false) n.gpus
      → (filter v pod info ≡ returns success)
        × (reserve v (some info) pod ≡ returns (unschedulable, pod))
  unfolding filter_gpus reserve gpu_assume_fit_indexes annotate
  reserve-filter_refused info pod n gpus memory is_gpu no_mem eg em g m built taken = (
    (filter-IsSearched v info pod (ground arith)).1 (record {
      one_kind = ground arith;
      gpus = gpus;
      gpus_known = eg;
      memory = memory;
      memory_known = em;
      gpus_left = g;
      memory_left = m;
      search = ground arith;
    }),
    ground (arith, gpu_fits-none v n.gpus taken),
  )
