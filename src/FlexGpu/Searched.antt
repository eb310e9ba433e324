-- ===== src/FlexGpu/Searched.antt =====
-- The tests of Filter before its search for a GPU (flex_gpu.go).
use flex_gpu_scheduler.Prelude.{
  ◌≡◌, ◌+ℤ◌, ◌≤ℤ◌, Bool, true, false, ◌&&◌, ◌||◌, some, arith, returns, lookup, inl, inr,
  Option-cases, ◌↔◌,
}
use flex_gpu_scheduler.Api.{Vendor, Pod, NodeInfo, success}
use flex_gpu_scheduler.FlexGpu.Node.{pod_resource_limit, gpu_resource_name, mem_resource_name}
use flex_gpu_scheduler.FlexGpu.Plugin.{
  above, node_resource_limit_sum, filter_gpus, filter_totals, filter,
}
use flex_gpu_scheduler.FlexGpu.Table.{has_gpu, has_mem}

module _ (v : Vendor) where
  open v use {Quantity, amount, itoa, as_int64, add, cmp, amount-add, cmp-amount}

  -- What Filter asks for a pod with limits: limits of one kind alone, both resources on the node,
  -- totals with the pod's limits that are at most what is allocatable, and the end of Filter.
  pub record IsSearched (info : NodeInfo Quantity) (pod : Pod Quantity) : Type 0 where
    pub one_kind : (has_gpu v pod && has_mem v pod) ≡ false
    pub gpus : Quantity
    pub gpus_known : lookup gpu_resource_name info.allocatable ≡ some gpus
    pub memory : Quantity
    pub memory_known : lookup mem_resource_name info.allocatable ≡ some memory
    pub gpus_left :
        amount (node_resource_limit_sum v gpu_resource_name info)
          +ℤ amount (pod_resource_limit v gpu_resource_name pod).0
        ≤ℤ amount gpus
    pub memory_left :
        amount (node_resource_limit_sum v mem_resource_name info)
          +ℤ amount (pod_resource_limit v mem_resource_name pod).0
        ≤ℤ amount memory
    pub search : filter_gpus v info (pod_resource_limit v mem_resource_name pod) ≡ returns success

  above-sum :
      (a b c : Quantity) → (above (cmp (add a b) c) ≡ false) ↔ (amount a +ℤ amount b ≤ℤ amount c)
  above-sum a b c = rw (cmp-amount (add a b) c, amount-add a b) (ground arith)

  filter_totals-success :
      (info : NodeInfo Quantity) (gpu_limit : Quantity) (mem : Quantity × Bool)
      (gpus memory : Quantity)
      → filter_totals v info gpu_limit mem gpus memory ≡ returns success
      → (amount (node_resource_limit_sum v gpu_resource_name info) +ℤ amount gpu_limit
          ≤ℤ amount gpus)
        × (amount (node_resource_limit_sum v mem_resource_name info) +ℤ amount mem.0
            ≤ℤ amount memory)
        × (filter_gpus v info mem ≡ returns success)
  unfolding filter_totals
  filter_totals-success info gpu_limit mem gpus memory e = ground (
    arith,
    above-sum (node_resource_limit_sum v gpu_resource_name info) gpu_limit gpus,
    above-sum (node_resource_limit_sum v mem_resource_name info) mem.0 memory,
  )

  filter_totals-admits :
      (info : NodeInfo Quantity) (gpu_limit : Quantity) (mem : Quantity × Bool)
      (gpus memory : Quantity)
      → amount (node_resource_limit_sum v gpu_resource_name info) +ℤ amount gpu_limit ≤ℤ amount gpus
      → amount (node_resource_limit_sum v mem_resource_name info) +ℤ amount mem.0 ≤ℤ amount memory
      → filter_totals v info gpu_limit mem gpus memory ≡ filter_gpus v info mem
  unfolding filter_totals
  filter_totals-admits info gpu_limit mem gpus memory g m = ground (
    arith,
    above-sum (node_resource_limit_sum v gpu_resource_name info) gpu_limit gpus,
    above-sum (node_resource_limit_sum v mem_resource_name info) mem.0 memory,
  )

  pub filter-IsSearched :
      (info : NodeInfo Quantity) (pod : Pod Quantity)
      → (has_gpu v pod || has_mem v pod) ≡ true
      → (filter v pod info ≡ returns success) ↔ IsSearched info pod
  unfolding filter
  filter-IsSearched info pod limited = (
    λ e. elim (Option-cases (lookup gpu_resource_name info.allocatable)) [
      | inl unknown ↦ ground arith
      | inr (gpus, gpus_known) ↦ elim (Option-cases (lookup mem_resource_name info.allocatable)) [
        | inl unknown ↦ ground arith
        | inr (memory, memory_known) ↦
            let (g, m, search) =
              filter_totals-success info (pod_resource_limit v gpu_resource_name pod).0
                (pod_resource_limit v mem_resource_name pod) gpus memory (ground arith) in
            record {
              one_kind = ground arith;
              gpus = gpus;
              gpus_known = gpus_known;
              memory = memory;
              memory_known = memory_known;
              gpus_left = g;
              memory_left = m;
              search = search;
            }
      ]
    ],
    λ a. ground (
      arith,
      a.one_kind,
      a.gpus_known,
      a.memory_known,
      a.search,
      filter_totals-admits info (pod_resource_limit v gpu_resource_name pod).0
          (pod_resource_limit v mem_resource_name pod) a.gpus a.memory a.gpus_left a.memory_left,
    ),
  )
