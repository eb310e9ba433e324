-- ===== src/FlexGpu/Cycle.antt =====
-- The extension points of flex_gpu.go against one another over one scheduling cycle: when Score and
-- Reserve panic, and what Unreserve takes back.
use flex_gpu_scheduler.Prelude.{
  ℕ, suc, ◌≡◌, ◌≢◌, refl, ℤ, pos, true, false, some, none, List, [], ◌∷◌, arith, returns, panics,
  lookup, lookup-insert, lookup-erase, String, eq_iff, inl, inr, Panics-cases,
}
use flex_gpu_scheduler.Api.{Vendor, Pod, NodeInfo, Status, success}
use flex_gpu_scheduler.FlexGpu.Node.{
  new_gpu_node, mem_assume_fit_indexes, gpu_assume_fit_indexes, pod_resource_limit,
  gpu_resource_name, mem_resource_name, gpu_index_annotation_key,
}
use flex_gpu_scheduler.FlexGpu.Plugin.{filter, score, annotate, reserve, unreserve}
use flex_gpu_scheduler.FlexGpu.Table.{has_gpu, has_mem}
use flex_gpu_scheduler.FlexGpu.Rebuild.{
  gpu_allocatable, mem_allocatable, new_gpu_node_total, new_gpu_node_none,
}
use flex_gpu_scheduler.FlexGpu.Safety.{IsSafe}

module _ (v : Vendor) where
  open v use {Quantity, amount, itoa, as_int64, add, cmp, amount-add, cmp-amount}

  -- For a pod without limits, and a node whose count of allocatable GPUs is zero: Filter succeeds
  -- and Score panics.
  pub score-filter_panics :
      (info : NodeInfo Quantity) (pod : Pod Quantity)
      → has_gpu v pod ≡ false
      → has_mem v pod ≡ false
      → (as_int64 (gpu_allocatable v info)).0 ≡ pos 0
      → (filter v pod info ≡ returns success) × (score v (some info) pod ≡ panics)
  unfolding filter score
  score-filter_panics info pod no_gpu no_mem none_left =
      (ground arith, rw (new_gpu_node_none v info none_left))

  -- On a safe node with a positive count of GPUs and a total memory that is an int64, Reserve does
  -- not panic.
  pub reserve_total :
      (info : NodeInfo Quantity) (pod : Pod Quantity) (c : ℕ) (mem_cnt : ℤ)
      → as_int64 (gpu_allocatable v info) ≡ (pos (suc c), true)
      → as_int64 (mem_allocatable v info) ≡ (mem_cnt, true)
      → IsSafe v info
      → reserve v (some info) pod ≢ panics
  unfolding reserve
  reserve_total info pod c mem_cnt eg em safe e =
      let (n, built) =
        (new_gpu_node_total v info c mem_cnt eg em).0 (ground (arith, safe.ranged)) in
      ground arith

  annotate-lookup :
      (pod : Pod Quantity) (is : List ℕ) (key : String)
      → key ≢ gpu_index_annotation_key
      → lookup key (annotate v pod is).1.annotations ≡ lookup key pod.annotations
  unfolding annotate
  annotate-lookup pod [] key ne = refl
  annotate-lookup pod (i ∷ is) key ne = ground (
    arith,
    lookup-insert key gpu_index_annotation_key (itoa i) pod.annotations,
    eq_iff gpu_index_annotation_key key,
  )

  reserve-lookup :
      (info : NodeInfo Quantity) (pod pod' : Pod Quantity) (s : Status) (key : String)
      → reserve v (some info) pod ≡ returns (s, pod')
      → key ≢ gpu_index_annotation_key
      → lookup key pod'.annotations ≡ lookup key pod.annotations
  unfolding reserve
  reserve-lookup info pod pod' s key e ne = elim (Panics-cases (new_gpu_node v info)) [
    | inl panicked ↦ ground arith
    | inr (n, built) ↦ ground (
      arith,
      annotate-lookup pod
          (gpu_assume_fit_indexes v n (pod_resource_limit v gpu_resource_name pod).0) key ne,
      annotate-lookup pod
          (mem_assume_fit_indexes v n (pod_resource_limit v mem_resource_name pod).0).0 key ne,
    )
  ]

  -- After a Reserve that returns and Unreserve, a pod has no annotation with the GPU index, and
  -- every other annotation reads as before.
  pub unreserve-reserve :
      (info : NodeInfo Quantity) (pod pod' : Pod Quantity) (s : Status) (key : String)
      → reserve v (some info) pod ≡ returns (s, pod')
      → (lookup gpu_index_annotation_key (unreserve v pod').annotations ≡ none)
        × (key ≢ gpu_index_annotation_key
            → lookup key (unreserve v pod').annotations ≡ lookup key pod.annotations)
  unfolding unreserve
  unreserve-reserve info pod pod' s key e = (
    ground (
      arith,
      lookup-erase gpu_index_annotation_key gpu_index_annotation_key pod'.annotations,
      eq_iff gpu_index_annotation_key gpu_index_annotation_key,
    ),
    λ ne. ground (
      arith,
      lookup-erase key gpu_index_annotation_key pod'.annotations,
      eq_iff gpu_index_annotation_key key,
      reserve-lookup info pod pod' s key e ne,
    ),
  )
