-- ===== src/FlexGpu/Rebuild.antt =====
-- NewGPUNode (gpu_node.go) as a whole: when it returns, and what table it returns.
use flex_gpu_scheduler.Prelude.{
  ℕ, zero, suc, ◌≡◌, ◌∙◌, refl, ℤ, pos, negsuc, quot_ℤ, zero-+ℤ, Bool, true, false, ◌&&◌, value_or,
  lookup, List, [], ◌∷◌, length, arith, returns, panics, >>=-eq-returns, inl, inr, Bool-cases,
}
use flex_gpu_scheduler.Api.{Vendor, Pod, NodeInfo}
use flex_gpu_scheduler.FlexGpu.Node.{
  gpu_resource_name, mem_resource_name, Gpu, GpuNode, int64_or_panic, divide, fresh_gpus, make_gpus,
  place_pods, new_gpu_node,
}
use flex_gpu_scheduler.FlexGpu.Table.{
  in_range, used_on, monopolised, Table, fresh_gpus-Table, length-fresh_gpus, place_pods-Table,
  place_pod_total, place_pod_out,
}

module _ (v : Vendor) where
  open v use {Quantity, zero_value, as_int64, new_quantity}

  abbrev pub gpu_allocatable : NodeInfo Quantity → Quantity
  gpu_allocatable info = value_or zero_value (lookup gpu_resource_name info.allocatable)

  abbrev pub mem_allocatable : NodeInfo Quantity → Quantity
  mem_allocatable info = value_or zero_value (lookup mem_resource_name info.allocatable)

  abbrev pub all_in_range : ℕ → List (Pod Quantity) → Bool
  all_in_range n [] = true
  all_in_range n (pod ∷ pods) = in_range v n pod && all_in_range n pods

  place_pods_total :
      (pods : List (Pod Quantity)) (us : List (Gpu Quantity))
      → all_in_range (length us) pods ≡ true
      → (us' : List (Gpu Quantity)) × (place_pods v us pods ≡ returns us')
  unfolding place_pods
  place_pods_total [] us h = (us, refl)
  place_pods_total (pod ∷ pods) us h =
      let (mid, e, len) = place_pod_total v us pod (ground arith) in
      let (us', e') = place_pods_total pods mid (rw len (ground arith)) in (us', rw e e')

  place_pods_out :
      (pods : List (Pod Quantity)) (us : List (Gpu Quantity))
      → all_in_range (length us) pods ≡ false
      → place_pods v us pods ≡ panics
  unfolding place_pods
  place_pods_out [] us h = cc
  place_pods_out (pod ∷ pods) us h = elim (Bool-cases (in_range v (length us) pod)) [
    | inl good ↦
        let (mid, e, len) = place_pod_total v us pod good in
        rw e (place_pods_out pods mid (rw len (ground arith)))
    | inr bad ↦ rw (place_pod_out v us pod bad)
  ]

  -- What a table that is returned holds: as many GPUs as the node has, each with its position for
  -- its index, the memory in use that the placed pods ask for, and a monopoly if one of them does.
  pub record IsRebuilt (info : NodeInfo Quantity) (n : GpuNode Quantity) : Type 0 where
    pub count : ℕ
    pub counted : as_int64 (gpu_allocatable info) ≡ (pos (suc count), true)
    pub sized : length n.gpus ≡ suc count
    pub shared :
        n.each_memory ≡ new_quantity (quot_ℤ (as_int64 (mem_allocatable info)).0 (pos (suc count)))
    pub table : Table v (λ i. used_on v i info.pods) (λ i. monopolised v i info.pods) n.gpus

  rebuilt :
      (info : NodeInfo Quantity) (n : GpuNode Quantity) (gpu_cnt mem_cnt each : ℤ)
      (fresh gpus : List (Gpu Quantity))
      → as_int64 (gpu_allocatable info) ≡ (gpu_cnt, true)
      → as_int64 (mem_allocatable info) ≡ (mem_cnt, true)
      → divide mem_cnt gpu_cnt ≡ returns each
      → make_gpus v gpu_cnt ≡ returns fresh
      → place_pods v fresh info.pods ≡ returns gpus
      → n.each_memory ≡ new_quantity each
      → n.gpus ≡ gpus
      → IsRebuilt info n
  unfolding divide make_gpus
  rebuilt info n (negsuc c) mem_cnt each fresh gpus eg em ed ef ep es eq = cc
  rebuilt info n (pos zero) mem_cnt each fresh gpus eg em ed ef ep es eq = cc
  rebuilt info n (pos (suc c)) mem_cnt each fresh gpus eg em ed ef ep es eq =
      let same : fresh_gpus v 0 (suc c) ≡ fresh = ground arith in
      let (len, t) =
        place_pods-Table v info.pods (λ _. pos 0) (λ _. false) fresh gpus ep
          (rw (← same) (λ i u g. ground (arith, fresh_gpus-Table v 0 (suc c) i u g))) in
      record {
        count = c;
        counted = eg;
        sized = rw eq (rw (← same) at len ∙ length-fresh_gpus v 0 (suc c));
        shared = rw em (ground arith);
        table = rw eq (λ i u g. ground (arith, t i u g, zero-+ℤ (used_on v i info.pods)));
      }

  int64_or_panic-eq : (r : ℤ × Bool) (n : ℤ) → int64_or_panic r ≡ returns n → r ≡ (n, true)
  int64_or_panic-eq (m, true) n e = ground arith
  int64_or_panic-eq (m, false) n e = cc

  -- NewGPUNode, where it returns, returns a table of as many GPUs as the node has, a positive
  -- number, each with its position for its index, the sum of the memory limits of the pods
  -- annotated with that index for its memory in use, and a monopoly exactly if one of those pods
  -- has a limit on GPUs; the shared memory is the total divided by the count.
  pub new_gpu_node-IsRebuilt :
      (info : NodeInfo Quantity) (n : GpuNode Quantity)
      → new_gpu_node v info ≡ returns n
      → IsRebuilt info n
  unfolding new_gpu_node
  new_gpu_node-IsRebuilt info n e =
      let (gpu_cnt, e1, k1) =
        >>=-eq-returns (int64_or_panic (as_int64 (gpu_allocatable info))) _ e in
      let (mem_cnt, e2, k2) =
        >>=-eq-returns (int64_or_panic (as_int64 (mem_allocatable info))) _ k1 in
      let (each, e3, k3) = >>=-eq-returns (divide mem_cnt gpu_cnt) _ k2 in
      let (fresh, e4, k4) = >>=-eq-returns (make_gpus v gpu_cnt) _ k3 in
      let (gpus, e5, k5) = >>=-eq-returns (place_pods v fresh info.pods) _ k4 in
      rebuilt info n gpu_cnt mem_cnt each fresh gpus (int64_or_panic-eq _ _ e1)
        (int64_or_panic-eq _ _ e2) e3 e4 e5 (ground arith) (ground arith)

  -- On a node with a positive count of GPUs and a total memory that is an int64, NewGPUNode
  -- returns if every annotated index of a pod with limits is in range, and panics otherwise.
  pub new_gpu_node_total :
      (info : NodeInfo Quantity) (c : ℕ) (mem_cnt : ℤ)
      → as_int64 (gpu_allocatable info) ≡ (pos (suc c), true)
      → as_int64 (mem_allocatable info) ≡ (mem_cnt, true)
      → (all_in_range (suc c) info.pods ≡ true
          → (n : GpuNode Quantity) × (new_gpu_node v info ≡ returns n))
        × (all_in_range (suc c) info.pods ≡ false → new_gpu_node v info ≡ panics)
  unfolding new_gpu_node divide make_gpus
  new_gpu_node_total info c mem_cnt eg em = (
    λ h.
        let (gpus, e) =
          place_pods_total info.pods (fresh_gpus v 0 (suc c))
            (rw (length-fresh_gpus v 0 (suc c)) h) in
        (
          record {
            gpu_count = gpu_allocatable info;
            memory_total = mem_allocatable info;
            each_memory = new_quantity (quot_ℤ mem_cnt (pos (suc c)));
            gpus = gpus;
          },
          rw (eg, em, e),
        ),
    λ h. rw (
      eg,
      em,
      place_pods_out info.pods (fresh_gpus v 0 (suc c)) (rw (length-fresh_gpus v 0 (suc c)) h),
    ),
  )

  -- A node that has no GPUs to allocate: the division by their count panics.
  pub new_gpu_node_none :
      (info : NodeInfo Quantity)
      → (as_int64 (gpu_allocatable info)).0 ≡ pos 0
      → new_gpu_node v info ≡ panics
  unfolding new_gpu_node divide
  new_gpu_node_none info e = ground arith
