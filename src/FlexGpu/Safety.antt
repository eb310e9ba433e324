-- ===== src/FlexGpu/Safety.antt =====
-- Reserve (flex_gpu.go) keeps the GPUs of a node safe, over any sequence of pods that it reserves a
-- GPU for and of pods that leave the node.
use mathlib.Core.List.{Mem, mem-cons_self}
use flex_gpu_scheduler.Prelude.{
  ℕ, ◌≤◌, ◌≡◌, ◌∙◌, sym, refl, ap, ℤ, pos, ◌+ℤ◌, ◌≤ℤ◌, quot_ℤ, pos_part, neg_part, int_laws,
  +ℤ-zero, Bool, true, false, ◌&&◌, ◌||◌, ltb, if◌then◌else◌, some, List, [], ◌∷◌, ◌++◌, arith,
  returns, >>=-eq-returns, subst, inl, inr, Bool-cases,
}
use flex_gpu_scheduler.Api.{Vendor, Pod, NodeInfo, success}
use flex_gpu_scheduler.FlexGpu.Node.{
  GpuNode, new_gpu_node, mem_assume_fit_indexes, gpu_assume_fit_indexes, pod_resource_limit,
  gpu_resource_name, mem_resource_name,
}
use flex_gpu_scheduler.FlexGpu.Plugin.{reserve, annotate}
use flex_gpu_scheduler.FlexGpu.Table.{
  mem_limit, has_gpu, has_mem, mem_on, gpu_on, used_on, monopolised, in_range,
}
use flex_gpu_scheduler.FlexGpu.Rebuild.{
  gpu_allocatable, mem_allocatable, all_in_range, IsRebuilt, new_gpu_node-IsRebuilt,
}
use flex_gpu_scheduler.FlexGpu.Fit.{mem_assume_fit_indexes-fit}
use flex_gpu_scheduler.FlexGpu.Free.{gpu_assume_fit_indexes-free}
use flex_gpu_scheduler.FlexGpu.Placement

module _ (v : Vendor) where
  open v use {Quantity, amount, as_int64, new_quantity}

  -- The number of GPUs of a node, and the memory of each, as NewGPUNode computes them.
  abbrev pub gpus_of : NodeInfo Quantity → ℤ
  gpus_of info = (as_int64 (gpu_allocatable v info)).0

  abbrev pub memory_of : NodeInfo Quantity → ℤ
  memory_of info =
      amount (new_quantity (quot_ℤ (as_int64 (mem_allocatable v info)).0 (gpus_of info)))

  pub each_memory-memory_of :
      (info : NodeInfo Quantity) (n : GpuNode Quantity)
      → IsRebuilt v info n
      → amount n.each_memory ≡ memory_of info
  each_memory-memory_of info n rebuilt = ap amount (
      rebuilt.shared
      ∙ ap
          (λ (count : ℤ × Bool).
            new_quantity (quot_ℤ (as_int64 (mem_allocatable v info)).0 count.0))
          (sym rebuilt.counted))

  -- No GPU has more memory in use than it has, a GPU that a pod holds for itself has no memory in
  -- use and no second holder, every index that counts is that of a GPU, and no limit is negative.
  pub record IsSafe (info : NodeInfo Quantity) : Type 0 where
    pub within : (i : ℕ) → used_on v i info.pods ≤ℤ memory_of info
    pub exclusive : (i : ℕ) → monopolised v i info.pods ≡ true → used_on v i info.pods ≡ pos 0
    pub single : (i : ℕ) → Placement.holders v i info.pods ≤ 1
    pub ranged : all_in_range v (pos_part (gpus_of info)) info.pods ≡ true
    pub nonneg : Placement.NonnegLimits v info.pods

  abbrev pub add_pod : NodeInfo Quantity → Pod Quantity → NodeInfo Quantity
  add_pod info pod = record info { pods = info.pods ++ pod ∷ [] }

  module _ (info : NodeInfo Quantity) (pod : Pod Quantity) (safe : IsSafe info)
      (limit : pos 0 ≤ℤ mem_limit v pod) where
    -- A pod may be added that asks nothing of the GPUs but what is free of one of them.
    add_pod-IsSafe :
        ((i : ℕ) → used_on v i info.pods +ℤ mem_on v i pod ≤ℤ memory_of info)
        → ((i : ℕ)
            → gpu_on v i pod ≡ true
            → (monopolised v i info.pods ≡ false)
              × (used_on v i info.pods ≡ pos 0)
              × (mem_on v i pod ≡ pos 0))
        → ((i : ℕ) → monopolised v i info.pods ≡ true → mem_on v i pod ≡ pos 0)
        → in_range v (pos_part (gpus_of info)) pod ≡ true
        → IsSafe (add_pod info pod)
    add_pod-IsSafe fits free clear ranged = record {
      within = λ i. rw (Placement.used_on-append v i pod info.pods) (fits i);
      exclusive = λ i e. rw (Placement.used_on-append v i pod info.pods) (
          ground (
            arith,
            Placement.monopolised-append v i pod info.pods,
            safe.exclusive i,
            clear i,
            free i,
            +ℤ-zero (pos 0),
          ));
      single = λ i. ground (
        arith,
        Placement.holders-append v i pod info.pods,
        safe.single i,
        free i,
        Placement.holders-monopolised v i info.pods,
      );
      ranged = Placement.all_in_range-append v _ pod info.pods safe.ranged ranged;
      nonneg = Placement.NonnegLimits-append v pod info.pods safe.nonneg limit;
    }

  -- A pod may leave: what it asked for is free again.
  remove_pod-IsSafe :
      (info : NodeInfo Quantity) (pod : Pod Quantity) (before after : List (Pod Quantity))
      → info.pods ≡ before ++ pod ∷ after
      → IsSafe info
      → IsSafe (record info { pods = before ++ after })
  remove_pod-IsSafe info pod before after e safe =
      let (nonneg, limit) =
        Placement.NonnegLimits-remove v pod before after (rw e at safe.nonneg) in
      record {
        within = λ i.
            let bound = rw (e, Placement.used_on-remove v i pod before after) at (safe.within i) in
            omega (int_laws, Placement.mem_on-nonneg v i pod limit);
        exclusive = λ i held.
            let none_used =
              rw (e, Placement.used_on-remove v i pod before after) at
                (safe.exclusive i
                  (rw e (Placement.monopolised-remove v i pod before after held))) in
            omega (
              int_laws,
              Placement.mem_on-nonneg v i pod limit,
              Placement.used_on-nonneg v i (before ++ after) nonneg,
              ap pos_part none_used,
              ap neg_part none_used,
            );
        single = λ i.
            let bound = rw (e, Placement.holders-remove v i pod before after) at (safe.single i) in
            omega arith;
        ranged = Placement.all_in_range-remove v _ pod before after (rw e at safe.ranged);
        nonneg = nonneg;
      }

  -- Reserve gives a pod a GPU that has room for it: the pod with its annotation may be added.
  module _ (info : NodeInfo Quantity) (pod : Pod Quantity) (safe : IsSafe info)
      (limit : pos 0 ≤ℤ mem_limit v pod) where
    annotated-IsSafe :
        (i : ℕ)
        → ltb i (pos_part (gpus_of info)) ≡ true
        → monopolised v i info.pods ≡ false
        → (has_mem v pod ≡ true
            → (has_gpu v pod ≡ false)
              × (used_on v i info.pods +ℤ mem_limit v pod ≤ℤ memory_of info))
        → (has_gpu v pod ≡ true → used_on v i info.pods ≡ pos 0)
        → IsSafe (add_pod info (Placement.annotated_pod v i pod))
    annotated-IsSafe i below open_gpu room empty =
        let pod' = Placement.annotated_pod v i pod in
        let mem = Placement.mem_on-annotated_pod v i pod in
        let gpu = Placement.gpu_on-annotated_pod v i pod in
        add_pod-IsSafe info pod' safe (rw (Placement.mem_limit-annotated_pod v i pod) limit)
          (λ j. rw (mem j) (ground (arith, room, safe.within j, +ℤ-zero (used_on v j info.pods))))
          (λ j e. rw (mem j) (ground (arith, gpu j, room, empty)))
          (λ j e. rw (mem j) (ground arith))
          (rw (Placement.in_range-annotated_pod v i pod _) (ground arith))

    unlimited-IsSafe : has_gpu v pod ≡ false → has_mem v pod ≡ false → IsSafe (add_pod info pod)
    unlimited-IsSafe no_gpu no_mem =
        let nothing : (i : ℕ) → mem_on v i pod ≡ pos 0 = λ i. ground arith in
        add_pod-IsSafe info pod safe limit
          (λ j. rw (nothing j, +ℤ-zero (used_on v j info.pods)) (safe.within j))
          (λ j e. ground arith) (λ j e. nothing j) (ground arith)

  annotate-success :
      (pod pod' : Pod Quantity) (is : List ℕ)
      → annotate v pod is ≡ (success, pod')
      → (i : ℕ) × Mem i is × (pod' ≡ Placement.annotated_pod v i pod)
  unfolding annotate
  annotate-success pod pod' [] e = cc
  annotate-success pod pod' (i ∷ is) e = (i, mem-cons_self, ground arith)

  module _ (info : NodeInfo Quantity) (pod pod' : Pod Quantity) (safe : IsSafe info)
      (limit : pos 0 ≤ℤ mem_limit v pod) (n : GpuNode Quantity) (rebuilt : IsRebuilt v info n) where
    gpu-IsSafe :
        has_mem v pod ≡ false
        → annotate v pod (gpu_assume_fit_indexes v n (pod_resource_limit v gpu_resource_name pod).0)
          ≡ (success, pod')
        → IsSafe (add_pod info pod')
    gpu-IsSafe no_mem e =
        let (i, found, same) = annotate-success pod pod' _ e in
        let free = gpu_assume_fit_indexes-free v n _ _ _ i rebuilt.table found in
        rw same (
          annotated-IsSafe info pod safe limit i (ground (arith, rebuilt.counted, rebuilt.sized))
            free.1 (λ h. cc) (λ _. free.2))

    mem-IsSafe :
        has_gpu v pod ≡ false
        → annotate v pod
            (mem_assume_fit_indexes v n (pod_resource_limit v mem_resource_name pod).0).0
          ≡ (success, pod')
        → IsSafe (add_pod info pod')
    mem-IsSafe no_gpu e =
        let (i, found, same) = annotate-success pod pod' _ e in
        let memory = each_memory-memory_of info n rebuilt in
        let fit =
          mem_assume_fit_indexes-fit v n _ _ _ i limit
            (Placement.Table-nonneg v info.pods _ n.gpus safe.nonneg rebuilt.table) rebuilt.table
            found in
        rw same (
          annotated-IsSafe info pod safe limit i (ground (arith, rebuilt.counted, rebuilt.sized))
            fit.1
            (λ _. (
              no_gpu,
              subst (λ each. used_on v i info.pods +ℤ mem_limit v pod ≤ℤ each) memory fit.2,
            ))
            (λ h. cc))

  -- A pod with a limit on memory that is not negative, for which Reserve succeeds on a safe node,
  -- may be added to the node with the annotation that it got: the node stays safe.
  pub reserve-IsSafe :
      (info : NodeInfo Quantity) (pod pod' : Pod Quantity)
      → pos 0 ≤ℤ mem_limit v pod
      → reserve v (some info) pod ≡ returns (success, pod')
      → IsSafe info
      → IsSafe (add_pod info pod')
  unfolding reserve
  reserve-IsSafe info pod pod' limit e safe = elim (Bool-cases (has_gpu v pod || has_mem v pod)) [
    | inl limited ↦ elim (Bool-cases (has_gpu v pod && has_mem v pod)) [
      | inl both ↦ ground arith
      | inr one ↦
          let (n, built, rest) =
            >>=-eq-returns (new_gpu_node v info)
              (λ node. returns (
                if has_gpu v pod
                then annotate v pod
                    (gpu_assume_fit_indexes v node (pod_resource_limit v gpu_resource_name pod).0)
                else annotate v pod
                    (mem_assume_fit_indexes v node
                      (pod_resource_limit v mem_resource_name pod).0).0))
              {b = (success, pod')} (ground arith) in
          let rebuilt = new_gpu_node-IsRebuilt v info n built in
          elim (Bool-cases (has_gpu v pod)) [
            | inl is_gpu ↦
                gpu-IsSafe info pod pod' safe limit n rebuilt (ground arith) (ground arith)
            | inr not_gpu ↦ mem-IsSafe info pod pod' safe limit n rebuilt not_gpu (ground arith)
          ]
    ]
    | inr free ↦
        let same : pod ≡ pod' = ground arith in
        rw (← same) (unlimited-IsSafe info pod safe limit (ground arith) (ground arith))
  ]

  -- What happens to a node between scheduling cycles: the scheduler adds a pod that Reserve
  -- succeeded for, or a pod leaves the node.
  pub data Step (info : NodeInfo Quantity) : NodeInfo Quantity → Type 0 where
    reserved :
        (pod pod' : Pod Quantity)
        → pos 0 ≤ℤ mem_limit v pod
        → reserve v (some info) pod ≡ returns (success, pod')
        → Step info (add_pod info pod')
    left :
        (pod : Pod Quantity) (before after : List (Pod Quantity))
        → info.pods ≡ before ++ pod ∷ after
        → Step info (record info { pods = before ++ after })

  pub data Reach (start : NodeInfo Quantity) : NodeInfo Quantity → Type 0 where
    here : Reach start start
    next : {info info' : NodeInfo Quantity} → Reach start info → Step info info' → Reach start info'

  Step-IsSafe : {info info' : NodeInfo Quantity} → Step info info' → IsSafe info → IsSafe info'
  Step-IsSafe {info} (reserved pod pod' limit e) safe = reserve-IsSafe info pod pod' limit e safe
  Step-IsSafe {info} (left pod before after e) safe = remove_pod-IsSafe info pod before after e safe

  empty-IsSafe : (info : NodeInfo Quantity) → info.pods ≡ [] → pos 0 ≤ℤ memory_of info → IsSafe info
  empty-IsSafe info e h = record {
    within = λ i. rw e h;
    exclusive = λ i held. rw e refl;
    single = λ i. rw e (omega arith);
    ranged = rw e refl;
    nonneg = rw e tt;
  }

  -- From a node with no pods, whose memory for each GPU is not negative, after any number of pods
  -- that Reserve succeeded for (with limits on memory that are not negative) and of pods that
  -- left: no GPU has more memory in use than it has, one that a pod holds for itself has no memory
  -- in use and one holder, and every index that counts is in range.
  pub Reach-IsSafe :
      {start info : NodeInfo Quantity}
      → start.pods ≡ []
      → pos 0 ≤ℤ memory_of start
      → Reach start info
      → IsSafe info
  Reach-IsSafe {start} e h here = empty-IsSafe start e h
  Reach-IsSafe e h (next r s) = Step-IsSafe s (Reach-IsSafe e h r)
