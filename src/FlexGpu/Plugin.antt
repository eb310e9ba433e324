-- ===== src/FlexGpu/Plugin.antt =====
-- pkg/flexgpu/flex_gpu.go: the extension points of the plugin FlexGPU. A node that the snapshot
-- does not have is `none`. Log lines are left out.
use flex_gpu_scheduler.Prelude.{
  ℕ, ℤ, pos, Bool, true, false, not, ◌&&◌, if◌then◌else◌, Ordering, String, Map, lookup, insert,
  erase, Option, none, some, List, [], ◌∷◌, Panics, returns, ◌>>=◌,
}
use flex_gpu_scheduler.Api.{
  Vendor, Pod, NodeInfo, Status, success, error, unschedulable, unschedulable_and_unresolvable,
}
use flex_gpu_scheduler.FlexGpu.Node.{
  gpu_resource_name, mem_resource_name, gpu_index_annotation_key, pod_resource_limit, new_gpu_node,
  mem_assume_fit_indexes, gpu_assume_fit_indexes, gpu_score, mem_score,
}

-- `x.Cmp(y) > 0`
abbrev pub above : Ordering → Bool
above o = elim o [ Ordering.gt ↦ true | _ ↦ false ]

-- A v1.Binding, with the fields that Bind fills in.
pub record Binding : Type 0 where
  pub namespace : String
  pub name : String
  pub annotations : Map String
  pub target : String

module _ (v : Vendor) where
  open v use {Quantity, new_quantity, add, cmp, itoa}

  -- The loop of nodeResourceLimitSum.
  unfoldable pub sum_pod_limits : String → List (Pod Quantity) → Quantity → Quantity
  sum_pod_limits name [] sum = sum
  sum_pod_limits name (pod ∷ pods) sum =
      sum_pod_limits name pods (add sum (pod_resource_limit v name pod).0)

  -- nodeResourceLimitSum
  unfoldable pub node_resource_limit_sum : String → NodeInfo Quantity → Quantity
  node_resource_limit_sum name info = sum_pod_limits name info.pods (new_quantity (pos 0))

  -- The end of Filter: the search for a GPU, for a pod with a limit on memory.
  unfoldable pub filter_gpus : NodeInfo Quantity → Quantity × Bool → Panics Status
  filter_gpus info (mem_limit, mem_exist) = do
    node ← new_gpu_node v info
    returns (
        if mem_exist
        then elim (mem_assume_fit_indexes v node mem_limit).0 [ [] ↦ unschedulable | _ ↦ success ]
        else success)

  -- The middle of Filter: the node's totals with the pod, against what is allocatable.
  unfoldable pub filter_totals :
      NodeInfo Quantity → Quantity → Quantity × Bool → Quantity → Quantity → Panics Status
  filter_totals info gpu_limit (mem_limit, mem_exist) gpu_allocatable mem_allocatable =
      let gpu_assumed = add (node_resource_limit_sum gpu_resource_name info) gpu_limit in
      let mem_assumed = add (node_resource_limit_sum mem_resource_name info) mem_limit in
      if above (cmp gpu_assumed gpu_allocatable)
      then returns unschedulable
      else if above (cmp mem_assumed mem_allocatable)
      then returns unschedulable
      else filter_gpus info (mem_limit, mem_exist)

  -- (*FlexGPU).Filter
  unfoldable pub filter : Pod Quantity → NodeInfo Quantity → Panics Status
  filter pod info =
      let (gpu_limit, gpu_exist) = pod_resource_limit v gpu_resource_name pod in
      let (mem_limit, mem_exist) = pod_resource_limit v mem_resource_name pod in
      if not gpu_exist && not mem_exist
      then returns success
      else if gpu_exist && mem_exist
      then returns unschedulable_and_unresolvable
      else elim (lookup gpu_resource_name info.allocatable) [
        | none ↦ returns unschedulable_and_unresolvable
        | some gpu_allocatable ↦ elim (lookup mem_resource_name info.allocatable) [
          | none ↦ returns unschedulable_and_unresolvable
          | some mem_allocatable ↦
              filter_totals info gpu_limit (mem_limit, mem_exist) gpu_allocatable mem_allocatable
        ]
      ]

  -- (*FlexGPU).Score: the table is built before the limits are looked at.
  unfoldable pub score : Option (NodeInfo Quantity) → Pod Quantity → Panics (ℤ × Status)
  score none pod = returns (pos 0, error)
  score (some info) pod = do
    node ← new_gpu_node v info
    let gpu_exist = (pod_resource_limit v gpu_resource_name pod).1
    let mem_exist = (pod_resource_limit v mem_resource_name pod).1
    returns (
        if not gpu_exist && not mem_exist
        then (pos 0, success)
        else if gpu_exist
        then (gpu_score v node, success)
        else if mem_exist
        then (mem_score v node, success)
        else (pos 0, success))

  -- (*FlexGPU).NormalizeScore: `default_normalize_score` is the framework's helper, which is called
  -- with the highest score and `reverse` set.
  unfoldable pub normalize_score :
      (ℤ → Bool → List (String × ℤ) → List (String × ℤ))
      → ℤ
      → List (String × ℤ)
      → List (String × ℤ) × Status
  normalize_score default_normalize_score max_node_score scores =
      (default_normalize_score max_node_score true scores, success)

  -- `p.Annotations[GPUIndexAnnotationKey] = strconv.Itoa(indexes[0])`, or a failed allocation.
  unfoldable pub annotate : Pod Quantity → List ℕ → Status × Pod Quantity
  annotate pod [] = (unschedulable, pod)
  annotate pod (index ∷ _) = (
    success,
    record pod { annotations = insert gpu_index_annotation_key (itoa index) pod.annotations },
  )

  -- (*FlexGPU).Reserve, with the pod that it leaves.
  unfoldable pub reserve :
      Option (NodeInfo Quantity) → Pod Quantity → Panics (Status × Pod Quantity)
  reserve none pod = returns (error, pod)
  reserve (some info) pod =
      let (gpu_limit, gpu_exist) = pod_resource_limit v gpu_resource_name pod in
      let (mem_limit, mem_exist) = pod_resource_limit v mem_resource_name pod in
      if not gpu_exist && not mem_exist
      then returns (success, pod)
      else if gpu_exist && mem_exist
      then returns (unschedulable_and_unresolvable, pod)
      else do
        node ← new_gpu_node v info
        returns (
            if gpu_exist
            then annotate pod (gpu_assume_fit_indexes v node gpu_limit)
            else annotate pod (mem_assume_fit_indexes v node mem_limit).0)

  -- (*FlexGPU).Unreserve, with the pod that it leaves.
  unfoldable pub unreserve : Pod Quantity → Pod Quantity
  unreserve pod = record pod { annotations = erase gpu_index_annotation_key pod.annotations }

  -- (*FlexGPU).Bind: `bind_pod` is the API server's answer to a binding, `false` for an error.
  unfoldable pub bind : (Binding → Bool) → Pod Quantity → String → Status
  bind bind_pod pod node_name =
      let binding : Binding = record {
        namespace = pod.namespace;
        name = pod.name;
        annotations = pod.annotations;
        target = node_name;
      } in
      if bind_pod binding then success else error
