-- ===== src/Lib.antt =====
-- The scheduler plugins of this repository, modelled from their Go sources, with proofs.
--
-- Parts:
--  * pkg/flexgpu: the plugin FlexGPU. FlexGpu.Node models gpu_node.go (the GPU table that NewGPUNode
--    rebuilds from the pods on a node, the searches MemAssumeFitIndexes and GPUAssumeFitIndexes, the
--    scores), FlexGpu.Plugin models flex_gpu.go (Filter, Score, NormalizeScore, Reserve, Unreserve,
--    Bind). FlexGpu.Table, Rebuild, Fit, Free, Placement, Safety, Searched, Admitted and Cycle hold
--    the proofs.
--  * pkg/coscheduling: gang scheduling. Coscheduling.Manager models core/core.go (PodGroupManager with
--    its two caches; GetPodGroup, CalculateAssignedPods, PreFilter, Permit, PostBind),
--    Coscheduling.Cluster its checks of the cluster's resources, Coscheduling.Plugin coscheduling.go
--    (Less, PreFilter, PostFilter, Permit, Unreserve), which calls the manager. Assigned, Gang,
--    Binding, Cover and Order hold the proofs.
--  * pkg/controller: Controller.PodGroupSync models podgroup.go, which moves the status of the pod
--    groups that the plugin reads and PostBind patches. Progress and Requeue hold the proofs.
--    Controller.ElasticQuotaSync models elasticquota.go, which stores the use of the elastic quotas;
--    QuotaSum and QuotaUse hold the proofs.
--  * pkg/preemptiontoleration: Toleration.Policy models preemption_toleration_policy.go and
--    ExemptedFromPreemption, Toleration.Node SelectVictimsOnNode, PodEligibleToPreemptOthers and
--    calculateNumCandidates of preemption_toleration.go. What its SelectVictimsOnNode shares with that
--    of capacity_scheduling.go is in Preemption: DryRun the closures removePod and addPod and the
--    loops, on a cycle state and a node that the vendored framework changes, Budgets
--    filterPodsWithPDBViolation. Exemption, Victims, Selected and Candidates, and Preemption.Charge and
--    Within hold the proofs, Preemption.Monotone what they ask of the vendored filters.
--  * pkg/capacityscheduling: elastic quotas. Capacity.Quota models elasticquota.go and
--    computePodResourceRequest, Capacity.Plugin the informer handlers, PreFilter with AddPod and
--    RemovePod, Reserve and Unreserve of capacity_scheduling.go, on a map from namespaces to quotas.
--    Each call is one step on the quotas. (The code takes the plugin's lock for that, but not for the
--    look-ups of addElasticQuota and of the nominated pods' quotas in PreFilter.) Wrap, Dimensions,
--    Accounting, Books, Events and Admission hold the proofs. Capacity.Preemptor models
--    PodEligibleToPreemptOthers and SelectVictimsOnNode, on the quotas of the snapshot in the cycle
--    state; Capacity.Victims and Selected hold the proofs.
--  * pkg/qos and pkg/podstate: Qos models Less of queue_sort.go, PodState the score and
--    NormalizeScore of pod_state.go, with their proofs.
--  * pkg/noderesources: NodeResources.Allocatable models allocatable.go and resource_allocation.go;
--    Weighted and Scores hold the proofs.
--  * pkg/noderesourcetopology: Numa.Filter models filter.go, and of pluginhelpers.go and plugin.go the
--    list of NUMA nodes and the map of handlers; Fitting, Aligned and Repeated hold the proofs. The
--    kubelet's bit masks are a record of operations and laws. Its score is not modelled.
--  * PodGroups models the pod group types of apis/scheduling/v1alpha1/types.go and
--    pkg/util/podgroup.go; Resources models pkg/util/resource.go.
-- Prelude holds shared names and lemmas, Api the objects and vendored functions that the plugins are
-- given, Samples a concrete stand-in for the vendored functions.
--
-- How the model reads the code:
--  * A function of the code is a function here, under its name in snake case. A call that may panic
--    has a result in `Panics`. A pointer that a call writes through is an argument and a result.
--  * gpu_node.go gives all GPUs of a node one pointer `memory`: the quantity behind it is one field of
--    GpuNode, and MemAssumeFitIndexes, which writes through it while it looks, returns the node that
--    it leaves.
--  * The vendored Kubernetes packages and Go's standard library are not modelled. What the code uses of
--    them is a field of Api.Vendor or Api.CacheOps with the documented laws that the proofs rest on:
--    quantities stand for integers, sort.Slice permutes, strconv.Atoi reads what strconv.Itoa prints,
--    a cache keeps an added key for its duration. The methods of framework.Resource are fields of
--    Capacity.Quota's record Framework. What the listers, the scheduler's snapshot and the API server
--    answer is an argument of the operations: a World of the manager, a Cluster of the controller.
--  * An int32 or int64 result of arithmetic is an integer that to_int32 or to_int64 wraps around. The
--    division of float32 numbers in PostFilter is a parameter, that is assumed to tell a tenth.
--  * Loops over slices are recursions on lists, so no fuel is needed. Maps are association lists.
--  * Log lines and the texts of statuses and errors are left out.
--
-- Not modelled: the score of node resource topology, the other plugins (trimaran; cross-node preemption
-- is commented out in its source), and the start-up and informer wiring, generated clients and vendored packages, which have no logic of
-- the plugins' own.
pub mod Prelude
pub mod Api
pub mod Samples
pub mod PodGroups
pub mod Resources
pub mod FlexGpu
pub mod Coscheduling
pub mod Controller
pub mod Capacity
pub mod Preemption
pub mod Toleration
pub mod NodeResources
pub mod Numa
pub mod Qos
pub mod PodState
