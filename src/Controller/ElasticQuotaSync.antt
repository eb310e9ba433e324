-- ===== src/Controller/ElasticQuotaSync.antt =====
-- pkg/controller/elasticquota.go: which quotas are queued, and what syncHandler stores as the use of
-- one. The queue, the listers and the API server are the vendored packages'; what they answer is
-- an argument.
use flex_gpu_scheduler.Prelude.{
  ◌≡◌, pos, Bool, true, false, if◌then◌else◌, not, str_eq, String, Map, lookup, insert, Option,
  none, some, List, [], ◌∷◌, ◌++◌, Ordering, Panics, returns, panics,
}
use flex_gpu_scheduler.Api.{Vendor}
use flex_gpu_scheduler.PodGroups.{PodPhase, pod_running}
use flex_gpu_scheduler.Controller.PodGroupSync.{Found, found, not_found, get_failed}

-- An ElasticQuota: the bounds of its spec and the use in its status.
pub record ElasticQuota (Quantity : Type 0) : Type 0 where
  pub namespace : String
  pub name : String
  pub min : Map Quantity
  pub max : Map Quantity
  pub used : Map Quantity

-- A v1.Pod.
pub record Pod (Quantity : Type 0) : Type 0 where
  pub namespace : String
  pub resource_version : String
  pub phase : PodPhase
  pub containers : List (Map Quantity)
  pub init_containers : List (Map Quantity)
  pub overhead : Option (Map Quantity)

-- An object that an event has: of the informer's type, or the tombstone of a deleted one.
pub data EventObject (A : Type 0) : Type 0 where
  object : A → EventObject A
  deleted_final_state_unknown : String → EventObject A

-- Add and Max of k8s.io/apiserver/pkg/quota/v1, and the equality of statuses.
pub record QuotaOps (v : Vendor) : Type 0 where
  pub add_lists : Map v.Quantity → Map v.Quantity → Map v.Quantity
  pub max_lists : Map v.Quantity → Map v.Quantity → Map v.Quantity
  -- apiequality.Semantic.DeepEqual
  pub semantic_equal : Map v.Quantity → Map v.Quantity → Bool
  pub lookup-add_lists :
      (name : String) (a b : Map v.Quantity)
      → lookup name (add_lists a b) ≡ elim (lookup name a) [
        | none ↦ lookup name b
        | some p ↦ elim (lookup name b) [ none ↦ some p | some q ↦ some (v.add p q) ]
      ]
  pub lookup-max_lists :
      (name : String) (a b : Map v.Quantity)
      → lookup name (max_lists a b) ≡ elim (lookup name a) [
        | none ↦ lookup name b
        | some p ↦ elim (lookup name b) [
          | none ↦ some p
          | some q ↦ some (elim (v.cmp p q) [ Ordering.lt ↦ q | _ ↦ p ])
        ]
      ]
  pub semantic_equal-refl : (a : Map v.Quantity) → semantic_equal a a ≡ true

-- What a call of syncHandler comes to: whether it returns an error, and the use that it stores.
pub record Outcome (Quantity : Type 0) : Type 0 where
  pub is_error : Bool
  pub stored : Option (Map Quantity)

-- The cluster, as far as a call sees it: the listers, and whether CreateMergePatch and the API
-- server's Patch succeed. The pods of a namespace may fail to be listed.
pub record Cluster (Quantity : Type 0) : Type 0 where
  pub get_quota : String → String → Found (ElasticQuota Quantity)
  pub list_quotas : String → Option (List (ElasticQuota Quantity))
  pub list_pods : String → Option (List (Pod Quantity))
  pub create_merge_patch : ElasticQuota Quantity → ElasticQuota Quantity → Bool
  pub patch : String → String → Bool

module _ (v : Vendor) (ops : QuotaOps v) where
  open v use {Quantity, new_quantity}
  open ops use {add_lists, max_lists, semantic_equal}

  unfoldable pub add_requests : Map Quantity → List (Map Quantity) → Map Quantity
  add_requests result [] = result
  add_requests result (requests ∷ rest) = add_requests (add_lists result requests) rest

  unfoldable pub max_requests : Map Quantity → List (Map Quantity) → Map Quantity
  max_requests init_res [] = init_res
  max_requests init_res (requests ∷ rest) = max_requests (max_lists init_res requests) rest

  -- computePodResourceRequest: the sum with the overhead is given up.
  unfoldable pub compute_pod_resource_request : Pod Quantity → Map Quantity
  compute_pod_resource_request pod =
      max_lists (add_requests [] pod.containers) (max_requests [] pod.init_containers)

  unfoldable pub zero_all : Map Quantity → Map Quantity → Map Quantity
  zero_all [] res = res
  zero_all ((name, _) ∷ rest) res = zero_all rest (insert name (new_quantity (pos 0)) res)

  -- newZeroUsed
  unfoldable pub new_zero_used : ElasticQuota Quantity → Map Quantity
  new_zero_used eq = zero_all eq.max (zero_all eq.min [])

  abbrev pub is_running : PodPhase → Bool
  is_running phase = elim phase [ pod_running ↦ true | _ ↦ false ]

  -- The loop over the pods.
  unfoldable pub add_running : Map Quantity → List (Pod Quantity) → Map Quantity
  add_running used [] = used
  add_running used (p ∷ pods) =
      let used' =
        if is_running p.phase then add_lists used (compute_pod_resource_request p) else used in
      add_running used' pods

  -- computeElasticQuotaUsed, on the pods that the lister gives for the namespace
  unfoldable pub compute_elastic_quota_used :
      Option (List (Pod Quantity)) → ElasticQuota Quantity → Option (Map Quantity)
  compute_elastic_quota_used none eq = none
  compute_elastic_quota_used (some pods) eq = some (add_running (new_zero_used eq) pods)

  -- syncHandler
  unfoldable pub sync_handler : Cluster Quantity → String → String → Outcome Quantity
  sync_handler c namespace name =
      let done : Outcome Quantity = record { is_error = false; stored = none } in
      let error : Outcome Quantity = record { is_error = true; stored = none } in
      elim (c.get_quota namespace name) [
        | not_found ↦ done
        | get_failed ↦ error
        | found eq ↦ elim (compute_elastic_quota_used (c.list_pods namespace) eq) [
          | none ↦ error
          | some used ↦
              let new_eq : ElasticQuota Quantity = record eq { used = used } in
              if semantic_equal used eq.used
              then done
              else if not (c.create_merge_patch eq new_eq)
              then error
              else if c.patch namespace eq.name
              then record { is_error = false; stored = some used }
              else error
        ]
      ]

  -- processNextWorkItem, on the keys in the queue: the keys that it leaves, and what is stored for
  -- which key. Whatever syncHandler returns, the key is not queued again.
  unfoldable pub process_next_work_item :
      Cluster Quantity
      → List (String × String)
      → List (String × String) × List ((String × String) × Map Quantity)
  process_next_work_item c [] = ([], [])
  process_next_work_item c (key ∷ keys) =
      let outcome = sync_handler c key.0 key.1 in
      elim outcome.stored [ none ↦ (keys, []) | some used ↦ (keys, (key, used) ∷ []) ]

  -- eqAdded, and eqUpdated with the new object: the key is queued.
  unfoldable pub eq_added : ElasticQuota Quantity → List (String × String) → List (String × String)
  eq_added eq keys = keys ++ (eq.namespace, eq.name) ∷ []

  -- podAdded, whose cast panics for a tombstone
  unfoldable pub pod_added :
      Cluster Quantity
      → EventObject (Pod Quantity)
      → List (String × String)
      → Panics (List (String × String))
  pod_added c (deleted_final_state_unknown key) keys = panics
  pod_added c (object pod) keys = elim (c.list_quotas pod.namespace) [
    | none ↦ returns keys
    | some quotas ↦ elim quotas [ [] ↦ returns keys | eq ∷ _ ↦ returns (eq_added eq keys) ]
  ]

  -- podUpdated
  unfoldable pub pod_updated :
      Cluster Quantity
      → Pod Quantity
      → Pod Quantity
      → List (String × String)
      → Panics (List (String × String))
  pod_updated c old_pod new_pod keys =
      if str_eq new_pod.resource_version old_pod.resource_version
      then returns keys
      else pod_added c (object new_pod) keys

  -- podDeleted: the key is made, and the object handed on.
  unfoldable pub pod_deleted :
      Cluster Quantity
      → EventObject (Pod Quantity)
      → List (String × String)
      → Panics (List (String × String))
  pod_deleted c obj keys = pod_added c obj keys
