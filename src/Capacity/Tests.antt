-- ===== src/Capacity/Tests.antt =====
-- Capacity scheduling at concrete pods and quotas.
use flex_gpu_scheduler.Prelude.{
  ◌≡◌, refl, ℤ, pos, ◌+ℤ◌, ◌≤ℤ◌, String, str_eq, if◌then◌else◌, Map, lookup, insert, Option, none,
  some, true, List, [], ◌∷◌, lookup-insert,
}
use flex_gpu_scheduler.Prelude.Int
use flex_gpu_scheduler.Prelude.Maps
use flex_gpu_scheduler.Api.{success}
use flex_gpu_scheduler.Samples.{sample_vendor}
use flex_gpu_scheduler.Resources
use flex_gpu_scheduler.Resources.{Resource, resource_list}
use flex_gpu_scheduler.PodGroups
use flex_gpu_scheduler.PodGroups.{pod_running, to_int64}
use flex_gpu_scheduler.Capacity.Quota
use flex_gpu_scheduler.Capacity.Quota.{
  Pod, Framework, ElasticQuotaInfo, empty_resource, compute_pod_resource_request,
}
use flex_gpu_scheduler.Capacity.Plugin
use flex_gpu_scheduler.Capacity.Plugin.{ElasticQuota, reserve, unreserve}
use flex_gpu_scheduler.Capacity.Wrap.{IsInt64}
use flex_gpu_scheduler.Capacity.Dimensions.{Dimension, read}
use flex_gpu_scheduler.Capacity.Accounting.{IsAccounted}
use flex_gpu_scheduler.Capacity.Books.{
  Event, quota_added, pod_added, pod_reserved, pod_deleted, handle_all,
}
use flex_gpu_scheduler.Capacity.Events.{events-IsAccounted}
use flex_gpu_scheduler.Capacity.Admission.{reserve-pre_filter, unreserve-reserve_quota}

-- A sum with what a list has of a resource.
abbrev pub plus : ℤ → Option ℤ → ℤ
plus n none = n
plus n (some q) = to_int64 (n +ℤ q)

pub plus_cases :
    (n : ℤ) (o : Option ℤ) → plus n o ≡ elim o [ none ↦ n | some q ↦ to_int64 (n +ℤ q) ]
plus_cases n none = refl
plus_cases n (some q) = refl

abbrev pub sample_framework : Framework sample_vendor
sample_framework = record {
  milli_value = λ n. n;
  value = λ n. n;
  add_list = λ r rl. record r {
    milli_cpu = plus r.milli_cpu (lookup "cpu" rl);
    memory = plus r.memory (lookup "memory" rl);
  };
  set_scalar = λ r name n. record r { scalar_resources = insert name n r.scalar_resources };
  set_max_resource = λ r rl. r;
  pod_key = λ pod. if str_eq pod.uid "" then none else some pod.uid;
  pod_overhead_enabled = true;
  milli_value-new = λ n. refl;
  value-new = λ n. refl;
  add_list-milli_cpu = λ r rl. plus_cases r.milli_cpu (lookup "cpu" rl);
  add_list-memory = λ r rl. plus_cases r.memory (lookup "memory" rl);
  set_scalar-scalar_resources = λ r j name n. lookup-insert j name n r.scalar_resources;
  set_scalar_others = λ r name n. (refl, refl);
}

abbrev small_pod : String → Pod ℤ
small_pod uid = record {
  namespace = "ns";
  uid = uid;
  priority = pos 0;
  phase = pod_running;
  containers = (("cpu", pos 3) ∷ ("memory", pos 4) ∷ []) ∷ [];
  init_containers = [];
  overhead = none;
}

abbrev quota : ElasticQuota ℤ
quota = record {
  namespace = "ns";
  min = ("cpu", pos 10) ∷ ("memory", pos 10) ∷ [];
  max = ("cpu", pos 20) ∷ ("memory", pos 20) ∷ [];
}

abbrev amounts : ℤ → ℤ → Resource
amounts c m = record empty_resource { milli_cpu = c; memory = m }

abbrev info : Map {0} Unit → ℤ → ℤ → ElasticQuotaInfo
info pods c m = record {
  namespace = "ns";
  pods = pods;
  min = amounts (pos 10) (pos 10);
  max = amounts (pos 20) (pos 20);
  used = amounts c m;
}

-- Two pods come, one twice, and one leaves.
abbrev history : List (Event ℤ)
history =
    quota_added quota
    ∷ pod_reserved (small_pod "a")
    ∷ pod_added none (small_pod "a")
    ∷ pod_added none (small_pod "b")
    ∷ pod_deleted (small_pod "a")
    ∷ []

abbrev request_of_all : String → Resource
request_of_all key = amounts (pos 3) (pos 4)

small_pod-request :
    (uid : String)
    → compute_pod_resource_request sample_vendor sample_framework (small_pod uid)
      ≡ amounts (pos 3) (pos 4)
unfolding Quota.compute_pod_resource_request Quota.add_all Quota.max_all Maps.lookup
    PodGroups.to_int64 Int.◌+ℤ◌
small_pod-request uid = refl

history-run :
    lookup "ns" (handle_all sample_vendor sample_framework request_of_all [] history)
    ≡ some (info (("b", tt) ∷ []) (pos 3) (pos 4))
unfolding Quota.compute_pod_resource_request Quota.add_all Quota.max_all Maps.lookup Maps.insert
    Maps.erase PodGroups.to_int64 Int.◌+ℤ◌ Int.◌-ℤ◌ Plugin.add_elastic_quota
    Plugin.new_elastic_quota_info Plugin.reserve Plugin.add_pod Plugin.delete_pod Plugin.on_quota
    Quota.add_pod_if_not_present Quota.delete_pod_if_present Quota.reserve_resource
    Quota.unreserve_resource Quota.change_scalars
history-run = refl

events-IsAccounted_example : IsAccounted request_of_all (info (("b", tt) ∷ []) (pos 3) (pos 4))
events-IsAccounted_example =
    events-IsAccounted sample_vendor sample_framework request_of_all history "ns"
      (info (("b", tt) ∷ []) (pos 3) (pos 4))
      (
        tt,
        (
          λ key e. small_pod-request "a",
          (
            λ key e. small_pod-request "a",
            (λ key e. small_pod-request "b", (λ key e. small_pod-request "a", tt)),
          ),
        ),
      )
      history-run

abbrev one_quota : Map ElasticQuotaInfo
one_quota = ("ns", info [] (pos 0) (pos 0)) ∷ []

admitted_small :
    (Plugin.pre_filter sample_vendor sample_framework one_quota (some []) (small_pod "a")).0
    ≡ success
unfolding Plugin.pre_filter Plugin.add_all_nominated Quota.used_over_max_with Quota.cmp2
    Quota.scalars_over Quota.aggregated_used_over_min_with Quota.aggregate Quota.cmp_resource
    Resources.resource_list Resources.scalar_list Quota.compute_pod_resource_request Quota.add_all
    Quota.max_all Maps.lookup PodGroups.to_int64 Int.◌+ℤ◌
admitted_small = refl

reserve-pre_filter_example :
    (e' : ElasticQuotaInfo) × (reserve sample_vendor sample_framework one_quota (small_pod "a")
      ≡ (insert "ns" e' one_quota, success))
    × (e'.used.milli_cpu ≤ℤ pos 20)
    × (e'.used.memory ≤ℤ pos 20)
unfolding Maps.lookup Quota.compute_pod_resource_request Quota.add_all Quota.max_all
reserve-pre_filter_example =
    reserve-pre_filter sample_vendor sample_framework one_quota (small_pod "a")
      (info [] (pos 0) (pos 0)) refl "a" refl refl admitted_small refl refl

unreserve-reserve_quota_example :
    (e' : ElasticQuotaInfo) × (lookup "ns" (
        unreserve sample_vendor sample_framework
          (reserve sample_vendor sample_framework one_quota (small_pod "a")).0
          (small_pod "a"))
      ≡ some e')
    × ((d : Dimension)
        → IsInt64 (read d (amounts (pos 0) (pos 0)))
        → read d e'.used ≡ read d (amounts (pos 0) (pos 0)))
    × ((other : String) → lookup other e'.pods ≡ lookup {V = Unit {0}} other [])
unfolding Maps.lookup
unreserve-reserve_quota_example =
    unreserve-reserve_quota sample_vendor sample_framework one_quota (small_pod "a")
      (info [] (pos 0) (pos 0)) refl "a" refl refl
