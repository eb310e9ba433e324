-- ===== src/Controller/QuotaTests.antt =====
-- The elastic quota controller at a concrete quota.

use flex_gpu_scheduler.Prelude.{
  ◌≡◌, refl, Ordering, ℤ, pos, ◌+ℤ◌, true, false, String, Map, insert, lookup-insert, eq_iff, arith,
  str_eq, Option, value_or, none, some, List, [], ◌∷◌, Bool-cases, Option-cases, inl, inr, ap,
}
use flex_gpu_scheduler.Prelude.Int
use flex_gpu_scheduler.Prelude.Int.{compare_ℤ}
use flex_gpu_scheduler.Prelude.Maps
use flex_gpu_scheduler.Prelude.Maps.{lookup}
use flex_gpu_scheduler.Samples.{sample_vendor}
use flex_gpu_scheduler.PodGroups.{pod_running}
use flex_gpu_scheduler.Controller.PodGroupSync.{found, same_ℤ}
use flex_gpu_scheduler.Controller.ElasticQuotaSync
use flex_gpu_scheduler.Controller.ElasticQuotaSync.{
  ElasticQuota, Pod, QuotaOps, Cluster, compute_elastic_quota_used, sync_handler,
}
use flex_gpu_scheduler.Controller.QuotaSum.{
  IsNonneg, amount_of, running_sum, compute_elastic_quota_used-running_sum,
}
use flex_gpu_scheduler.Controller.QuotaUse.{use_after, work, sync_handler-use_after, work-unlisted}

abbrev plus_entry : ℤ → Option ℤ → ℤ
plus_entry n none = n
plus_entry n (some m) = m +ℤ n

abbrev plus_lists : Map ℤ → Map ℤ → Map ℤ
plus_lists a [] = a
plus_lists a ((name, n) ∷ b) =
    let rest = plus_lists a b in insert name (plus_entry n (lookup name a)) rest

lookup-plus_lists :
    (name : String) (a b : Map ℤ)
    → lookup name (plus_lists a b) ≡ elim (lookup name a) [
      | none ↦ lookup name b
      | some p ↦ elim (lookup name b) [ none ↦ some p | some q ↦ some (p +ℤ q) ]
    ]
unfolding lookup
lookup-plus_lists name a [] = elim (Option-cases (lookup name a)) [
  | inl missing ↦ ground arith
  | inr (p, has) ↦ ground arith
]
lookup-plus_lists name a ((j, n) ∷ b) =
    let put = lookup-insert name j (plus_entry n (lookup j a)) (plus_lists a b) in
    let rest = lookup-plus_lists name a b in
    elim (Bool-cases (str_eq j name)) [
      | inl same ↦
          let there : lookup j a ≡ lookup name a = ap (λ k. lookup k a) ((eq_iff j name).0 same) in
          elim (Option-cases (lookup name a)) [
            | inl missing ↦ ground arith
            | inr (p, has) ↦ ground arith
          ]
      | inr differ ↦ ground arith
    ]

abbrev larger_entry : ℤ → Option ℤ → ℤ
larger_entry n none = n
larger_entry n (some m) = elim (compare_ℤ m n) [ Ordering.lt ↦ n | _ ↦ m ]

abbrev largest_lists : Map ℤ → Map ℤ → Map ℤ
largest_lists a [] = a
largest_lists a ((name, n) ∷ b) =
    let rest = largest_lists a b in insert name (larger_entry n (lookup name a)) rest

lookup-largest_lists :
    (name : String) (a b : Map ℤ)
    → lookup name (largest_lists a b) ≡ elim (lookup name a) [
      | none ↦ lookup name b
      | some p ↦ elim (lookup name b) [
        | none ↦ some p
        | some q ↦ some (elim (compare_ℤ p q) [ Ordering.lt ↦ q | _ ↦ p ])
      ]
    ]
unfolding lookup
lookup-largest_lists name a [] = elim (Option-cases (lookup name a)) [
  | inl missing ↦ ground arith
  | inr (p, has) ↦ ground arith
]
lookup-largest_lists name a ((j, n) ∷ b) =
    let put = lookup-insert name j (larger_entry n (lookup j a)) (largest_lists a b) in
    let rest = lookup-largest_lists name a b in
    elim (Bool-cases (str_eq j name)) [
      | inl same ↦
          let there : lookup j a ≡ lookup name a = ap (λ k. lookup k a) ((eq_iff j name).0 same) in
          elim (Option-cases (lookup name a)) [
            | inl missing ↦ ground arith
            | inr (p, has) ↦ ground arith
          ]
      | inr differ ↦ ground arith
    ]

abbrev cpu : Map ℤ → ℤ
cpu m = value_or (pos 0) (lookup "cpu" m)

same_cpu_refl : (a : Map ℤ) → same_ℤ (cpu a) (cpu a) ≡ true
same_cpu_refl a = ground arith

abbrev sample_ops : QuotaOps sample_vendor
sample_ops = record {
  add_lists = plus_lists;
  max_lists = largest_lists;
  semantic_equal = λ a b. same_ℤ (cpu a) (cpu b);
  lookup-add_lists = lookup-plus_lists;
  lookup-max_lists = lookup-largest_lists;
  semantic_equal-refl = same_cpu_refl;
}

abbrev running_pod : ℤ → Pod ℤ
running_pod n = record {
  namespace = "ns";
  resource_version = "1";
  phase = pod_running;
  containers = (("cpu", n) ∷ []) ∷ [];
  init_containers = [];
  overhead = some (("cpu", pos 7) ∷ []);
}

abbrev quota : ElasticQuota ℤ
quota = record { namespace = "ns"; name = "eq"; min = ("cpu", pos 4) ∷ []; max = []; used = [] }

abbrev pods : List (Pod ℤ)
pods = running_pod (pos 1) ∷ running_pod (pos 2) ∷ []

abbrev listing : ElasticQuota ℤ → Option (List (Pod ℤ)) → Cluster ℤ
listing eq list = record {
  get_quota = λ namespace name. found eq;
  list_quotas = λ namespace. some (eq ∷ []);
  list_pods = λ namespace. list;
  create_merge_patch = λ old new. true;
  patch = λ namespace name. true;
}

pods-IsNonneg : IsNonneg sample_vendor sample_ops "cpu" pods
unfolding lookup
pods-IsNonneg = (((omega arith, tt), tt), (((omega arith, tt), tt), tt))

compute_elastic_quota_used-running_sum_example :
    (used : Map ℤ) × (compute_elastic_quota_used sample_vendor sample_ops (some pods) quota
      ≡ some used)
    × (amount_of sample_vendor sample_ops "cpu" used
        ≡ running_sum sample_vendor sample_ops "cpu" pods)
compute_elastic_quota_used-running_sum_example =
    compute_elastic_quota_used-running_sum sample_vendor sample_ops "cpu" pods quota pods-IsNonneg

abbrev synced : ElasticQuota ℤ
synced = record quota { used = ("cpu", pos 3) ∷ [] }

sync_handler-use_after_example :
    ((used : Map ℤ) × (compute_elastic_quota_used sample_vendor sample_ops (some pods) quota
        ≡ some used)
      × (sample_ops.semantic_equal used (
            use_after sample_vendor sample_ops quota
              (sync_handler sample_vendor sample_ops (listing quota (some pods)) "ns" "eq"))
          ≡ true))
    × (sync_handler sample_vendor sample_ops (listing synced (some pods)) "ns" "eq"
        ≡ record { is_error = false; stored = none })
unfolding sync_handler ElasticQuotaSync.compute_elastic_quota_used ElasticQuotaSync.new_zero_used
    ElasticQuotaSync.zero_all ElasticQuotaSync.add_running
    ElasticQuotaSync.compute_pod_resource_request ElasticQuotaSync.add_requests
    ElasticQuotaSync.max_requests lookup Maps.insert Int.◌+ℤ◌
sync_handler-use_after_example =
    sync_handler-use_after sample_vendor sample_ops (listing quota (some pods))
      (listing synced (some pods)) "ns" "eq" quota pods refl refl refl refl refl

work-unlisted_example :
    work sample_vendor sample_ops (listing quota none) 2 (("ns", "eq") ∷ ("ns", "other") ∷ [])
    ≡ ([], [])
work-unlisted_example =
    work-unlisted sample_vendor sample_ops (listing quota none)
      (("ns", "eq") ∷ ("ns", "other") ∷ []) (refl, (refl, tt))
