-- ===== src/Capacity/Books.antt =====
-- The quotas of CapacityScheduling (pkg/capacityscheduling/capacity_scheduling.go) through any
-- sequence of informer events and of calls of Reserve and Unreserve.
use flex_gpu_scheduler.Prelude.{
  ◌≡◌, refl, subst, pos, String, str_eq, Map, lookup, insert, lookup-insert, Option, none, some,
  List, [], ◌∷◌, arith, inl, inr, Bool-cases, Option-cases,
}
use flex_gpu_scheduler.Api.{Vendor}
use flex_gpu_scheduler.Resources.{Resource}
use flex_gpu_scheduler.PodGroups.{to_int64}
use flex_gpu_scheduler.Capacity.Quota.{
  Pod, Framework, ElasticQuotaInfo, empty_resource, add_pod_if_not_present, delete_pod_if_present,
}
use flex_gpu_scheduler.Capacity.Plugin.{
  ElasticQuota, new_elastic_quota_info, add_elastic_quota, update_elastic_quota,
  delete_elastic_quota, on_quota, add_pod, update_pod, delete_pod, reserve, unreserve,
}
use flex_gpu_scheduler.Capacity.Dimensions.{Dimension, cpu, memory, scalar, read}
use flex_gpu_scheduler.Capacity.Accounting.{
  IsAccounted, IsKnown, add_pod_if_not_present-IsAccounted, delete_pod_if_present-IsAccounted,
}

-- What reaches the plugin. An added pod comes with the quotas that the lister has for it.
pub data Event (Quantity : Type 0) : Type 0 where
  quota_added : ElasticQuota Quantity → Event Quantity
  quota_updated : ElasticQuota Quantity → ElasticQuota Quantity → Event Quantity
  quota_deleted : ElasticQuota Quantity → Event Quantity
  pod_added : Option (List (ElasticQuota Quantity)) → Pod Quantity → Event Quantity
  pod_updated : Pod Quantity → Pod Quantity → Event Quantity
  pod_deleted : Pod Quantity → Event Quantity
  pod_reserved : Pod Quantity → Event Quantity
  pod_unreserved : Pod Quantity → Event Quantity

module _ (v : Vendor) (fw : Framework v) (request_of : String → Resource) where
  open v use {Quantity}

  abbrev pub handle : Map ElasticQuotaInfo → Event Quantity → Map ElasticQuotaInfo
  handle quotas (quota_added eq) = add_elastic_quota v fw quotas eq
  handle quotas (quota_updated old new) = update_elastic_quota v fw quotas old new
  handle quotas (quota_deleted eq) = delete_elastic_quota v fw quotas eq
  handle quotas (pod_added listed pod) = add_pod v fw quotas listed pod
  handle quotas (pod_updated old new) = update_pod v fw quotas old new
  handle quotas (pod_deleted pod) = delete_pod v fw quotas pod
  handle quotas (pod_reserved pod) = (reserve v fw quotas pod).0
  handle quotas (pod_unreserved pod) = unreserve v fw quotas pod

  abbrev pub handle_all : Map ElasticQuotaInfo → List (Event Quantity) → Map ElasticQuotaInfo
  handle_all quotas [] = quotas
  handle_all quotas (event ∷ events) = handle_all (handle quotas event) events

  -- The pod that the event charges or releases is known by its key.
  abbrev pub IsKnownEvent : Event Quantity → Type 0
  IsKnownEvent (pod_added listed pod) = IsKnown request_of v fw pod
  IsKnownEvent (pod_updated old new) = IsKnown request_of v fw new
  IsKnownEvent (pod_deleted pod) = IsKnown request_of v fw pod
  IsKnownEvent (pod_reserved pod) = IsKnown request_of v fw pod
  IsKnownEvent (pod_unreserved pod) = IsKnown request_of v fw pod
  IsKnownEvent event = Unit

  abbrev pub AreAccounted : Map ElasticQuotaInfo → Type 0
  AreAccounted quotas =
      (namespace : String) (e : ElasticQuotaInfo)
      → lookup namespace quotas ≡ some e
      → IsAccounted request_of e

  pub insert-AreAccounted :
      (quotas : Map ElasticQuotaInfo) (namespace : String) (e : ElasticQuotaInfo)
      → AreAccounted quotas
      → IsAccounted request_of e
      → AreAccounted (insert namespace e quotas)
  insert-AreAccounted quotas namespace e books book other e' there =
      let found = lookup-insert other namespace e quotas in
      elim (Bool-cases (str_eq namespace other)) [
        | inl same ↦ let is : e ≡ e' = ground arith in subst (IsAccounted request_of) is book
        | inr differ ↦ books other e' (ground arith)
      ]

  unused : (d : Dimension) → read d empty_resource ≡ pos 0
  unfolding lookup
  unused cpu = refl
  unused memory = refl
  unused (scalar name) = refl

  pub fresh-IsAccounted :
      (eq : ElasticQuota Quantity) → IsAccounted request_of (new_elastic_quota_info v fw eq)
  unfolding new_elastic_quota_info lookup to_int64
  fresh-IsAccounted eq = (tt, unused)

  on_quota-AreAccounted :
      (change : ElasticQuotaInfo → Pod Quantity → Option ElasticQuotaInfo)
      (quotas : Map ElasticQuotaInfo) (pod : Pod Quantity)
      → ((e e' : ElasticQuotaInfo)
          → IsAccounted request_of e
          → change e pod ≡ some e'
          → IsAccounted request_of e')
      → AreAccounted quotas
      → AreAccounted (on_quota v fw change quotas pod).0
  unfolding on_quota
  on_quota-AreAccounted change quotas pod keeps books =
      elim (Option-cases (lookup pod.namespace quotas)) [
        | inl missing ↦
            let is : quotas ≡ (on_quota v fw change quotas pod).0 = ground arith in
            subst AreAccounted is books
        | inr (e, there) ↦ elim (Option-cases (change e pod)) [
          | inl failure ↦
              let is : quotas ≡ (on_quota v fw change quotas pod).0 = ground arith in
              subst AreAccounted is books
          | inr (e', done) ↦
              let is : insert pod.namespace e' quotas ≡ (on_quota v fw change quotas pod).0 =
                ground arith in
              subst AreAccounted is (
                insert-AreAccounted quotas pod.namespace e' books
                  (keeps e e' (books pod.namespace e there) done))
        ]
      ]

  pub add-AreAccounted :
      (quotas : Map ElasticQuotaInfo) (pod : Pod Quantity)
      → IsKnown request_of v fw pod
      → AreAccounted quotas
      → AreAccounted (on_quota v fw (add_pod_if_not_present v fw) quotas pod).0
  add-AreAccounted quotas pod known books =
      on_quota-AreAccounted (add_pod_if_not_present v fw) quotas pod
        (λ e e' book done.
          add_pod_if_not_present-IsAccounted request_of v fw e e' pod known book done)
        books

  pub release-AreAccounted :
      (quotas : Map ElasticQuotaInfo) (pod : Pod Quantity)
      → IsKnown request_of v fw pod
      → AreAccounted quotas
      → AreAccounted (on_quota v fw (delete_pod_if_present v fw) quotas pod).0
  release-AreAccounted quotas pod known books =
      on_quota-AreAccounted (delete_pod_if_present v fw) quotas pod
        (λ e e' book done.
          delete_pod_if_present-IsAccounted request_of v fw e e' pod known book done)
        books

  pub listed-AreAccounted :
      (quotas : Map ElasticQuotaInfo) (listed : Option (List (ElasticQuota Quantity)))
      (pod : Pod Quantity)
      → IsKnown request_of v fw pod
      → AreAccounted quotas
      → lookup pod.namespace quotas ≡ none
      → AreAccounted (add_pod v fw quotas listed pod)
  unfolding add_pod
  listed-AreAccounted quotas none pod known books missing =
      let is : quotas ≡ add_pod v fw quotas none pod = ground arith in subst AreAccounted is books
  listed-AreAccounted quotas (some []) pod known books missing =
      let is : quotas ≡ add_pod v fw quotas (some []) pod = ground arith in
      subst AreAccounted is books
  listed-AreAccounted quotas (some (eq ∷ eqs)) pod known books missing =
      let fresh = new_elastic_quota_info v fw eq in
      elim (Option-cases (add_pod_if_not_present v fw fresh pod)) [
        | inl failure ↦
            let is : insert eq.namespace fresh quotas ≡ add_pod v fw quotas (some (eq ∷ eqs)) pod =
              ground arith in
            subst AreAccounted is
              (insert-AreAccounted quotas eq.namespace fresh books (fresh-IsAccounted eq))
        | inr (e', done) ↦
            let is : insert eq.namespace e' quotas ≡ add_pod v fw quotas (some (eq ∷ eqs)) pod =
              ground arith in
            subst AreAccounted is (
              insert-AreAccounted quotas eq.namespace e' books (
                add_pod_if_not_present-IsAccounted request_of v fw fresh e' pod known
                  (fresh-IsAccounted eq) done))
      ]
