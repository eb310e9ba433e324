-- ===== src/Capacity/Events.antt =====
-- The books of all quotas of CapacityScheduling (pkg/capacityscheduling/capacity_scheduling.go) after
-- every event.
use flex_gpu_scheduler.Prelude.{
  ◌≡◌, subst, String, str_eq, Map, lookup, insert, lookup-erase, Option, some, List, [], ◌∷◌, All,
  arith, inl, inr, Bool-cases, Option-cases,
}
use flex_gpu_scheduler.Api.{Vendor}
use flex_gpu_scheduler.Resources.{Resource}
use flex_gpu_scheduler.Capacity.Quota.{
  Pod, Framework, ElasticQuotaInfo, add_pod_if_not_present, delete_pod_if_present,
}
use flex_gpu_scheduler.Capacity.Plugin.{
  ElasticQuota, new_elastic_quota_info, add_elastic_quota, update_elastic_quota,
  delete_elastic_quota, on_quota, add_pod, update_pod, delete_pod, reserve, unreserve, is_live,
  is_over,
}
use flex_gpu_scheduler.Capacity.Accounting.{IsAccounted, IsKnown}
use flex_gpu_scheduler.Capacity.Books.{
  Event, quota_added, quota_updated, quota_deleted, pod_added, pod_updated, pod_deleted,
  pod_reserved, pod_unreserved, handle, handle_all, IsKnownEvent, AreAccounted, insert-AreAccounted,
  fresh-IsAccounted, add-AreAccounted, release-AreAccounted, listed-AreAccounted,
}

module _ (v : Vendor) (fw : Framework v) (request_of : String → Resource) where
  open v use {Quantity}

  add_elastic_quota-AreAccounted :
      (quotas : Map ElasticQuotaInfo) (eq : ElasticQuota Quantity)
      → AreAccounted v fw request_of quotas
      → AreAccounted v fw request_of (add_elastic_quota v fw quotas eq)
  unfolding add_elastic_quota
  add_elastic_quota-AreAccounted quotas eq books =
      elim (Option-cases (lookup eq.namespace quotas)) [
        | inl missing ↦
            let is : insert eq.namespace (new_elastic_quota_info v fw eq) quotas
                ≡ add_elastic_quota v fw quotas eq =
              ground arith in
            subst (AreAccounted v fw request_of) is (
              insert-AreAccounted v fw request_of quotas eq.namespace
                (new_elastic_quota_info v fw eq) books (fresh-IsAccounted v fw request_of eq))
        | inr (e, there) ↦
            let is : quotas ≡ add_elastic_quota v fw quotas eq = ground arith in
            subst (AreAccounted v fw request_of) is books
      ]

  update_elastic_quota-AreAccounted :
      (quotas : Map ElasticQuotaInfo) (old new : ElasticQuota Quantity)
      → AreAccounted v fw request_of quotas
      → AreAccounted v fw request_of (update_elastic_quota v fw quotas old new)
  unfolding update_elastic_quota
  update_elastic_quota-AreAccounted quotas old new books =
      let fresh = new_elastic_quota_info v fw new in
      elim (Option-cases (lookup old.namespace quotas)) [
        | inl missing ↦
            let is : insert new.namespace fresh quotas ≡ update_elastic_quota v fw quotas old new =
              ground arith in
            subst (AreAccounted v fw request_of) is (
              insert-AreAccounted v fw request_of quotas new.namespace fresh books
                (fresh-IsAccounted v fw request_of new))
        | inr (e, there) ↦
            let kept : ElasticQuotaInfo = record fresh { pods = e.pods; used = e.used } in
            let is : insert new.namespace kept quotas ≡ update_elastic_quota v fw quotas old new =
              ground arith in
            subst (AreAccounted v fw request_of) is (
              insert-AreAccounted v fw request_of quotas new.namespace kept books
                (books old.namespace e there))
      ]

  delete_elastic_quota-AreAccounted :
      (quotas : Map ElasticQuotaInfo) (eq : ElasticQuota Quantity)
      → AreAccounted v fw request_of quotas
      → AreAccounted v fw request_of (delete_elastic_quota v fw quotas eq)
  unfolding delete_elastic_quota
  delete_elastic_quota-AreAccounted quotas eq books namespace e there =
      let found = lookup-erase namespace eq.namespace quotas in
      elim (Bool-cases (str_eq eq.namespace namespace)) [
        | inl same ↦ ground arith
        | inr differ ↦ books namespace e (ground arith)
      ]

  update_pod-AreAccounted :
      (quotas : Map ElasticQuotaInfo) (old new : Pod Quantity)
      → IsKnown request_of v fw new
      → AreAccounted v fw request_of quotas
      → AreAccounted v fw request_of (update_pod v fw quotas old new)
  unfolding update_pod
  update_pod-AreAccounted quotas old new known books =
      let released = release-AreAccounted v fw request_of quotas new known books in
      elim (Bool-cases (is_over old.phase)) [
        | inl over ↦
            let is : quotas ≡ update_pod v fw quotas old new = ground arith in
            subst (AreAccounted v fw request_of) is books
        | inr going ↦ elim (Bool-cases (is_live new.phase)) [
          | inl live ↦
              let is : quotas ≡ update_pod v fw quotas old new = ground arith in
              subst (AreAccounted v fw request_of) is books
          | inr ended ↦
              let is : (on_quota v fw (delete_pod_if_present v fw) quotas new).0
                  ≡ update_pod v fw quotas old new =
                ground arith in
              subst (AreAccounted v fw request_of) is released
        ]
      ]

  add_pod-AreAccounted :
      (quotas : Map ElasticQuotaInfo) (listed : Option (List (ElasticQuota Quantity)))
      (pod : Pod Quantity)
      → IsKnown request_of v fw pod
      → AreAccounted v fw request_of quotas
      → AreAccounted v fw request_of (add_pod v fw quotas listed pod)
  unfolding add_pod
  add_pod-AreAccounted quotas listed pod known books =
      elim (Option-cases (lookup pod.namespace quotas)) [
        | inl missing ↦ listed-AreAccounted v fw request_of quotas listed pod known books missing
        | inr (e, there) ↦
            let is : (on_quota v fw (add_pod_if_not_present v fw) quotas pod).0
                ≡ add_pod v fw quotas listed pod =
              ground arith in
            subst (AreAccounted v fw request_of) is
              (add-AreAccounted v fw request_of quotas pod known books)
      ]

  handle-AreAccounted :
      (quotas : Map ElasticQuotaInfo) (event : Event Quantity)
      → IsKnownEvent v fw request_of event
      → AreAccounted v fw request_of quotas
      → AreAccounted v fw request_of (handle v fw request_of quotas event)
  unfolding delete_pod reserve unreserve
  handle-AreAccounted quotas (quota_added eq) known books =
      add_elastic_quota-AreAccounted quotas eq books
  handle-AreAccounted quotas (quota_updated old new) known books =
      update_elastic_quota-AreAccounted quotas old new books
  handle-AreAccounted quotas (quota_deleted eq) known books =
      delete_elastic_quota-AreAccounted quotas eq books
  handle-AreAccounted quotas (pod_added listed pod) known books =
      add_pod-AreAccounted quotas listed pod known books
  handle-AreAccounted quotas (pod_updated old new) known books =
      update_pod-AreAccounted quotas old new known books
  handle-AreAccounted quotas (pod_deleted pod) known books =
      release-AreAccounted v fw request_of quotas pod known books
  handle-AreAccounted quotas (pod_reserved pod) known books =
      add-AreAccounted v fw request_of quotas pod known books
  handle-AreAccounted quotas (pod_unreserved pod) known books =
      release-AreAccounted v fw request_of quotas pod known books

  handle_all-AreAccounted :
      (quotas : Map ElasticQuotaInfo) (events : List (Event Quantity))
      → All (IsKnownEvent v fw request_of) events
      → AreAccounted v fw request_of quotas
      → AreAccounted v fw request_of (handle_all v fw request_of quotas events)
  handle_all-AreAccounted quotas [] known books = books
  handle_all-AreAccounted quotas (event ∷ events) known books =
      handle_all-AreAccounted (handle v fw request_of quotas event) events known.1
        (handle-AreAccounted quotas event known.0 books)

  -- From no quotas, after any sequence of events on quotas and pods and of calls of Reserve and
  -- Unreserve, where every pod that is charged or released requests what is known of its key: each
  -- quota holds no key twice, and uses of CPU, memory and every scalar resource the sum of what
  -- its pods request, as an int64.
  pub events-IsAccounted :
      (events : List (Event Quantity)) (namespace : String) (e : ElasticQuotaInfo)
      → All (IsKnownEvent v fw request_of) events
      → lookup namespace (handle_all v fw request_of [] events) ≡ some e
      → IsAccounted request_of e
  unfolding lookup
  events-IsAccounted events namespace e known there =
      handle_all-AreAccounted [] events known (λ name info none_there. ground arith) namespace e
        there
