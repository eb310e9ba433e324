-- ===== src/Capacity/Admission.antt =====
-- PreFilter, Reserve and Unreserve of CapacityScheduling
-- (pkg/capacityscheduling/capacity_scheduling.go) for one pod and its quota.
use flex_gpu_scheduler.Prelude.{
  ◌≡◌, refl, sym, ap, ◌∙◌, subst, ℤ, pos, ◌+ℤ◌, ◌-ℤ◌, ◌≤ℤ◌, int_laws, zero-+ℤ, String, str_eq,
  eq_iff, Map, lookup, lookup-insert, lookup-erase, insert, erase, Option, none, some, false, [],
  ◌∷◌, arith, inl, inr, Bool-cases, if-true, if-false,
}
use flex_gpu_scheduler.Api.{Vendor, Status, success}
use flex_gpu_scheduler.Resources.{Resource, resource_list, scalar_list}
use flex_gpu_scheduler.PodGroups.{to_int64}
use flex_gpu_scheduler.Capacity.Quota.{
  Pod, Framework, ElasticQuotaInfo, empty_resource, cmp2, used_over_max_with,
  compute_pod_resource_request, add_pod_if_not_present, delete_pod_if_present, reserve_resource,
  unreserve_resource,
}
use flex_gpu_scheduler.Capacity.Plugin.{on_quota, reserve, unreserve, pre_filter, add_all_nominated}
use flex_gpu_scheduler.Capacity.Wrap.{IsInt64, to_int64-IsInt64, to_int64-add, to_int64_cancel}
use flex_gpu_scheduler.Capacity.Dimensions.{
  reserve_resource_plain, Dimension, read, asked, read-reserve_resource, read-unreserve_resource,
}

add_comm : (a b : ℤ) → a +ℤ b ≡ b +ℤ a
add_comm a b = omega int_laws

module _ (v : Vendor) (fw : Framework v) where
  open v use {Quantity, new_quantity, new_milli_quantity}
  open fw use {
    pod_key, add_list, milli_value, value, milli_value-new, value-new, add_list-milli_cpu,
    add_list-memory,
  }

  lookup-scalar_list :
      (name : String) (scalars : Map ℤ) (base : Map Quantity)
      → lookup name scalars ≡ none
      → lookup name (scalar_list v scalars base) ≡ lookup name base
  unfolding lookup scalar_list
  lookup-scalar_list name [] base absent = refl
  lookup-scalar_list name ((j, n) ∷ rest) base absent = elim (Bool-cases (str_eq j name)) [
    | inl same ↦ ground arith
    | inr differ ↦
        lookup-scalar_list name rest (insert j (new_quantity n) base) (ground arith)
        ∙ lookup-insert name j (new_quantity n) base
        ∙ if-false _ _ differ
  ]

  -- A request is read back from its list of quantities.
  request-milli_cpu :
      (r : Resource)
      → lookup "cpu" r.scalar_resources ≡ none
      → (add_list empty_resource (resource_list v r)).milli_cpu ≡ to_int64 r.milli_cpu
  unfolding resource_list lookup
  request-milli_cpu r absent =
      let listed : lookup "cpu" (resource_list v r) ≡ some (new_milli_quantity r.milli_cpu) =
        lookup-scalar_list "cpu" r.scalar_resources _ absent in
      add_list-milli_cpu empty_resource (resource_list v r)
      ∙ ap
          (λ (o : Option Quantity). elim o [
            | none ↦ pos 0
            | some q ↦ to_int64 (pos 0 +ℤ milli_value q)
          ])
          listed
      ∙ ap to_int64 (zero-+ℤ _ ∙ milli_value-new r.milli_cpu)

  request-memory :
      (r : Resource)
      → lookup "memory" r.scalar_resources ≡ none
      → (add_list empty_resource (resource_list v r)).memory ≡ to_int64 r.memory
  unfolding resource_list lookup
  request-memory r absent =
      let listed : lookup "memory" (resource_list v r) ≡ some (new_quantity r.memory) =
        lookup-scalar_list "memory" r.scalar_resources _ absent in
      add_list-memory empty_resource (resource_list v r)
      ∙ ap (λ (o : Option Quantity). elim o [ none ↦ pos 0 | some q ↦ to_int64 (pos 0 +ℤ value q) ])
          listed
      ∙ ap to_int64 (zero-+ℤ _ ∙ value-new r.memory)

  -- What cmp2 does not find over is within.
  cmp2_within :
      (x1 x2 y : Resource)
      → cmp2 x1 x2 y ≡ false
      → (to_int64 (x1.milli_cpu +ℤ x2.milli_cpu) ≤ℤ y.milli_cpu)
        × (to_int64 (x1.memory +ℤ x2.memory) ≤ℤ y.memory)
  unfolding cmp2
  cmp2_within x1 x2 y within = ground arith

  -- A request that is wrapped, then added, is the request added.
  charge :
      (used x request : ℤ)
      → x ≡ to_int64 request
      → to_int64 (x +ℤ used) ≡ to_int64 (used +ℤ request)
  charge used x request e =
      ap (λ y. to_int64 (y +ℤ used)) e
      ∙ to_int64-add request used
      ∙ ap to_int64 (add_comm request used)

  module _ (quotas : Map ElasticQuotaInfo) (pod : Pod Quantity) (e : ElasticQuotaInfo)
      (has_quota : lookup pod.namespace quotas ≡ some e) (key : String)
      (keyed : pod_key pod ≡ some key) (absent : lookup key e.pods ≡ none) where
    abbrev pub request : Resource
    request = compute_pod_resource_request v fw pod

    -- The quota after Reserve.
    abbrev pub charged : ElasticQuotaInfo
    charged = record e { pods = insert key tt e.pods; used = reserve_resource v fw e.used request }

    reserve-charged : reserve v fw quotas pod ≡ (insert pod.namespace charged quotas, success)
    unfolding reserve on_quota add_pod_if_not_present
    reserve-charged = ground arith

    lookup-charged : lookup pod.namespace (insert pod.namespace charged quotas) ≡ some charged
    lookup-charged =
        lookup-insert pod.namespace pod.namespace charged quotas
        ∙ if-true _ _ ((eq_iff pod.namespace pod.namespace).1 refl)

    restored :
        (d : Dimension)
        → IsInt64 (read d e.used)
        → read d (unreserve_resource v fw charged.used request) ≡ read d e.used
    restored d small =
        let put = read-reserve_resource v fw d e.used request small in
        read-unreserve_resource v fw d charged.used request
          (subst IsInt64 (sym put) (to_int64-IsInt64 (read d e.used +ℤ asked d request)))
        ∙ ap (λ x. to_int64 (x -ℤ asked d request)) put
        ∙ to_int64_cancel (read d e.used) (asked d request) small

    kept : (other : String) → lookup other (erase key charged.pods) ≡ lookup other e.pods
    kept other =
        let gone = lookup-erase other key charged.pods in
        let put = lookup-insert other key tt e.pods in
        elim (Bool-cases (str_eq key other)) [
          | inl same ↦
              let missing : lookup other e.pods ≡ none =
                ap (λ x. lookup x e.pods) (sym ((eq_iff key other).0 same)) ∙ absent in
              gone ∙ if-true _ _ same ∙ sym missing
          | inr differ ↦ gone ∙ if-false _ _ differ ∙ put ∙ if-false _ _ differ
        ]

    -- For a pod that has a key and is not in its quota, no scalar resource of whose request is
    -- called cpu or memory: if PreFilter admits it with no nominated pods, Reserve succeeds and
    -- leaves the quota with at most its maximum of CPU and of memory in use.
    pub reserve-pre_filter :
        (pre_filter v fw quotas (some []) pod).0 ≡ success
        → lookup "cpu" request.scalar_resources ≡ none
        → lookup "memory" request.scalar_resources ≡ none
        → (e' : ElasticQuotaInfo) × (reserve v fw quotas pod
            ≡ (insert pod.namespace e' quotas, success))
          × (e'.used.milli_cpu ≤ℤ e.max.milli_cpu)
          × (e'.used.memory ≤ℤ e.max.memory)
    unfolding pre_filter add_all_nominated used_over_max_with
    reserve-pre_filter admitted plain_cpu plain_memory =
        let in_eq = add_list empty_resource (resource_list v request) in
        let (cpu_in, memory_in) = cmp2_within in_eq e.used e.max (ground arith) in
        let cpu_same : charged.used.milli_cpu ≡ to_int64 (in_eq.milli_cpu +ℤ e.used.milli_cpu) =
          (reserve_resource_plain v fw e.used request).0
          ∙ sym
              (charge e.used.milli_cpu _ request.milli_cpu (request-milli_cpu request plain_cpu)) in
        let memory_same : charged.used.memory ≡ to_int64 (in_eq.memory +ℤ e.used.memory) =
          (reserve_resource_plain v fw e.used request).1
          ∙ sym (charge e.used.memory _ request.memory (request-memory request plain_memory)) in
        (
          charged,
          reserve-charged,
          subst (λ x. x ≤ℤ e.max.milli_cpu) (sym cpu_same) cpu_in,
          subst (λ x. x ≤ℤ e.max.memory) (sym memory_same) memory_in,
        )

    -- Reserve and then Unreserve of a pod that has a key and a quota it is not in leaves the quota
    -- with the same pods, and with the same use of each dimension whose use is an int64.
    pub unreserve-reserve_quota :
        let quotas' = unreserve v fw (reserve v fw quotas pod).0 pod in
        (e' : ElasticQuotaInfo) × (lookup pod.namespace quotas' ≡ some e')
        × ((d : Dimension) → IsInt64 (read d e.used) → read d e'.used ≡ read d e.used)
        × ((other : String) → lookup other e'.pods ≡ lookup other e.pods)
    unfolding unreserve on_quota delete_pod_if_present
    unreserve-reserve_quota =
        let there : lookup key charged.pods ≡ some tt =
          lookup-insert key key tt e.pods ∙ if-true _ _ ((eq_iff key key).1 refl) in
        let released : ElasticQuotaInfo = record charged {
          pods = erase key charged.pods;
          used = unreserve_resource v fw charged.used request;
        } in
        let is : unreserve v fw (insert pod.namespace charged quotas) pod
            ≡ insert pod.namespace released (insert pod.namespace charged quotas) =
          let stored = lookup-charged in ground arith in
        (
          released,
          ap (λ (r : Map ElasticQuotaInfo × Status). lookup pod.namespace (unreserve v fw r.0 pod))
                reserve-charged
              ∙ ap (lookup pod.namespace) is
              ∙ lookup-insert pod.namespace pod.namespace released
                  (insert pod.namespace charged quotas)
              ∙ if-true _ _ ((eq_iff pod.namespace pod.namespace).1 refl),
          λ d small. restored d small,
          λ other. kept other,
        )
