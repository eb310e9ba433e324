-- ===== src/Coscheduling/Gang.antt =====
-- When a pod group may start, and when it is held back: PreFilter, Permit, PostFilter and Unreserve
-- (pkg/coscheduling) against the group's minimum and the denied groups.
use mathlib.Core.List.{Mem}
use flex_gpu_scheduler.Prelude.{
  mem-keep_if, ℕ, suc, ◌+◌, ◌-◌, ◌*◌, leb, Bool-cases, ◌≤◌, ◌<◌, ◌≡◌, ◌≢◌, ℤ, pos, ◌+ℤ◌, ◌-ℤ◌, ◌≤ℤ◌,
  ◌⊎◌, int_laws, Bool, true, false, ◌&&◌, String, str_eq, eq_iff, Map, Option, none, some, List, [],
  length, arith, ◌↔◌, inl, inr, Option-cases,
}
use flex_gpu_scheduler.Api.{Vendor, CacheOps, success, unschedulable, wait}
use flex_gpu_scheduler.PodGroups.{
  Pod, PodGroup, to_int32, to_int32_small, slashed-ne-empty, get_pod_group_label, is_zero_duration,
  get_pod_group_full_name,
}
use flex_gpu_scheduler.Coscheduling.Manager.{
  World, PodGroupManager, permitted, recently_denied, get_pod_group, permit, add_denied_pod_group,
  delete_permitted_pod_group, check_siblings, pre_filter,
}
use flex_gpu_scheduler.Coscheduling.Cluster.{NodeInfo}
use flex_gpu_scheduler.Coscheduling.Assigned.{IsSplit, calculate_assigned_pods-IsSplit}
use flex_gpu_scheduler.Coscheduling.Plugin.{
  in_group, with_full_name, permit_pod, reject_group, post_filter, unreserve_pod,
}

-- What the float32 numbers of PostFilter say of a gap and a minimum of at most a million: that the
-- gap is at most a tenth of the minimum.
abbrev pub IsTenth : (ℤ → ℤ → Bool) → Type 0
IsTenth small_gap =
    (gap minimum : ℕ)
    → gap ≤ minimum
    → 0 < minimum
    → minimum ≤ 1000000
    → (small_gap (pos gap) (pos minimum) ≡ true) ↔ (10 * gap ≤ minimum)

-- int32 addition of one to what is below the largest int32.
next_int32 : (n : ℕ) → n < 2147483647 → to_int32 (to_int32 (pos n) +ℤ pos 1) ≡ pos (suc n)
next_int32 n h =
    let sum : pos n +ℤ pos 1 ≡ pos (suc n) = omega int_laws in
    rw (to_int32_small n (omega arith), sum) (to_int32_small (suc n) (omega arith))

module _ {Quantity : Type 0} (w : World Quantity) (pod : Pod) (pg_full_name : String)
    (pg : PodGroup Quantity) (found : get_pod_group w pod ≡ (pg_full_name, some pg)) where
  full_name-ne-empty : str_eq pg_full_name "" ≡ false
  unfolding get_pod_group
  full_name-ne-empty =
      ground (arith, found, slashed-ne-empty pod.namespace (get_pod_group_label pod))

  -- When the nodes are listed, and the pods on them fall into the ones that have the group's label
  -- and namespace and a node name, fewer than 2 ^ 31 - 1, and others: a pod whose group is found
  -- is permitted exactly when those ones and the pod itself are at least the group's minimum.
  pub permit-min_member :
      (infos : List NodeInfo) (members others : List Pod)
      → w.list_nodes ≡ some infos
      → IsSplit pg.name pg.namespace infos members others
      → length members < 2147483647
      → (permit w pod ≡ permitted) ↔ (pg.min_member ≤ℤ pos (suc (length members)))
  unfolding permit
  permit-min_member infos members others listed split small =
      let counted =
        calculate_assigned_pods-IsSplit pg.name pg.namespace w infos members others listed split in
      ground (arith, found, full_name-ne-empty, next_int32 (length members) small)

module _ (v : Vendor) (ops : CacheOps) where
  open v use {Quantity}
  open ops use {Cache, has, add, delete, has-add_new, add_old, has-add_other, has-delete}

  module _ (w : World Quantity) (pod : Pod) (pg_full_name : String) (pg : PodGroup Quantity)
      (found : get_pod_group w pod ≡ (pg_full_name, some pg)) (m : PodGroupManager Cache)
      (now : ℕ) where
    -- A pod of a group that PreFilter lets through: its group is not denied at that time, and at
    -- least the group's minimum of pods have its label.
    pub pre_filter-min_member :
        (pre_filter v ops w m now pod).0 ≡ none
        → (has m.last_denied now pg_full_name ≡ false)
          × ((siblings : List Pod) × (w.list_pods pod.namespace (get_pod_group_label pod)
                ≡ some siblings)
              × (pg.min_member ≤ℤ pos (length siblings)))
    unfolding pre_filter check_siblings
    pre_filter-min_member e =
        elim (Option-cases (w.list_pods pod.namespace (get_pod_group_label pod))) [
          | inl failed ↦ ground (arith, found)
          | inr (siblings, listed) ↦
              (ground (arith, found), (siblings, listed, ground (arith, found)))
        ]

    -- After Unreserve for a pod of a group that was not denied, PreFilter refuses every pod for
    -- which the listers then find a group with that full name, whatever else they answer, as
    -- recently denied, until the positive expiration time is over.
    pub pre_filter-unreserve :
        (other : Pod) (w' : World Quantity) (pg' : PodGroup Quantity) (waiting_pods : List Pod)
        (later d : ℕ)
        → m.last_denied_expiration ≡ pos (suc d)
        → has m.last_denied now pg_full_name ≡ false
        → get_pod_group w' other ≡ (pg_full_name, some pg')
        → now ≤ later
        → later ≤ now + suc d
        → let (rejected, m') = unreserve_pod v ops w m now pod waiting_pods in
          (pre_filter v ops w' m' later other).0 ≡ some recently_denied
    unfolding unreserve_pod reject_group add_denied_pod_group delete_permitted_pod_group pre_filter
    pre_filter-unreserve other w' pg' waiting_pods later d lasts fresh sibling after within =
        ground (
          arith,
          found,
          sibling,
          lasts,
          has-add_new m.last_denied now later d pg_full_name fresh after within,
        )

module _ {Quantity : Type 0} (w : World Quantity) (pod : Pod) where
  -- With a scheduler timeout that is not zero, a pod that is told to wait gets a time that is not
  -- zero and allows no pod, and any other gets the time zero and activates none.
  pub permit_pod-wait :
      (timeout : ℤ) (waiting_pods : List Pod) (state : Option (Map Pod))
      → is_zero_duration timeout ≡ false
      → let (status, duration, allowed, activated) = permit_pod w timeout waiting_pods state pod in
        (status ≡ wait → (is_zero_duration duration ≡ false) × (allowed ≡ []))
        × (status ≢ wait → (duration ≡ pos 0) × (activated ≡ state))
  unfolding permit_pod
  permit_pod-wait timeout waiting_pods state nonzero = (λ e. ground arith, λ e. ground arith)

  -- When a pod is permitted, its status is success and the waiting pods that are allowed are those
  -- with its group's full name; otherwise none is allowed.
  pub permit_pod-allowed :
      (timeout : ℤ) (waiting_pods : List Pod) (state : Option (Map Pod)) (p : Pod)
      → let (status, duration, allowed, activated) = permit_pod w timeout waiting_pods state pod in
        (permit w pod ≡ permitted
          → (status ≡ success)
            × (Mem p allowed
                ↔ (Mem p waiting_pods × (get_pod_group_full_name p ≡ get_pod_group_full_name pod))))
        × (permit w pod ≢ permitted → allowed ≡ [])
  unfolding permit_pod with_full_name
  permit_pod-allowed timeout waiting_pods state p = (
    λ e.
        let kept =
          mem-keep_if (λ q. str_eq (get_pod_group_full_name q) (get_pod_group_full_name pod)) p
            waiting_pods in
        let same = eq_iff (get_pod_group_full_name p) (get_pod_group_full_name pod) in
        (
          ground arith,
          rw (e, permit_pod)
              (λ m. ((kept.0 m).0, same.0 (kept.0 m).1), λ both. kept.1 (both.0, same.1 both.1)),
        ),
    λ e. ground arith,
  )

module _ (v : Vendor) (ops : CacheOps) (w : World v.Quantity) (pod : Pod) (pg_full_name : String)
    (pg : PodGroup v.Quantity) (found : get_pod_group w pod ≡ (pg_full_name, some pg))
    (m : PodGroupManager ops.Cache) (now : ℕ) where
  unreserve_pod-found :
      (waiting_pods : List Pod)
      → unreserve_pod v ops w m now pod waiting_pods
        ≡ reject_group v ops m now pod pg_full_name pg waiting_pods
  unfolding unreserve_pod
  unreserve_pod-found waiting_pods = ground (arith, found)

  -- For a pod whose group is found, Unreserve rejects exactly the waiting pods of its namespace
  -- whose label is the group's name, and the group's earlier permission is gone at any time after.
  pub unreserve_pod-rejected :
      (waiting_pods : List Pod) (p : Pod)
      → let (rejected, m') = unreserve_pod v ops w m now pod waiting_pods in
        (Mem p rejected ↔ (
          Mem p waiting_pods × (p.namespace ≡ pod.namespace) × (get_pod_group_label p ≡ pg.name)))
        × ((later : ℕ) → ops.has m'.permitted_groups later pg_full_name ≡ false)
  unfolding reject_group in_group add_denied_pod_group delete_permitted_pod_group
  unreserve_pod-rejected waiting_pods p =
      let kept =
        mem-keep_if
          (λ q. str_eq q.namespace pod.namespace && str_eq (get_pod_group_label q) pg.name) p
          waiting_pods in
      let same_namespace = eq_iff p.namespace pod.namespace in
      let same_label = eq_iff (get_pod_group_label p) pg.name in
      rw (unreserve_pod-found waiting_pods) (
        (
          λ r. let (in_list, test) = kept.0 r in (in_list, ground arith, ground arith),
          λ both. kept.1 (both.0, ground arith),
        ),
        λ later. ops.has-delete m.permitted_groups later pg_full_name,
      )

  reject_group-found :
      (waiting_pods : List Pod) (p : Pod)
      → let (rejected, m') = reject_group v ops m now pod pg_full_name pg waiting_pods in
        (Mem p rejected ↔ (
          Mem p waiting_pods × (p.namespace ≡ pod.namespace) × (get_pod_group_label p ≡ pg.name)))
        × ((later : ℕ) → ops.has m'.permitted_groups later pg_full_name ≡ false)
  reject_group-found waiting_pods p =
      rw (← unreserve_pod-found waiting_pods) (unreserve_pod-rejected waiting_pods p)

  reject_group-denied :
      (waiting_pods : List Pod) (later d : ℕ)
      → m.last_denied_expiration ≡ pos (suc d)
      → ops.has m.last_denied now pg_full_name ≡ false
      → now ≤ later
      → later ≤ now + suc d
      → let (rejected, m') = reject_group v ops m now pod pg_full_name pg waiting_pods in
        ops.has m'.last_denied later pg_full_name ≡ true
  unfolding reject_group add_denied_pod_group delete_permitted_pod_group
  reject_group-denied waiting_pods later d lasts fresh after within =
      let denied = ops.has-add_new m.last_denied now later d pg_full_name fresh after within in
      ground arith

  -- With a minimum from one to a million, float32 numbers that tell a tenth, nodes that are
  -- listed, a group that was not denied, and a time within the positive expiration: if the pods on
  -- the nodes with the group's label, the pod's namespace and a node name are at least nine tenths
  -- of the minimum, PostFilter rejects no pod and leaves the manager as it is; otherwise it
  -- rejects exactly the waiting pods of the pod's namespace with the group's label, and the group
  -- is then denied and no longer permitted.
  pub post_filter-rejected :
      (small_gap : ℤ → ℤ → Bool) (infos : List NodeInfo) (members others waiting_pods : List Pod)
      (minimum later d : ℕ) (p : Pod)
      → IsTenth small_gap
      → pg.min_member ≡ pos minimum
      → 0 < minimum
      → minimum ≤ 1000000
      → w.list_nodes ≡ some infos
      → IsSplit pg.name pod.namespace infos members others
      → m.last_denied_expiration ≡ pos (suc d)
      → ops.has m.last_denied now pg_full_name ≡ false
      → now ≤ later
      → later ≤ now + suc d
      → let (status, rejected, m') = post_filter v ops small_gap w m now pod waiting_pods in
        ((9 * minimum ≤ 10 * length members) × (rejected ≡ []) × (m' ≡ m))
        ⊎ ((10 * length members < 9 * minimum)
            × (Mem p rejected ↔ (
                Mem p waiting_pods
                × (p.namespace ≡ pod.namespace)
                × (get_pod_group_label p ≡ pg.name)))
            × (ops.has m'.last_denied later pg_full_name ≡ true)
            × (ops.has m'.permitted_groups later pg_full_name ≡ false))
  unfolding post_filter
  post_filter-rejected small_gap infos members others waiting_pods minimum later d p tenth min
        some_member few listed split lasts fresh after within =
      let c = length members in
      let counted =
        calculate_assigned_pods-IsSplit pg.name pod.namespace w infos members others listed split in
      let (rejected, permission) = reject_group-found waiting_pods p in
      let denied = reject_group-denied waiting_pods later d lasts fresh after within in
      elim (Bool-cases (leb minimum c)) [
        | inl enough ↦ inl (ground arith, ground arith, ground arith)
        | inr short ↦
            let below : c < minimum = ground arith in
            let gap : pos minimum -ℤ pos c ≡ pos (minimum - c) = omega int_laws in
            let law = tenth (minimum - c) minimum (omega arith) some_member few in
            elim (Bool-cases (small_gap (pos (minimum - c)) (pos minimum))) [
              | inl small ↦ inl (ground arith, ground arith, ground arith)
              | inr large ↦
                  let wide : minimum < 10 * (minimum - c) = ground arith in
                  let r = reject_group v ops m now pod pg_full_name pg waiting_pods in
                  let call : post_filter v ops small_gap w m now pod waiting_pods
                      ≡ (unschedulable, r.0, r.1) =
                    ground arith in
                  rw call (inr (omega arith, rejected, denied, permission later))
            ]
      ]
