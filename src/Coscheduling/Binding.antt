-- ===== src/Coscheduling/Binding.antt =====
-- PostBind (pkg/coscheduling/core/core.go) over the pods of a group that are bound one after the
-- other, when each patch reaches the API server and the lister before the next pod is bound.
use flex_gpu_scheduler.Prelude.{
  ℕ, suc, ◌<◌, ◌≡◌, ◌∙◌, ap, refl, pos, ◌+ℤ◌, ◌≤ℤ◌, ◌<ℤ◌, int_laws, true, false, str_eq, eq_iff,
  ◌&&◌, if◌then◌else◌, All, Option, none, some, List, [], ◌∷◌, arith,
}
use flex_gpu_scheduler.PodGroups.{
  Pod, PodGroup, scheduling, same_phase, to_int32_small, get_pod_group_label, slashed,
  slashed-ne-empty,
}
use flex_gpu_scheduler.Coscheduling.Manager.{World, get_pod_group, bound_status, post_bind}

module _ {Quantity : Type 0} where
  -- The group on the server after a patch from one group to another, or none.
  abbrev pub patched :
      PodGroup Quantity → Option (PodGroup Quantity × PodGroup Quantity) → PodGroup Quantity
  patched pg none = pg
  patched pg (some (old, new)) = new

  -- A world in which the look-up of this group gives it.
  abbrev pub holding : World Quantity → PodGroup Quantity → World Quantity
  holding w pg = record w {
    get_group = λ namespace name.
        if str_eq namespace pg.namespace && str_eq name pg.name
        then some pg
        else w.get_group namespace name;
  }

  -- The group on the server after pods are bound at the given times.
  abbrev pub bind_all : World Quantity → List (ℕ × Pod) → PodGroup Quantity → PodGroup Quantity
  bind_all w [] pg = pg
  bind_all w ((now, pod) ∷ pods) pg =
      bind_all w pods (patched pg (post_bind (holding w pg) now pod))

  -- A pod of the group: it has the group's name for its label, and its namespace.
  abbrev pub IsMember : PodGroup Quantity → Pod → Type 0
  IsMember pg pod =
      (str_eq (get_pod_group_label pod) "" ≡ false)
      × (get_pod_group_label pod ≡ pg.name)
      × (pod.namespace ≡ pg.namespace)

  module _ (w : World Quantity) where
    get_pod_group-holding :
        (pg : PodGroup Quantity) (pod : Pod)
        → IsMember pg pod
        → get_pod_group (holding w pg) pod
          ≡ (slashed pod.namespace (get_pod_group_label pod), some pg)
    unfolding get_pod_group
    get_pod_group-holding pg pod (grouped, label, space) =
        let same_label = (eq_iff (get_pod_group_label pod) pg.name).1 label in
        let same_namespace = (eq_iff pod.namespace pg.namespace).1 space in ground arith

    get_group-holding :
        (pg : PodGroup Quantity) → (holding w pg).get_group pg.namespace pg.name ≡ some pg
    get_group-holding pg =
        let same_label = (eq_iff pg.name pg.name).1 refl in
        let same_namespace = (eq_iff pg.namespace pg.namespace).1 refl in ground arith

    -- Without a change of phase nothing is patched.
    post_bind-unchanged :
        (now : ℕ) (pod : Pod) (pg : PodGroup Quantity)
        → IsMember pg pod
        → same_phase (bound_status now pg).phase pg.status.phase ≡ true
        → post_bind (holding w pg) now pod ≡ none
    unfolding post_bind
    post_bind-unchanged now pod pg member same =
        let found = get_pod_group-holding pg pod member in
        let full_name = slashed-ne-empty pod.namespace (get_pod_group_label pod) in ground arith

    post_bind-changed :
        (now : ℕ) (pod : Pod) (pg : PodGroup Quantity)
        → IsMember pg pod
        → same_phase (bound_status now pg).phase pg.status.phase ≡ false
        → patched pg (post_bind (holding w pg) now pod) ≡ record pg { status = bound_status now pg }
    unfolding post_bind
    post_bind-changed now pod pg member change =
        let found = get_pod_group-holding pg pod member in
        let again = get_group-holding pg in
        let full_name = slashed-ne-empty pod.namespace (get_pod_group_label pod) in ground arith

    bound_status-below :
        (now n : ℕ) (pg : PodGroup Quantity)
        → pg.status.scheduled ≡ pos n
        → pos (suc n) <ℤ pg.min_member
        → suc n < 2147483648
        → ((bound_status now pg).phase ≡ scheduling)
          × ((bound_status now pg).scheduled ≡ pos (suc n))
    unfolding bound_status
    bound_status-below now n pg count below small =
        let sum : pos n +ℤ pos 1 ≡ pos (suc n) = omega int_laws in
        ground (arith, to_int32_small (suc n) small)

    -- A group in the phase Scheduling whose minimum is at least two above its count stays as it is.
    bind_all-scheduling :
        (pods : List (ℕ × Pod)) (n : ℕ) (pg : PodGroup Quantity)
        → All (λ (bound : ℕ × Pod). IsMember pg bound.1) pods
        → pg.status.phase ≡ scheduling
        → pg.status.scheduled ≡ pos n
        → pos (suc n) <ℤ pg.min_member
        → suc n < 2147483648
        → bind_all w pods pg ≡ pg
    bind_all-scheduling [] n pg members phase count below small = refl
    bind_all-scheduling ((now, pod) ∷ pods) n pg (member, members) phase count below small =
        let bound = bound_status-below now n pg count below small in
        rw (post_bind-unchanged now pod pg member (ground arith))
          (bind_all-scheduling pods n pg members phase count below small)

    -- When a pod of a group, and then any further pods of it, are bound one after the other, and
    -- each patch reaches the server and the lister before the next: if the group's minimum is
    -- three or more, its count was zero and its phase was not Scheduling, the group on the server
    -- counts one scheduled pod and stays in the phase Scheduling.
    pub bind_all-stuck :
        (now : ℕ) (pod : Pod) (pods : List (ℕ × Pod)) (pg : PodGroup Quantity)
        → IsMember pg pod
        → All (λ (bound : ℕ × Pod). IsMember pg bound.1) pods
        → pos 3 ≤ℤ pg.min_member
        → pg.status.scheduled ≡ pos 0
        → same_phase scheduling pg.status.phase ≡ false
        → ((bind_all w ((now, pod) ∷ pods) pg).status.scheduled ≡ pos 1)
          × ((bind_all w ((now, pod) ∷ pods) pg).status.phase ≡ scheduling)
    bind_all-stuck now pod pods pg member members large count phase =
        let first = bound_status-below now 0 pg count (omega arith) (omega arith) in
        let next : PodGroup Quantity = record pg { status = bound_status now pg } in
        let same : bind_all w ((now, pod) ∷ pods) pg ≡ next =
          ap (bind_all w pods) (post_bind-changed now pod pg member (ground arith))
          ∙ bind_all-scheduling pods 1 next members first.0 first.1 (omega arith) (omega arith) in
        rw same (first.1, first.0)
