-- ===== src/Controller/Requeue.antt =====
-- The work queue of the pod group controller (pkg/controller/podgroup.go): which keys syncHandler
-- puts back, and which groups are not queued again.
use mathlib.Core.Logic.Or
use mathlib.Core.List.{Mem, Mem-prop, mem-cons, not-mem-nil, mem-append_left, mem-append_right}
use flex_gpu_scheduler.Prelude.{
  subst, ap, sym, pos, ◌≤ℤ◌, ◌≢◌, Option-cases, Panics-cases, ℕ, zero, suc, ◌≡◌, refl, Bool, true,
  false, if◌then◌else◌, String, none, some, List, [], ◌∷◌, ◌++◌, ◌⊎◌, inl, inr, Panics, returns,
  panics, ◌>>=◌, arith, >>=-eq-returns,
}
use flex_gpu_scheduler.PodGroups.{Pod, PodGroup, PodGroupStatus}
use flex_gpu_scheduler.Controller.PodGroupSync.{
  Found, found, not_found, get_failed, Cluster, Outcome, patch_pod_group, sync_handler, sync_status,
  start, process_next_work_item,
}

Found-cases :
    {A : Type 0} (f : Found A) → ((a : A) × (f ≡ found a)) ⊎ ((f ≡ not_found) ⊎ (f ≡ get_failed))
Found-cases (found a) = inl (a, refl)
Found-cases not_found = inr (inl refl)
Found-cases get_failed = inr (inr refl)

module _ {Quantity : Type 0} (c : Cluster Quantity) where
  -- The queue after a number of its keys are worked on.
  abbrev pub work : ℕ → List (String × String) → Panics (List (String × String))
  work zero keys = returns keys
  work (suc n) keys = process_next_work_item c keys >>= work n

  module _ (namespace name : String) where
    sync_handler-gone :
        c.get_group namespace name ≡ not_found
        → sync_handler c namespace name
          ≡ returns (record { returns_error = false; requeued = true; stored = none })
    unfolding sync_handler
    sync_handler-gone gone = ground (arith, gone)

    -- A key in the rest of the queue stays, whatever becomes of the first.
    rest-kept :
        (b : Bool) (key : String × String) (keys : List (String × String))
        → Mem (namespace, name) keys
        → Mem (namespace, name) (if b then keys ++ (key ∷ []) else keys)
    rest-kept true key keys m = mem-append_left (key ∷ []) m
    rest-kept false key keys m = m

    process_next_work_item-kept :
        (keys after : List (String × String))
        → c.get_group namespace name ≡ not_found
        → process_next_work_item c keys ≡ returns after
        → Mem (namespace, name) keys
        → Mem (namespace, name) after
    unfolding process_next_work_item
    process_next_work_item-kept [] after gone e m = absurd (not-mem-nil m)
    process_next_work_item-kept (key ∷ keys) after gone e m =
        let (outcome, synced, put) =
          >>=-eq-returns (sync_handler c key.0 key.1)
            (λ outcome. returns (if outcome.requeued then keys ++ (key ∷ []) else keys)) e in
        let same : (if outcome.requeued then keys ++ (key ∷ []) else keys) ≡ after = cc in
        subst (Mem (namespace, name)) same (
          Or.elim Mem-prop (mem-cons.0 m)
            (λ first.
              let back : outcome.requeued ≡ true =
                let here : sync_handler c key.0 key.1 ≡ sync_handler c namespace name =
                  ap (λ (k : String × String). sync_handler c k.0 k.1) (sym first) in
                let gone' = sync_handler-gone gone in ground arith in
              rw back (mem-append_right keys (mem-cons.1 (Or.inl first))))
            (λ later. rest-kept outcome.requeued key keys later))

  sync_status-returns :
      (pg : PodGroup Quantity) (pods : List Pod)
      → pos 1 ≤ℤ pg.min_member
      → sync_status c.join_sorted pg.min_member pg.status pods ≢ panics
  unfolding sync_status start
  sync_status-returns pg pods positive e = ground arith

  -- No group in the cluster has a minimum below one.
  abbrev pub HasMinima : Type 0
  HasMinima =
      (namespace name : String) (pg : PodGroup Quantity)
      → c.get_group namespace name ≡ found pg
      → pos 1 ≤ℤ pg.min_member

  sync_handler-returns :
      HasMinima → (namespace name : String) → sync_handler c namespace name ≢ panics
  unfolding sync_handler
  sync_handler-returns minima namespace name e = elim (Found-cases (c.get_group namespace name)) [
    | inl (pg, is) ↦ elim (Option-cases (c.list_pods pg.name)) [
      | inl failure ↦ ground arith
      | inr (pods, listed) ↦
          let ok = sync_status-returns pg pods (minima namespace name pg is) in
          elim (Panics-cases (sync_status c.join_sorted pg.min_member pg.status pods)) [
            | inl stops ↦ ok stops
            | inr (after, goes) ↦ ground arith
          ]
    ]
    | inr missing ↦ ground arith
  ]

  process_next_work_item-returns :
      HasMinima → (keys : List (String × String)) → process_next_work_item c keys ≢ panics
  unfolding process_next_work_item
  process_next_work_item-returns minima [] e = cc
  process_next_work_item-returns minima (key ∷ keys) e =
      let ok = sync_handler-returns minima key.0 key.1 in
      elim (Panics-cases (sync_handler c key.0 key.1)) [
        | inl stops ↦ ok stops
        | inr (outcome, goes) ↦ ground arith
      ]

  -- In a cluster where no group's minimum is below one, the key of a group that is deleted is in
  -- the queue for ever: after any number of keys worked on, none of which panics, it is still
  -- there.
  pub work-deleted :
      (namespace name : String) (n : ℕ) (keys : List (String × String))
      → HasMinima
      → c.get_group namespace name ≡ not_found
      → Mem (namespace, name) keys
      → (after : List (String × String)) × (work n keys ≡ returns after)
        × Mem (namespace, name) after
  work-deleted namespace name zero keys minima gone m = (keys, refl, m)
  work-deleted namespace name (suc n) keys minima gone m =
      elim (Panics-cases (process_next_work_item c keys)) [
        | inl stops ↦ absurd (process_next_work_item-returns minima keys stops)
        | inr (next, goes) ↦
            let kept = process_next_work_item-kept namespace name keys next gone goes m in
            let (after, e, m') = work-deleted namespace name n next minima gone kept in
            (after, rw goes e, m')
      ]

  -- When syncHandler returns and its key is not put back, the group was found and its pods listed,
  -- the switch gave a status, and the server took that status, or it equals the group's own and
  -- nothing was stored.
  pub sync_handler-settled :
      (namespace name : String) (outcome : Outcome)
      → sync_handler c namespace name ≡ returns outcome
      → outcome.requeued ≡ false
      → (pg : PodGroup Quantity) × (pods : List Pod) × (after : PodGroupStatus) × (c.get_group
            namespace name
          ≡ found pg)
        × (c.list_pods pg.name ≡ some pods)
        × (sync_status c.join_sorted pg.min_member pg.status pods ≡ returns after)
        × ((outcome.stored ≡ some after)
            ⊎ ((outcome.stored ≡ none) × (c.deep_equal pg.status after ≡ true)))
  unfolding sync_handler patch_pod_group
  sync_handler-settled namespace name outcome e done =
      elim (Found-cases (c.get_group namespace name)) [
        | inl (pg, is) ↦ elim (Option-cases (c.list_pods pg.name)) [
          | inl failure ↦ ground arith
          | inr (pods, listed) ↦
              elim (Panics-cases (sync_status c.join_sorted pg.min_member pg.status pods)) [
                | inl stops ↦ ground arith
                | inr (after, goes) ↦ (pg, pods, after, is, listed, goes, ground arith)
              ]
        ]
        | inr missing ↦ ground arith
      ]
