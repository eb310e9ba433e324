-- ===== src/Capacity/Selected.antt =====
-- SelectVictimsOnNode of capacity scheduling (capacity_scheduling.go): whose pods its victims are, and
-- how it fails.
use mathlib.Core.List.{Mem, Mem-prop, Perm}
use mathlib.Core.List.Perm
use mathlib.Core.HLevel.{×_prop}
use mathlib.Core.Logic.{∥∥₁_prop, ∥∥₁_map}
use mathlib.Core.Option.{some-injective}
use flex_gpu_scheduler.Prelude.{
  ℕ, ◌⊎◌, ◌≡◌, refl, ap, subst, ◌∙◌, Bool, true, false, Option, none, some, List, [], ◌∷◌, All,
  arith, inl, inr, Bool-cases, Option-cases,
}
use flex_gpu_scheduler.Api.{Vendor}
use flex_gpu_scheduler.Capacity.Quota
use flex_gpu_scheduler.Capacity.Quota.{ElasticQuotaInfo}
use flex_gpu_scheduler.Capacity.Plugin.{PreFilterState}
use flex_gpu_scheduler.Capacity.Preemptor.{
  Snapshots, is_potential_victim, is_over_quota, take_victim, reprieve_pod, reprieve_victims,
  more_than_min, select_victims_on_node,
}
use flex_gpu_scheduler.Capacity.Victims.{
  IsAllowedInTurn, is_potential_victim-IsAllowed, reprieve_pod-All,
}
use flex_gpu_scheduler.Preemption.Budgets.{Pod, Selectors, Pdb, filter_pods_with_pdb_violation}
use flex_gpu_scheduler.Preemption.Within.{
  Interleaved, both_empty, from_left, from_right, filter_pods_with_pdb_violation-Interleaved,
}
use flex_gpu_scheduler.Preemption.DryRun.{
  Framework, errors, selected, Dry, fits, remove_pod, add_pod, collect, reprieve_all,
}
use flex_gpu_scheduler.Preemption.Chosen.{
  All-mem, mem-All, Passes, collect-Passes, collect-remove_each, reprieve_all-All,
}
use flex_gpu_scheduler.Preemption.Members.{mem_left, mem_right}

module _ (v : Vendor) (r : Quota.Framework v) (fw : Framework) (snapshots : Snapshots fw)
    (s : Selectors) (pdbs : List (Pdb s.LabelSelector)) (preemptor : Pod) where
  reprieve_victims-Mem :
      (request : PreFilterState) (potential_victims victims : List Pod) (n : ℕ) (dry end : Dry fw)
      → ((pods : List Pod) → Perm (fw.more_important_first pods) pods)
      → reprieve_victims v r fw snapshots s pdbs request preemptor potential_victims dry
        ≡ selected victims n end
      → All (λ p. Mem p potential_victims) victims
  unfolding reprieve_victims
  reprieve_victims-Mem request potential_victims victims n dry end sorts e =
      let P = λ (p : Pod). Mem p potential_victims in
      let sorted = fw.more_important_first potential_victims in
      let groups = filter_pods_with_pdb_violation s sorted pdbs in
      let split = filter_pods_with_pdb_violation-Interleaved s sorted pdbs in
      let first_all =
        All-mem P groups.0 (λ p m. (Perm.mem_iff (sorts potential_victims)).0 (mem_left split m)) in
      let second_all =
        All-mem P groups.1
          (λ p m. (Perm.mem_iff (sorts potential_victims)).0 (mem_right split m)) in
      let step = reprieve_pod v r fw snapshots request preemptor in
      elim (Option-cases (reprieve_all fw step groups.0 (dry, []))) [
        | inl bad ↦ ground arith
        | inr ((k, mid), first) ↦ elim (Option-cases (reprieve_all fw step groups.1 mid)) [
          | inl bad ↦ ground arith
          | inr ((j, last), second) ↦
              let keep = λ (pod : Pod) (a b : Dry fw × List Pod) (fitting : Bool).
                reprieve_pod-All v r fw snapshots P request preemptor pod a b fitting in
              let one =
                reprieve_all-All fw P step keep groups.0 k (dry, []) mid first_all tt first in
              let two = reprieve_all-All fw P step keep groups.1 j mid last second_all one second in
              let same : selected last.1 k last.0 ≡ selected victims n end = ground arith in
              let victims_same : last.1 ≡ victims = cc same in subst (λ l. All P l) victims_same two
        ]
      ]

  -- When SelectVictimsOnNode returns victims, and the sorts permute: each victim is a pod of the
  -- node that the rules allow when the loop over the sorted pods comes to it, in the dry run that
  -- the loop over the pods before it leaves, which is the one in which just the potential victims
  -- among them are removed. For a preemptor without a quota it is one without a quota and with a
  -- lower priority; for one whose quota with its request is over the minimum, one of its own
  -- namespace with a lower priority; for any other, one of another namespace whose quota is over
  -- its minimum.
  pub select_victims_on_node-IsAllowed :
      (request : PreFilterState) (state : fw.CycleState) (node : fw.NodeInfo) (victims : List Pod)
      (n : ℕ) (end : Dry fw)
      → ((pods : List Pod) → Perm (fw.more_important_first pods) pods)
      → Perm (fw.pods (snapshots.sort_pods node)) (fw.pods node)
      → snapshots.get_pre_filter_state state ≡ some request
      → select_victims_on_node v r fw snapshots s pdbs preemptor (state, node)
        ≡ selected victims n end
      → (pod : Pod) → Mem pod victims
      → Mem pod (fw.pods node)
        × IsAllowedInTurn v r fw snapshots request
            (state, snapshots.sort_pods node)
            (fw.pods (snapshots.sort_pods node))
            preemptor
            pod
  unfolding select_victims_on_node
  select_victims_on_node-IsAllowed request state node victims n end sorts sorted known e pod mem =
      let dry : Dry fw = (state, snapshots.sort_pods node) in
      let more = more_than_min v r fw snapshots request preemptor dry in
      let test =
        λ (d : Dry fw) (p : Pod). some (is_potential_victim v r fw snapshots more preemptor d p) in
      let on_node = fw.pods (snapshots.sort_pods node) in
      elim (Option-cases (snapshots.get_elastic_quota_snapshot_state state)) [
        | inl bad ↦ ground arith
        | inr (quotas, has) ↦ elim (Option-cases (collect fw test preemptor on_node dry)) [
          | inl bad ↦ ground arith
          | inr (([], dry'), collected) ↦ ground arith
          | inr ((first ∷ rest, dry'), collected) ↦ elim (Bool-cases (fits fw preemptor dry')) [
            | inr unfit ↦ ground arith
            | inl good ↦
                elim (Bool-cases
                  (is_over_quota v r fw snapshots preemptor request.pod_req request.pod_req dry')) [
                    | inl over ↦ ground arith
                    | inr under ↦
                        let same : reprieve_victims v r fw snapshots s pdbs request preemptor
                              (first ∷ rest) dry'
                            ≡ selected victims n end =
                          ground arith in
                        let all =
                          reprieve_victims-Mem request (first ∷ rest) victims n dry' end sorts
                            same in
                        let potential =
                          mem-All (λ p. Mem p (first ∷ rest)) victims (λ p. Mem-prop) all pod mem in
                        let passed =
                          mem-All (λ p. Mem p on_node × Passes fw test preemptor on_node dry p)
                            (first ∷ rest) (λ p. ×_prop Mem-prop ∥∥₁_prop)
                            (collect-Passes fw test preemptor on_node (first ∷ rest) dry dry'
                              collected)
                            pod potential in
                        (
                          (Perm.mem_iff sorted).0 passed.0,
                          ∥∥₁_map passed.1 (λ (before, after, removed, at, split, reached, tested).
                              (
                                before,
                                after,
                                removed,
                                at,
                                split,
                                reached,
                                collect-remove_each fw test preemptor before removed dry at reached,
                                is_potential_victim-IsAllowed v r fw snapshots more preemptor at pod
                                    (some-injective _ _ tested),
                              )),
                        )
                  ]
          ]
        ]
      ]

  one_group :
      (pi : Pod) (xs ys : List Pod)
      → Interleaved xs ys (pi ∷ [])
      → ((xs ≡ pi ∷ []) × (ys ≡ [])) ⊎ ((xs ≡ []) × (ys ≡ pi ∷ []))
  one_group pi (x ∷ xs) ys (from_left both_empty) = inl (refl, refl)
  one_group pi xs (y ∷ ys) (from_right both_empty) = inr (refl, refl)

  remove_pod_again :
      (pi : Pod) (dry1 dry2 : Dry fw)
      → ((node : fw.NodeInfo)
          → fw.node_remove_pod dry1.1 pi ≡ some node
          → fw.node_remove_pod node pi ≡ none)
      → remove_pod fw preemptor pi dry1 ≡ some dry2
      → remove_pod fw preemptor pi dry2 ≡ none
  unfolding remove_pod
  remove_pod_again pi dry1 dry2 gone removed = elim (Option-cases (fw.node_remove_pod dry1.1 pi)) [
    | inl bad ↦ ground arith
    | inr (node, left) ↦
        let again = gone node left in
        let call = fw.run_remove_pod dry1.0 preemptor pi node in
        elim (Bool-cases call.1) [
          | inr failed ↦ ground arith
          | inl success ↦
              let same : ◌≡◌ {A = Option (Dry fw)} (some (call.0, node)) (some dry2) =
                ground arith in
              subst (λ (d : Dry fw). remove_pod fw preemptor pi d ≡ none) (some-injective _ _ same)
                (ground arith)
        ]
  ]

  -- The requests of the checks in reprievePod.
  abbrev pub exceeds : PreFilterState → Dry fw → Bool
  exceeds request =
      is_over_quota v r fw snapshots preemptor request.nominated_pods_req_in_eq_with_pod_req
        request.nominated_pods_req_with_pod_req

  reprieve_pod_twice :
      (request : PreFilterState) (pi : Pod) (dry dry1 dry2 : Dry fw) (victims : List Pod)
      → ((node : fw.NodeInfo)
          → fw.node_remove_pod dry1.1 pi ≡ some node
          → fw.node_remove_pod node pi ≡ none)
      → add_pod fw preemptor pi dry ≡ some dry1
      → fits fw preemptor dry1 ≡ false
      → remove_pod fw preemptor pi dry1 ≡ some dry2
      → exceeds request dry2 ≡ true
      → reprieve_pod v r fw snapshots request preemptor pi (dry, victims) ≡ none
  unfolding reprieve_pod take_victim
  reprieve_pod_twice request pi dry dry1 dry2 victims gone added unfit removed over =
      let again = remove_pod_again pi dry1 dry2 gone removed in ground arith

  -- When the only potential victim does not fit beside the preemptor, and the quotas are still
  -- exceeded once it is off the node again, where removing it a second time fails: the node is
  -- given up with an error, and the pod is no victim.
  pub reprieve_victims-twice :
      (request : PreFilterState) (pi : Pod) (dry dry1 dry2 : Dry fw)
      → ((node : fw.NodeInfo)
          → fw.node_remove_pod dry1.1 pi ≡ some node
          → fw.node_remove_pod node pi ≡ none)
      → fw.more_important_first (pi ∷ []) ≡ pi ∷ []
      → add_pod fw preemptor pi dry ≡ some dry1
      → fits fw preemptor dry1 ≡ false
      → remove_pod fw preemptor pi dry1 ≡ some dry2
      → exceeds request dry2 ≡ true
      → reprieve_victims v r fw snapshots s pdbs request preemptor (pi ∷ []) dry ≡ errors
  unfolding reprieve_victims reprieve_all
  reprieve_victims-twice request pi dry dry1 dry2 gone alone added unfit removed over =
      let step = reprieve_pod v r fw snapshots request preemptor in
      let failed = reprieve_pod_twice request pi dry dry1 dry2 [] gone added unfit removed over in
      let sorted = fw.more_important_first (pi ∷ []) in
      let groups = filter_pods_with_pdb_violation s sorted pdbs in
      let split =
        subst (λ l. Interleaved groups.0 groups.1 l) alone
          (filter_pods_with_pdb_violation-Interleaved s sorted pdbs) in
      let stuck : reprieve_all fw step (pi ∷ []) (dry, []) ≡ none = ground arith in
      elim (one_group pi groups.0 groups.1 split) [
        | inl (first, second) ↦
            let none_left : reprieve_all fw step groups.0 (dry, []) ≡ none =
              ap (λ l. reprieve_all fw step l (dry, [])) first ∙ stuck in
            ground arith
        | inr (first, second) ↦
            let start : reprieve_all fw step groups.0 (dry, []) ≡ some (0, (dry, [])) =
              ap (λ l. reprieve_all fw step l (dry, [])) first in
            let none_left : reprieve_all fw step groups.1 (dry, []) ≡ none =
              ap (λ l. reprieve_all fw step l (dry, [])) second ∙ stuck in
            ground arith
      ]
