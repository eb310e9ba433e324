-- ===== src/Toleration/Selected.antt =====
-- SelectVictimsOnNode (preemption_toleration.go): who the victims are, and that none is spared in
-- vain.
use mathlib.Core.List.{mem-append, Mem, Perm, Mem-prop}
use mathlib.Core.List.Perm
use mathlib.Core.Logic.Or
use flex_gpu_scheduler.Prelude.{
  ℕ, ◌≤◌, ◌≡◌, ap, subst, ◌∙◌, ℤ, ◌<ℤ◌, Bool, true, false, String, Option, some, List, [], ◌∷◌, All,
  length, length-append, keep_if, mem-keep_if, value_or, arith, inl, inr, Bool-cases, Option-cases,
}
use flex_gpu_scheduler.Preemption.Budgets.{Pod, Selectors, Pdb}
use flex_gpu_scheduler.Preemption.Within.{filter_pods_with_pdb_violation-Interleaved}
use flex_gpu_scheduler.Preemption.Members.{mem_left, mem_right}
use flex_gpu_scheduler.Preemption.DryRun.{
  Framework, selected, Dry, fits, remove_pod, add_pod, collect,
}
use flex_gpu_scheduler.Preemption.Monotone.{Monotone}
use flex_gpu_scheduler.Toleration.Policy.{PriorityClass, exempted_from_preemption}
use flex_gpu_scheduler.Toleration.Node.{
  reprieve_victims, is_potential_victim, select_victims_on_node,
}
use flex_gpu_scheduler.Toleration.Victims.{WasNeeded, Chosen, reprieve_victims-Chosen}

collect-keep_if :
    (fw : Framework) (preemptor : Pod) (test : Pod → Option Bool) (pods victims : List Pod)
    (dry end : Dry fw)
    → collect fw (λ dry. test) preemptor pods dry ≡ some (victims, end)
    → victims ≡ keep_if (λ pod. value_or false (test pod)) pods
unfolding collect
collect-keep_if fw preemptor test [] victims dry end e = cc
collect-keep_if fw preemptor test (pod ∷ pods) victims dry end e = elim (Option-cases (test pod)) [
  | inl bad ↦ ground arith
  | inr (is_victim, tested) ↦ elim (Bool-cases is_victim) [
    | inr spared ↦
        let later : collect fw (λ dry. test) preemptor pods dry ≡ some (victims, end) =
          ground arith in
        let rest = collect-keep_if fw preemptor test pods victims dry end later in ground arith
    | inl chosen ↦ elim (Option-cases (remove_pod fw preemptor pod dry)) [
      | inl bad ↦ ground arith
      | inr (dry', removed) ↦ elim (Option-cases (collect fw (λ dry. test) preemptor pods dry')) [
        | inl bad ↦ ground arith
        | inr ((later, last), collected) ↦
            let rest = collect-keep_if fw preemptor test pods later dry' last collected in
            ground arith
      ]
    ]
  ]
]

module _ (fw : Framework) (preemptor : Pod) (m : Monotone fw preemptor) where
  mem-Chosen :
      (s : Selectors) (pdbs : List (Pdb s.LabelSelector)) (potential_victims victims : List Pod)
      (n : ℕ) (dry end : Dry fw) (pod : Pod)
      → ((pods : List Pod) → Perm (fw.more_important_first pods) pods)
      → Chosen fw preemptor m s pdbs potential_victims victims n dry end
      → Mem pod victims
      → Mem pod potential_victims
  mem-Chosen s pdbs potential_victims victims n dry end pod sorts c mem =
      let split =
        filter_pods_with_pdb_violation-Interleaved s (fw.more_important_first potential_victims)
          pdbs in
      let sorted =
        Or.elim Mem-prop (mem-append.0 (subst (λ l. Mem pod l) c.together mem))
          (λ first. mem_left split (mem_left c.split_violating first))
          (λ second. mem_right split (mem_left c.split_others second)) in
      (Perm.mem_iff (sorts potential_victims)).0 sorted

  module _ (parse_int : ℕ → String → Option ℤ) (get : String → Option PriorityClass) where
    is_potential_victim-lower :
        (cur_time : ℤ) (pod : Pod)
        → value_or false (is_potential_victim fw parse_int get preemptor cur_time pod) ≡ true
        → (pod.priority <ℤ preemptor.priority)
          × (exempted_from_preemption parse_int get pod preemptor cur_time ≡ some false)
    unfolding is_potential_victim
    is_potential_victim-lower cur_time pod e =
        elim (Option-cases (exempted_from_preemption parse_int get pod preemptor cur_time)) [
          | inl bad ↦ ground arith
          | inr (exempted, known) ↦ (ground arith, ground arith)
        ]

    module _ (s : Selectors) (pdbs : List (Pdb s.LabelSelector)) (cur_time : ℤ) (victims : List Pod)
        (n : ℕ) (dry end : Dry fw) where
      select_victims_on_node-Chosen :
          select_victims_on_node fw parse_int get s pdbs cur_time preemptor dry
            ≡ selected victims n end
          → (dry' : Dry fw) × (fits fw preemptor dry' ≡ true)
            × Chosen fw preemptor m s pdbs
                (keep_if
                  (λ pod.
                    value_or false (is_potential_victim fw parse_int get preemptor cur_time pod))
                  (fw.pods dry.1))
                victims
                n
                dry'
                end
      unfolding select_victims_on_node
      select_victims_on_node-Chosen e =
          let test = is_potential_victim fw parse_int get preemptor cur_time in
          elim (Option-cases (collect fw (λ dry. test) preemptor (fw.pods dry.1) dry)) [
            | inl bad ↦ ground arith
            | inr (([], dry'), collected) ↦ ground arith
            | inr ((first ∷ rest, dry'), collected) ↦ elim (Bool-cases (fits fw preemptor dry')) [
              | inr bad ↦ ground arith
              | inl good ↦
                  let same : reprieve_victims fw s pdbs preemptor (first ∷ rest) dry'
                      ≡ selected victims n end =
                    ground arith in
                  let chosen =
                    reprieve_victims-Chosen fw preemptor m s pdbs (first ∷ rest) victims n dry' end
                      same in
                  let all =
                    collect-keep_if fw preemptor test (fw.pods dry.1) (first ∷ rest) dry dry'
                      collected in
                  (
                    dry',
                    good,
                    subst (λ l. Chosen fw preemptor m s pdbs l victims n dry' end) all chosen,
                  )
            ]
          ]

      -- With filters for which fewer pods leave more room, and for which a pod that is added and
      -- removed again makes no difference, and a sort that permutes: when SelectVictimsOnNode
      -- returns victims, the preemptor fits on the node that it leaves, the number of violating
      -- victims is at most the number of victims, and each victim is a pod of the node with a
      -- lower priority than the preemptor's that is not exempted from preemption by it.
      pub select_victims_on_node-lower :
          ((pods : List Pod) → Perm (fw.more_important_first pods) pods)
          → select_victims_on_node fw parse_int get s pdbs cur_time preemptor dry
            ≡ selected victims n end
          → (fits fw preemptor end ≡ true)
            × (n ≤ length victims)
            × ((pod : Pod)
                → Mem pod victims
                → Mem pod (fw.pods dry.1)
                  × (pod.priority <ℤ preemptor.priority)
                  × (exempted_from_preemption parse_int get pod preemptor cur_time ≡ some false))
      select_victims_on_node-lower sorts e =
          let test = λ (pod : Pod).
            value_or false (is_potential_victim fw parse_int get preemptor cur_time pod) in
          let (dry', good, c) = select_victims_on_node-Chosen e in
          let numbers =
            ap (λ (l : List Pod). length l) c.together ∙ length-append c.violating c.others in
          (
            c.still_fits good,
            omega (arith, numbers, c.counted),
            λ pod mem.
                let (on_node, tested) = (mem-keep_if test pod (fw.pods dry.1)).0 (
                  mem-Chosen s pdbs (keep_if test (fw.pods dry.1)) victims n dry' end pod sorts c
                    mem) in
                let (lower, exempted) = is_potential_victim-lower cur_time pod tested in
                (on_node, lower, exempted),
          )

      All-tight :
          (pods : List Pod)
          → All (WasNeeded fw preemptor m end) pods
          → All
              (λ pod.
                (with_pod : Dry fw)
                → add_pod fw preemptor pod end ≡ some with_pod
                → fits fw preemptor with_pod ≡ false)
              pods
      All-tight [] h = tt
      All-tight (pod ∷ pods) ((a, b, fuller, added, unfit), h) = (
        λ d e. elim (Bool-cases (fits fw preemptor d)) [
          | inr unfitting ↦ unfitting
          | inl fitting ↦
              cc (m.fits-Fuller b d (m.add_pod-Fuller pod a end b d fuller added e) fitting, unfit)
        ],
        All-tight pods h,
      )

      -- With filters for which fewer pods leave more room, and for which a pod that is added and
      -- removed again makes no difference: no victim that SelectVictimsOnNode returns could be
      -- spared, as the preemptor would not fit on the node that it leaves with that victim put
      -- back.
      pub select_victims_on_node-needed :
          select_victims_on_node fw parse_int get s pdbs cur_time preemptor dry
            ≡ selected victims n end
          → All
              (λ pod.
                (with_pod : Dry fw)
                → add_pod fw preemptor pod end ≡ some with_pod
                → fits fw preemptor with_pod ≡ false)
              victims
      select_victims_on_node-needed e =
          let (dry', good, c) = select_victims_on_node-Chosen e in All-tight victims c.needed
