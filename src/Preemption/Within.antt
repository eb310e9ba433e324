-- ===== src/Preemption/Within.antt =====
-- The pods that filterPodsWithPDBViolation calls non-violating keep every budget.
use flex_gpu_scheduler.Prelude.{
  ℕ, suc, ◌≤◌, ◌≡◌, ◌↔◌, refl, sym, ap, subst, ◌∙◌, ℤ, pos, ◌≤ℤ◌, Bool, true, false, if◌then◌else◌,
  List, [], ◌∷◌, map, length, All, arith, inl, inr, Bool-cases, if-true, if-false,
}
use flex_gpu_scheduler.Prelude.Int.{pos_part, parts_apart}
use flex_gpu_scheduler.Preemption.Budgets.{
  Pod, Selectors, Pdb, has_labels, charge, charge_pod, split_pods, filter_pods_with_pdb_violation,
}
use flex_gpu_scheduler.Preemption.Charge.{
  count_against, IsRoomy, Keeps, charge-IsRoomy, charge-Keeps, charge-enough, Keeps-nil,
  Keeps-unlabelled, IsRoomy-mono, Keeps-tail,
}

-- Two lists put together, each in its order.
pub data Interleaved {ℓ} {A : Type ℓ} : List A → List A → List A → Type ℓ where
  both_empty : Interleaved [] [] []
  from_left : {a : A} {xs ys zs : List A} → Interleaved xs ys zs → Interleaved (a ∷ xs) ys (a ∷ zs)
  from_right : {a : A} {xs ys zs : List A} → Interleaved xs ys zs → Interleaved xs (a ∷ ys) (a ∷ zs)

Interleaved-nil : {A : Type 0} {ys zs : List A} → Interleaved [] ys zs → ys ≡ zs
Interleaved-nil both_empty = refl
Interleaved-nil (from_right {a = a} i) = ap (λ l. a ∷ l) (Interleaved-nil i)

module _ (s : Selectors) where
  open s use {LabelSelector}

  split_pods-Interleaved :
      (pods : List Pod) (budgets : List (Pdb LabelSelector × ℤ))
      → let (violating, others) = split_pods s pods budgets in Interleaved violating others pods
  unfolding split_pods
  split_pods-Interleaved [] budgets = both_empty
  split_pods-Interleaved (pod ∷ pods) budgets =
      let rest = split_pods-Interleaved pods (charge_pod s pod budgets).0 in
      elim (charge_pod s pod budgets).1
        as (λ b.
          let (violating, others) = split_pods s pods (charge_pod s pod budgets).0 in
          let r : List Pod × List Pod =
            if b then (pod ∷ violating, others) else (violating, pod ∷ others) in
          Interleaved r.0 r.1 (pod ∷ pods)) [ true ↦ from_left rest | false ↦ from_right rest ]

  split_pods-Keeps :
      (pods : List Pod) (budgets : List (Pdb LabelSelector × ℤ))
      → All (IsRoomy s (length pods)) budgets
      → All (Keeps s (split_pods s pods budgets).1) budgets
  unfolding split_pods charge_pod
  split_pods-Keeps [] budgets roomy = Keeps-nil s budgets
  split_pods-Keeps (pod ∷ pods) budgets roomy = elim (Bool-cases (has_labels pod)) [
    | inr bare ↦
        let none_charged : charge_pod s pod budgets ≡ (budgets, false) = if-false _ _ bare in
        let rest = split_pods s pods budgets in
        let same : split_pods s (pod ∷ pods) budgets ≡ (rest.0, pod ∷ rest.1) =
          ap
            (λ (c : List (Pdb LabelSelector × ℤ) × Bool).
              let (violating, others) = split_pods s pods c.0 in
              let r : List Pod × List Pod =
                if c.1 then (pod ∷ violating, others) else (violating, pod ∷ others) in
              r)
            none_charged in
        subst (λ r. All (Keeps s r.1) budgets) (sym same)
          (Keeps-unlabelled s pod rest.1 budgets bare (
            split_pods-Keeps pods budgets
              (IsRoomy-mono s (length pods) (suc (length pods)) budgets (omega arith) roomy)))
    | inl labelled ↦
        let c = charge s pod budgets in
        let charged : charge_pod s pod budgets ≡ c = if-true _ _ labelled in
        let rest = split_pods s pods c.0 in
        let ih = split_pods-Keeps pods c.0 (charge-IsRoomy s pod (length pods) budgets roomy) in
        let (old, new) =
          charge-Keeps s pod rest.1 budgets labelled
            (IsRoomy-mono s 1 (suc (length pods)) budgets (omega arith) roomy) ih in
        let same : split_pods s (pod ∷ pods) budgets
            ≡ (if c.1 then (pod ∷ rest.0, rest.1) else (rest.0, pod ∷ rest.1)) =
          ap
            (λ (c : List (Pdb LabelSelector × ℤ) × Bool).
              let (violating, others) = split_pods s pods c.0 in
              let r : List Pod × List Pod =
                if c.1 then (pod ∷ violating, others) else (violating, pod ∷ others) in
              r)
            charged in
        elim (Bool-cases c.1) [
          | inl violated ↦
              subst (λ r. All (Keeps s r.1) budgets) (sym (same ∙ if-true _ _ violated)) old
          | inr kept ↦
              subst (λ r. All (Keeps s r.1) budgets) (sym (same ∙ if-false _ _ kept)) (new kept)
        ]
  ]

  split_pods-enough :
      (pods : List Pod) (budgets : List (Pdb LabelSelector × ℤ))
      → All (IsRoomy s (length pods)) budgets
      → All (Keeps s pods) budgets
      → (split_pods s pods budgets).0 ≡ []
  unfolding split_pods charge_pod
  split_pods-enough [] budgets roomy keeps = refl
  split_pods-enough (pod ∷ pods) budgets roomy keeps =
      let first : ((charge_pod s pod budgets).1 ≡ false)
          × All (Keeps s pods) (charge_pod s pod budgets).0
          × All (IsRoomy s (length pods)) (charge_pod s pod budgets).0 =
        elim (Bool-cases (has_labels pod)) [
          | inl labelled ↦
              let charged : charge_pod s pod budgets ≡ charge s pod budgets =
                if-true _ _ labelled in
              let (calm, later) =
                charge-enough s pod pods budgets labelled
                  (IsRoomy-mono s 1 (suc (length pods)) budgets (omega arith) roomy) keeps in
              subst
                (λ c. (c.1 ≡ false) × All (Keeps s pods) c.0 × All (IsRoomy s (length pods)) c.0)
                (sym charged) (calm, later, charge-IsRoomy s pod (length pods) budgets roomy)
          | inr bare ↦
              let same : charge_pod s pod budgets ≡ (budgets, false) = if-false _ _ bare in
              subst
                (λ c. (c.1 ≡ false) × All (Keeps s pods) c.0 × All (IsRoomy s (length pods)) c.0)
                (sym same)
                (
                  refl,
                  Keeps-tail s pod pods budgets keeps,
                  IsRoomy-mono s (length pods) (suc (length pods)) budgets (omega arith) roomy,
                )
        ] in
      let later = split_pods-enough pods (charge_pod s pod budgets).0 first.2 first.1 in
      ap (λ (r : List Pod × List Pod). r.0) (if-false _ _ first.0) ∙ later

  -- The entries of pdbsAllowed, at the start.
  abbrev pub IsInt32 : Pdb LabelSelector → Type 0
  IsInt32 pdb = (pos 0 ≤ℤ pdb.disruptions_allowed) × (pdb.disruptions_allowed ≤ℤ pos 2147483647)

  paired-IsRoomy :
      (n : ℕ) (pdbs : List (Pdb LabelSelector))
      → n ≤ 2147483648
      → All IsInt32 pdbs
      → All (IsRoomy s n) (map (λ (pdb : Pdb LabelSelector). (pdb, pdb.disruptions_allowed)) pdbs)
  paired-IsRoomy n [] few small = tt
  paired-IsRoomy n (pdb ∷ pdbs) few small =
      let apart = parts_apart pdb.disruptions_allowed in
      ((ground (arith, small.0), ground (arith, small.0)), paired-IsRoomy n pdbs few small.1)

  pub filter_pods_with_pdb_violation-Interleaved :
      (pods : List Pod) (pdbs : List (Pdb LabelSelector))
      → let (violating, others) = filter_pods_with_pdb_violation s pods pdbs in
        Interleaved violating others pods
  unfolding filter_pods_with_pdb_violation
  filter_pods_with_pdb_violation-Interleaved pods pdbs =
      split_pods-Interleaved pods
        (map (λ (pdb : Pdb LabelSelector). (pdb, pdb.disruptions_allowed)) pdbs)

  -- Every budget allows as many of the pods as count against it.
  abbrev pub AllKept : List Pod → List (Pdb LabelSelector) → Type 0
  AllKept pods =
      All λ (pdb : Pdb LabelSelector). count_against s pdb pods ≤ pos_part pdb.disruptions_allowed

  from_paired :
      (pods : List Pod) (pdbs : List (Pdb LabelSelector))
      → All (Keeps s pods) (map (λ (pdb : Pdb LabelSelector). (pdb, pdb.disruptions_allowed)) pdbs)
      → AllKept pods pdbs
  from_paired pods [] keeps = tt
  from_paired pods (pdb ∷ pdbs) keeps = (keeps.0, from_paired pods pdbs keeps.1)

  to_paired :
      (pods : List Pod) (pdbs : List (Pdb LabelSelector))
      → AllKept pods pdbs
      → All (Keeps s pods) (map (λ (pdb : Pdb LabelSelector). (pdb, pdb.disruptions_allowed)) pdbs)
  to_paired pods [] keeps = tt
  to_paired pods (pdb ∷ pdbs) keeps = (keeps.0, to_paired pods pdbs keeps.1)

  -- Where every budget has enough, no pod is violating.
  filter_pods_with_pdb_violation_enough :
      (pods : List Pod) (pdbs : List (Pdb LabelSelector))
      → length pods ≤ 2147483648
      → All IsInt32 pdbs
      → AllKept pods pdbs
      → (filter_pods_with_pdb_violation s pods pdbs).0 ≡ []
  unfolding filter_pods_with_pdb_violation
  filter_pods_with_pdb_violation_enough pods pdbs few small all =
      let budgets = map (λ (pdb : Pdb LabelSelector). (pdb, pdb.disruptions_allowed)) pdbs in
      let roomy = paired-IsRoomy (length pods) pdbs few small in
      split_pods-enough pods budgets roomy (to_paired pods pdbs all)

  -- For at most 2 ^ 31 pods, and budgets that allow an int32 that is not negative:
  -- filterPodsWithPDBViolation splits the pods in two, each part in the order of the pods; of its
  -- non-violating pods no more count against any budget than that allows; and it has no violating
  -- pods exactly when that holds of all pods.
  pub filter_pods_with_pdb_violation-AllKept :
      (pods : List Pod) (pdbs : List (Pdb LabelSelector))
      → length pods ≤ 2147483648
      → All IsInt32 pdbs
      → let (violating, others) = filter_pods_with_pdb_violation s pods pdbs in
        Interleaved violating others pods
        × AllKept others pdbs
        × ((violating ≡ []) ↔ AllKept pods pdbs)
  unfolding filter_pods_with_pdb_violation
  filter_pods_with_pdb_violation-AllKept pods pdbs few small =
      let (violating, others) = filter_pods_with_pdb_violation s pods pdbs in
      let budgets = map (λ (pdb : Pdb LabelSelector). (pdb, pdb.disruptions_allowed)) pdbs in
      let roomy = paired-IsRoomy (length pods) pdbs few small in
      let split = filter_pods_with_pdb_violation-Interleaved pods pdbs in
      let kept = from_paired others pdbs (split_pods-Keeps pods budgets roomy) in
      (
        split,
        kept,
        (
          λ e.
              let same = Interleaved-nil (subst (λ l. Interleaved l others pods) e split) in
              subst (λ l. AllKept l pdbs) same kept,
          filter_pods_with_pdb_violation_enough pods pdbs few small,
        ),
      )
