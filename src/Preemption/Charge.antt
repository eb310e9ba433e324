-- ===== src/Preemption/Charge.antt =====
-- One round of the loop on the budgets, for the proof that the pods that filterPodsWithPDBViolation calls non-violating keep every budget.
use flex_gpu_scheduler.Prelude.{
  ℕ, suc, ◌+◌, ◌≤◌, ◌<◌, ◌≡◌, refl, sym, ap, subst, ◌∙◌, ℤ, pos, ◌-ℤ◌, ltb_ℤ, Bool, true, false,
  ◌&&◌, ◌||◌, if◌then◌else◌, List, [], ◌∷◌, All, arith, inl, inr, Bool-cases, if-true, if-false,
}
use flex_gpu_scheduler.Prelude.Int.{pos_part, neg_part, -ℤ_parts, -ℤ_bound, parts_apart}
use flex_gpu_scheduler.PodGroups.{to_int32, to_int32_id}
use flex_gpu_scheduler.Preemption.Budgets.{Pod, Selectors, Pdb, has_labels, is_counted, charge}

to_int32_less :
    (a : ℤ) → pos_part a < 2147483648 → neg_part a < 2147483648 → to_int32 (a -ℤ pos 1) ≡ a -ℤ pos 1
to_int32_less a upper lower =
    let bound = -ℤ_bound a (pos 1) in to_int32_id (a -ℤ pos 1) (omega arith) (omega arith)

module _ (s : Selectors) where
  open s use {LabelSelector}

  -- How many of some pods count against a budget.
  abbrev pub count_against : Pdb LabelSelector → List Pod → ℕ
  count_against pdb [] = 0
  count_against pdb (pod ∷ pods) =
      (if has_labels pod && is_counted s pdb pod then 1 else 0) + count_against pdb pods

  -- So many pods can be charged without a wrap of the entry.
  abbrev pub IsRoomy : ℕ → Pdb LabelSelector × ℤ → Type 0
  IsRoomy n (pdb, allowed) = (pos_part allowed < 2147483648) × (neg_part allowed + n ≤ 2147483648)

  -- No more pods count against a budget than it allows.
  abbrev pub Keeps : List Pod → Pdb LabelSelector × ℤ → Type 0
  Keeps pods (pdb, allowed) = count_against pdb pods ≤ pos_part allowed

  charge-counted :
      (pod : Pod) (pdb : Pdb LabelSelector) (allowed : ℤ) (rest : List (Pdb LabelSelector × ℤ))
      → is_counted s pdb pod ≡ true
      → IsRoomy 1 (pdb, allowed)
      → charge s pod ((pdb, allowed) ∷ rest) ≡ (
        (pdb, allowed -ℤ pos 1) ∷ (charge s pod rest).0,
        ltb_ℤ (allowed -ℤ pos 1) (pos 0) || (charge s pod rest).1,
      )
  unfolding charge
  charge-counted pod pdb allowed rest counted roomy =
      let r = charge s pod rest in
      if-true _ _ counted
      ∙ ap (λ x. ((pdb, x) ∷ r.0, ltb_ℤ x (pos 0) || r.1))
          (to_int32_less allowed (omega arith) (omega arith))

  charge-free :
      (pod : Pod) (pdb : Pdb LabelSelector) (allowed : ℤ) (rest : List (Pdb LabelSelector × ℤ))
      → is_counted s pdb pod ≡ false
      → charge s pod ((pdb, allowed) ∷ rest)
        ≡ ((pdb, allowed) ∷ (charge s pod rest).0, (charge s pod rest).1)
  unfolding charge
  charge-free pod pdb allowed rest free = if-false _ _ free

  pub charge-IsRoomy :
      (pod : Pod) (n : ℕ) (budgets : List (Pdb LabelSelector × ℤ))
      → All (IsRoomy (suc n)) budgets
      → All (IsRoomy n) (charge s pod budgets).0
  unfolding charge
  charge-IsRoomy pod n [] roomy = tt
  charge-IsRoomy pod n ((pdb, allowed) ∷ rest) roomy =
      let bound = -ℤ_bound allowed (pos 1) in
      elim (Bool-cases (is_counted s pdb pod)) [
        | inl counted ↦
            let same = charge-counted pod pdb allowed rest counted (omega arith, omega arith) in
            subst (λ c. All (IsRoomy n) c.0) (sym same)
              ((omega arith, omega arith), charge-IsRoomy pod n rest roomy.1)
        | inr free ↦
            subst (λ c. All (IsRoomy n) c.0) (sym (charge-free pod pdb allowed rest free))
              ((omega arith, omega arith), charge-IsRoomy pod n rest roomy.1)
      ]

  -- What the budgets keep of the later pods, they keep of the pod and the later ones.
  pub charge-Keeps :
      (pod : Pod) (pods : List Pod) (budgets : List (Pdb LabelSelector × ℤ))
      → has_labels pod ≡ true
      → All (IsRoomy 1) budgets
      → All (Keeps pods) (charge s pod budgets).0
      → All (Keeps pods) budgets
        × ((charge s pod budgets).1 ≡ false → All (Keeps (pod ∷ pods)) budgets)
  unfolding charge
  charge-Keeps pod pods [] labelled roomy keeps = (tt, λ e. tt)
  charge-Keeps pod pods ((pdb, allowed) ∷ rest) labelled roomy keeps =
      let all = (pdb, allowed) ∷ rest in
      let parts = -ℤ_parts allowed (pos 1) in
      let bound = -ℤ_bound allowed (pos 1) in
      elim (Bool-cases (is_counted s pdb pod)) [
        | inl counted ↦
            let same = charge-counted pod pdb allowed rest counted roomy.0 in
            let kept = subst (λ c. All (Keeps pods) c.0) same keeps in
            let (old, new) = charge-Keeps pod pods rest labelled roomy.1 kept.1 in
            subst (λ c. All (Keeps pods) all × (c.1 ≡ false → All (Keeps (pod ∷ pods)) all))
              (sym same)
              ((omega (arith, kept.0), old), λ e. (ground (arith, kept.0), new (ground arith)))
        | inr free ↦
            let same = charge-free pod pdb allowed rest free in
            let kept = subst (λ c. All (Keeps pods) c.0) same keeps in
            let (old, new) = charge-Keeps pod pods rest labelled roomy.1 kept.1 in
            subst (λ c. All (Keeps pods) all × (c.1 ≡ false → All (Keeps (pod ∷ pods)) all))
              (sym same) ((kept.0, old), λ e. (ground (arith, kept.0), new e))
      ]

  pub Keeps-nil : (budgets : List (Pdb LabelSelector × ℤ)) → All (Keeps []) budgets
  Keeps-nil [] = tt
  Keeps-nil ((pdb, allowed) ∷ rest) = (omega arith, Keeps-nil rest)

  pub Keeps-unlabelled :
      (pod : Pod) (pods : List Pod) (budgets : List (Pdb LabelSelector × ℤ))
      → has_labels pod ≡ false
      → All (Keeps pods) budgets
      → All (Keeps (pod ∷ pods)) budgets
  Keeps-unlabelled pod pods [] bare keeps = tt
  Keeps-unlabelled pod pods ((pdb, allowed) ∷ rest) bare keeps =
      (ground (arith, keeps.0), Keeps-unlabelled pod pods rest bare keeps.1)

  pub IsRoomy-mono :
      (m n : ℕ) (budgets : List (Pdb LabelSelector × ℤ))
      → m ≤ n
      → All (IsRoomy n) budgets
      → All (IsRoomy m) budgets
  IsRoomy-mono m n [] h roomy = tt
  IsRoomy-mono m n ((pdb, allowed) ∷ rest) h roomy =
      ((omega arith, omega arith), IsRoomy-mono m n rest h roomy.1)

  -- Where every budget has enough for all pods, none is violated.
  pub charge-enough :
      (pod : Pod) (pods : List Pod) (budgets : List (Pdb LabelSelector × ℤ))
      → has_labels pod ≡ true
      → All (IsRoomy 1) budgets
      → All (Keeps (pod ∷ pods)) budgets
      → ((charge s pod budgets).1 ≡ false) × All (Keeps pods) (charge s pod budgets).0
  unfolding charge
  charge-enough pod pods [] labelled roomy keeps = (refl, tt)
  charge-enough pod pods ((pdb, allowed) ∷ rest) labelled roomy keeps =
      let (calm, later) = charge-enough pod pods rest labelled roomy.1 keeps.1 in
      let parts = -ℤ_parts allowed (pos 1) in
      let apart = parts_apart (allowed -ℤ pos 1) in
      let Good =
        λ (c : List (Pdb LabelSelector × ℤ) × Bool). (c.1 ≡ false) × All (Keeps pods) c.0 in
      elim (Bool-cases (is_counted s pdb pod)) [
        | inl counted ↦
            let enough : suc (count_against pdb pods) ≤ pos_part allowed =
              ground (arith, keeps.0) in
            subst Good (sym (charge-counted pod pdb allowed rest counted roomy.0))
              (ground arith, (ground arith, later))
        | inr free ↦
            subst Good (sym (charge-free pod pdb allowed rest free))
              (calm, (ground (arith, keeps.0), later))
      ]

  pub Keeps-tail :
      (pod : Pod) (pods : List Pod) (budgets : List (Pdb LabelSelector × ℤ))
      → All (Keeps (pod ∷ pods)) budgets
      → All (Keeps pods) budgets
  Keeps-tail pod pods [] keeps = tt
  Keeps-tail pod pods ((pdb, allowed) ∷ rest) keeps =
      (omega (arith, keeps.0), Keeps-tail pod pods rest keeps.1)
