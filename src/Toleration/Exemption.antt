-- ===== src/Toleration/Exemption.antt =====
-- How long a pod is exempted from preemption (preemption_toleration.go).
use flex_gpu_scheduler.Prelude.{
  ℕ, ◌*◌, ◌<◌, ◌≤◌, ◌≡◌, refl, ap, ◌∙◌, subst, ℤ, pos, ◌+ℤ◌, ◌≤ℤ◌, ◌<ℤ◌, ltb_ℤ, leb_ℤ, Bool, true,
  false, if◌then◌else◌, str_eq, String, lookup, Option, none, some, value_or, arith, inl, inr,
  Option-cases,
}
use flex_gpu_scheduler.Prelude.Int.{pos_part, neg_part, +ℤ_parts, +ℤ_bound, parts_apart}
use flex_gpu_scheduler.PodGroups.{to_int32, to_int32_id, to_int64}
use flex_gpu_scheduler.Preemption.Budgets.{Pod}
use flex_gpu_scheduler.Toleration.Policy.{
  PriorityClass, Policy, annotation_key_minimum_preemptable_priority, parse_minimum, parse_seconds,
  parse_preemption_toleration_policy, tolerates_for, tolerates, exempted_from_preemption,
}

module _ (parse_int : ℕ → String → Option ℤ) where
  tolerates_for_mono :
      (policy : Policy) (victim : Pod) (s t : ℤ)
      → t ≤ℤ s
      → tolerates_for parse_int policy victim s ≡ true
      → tolerates_for parse_int policy victim t ≡ true
  unfolding tolerates_for
  tolerates_for_mono policy victim s t earlier e = ground arith

  tolerates_mono :
      (victim_class : PriorityClass) (victim p q : Pod) (s t : ℤ)
      → q.priority ≤ℤ p.priority
      → t ≤ℤ s
      → tolerates parse_int victim_class victim p s ≡ true
      → tolerates parse_int victim_class victim q t ≡ true
  unfolding tolerates
  tolerates_mono victim_class victim p q s t lower earlier e =
      elim (parse_preemption_toleration_policy parse_int victim_class)
          as (λ o.
            let test : Pod → ℤ → Bool = λ pod now. elim o [
              | none ↦ false
              | some policy ↦
                  if leb_ℤ policy.minimum_preemptable_priority pod.priority
                  then false
                  else tolerates_for parse_int policy victim now
            ] in
            test p s ≡ true → test q t ≡ true) [
              | none ↦ λ h. h
              | some policy ↦ λ h. ground (arith, tolerates_for_mono policy victim s t earlier)
            ]
        e

  -- A pod that is exempted from preemption by a preemptor at a time is exempted from every
  -- preemptor with the same preemption policy and no higher a priority, at every time that is no
  -- later.
  pub exempted_from_preemption_mono :
      (get : String → Option PriorityClass) (victim p q : Pod) (s t : ℤ)
      → q.preempt_never ≡ p.preempt_never
      → q.priority ≤ℤ p.priority
      → t ≤ℤ s
      → exempted_from_preemption parse_int get victim p s ≡ some true
      → exempted_from_preemption parse_int get victim q t ≡ some true
  unfolding exempted_from_preemption
  exempted_from_preemption_mono get victim p q s t same lower earlier e =
      elim (get victim.priority_class_name)
          as (λ o.
            let test = λ (pod : Pod) (now : ℤ).
              if str_eq victim.priority_class_name "" then some false else elim o [
                | none ↦ none
                | some victim_class ↦
                    if value_or false pod.preempt_never
                    then some true
                    else some (tolerates parse_int victim_class victim pod now)
              ] in
            test p s ≡ some true → test q t ≡ some true) [
              | none ↦ λ h. h
              | some victim_class ↦
                  λ h. ground (arith, tolerates_mono victim_class victim p q s t lower earlier)
            ]
        e

  exempted_from_preemption-scheduled :
      (get : String → Option PriorityClass) (victim preemptor : Pod) (victim_class : PriorityClass)
      (minimum scheduled_at now : ℤ) (n : ℕ)
      → str_eq victim.priority_class_name "" ≡ false
      → get victim.priority_class_name ≡ some victim_class
      → value_or false preemptor.preempt_never ≡ false
      → parse_preemption_toleration_policy parse_int victim_class
        ≡ some (record { minimum_preemptable_priority = minimum; toleration_seconds = pos n })
      → preemptor.priority <ℤ minimum
      → victim.scheduled_condition ≡ some (true, scheduled_at)
      → exempted_from_preemption parse_int get victim preemptor now
        ≡ some (ltb_ℤ now (scheduled_at +ℤ to_int64 (pos (n * 1000000000))))
  unfolding exempted_from_preemption tolerates tolerates_for
  exempted_from_preemption-scheduled get victim preemptor victim_class minimum scheduled_at now n
        named found eager parsed below scheduled =
      ground arith

  -- A pod that was scheduled at a time, whose class asks for a toleration of more than 9223372036
  -- seconds, and at most 18446744073, is not exempted from a preemptor below the class's minimum
  -- priority, whose policy is not Never, at any time from when it was scheduled.
  pub exempted_from_preemption-wrapped :
      (get : String → Option PriorityClass) (victim preemptor : Pod) (victim_class : PriorityClass)
      (minimum scheduled_at now : ℤ) (n : ℕ)
      → str_eq victim.priority_class_name "" ≡ false
      → get victim.priority_class_name ≡ some victim_class
      → value_or false preemptor.preempt_never ≡ false
      → parse_preemption_toleration_policy parse_int victim_class
        ≡ some (record { minimum_preemptable_priority = minimum; toleration_seconds = pos n })
      → preemptor.priority <ℤ minimum
      → victim.scheduled_condition ≡ some (true, scheduled_at)
      → 9223372036 < n
      → n ≤ 18446744073
      → scheduled_at ≤ℤ now
      → exempted_from_preemption parse_int get victim preemptor now ≡ some false
  unfolding to_int64
  exempted_from_preemption-wrapped get victim preemptor victim_class minimum scheduled_at now n
        named found eager parsed below scheduled many most past =
      let parts = +ℤ_parts scheduled_at (to_int64 (pos (n * 1000000000))) in
      exempted_from_preemption-scheduled get victim preemptor victim_class minimum scheduled_at now
        n named found eager parsed below scheduled
      ∙ ap (λ (b : Bool). some b) (ground arith)

  -- A pod whose class is found, sets no minimum preemptable priority, and has the pod's own
  -- priority for its value, is never exempted from a preemptor with a higher priority, both of
  -- them int32 values, whose preemption policy is not Never: the plugin falls back to preemption
  -- by priority.
  pub exempted_from_preemption-default :
      (get : String → Option PriorityClass) (victim preemptor : Pod) (victim_class : PriorityClass)
      → get victim.priority_class_name ≡ some victim_class
      → lookup annotation_key_minimum_preemptable_priority victim_class.annotations ≡ none
      → victim.priority ≡ victim_class.value
      → value_or false preemptor.preempt_never ≡ false
      → pos_part preemptor.priority < 2147483648
      → neg_part victim.priority ≤ 2147483648
      → victim.priority <ℤ preemptor.priority
      → (now : ℤ) → exempted_from_preemption parse_int get victim preemptor now ≡ some false
  unfolding exempted_from_preemption tolerates parse_preemption_toleration_policy parse_minimum
  exempted_from_preemption-default get victim preemptor victim_class found plain same eager upper
        lower higher now =
      let higher' : victim_class.value <ℤ preemptor.priority =
        subst (λ z. z <ℤ preemptor.priority) same higher in
      let lower' : neg_part victim_class.value ≤ 2147483648 =
        subst (λ z. neg_part z ≤ 2147483648) same lower in
      let next = victim_class.value +ℤ pos 1 in
      let parts = +ℤ_parts victim_class.value (pos 1) in
      let bound = +ℤ_bound victim_class.value (pos 1) in
      let apart = parts_apart next in
      let exact : to_int32 next ≡ next = to_int32_id next (omega arith) (omega arith) in
      let reached : leb_ℤ (to_int32 next) preemptor.priority ≡ true = ground arith in
      let minimum : parse_minimum parse_int victim_class ≡ some (to_int32 next) =
        rw (parse_minimum, plain) refl in
      let never : tolerates parse_int victim_class victim preemptor now ≡ false =
        elim (Option-cases (parse_seconds parse_int victim_class)) [
          | inl unread ↦ ground arith
          | inr (read, e) ↦ ground arith
        ] in
      ground arith
