-- ===== src/Toleration/Policy.antt =====
-- Policy and parsePreemptionTolerationPolicy (pkg/preemptiontoleration/preemption_toleration_policy.go),
-- and ExemptedFromPreemption (preemption_toleration.go). Times are nanoseconds.
use Prim.Native.String.{◌++◌ as str_append}
use flex_gpu_scheduler.Prelude.{
  ℕ, ℤ, pos, ◌+ℤ◌, ltb_ℤ, leb_ℤ, Bool, true, false, if◌then◌else◌, str_eq, String, Map, lookup,
  Option, none, some, value_or,
}
use flex_gpu_scheduler.PodGroups.{to_int32, to_int64, seconds}
use flex_gpu_scheduler.Preemption.Budgets.{Pod}

-- A PriorityClass.
pub record PriorityClass : Type 0 where
  pub value : ℤ
  pub annotations : Map String

pub record Policy : Type 0 where
  pub minimum_preemptable_priority : ℤ
  pub toleration_seconds : ℤ

abbrev pub annotation_key_prefix : String
annotation_key_prefix = "preemption-toleration.scheduling.sigs.k8s.io/"

abbrev pub annotation_key_minimum_preemptable_priority : String
annotation_key_minimum_preemptable_priority =
    str_append annotation_key_prefix "minimum-preemptable-priority"

abbrev pub annotation_key_toleration_seconds : String
annotation_key_toleration_seconds = str_append annotation_key_prefix "toleration-seconds"

-- The parameter is strconv.ParseInt in base 10, for a size in bits; `none` is its error.
module _ (parse_int : ℕ → String → Option ℤ) where
  -- The annotation for the priority, or its default.
  unfoldable pub parse_minimum : PriorityClass → Option ℤ
  parse_minimum pc = elim (lookup annotation_key_minimum_preemptable_priority pc.annotations) [
    | none ↦ some (to_int32 (pc.value +ℤ pos 1))
    | some text ↦ elim (parse_int 32 text) [ none ↦ none | some z ↦ some (to_int32 z) ]
  ]

  -- The annotation for the seconds, or its default.
  unfoldable pub parse_seconds : PriorityClass → Option ℤ
  parse_seconds pc = elim (lookup annotation_key_toleration_seconds pc.annotations) [
    | none ↦ some (pos 0)
    | some text ↦ parse_int 64 text
  ]

  -- parsePreemptionTolerationPolicy
  unfoldable pub parse_preemption_toleration_policy : PriorityClass → Option Policy
  parse_preemption_toleration_policy pc = elim (parse_minimum pc) [
    | none ↦ none
    | some minimum ↦ elim (parse_seconds pc) [
      | none ↦ none
      | some s ↦ some (record { minimum_preemptable_priority = minimum; toleration_seconds = s })
    ]
  ]

  -- The check of the toleration seconds.
  unfoldable pub tolerates_for : Policy → Pod → ℤ → Bool
  tolerates_for policy victim now =
      if ltb_ℤ policy.toleration_seconds (pos 0) then true else elim victim.scheduled_condition [
        | none ↦ true
        | some (is_true, scheduled_at) ↦
            if is_true
            then ltb_ℤ now (scheduled_at +ℤ to_int64 (seconds policy.toleration_seconds))
            else true
      ]

  -- What follows on the check of the preemptor's policy.
  unfoldable pub tolerates : PriorityClass → Pod → Pod → ℤ → Bool
  tolerates victim_class victim preemptor now =
      elim (parse_preemption_toleration_policy victim_class) [
        | none ↦ false
        | some policy ↦
            if leb_ℤ policy.minimum_preemptable_priority preemptor.priority
            then false
            else tolerates_for policy victim now
      ]

  -- ExemptedFromPreemption, with the lister of priority classes; `none` is the lister's error.
  unfoldable pub exempted_from_preemption :
      (String → Option PriorityClass) → Pod → Pod → ℤ → Option Bool
  exempted_from_preemption get victim preemptor now =
      if str_eq victim.priority_class_name ""
      then some false
      else elim (get victim.priority_class_name) [
        | none ↦ none
        | some victim_class ↦
            if value_or false preemptor.preempt_never
            then some true
            else some (tolerates victim_class victim preemptor now)
      ]
