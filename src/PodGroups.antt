-- ===== src/PodGroups.antt =====
-- Pods and pod groups as the gang-scheduling code reads them (apis/scheduling/v1alpha1/types.go),
-- and the helpers of pkg/util/podgroup.go.
use Prim.Native.String.{◌++◌ as str_append}
use text.Mathlib.TextLemmas.{append-eq-nil_iff}
use flex_gpu_scheduler.Prelude.Int.{pos_part, neg_part}
use flex_gpu_scheduler.Prelude.{
  ◌≤◌, ℕ, ◌+◌, ◌-◌, ◌*◌, ◌%◌, ◌<◌, ℤ, pos, negsuc, ◌≡◌, ◌≢◌, inl, inr, eq_iff, Bool-cases, Bool,
  true, false, List, if◌then◌else◌, ltb, ◌==◌, str_eq, String, Map, lookup, value_or, Option, none,
  some, arith,
}

-- v1.PodPhase
pub data PodPhase : Type 0 where
  pod_pending pod_running pod_succeeded pod_failed pod_unknown : PodPhase

-- PodGroupPhase; `unset` is the empty string.
pub data PodGroupPhase : Type 0 where
  unset pending pre_scheduling scheduling scheduled running unknown finished failed : PodGroupPhase

abbrev pub phase_number : PodGroupPhase → ℕ
phase_number unset = 0
phase_number pending = 1
phase_number pre_scheduling = 2
phase_number scheduling = 3
phase_number scheduled = 4
phase_number running = 5
phase_number unknown = 6
phase_number finished = 7
phase_number failed = 8

abbrev pub same_phase : PodGroupPhase → PodGroupPhase → Bool
same_phase a b = phase_number a == phase_number b

-- A v1.Pod. `priority` is what corev1helpers.PodPriority reads.
pub record Pod : Type 0 where
  pub namespace : String
  pub name : String
  pub uid : String
  pub labels : Map String
  pub priority : ℤ
  pub node_name : String
  pub phase : PodPhase
  -- The names of its owner references.
  pub owners : List String

-- PodGroupStatus. A start time that is zero is `none`.
pub record PodGroupStatus : Type 0 where
  pub phase : PodGroupPhase
  pub occupied_by : String
  pub scheduled : ℤ
  pub running : ℤ
  pub succeeded : ℤ
  pub failed : ℤ
  pub schedule_start_time : Option ℕ

-- PodGroup, its spec among its fields.
pub record PodGroup (Quantity : Type 0) : Type 0 where
  pub namespace : String
  pub name : String
  pub creation_timestamp : ℕ
  pub min_member : ℤ
  pub min_resources : Option (Map Quantity)
  pub schedule_timeout_seconds : Option ℤ
  pub status : PodGroupStatus

abbrev pub pod_group_label : String
pod_group_label = "pod-group.scheduling.sigs.k8s.io"

-- The residue of an integer modulo 2 ^ 32, and the int32 with that bit pattern.
abbrev pub residue : ℤ → ℕ
residue (pos n) = n % 4294967296
residue (negsuc n) = 4294967295 - n % 4294967296

abbrev pub signed : ℕ → ℤ
signed r = if ltb r 2147483648 then pos r else negsuc (4294967295 - r)

-- Conversion to int32, and the result of int32 arithmetic: the value wraps around.
unfoldable pub to_int32 : ℤ → ℤ
to_int32 z = signed (residue z)

pub to_int32_small : (n : ℕ) → n < 2147483648 → to_int32 (pos n) ≡ pos n
unfolding to_int32
to_int32_small n h = ground arith

pub to_int32_id : (z : ℤ) → pos_part z < 2147483648 → neg_part z ≤ 2147483648 → to_int32 z ≡ z
unfolding to_int32
to_int32_id z upper lower = ground arith

-- The same for int64.
unfoldable pub to_int64 : ℤ → ℤ
to_int64 z =
    let r : ℕ = elim z [
      | pos n ↦ n % 18446744073709551616
      | negsuc n ↦ 18446744073709551615 - n % 18446744073709551616
    ] in
    if ltb r 9223372036854775808 then pos r else negsuc (18446744073709551615 - r)

-- GetPodGroupLabel
unfoldable pub get_pod_group_label : Pod → String
get_pod_group_label pod = value_or "" (lookup pod_group_label pod.labels)

-- fmt.Sprintf("%v/%v", …)
abbrev pub slashed : String → String → String
slashed a b = str_append a (str_append "/" b)

-- GetPodGroupFullName
unfoldable pub get_pod_group_full_name : Pod → String
get_pod_group_full_name pod =
    let pg_name = get_pod_group_label pod in
    if str_eq pg_name "" then "" else slashed pod.namespace pg_name

-- One second, as a time.Duration.
abbrev pub seconds : ℤ → ℤ
seconds (pos n) = pos (n * 1000000000)
seconds (negsuc n) = negsuc (n * 1000000000 + 999999999)

abbrev pub default_wait_time : ℤ
default_wait_time = pos 60000000000

abbrev pub is_zero_duration : ℤ → Bool
is_zero_duration z = elim z [ pos n ↦ (if ltb 0 n then false else true) | negsuc n ↦ false ]

-- The scheduler's timeout, or the default where it is missing or zero.
abbrev pub default_timeout : Option ℤ → ℤ
default_timeout none = default_wait_time
default_timeout (some d) = if is_zero_duration d then default_wait_time else d

abbrev pub group_timeout : {Quantity : Type 0} → Option (PodGroup Quantity) → Option ℤ
group_timeout none = none
group_timeout (some pg) = pg.schedule_timeout_seconds

-- GetWaitTimeDuration
unfoldable pub get_wait_time_duration :
    {Quantity : Type 0} → Option (PodGroup Quantity) → Option ℤ → ℤ
get_wait_time_duration pg schedule_timeout = elim (group_timeout pg) [
  | none ↦ default_timeout schedule_timeout
  | some s ↦ seconds s
]

slash-ne-empty : ◌≢◌ {A = String} "/" ""
slash-ne-empty e = cc

pub slashed-ne-empty : (a b : String) → str_eq (slashed a b) "" ≡ false
slashed-ne-empty a b = elim (Bool-cases (str_eq (slashed a b) "")) [
  | inl e ↦
      let rest = (append-eq-nil_iff.0 ((eq_iff (slashed a b) "").0 e)).1 in
      absurd (slash-ne-empty (append-eq-nil_iff.0 rest).0)
  | inr e ↦ e
]
