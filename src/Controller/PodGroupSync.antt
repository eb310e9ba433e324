-- ===== src/Controller/PodGroupSync.antt =====
-- pkg/controller/podgroup.go: which pod groups are queued, and how syncHandler moves the status of
-- one. The queue, the listers and the API server are the vendored packages'; what they answer is
-- an argument.
use flex_gpu_scheduler.Prelude.{
  ℕ, ◌+◌, ℤ, pos, ◌+ℤ◌, leb_ℤ, compare_ℤ, Ordering, Bool, true, false, not, ◌&&◌, ◌||◌, ltb,
  if◌then◌else◌, str_eq, String, Option, none, some, List, [], ◌∷◌, ◌++◌, map, length, Panics,
  returns, panics, ◌>>=◌,
}
use flex_gpu_scheduler.PodGroups.{
  PodPhase, pod_running, pod_succeeded, pod_failed, Pod, PodGroup, PodGroupStatus, PodGroupPhase,
  unset, pending, pre_scheduling, scheduling, scheduled, running, finished, failed, same_phase,
  to_int32, get_pod_group_label, slashed,
}

-- pgLister.PodGroups(namespace).Get(name), with apierrs.IsNotFound.
pub data Found (A : Type 0) : Type 0 where
  found : A → Found A
  not_found : Found A
  get_failed : Found A

abbrev pub same_ℤ : ℤ → ℤ → Bool
same_ℤ a b = elim (compare_ℤ a b) [ Ordering.eq ↦ true | _ ↦ false ]

-- 48 hours, in nanoseconds.
abbrev pub two_days : ℕ
two_days = 172800000000000

-- `ScheduleStartTime.Sub(CreationTimestamp) > 48*time.Hour`; the zero time is before all others.
abbrev pub starts_late : Option ℕ → ℕ → Bool
starts_late none created = false
starts_late (some start) created = ltb (created + two_days) start

-- pgAdded: whether the group's key is put into the queue.
unfoldable pub pg_added : {Quantity : Type 0} → PodGroup Quantity → Bool
pg_added pg =
    let status = pg.status in
    if same_phase status.phase finished || same_phase status.phase failed
    then false
    else if same_ℤ status.scheduled pg.min_member
        && same_ℤ status.running (pos 0)
        && starts_late status.schedule_start_time pg.creation_timestamp
    then false
    else true

-- podAdded: the group that is looked at for the queue is the pod's.
unfoldable pub pod_added :
    {Quantity : Type 0} → (String → String → Option (PodGroup Quantity)) → Pod → Bool
unfolding pg_added
pod_added get_group pod =
    let pg_name = get_pod_group_label pod in
    if str_eq pg_name ""
    then false
    else elim (get_group pod.namespace pg_name) [ none ↦ false | some pg ↦ pg_added pg ]

abbrev pub is_running : PodPhase → Bool
is_running phase = elim phase [ pod_running ↦ true | _ ↦ false ]

abbrev pub is_succeeded : PodPhase → Bool
is_succeeded phase = elim phase [ pod_succeeded ↦ true | _ ↦ false ]

abbrev pub is_failed : PodPhase → Bool
is_failed phase = elim phase [ pod_failed ↦ true | _ ↦ false ]

-- One of the int32 counters of syncHandler, over the pods.
unfoldable pub count_phase : (PodPhase → Bool) → List Pod → ℕ
count_phase test [] = 0
count_phase test (pod ∷ pods) = (if test pod.phase then 1 else 0) + count_phase test pods

-- fillOccupiedObj. `join_sorted` is sort.Strings and strings.Join with a comma.
unfoldable pub fill_occupied : (List String → String) → PodGroupStatus → Pod → PodGroupStatus
fill_occupied join_sorted status pod =
    let refs = map (λ owner. slashed pod.namespace owner) pod.owners in
    if str_eq status.occupied_by ""
    then status
    else elim pod.owners [ [] ↦ status | _ ↦ record status { occupied_by = join_sorted refs } ]

-- The counters of the default case.
unfoldable pub counted_status : PodGroupStatus → List Pod → PodGroupStatus
counted_status status pods = record status {
  failed = to_int32 (pos (count_phase is_failed pods));
  succeeded = to_int32 (pos (count_phase is_succeeded pods));
  running = to_int32 (pos (count_phase is_running pods));
}

abbrev pub when : Bool → PodGroupPhase → PodGroupPhase → PodGroupPhase
when test new old = if test then new else old

-- The phase that the default case reaches from the counters, test by test.
unfoldable pub next_phase : ℤ → PodGroupStatus → PodGroupPhase
next_phase min_member s =
    let p1 =
      when (leb_ℤ min_member s.scheduled && same_phase s.phase scheduling) scheduled s.phase in
    let p2 =
      when (leb_ℤ min_member (to_int32 (s.succeeded +ℤ s.running)) && same_phase p1 scheduled)
        running p1 in
    let p3 =
      when
        (not (same_ℤ s.failed (pos 0))
          && leb_ℤ min_member (to_int32 (to_int32 (s.failed +ℤ s.running) +ℤ s.succeeded)))
        failed p2 in
    when (leb_ℤ min_member s.succeeded) finished p3

-- The default case of the switch.
unfoldable pub progress : ℤ → PodGroupStatus → List Pod → PodGroupStatus
progress min_member status pods =
    let s = counted_status status pods in
    elim pods [
      | [] ↦ record s { phase = pending }
      | _ ↦ record s { phase = next_phase min_member s }
    ]

-- The case PodGroupPending. The index `pods[0]` panics where there is no pod.
unfoldable pub start :
    (List String → String) → ℤ → PodGroupStatus → List Pod → Panics PodGroupStatus
start join_sorted min_member status pods =
    if leb_ℤ min_member (pos (length pods))
    then elim pods [
      | [] ↦ panics
      | pod ∷ _ ↦ returns (fill_occupied join_sorted (record status { phase = pre_scheduling }) pod)
    ]
    else returns status

-- The switch of syncHandler.
unfoldable pub sync_status :
    (List String → String) → ℤ → PodGroupStatus → List Pod → Panics PodGroupStatus
sync_status join_sorted min_member status pods = elim status.phase [
  | unset ↦ returns (record status { phase = pending })
  | pending ↦ start join_sorted min_member status pods
  | _ ↦ returns (progress min_member status pods)
]

-- What syncHandler's calls answer: the lister, reflect.DeepEqual on the two groups (which differ in
-- the status alone), and the API server on a patch. `false` and `none` are errors.
pub record Cluster (Quantity : Type 0) : Type 0 where
  pub get_group : String → String → Found (PodGroup Quantity)
  -- podLister.List, of the pods in all namespaces that have the label with this value
  pub list_pods : String → Option (List Pod)
  pub deep_equal : PodGroupStatus → PodGroupStatus → Bool
  pub accepts : PodGroup Quantity → PodGroupStatus → Bool
  pub join_sorted : List String → String

-- What a call of syncHandler does: whether it returns an error, whether the key is put back by the
-- deferred call of AddRateLimited, and the group's status that the API server took.
pub record Outcome : Type 0 where
  pub returns_error : Bool
  pub requeued : Bool
  pub stored : Option PodGroupStatus

module _ {Quantity : Type 0} where
  -- patchPodGroup: `true` is success.
  unfoldable pub patch_pod_group :
      Cluster Quantity → PodGroup Quantity → PodGroupStatus → Bool × Option PodGroupStatus
  patch_pod_group c old status =
      if c.deep_equal old.status status
      then (true, none)
      else if c.accepts old status
      then (true, some status)
      else (false, none)

  -- syncHandler, on the two parts of the key. The deferred call reads the variable `err`, which
  -- still holds the lister's error where the code returns nil for a group that is gone.
  unfoldable pub sync_handler : Cluster Quantity → String → String → Panics Outcome
  sync_handler c namespace name = elim (c.get_group namespace name) [
    | not_found ↦ returns (record { returns_error = false; requeued = true; stored = none })
    | get_failed ↦ returns (record { returns_error = true; requeued = true; stored = none })
    | found pg ↦ elim (c.list_pods pg.name) [
      | none ↦ returns (record { returns_error = true; requeued = true; stored = none })
      | some pods ↦ sync_status c.join_sorted pg.min_member pg.status pods >>= λ status.
          let (ok, stored) = patch_pod_group c pg status in
          returns (record { returns_error = not ok; requeued = not ok; stored = stored })
    ]
  ]

  -- processNextWorkItem, on the keys in the queue; one that is put back comes after the others.
  unfoldable pub process_next_work_item :
      Cluster Quantity → List (String × String) → Panics (List (String × String))
  process_next_work_item c [] = returns []
  process_next_work_item c (key ∷ keys) = sync_handler c key.0 key.1 >>= λ outcome.
      returns (if outcome.requeued then keys ++ (key ∷ []) else keys)
