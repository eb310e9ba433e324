-- ===== src/Controller/Progress.antt =====
-- How syncHandler (pkg/controller/podgroup.go) moves the phase of a pod group, and what it needs for
-- that.
use flex_gpu_scheduler.Prelude.{
  if-true, eq_iff, ℕ, ◌+◌, ◌≤◌, ◌<◌, ◌≡◌, ◌≢◌, refl, ◌↔◌, ℤ, pos, ◌+ℤ◌, ◌≤ℤ◌, ◌<ℤ◌, leb_ℤ, int_laws,
  Bool, true, false, not, ◌&&◌, String, List, [], ◌∷◌, length, returns, arith,
}
use flex_gpu_scheduler.PodGroups.{
  Pod, PodGroupStatus, PodGroupPhase, pre_scheduling, scheduling, scheduled, running, finished,
  failed, phase_number, same_phase, to_int32, to_int32_small,
}
use flex_gpu_scheduler.Controller.PodGroupSync.{
  is_running, is_succeeded, is_failed, count_phase, fill_occupied, counted_status, next_phase,
  progress, start, sync_status, same_ℤ, when, when,
}

-- How far a group has come: Finished and Failed are both the end.
abbrev pub rank : PodGroupPhase → ℕ
rank failed = 7
rank p = phase_number p

count_phase_sum :
    (pods : List Pod)
    → count_phase is_failed pods + count_phase is_running pods + count_phase is_succeeded pods
      ≤ length pods
unfolding count_phase
count_phase_sum [] = omega arith
count_phase_sum (pod ∷ pods) = let rest = count_phase_sum pods in ground arith

-- The phase from the four tests of the default case, in their order.
abbrev pub phase_of_tests : Bool → Bool → Bool → Bool → PodGroupPhase → PodGroupPhase
phase_of_tests enough_scheduled enough_started over enough_succeeded p =
    let p1 = when (enough_scheduled && same_phase p scheduling) scheduled p in
    let p2 = when (enough_started && same_phase p1 scheduled) running p1 in
    when enough_succeeded finished (when over failed p2)

phase_of_tests-rank :
    (b1 b2 b3 b4 : Bool) (p : PodGroupPhase) → rank p ≤ rank (phase_of_tests b1 b2 b3 b4 p)
phase_of_tests-rank b1 b2 true true p = ground arith
phase_of_tests-rank b1 b2 true false p = ground arith
phase_of_tests-rank b1 b2 false true p = ground arith
phase_of_tests-rank b1 b2 false false p = ground arith

module _ (min_member : ℤ) (s : PodGroupStatus) where
  abbrev pub enough_scheduled : Bool
  enough_scheduled = leb_ℤ min_member s.scheduled

  abbrev pub enough_started : Bool
  enough_started = leb_ℤ min_member (to_int32 (s.succeeded +ℤ s.running))

  abbrev pub over : Bool
  over =
      not (same_ℤ s.failed (pos 0))
      && leb_ℤ min_member (to_int32 (to_int32 (s.failed +ℤ s.running) +ℤ s.succeeded))

  abbrev pub enough_succeeded : Bool
  enough_succeeded = leb_ℤ min_member s.succeeded

  next_phase_tests :
      next_phase min_member s
      ≡ phase_of_tests enough_scheduled enough_started over enough_succeeded s.phase
  unfolding next_phase
  next_phase_tests = refl

-- fillOccupiedObj leaves an empty entry.
fill_occupied-empty :
    (join_sorted : List String → String) (status : PodGroupStatus) (pod : Pod)
    → status.occupied_by ≡ ""
    → fill_occupied join_sorted status pod ≡ status
unfolding fill_occupied
fill_occupied-empty join_sorted status pod empty =
    if-true _ _ ((eq_iff status.occupied_by "").1 empty)

-- Where a test of the counters holds, there are that many pods.
phase_of_tests-late :
    (b1 : Bool) (p : PodGroupPhase)
    → 5 ≤ rank (phase_of_tests b1 false false false p)
    → phase_of_tests b1 false false false p ≡ p
phase_of_tests-late b1 p late = ground arith

module _ (join_sorted : List String → String) (min_member : ℤ) (status : PodGroupStatus) where
  -- Where a group has a pod, the switch of syncHandler, if it does not panic, never moves the
  -- phase back in the order of the phases, with Finished and Failed as the end.
  pub sync_status-rank :
      (pod : Pod) (pods : List Pod) (after : PodGroupStatus)
      → sync_status join_sorted min_member status (pod ∷ pods) ≡ returns after
      → rank status.phase ≤ rank after.phase
  unfolding sync_status start progress counted_status fill_occupied
  sync_status-rank pod pods after e =
      let s = counted_status status (pod ∷ pods) in
      let step =
        phase_of_tests-rank (enough_scheduled min_member s) (enough_started min_member s)
          (over min_member s) (enough_succeeded min_member s) status.phase in
      let tests = next_phase_tests min_member s in ground arith

  -- The counters of few pods are not wrapped.
  counters-small :
      (pods : List Pod)
      → length pods < 2147483648
      → let s = counted_status status pods in
        (s.failed ≡ pos (count_phase is_failed pods))
        × (s.running ≡ pos (count_phase is_running pods))
        × (s.succeeded ≡ pos (count_phase is_succeeded pods))
  unfolding counted_status
  counters-small pods small =
      let sum = count_phase_sum pods in
      (
        to_int32_small (count_phase is_failed pods) (omega arith),
        to_int32_small (count_phase is_running pods) (omega arith),
        to_int32_small (count_phase is_succeeded pods) (omega arith),
      )

  sum_small :
      (a b bound : ℕ) → a + b ≤ bound → bound < 2147483648 → to_int32 (pos a +ℤ pos b) ≡ pos (a + b)
  sum_small a b bound within small =
      let sum : pos a +ℤ pos b ≡ pos (a + b) = omega int_laws in
      rw sum (to_int32_small (a + b) (omega arith))

  -- With fewer pods than the minimum, no test of the running and finished pods holds.
  few-tests :
      (pods : List Pod)
      → length pods < 2147483648
      → pos (length pods) <ℤ min_member
      → let s = counted_status status pods in
        (enough_started min_member s ≡ false)
        × (over min_member s ≡ false)
        × (enough_succeeded min_member s ≡ false)
  few-tests pods small few =
      let sum = count_phase_sum pods in
      let (failures, runs, successes) = counters-small pods small in
      let started =
        sum_small (count_phase is_succeeded pods) (count_phase is_running pods) (length pods)
          (omega arith) small in
      let ended =
        sum_small (count_phase is_failed pods) (count_phase is_running pods) (length pods)
          (omega arith) small in
      let all =
        sum_small (count_phase is_failed pods + count_phase is_running pods)
          (count_phase is_succeeded pods) (length pods) (omega arith) small in
      rw (failures, runs, successes, started, ended, all) (ground arith, ground arith, ground arith)

  -- With fewer pods than the minimum, and fewer than 2 ^ 31, syncHandler does not move a group to
  -- Running, Unknown, Finished or Failed, not even when pods have failed: if the phase is one of
  -- these afterwards, it was the same before.
  pub sync_status-min_member :
      (pods : List Pod) (after : PodGroupStatus)
      → sync_status join_sorted min_member status pods ≡ returns after
      → length pods < 2147483648
      → pos (length pods) <ℤ min_member
      → 5 ≤ rank after.phase
      → after.phase ≡ status.phase
  unfolding sync_status start progress fill_occupied counted_status
  sync_status-min_member [] after e small few late = ground arith
  sync_status-min_member (pod ∷ pods) after e small few late =
      let s = counted_status status (pod ∷ pods) in
      let (started, ended, won) = few-tests (pod ∷ pods) small few in
      let tests = next_phase_tests min_member s in
      let same = phase_of_tests-late (enough_scheduled min_member s) status.phase in ground arith

  -- A group with a pod and fewer than 2 ^ 31 pods, that is past Pending and not Finished, becomes
  -- Finished exactly when as many pods have succeeded as the minimum.
  pub sync_status-finished :
      (pod : Pod) (pods : List Pod) (after : PodGroupStatus)
      → sync_status join_sorted min_member status (pod ∷ pods) ≡ returns after
      → length (pod ∷ pods) < 2147483648
      → 2 ≤ rank status.phase
      → status.phase ≢ finished
      → (after.phase ≡ finished) ↔ (min_member ≤ℤ pos (count_phase is_succeeded (pod ∷ pods)))
  unfolding sync_status progress counted_status
  sync_status-finished pod pods after e small begun unfinished =
      let s = counted_status status (pod ∷ pods) in
      let (failures, runs, successes) = counters-small (pod ∷ pods) small in
      let tests = next_phase_tests min_member s in ground arith

  -- A group whose OccupiedBy is empty has it empty after the switch of syncHandler, whatever
  -- owners its pods have.
  pub sync_status-occupied_by :
      (pods : List Pod) (after : PodGroupStatus)
      → sync_status join_sorted min_member status pods ≡ returns after
      → status.occupied_by ≡ ""
      → after.occupied_by ≡ ""
  unfolding sync_status start progress fill_occupied counted_status
  sync_status-occupied_by [] after e empty = ground arith
  sync_status-occupied_by (pod ∷ pods) after e empty =
      let kept =
        fill_occupied-empty join_sorted (record status { phase = pre_scheduling }) pod empty in
      ground arith
