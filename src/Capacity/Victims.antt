-- ===== src/Capacity/Victims.antt =====
-- Who can be a victim of the preemptor of capacity scheduling, and what its reprievePod does to a pod
-- that neither fits nor leaves the quota in its bounds (capacity_scheduling.go).

use mathlib.Core.Option.{some-injective}
use flex_gpu_scheduler.Prelude.{
  ◌≡◌, ◌≢◌, sym, subst, ◌<ℤ◌, Bool, true, false, str_eq, eq_iff, lookup, Option, none, some,
  if◌then◌else◌, List, [], ◌∷◌, ◌++◌, All, arith, inl, inr, Bool-cases, Option-cases,
}
use flex_gpu_scheduler.Api.{Vendor}
use flex_gpu_scheduler.Capacity.Quota
use flex_gpu_scheduler.Capacity.Quota.{ElasticQuotaInfo, used_over_min}
use flex_gpu_scheduler.Capacity.Plugin.{PreFilterState}
use flex_gpu_scheduler.Capacity.Preemptor.{
  Snapshots, quotas_of, is_potential_victim, more_than_min, is_over_quota, take_victim,
  reprieve_pod,
}
use flex_gpu_scheduler.Preemption.Budgets.{Pod}
use flex_gpu_scheduler.Preemption.DryRun.{Framework, Dry, collect, fits, remove_pod, add_pod}
use flex_gpu_scheduler.Preemption.Chosen.{All-append, remove_each}

module _ (v : Vendor) (r : Quota.Framework v) (fw : Framework) (snapshots : Snapshots fw) where
  -- Which pods may be victims at a point of the dry run, by what moreThanMinWithPreemptor is.
  abbrev pub IsAllowed : Option Bool → Pod → Dry fw → Pod → Type 0
  IsAllowed none preemptor dry pod =
      (lookup pod.namespace (quotas_of v r fw snapshots dry) ≡ none)
      × (pod.priority <ℤ preemptor.priority)
  IsAllowed (some true) preemptor dry pod =
      (pod.namespace ≡ preemptor.namespace) × (pod.priority <ℤ preemptor.priority)
  IsAllowed (some false) preemptor dry pod =
      (pod.namespace ≢ preemptor.namespace)
      × ((eq_info : ElasticQuotaInfo) × (lookup pod.namespace (quotas_of v r fw snapshots dry)
            ≡ some eq_info)
          × (used_over_min eq_info ≡ true))

  -- The rules allow a pod of some pods when the loop of SelectVictimsOnNode over them comes to it:
  -- in the dry run in which just the potential victims among the pods before it are removed.
  abbrev pub IsAllowedInTurn : PreFilterState → Dry fw → List Pod → Pod → Pod → Type 0
  IsAllowedInTurn request start pods preemptor pod =
      let more = more_than_min v r fw snapshots request preemptor start in
      ∥ (
        (before : List Pod) × (after : List Pod) × (removed : List Pod) × (dry : Dry fw) × (pods
          ≡ before ++ pod ∷ after)
        × (collect fw (λ d p. some (is_potential_victim v r fw snapshots more preemptor d p))
              preemptor before start
            ≡ some (removed, dry))
        × (remove_each fw preemptor removed start ≡ some dry)
        × IsAllowed more preemptor dry pod) ∥₁

  pub is_potential_victim-IsAllowed :
      (more : Option Bool) (preemptor : Pod) (dry : Dry fw) (pod : Pod)
      → is_potential_victim v r fw snapshots more preemptor dry pod ≡ true
      → IsAllowed more preemptor dry pod
  unfolding is_potential_victim
  is_potential_victim-IsAllowed none preemptor dry pod e =
      elim (Option-cases (lookup pod.namespace (quotas_of v r fw snapshots dry))) [
        | inl missing ↦ (missing, ground arith)
        | inr (info, there) ↦ ground arith
      ]
  is_potential_victim-IsAllowed (some more) preemptor dry pod e =
      elim (Option-cases (lookup pod.namespace (quotas_of v r fw snapshots dry))) [
        | inl missing ↦ ground arith
        | inr (info, there) ↦ elim (Bool-cases more) [
          | inl over ↦
              let same : str_eq pod.namespace preemptor.namespace ≡ true = ground arith in
              subst (λ b. IsAllowed (some b) preemptor dry pod) (sym over)
                ((eq_iff pod.namespace preemptor.namespace).0 same, ground arith)
          | inr under ↦
              let differ : str_eq pod.namespace preemptor.namespace ≡ false = ground arith in
              let clash : pod.namespace ≢ preemptor.namespace =
                λ same. cc (differ, (eq_iff pod.namespace preemptor.namespace).1 same) in
              subst (λ b. IsAllowed (some b) preemptor dry pod) (sym under)
                (clash, (info, there, ground arith))
        ]
      ]

  take_victim-All :
      (P : Pod → Type 0) (preemptor pi : Pod) (start end : Dry fw × List Pod)
      → P pi
      → All P start.1
      → take_victim v r fw snapshots preemptor pi start ≡ some end
      → All P end.1
  unfolding take_victim
  take_victim-All P preemptor pi start end hp h e =
      elim (Option-cases (remove_pod fw preemptor pi start.0)) [
        | inl bad ↦ ground arith
        | inr (dry', removed) ↦
            let same : ◌≡◌ {A = Option (Dry fw × List Pod)} (some (dry', start.1 ++ pi ∷ []))
                (some end) =
              ground arith in
            subst (λ (x : Dry fw × List Pod). All P x.1) (some-injective _ _ same)
              (All-append P start.1 (pi ∷ []) h (hp, tt))
      ]

  maybe_victim-All :
      (P : Pod → Type 0) (preemptor pi : Pod) (b : Bool) (start end : Dry fw × List Pod)
      → P pi
      → All P start.1
      → (if b then take_victim v r fw snapshots preemptor pi start else some start) ≡ some end
      → All P end.1
  maybe_victim-All P preemptor pi true start end hp h e =
      take_victim-All P preemptor pi start end hp h e
  maybe_victim-All P preemptor pi false start end hp h e =
      subst (λ (x : Dry fw × List Pod). All P x.1) (some-injective _ _ e) h

  maybe_kept-All :
      (P : Pod → Type 0) (preemptor pi : Pod) (b : Bool) (start end : Dry fw × List Pod)
      → P pi
      → All P start.1
      → (if b then some start else take_victim v r fw snapshots preemptor pi start) ≡ some end
      → All P end.1
  maybe_kept-All P preemptor pi false start end hp h e =
      take_victim-All P preemptor pi start end hp h e
  maybe_kept-All P preemptor pi true start end hp h e =
      subst (λ (x : Dry fw × List Pod). All P x.1) (some-injective _ _ e) h

  pub reprieve_pod-All :
      (P : Pod → Type 0) (request : PreFilterState) (preemptor pi : Pod)
      (start end : Dry fw × List Pod) (fitting : Bool)
      → P pi
      → All P start.1
      → reprieve_pod v r fw snapshots request preemptor pi start ≡ some (fitting, end)
      → All P end.1
  unfolding reprieve_pod
  reprieve_pod-All P request preemptor pi start end fitting hp h e =
      let over = λ (trial : Dry fw × List Pod).
        is_over_quota v r fw snapshots preemptor request.nominated_pods_req_in_eq_with_pod_req
          request.nominated_pods_req_with_pod_req trial.0 in
      elim (Option-cases (add_pod fw preemptor pi start.0)) [
        | inl bad ↦ ground arith
        | inr (dry1, added) ↦
            let b = fits fw preemptor dry1 in
            elim (Option-cases (
              if b
              then some (dry1, start.1)
              else take_victim v r fw snapshots preemptor pi (dry1, start.1))) [
                | inl bad ↦ ground arith
                | inr (trial, first) ↦
                    elim (Option-cases (
                      if over trial
                      then take_victim v r fw snapshots preemptor pi trial
                      else some trial)) [
                        | inl bad ↦ ground arith
                        | inr (last, second) ↦
                            let kept =
                              maybe_kept-All P preemptor pi b (dry1, start.1) trial hp h first in
                            let both =
                              maybe_victim-All P preemptor pi (over trial) trial last hp kept
                                second in
                            let same : ◌≡◌ {A = Option (Bool × (Dry fw × List Pod))}
                                (some (b, last)) (some (fitting, end)) =
                              ground arith in
                            subst (λ (x : Bool × (Dry fw × List Pod)). All P x.1.1)
                              (some-injective _ _ same) both
                      ]
              ]
      ]
