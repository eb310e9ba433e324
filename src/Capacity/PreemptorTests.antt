-- ===== src/Capacity/PreemptorTests.antt =====
-- The preemptor of capacity scheduling at concrete quotas.
use mathlib.Core.List.{Mem, mem-cons_self}
use mathlib.Core.List.Perm
use mathlib.Core.Option.{some-injective}
use flex_gpu_scheduler.Prelude.{
  String, ◌≡◌, refl, subst, ℤ, pos, Map, lookup, none, some, List, [], ◌∷◌,
}
use flex_gpu_scheduler.Prelude.Int
use flex_gpu_scheduler.Prelude.Maps
use flex_gpu_scheduler.Samples.{sample_vendor}
use flex_gpu_scheduler.Resources
use flex_gpu_scheduler.Resources.{Resource}
use flex_gpu_scheduler.PodGroups
use flex_gpu_scheduler.Capacity.Quota
use flex_gpu_scheduler.Capacity.Quota.{ElasticQuotaInfo, empty_resource}
use flex_gpu_scheduler.Capacity.Plugin.{PreFilterState}
use flex_gpu_scheduler.Capacity.Preemptor
use flex_gpu_scheduler.Capacity.Preemptor.{
  Snapshots, more_than_min, reprieve_victims, select_victims_on_node,
}
use flex_gpu_scheduler.Capacity.Victims.{IsAllowedInTurn}
use flex_gpu_scheduler.Capacity.Victims.{IsAllowedInTurn}
use flex_gpu_scheduler.Capacity.Selected.{select_victims_on_node-IsAllowed, reprieve_victims-twice}
use flex_gpu_scheduler.Capacity.Tests.{sample_framework as quota_framework}
use flex_gpu_scheduler.Preemption.Budgets
use flex_gpu_scheduler.Preemption.Budgets.{Pod}
use flex_gpu_scheduler.Preemption.DryRun
use flex_gpu_scheduler.Preemption.DryRun.{Dry, errors, selected}
use flex_gpu_scheduler.Preemption.Samples.{without, sample_pod, sample_selectors, sample_framework}

abbrev cpu : ℤ → Resource
cpu n = record empty_resource { milli_cpu = n }

abbrev sample_quota : ℤ → ℤ → ℤ → ElasticQuotaInfo
sample_quota min max used = record {
  namespace = "";
  pods = [];
  min = cpu min;
  max = cpu max;
  used = cpu used;
}

abbrev sample_quotas : Map ElasticQuotaInfo
sample_quotas =
    ("ns", sample_quota (pos 10) (pos 20) (pos 0))
    ∷ ("other", sample_quota (pos 5) (pos 20) (pos 6))
    ∷ []

abbrev requesting : ℤ → PreFilterState
requesting n = record {
  pod_req = cpu (pos 2);
  nominated_pods_req_in_eq_with_pod_req = cpu n;
  nominated_pods_req_with_pod_req = cpu n;
}

abbrev sample_snapshots : ℤ → Snapshots sample_framework
sample_snapshots n = record {
  get_pre_filter_state = λ state. some (requesting n);
  get_elastic_quota_snapshot_state = λ state. some sample_quotas;
  sort_pods = λ node. node;
}

abbrev borrower : String → Pod
borrower uid = record (sample_pod uid (pos 9)) { namespace = "other" }

abbrev preemptor : Pod
preemptor = sample_pod "p" (pos 1)

abbrev node : List Pod
node = borrower "a" ∷ borrower "b" ∷ borrower "c" ∷ []

abbrev end : Dry sample_framework
end = (tt, borrower "a" ∷ borrower "b" ∷ [])

selects :
    select_victims_on_node sample_vendor quota_framework sample_framework
      (sample_snapshots (pos 2))
      sample_selectors
      []
      preemptor
      (tt, node)
    ≡ selected (borrower "c" ∷ []) 0 end
unfolding select_victims_on_node Preemptor.more_than_min Preemptor.is_potential_victim
    Preemptor.is_over_quota Preemptor.take_victim Preemptor.reprieve_pod Preemptor.reprieve_victims
    DryRun.collect DryRun.remove_pod DryRun.add_pod DryRun.reprieve_all Quota.used_over_min
    Quota.used_over_min_with Quota.used_over_max_with Quota.aggregated_used_over_min_with
    Quota.aggregate Quota.cmp_resource Quota.cmp2 Quota.scalars_over PodGroups.to_int64 Int.◌+ℤ◌
    Budgets.filter_pods_with_pdb_violation Budgets.split_pods Budgets.charge_pod Budgets.charge
    Maps.lookup Maps.insert Resources.resource_list Resources.scalar_list
selects = refl

select_victims_on_node-IsAllowed_example :
    Mem (borrower "c") node
    × IsAllowedInTurn sample_vendor quota_framework sample_framework
        (sample_snapshots (pos 2))
        (requesting (pos 2))
        (tt, node)
        node
        preemptor
        (borrower "c")
select_victims_on_node-IsAllowed_example =
    select_victims_on_node-IsAllowed sample_vendor quota_framework sample_framework
      (sample_snapshots (pos 2)) sample_selectors [] preemptor (requesting (pos 2)) tt node
      (borrower "c" ∷ []) 0 end Perm.refl (Perm.refl node) refl selects (borrower "c") mem-cons_self

abbrev x : Pod
x = borrower "x"

abbrev y : Pod
y = borrower "y"

abbrev pair : List Pod
pair = x ∷ y ∷ []

reprieve_victims-twice_example :
    reprieve_victims sample_vendor quota_framework sample_framework
      (sample_snapshots (pos 100))
      sample_selectors
      []
      (requesting (pos 100))
      preemptor
      (borrower "z" ∷ [])
      (tt, pair)
    ≡ errors
unfolding DryRun.remove_pod DryRun.add_pod Preemptor.is_over_quota Quota.used_over_max_with
    Quota.aggregated_used_over_min_with Quota.aggregate Quota.cmp_resource Quota.cmp2
    Quota.scalars_over PodGroups.to_int64 Int.◌+ℤ◌ Maps.lookup Maps.insert Resources.resource_list
    Resources.scalar_list
reprieve_victims-twice_example =
    reprieve_victims-twice sample_vendor quota_framework sample_framework
      (sample_snapshots (pos 100)) sample_selectors [] preemptor (requesting (pos 100))
      (borrower "z") (tt, pair) (tt, x ∷ y ∷ borrower "z" ∷ []) (tt, pair)
      (λ node e. subst (λ l. without "z" l ≡ none) (some-injective _ _ e) refl) refl refl refl refl
      refl
