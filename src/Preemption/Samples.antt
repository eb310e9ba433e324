-- ===== src/Preemption/Samples.antt =====
-- Concrete pods, budgets and nodes for the tests of the plugins that preempt: a node has room for
-- two pods beside the preemptor, and a selector is the name of a label.
use flex_gpu_scheduler.Prelude.{
  suc, ◌≤◌, ◌≡◌, sym, ap, ◌∙◌, ℤ, pos, true, false, if◌then◌else◌, ltb, str_eq, String, lookup,
  Option, none, some, List, [], ◌∷◌, ◌++◌, length, length-append, arith, inl, inr, Bool-cases,
  Option-cases,
}
use mathlib.Core.Option.{some-injective}
use flex_gpu_scheduler.Preemption.Budgets.{Pod, Selectors, Pdb}
use flex_gpu_scheduler.Preemption.DryRun.{Framework, Dry, remove_pod, add_pod}
use flex_gpu_scheduler.Preemption.Monotone.{Monotone}

abbrev pub sample_pod : String → ℤ → Pod
sample_pod uid priority = record {
  namespace = "ns";
  name = uid;
  uid = uid;
  labels = ("app", "web") ∷ [];
  priority = priority;
  priority_class_name = "";
  preempt_never = none;
  nominated_node_name = "";
  is_terminating = false;
  scheduled_condition = some (true, pos 0);
}

abbrev pub sample_selectors : Selectors
sample_selectors = record {
  LabelSelector = String;
  Selector = String;
  as_selector = λ label. some label;
  is_empty = λ label. str_eq label "";
  matches = λ label labels. elim (lookup label labels) [ none ↦ false | some _ ↦ true ];
}

abbrev pub sample_pdb : ℤ → Pdb String
sample_pdb allowed = record {
  namespace = "ns";
  selector = "app";
  disruptions_allowed = allowed;
  disrupted_pods = [];
}

abbrev pub without : String → List Pod → Option (List Pod)
without uid [] = none
without uid (pod ∷ pods) =
    let rest = without uid pods in
    if str_eq pod.uid uid
    then some pods
    else elim rest [ none ↦ none | some others ↦ some (pod ∷ others) ]

pub length-without :
    (uid : String) (pods others : List Pod)
    → without uid pods ≡ some others
    → length pods ≡ suc (length others)
length-without uid [] others e = cc
length-without uid (pod ∷ pods) others e = elim (Bool-cases (str_eq pod.uid uid)) [
  | inl here ↦
      let same : ◌≡◌ {A = Option (List Pod)} (some pods) (some others) = ground arith in
      ap (λ (l : List Pod). suc (length l)) (some-injective _ _ same)
  | inr elsewhere ↦ elim (Option-cases (without uid pods)) [
    | inl bad ↦ ground arith
    | inr (rest, found) ↦
        let same : ◌≡◌ {A = Option (List Pod)} (some (pod ∷ rest)) (some others) = ground arith in
        ap suc (length-without uid pods rest found)
        ∙ ap (λ (l : List Pod). suc (length l)) (some-injective _ _ same)
  ]
]

abbrev pub sample_framework : Framework
sample_framework = record {
  NodeInfo = List Pod;
  CycleState = Unit;
  pods = λ node. node;
  node_remove_pod = λ node pod. without pod.uid node;
  node_add_pod = λ node pod. node ++ pod ∷ [];
  run_remove_pod = λ state preemptor pod node. (state, true);
  run_add_pod = λ state preemptor pod node. (state, true);
  run_filter = λ state preemptor node. ltb (length node) 3;
  more_important_first = λ pods. pods;
}

add_pod-length :
    (preemptor pod : Pod) (a b : Dry sample_framework)
    → add_pod sample_framework preemptor pod a ≡ some b
    → length b.1 ≡ suc (length a.1)
unfolding add_pod
add_pod-length preemptor pod a b e =
    ap (λ (d : Dry sample_framework). length d.1) (sym (some-injective _ _ e))
    ∙ (length-append a.1 (pod ∷ []) ∙ omega arith)

remove_pod-length :
    (preemptor pod : Pod) (a b : Dry sample_framework)
    → remove_pod sample_framework preemptor pod a ≡ some b
    → length a.1 ≡ suc (length b.1)
unfolding remove_pod
remove_pod-length preemptor pod a b e = elim (Option-cases (without pod.uid a.1)) [
  | inl bad ↦ ground arith
  | inr (rest, found) ↦
      let same : ◌≡◌ {A = Option (Dry sample_framework)} (some (a.0, rest)) (some b) =
        ground arith in
      length-without pod.uid a.1 rest found
      ∙ ap (λ (d : Dry sample_framework). suc (length d.1)) (some-injective _ _ same)
]

pub sample-Monotone : (preemptor : Pod) → Monotone sample_framework preemptor
sample-Monotone preemptor = record {
  Fuller = λ a b. length a.1 ≤ length b.1;
  reflexive = λ a. omega arith;
  transitive = λ a b c h k. omega arith;
  fits-Fuller = λ a b h e. ground arith;
  add_pod-Fuller = λ pod a b c d h e f.
      omega (arith, add_pod-length preemptor pod a c e, add_pod-length preemptor pod b d f);
  remove_pod-add_pod = λ pod a b c e f.
      let up = add_pod-length preemptor pod a b e in
      let down = remove_pod-length preemptor pod b c f in (omega arith, omega arith);
  add_pod_fuller = λ pod a b e. omega (arith, add_pod-length preemptor pod a b e);
}
