-- ===== src/Preemption/Monotone.antt =====
-- What SelectVictimsOnNode relies on the vendored filters for: a node with fewer pods has more room.
use flex_gpu_scheduler.Prelude.{◌≡◌, true, some}
use flex_gpu_scheduler.Preemption.Budgets.{Pod}
use flex_gpu_scheduler.Preemption.DryRun.{Framework, Dry, fits, remove_pod, add_pod}

-- `Fuller a b`: the second dry run has the pods of the first, and it may have more.
pub record Monotone (fw : Framework) (preemptor : Pod) : Type 1 where
  pub Fuller : Dry fw → Dry fw → Type 0
  pub reflexive : (a : Dry fw) → Fuller a a
  pub transitive : (a b c : Dry fw) → Fuller a b → Fuller b c → Fuller a c
  pub fits-Fuller :
      (a b : Dry fw) → Fuller a b → fits fw preemptor b ≡ true → fits fw preemptor a ≡ true
  pub add_pod-Fuller :
      (pod : Pod) (a b c d : Dry fw)
      → Fuller a b
      → add_pod fw preemptor pod a ≡ some c
      → add_pod fw preemptor pod b ≡ some d
      → Fuller c d
  pub remove_pod-add_pod :
      (pod : Pod) (a b c : Dry fw)
      → add_pod fw preemptor pod a ≡ some b
      → remove_pod fw preemptor pod b ≡ some c
      → Fuller a c × Fuller c a
  pub add_pod_fuller : (pod : Pod) (a b : Dry fw) → add_pod fw preemptor pod a ≡ some b → Fuller a b
