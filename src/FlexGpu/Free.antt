-- ===== src/FlexGpu/Free.antt =====
-- GPUAssumeFitIndexes and GPUScore (gpu_node.go): the GPUs that nobody uses.
use mathlib.Core.List.{Mem}
use mathlib.Core.Bool.{Bool-set}
use flex_gpu_scheduler.Prelude.{
  ℕ, suc, ◌<◌, ◌≡◌, refl, ℤ, pos, Bool, true, false, ◌&&◌, ◌||◌, ◌==◌, List, [], ◌∷◌, length,
  get_elem?, All, arith, inl, inr, Bool-cases, some,
}
use flex_gpu_scheduler.Api.{Vendor}
use flex_gpu_scheduler.FlexGpu.Node.{
  Gpu, GpuNode, is_free, gpu_fits, count_free, gpu_assume_fit_indexes, gpu_score,
}
use flex_gpu_scheduler.FlexGpu.Table.{Table}
use flex_gpu_scheduler.FlexGpu.Fit.{All-if, All-Mem}

module _ (v : Vendor) where
  open v use {Quantity, amount, is_zero, is_zero-true}

  abbrev free_at : ℕ → List (Gpu Quantity) → Bool
  free_at i [] = false
  free_at i (u ∷ us) = (u.index == i && is_free v u) || free_at i us

  All-free_at :
      (u : Gpu Quantity) (us : List (Gpu Quantity)) (is : List ℕ)
      → All (λ i. free_at i us ≡ true) is
      → All (λ i. free_at i (u ∷ us) ≡ true) is
  All-free_at u us [] a = tt
  All-free_at u us (i ∷ is) a = (ground arith, All-free_at u us is a.1)

  gpu_fits-free_at : (us : List (Gpu Quantity)) → All (λ i. free_at i us ≡ true) (gpu_fits v us)
  unfolding gpu_fits
  gpu_fits-free_at [] = tt
  gpu_fits-free_at (u ∷ us) =
      let rest = All-free_at u us (gpu_fits v us) (gpu_fits-free_at us) in
      All-if _ (is_free v u) _ _ (λ free. (ground arith, rest)) (λ _. rest)

  free_at-get_elem? :
      (i : ℕ) (us : List (Gpu Quantity))
      → free_at i us ≡ true
      → (k : ℕ) × (u : Gpu Quantity) × (get_elem? us k ≡ some u)
        × (u.index ≡ i)
        × (k < length us)
        × (is_free v u ≡ true)
  free_at-get_elem? i [] e = cc
  free_at-get_elem? i (u ∷ us) e = elim (Bool-cases (u.index == i && is_free v u)) [
    | inl here ↦ (0, u, refl, ground arith, omega arith, ground arith)
    | inr there ↦
        let (k, w, found, index, below, free) = free_at-get_elem? i us (ground arith) in
        (suc k, w, found, index, omega arith, free)
  ]

  is_free-amount :
      (u : Gpu Quantity)
      → is_free v u ≡ true
      → (u.monopoly ≡ false) × (amount u.used_memory ≡ pos 0)
  unfolding is_free
  is_free-amount u e = ground (arith, is_zero-true u.used_memory)

  -- Each index that GPUAssumeFitIndexes finds in a table is that of a GPU of the table that no pod
  -- holds and no memory is used of.
  pub gpu_assume_fit_indexes-free :
      (n : GpuNode Quantity) (limit : Quantity) (used : ℕ → ℤ) (mono : ℕ → Bool) (i : ℕ)
      → Table v used mono n.gpus
      → Mem i (gpu_assume_fit_indexes v n limit)
      → (i < length n.gpus) × (mono i ≡ false) × (used i ≡ pos 0)
  unfolding gpu_assume_fit_indexes
  gpu_assume_fit_indexes-free n limit used mono i t m =
      let free =
        All-Mem v (λ i. free_at i n.gpus ≡ true) (λ i. Bool-set _ _) (gpu_fits v n.gpus)
          (gpu_fits-free_at n.gpus) m in
      let (k, u, found, index, below, fits) = free_at-get_elem? i n.gpus free in
      ground (arith, t k u found, is_free-amount u fits)

  length-gpu_fits : (us : List (Gpu Quantity)) → length (gpu_fits v us) ≡ count_free v us
  unfolding gpu_fits count_free
  length-gpu_fits [] = refl
  length-gpu_fits (u ∷ us) = ground (arith, length-gpu_fits us)

  -- The score of a node for a pod with a limit on GPUs is the number of GPUs that such a pod fits on.
  pub gpu_score-length :
      (n : GpuNode Quantity) (limit : Quantity)
      → gpu_score v n ≡ pos (length (gpu_assume_fit_indexes v n limit))
  unfolding gpu_score gpu_assume_fit_indexes
  gpu_score-length n limit = rw (length-gpu_fits n.gpus)

  -- None is found when every GPU is held by a pod or has memory in use.
  pub gpu_fits-none :
      (us : List (Gpu Quantity)) → All (λ u. is_free v u ≡ false) us → gpu_fits v us ≡ []
  unfolding gpu_fits
  gpu_fits-none [] a = refl
  gpu_fits-none (u ∷ us) a = ground (arith, gpu_fits-none us)
