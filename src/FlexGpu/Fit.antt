-- ===== src/FlexGpu/Fit.antt =====
-- The searches for a GPU in gpu_node.go: which GPUs MemAssumeFitIndexes and GPUAssumeFitIndexes
-- find, although the first one writes through its aliases while it looks.
use mathlib.Core.Logic.Or
use mathlib.Core.List.{Mem, Perm, mem-cons, not-mem-nil}
use mathlib.Core.List.Perm
use mathlib.Core.Bool.{Bool-set}
use mathlib.Core.Option.{some-injective}
use flex_gpu_scheduler.Prelude.{
  ℕ, zero, suc, ◌<◌, ◌≡◌, ap, sym, refl, ℤ, pos, ◌+ℤ◌, ◌≤ℤ◌, ◌<ℤ◌, leb_ℤ, int_laws, Bool, true,
  false, not, ◌&&◌, ◌||◌, ◌==◌, List, [], ◌∷◌, length, get_elem?, All, arith, inl, inr, Perm-nil,
  Perm-singleton, +ℤ_parts, Bool-cases, some, if◌then◌else◌, ◌↔◌, subst,
}
use flex_gpu_scheduler.Api.{Vendor}
use flex_gpu_scheduler.FlexGpu.Node.{
  Gpu, GpuNode, at_least, below, mem_fits, mem_assume_fit_indexes,
}
use flex_gpu_scheduler.FlexGpu.Table.{Table}

pub All-if :
    (P : ℕ → Type 0) (b : Bool) (xs ys : List ℕ)
    → (b ≡ true → All P xs)
    → (b ≡ false → All P ys)
    → All P (if b then xs else ys)
All-if P true xs ys f g = f refl
All-if P false xs ys f g = g refl

pub get_elem?-some :
    {A : Type 0} (xs : List A) (i : ℕ) → i < length xs → (a : A) × (get_elem? xs i ≡ some a)
get_elem?-some [] i h = absurd (omega arith)
get_elem?-some (x ∷ xs) zero h = (x, refl)
get_elem?-some (x ∷ xs) (suc i) h = get_elem?-some xs i (omega arith)

module _ (v : Vendor) where
  open v use {
    Quantity, amount, add, sub, cmp, is_zero, amount-add, amount-sub, cmp-amount, sort_slice,
    sort_slice-perm, is_zero-true, is_zero-amount,
  }

  -- A GPU takes a limit on memory: no pod holds it for itself, and the limit fits in what is left.
  abbrev pub takes : ℤ → ℤ → Gpu Quantity → Bool
  takes each limit u = not u.monopoly && leb_ℤ (amount u.used_memory +ℤ limit) each

  abbrev pub fits_at : ℤ → ℤ → ℕ → List (Gpu Quantity) → Bool
  fits_at each limit i [] = false
  fits_at each limit i (u ∷ us) = (u.index == i && takes each limit u) || fits_at each limit i us

  abbrev pub some_fit : ℤ → ℤ → List (Gpu Quantity) → Bool
  some_fit each limit [] = false
  some_fit each limit (u ∷ us) = takes each limit u || some_fit each limit us

  -- The test in the loop is `takes`, on the quantities as they are then.
  test-takes :
      (each limit : Quantity) (u : Gpu Quantity)
      → (not u.monopoly && at_least (cmp each (add u.used_memory limit)))
        ≡ takes (amount each) (amount limit) u
  test-takes each limit u =
      rw (cmp-amount each (add u.used_memory limit), amount-add u.used_memory limit) (ground arith)

  fits_at_mono :
      (each each' limit : ℤ) (i : ℕ) (us : List (Gpu Quantity))
      → each' ≤ℤ each
      → fits_at each' limit i us ≡ true
      → fits_at each limit i us ≡ true
  fits_at_mono each each' limit i [] h e = e
  fits_at_mono each each' limit i (u ∷ us) h e =
      ground (arith, fits_at_mono each each' limit i us h)

  All-fits_at :
      (u : Gpu Quantity) (each each' limit : ℤ) (us : List (Gpu Quantity)) (is : List ℕ)
      → each' ≤ℤ each
      → All (λ i. fits_at each' limit i us ≡ true) is
      → All (λ i. fits_at each limit i (u ∷ us) ≡ true) is
  All-fits_at u each each' limit us [] h a = tt
  All-fits_at u each each' limit us (i ∷ is) h a = (
    ground (arith, fits_at_mono each each' limit i us h a.0),
    All-fits_at u each each' limit us is h a.1,
  )

  -- One round of the loop.
  mem_fits-cons :
      (limit each : Quantity) (u : Gpu Quantity) (us : List (Gpu Quantity))
      → (mem_fits v limit each (u ∷ us)).0 ≡ (
          if takes (amount each) (amount limit) u
          then u.index ∷ (mem_fits v limit (sub each (add u.used_memory limit)) us).0
          else (mem_fits v limit each us).0)
  unfolding mem_fits
  mem_fits-cons limit each u us =
      rw (← test-takes each limit u)
        (elim (Bool-cases (not u.monopoly && at_least (cmp each (add u.used_memory limit)))) [
          | inl fit ↦ rw (fit, mem_fits)
          | inr unfit ↦ rw (unfit, mem_fits)
        ])

  -- Every index that the loop collects is that of a GPU that takes the limit as the GPUs were before.
  mem_fits-fits_at :
      (us : List (Gpu Quantity)) (limit each : Quantity)
      → pos 0 ≤ℤ amount limit
      → All (λ u. pos 0 ≤ℤ amount u.used_memory) us
      → All (λ i. fits_at (amount each) (amount limit) i us ≡ true) (mem_fits v limit each us).0
  mem_fits-fits_at [] limit each h nonneg = unfold mem_fits in tt
  mem_fits-fits_at (u ∷ us) limit each h nonneg =
      let left = sub each (add u.used_memory limit) in
      rw (mem_fits-cons limit each u us) (
        All-if _ (takes (amount each) (amount limit) u) _ _
          (λ fit. (
            ground arith,
            All-fits_at u (amount each) (amount left) (amount limit) us (mem_fits v limit left us).0
                (rw (amount-sub each (add u.used_memory limit), amount-add u.used_memory limit)
                  (omega int_laws))
                (mem_fits-fits_at us limit left h nonneg.1),
          ))
          (λ unfit.
            All-fits_at u (amount each) (amount each) (amount limit) us (mem_fits v limit each us).0
              (omega arith) (mem_fits-fits_at us limit each h nonneg.1)))

  -- It collects none exactly when no GPU takes the limit.
  mem_fits-some_fit :
      (us : List (Gpu Quantity)) (limit each : Quantity)
      → ((mem_fits v limit each us).0 ≡ []) ↔ (some_fit (amount each) (amount limit) us ≡ false)
  mem_fits-some_fit [] limit each = unfold mem_fits in (λ _. refl, λ _. refl)
  mem_fits-some_fit (u ∷ us) limit each =
      rw (mem_fits-cons limit each u us) (ground (arith, mem_fits-some_fit us limit each))

  pub All-Mem :
      (P : ℕ → Type 0) (prop : (i : ℕ) → IsProp (P i)) (is : List ℕ) {i : ℕ}
      → All P is
      → Mem i is
      → P i
  All-Mem P prop [] a m = absurd (not-mem-nil m)
  All-Mem P prop (j ∷ is) {i} a m =
      Or.elim (prop i) (mem-cons.0 m) (λ e. subst P (sym e) a.0) (All-Mem P prop is a.1)

  -- What a test over the table says of one GPU in it.
  fits_at-get_elem? :
      (each limit : ℤ) (i : ℕ) (us : List (Gpu Quantity))
      → fits_at each limit i us ≡ true
      → (k : ℕ) × (u : Gpu Quantity) × (get_elem? us k ≡ some u)
        × (u.index ≡ i)
        × (k < length us)
        × (takes each limit u ≡ true)
  fits_at-get_elem? each limit i [] e = cc
  fits_at-get_elem? each limit i (u ∷ us) e =
      elim (Bool-cases (u.index == i && takes each limit u)) [
        | inl here ↦ (0, u, refl, ground arith, omega arith, ground arith)
        | inr there ↦
            let (k, w, found, index, below, fit) =
              fits_at-get_elem? each limit i us (ground arith) in
            (suc k, w, found, index, omega arith, fit)
      ]

  -- For a limit and memory in use that are not negative, each index that MemAssumeFitIndexes finds
  -- in a table is that of a GPU of the table with no monopoly, whose memory in use and the limit
  -- together are at most the memory of a GPU, although the search writes through its aliases.
  pub mem_assume_fit_indexes-fit :
      (n : GpuNode Quantity) (limit : Quantity) (used : ℕ → ℤ) (mono : ℕ → Bool) (i : ℕ)
      → pos 0 ≤ℤ amount limit
      → All (λ u. pos 0 ≤ℤ amount u.used_memory) n.gpus
      → Table v used mono n.gpus
      → Mem i (mem_assume_fit_indexes v n limit).0
      → (i < length n.gpus) × (mono i ≡ false) × (used i +ℤ amount limit ≤ℤ amount n.each_memory)
  unfolding mem_assume_fit_indexes
  mem_assume_fit_indexes-fit n limit used mono i h nonneg t m =
      let fit =
        All-Mem (λ i. fits_at (amount n.each_memory) (amount limit) i n.gpus ≡ true)
          (λ i. Bool-set _ _) (mem_fits v limit n.each_memory n.gpus).0
          (mem_fits-fits_at n.gpus limit n.each_memory h nonneg)
          ((Perm.mem_iff (sort_slice-perm _ _)).0 m) in
      let (k, u, found, index, below, fits) =
        fits_at-get_elem? (amount n.each_memory) (amount limit) i n.gpus fit in
      ground (arith, t k u found)

  pub some_fit-get_elem? :
      (each limit : ℤ) (us : List (Gpu Quantity)) (i : ℕ) (u : Gpu Quantity)
      → get_elem? us i ≡ some u
      → takes each limit u ≡ true
      → some_fit each limit us ≡ true
  some_fit-get_elem? each limit [] i u there fit = ground arith
  some_fit-get_elem? each limit (w ∷ us) zero u there fit =
      let same = some-injective _ _ there in
      let here : takes each limit w ≡ true =
        subst (λ x. takes each limit x ≡ true) (sym same) fit in
      ground arith
  some_fit-get_elem? each limit (w ∷ us) (suc i) u there fit =
      let later = some_fit-get_elem? each limit us i u there fit in ground arith

  -- MemAssumeFitIndexes finds no index exactly when no GPU of the table takes the limit.
  pub mem_assume_fit_indexes-none :
      (n : GpuNode Quantity) (limit : Quantity)
      → ((mem_assume_fit_indexes v n limit).0 ≡ [])
        ↔ (some_fit (amount n.each_memory) (amount limit) n.gpus ≡ false)
  unfolding mem_assume_fit_indexes
  mem_assume_fit_indexes-none n limit =
      let found = mem_fits-some_fit n.gpus limit n.each_memory in
      let same = Perm-nil _ (mem_fits v limit n.each_memory n.gpus).0 (sort_slice-perm _ _) in
      (λ e. found.0 (same.0 e), λ e. same.1 (found.1 e))

  below_self : (q : Quantity) → below (cmp q q) ≡ false
  below_self q = rw (cmp-amount q q) (ground arith)

  -- The sort in MemAssumeFitIndexes is told of every two fits that neither comes first: its
  -- comparison reads one shared quantity.
  pub mem_assume_fit_indexes-unranked :
      (n : GpuNode Quantity) (limit : Quantity)
      → (mem_assume_fit_indexes v n limit).0
        ≡ sort_slice (λ _ _. false) (mem_fits v limit n.each_memory n.gpus).0
  unfolding mem_assume_fit_indexes
  mem_assume_fit_indexes-unranked n limit =
      let (fits, rest, _) = mem_fits v limit n.each_memory n.gpus in
      ap (λ b. sort_slice (λ _ _. b) fits) (below_self rest)

  mem_fits-none :
      (us : List (Gpu Quantity)) (limit each : Quantity)
      → amount each <ℤ amount limit
      → All (λ u. pos 0 ≤ℤ amount u.used_memory) us
      → (mem_fits v limit each us).0 ≡ []
  mem_fits-none [] limit each h nonneg = unfold mem_fits in refl
  mem_fits-none (u ∷ us) limit each h nonneg =
      let tail = mem_fits-none us limit each h nonneg.1 in
      let sum = +ℤ_parts (amount u.used_memory) (amount limit) in
      rw (mem_fits-cons limit each u us) (ground arith)

  -- There is no bin-packing: where the first GPU of a table takes the limit and less than the
  -- limit would remain of it, and the memory in use of no other is negative, MemAssumeFitIndexes
  -- finds that GPU alone, however well others would fit.
  pub mem_assume_fit_indexes-first :
      (n : GpuNode Quantity) (limit : Quantity) (u : Gpu Quantity) (us : List (Gpu Quantity))
      → n.gpus ≡ u ∷ us
      → takes (amount n.each_memory) (amount limit) u ≡ true
      → amount n.each_memory <ℤ amount u.used_memory +ℤ amount limit +ℤ amount limit
      → All (λ u. pos 0 ≤ℤ amount u.used_memory) us
      → (mem_assume_fit_indexes v n limit).0 ≡ u.index ∷ []
  unfolding mem_assume_fit_indexes
  mem_assume_fit_indexes-first n limit u us e fit small nonneg =
      let left = sub n.each_memory (add u.used_memory limit) in
      let none_left =
        mem_fits-none us limit left
          (rw (amount-sub n.each_memory (add u.used_memory limit), amount-add u.used_memory limit)
            (omega int_laws))
          nonneg in
      let only : (mem_fits v limit n.each_memory n.gpus).0 ≡ u.index ∷ [] =
        rw e (ground (arith, mem_fits-cons limit n.each_memory u us)) in
      Perm-singleton _ u.index (subst (Perm _) only (sort_slice-perm _ _))
