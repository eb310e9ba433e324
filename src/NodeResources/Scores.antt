-- ===== src/NodeResources/Scores.antt =====
-- What the scores of NodeResourcesAllocatable come to (pkg/noderesources/allocatable.go).
use Prim.Native.Nat.{◌/◌}
use native.Mathlib.Nat.{
  div-lt_iff_lt-mul, lt-div-mul-add, mul-le-mul_right, zero-div, lt_irrefl, div-mul-le_self,
}
use flex_gpu_scheduler.Prelude.{
  ℕ, zero, suc, ◌+◌, ◌*◌, ◌<◌, ◌≤◌, ◌≡◌, refl, sym, ap, subst, ◌∙◌, ℤ, pos, ◌+ℤ◌, quot_ℤ, quot_pos,
  if◌then◌else◌, ◌≤ℤ◌, false, String, Map, [], ◌∷◌, All, arith, int_laws, returns, panics, if-false,
  if-true,
}
use flex_gpu_scheduler.Prelude.Int.{quot_neg, pos_part, parts_apart}
use flex_gpu_scheduler.PodGroups.{to_int64}
use flex_gpu_scheduler.Controller.PodGroupSync.{same_ℤ}
use flex_gpu_scheduler.Capacity.Wrap.{to_int64_id, to_int64-add}
use flex_gpu_scheduler.NodeResources.Allocatable.{
  ModeType, least, most, unset, other_mode, product, score_capacity, ResourceAllocationScorer,
  sum_weighted, resource_scorer,
}
use flex_gpu_scheduler.NodeResources.Weighted.{
  cap_of, weighted, total, signed_by, IsFair, sum_weighted-signed, small_signed,
}

-- Fair weights and amounts for which no sum wraps around.
abbrev pub IsBounded : ResourceAllocationScorer → Map ℤ → Type 0
IsBounded r allocable =
    IsFair allocable r.resource_to_weight_map
    × (weighted allocable r.resource_to_weight_map < 9223372036854775808)
    × (total r.resource_to_weight_map < 9223372036854775808)
    × (0 < total r.resource_to_weight_map)

quot-signed :
    (mode : ModeType) (n t : ℕ)
    → quot_ℤ (signed_by mode n) (pos (suc t)) ≡ signed_by mode (n / suc t)
quot-signed most n t = quot_pos n t
quot-signed least n t = quot_neg n t
quot-signed unset n t = quot_pos 0 t ∙ ap pos (zero-div (suc t))
quot-signed other_mode n t = quot_pos 0 t ∙ ap pos (zero-div (suc t))

div_le : (n t : ℕ) → n / suc t ≤ n
div_le n t =
    let low = div-mul-le_self n (suc t) in
    let next : n / suc t * suc t ≡ n / suc t * t + n / suc t = grind arith in omega arith

div_mono : (m n t : ℕ) → m ≤ n → m / suc t ≤ n / suc t
div_mono m n t h =
    let low = div-mul-le_self m (suc t) in
    let high : n < n / suc t * suc t + suc t = lt-div-mul-add (omega arith) in
    let next : (n / suc t + 1) * suc t ≡ n / suc t * suc t + suc t = grind arith in
    let less =
      (div-lt_iff_lt-mul {k = suc t} {x = m} {y = n / suc t + 1} (omega arith)).1 (omega arith) in
    omega arith

positive : (n : ℕ) → 0 < n → (t : ℕ) × (n ≡ suc t)
positive zero h = absurd (lt_irrefl 0 h)
positive (suc t) h = (t, refl)

zero_signed : (mode : ModeType) → signed_by mode 0 ≡ pos 0
zero_signed most = refl
zero_signed least = refl
zero_signed unset = refl
zero_signed other_mode = refl

differ : (t : ℕ) → same_ℤ (pos (suc t)) (pos 0) ≡ false
differ t = ground arith

-- For IsBounded weights and amounts the score is the weighted mean, with the sign of the mode.
pub resource_scorer-weighted :
    (r : ResourceAllocationScorer) (allocable : Map ℤ)
    → IsBounded r allocable
    → resource_scorer r allocable
      ≡ returns (
          signed_by r.mode
            (weighted allocable r.resource_to_weight_map / total r.resource_to_weight_map))
unfolding resource_scorer
resource_scorer-weighted r allocable (fair, few, light, some_weight) =
    let w = weighted allocable r.resource_to_weight_map in
    let (t, is_t) = positive (total r.resource_to_weight_map) some_weight in
    let sums : sum_weighted r.mode allocable r.resource_to_weight_map (pos 0, pos 0)
        ≡ (signed_by r.mode w, pos (suc t)) =
      ap (λ z. sum_weighted r.mode allocable r.resource_to_weight_map (z, pos 0))
        (sym (zero_signed r.mode))
      ∙ sum_weighted-signed r.mode allocable r.resource_to_weight_map 0 0 fair (omega arith)
          (omega arith)
      ∙ ap (λ n. (signed_by r.mode n, pos (0 + total r.resource_to_weight_map))) (omega arith)
      ∙ ap (λ n. (signed_by r.mode w, pos n)) (omega arith) in
    let less = div_le w t in
    ap (λ (x : ℤ × ℤ). if same_ℤ x.1 (pos 0) then panics else returns (to_int64 (quot_ℤ x.0 x.1)))
      sums
    ∙ if-false _ _ (differ t)
    ∙ ap (λ z. returns (to_int64 z)) (quot-signed r.mode w t)
    ∙ ap returns (small_signed r.mode (w / suc t) (omega arith))
    ∙ ap (λ n. returns (signed_by r.mode (w / n))) (sym is_t)

-- A node with more has the higher score, or the lower one where less is favoured.
abbrev pub IsInOrder : ModeType → ℤ → ℤ → Type 0
IsInOrder most x y = x ≤ℤ y
IsInOrder least x y = y ≤ℤ x
IsInOrder unset x y = x ≡ y
IsInOrder other_mode x y = x ≡ y

weighted_mono :
    (a b weights : Map ℤ)
    → All (λ (entry : String × ℤ). cap_of a entry.0 ≤ℤ cap_of b entry.0) weights
    → weighted a weights ≤ weighted b weights
weighted_mono a b [] h = omega arith
weighted_mono a b ((resource, weight) ∷ rest) (less, h) =
    let later = weighted_mono a b rest h in
    let part : pos_part (cap_of a resource) ≤ pos_part (cap_of b resource) = ground arith in
    let first = mul-le-mul_right (pos_part weight) part in omega arith

signed_by-IsInOrder :
    (mode : ModeType) (m n : ℕ) → m ≤ n → IsInOrder mode (signed_by mode m) (signed_by mode n)
signed_by-IsInOrder most m n h = omega arith
signed_by-IsInOrder least m n h = ground arith
signed_by-IsInOrder unset m n h = refl
signed_by-IsInOrder other_mode m n h = refl

-- With positive weights, amounts that are not negative, and sums that are int64 values: of two
-- nodes the second of which has at least as much of every weighted resource, the scorer gives the
-- second no lower a score in the mode Most, and no higher a score in the mode Least.
pub resource_scorer-IsInOrder :
    (r : ResourceAllocationScorer) (a b : Map ℤ)
    → IsBounded r a
    → IsBounded r b
    → All (λ (entry : String × ℤ). cap_of a entry.0 ≤ℤ cap_of b entry.0) r.resource_to_weight_map
    → (x : ℤ) × (y : ℤ) × (resource_scorer r a ≡ returns x)
      × (resource_scorer r b ≡ returns y)
      × IsInOrder r.mode x y
resource_scorer-IsInOrder r a b bounded_a bounded_b less =
    let whole = total r.resource_to_weight_map in
    let (t, is_t) = positive whole bounded_a.3 in
    let m = weighted a r.resource_to_weight_map in
    let n = weighted b r.resource_to_weight_map in
    let order : m / whole ≤ n / whole =
      subst (λ k. m / k ≤ n / k) (sym is_t)
        (div_mono m n t (weighted_mono a b r.resource_to_weight_map less)) in
    (
      signed_by r.mode (m / whole),
      signed_by r.mode (n / whole),
      resource_scorer-weighted r a bounded_a,
      resource_scorer-weighted r b bounded_b,
      signed_by-IsInOrder r.mode (m / whole) (n / whole) order,
    )

-- The sum of the weights, whatever the scores.
sum_weighted-total :
    (mode : ModeType) (allocable weights : Map ℤ) (s : ℤ) (t : ℕ)
    → All (λ (entry : String × ℤ). pos 0 ≤ℤ entry.1) weights
    → (sum_weighted mode allocable weights (s, to_int64 (pos t))).1
      ≡ to_int64 (pos (t + total weights))
unfolding sum_weighted
sum_weighted-total mode allocable [] s t h = ap (λ n. to_int64 (pos n)) (omega arith)
sum_weighted-total mode allocable ((resource, weight) ∷ rest) s t (some_weight, h) =
    let apart = parts_apart weight in
    let added : pos t +ℤ weight ≡ pos (t + pos_part weight) = omega int_laws in
    let score =
      to_int64 (s +ℤ to_int64 (product (score_capacity (cap_of allocable resource) mode) weight)) in
    ap (λ z. (sum_weighted mode allocable rest (score, z)).1)
      (to_int64-add (pos t) weight ∙ ap to_int64 added)
    ∙ sum_weighted-total mode allocable rest score (t + pos_part weight) h
    ∙ ap (λ n. to_int64 (pos n)) (omega arith)

wraps_to_zero : (k : ℕ) → to_int64 (pos (18446744073709551616 * k)) ≡ pos 0
unfolding to_int64
wraps_to_zero k = ground arith

-- For weights that are not negative and add up to a multiple of 2 ^ 64, the scorer panics on every
-- node.
pub resource_scorer-panics :
    (r : ResourceAllocationScorer) (allocable : Map ℤ) (k : ℕ)
    → All (λ (entry : String × ℤ). pos 0 ≤ℤ entry.1) r.resource_to_weight_map
    → total r.resource_to_weight_map ≡ 18446744073709551616 * k
    → resource_scorer r allocable ≡ panics
unfolding resource_scorer
resource_scorer-panics r allocable k some_weights wraps =
    let weights = r.resource_to_weight_map in
    let sum : (sum_weighted r.mode allocable weights (pos 0, pos 0)).1 ≡ pos 0 =
      ap (λ z. (sum_weighted r.mode allocable weights (pos 0, z)).1)
        (sym (to_int64_id (pos 0) (omega arith, omega arith)))
      ∙ sum_weighted-total r.mode allocable weights (pos 0) 0 some_weights
      ∙ ap (λ n. to_int64 (pos n)) (omega arith)
      ∙ wraps_to_zero k in
    if-true _ _ (ap (λ z. same_ℤ z (pos 0)) sum)
