-- ===== src/NodeResources/Weighted.antt =====
-- The loop of resourceScorer (pkg/noderesources/allocatable.go) as a weighted sum.
use native.Mathlib.Nat.{lt_irrefl}
use flex_gpu_scheduler.Prelude.{
  ℕ, zero, suc, ◌+◌, ◌*◌, ◌<◌, ◌≡◌, ap, ◌∙◌, ℤ, pos, negsuc, ◌+ℤ◌, ◌≤ℤ◌, zero-+ℤ, String, Map,
  lookup, value_or, [], ◌∷◌, All, arith, int_laws,
}
use flex_gpu_scheduler.Prelude.Int.{pos_part, neg_part, sub_ℕ, +ℤ_parts, eq_of_parts}
use flex_gpu_scheduler.PodGroups.{to_int64}
use flex_gpu_scheduler.Capacity.Wrap.{to_int64_id}
use flex_gpu_scheduler.NodeResources.Allocatable.{
  ModeType, least, most, unset, other_mode, product, score_capacity, sum_weighted,
}

-- What a map has of a resource.
abbrev pub cap_of : Map ℤ → String → ℤ
cap_of allocable resource = value_or (pos 0) (lookup resource allocable)

-- The sum of the products of what there is of each resource with its weight, and that of the weights.
abbrev pub weighted : Map ℤ → Map ℤ → ℕ
weighted allocable [] = 0
weighted allocable ((resource, weight) ∷ rest) =
    pos_part (cap_of allocable resource) * pos_part weight + weighted allocable rest

abbrev pub total : Map ℤ → ℕ
total [] = 0
total ((resource, weight) ∷ rest) = pos_part weight + total rest

-- A number with the sign that the mode gives to it.
abbrev pub signed_by : ModeType → ℕ → ℤ
signed_by most n = pos n
signed_by least n = sub_ℕ 0 n
signed_by unset n = pos 0
signed_by other_mode n = pos 0

-- The weights are positive, and there is no less than nothing of any resource.
abbrev pub IsFair : Map ℤ → Map ℤ → Type 0
IsFair allocable =
    All (λ (entry : String × ℤ). (pos 0 ≤ℤ cap_of allocable entry.0) × (pos 1 ≤ℤ entry.1))

product_most : (c x : ℕ) → product (pos c) (pos x) ≡ pos (c * x)
product_most c x = grind arith

product_least : (c x : ℕ) → product (sub_ℕ 0 c) (pos x) ≡ sub_ℕ 0 (c * x)
product_least c x = grind arith

negated : (c : ℕ) → product (negsuc 0) (pos c) ≡ sub_ℕ 0 c
negated c = grind arith

small_sub_ℕ : (n : ℕ) → n < 9223372036854775808 → to_int64 (sub_ℕ 0 n) ≡ sub_ℕ 0 n
small_sub_ℕ n small = to_int64_id (sub_ℕ 0 n) (ground arith, ground arith)

pub small_signed :
    (mode : ModeType) (n : ℕ)
    → n < 9223372036854775808
    → to_int64 (signed_by mode n) ≡ signed_by mode n
small_signed most n small = to_int64_id (pos n) (omega arith, omega arith)
small_signed least n small = small_sub_ℕ n small
small_signed unset n small = to_int64_id (pos 0) (omega arith, omega arith)
small_signed other_mode n small = to_int64_id (pos 0) (omega arith, omega arith)

zero_product : (x : ℕ) → product (pos 0) (pos x) ≡ pos 0
zero_product x = grind arith

score_capacity-signed :
    (mode : ModeType) (c x : ℕ)
    → 0 < x
    → c * x < 9223372036854775808
    → to_int64 (product (score_capacity (pos c) mode) (pos x)) ≡ signed_by mode (c * x)
unfolding score_capacity
score_capacity-signed mode c zero some_x small = absurd (lt_irrefl 0 some_x)
score_capacity-signed most c (suc x) some_x small =
    ap to_int64 (product_most c (suc x)) ∙ small_signed most (c * suc x) small
score_capacity-signed least c (suc x) some_x small =
    let more : c * suc x ≡ c * x + c = grind arith in
    let negative : score_capacity (pos c) least ≡ sub_ℕ 0 c =
      ap to_int64 (negated c) ∙ small_sub_ℕ c (omega arith) in
    ap (λ z. to_int64 (product z (pos (suc x)))) negative
    ∙ ap to_int64 (product_least c (suc x))
    ∙ small_signed least (c * suc x) small
score_capacity-signed unset c (suc x) some_x small =
    ap to_int64 (zero_product (suc x)) ∙ small_signed unset 0 (omega arith)
score_capacity-signed other_mode c (suc x) some_x small =
    ap to_int64 (zero_product (suc x)) ∙ small_signed other_mode 0 (omega arith)

negative_parts : (n : ℕ) → (pos_part (sub_ℕ 0 n) ≡ 0) × (neg_part (sub_ℕ 0 n) ≡ n)
negative_parts n = (ground arith, ground arith)

signed_add :
    (mode : ModeType) (m n : ℕ) → signed_by mode m +ℤ signed_by mode n ≡ signed_by mode (m + n)
signed_add most m n = omega int_laws
signed_add least m n =
    let parts = +ℤ_parts (sub_ℕ 0 m) (sub_ℕ 0 n) in
    let (a, b) = negative_parts m in
    let (c, d) = negative_parts n in
    let (e, f) = negative_parts (m + n) in
    eq_of_parts (sub_ℕ 0 m +ℤ sub_ℕ 0 n) (sub_ℕ 0 (m + n)) (omega arith)
signed_add unset m n = zero-+ℤ (pos 0)
signed_add other_mode m n = zero-+ℤ (pos 0)

nonneg : (z : ℤ) → pos 0 ≤ℤ z → z ≡ pos (pos_part z)
nonneg z h = ground arith

-- The sums of the loop, where none of them wraps around.
pub sum_weighted-signed :
    (mode : ModeType) (allocable weights : Map ℤ) (s t : ℕ)
    → IsFair allocable weights
    → s + weighted allocable weights < 9223372036854775808
    → t + total weights < 9223372036854775808
    → sum_weighted mode allocable weights (signed_by mode s, pos t)
      ≡ (signed_by mode (s + weighted allocable weights), pos (t + total weights))
unfolding sum_weighted
sum_weighted-signed mode allocable [] s t fair few light =
    ap (λ (n : ℕ). (signed_by mode n, pos t)) (omega arith)
    ∙ ap (λ (n : ℕ). (signed_by mode (s + 0), pos n)) (omega arith)
sum_weighted-signed mode allocable ((resource, weight) ∷ rest) s t ((some_left, positive), fair) few
      light =
    let cap = cap_of allocable resource in
    let part = pos_part cap * pos_part weight in
    let is_cap = nonneg cap some_left in
    let is_weight = nonneg weight (omega arith) in
    let scored : to_int64 (product (score_capacity cap mode) weight) ≡ signed_by mode part =
      ap (λ z. to_int64 (product (score_capacity z mode) weight)) is_cap
      ∙ ap (λ z. to_int64 (product (score_capacity (pos (pos_part cap)) mode) z)) is_weight
      ∙ score_capacity-signed mode (pos_part cap) (pos_part weight) (omega arith) (omega arith) in
    let node_score : to_int64
          (signed_by mode s +ℤ to_int64 (product (score_capacity cap mode) weight))
        ≡ signed_by mode (s + part) =
      ap (λ z. to_int64 (signed_by mode s +ℤ z)) scored
      ∙ ap to_int64 (signed_add mode s part)
      ∙ small_signed mode (s + part) (omega arith) in
    let weight_sum : to_int64 (pos t +ℤ weight) ≡ pos (t + pos_part weight) =
      ap (λ z. to_int64 (pos t +ℤ z)) is_weight
      ∙ ap to_int64 (signed_add most t (pos_part weight))
      ∙ small_signed most (t + pos_part weight) (omega arith) in
    ap (λ z. sum_weighted mode allocable rest (z, to_int64 (pos t +ℤ weight))) node_score
    ∙ ap (λ z. sum_weighted mode allocable rest (signed_by mode (s + part), z)) weight_sum
    ∙ sum_weighted-signed mode allocable rest (s + part) (t + pos_part weight) fair (omega arith)
        (omega arith)
    ∙ ap (λ n. (signed_by mode n, pos (t + pos_part weight + total rest))) (omega arith)
    ∙ ap (λ n. (signed_by mode (s + (part + weighted allocable rest)), pos n)) (omega arith)
