-- ===== src/PodState.antt =====
-- The plugin PodState (pkg/podstate/pod_state.go): its score and the normalisation.
pub mod Tests
use native.Mathlib.Nat.{div-lt_iff_lt-mul}
use flex_gpu_scheduler.Prelude.Int.{pos_part, neg_part, quot_pos, -ℤ_parts}
use flex_gpu_scheduler.Capacity.Wrap.{to_int64_id}
use Prim.Native.Nat.{◌/◌}
use flex_gpu_scheduler.Prelude.{
  All, if-false, sym, ap, subst, ◌∙◌, inl, inr, ◌<◌, ℕ, zero, suc, ◌+◌, ◌*◌, ◌-◌, ◌≤◌, ◌≡◌, ℤ, pos,
  negsuc, ◌+ℤ◌, ◌-ℤ◌, ◌≤ℤ◌, quot_ℤ, ltb_ℤ, leb_ℤ, Bool, true, false, if◌then◌else◌, List, [], ◌∷◌,
  map, length, arith, int_laws,
}
use flex_gpu_scheduler.PodGroups.{to_int64}
use flex_gpu_scheduler.Controller.PodGroupSync.{same_ℤ}

-- The loop of score over the node's pods, each with whether it has a deletion timestamp.
unfoldable pub terminating_pod_num : List Bool → ℕ
terminating_pod_num [] = 0
terminating_pod_num (deleted ∷ pods) = (if deleted then 1 else 0) + terminating_pod_num pods

-- score, on the node's pods and the number of pods that are nominated for it.
unfoldable pub score : List Bool → ℕ → ℤ
score pods nominated_pod_num = pos (terminating_pod_num pods) -ℤ pos nominated_pod_num

-- The first loop of NormalizeScore, on the highest and lowest scores so far.
unfoldable pub range_of : List ℤ → ℤ → ℤ → ℤ × ℤ
range_of [] highest lowest = (highest, lowest)
range_of (s ∷ scores) highest lowest =
    range_of scores (if ltb_ℤ highest s then s else highest) (if ltb_ℤ s lowest then s else lowest)

-- MinNodeScore is 0 and MaxNodeScore 100.
abbrev pub max_node_score : ℕ
max_node_score = 100

abbrev pub times_range : ℤ → ℤ
times_range (pos n) = pos (n * 100)
times_range (negsuc n) = negsuc (n * 100 + 99)

-- The body of the second loop.
unfoldable pub normalized : ℤ → ℤ → ℤ → ℤ
normalized lowest old_range s =
    if same_ℤ old_range (pos 0)
    then pos 0
    else to_int64 (quot_ℤ (to_int64 (times_range (to_int64 (s -ℤ lowest)))) old_range)

-- NormalizeScore, on the scores alone. The bounds are those of int64, but for the least.
unfoldable pub normalize_score : List ℤ → List ℤ
normalize_score scores =
    let (highest, lowest) =
      range_of scores (negsuc 9223372036854775806) (pos 9223372036854775807) in
    let old_range = to_int64 (highest -ℤ lowest) in map (normalized lowest old_range) scores

-- A score so small that nothing wraps around.
abbrev pub IsSmall : ℤ → Type 0
IsSmall s = (s ≤ℤ pos 36028797018963968) × (negsuc 36028797018963967 ≤ℤ s)

range_of-bounds :
    (scores : List ℤ) (highest lowest : ℤ)
    → All IsSmall scores
    → highest ≤ℤ pos 36028797018963968
    → negsuc 36028797018963967 ≤ℤ lowest
    → let r = range_of scores highest lowest in
      ((r.0 ≤ℤ pos 36028797018963968) × (negsuc 36028797018963967 ≤ℤ r.1))
      × ((highest ≤ℤ r.0) × (r.1 ≤ℤ lowest))
      × All (λ s. (s ≤ℤ r.0) × (r.1 ≤ℤ s)) scores
unfolding range_of
range_of-bounds [] highest lowest small high low = ((high, low), (omega arith, omega arith), tt)
range_of-bounds (s ∷ scores) highest lowest small high low =
    let h = if ltb_ℤ highest s then s else highest in
    let l = if ltb_ℤ s lowest then s else lowest in
    let (ends, sides, rest) = range_of-bounds scores h l small.1 (ground arith) (ground arith) in
    let above : (highest ≤ℤ h) × (s ≤ℤ h) = ground arith in
    let below : (l ≤ℤ lowest) × (l ≤ℤ s) = ground arith in
    (ends, (omega arith, omega arith), ((omega arith, omega arith), rest))

-- A part of a range, times a hundred, over the range.
part_within : (n r : ℕ) → n ≤ suc r → n * 100 / suc r ≤ 100
part_within n r within =
    let bound =
      (div-lt_iff_lt-mul {k = suc r} {x = n * 100} {y = 101} (omega arith)).1 (omega arith) in
    omega arith

nonneg_pos : (z : ℤ) → pos 0 ≤ℤ z → z ≡ pos (pos_part z)
nonneg_pos z h = ground arith

differ : (r : ℕ) → same_ℤ (pos (suc r)) (pos 0) ≡ false
differ r = ground arith

normalized_pos :
    (lowest s : ℤ) (n r : ℕ)
    → s -ℤ lowest ≡ pos n
    → n ≤ suc r
    → suc r ≤ 72057594037927936
    → (pos 0 ≤ℤ normalized lowest (pos (suc r)) s) × (normalized lowest (pos (suc r)) s ≤ℤ pos 100)
unfolding normalized
normalized_pos lowest s n r difference within small =
    let part = part_within n r within in
    let same : normalized lowest (pos (suc r)) s ≡ pos (n * 100 / suc r) =
      if-false _ _ (differ r)
      ∙ ap (λ x. to_int64 (quot_ℤ (to_int64 (times_range (to_int64 x))) (pos (suc r)))) difference
      ∙ ap (λ x. to_int64 (quot_ℤ (to_int64 (times_range x)) (pos (suc r))))
          (to_int64_id (pos n) (omega arith, omega arith))
      ∙ ap (λ x. to_int64 (quot_ℤ x (pos (suc r))))
          (to_int64_id (pos (n * 100)) (omega arith, omega arith))
      ∙ ap to_int64 (quot_pos (n * 100) r)
      ∙ to_int64_id (pos (n * 100 / suc r)) (omega arith, omega arith) in
    subst (λ x. (pos 0 ≤ℤ x) × (x ≤ℤ pos 100)) (sym same) (omega arith, omega arith)

normalized_of_range :
    (lowest s : ℤ) (n r : ℕ)
    → s -ℤ lowest ≡ pos n
    → n ≤ r
    → r ≤ 72057594037927936
    → (pos 0 ≤ℤ normalized lowest (pos r) s) × (normalized lowest (pos r) s ≤ℤ pos 100)
unfolding normalized
normalized_of_range lowest s n zero difference within small = (omega arith, omega arith)
normalized_of_range lowest s n (suc r) difference within small =
    normalized_pos lowest s n r difference within small

normalized-bounds :
    (lowest highest s : ℤ)
    → lowest ≤ℤ s
    → s ≤ℤ highest
    → negsuc 36028797018963967 ≤ℤ lowest
    → highest ≤ℤ pos 36028797018963968
    → let z = normalized lowest (to_int64 (highest -ℤ lowest)) s in (pos 0 ≤ℤ z) × (z ≤ℤ pos 100)
normalized-bounds lowest highest s above below low high =
    let whole = nonneg_pos (highest -ℤ lowest) (omega int_laws) in
    let part = nonneg_pos (s -ℤ lowest) (omega int_laws) in
    let whole_sign : neg_part (highest -ℤ lowest) ≡ 0 = ap neg_part whole in
    let part_sign : neg_part (s -ℤ lowest) ≡ 0 = ap neg_part part in
    let whole_parts = -ℤ_parts highest lowest in
    let part_parts = -ℤ_parts s lowest in
    let small : pos_part (highest -ℤ lowest) ≤ 72057594037927936 = omega arith in
    let range : to_int64 (highest -ℤ lowest) ≡ pos (pos_part (highest -ℤ lowest)) =
      ap to_int64 whole
      ∙ to_int64_id (pos (pos_part (highest -ℤ lowest))) (omega arith, omega arith) in
    subst (λ r. (pos 0 ≤ℤ normalized lowest r s) × (normalized lowest r s ≤ℤ pos 100)) (sym range)
      (normalized_of_range lowest s (pos_part (s -ℤ lowest)) (pos_part (highest -ℤ lowest)) part
        (omega arith) small)

map-bounds :
    (lowest highest : ℤ) (scores : List ℤ)
    → negsuc 36028797018963967 ≤ℤ lowest
    → highest ≤ℤ pos 36028797018963968
    → All (λ s. (s ≤ℤ highest) × (lowest ≤ℤ s)) scores
    → All
        (λ z. (pos 0 ≤ℤ z) × (z ≤ℤ pos 100))
        (map (normalized lowest (to_int64 (highest -ℤ lowest))) scores)
map-bounds lowest highest [] low high within = tt
map-bounds lowest highest (s ∷ scores) low high within = (
  normalized-bounds lowest highest s within.0.1 within.0.0 low high,
  map-bounds lowest highest scores low high within.1,
)

-- For scores of at most 2 ^ 55 in size, NormalizeScore of PodState gives every node a score from 0
-- to 100.
pub normalize_score-bounds :
    (scores : List ℤ)
    → All IsSmall scores
    → All (λ z. (pos 0 ≤ℤ z) × (z ≤ℤ pos 100)) (normalize_score scores)
unfolding normalize_score
normalize_score-bounds scores small =
    let ends = range_of scores (negsuc 9223372036854775806) (pos 9223372036854775807) in
    let (bounds, sides, within) =
      range_of-bounds scores (negsuc 9223372036854775806) (pos 9223372036854775807) small
        (omega arith) (omega arith) in
    map-bounds ends.1 ends.0 scores bounds.1 bounds.0 within
