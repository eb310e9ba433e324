-- ===== src/Capacity/Wrap.antt =====
-- The arithmetic of int64 values.
use Prim.Native.Nat.{◌/◌}
use flex_gpu_scheduler.Prelude.{
  ℕ, suc, ◌+◌, ◌*◌, ◌≤◌, ◌<◌, ◌≡◌, ℤ, pos, negsuc, ◌+ℤ◌, ◌-ℤ◌, int_laws, arith, inl, inr, ltb, ◌%◌,
  ◌-◌, Bool-cases,
}
use flex_gpu_scheduler.Prelude.Int.{pos_part, neg_part}
use flex_gpu_scheduler.PodGroups.{to_int64}

-- Two integers that differ by a multiple of 2 ^ 64.
abbrev pub Congruent : ℤ → ℤ → Type 0
Congruent a b =
    (k : ℕ) × (l : ℕ) × (pos_part a + neg_part b + 18446744073709551616 * k
      ≡ pos_part b + neg_part a + 18446744073709551616 * l)

abbrev pub IsInt64 : ℤ → Type 0
IsInt64 a = (pos_part a < 9223372036854775808) × (neg_part a ≤ 9223372036854775808)

pub to_int64-IsInt64 : (a : ℤ) → IsInt64 (to_int64 a)
unfolding to_int64
to_int64-IsInt64 a = ground arith

to_int64-Congruent : (a : ℤ) → Congruent (to_int64 a) a
unfolding to_int64
to_int64-Congruent (pos n) =
    elim (Bool-cases (ltb (n % 18446744073709551616) 9223372036854775808)) [
      | inl low ↦ (n / 18446744073709551616, 0, ground arith)
      | inr high ↦ (suc (n / 18446744073709551616), 0, ground arith)
    ]
to_int64-Congruent (negsuc n) =
    elim (Bool-cases (ltb (18446744073709551615 - n % 18446744073709551616) 9223372036854775808)) [
      | inl low ↦ (0, suc (n / 18446744073709551616), ground arith)
      | inr high ↦ (0, n / 18446744073709551616, ground arith)
    ]

unique_IsInt64 : (a b : ℤ) → IsInt64 a → IsInt64 b → Congruent a b → a ≡ b
unique_IsInt64 a b small_a small_b (k, l, e) = omega int_laws

Congruent-to_int64 : (a b : ℤ) → Congruent a b → to_int64 a ≡ to_int64 b
Congruent-to_int64 a b (k, l, e) =
    let (k1, l1, e1) = to_int64-Congruent a in
    let (k2, l2, e2) = to_int64-Congruent b in
    unique_IsInt64 (to_int64 a) (to_int64 b) (to_int64-IsInt64 a) (to_int64-IsInt64 b)
      (k1 + k + l2, l1 + l + k2, omega arith)

pub to_int64_id : (a : ℤ) → IsInt64 a → to_int64 a ≡ a
unfolding to_int64
to_int64_id a small = ground arith

-- A wrapped operand of a sum or a difference, when the result is wrapped.
pub to_int64-add : (a b : ℤ) → to_int64 (to_int64 a +ℤ b) ≡ to_int64 (a +ℤ b)
to_int64-add a b =
    let (k, l, e) = to_int64-Congruent a in
    Congruent-to_int64 (to_int64 a +ℤ b) (a +ℤ b) (k, l, omega int_laws)

pub to_int64-sub : (a b : ℤ) → to_int64 (to_int64 a -ℤ b) ≡ to_int64 (a -ℤ b)
to_int64-sub a b =
    let (k, l, e) = to_int64-Congruent a in
    Congruent-to_int64 (to_int64 a -ℤ b) (a -ℤ b) (k, l, omega int_laws)

-- What is added and then taken off again, on an int64.
pub to_int64_cancel : (a b : ℤ) → IsInt64 a → to_int64 (to_int64 (a +ℤ b) -ℤ b) ≡ a
to_int64_cancel a b small =
    let back : a +ℤ b -ℤ b ≡ a = omega int_laws in
    rw (to_int64-sub (a +ℤ b) b, back) (to_int64_id a small)
