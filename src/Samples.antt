-- ===== src/Samples.antt =====
-- A concrete stand-in for the vendored packages, at which the theorems' hypotheses hold: quantities
-- are integers, the sort keeps the order, and a number is printed as so many ticks.

use mathlib.Core.List.Perm
use flex_gpu_scheduler.Prelude.{
  leb, str_eq, eq_iff, if◌then◌else◌, ◌≢◌, ◌≤◌, ◌+◌, if-true, if-false, Bool-cases, inl, inr, ℕ,
  zero, suc, ◌≡◌, refl, ap, ℤ, pos, ◌+ℤ◌, ◌-ℤ◌, compare_ℤ, Bool, true, false, Ordering, String,
  Option, none, some, arith,
}
use flex_gpu_scheduler.Api.{Vendor, CacheOps}

abbrev pub ticks : ℕ → String
ticks zero = String.◌∷◌ "x" String.[]
ticks (suc n) = String.◌∷◌ "x" (ticks n)

abbrev pub count_ticks : String → ℕ
count_ticks String.[] = 0
count_ticks (String.◌∷◌ c s) = suc (count_ticks s)

abbrev pub read_ticks : String → Option ℤ
read_ticks String.[] = none
read_ticks (String.◌∷◌ c s) = some (pos (count_ticks s))

count_ticks-ticks : (n : ℕ) → count_ticks (ticks n) ≡ suc n
count_ticks-ticks zero = refl
count_ticks-ticks (suc n) = ap suc (count_ticks-ticks n)

pub read_ticks-ticks : (n : ℕ) → read_ticks (ticks n) ≡ some (pos n)
read_ticks-ticks zero = refl
read_ticks-ticks (suc n) = ground (arith, count_ticks-ticks n)

abbrev pub is_zero_ℤ : ℤ → Bool
is_zero_ℤ a = elim (compare_ℤ a (pos 0)) [ Ordering.eq ↦ true | _ ↦ false ]

pub is_zero_ℤ-true : (a : ℤ) → is_zero_ℤ a ≡ true → a ≡ pos 0
is_zero_ℤ-true a e = ground arith

pub zero-is_zero_ℤ : (a : ℤ) → a ≡ pos 0 → is_zero_ℤ a ≡ true
zero-is_zero_ℤ a e = ground arith

abbrev pub sample_vendor : Vendor
sample_vendor = record {
  Quantity = ℤ;
  zero_value = pos 0;
  new_quantity = λ n. n;
  new_milli_quantity = λ n. n;
  add = ◌+ℤ◌;
  sub = ◌-ℤ◌;
  cmp = compare_ℤ;
  is_zero = is_zero_ℤ;
  sign = λ n. compare_ℤ n (pos 0);
  as_int64 = λ n. (n, true);
  amount = λ n. n;
  amount-zero_value = refl;
  amount-new_zero = refl;
  amount-add = λ a b. refl;
  amount-sub = λ a b. refl;
  cmp-amount = λ a b. refl;
  sign-amount = λ a. refl;
  is_zero-true = is_zero_ℤ-true;
  is_zero-amount = zero-is_zero_ℤ;
  as_int64-zero_value = refl;
  sort_slice = λ less xs. xs;
  sort_slice-perm = λ less xs. Perm.refl xs;
  itoa = ticks;
  atoi = read_ticks;
  atoi-itoa = read_ticks-ticks;
}

-- Keys with the time that each stays until: `some none` stays for ever.
abbrev pub SampleCache : Type 0
SampleCache = String → Option (Option ℕ)

abbrev pub stays : Option (Option ℕ) → ℕ → Bool
stays none now = false
stays (some none) now = true
stays (some (some end)) now = leb now end

abbrev pub end_of : ℕ → ℤ → Option ℕ
end_of now (pos (suc d)) = some (now + suc d)
end_of now d = none

abbrev pub put : SampleCache → String → Option (Option ℕ) → SampleCache
put c k e j = if str_eq j k then e else c j

abbrev pub put_new : SampleCache → ℕ → String → ℤ → SampleCache
put_new c now k d = if stays (c k) now then c else put c k (some (end_of now d))

pub same-put : (c : SampleCache) (k : String) (e : Option (Option ℕ)) → put c k e k ≡ e
same-put c k e = if-true e (c k) ((eq_iff k k).1 refl)

pub other-put : (c : SampleCache) (j k : String) (e : Option (Option ℕ)) → j ≢ k → put c k e j ≡ c j
other-put c j k e apart = elim (Bool-cases (str_eq j k)) [
  | inl same ↦ absurd (apart ((eq_iff j k).0 same))
  | inr differ ↦ if-false e (c j) differ
]

pub stays-put_new :
    (c : SampleCache) (now later d : ℕ) (k : String)
    → stays (c k) now ≡ false
    → now ≤ later
    → later ≤ now + suc d
    → stays (put_new c now k (pos (suc d)) k) later ≡ true
stays-put_new c now later d k fresh after within =
    rw (fresh, same-put c k (some (some (now + suc d)))) (ground arith)

pub put_new_old :
    (c : SampleCache) (now : ℕ) (d : ℤ) (k : String)
    → stays (c k) now ≡ true
    → put_new c now k d ≡ c
put_new_old c now d k there = if-true c (put c k (some (end_of now d))) there

pub stays-put_other :
    (c : SampleCache) (now later : ℕ) (d : ℤ) (j k : String)
    → j ≢ k
    → stays (put_new c now k d j) later ≡ stays (c j) later
stays-put_other c now later d j k apart = elim (Bool-cases (stays (c k) now)) [
  | inl there ↦ rw there refl
  | inr fresh ↦ rw (fresh, other-put c j k (some (end_of now d)) apart) refl
]

pub stays-drop : (c : SampleCache) (later : ℕ) (k : String) → stays (put c k none k) later ≡ false
stays-drop c later k = rw (same-put c k none) refl

abbrev pub sample_cache : CacheOps
sample_cache = record {
  Cache = SampleCache;
  has = λ c now k. stays (c k) now;
  add = put_new;
  delete = λ c k. put c k none;
  has-add_new = stays-put_new;
  add_old = put_new_old;
  has-add_other = stays-put_other;
  has-delete = stays-drop;
}
