-- ===== src/Api.antt =====
-- What the scheduler plugins are given and do not implement: the vendored Kubernetes packages and
-- Go's standard library. Objects are records with the fields that the plugins read. The functions
-- are fields of `Vendor`, with the documented behaviour that the proofs rest on.
use mathlib.Core.List.{Perm}
use flex_gpu_scheduler.Prelude.{
  ℕ, suc, ◌+◌, ◌≤◌, ◌≢◌, false, ℤ, pos, ◌+ℤ◌, ◌-ℤ◌, ◌≡◌, Bool, true, Ordering, compare_ℤ, String,
  Map, List, Option, some,
}

-- resource.Quantity (k8s.io/apimachinery), sort.Slice and strconv. Quantities are fixed-point
-- numbers: `amount` is the number that one stands for, in the smallest unit.
pub record Vendor : Type 1 where
  pub Quantity : Type 0
  -- resource.Quantity{}
  pub zero_value : Quantity
  pub new_quantity : ℤ → Quantity
  pub new_milli_quantity : ℤ → Quantity
  pub add : Quantity → Quantity → Quantity
  pub sub : Quantity → Quantity → Quantity
  -- The sign of Cmp's result.
  pub cmp : Quantity → Quantity → Ordering
  pub is_zero : Quantity → Bool
  -- Sign, as the comparison with zero.
  pub sign : Quantity → Ordering
  -- AsInt64: the value, and whether it is one.
  pub as_int64 : Quantity → ℤ × Bool
  pub amount : Quantity → ℤ
  pub amount-zero_value : amount zero_value ≡ pos 0
  pub amount-new_zero : amount (new_quantity (pos 0)) ≡ pos 0
  pub amount-add : (a b : Quantity) → amount (add a b) ≡ amount a +ℤ amount b
  pub amount-sub : (a b : Quantity) → amount (sub a b) ≡ amount a -ℤ amount b
  pub cmp-amount : (a b : Quantity) → cmp a b ≡ compare_ℤ (amount a) (amount b)
  pub sign-amount : (a : Quantity) → sign a ≡ compare_ℤ (amount a) (pos 0)
  pub is_zero-true : (a : Quantity) → is_zero a ≡ true → amount a ≡ pos 0
  pub is_zero-amount : (a : Quantity) → amount a ≡ pos 0 → is_zero a ≡ true
  pub as_int64-zero_value : as_int64 zero_value ≡ (pos 0, true)
  -- sort.Slice, over positions in a slice of GPU indexes.
  pub sort_slice : (ℕ → ℕ → Bool) → List ℕ → List ℕ
  pub sort_slice-perm : (less : ℕ → ℕ → Bool) (xs : List ℕ) → Perm (sort_slice less xs) xs
  pub itoa : ℕ → String
  -- `none` is an error.
  pub atoi : String → Option ℤ
  pub atoi-itoa : (n : ℕ) → atoi (itoa n) ≡ some (pos n)

-- A v1.Container: its Resources.Limits.
pub record Container (Quantity : Type 0) : Type 0 where
  pub limits : Map Quantity

-- A v1.Pod: the fields that the GPU plugin reads. A nil map of annotations reads as an empty one.
pub record Pod (Quantity : Type 0) : Type 0 where
  pub namespace : String
  pub name : String
  pub containers : List (Container Quantity)
  pub annotations : Map String

-- A framework.NodeInfo: the node's Status.Allocatable, and the pods on it.
pub record NodeInfo (Quantity : Type 0) : Type 0 where
  pub allocatable : Map Quantity
  pub pods : List (Pod Quantity)

-- The code of a framework.Status; a nil status is a success. Messages are left out.
pub data Status : Type 0 where
  success error unschedulable unschedulable_and_unresolvable wait : Status

-- github.com/patrickmn/go-cache: keys with a time until which they stay. `has` is the second result
-- of Get at a time. An added key stays for its duration, if that is positive; adding a key that is
-- there changes nothing.
pub record CacheOps : Type 1 where
  pub Cache : Type 0
  pub has : Cache → ℕ → String → Bool
  pub add : Cache → ℕ → String → ℤ → Cache
  pub delete : Cache → String → Cache
  pub has-add_new :
      (c : Cache) (now later d : ℕ) (k : String)
      → has c now k ≡ false
      → now ≤ later
      → later ≤ now + suc d
      → has (add c now k (pos (suc d))) later k ≡ true
  pub add_old : (c : Cache) (now : ℕ) (d : ℤ) (k : String) → has c now k ≡ true → add c now k d ≡ c
  pub has-add_other :
      (c : Cache) (now later : ℕ) (d : ℤ) (j k : String)
      → j ≢ k
      → has (add c now k d) later j ≡ has c later j
  pub has-delete : (c : Cache) (later : ℕ) (k : String) → has (delete c k) later k ≡ false
