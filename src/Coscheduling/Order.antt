-- ===== src/Coscheduling/Order.antt =====
-- Less (pkg/coscheduling/coscheduling.go), the order of the scheduling queue.

use flex_gpu_scheduler.Prelude.{◌≡◌, refl, ◌<ℤ◌, true, false, String, arith}
use flex_gpu_scheduler.Coscheduling.Manager.{World, get_namespaced_name}
use flex_gpu_scheduler.Coscheduling.Plugin.{string_lt, QueuedPodInfo, less}

string_lt_irrefl : (s : String) → string_lt s s ≡ false
unfolding string_lt
string_lt_irrefl String.[] = refl
string_lt_irrefl (String.◌∷◌ c s) = ground (arith, string_lt_irrefl s)

string_lt_trans :
    (s t u : String) → string_lt s t ≡ true → string_lt t u ≡ true → string_lt s u ≡ true
unfolding string_lt
string_lt_trans String.[] String.[] u p q = cc
string_lt_trans String.[] (String.◌∷◌ d t) String.[] p q = cc
string_lt_trans String.[] (String.◌∷◌ d t) (String.◌∷◌ e u) p q = refl
string_lt_trans (String.◌∷◌ c s) String.[] u p q = cc
string_lt_trans (String.◌∷◌ c s) (String.◌∷◌ d t) String.[] p q = cc
string_lt_trans (String.◌∷◌ c s) (String.◌∷◌ d t) (String.◌∷◌ e u) p q =
    ground (arith, string_lt_trans s t u)

module _ {Quantity : Type 0} (w : World Quantity) where
  less_irrefl : (a : QueuedPodInfo) → less w a a ≡ false
  unfolding less
  less_irrefl a = ground (arith, string_lt_irrefl (get_namespaced_name a.pod))

  less_trans : (a b c : QueuedPodInfo) → less w a b ≡ true → less w b c ≡ true → less w a c ≡ true
  unfolding less
  less_trans a b c p q = ground (
    arith,
    string_lt_trans (get_namespaced_name a.pod) (get_namespaced_name b.pod)
        (get_namespaced_name c.pod),
  )

  -- Less is irreflexive, asymmetric and transitive, and puts the pod with the higher priority
  -- first.
  pub less-IsStrictOrder :
      (a b c : QueuedPodInfo)
      → (less w a a ≡ false)
        × (less w a b ≡ true → less w b a ≡ false)
        × (less w a b ≡ true → less w b c ≡ true → less w a c ≡ true)
        × (b.pod.priority <ℤ a.pod.priority → less w a b ≡ true)
  unfolding less
  less-IsStrictOrder a b c = (
    less_irrefl a,
    λ p. ground (arith, less_trans a b a, less_irrefl a),
    less_trans a b c,
    λ h. ground arith,
  )
