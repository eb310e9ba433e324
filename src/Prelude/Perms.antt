-- ===== src/Prelude/Perms.antt =====
-- Short lists up to order.
use mathlib.Core.Path.{◌≡◌, sym, ap, subst}
use mathlib.Core.Logic.{◌↔◌}
use mathlib.Core.List.{List, [], ◌∷◌, Perm, mem-singleton, mem-cons_self}
use mathlib.Core.List.Perm
use native.Mathlib.Nat.{ℕ_set}
use Prim.Native.Nat.{ℕ}

pub Perm-nil : (xs ys : List ℕ) → Perm xs ys → (xs ≡ []) ↔ (ys ≡ [])
Perm-nil xs ys p = (
  λ e. sym (Perm.nil-eq (subst (λ (l : List ℕ). Perm l ys) e p)),
  λ e. Perm.eq-nil (subst (λ (l : List ℕ). Perm xs l) e p),
)

pub Perm-singleton : (xs : List ℕ) (a : ℕ) → Perm xs (a ∷ []) → xs ≡ a ∷ []
Perm-singleton [] a p = Perm.nil-eq p
Perm-singleton (b ∷ []) a p =
    ap (λ (x : ℕ). x ∷ []) ((mem-singleton ℕ_set).0 ((Perm.mem_iff p).0 mem-cons_self))
Perm-singleton (b ∷ c ∷ zs) a p = cc (Perm.length-eq p)
