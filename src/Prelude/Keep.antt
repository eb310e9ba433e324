-- ===== src/Prelude/Keep.antt =====
-- A loop that keeps the elements that pass a test.
use mathlib.Core.Path.{◌≡◌}
use mathlib.Core.Logic.{◌↔◌, inl, inr}
use mathlib.Core.Logic.Or
use mathlib.Core.Bool.{Bool, true, Bool-set}
use mathlib.Core.HLevel.{×_prop}
use mathlib.Core.List.{List, [], ◌∷◌, Mem, Mem-prop, mem-cons, not-mem-nil}
use flex_gpu_scheduler.Prelude.Tests.{if◌then◌else◌, Bool-cases}

module _ {ℓ} {A : Type ℓ} where
  abbrev pub keep_if : (A → Bool) → List A → List A
  keep_if test [] = []
  keep_if test (x ∷ xs) = let rest = keep_if test xs in if test x then x ∷ rest else rest

  module _ (test : A → Bool) (a : A) where
    pub mem-keep_if : (xs : List A) → Mem a (keep_if test xs) ↔ (Mem a xs × (test a ≡ true))
    mem-keep_if [] = (λ m. absurd (not-mem-nil m), λ m. absurd (not-mem-nil m.0))
    mem-keep_if (x ∷ xs) = elim (Bool-cases (test x)) [
      | inl pass ↦
          rw (pass, keep_if)
            (
              λ m.
                  Or.elim (×_prop Mem-prop (Bool-set _ _)) (mem-cons.0 m)
                    (λ e. (mem-cons.1 (Or.inl e), rw e pass))
                    (λ later.
                      let (old, good) = (mem-keep_if xs).0 later in
                      (mem-cons.1 (Or.inr old), good)),
              λ (m, good).
                  Or.elim Mem-prop (mem-cons.0 m) (λ e. mem-cons.1 (Or.inl e))
                    (λ later. mem-cons.1 (Or.inr ((mem-keep_if xs).1 (later, good)))),
            )
      | inr fail ↦
          rw (fail, keep_if)
            (
              λ m. let (old, good) = (mem-keep_if xs).0 m in (mem-cons.1 (Or.inr old), good),
              λ (m, good).
                  Or.elim Mem-prop (mem-cons.0 m) (λ e. cc)
                    (λ later. (mem-keep_if xs).1 (later, good)),
            )
    ]
