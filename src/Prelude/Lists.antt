-- ===== src/Prelude/Lists.antt =====
-- Lists measured and indexed by native numbers, under the library's names.
use Prim.Native.Nat.{ℕ, zero, suc, ◌+◌, ◌≤◌, ◌<◌}
use mathlib.Core.Path.{◌≡◌, refl, ap}
use mathlib.Core.List.{List, [], ◌∷◌, ◌++◌}
use mathlib.Core.Option.{Option, none, some, some-injective}
use mathlib.Core.Logic.{inl, inr}
use native.Mathlib.Omega.{arith}
use flex_gpu_scheduler.Prelude.Tests.{Option-cases, ◌==◌, if◌then◌else◌}

module _ {ℓ} {A : Type ℓ} where
  abbrev pub length : List A → ℕ
  length [] = 0
  length (x ∷ xs) = suc (length xs)

  abbrev pub get_elem? : List A → ℕ → Option A
  get_elem? [] i = none
  get_elem? (x ∷ xs) zero = some x
  get_elem? (x ∷ xs) (suc i) = get_elem? xs i

  -- `none` where the position is out of range.
  abbrev pub modify : List A → ℕ → (A → A) → Option (List A)
  modify [] i f = none
  modify (x ∷ xs) zero f = some (f x ∷ xs)
  modify (x ∷ xs) (suc i) f = elim (modify xs i f) [ none ↦ none | some ys ↦ some (x ∷ ys) ]

  pub length-append : (xs ys : List A) → length (xs ++ ys) ≡ length xs + length ys
  length-append [] ys = omega arith
  length-append (x ∷ xs) ys = omega (arith, length-append xs ys)

  -- A predicate on every element.
  abbrev pub All {κ} : (A → Type κ) → List A → Type κ
  All P [] = Unit
  All P (x ∷ xs) = P x × All P xs

  pub modify-none : (xs : List A) (k : ℕ) (f : A → A) → length xs ≤ k → modify xs k f ≡ none
  modify-none [] k f h = refl
  modify-none (x ∷ xs) zero f h = absurd (omega arith)
  modify-none (x ∷ xs) (suc k) f h = ground (arith, modify-none xs k f)

  pub modify-some :
      (xs : List A) (k : ℕ) (f : A → A) → k < length xs → (ys : List A) × (modify xs k f ≡ some ys)
  modify-some [] k f h = absurd (omega arith)
  modify-some (x ∷ xs) zero f h = (f x ∷ xs, refl)
  modify-some (x ∷ xs) (suc k) f h =
      let (ys, e) = modify-some xs k f (omega arith) in (x ∷ ys, ground arith)

  pub length-modify :
      (xs : List A) (k : ℕ) (f : A → A) (ys : List A)
      → modify xs k f ≡ some ys
      → length ys ≡ length xs
  length-modify [] k f ys e = cc
  length-modify (x ∷ xs) zero f ys e = ground arith
  length-modify (x ∷ xs) (suc k) f ys e = elim (Option-cases (modify xs k f)) [
    | inl bad ↦ ground arith
    | inr (zs, good) ↦ ground (arith, length-modify xs k f zs good)
  ]

  get_elem?-modify_tail :
      (xs : List A) (k i : ℕ) (f : A → A) (x : A) (zs ys : List A) (y : A)
      → modify xs k f ≡ some zs
      → ys ≡ x ∷ zs
      → get_elem? ys i ≡ some y
      → ((j : ℕ) (z : A)
          → get_elem? zs j ≡ some z
          → (w : A) × (get_elem? xs j ≡ some w) × (z ≡ (if k == j then f w else w)))
      → (w : A) × (get_elem? (x ∷ xs) i ≡ some w) × (y ≡ (if suc k == i then f w else w))
  get_elem?-modify_tail xs k zero f x zs ys y good e g rest =
      let same = ap (λ (l : List A). get_elem? l zero) e in (x, refl, ground arith)
  get_elem?-modify_tail xs k (suc j) f x zs ys y good e g rest =
      let same = ap (λ (l : List A). get_elem? l (suc j)) e in
      let (w, old, new) = rest j y (ground arith) in (w, old, ground arith)

  -- An element after a write comes from the one in its place before.
  pub get_elem?-modify :
      (xs : List A) (k i : ℕ) (f : A → A) (ys : List A) (y : A)
      → modify xs k f ≡ some ys
      → get_elem? ys i ≡ some y
      → (x : A) × (get_elem? xs i ≡ some x) × (y ≡ (if k == i then f x else x))
  get_elem?-modify [] k i f ys y e g = cc
  get_elem?-modify (x ∷ xs) zero zero f ys y e g =
      let same = ap (λ (l : List A). get_elem? l zero) (some-injective _ _ e) in
      (x, refl, ground arith)
  get_elem?-modify (x ∷ xs) zero (suc i) f ys y e g =
      let same = ap (λ (l : List A). get_elem? l (suc i)) (some-injective _ _ e) in
      (y, ground arith, ground arith)
  get_elem?-modify (x ∷ xs) (suc k) i f ys y e g = elim (Option-cases (modify xs k f)) [
    | inl bad ↦ ground arith
    | inr (zs, good) ↦
        get_elem?-modify_tail xs k i f x zs ys y good (ground arith) g
          (λ j z h. get_elem?-modify xs k j f zs z good h)
  ]
